-- ===== src/RingBuffer/Threads/Tests.antt =====
-- The theorems on the threads at concrete inputs: a ring of one slot, and one call of `push`.
use zephyrlog.Prelude.{ℕ, ◌≡◌, ◌≢◌, refl, List, [], ◌∷◌, arith, Bool-cases, inl, inr, ◌==◌, some}
use zephyrlog.LogLine.{LogLine, fresh}
use zephyrlog.SpinLock.{test_and_set, clear}
use zephyrlog.RingBuffer.{RingBuffer, ring_buffer, items, claim}
use zephyrlog.RingBuffer.Threads.{
  System, Trace, nothing, more, claims, spins, locks, moves, marks, unlocks, idle, entered, Event,
  silent, claiming, publishing,
}
use zephyrlog.RingBuffer.Threads.Exclusion.{holds, mutual_exclusion}
use zephyrlog.RingBuffer.Threads.Atomic.{Deeds, Rel, Trace-Deeds, idle-Deeds}

abbrev line : LogLine
line = fresh (7 ∷ [])

abbrev one_slot : RingBuffer
one_slot = ring_buffer (λ _. fresh []) 1

-- The thread has claimed the slot and holds its lock.
locked : (s : System) × Trace one_slot (silent ∷ claiming 0 ∷ []) s × (s.pc 1 ≡ entered 0 line)
unfolding claim ring_buffer items test_and_set
locked =
    let t₁ = more 1 nothing (claims line (omega arith) refl) in (_, more 1 t₁ (locks refl), refl)

-- Another thread has claimed the same slot, and has found the lock taken.
contended :
    (s : System) × Trace one_slot (silent ∷ claiming 0 ∷ silent ∷ claiming 0 ∷ []) s
    × (s.pc 1 ≡ entered 0 line)
unfolding claim ring_buffer items test_and_set
contended =
    let t₁ = more 1 nothing (claims line (omega arith) refl) in
    let t₂ = more 1 t₁ (locks refl) in
    let t₃ = more 2 t₂ (claims line (omega arith) refl) in (_, more 2 t₃ (spins refl), refl)

mutual_exclusion_example : holds (contended.0.pc 2) ≢ some 0
mutual_exclusion_example = mutual_exclusion 1 2 0 contended.1 (omega arith) (rw contended.2)

abbrev pushing : List Event
pushing = silent ∷ silent ∷ publishing 0 line ∷ silent ∷ claiming 0 ∷ []

-- The call has returned.
pushed : (s : System) × Trace one_slot pushing s × ((a : ℕ) → s.pc a ≡ idle)
unfolding claim ring_buffer items test_and_set clear
pushed =
    let t₁ = more 1 nothing (claims line (omega arith) refl) in
    let t₂ = more 1 t₁ (locks refl) in
    let t₃ = more 1 t₂ (moves refl) in
    let t₄ = more 1 t₃ (marks refl) in
    (_, more 1 t₄ unlocks, λ a. elim (Bool-cases (a == 1)) [ inl e ↦ rw e | inr e ↦ rw e ])

idle-Deeds_example : Deeds pushing one_slot pushed.0.mem.ring
idle-Deeds_example = idle-Deeds pushed.1 pushed.2

Trace-Deeds_example :
    (r' : RingBuffer) × Deeds (silent ∷ claiming 0 ∷ []) one_slot r' × Rel locked.0 r'
Trace-Deeds_example = Trace-Deeds locked.1
