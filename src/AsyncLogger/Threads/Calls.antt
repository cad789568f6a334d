-- ===== src/AsyncLogger/Threads/Calls.antt =====
-- What a move of the worker of src/asynclogger.cpp in `tryPop` does with the lines.
use zephyrlog.Prelude.{
  ℕ, ◌≡◌, ◌≢◌, arith, ◌⊎◌, refl, sym, ◌∙◌, Option, none, some, List, [], ◌∷◌, ◌++◌, Bool, true,
  false, inl, inr, append-nil,
}
use zephyrlog.LogLine.{LogLine}
use zephyrlog.QueueBuffer.{Buffer, QueueBuffer, read_item, get_next_read_buffer}
use zephyrlog.QueueBuffer.Threads.{
  Memory, Pc, idle, sought, found, reading, finishing, freeing, freed, Move, begins, claims,
  overshoots, waits, retries, loads, writes, counts, completes, spins, locks, unlocks, stores,
  queues, resets, seeks, polls, fronts, finds_none, misses, takes, finishes, frees, behind_lock,
  behind_unlock,
}
use zephyrlog.QueueBuffer.Threads.Places.{consumes}
use zephyrlog.QueueBuffer.Threads.Order.{claimed_by, delivered_by}
use zephyrlog.AsyncLogger.Threads.{returned, result}

-- The line that a call has moved out and not returned yet.
abbrev pub hand : Pc → List LogLine
hand (finishing l) = l ∷ []
hand (freeing l) = l ∷ []
hand (freed l) = l ∷ []
hand _ = []

abbrev pub given : Option (Option LogLine) → List LogLine
given (some (some l)) = l ∷ []
given _ = []

hand-lock : (p : Pc) {p' : Pc} → behind_lock p ≡ some p' → hand p ≡ hand p'
hand-lock p e = ground arith

hand-unlock :
    (p : Pc) {p' : Pc} → behind_unlock p ≡ some p' → hand p ≡ given (returned p) ++ hand p'
hand-unlock p e = ground arith

-- The line in the hand, and the one that a move moves out, is returned or in the hand.
pub Move-hand :
    {size a : ℕ} {m m' : Memory} {p p' : Pc}
    → (mv : Move size m a p m' p') → hand p ++ delivered_by mv ≡ given (result mv) ++ hand p'
Move-hand (begins l n) = refl
Move-hand (claims e h) = refl
Move-hand (overshoots e h) = refl
Move-hand (waits h) = refl
Move-hand (retries h) = refl
Move-hand loads = refl
Move-hand (writes e) = refl
Move-hand (counts e) = refl
Move-hand (completes e) = refl
Move-hand (spins {p} e g) = append-nil (hand p)
Move-hand (locks {p} e g) = append-nil (hand p) ∙ hand-lock p e
Move-hand (unlocks {p} e) = append-nil (hand p) ∙ hand-unlock p e
Move-hand stores = refl
Move-hand queues = refl
Move-hand resets = refl
Move-hand (seeks z e) = refl
Move-hand (polls z e) = refl
Move-hand fronts = refl
Move-hand (finds_none e) = refl
Move-hand (misses e h k) = refl
Move-hand (takes e h k n) = refl
Move-hand (finishes e h k n) = refl
Move-hand (frees e) = refl

pub producer-delivered_by :
    {size a : ℕ} {m m' : Memory} {p p' : Pc}
    → (mv : Move size m a p m' p') → consumes p ≡ false
    → delivered_by mv ≡ []
producer-delivered_by (takes e h k n) c = cc c
producer-delivered_by (finishes e h k n) c = cc c
producer-delivered_by _ c = refl

returned-idle :
    (p : Pc) {p' : Pc} {o : Option LogLine}
    → behind_unlock p ≡ some p'
    → returned p ≡ some o
    → p' ≡ idle
returned-idle p e k = ground arith

-- The call has ended.
pub result-idle :
    {size a : ℕ} {m m' : Memory} {p p' : Pc} {o : Option LogLine}
    → (mv : Move size m a p m' p') → result mv ≡ some o
    → p' ≡ idle
result-idle (unlocks {p} e) k = returned-idle p e k
result-idle (finds_none e) k = refl
result-idle (misses e h r) k = refl
result-idle (takes e h r n) k = refl
result-idle _ k = cc k

-- A call that has looked for a block.
abbrev pub at_block : Pc → Bool
at_block found = true
at_block reading = true
at_block _ = false

at_block-lock : (p : Pc) {p' : Pc} → behind_lock p ≡ some p' → at_block p' ≡ false
at_block-lock p e = ground arith

at_block-spin : (p : Pc) {p' : Pc} → behind_lock p ≡ some p' → at_block p ≡ false
at_block-spin p e = ground arith

at_block-unlock :
    (p : Pc) {p' : Pc} → behind_unlock p ≡ some p' → at_block p' ≡ true → at_block p ≡ true
at_block-unlock p e k = ground arith

-- It has found none: it has just looked, or had found none before.
pub result-at_block :
    {size a : ℕ} {m m' : Memory} {p p' : Pc}
    → (mv : Move size m a p m' p') → at_block p' ≡ true
    → m'.queue.current_read_buffer ≡ none
    → (claimed_by mv ≡ [])
      × (delivered_by mv ≡ [])
      × (((p ≡ sought) × (get_next_read_buffer m.queue ≡ none))
          ⊎ ((at_block p ≡ true) × (m.queue.current_read_buffer ≡ none)))
result-at_block fronts k e = (refl, refl, inl (refl, e))
result-at_block (unlocks {p} u) k e = (refl, refl, inr (at_block-unlock p u k, e))
result-at_block (polls z h) k e = cc (sym e ∙ h)
result-at_block (spins {p} g h) k e = cc (sym (at_block-spin p g) ∙ k)
result-at_block (locks {p} g h) k e = cc (sym (at_block-lock p g) ∙ k)
result-at_block _ k e = cc k

returned-line : (p : Pc) → returned p ≢ some none
returned-line p e = ground arith

-- A call that returns no line: it had found no block, or the next item of the block is not shown.
pub data Missed (q : QueueBuffer) : Type 0 where
  no_block : q.current_read_buffer ≡ none → Missed q
  no_item :
      (p : ℕ) (b b' : Buffer)
      → q.current_read_buffer ≡ some p
      → q.heap p ≡ some b
      → read_item q.read_index b ≡ some (none, b')
      → Missed q

pub result-Missed :
    {size a : ℕ} {m m' : Memory} {p p' : Pc}
    → (mv : Move size m a p m' p') → result mv ≡ some none
    → (p ≡ reading) × (claimed_by mv ≡ []) × (delivered_by mv ≡ []) × Missed m.queue
result-Missed (finds_none e) k = (refl, refl, refl, no_block e)
result-Missed (misses {p} {b} {b'} e h r) k = (refl, refl, refl, no_item p b b' e h r)
result-Missed (unlocks {p} e) k = absurd (returned-line p k)
result-Missed (takes e h r n) k = cc k
result-Missed _ k = cc k
