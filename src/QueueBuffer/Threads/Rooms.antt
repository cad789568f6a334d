-- ===== src/QueueBuffer/Threads/Rooms.antt =====
-- The items of the block that producers write which are still to be written.
use zephyrlog.Prelude.{
  ℕ, ◌+◌, ◌≤◌, ◌<◌, ◌≡◌, ◌≢◌, ap, ◌∙◌, none, some, Bool, true, false, ◌==◌, arith, Bool-cases, inl,
  inr, get_elem?,
}
use zephyrlog.QueueBuffer.{Buffer, QueueBuffer, uint_max, claim}
use zephyrlog.QueueBuffer.Threads.{
  Memory, Pc, entered, System, Move, claims, overshoots, loads, writes, counts, completes, spins,
  locks, unlocks, stores, queues, resets, frees, behind_lock, behind_unlock,
}
use zephyrlog.QueueBuffer.Threads.Places.{pending, renews}
use zephyrlog.QueueBuffer.Threads.Frames.{count_at-frame, write_at-frame, pop_buffer-frame}
use zephyrlog.QueueBuffer.Threads.Counted.{after}

-- An index that nobody has claimed, or that a thread has claimed and not written to, or any one
-- before the index is set back.
pub data Room (s : System) (j : ℕ) : Type 0 where
  ahead : s.mem.queue.write_index ≤ j → Room s j
  held : (a : ℕ) → pending (s.pc a) ≡ some j → Room s j
  renewing : (a : ℕ) → renews (s.pc a) ≡ true → Room s j

-- The item is raw memory, and its state is 0.
abbrev pub BlankAt : QueueBuffer → ℕ → Type 0
BlankAt q j =
    (b : Buffer) × (q.heap q.current_write_buffer ≡ some b)
    × (get_elem? b.items j ≡ some none)
    × (get_elem? b.write_state j ≡ some 0)

-- The place behind which the block changes.
abbrev pub storing : Pc → Bool
storing entered = true
storing _ = false

pending_lock : (p : Pc) {p' : Pc} {j : ℕ} → behind_lock p ≡ some p' → pending p' ≢ some j
pending_lock p e k = ground arith

pending_unlock : (p : Pc) {p' : Pc} {j : ℕ} → behind_unlock p ≡ some p' → pending p' ≢ some j
pending_unlock p e k = ground arith

renews_lock : (p : Pc) {p' : Pc} → behind_lock p ≡ some p' → renews p' ≢ true
renews_lock p e k = ground arith

renews_unlock : (p : Pc) {p' : Pc} → behind_unlock p ≡ some p' → renews p' ≢ true
renews_unlock p e k = ground arith

module _ {size : ℕ} (s : System) (a : ℕ) (small : s.mem.queue.write_index + 1 < uint_max)
    (j : ℕ) where
  Room-pending :
      {p p' : Pc} {m : Memory}
      → Move size s.mem a p m p'
      → s.pc a ≡ p
      → pending p' ≡ some j
      → Room s j
  unfolding claim
  Room-pending (claims {i} e h) here k = ahead (ground arith)
  Room-pending loads here k = held a (ap pending here ∙ k)
  Room-pending (spins e g) here k = held a (ap pending here ∙ k)
  Room-pending {p} (locks e g) here k = absurd (pending_lock p e k)
  Room-pending {p} (unlocks e) here k = absurd (pending_unlock p e k)
  Room-pending _ here k = cc k

  Room-renews :
      {p p' : Pc} {m : Memory}
      → Move size s.mem a p m p'
      → s.pc a ≡ p
      → storing p ≡ false
      → renews p' ≡ true
      → Room s j
  Room-renews queues here n k = renewing a (ap renews here)
  Room-renews (spins e g) here n k = renewing a (ap renews here ∙ k)
  Room-renews {p} (locks e g) here n k = absurd (renews_lock p e k)
  Room-renews {p} (unlocks e) here n k = absurd (renews_unlock p e k)
  Room-renews stores here n k = cc n
  Room-renews _ here n k = cc k

  Room-index :
      {p p' : Pc} {m : Memory}
      → Move size s.mem a p m p'
      → s.pc a ≡ p
      → m.queue.write_index ≤ j
      → Room s j
  unfolding claim
  Room-index (claims e h) here k = ahead (ground arith)
  Room-index (overshoots e h) here k = ahead (ground arith)
  Room-index (writes {p} {i} {l} {q} e) here k =
      let (_, _, _, next, _, _, _) = write_at-frame p i l s.mem.queue q e in
      ahead (omega (arith, k, ap (λ (x : QueueBuffer). x.write_index) next))
  Room-index (counts {p} {i} {q} e) here k =
      let (_, _, _, next) = count_at-frame size p false s.mem.queue q e in
      ahead (omega (arith, k, ap (λ (x : QueueBuffer). x.write_index) next))
  Room-index (completes {p} {i} {q} e) here k =
      let (_, _, _, next) = count_at-frame size p true s.mem.queue q e in
      ahead (omega (arith, k, ap (λ (x : QueueBuffer). x.write_index) next))
  Room-index (frees {l} {q} e) here k =
      let (_, _, _, next) = pop_buffer-frame s.mem.queue q e in
      ahead (omega (arith, k, ap (λ (x : QueueBuffer). x.write_index) next))
  Room-index resets here k = renewing a (ap renews here)
  Room-index _ here k = ahead k

  -- A move makes no room but by storing a new block.
  pub Move-Room :
      {p p' : Pc} {m : Memory}
      → Move size s.mem a p m p'
      → s.pc a ≡ p
      → storing p ≡ false
      → Room (after s a m p') j
      → Room s j
  Move-Room mv here n (ahead h) = Room-index mv here h
  Move-Room {p} {p'} mv here n (held b h) = elim (Bool-cases (b == a)) [
    | inl same ↦ Room-pending mv here (rw same at h)
    | inr differs ↦ held b (rw differs at h)
  ]
  Move-Room {p} {p'} mv here n (renewing b h) = elim (Bool-cases (b == a)) [
    | inl same ↦ Room-renews mv here n (rw same at h)
    | inr differs ↦ renewing b (rw differs at h)
  ]
