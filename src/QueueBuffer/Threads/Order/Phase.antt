-- ===== src/QueueBuffer/Threads/Order/Phase.antt =====
-- How many lines have been claimed, and how far the queue of blocks reaches.
use zephyrlog.Prelude.{
  ℕ, ◌+◌, ◌<◌, ◌≡◌, ◌≢◌, refl, sym, ap, ◌∙◌, min, false, ◌==◌, arith, Bool-cases, inl, inr,
}
use zephyrlog.SpinLock.{Flags}
use zephyrlog.LogLine.{LogLine}
use zephyrlog.QueueBuffer.{QueueBuffer, open_block, queue_block, reset_index}
use zephyrlog.QueueBuffer.Threads.{Memory, Pc, entered, stored, queued, opened, claimed, System}
use zephyrlog.QueueBuffer.Threads.Places.{opens, renews, update_pc_self, update_pc_other}
use zephyrlog.QueueBuffer.Threads.Counted.{Counted, after}
use zephyrlog.QueueBuffer.Threads.Order.Offset.{offset, offset-add_one}

-- `n` lines are claimed, and the queue of blocks reaches to the address `g`: the items of the blocks
-- before the current one are claimed, and of that those below the index; while a thread opens a
-- block, none of its items.
pub data Phase (size : ℕ) (s : System) (n g : ℕ) : Type 0 where
  settled :
      ((a : ℕ) → renews (s.pc a) ≡ false)
      → g ≡ s.mem.queue.next_address
      → n + size ≡ offset size s.mem.queue.current_write_buffer + min s.mem.queue.write_index size
      → Phase size s n g
  storing :
      (a : ℕ)
      → s.pc a ≡ stored g
      → g + 1 ≡ s.mem.queue.next_address
      → n + size ≡ offset size s.mem.queue.current_write_buffer
      → Phase size s n g
  renewing :
      (a : ℕ)
      → s.pc a ≡ queued
      → g ≡ s.mem.queue.next_address
      → n + size ≡ offset size s.mem.queue.current_write_buffer
      → Phase size s n g

renews-stored : (p : Pc) (x : ℕ) → renews p ≡ false → p ≢ stored x
renews-stored p x e h = cc (sym e ∙ ap renews h)

-- A move of a thread that opens no block.
pub Phase_keep :
    {size : ℕ} {s : System} (a : ℕ) {n g : ℕ} (m : Memory) (p' : Pc)
    → renews (s.pc a) ≡ false
    → renews p' ≡ false
    → m.queue.next_address ≡ s.mem.queue.next_address
    → m.queue.current_write_buffer ≡ s.mem.queue.current_write_buffer
    → min m.queue.write_index size ≡ min s.mem.queue.write_index size
    → Phase size s n g
    → Phase size (after s a m p') n g
Phase_keep {size} {s} a m p' off off' next block index (settled quiet e k) =
    settled
      (λ b. elim (Bool-cases (b == a)) [
        | inl same ↦ rw same off'
        | inr differs ↦ rw differs (quiet b)
      ])
      (e ∙ sym next) (omega (arith, k, index, ap (offset size) block))
Phase_keep {size} {s} a m p' off off' next block index (storing b here e k) =
    let other : b ≢ a =
      λ same. cc (sym off ∙ ap (λ (c : ℕ). renews (s.pc c)) (sym same) ∙ ap renews here) in
    storing b (update_pc_other a b p' s.pc other ∙ here) (e ∙ sym next)
      (k ∙ ap (offset size) (sym block))
Phase_keep {size} {s} a m p' off off' next block index (renewing b here e k) =
    let other : b ≢ a =
      λ same. cc (sym off ∙ ap (λ (c : ℕ). renews (s.pc c)) (sym same) ∙ ap renews here) in
    renewing b (update_pc_other a b p' s.pc other ∙ here) (e ∙ sym next)
      (k ∙ ap (offset size) (sym block))

module _ {size : ℕ} {s : System} {f : Flags} (c : Counted size s f) (a : ℕ) where
  abbrev q : QueueBuffer
  q = s.mem.queue

  -- With an index in range no thread opens a block.
  pub claim_place :
      {n g : ℕ}
      → q.write_index < size
      → Phase size s n g
      → ((b : ℕ) → renews (s.pc b) ≡ false)
        × (g ≡ q.next_address)
        × (n + size ≡ offset size q.current_write_buffer + q.write_index)
  claim_place h (settled quiet e k) = (quiet, e, omega (arith, k, h))
  claim_place h (storing b here e k) =
      let (high, _) = c.full b (ap opens here) in absurd (omega (arith, high, h))
  claim_place h (renewing b here e k) =
      let (high, _) = c.full b (ap opens here) in absurd (omega (arith, high, h))

  pub Phase-claims :
      {n g : ℕ} (m : Memory) (i : ℕ) (l : LogLine)
      → q.write_index < size
      → m.queue ≡ record q { write_index = q.write_index + 1 }
      → Phase size s n g
      → Phase size (after s a m (claimed i l)) (n + 1) g
  Phase-claims m i l h next phase =
      let (quiet, e, k) = claim_place h phase in
      let index = ap (λ (x : QueueBuffer). x.write_index) next in
      settled
        (λ b. elim (Bool-cases (b == a)) [
          | inl same ↦ rw same refl
          | inr differs ↦ rw differs (quiet b)
        ])
        (e ∙ sym (ap (λ (x : QueueBuffer). x.next_address) next))
        (omega
          (arith, k, h, index, ap (λ (x : QueueBuffer). offset size x.current_write_buffer) next))

  pub Phase-stores :
      {n g : ℕ}
      → s.pc a ≡ entered
      → q.next_address ≡ q.current_write_buffer + 1
      → Phase size s n g
      → Phase size
          (after s a (record s.mem { queue = open_block size q }) (stored q.next_address))
          n
          g
  Phase-stores here last (settled quiet e k) =
      let (high, _) = c.full a (ap opens here) in
      storing a (update_pc_self a _ s.pc ∙ ap stored (sym e)) (omega (arith, e))
        (omega (arith, k, high, ap (offset size) last, offset-add_one size q.current_write_buffer))
  Phase-stores here last (storing b there e k) =
      let same = c.one a b (ap opens here) (ap opens there) in cc (sym here ∙ ap s.pc same ∙ there)
  Phase-stores here last (renewing b there e k) =
      let same = c.one a b (ap opens here) (ap opens there) in cc (sym here ∙ ap s.pc same ∙ there)

  -- All the places before the next block are claimed.
  pub storing_place :
      {n g : ℕ}
      → s.pc a ≡ entered
      → q.next_address ≡ q.current_write_buffer + 1
      → Phase size s n g
      → n + size ≡ offset size q.next_address
  storing_place here last (settled quiet e k) =
      let (high, _) = c.full a (ap opens here) in
      omega (arith, k, high, ap (offset size) last, offset-add_one size q.current_write_buffer)
  storing_place here last (storing b there e k) =
      let same = c.one a b (ap opens here) (ap opens there) in cc (sym here ∙ ap s.pc same ∙ there)
  storing_place here last (renewing b there e k) =
      let same = c.one a b (ap opens here) (ap opens there) in cc (sym here ∙ ap s.pc same ∙ there)

  pub Phase-queues :
      {n g : ℕ} (x : ℕ)
      → s.pc a ≡ stored x
      → Phase size s n g
      → (x ≡ g) × Phase size (after s a (record s.mem { queue = queue_block x q }) queued) n (g + 1)
  Phase-queues x here (settled quiet e k) = cc (sym (quiet a) ∙ ap renews here)
  Phase-queues x here (storing b there e k) =
      let same = c.one a b (ap opens here) (ap opens there) in
      (cc (sym here ∙ ap s.pc same ∙ there), renewing a (update_pc_self a _ s.pc) e k)
  Phase-queues x here (renewing b there e k) =
      let same = c.one a b (ap opens here) (ap opens there) in cc (sym here ∙ ap s.pc same ∙ there)

  pub Phase-resets :
      {n g : ℕ}
      → s.pc a ≡ queued
      → Phase size s n g
      → Phase size (after s a (record s.mem { queue = reset_index q }) opened) n g
  Phase-resets here (settled quiet e k) = cc (sym (quiet a) ∙ ap renews here)
  Phase-resets here (storing b there e k) =
      let same = c.one a b (ap opens here) (ap opens there) in cc (sym here ∙ ap s.pc same ∙ there)
  Phase-resets here (renewing b there e k) =
      settled (λ d. ground (arith, c.one d a, here)) e (omega (arith, k))
