-- ===== src/QueueBuffer/Threads/Steps.antt =====
-- The count of a block under every move.
use zephyrlog.Prelude.{
  ℕ, ◌+◌, ◌<◌, ◌≡◌, refl, sym, ap, ◌∙◌, subst, Option, none, some, true, false, ◌==◌, arith,
  Bool-cases, inl, inr,
}
use zephyrlog.SpinLock.{Flags, update_flag}
use zephyrlog.QueueBuffer.{Buffer, QueueBuffer, uint_max, update, claim}
use zephyrlog.QueueBuffer.Threads.{
  Memory, Pc, idle, opening, waiting, written, System, Move, begins, claims, overshoots, waits,
  retries, loads, writes, counts, completes, spins, locks, unlocks, stores, queues, resets, seeks,
  polls, fronts, finds_none, misses, takes, finishes, frees,
}
use zephyrlog.QueueBuffer.Threads.Places.{
  opens, renews, Same, Same-refl, alike, behind_lock-Same, behind_unlock-Same,
}
use zephyrlog.QueueBuffer.Threads.Frames.{
  count_at-frame, write_at-frame, read_item-frame, pop_buffer-frame,
}
use zephyrlog.QueueBuffer.Threads.Counted.{
  Counted, SameCount, after, Same-Counted, claims-Counted, loads-Counted, counts-Counted,
}
use zephyrlog.QueueBuffer.Threads.Opening.{completes-Counted, stores-Counted, resets-Counted}

-- Another buffer under an address, with the count of the one before, or none.
SameCount-update :
    (q q' : QueueBuffer) (p : ℕ) (o : Option Buffer)
    → ((b' : Buffer)
        → o ≡ some b'
        → (b : Buffer) × (q.heap p ≡ some b) × (b'.write_count ≡ b.write_count))
    → q'.heap ≡ update q.heap p o
    → q'.current_write_buffer ≡ q.current_write_buffer
    → SameCount q q'
SameCount-update q q' p o h heap block b' e =
    let at : update q.heap p o q'.current_write_buffer ≡ some b' =
      sym (ap (λ (g : ℕ → Option Buffer). g q'.current_write_buffer) heap) ∙ e in
    elim (Bool-cases (q'.current_write_buffer == p)) [
      | inl same ↦
          let (b, there, n) = h b' (ground (arith, at)) in (b, ground (arith, block, there), n)
      | inr differs ↦ (b', ground (arith, at, block), refl)
    ]

same-some :
    (q : QueueBuffer) (p : ℕ) {b b' : Buffer}
    → q.heap p ≡ some b
    → b'.write_count ≡ b.write_count
    → (c : Buffer) → some b' ≡ some c
    → (b₀ : Buffer) × (q.heap p ≡ some b₀) × (c.write_count ≡ b₀.write_count)
same-some q p {b} {b'} at same c k =
    let one : c ≡ b' = cc k in (b, at, ap (λ (x : Buffer). x.write_count) one ∙ same)

abbrev Step : ℕ → System → ℕ → Memory → Pc → Type 0
Step size s a m p' = (f' : Flags) × Counted size (after s a m p') f'

module _ {size : ℕ} {s : System} {f : Flags} (v : Counted size s f) (a : ℕ)
    (short : size < uint_max) (small : s.mem.queue.write_index + 1 < uint_max) where
  -- A move that leaves the block alone.
  apart-Counted :
      {p : Pc} (m : Memory) (p' : Pc)
      → s.pc a ≡ p
      → Same p p'
      → m.queue.write_index ≡ s.mem.queue.write_index
      → m.queue.heap ≡ s.mem.queue.heap
      → m.queue.current_write_buffer ≡ s.mem.queue.current_write_buffer
      → Step size s a m p'
  apart-Counted m p' here same index heap block = (
    f,
    Same-Counted v a m p' (subst (λ (p : Pc). Same p p') (sym here) same) (omega (arith, index))
        block
        (λ b e. (
          b,
          ground (
            arith,
            ap (λ (g : ℕ → Option Buffer). g m.queue.current_write_buffer) heap,
            e,
            block,
          ),
          refl,
        )),
  )

  -- A move that changes a block, but not its count.
  update-Counted :
      {p : Pc} (m : Memory) (p' : Pc) (r : ℕ) (o : Option Buffer)
      → s.pc a ≡ p
      → Same p p'
      → ((b' : Buffer)
          → o ≡ some b'
          → (b : Buffer) × (s.mem.queue.heap r ≡ some b) × (b'.write_count ≡ b.write_count))
      → m.queue.write_index ≡ s.mem.queue.write_index
      → m.queue.heap ≡ update s.mem.queue.heap r o
      → m.queue.current_write_buffer ≡ s.mem.queue.current_write_buffer
      → Step size s a m p'
  update-Counted m p' r o here same h index heap block = (
    f,
    Same-Counted v a m p' (subst (λ (p : Pc). Same p p') (sym here) same) (omega (arith, index))
        block (SameCount-update s.mem.queue m.queue r o h heap block),
  )

  pub Move-Counted :
      {p p' : Pc} {m : Memory} → Move size s.mem a p m p' → s.pc a ≡ p → Step size s a m p'
  unfolding claim
  Move-Counted (begins l n) here = apart-Counted _ _ here (alike refl refl refl refl) refl refl refl
  Move-Counted (claims {i} {q} {l} e h) here =
      (f, claims-Counted v a i q l s.mem.flags small (ap opens here) (ap renews here) e h)
  Move-Counted {m = m} (overshoots {i} {q} {l} e h) here =
      let next : q ≡ record s.mem.queue { write_index = s.mem.queue.write_index + 1 } =
        ground arith in
      (
        f,
        Same-Counted v a m (waiting l)
            (subst (λ (p : Pc). Same p (waiting l)) (sym here) (alike refl refl refl refl))
            (ground (arith, next)) (ground (arith, next)) (λ b k. (b, ground (arith, next), refl)),
      )
  Move-Counted (waits h) here = apart-Counted _ _ here (Same-refl _) refl refl refl
  Move-Counted (retries h) here = apart-Counted _ _ here (alike refl refl refl refl) refl refl refl
  Move-Counted (loads {i} {l}) here = (f, loads-Counted v a i l here)
  Move-Counted {m = m} (writes {p} {i} {l} {q} e) here =
      let (b, b', at, next, _, _, same) = write_at-frame p i l s.mem.queue q e in
      update-Counted m (written p i) p (some b') here (alike refl refl refl refl)
        (same-some s.mem.queue p at same) (ap (λ (x : QueueBuffer). x.write_index) next)
        (ap (λ (x : QueueBuffer). x.heap) next)
        (ap (λ (x : QueueBuffer). x.current_write_buffer) next)
  Move-Counted (counts {p} {i} {q} e) here =
      let (b, at, last, next) = count_at-frame size p false s.mem.queue q e in
      (
        update_flag i true f,
        subst
            (λ (x : QueueBuffer).
              Counted size (after s a (record { queue = x; flags = s.mem.flags }) idle)
                (update_flag i true f))
            (sym next) (counts-Counted v a p i b s.mem.flags short here at),
      )
  Move-Counted (completes {p} {i} {q} e) here =
      let (b, at, last, next) = count_at-frame size p true s.mem.queue q e in
      (
        update_flag i true f,
        subst
            (λ (x : QueueBuffer).
              Counted size (after s a (record { queue = x; flags = s.mem.flags }) opening)
                (update_flag i true f))
            (sym next) (completes-Counted v a p i b s.mem.flags short here at (sym last)),
      )
  Move-Counted (spins e g) here = apart-Counted _ _ here (Same-refl _) refl refl refl
  Move-Counted (locks e g) here = apart-Counted _ _ here (behind_lock-Same _ e) refl refl refl
  Move-Counted (unlocks e) here = apart-Counted _ _ here (behind_unlock-Same _ e) refl refl refl
  Move-Counted stores here = (λ _. false, stores-Counted v a s.mem.flags here)
  Move-Counted queues here = apart-Counted _ _ here (alike refl refl refl refl) refl refl refl
  Move-Counted resets here = (f, resets-Counted v a s.mem.flags here)
  Move-Counted (seeks z e) here = apart-Counted _ _ here (alike refl refl refl refl) refl refl refl
  Move-Counted (polls z e) here = apart-Counted _ _ here (alike refl refl refl refl) refl refl refl
  Move-Counted fronts here = apart-Counted _ _ here (alike refl refl refl refl) refl refl refl
  Move-Counted (finds_none e) here =
      apart-Counted _ _ here (alike refl refl refl refl) refl refl refl
  Move-Counted (misses e h r) here =
      apart-Counted _ _ here (alike refl refl refl refl) refl refl refl
  Move-Counted (takes {p} {l} {b} {b'} e h r n) here =
      let (_, _, _, _, same) = read_item-frame s.mem.queue.read_index l b b' r in
      update-Counted _ _ p (some b') here (alike refl refl refl refl)
        (same-some s.mem.queue p h same) refl refl refl
  Move-Counted (finishes {p} {l} {b} {b'} e h r n) here =
      let (_, _, _, _, same) = read_item-frame s.mem.queue.read_index l b b' r in
      update-Counted _ _ p (some b') here (alike refl refl refl refl)
        (same-some s.mem.queue p h same) refl refl refl
  Move-Counted {m = m} (frees {l} {q} e) here =
      let (p, rest, _, next) = pop_buffer-frame s.mem.queue q e in
      update-Counted m _ p none here (alike refl refl refl refl) (λ c k. cc k)
        (ap (λ (x : QueueBuffer). x.write_index) next) (ap (λ (x : QueueBuffer). x.heap) next)
        (ap (λ (x : QueueBuffer). x.current_write_buffer) next)
