-- ===== src/QueueBuffer/Threads/Moves.antt =====
-- What the consumer knows, and the items still to be written, under every move.
use zephyrlog.Prelude.{
  ℕ, ◌+◌, ◌<◌, ◌≡◌, refl, sym, ap, ◌∙◌, subst, none, some, true, false, arith, Bool-cases, inl, inr,
}
use zephyrlog.SpinLock.{Flags}
use zephyrlog.QueueBuffer.{QueueBuffer, uint_max}
use zephyrlog.QueueBuffer.Threads.{
  Memory, Pc, opened, seeking, reading, System, Move, begins, claims, overshoots, waits, retries,
  loads, writes, counts, completes, spins, locks, unlocks, stores, queues, resets, seeks, polls,
  fronts, finds_none, misses, takes, finishes, frees, behind_lock, behind_unlock,
}
use zephyrlog.QueueBuffer.Threads.Places.{
  consumes, removes, next_block, seeks_block-consumes, removes-consumes,
}
use zephyrlog.QueueBuffer.Threads.Frames.{count_at-frame, write_at-frame, pop_buffer-frame}
use zephyrlog.QueueBuffer.Threads.Counted.{Counted, after}
use zephyrlog.QueueBuffer.Threads.Rooms.{Room, BlankAt, Move-Room, storing}
use zephyrlog.QueueBuffer.Threads.Blank.{Move-BlankAt, open_block-BlankAt}
use zephyrlog.QueueBuffer.Threads.Reader.{
  At, Reader, Quiet, Quiet-refl, heap-Quiet, claim-Quiet, Quiet-Reader,
}
use zephyrlog.QueueBuffer.Threads.Consumer.{fronts-Reader, stores-Reader, queues-Reader}
use zephyrlog.QueueBuffer.Threads.Reading.{takes-Reader, finishes-Reader, frees-Reader}

At-producer :
    (q : QueueBuffer) (a : ℕ) (p : Pc) → consumes p ≡ false → next_block p ≡ none → At q a p
At-producer q a p c n = record {
  single = λ e. cc (sym c ∙ e);
  seeks_none = λ e. cc (sym c ∙ seeks_block-consumes p e);
  removes_none = λ e. cc (sym c ∙ removes-consumes p e);
  next_low = λ x e. cc (sym n ∙ e);
}

At-lock :
    (q : QueueBuffer) (a : ℕ) (p : Pc) {p' : Pc} → behind_lock p ≡ some p' → At q a p → At q a p'
At-lock q a p e k = record {
  single = λ h. k.single (ground (arith, h));
  seeks_none = λ h. k.seeks_none (ground (arith, h));
  removes_none = λ h. k.removes_none (ground (arith, h));
  next_low = λ x h. k.next_low x (ground (arith, h));
}

At-unlock :
    (q : QueueBuffer) (a : ℕ) (p : Pc) {p' : Pc} → behind_unlock p ≡ some p' → At q a p → At q a p'
At-unlock q a p e k = record {
  single = λ h. k.single (ground (arith, h));
  seeks_none = λ h. k.seeks_none (ground (arith, h));
  removes_none = λ h. k.removes_none (ground (arith, h));
  next_low = λ x h. k.next_low x (ground (arith, h));
}

removes-lock : (p : Pc) {p' : Pc} → behind_lock p ≡ some p' → removes p' ≡ true → removes p ≡ true
removes-lock p e h = ground arith

removes-unlock :
    (p : Pc) {p' : Pc} → behind_unlock p ≡ some p' → removes p' ≡ true → removes p ≡ true
removes-unlock p e h = ground arith

storing-lock : (p : Pc) {p' : Pc} → behind_lock p ≡ some p' → storing p ≡ false
storing-lock p e = ground arith

storing-unlock : (p : Pc) {p' : Pc} → behind_unlock p ≡ some p' → storing p ≡ false
storing-unlock p e = ground arith

stores-blank :
    {size a : ℕ} {s m : Memory} {p p' : Pc}
    → Move size s a p m p'
    → storing p ≡ true
    → (j : ℕ) → j < size
    → BlankAt m.queue j
stores-blank {size} {s = s} stores n j h = open_block-BlankAt size s.queue j h
stores-blank (spins {p} e g) n j h = cc (sym (storing-lock p e) ∙ n)
stores-blank (locks {p} e g) n j h = cc (sym (storing-lock p e) ∙ n)
stores-blank (unlocks {p} e) n j h = cc (sym (storing-unlock p e) ∙ n)
stores-blank _ n j h = cc n

module _ {size : ℕ} {s : System} (v : Reader size s) (a : ℕ) (short : size < uint_max)
    (small : s.mem.queue.write_index + 1 < uint_max)
    (blank : (j : ℕ) → j < size → Room s j → BlankAt s.mem.queue j) where
  abbrev q : QueueBuffer
  q = s.mem.queue

  -- A producer's move.
  producer-Reader :
      {p p' : Pc} {m : Memory}
      → Move size s.mem a p m p'
      → s.pc a ≡ p
      → storing p ≡ false
      → Quiet q m.queue
      → consumes p' ≡ false
      → next_block p' ≡ none
      → Reader size (after s a m p')
  producer-Reader {p' = p'} {m} mv here n quiet c k =
      Quiet-Reader v a m p' quiet (At-producer q a p' c k) (λ e. cc (sym c ∙ removes-consumes p' e))
        (λ j. Move-Room {size = size} s a small j mv here n)

  pub Move-Reader :
      {p p' : Pc} {m : Memory}
      → Move size s.mem a p m p'
      → s.pc a ≡ p
      → Reader size (after s a m p')
  Move-Reader (begins l n) here = producer-Reader (begins l n) here refl (Quiet-refl q) refl refl
  Move-Reader (claims {i} {q = q'} e h) here =
      producer-Reader (claims e h) here refl (claim-Quiet i q q' e) refl refl
  Move-Reader (overshoots {i} {q = q'} e h) here =
      producer-Reader (overshoots e h) here refl (claim-Quiet i q q' e) refl refl
  Move-Reader (waits h) here = producer-Reader (waits h) here refl (Quiet-refl q) refl refl
  Move-Reader (retries h) here = producer-Reader (retries h) here refl (Quiet-refl q) refl refl
  Move-Reader loads here = producer-Reader loads here refl (Quiet-refl q) refl refl
  Move-Reader (writes {p} {i} {l} {q = q'} e) here =
      let (_, _, _, next, _, _, _) = write_at-frame p i l q q' e in
      producer-Reader (writes e) here refl (heap-Quiet q q' _ next) refl refl
  Move-Reader (counts {p} {i} {q = q'} e) here =
      let (_, _, _, next) = count_at-frame size p false q q' e in
      producer-Reader (counts e) here refl (heap-Quiet q q' _ next) refl refl
  Move-Reader (completes {p} {i} {q = q'} e) here =
      let (_, _, _, next) = count_at-frame size p true q q' e in
      producer-Reader (completes e) here refl (heap-Quiet q q' _ next) refl refl
  Move-Reader {m = m} (spins {p} e g) here =
      Quiet-Reader v a m p (Quiet-refl q) (subst (At q a) here (v.places a))
        (λ k. ap removes here ∙ k)
        (λ j. Move-Room {size = size} s a small j (spins e g) here (storing-lock p e))
  Move-Reader {m = m} (locks {p} {p'} e g) here =
      Quiet-Reader v a m p' (Quiet-refl q) (At-lock q a p e (subst (At q a) here (v.places a)))
        (λ k. ap removes here ∙ removes-lock p e k)
        (λ j. Move-Room {size = size} s a small j (locks e g) here (storing-lock p e))
  Move-Reader {m = m} (unlocks {p} {p'} e) here =
      Quiet-Reader v a m p' (Quiet-refl q) (At-unlock q a p e (subst (At q a) here (v.places a)))
        (λ k. ap removes here ∙ removes-unlock p e k)
        (λ j. Move-Room {size = size} s a small j (unlocks e) here (storing-unlock p e))
  Move-Reader stores here = stores-Reader v a here
  Move-Reader (queues {p}) here =
      queues-Reader v a p here (λ j. Move-Room {size = size} s a small j queues here refl)
  Move-Reader {m = m} resets here =
      Quiet-Reader v a m opened
        (record {
          current_read_eq = refl;
          read_index_eq = refl;
          buffers_eq = refl;
          block_eq = refl;
          next_eq = refl;
        })
        (At-producer q a opened refl refl) (λ k. cc k)
        (λ j. Move-Room {size = size} s a small j resets here refl)
  Move-Reader {m = m} (seeks z e) here =
      Quiet-Reader v a m seeking (Quiet-refl q)
        (record {
          single = λ _. z;
          seeks_none = λ _. e;
          removes_none = λ k. cc k;
          next_low = λ x k. cc k;
        })
        (λ k. cc k) (λ j. Move-Room {size = size} s a small j (seeks z e) here refl)
  Move-Reader {m = m} (polls z e) here =
      Quiet-Reader v a m reading (Quiet-refl q)
        (record {
          single = λ _. z;
          seeks_none = λ k. cc k;
          removes_none = λ k. cc k;
          next_low = λ x k. cc k;
        })
        (λ k. cc k) (λ j. Move-Room {size = size} s a small j (polls z e) here refl)
  Move-Reader fronts here = fronts-Reader v a here
  Move-Reader (finds_none e) here =
      producer-Reader (finds_none e) here refl (Quiet-refl q) refl refl
  Move-Reader (misses e h r) here =
      producer-Reader (misses e h r) here refl (Quiet-refl q) refl refl
  Move-Reader {m = m} (takes {p} {l} {b} {b'} e h r n) here =
      takes-Reader v a p l b b' m short here e h r refl
        (λ j. Move-Room {size = size} s a small j (takes e h r n) here refl) blank
  Move-Reader (finishes {p} {l} {b} {b'} e h r n) here =
      finishes-Reader v a p l b b' short here e h r n
        (λ j. Move-Room {size = size} s a small j (finishes e h r n) here refl) blank
  Move-Reader {m = m} (frees {l} {q = q'} e) here =
      let (p, rest, at, next) = pop_buffer-frame q q' e in frees-Reader v a l p rest m here at next

  pub Move-blank :
      {p p' : Pc} {m : Memory} {f : Flags}
      → Counted size s f
      → Move size s.mem a p m p'
      → s.pc a ≡ p
      → (j : ℕ) → j < size
      → Room (after s a m p') j
      → BlankAt m.queue j
  Move-blank {p} c mv here j h room = elim (Bool-cases (storing p)) [
    | inl new ↦ stores-blank mv new j h
    | inr old ↦
        Move-BlankAt c a j mv here old
          (λ l e front rest owned.
            let (front', rest', owned', others) = v.removing a (ap removes (here ∙ e)) in
            let same : front ≡ front' = cc (sym owned ∙ owned') in
            λ k. others j h (Move-Room {size = size} s a small j mv here old room) (sym same ∙ k))
          room (blank j h (Move-Room {size = size} s a small j mv here old room))
  ]
