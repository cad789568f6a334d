-- ===== src/QueueBuffer/Threads/Consumer.antt =====
-- The consumer's knowledge of the blocks when it takes one and when a producer opens one.
use zephyrlog.Prelude.{
  ℕ, ◌≡◌, ◌≢◌, refl, sym, ap, ◌∙◌, subst, none, some, List, [], ◌∷◌, ◌++◌, true, ◌==◌, arith,
  Bool-cases, inl, inr,
}
use zephyrlog.QueueBuffer.{QueueBuffer, get_next_read_buffer, open_block, queue_block}
use zephyrlog.QueueBuffer.Threads.{Pc, entered, stored, queued, sought, found, System, update_pc}
use zephyrlog.QueueBuffer.Threads.Places.{
  consumes, seeks_block, removes, next_block, seeks_block-consumes, removes-consumes,
}
use zephyrlog.QueueBuffer.Threads.Counted.{after}
use zephyrlog.QueueBuffer.Threads.Rooms.{Room}
use zephyrlog.QueueBuffer.Threads.Reader.{Below, Below-suc, Below-append, At, Reader, by_thread}

get_next-cons :
    (q : QueueBuffer) (r : ℕ)
    → get_next_read_buffer q ≡ some r
    → (rest : List ℕ) × (q.buffers ≡ r ∷ rest)
unfolding get_next_read_buffer
get_next-cons q r e = next_cases q.buffers e
  where
    next_cases :
        (ps : List ℕ)
        → elim ps [ [] ↦ none | p ∷ _ ↦ some p ] ≡ some r
        → (rest : List ℕ) × (ps ≡ r ∷ rest)
    next_cases [] e = cc e
    next_cases (p ∷ ps) e = (ps, cc e)

module _ {size : ℕ} {s : System} (v : Reader size s) (a : ℕ) where
  abbrev q : QueueBuffer
  q = s.mem.queue

  -- The other threads, while the consumer moves.
  pub others_consumer :
      (q' : QueueBuffer)
      → consumes (s.pc a) ≡ true
      → q'.next_address ≡ q.next_address
      → (b : ℕ) → b ≢ a
      → At q' b (s.pc b)
  others_consumer q' mine next b differs =
      let other : consumes (s.pc b) ≢ true =
        λ e. differs ((v.places b).single e ∙ sym ((v.places a).single mine)) in
      record {
        single = (v.places b).single;
        seeks_none = λ e. absurd (other (seeks_block-consumes (s.pc b) e));
        removes_none = λ e. absurd (other (removes-consumes (s.pc b) e));
        next_low = λ x e. let h = (v.places b).next_low x e in omega (arith, h, next);
      }

  -- No thread removes a block but the consumer.
  pub removes-consumer :
      (p' : Pc) (b : ℕ)
      → consumes (s.pc a) ≡ true
      → removes (update_pc a p' s.pc b) ≡ true
      → removes p' ≡ true
  removes-consumer p' b mine e = elim (Bool-cases (b == a)) [
    | inl same ↦ rw same at e
    | inr differs ↦
        let k = removes-consumes (s.pc b) (rw differs at e) in
        let same = (v.places b).single k ∙ sym ((v.places a).single mine) in
        ground (arith, same, differs)
  ]

  pub fronts-Reader :
      s.pc a ≡ sought
      → Reader size (
          after s a
            (record s.mem { queue = record q { current_read_buffer = get_next_read_buffer q } })
            found)
  fronts-Reader here =
      let mine : consumes (s.pc a) ≡ true = ap consumes here in
      let zero_index : q.read_index ≡ 0 =
        v.start_index ((v.places a).seeks_none (ap seeks_block here)) in
      let q' : QueueBuffer = record q { current_read_buffer = get_next_read_buffer q } in
      record {
        places =
            by_thread v a q' found
              (record {
                single = λ _. (v.places a).single mine;
                seeks_none = λ e. cc e;
                removes_none = λ e. cc e;
                next_low = λ x e. cc e;
              })
              (others_consumer q' mine refl);
        start_index = λ e. zero_index;
        owner = λ r e. get_next-cons q r e;
        unread = λ r j e k h there. omega (arith, zero_index);
        removing = λ b e. cc (removes-consumer found b mine e);
        low = v.low;
        current_low = v.current_low;
      }

  pub stores-Reader :
      s.pc a ≡ entered
      → Reader size (after s a (record s.mem { queue = open_block size q }) (stored q.next_address))
  stores-Reader here =
      let q' : QueueBuffer = open_block size q in
      let not_first : (r : ℕ) (rest : List ℕ) → q.buffers ≡ r ∷ rest → r ≢ q.next_address =
        λ r rest e same.
          let (less, _) = subst (Below q.next_address) e v.low in
          absurd (omega (arith, less, same)) in
      record {
        places =
            by_thread v a q' (stored q.next_address)
              (record {
                single = λ e. cc e;
                seeks_none = λ e. cc e;
                removes_none = λ e. cc e;
                next_low = λ x e. ground (arith, e);
              })
              (λ b _. record {
                single = (v.places b).single;
                seeks_none = (v.places b).seeks_none;
                removes_none = (v.places b).removes_none;
                next_low = λ x e. let h = (v.places b).next_low x e in omega arith;
              });
        start_index = v.start_index;
        owner = v.owner;
        unread = λ r j e k h there. let (rest, at) = v.owner r e in absurd (not_first r rest at k);
        removing = λ b e.
            let old : removes (s.pc b) ≡ true = ground (arith, e) in
            let (front, rest, at, _) = v.removing b old in
            (front, rest, at, λ j h there. not_first front rest at);
        low = Below-suc q.next_address q.buffers v.low;
        current_low = omega arith;
      }

  pub queues-Reader :
      (x : ℕ)
      → s.pc a ≡ stored x
      → ((j : ℕ) → Room (after s a (record s.mem { queue = queue_block x q }) queued) j → Room s j)
      → Reader size (after s a (record s.mem { queue = queue_block x q }) queued)
  queues-Reader x here room =
      let q' : QueueBuffer = queue_block x q in
      record {
        places =
            by_thread v a q' queued
              (record {
                single = λ e. cc e;
                seeks_none = λ e. cc e;
                removes_none = λ e. cc e;
                next_low = λ y e. cc e;
              })
              (λ b _. record {
                single = (v.places b).single;
                seeks_none = (v.places b).seeks_none;
                removes_none = (v.places b).removes_none;
                next_low = (v.places b).next_low;
              });
        start_index = v.start_index;
        owner = λ r e.
            let (rest, at) = v.owner r e in (rest ++ x ∷ [], ap (λ (ps : List ℕ). ps ++ x ∷ []) at);
        unread = λ r j e k h there. v.unread r j e k h (room j there);
        removing = λ b e.
            let old : removes (s.pc b) ≡ true = ground (arith, e) in
            let (front, rest, at, others) = v.removing b old in
            (
              front,
              rest ++ x ∷ [],
              ap (λ (ps : List ℕ). ps ++ x ∷ []) at,
              λ j h there. others j h (room j there),
            );
        low =
            Below-append q.next_address q.buffers x v.low
              ((v.places a).next_low x (ap next_block here));
        current_low = v.current_low;
      }
