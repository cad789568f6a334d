-- ===== src/QueueBuffer/Threads/Reader.antt =====
-- What the consumer knows of the blocks.
use zephyrlog.Prelude.{
  ℕ, ◌+◌, ◌%◌, ◌≤◌, ◌<◌, ◌≡◌, ◌≢◌, refl, sym, ap, ◌∙◌, subst, Option, none, some, List, [], ◌∷◌,
  ◌++◌, true, false, ◌==◌, arith, Bool-cases, inl, inr, eqb_refl,
}
use native.Mathlib.Decide.{ℕ_discrete}
use zephyrlog.QueueBuffer.{
  Buffer, QueueBuffer, uint_max, claim, queue_buffer, setup_next_write_buffer,
}
use zephyrlog.QueueBuffer.Threads.{Memory, Pc, System, start, update_pc}
use zephyrlog.QueueBuffer.Threads.Places.{consumes, seeks_block, removes, next_block}
use zephyrlog.QueueBuffer.Threads.Counted.{after}
use zephyrlog.QueueBuffer.Threads.Rooms.{Room}

-- All of the addresses are below a bound.
abbrev pub Below : ℕ → List ℕ → Type 0
Below n [] = Unit
Below n (p ∷ ps) = (p < n) × Below n ps

pub Below-suc : (n : ℕ) (ps : List ℕ) → Below n ps → Below (n + 1) ps
Below-suc n [] h = tt
Below-suc n (p ∷ ps) (h, hs) = (omega arith, Below-suc n ps hs)

pub Below-append : (n : ℕ) (ps : List ℕ) (p : ℕ) → Below n ps → p < n → Below n (ps ++ p ∷ [])
Below-append n [] p h k = (k, tt)
Below-append n (x ∷ ps) p (h, hs) k = (h, Below-append n ps p hs k)

-- What a place says of the consumer's variables and of the addresses.
pub record At (q : QueueBuffer) (a : ℕ) (p : Pc) : Type 0 where
  pub single : consumes p ≡ true → a ≡ 0
  pub seeks_none : seeks_block p ≡ true → q.current_read_buffer ≡ none
  pub removes_none : removes p ≡ true → q.current_read_buffer ≡ none
  pub next_low : (x : ℕ) → next_block p ≡ some x → x < q.next_address

-- The consumer reads the oldest block, behind all that it has read, and frees none that is still to
-- be written to.
pub record Reader (size : ℕ) (s : System) : Type 0 where
  pub places : (a : ℕ) → At s.mem.queue a (s.pc a)
  pub start_index : s.mem.queue.current_read_buffer ≡ none → s.mem.queue.read_index ≡ 0
  pub owner :
      (r : ℕ)
      → s.mem.queue.current_read_buffer ≡ some r
      → (rest : List ℕ) × (s.mem.queue.buffers ≡ r ∷ rest)
  pub unread :
      (r j : ℕ)
      → s.mem.queue.current_read_buffer ≡ some r
      → r ≡ s.mem.queue.current_write_buffer
      → j < size
      → Room s j
      → s.mem.queue.read_index ≤ j
  pub removing :
      (a : ℕ)
      → removes (s.pc a) ≡ true
      → (front : ℕ) × (rest : List ℕ) × (s.mem.queue.buffers ≡ front ∷ rest)
        × ((j : ℕ) → j < size → Room s j → front ≢ s.mem.queue.current_write_buffer)
  pub low : Below s.mem.queue.next_address s.mem.queue.buffers
  pub current_low : s.mem.queue.current_write_buffer < s.mem.queue.next_address

pub start-Reader : (size : ℕ) → Reader size (start size)
unfolding queue_buffer setup_next_write_buffer
start-Reader size = record {
  places = λ a. record {
    single = λ e. cc e;
    seeks_none = λ e. cc e;
    removes_none = λ e. cc e;
    next_low = λ x e. cc e;
  };
  start_index = λ e. refl;
  owner = λ r e. cc e;
  unread = λ r j e k h room. cc e;
  removing = λ a e. cc e;
  low = (omega arith, tt);
  current_low = omega arith;
}

-- The variables of the consumer and the queue of blocks are left alone.
pub record Quiet (q q' : QueueBuffer) : Type 0 where
  pub current_read_eq : q'.current_read_buffer ≡ q.current_read_buffer
  pub read_index_eq : q'.read_index ≡ q.read_index
  pub buffers_eq : q'.buffers ≡ q.buffers
  pub block_eq : q'.current_write_buffer ≡ q.current_write_buffer
  pub next_eq : q'.next_address ≡ q.next_address

pub heap-Quiet :
    (q q' : QueueBuffer) (heap : ℕ → Option Buffer) → q' ≡ record q { heap = heap } → Quiet q q'
heap-Quiet q q' heap e = record {
  current_read_eq = ap (λ (x : QueueBuffer). x.current_read_buffer) e;
  read_index_eq = ap (λ (x : QueueBuffer). x.read_index) e;
  buffers_eq = ap (λ (x : QueueBuffer). x.buffers) e;
  block_eq = ap (λ (x : QueueBuffer). x.current_write_buffer) e;
  next_eq = ap (λ (x : QueueBuffer). x.next_address) e;
}

pub Quiet-refl : (q : QueueBuffer) → Quiet q q
Quiet-refl q = record {
  current_read_eq = refl;
  read_index_eq = refl;
  buffers_eq = refl;
  block_eq = refl;
  next_eq = refl;
}

pub claim-Quiet : (i : ℕ) (q q' : QueueBuffer) → claim q ≡ (i, q') → Quiet q q'
unfolding claim
claim-Quiet i q q' e =
    let next : q' ≡ record q { write_index = (q.write_index + 1) % uint_max } = cc e in
    record {
      current_read_eq = ap (λ (x : QueueBuffer). x.current_read_buffer) next;
      read_index_eq = ap (λ (x : QueueBuffer). x.read_index) next;
      buffers_eq = ap (λ (x : QueueBuffer). x.buffers) next;
      block_eq = ap (λ (x : QueueBuffer). x.current_write_buffer) next;
      next_eq = ap (λ (x : QueueBuffer). x.next_address) next;
    }

At-Quiet : {q q' : QueueBuffer} {b : ℕ} {p : Pc} → Quiet q q' → At q b p → At q' b p
At-Quiet quiet k = record {
  single = k.single;
  seeks_none = λ e. quiet.current_read_eq ∙ k.seeks_none e;
  removes_none = λ e. quiet.current_read_eq ∙ k.removes_none e;
  next_low = λ x e. let h = k.next_low x e in omega (arith, h, quiet.next_eq);
}

module _ {size : ℕ} {s : System} (v : Reader size s) (a : ℕ) where
  abbrev q : QueueBuffer
  q = s.mem.queue

  -- The thread that moves, and the others.
  pub by_thread :
      (q' : QueueBuffer) (p' : Pc)
      → At q' a p'
      → ((b : ℕ) → b ≢ a → At q' b (s.pc b))
      → (b : ℕ) → At q' b (update_pc a p' s.pc b)
  by_thread q' p' own others b = elim (ℕ_discrete b a) [
    | yes same ↦ rw (same, eqb_refl a) own
    | no differs ↦ let off : (b == a) ≡ false = ground arith in rw off (others b differs)
  ]

  -- Moves that change nothing for the consumer.
  pub Quiet-Reader :
      (m : Memory) (p' : Pc)
      → Quiet q m.queue
      → At q a p'
      → (removes p' ≡ true → removes (s.pc a) ≡ true)
      → ((j : ℕ) → Room (after s a m p') j → Room s j)
      → Reader size (after s a m p')
  Quiet-Reader m p' quiet own removing room = record {
    places = by_thread m.queue p' (At-Quiet quiet own) (λ b _. At-Quiet quiet (v.places b));
    start_index = λ e. quiet.read_index_eq ∙ v.start_index (sym quiet.current_read_eq ∙ e);
    owner = λ r e.
        let (rest, k) = v.owner r (sym quiet.current_read_eq ∙ e) in (rest, quiet.buffers_eq ∙ k);
    unread = λ r j e k h there.
        let low =
          v.unread r j (sym quiet.current_read_eq ∙ e) (k ∙ quiet.block_eq) h (room j there) in
        omega (arith, low, quiet.read_index_eq);
    removing = λ b e.
        let old : removes (s.pc b) ≡ true = elim (Bool-cases (b == a)) [
          | inl same ↦
              let at : b ≡ a = ground arith in
              ap (λ (c : ℕ). removes (s.pc c)) at ∙ removing (rw same at e)
          | inr differs ↦ rw differs at e
        ] in
        let (front, rest, k, apart) = v.removing b old in
        (
          front,
          rest,
          quiet.buffers_eq ∙ k,
          λ j h there. λ same. apart j h (room j there) (same ∙ quiet.block_eq),
        );
    low =
        subst (λ (n : ℕ). Below n m.queue.buffers) (sym quiet.next_eq)
          (subst (Below q.next_address) (sym quiet.buffers_eq) v.low);
    current_low = omega (arith, v.current_low, quiet.next_eq, quiet.block_eq);
  }
