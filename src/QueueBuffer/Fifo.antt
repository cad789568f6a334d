-- ===== src/QueueBuffer/Fifo.antt =====
-- The queue buffer (src/queuebuffer.cpp) as a queue without bound.
use zephyrlog.Prelude.{
  ℕ, suc, ◌+◌, ◌%◌, ◌<◌, ◌≡◌, refl, ap, ap₂, ◌∙◌, subst, Option, none, some, of_option, done, List,
  [], ◌∷◌, ◌++◌, arith, ◌==◌, eqb_refl, true, false, ltb, inl, inr,
}
use zephyrlog.BufferBase.{BufferBase, IsFifo, Op, put, get, run}
use zephyrlog.BufferBase.Queue.{deliver, RoomFor, run-deliver}
use zephyrlog.LogLine.{LogLine}
use zephyrlog.QueueBuffer.{
  Buffer, QueueBuffer, buffer, update, uint_max, setup_next_write_buffer, queue_buffer, claim, push,
  try_pop_at, read_buffer, try_pop,
}
use native.Mathlib.Decide.{dec_lt}
use zephyrlog.QueueBuffer.Blocks.{buffer-Block}
use zephyrlog.QueueBuffer.Chain.{
  update-update, update_self, Chain, Chain-write, Chain-extend, Chain-read, Chain-nil,
}
use zephyrlog.QueueBuffer.Calls.{
  AtFirst, Queued, addresses, addresses-snoc, advance-end, advance-more, put_line_lem,
  read_buffer-first,
}

module _ (size : ℕ) (positive : 0 < size) (small : size < uint_max) where
  -- A new queue buffer is empty.
  pub queue_buffer-Queued : Queued size (queue_buffer size) []
  unfolding queue_buffer setup_next_write_buffer
  queue_buffer-Queued = record {
    first = 1;
    others = 0;
    chain = (buffer size, refl, buffer-Block size, refl);
    owned = refl;
    next_eq = omega arith;
    write_eq = omega arith;
    at_first = refl;
    read_in = positive;
    write_in = positive;
  }

  -- A queue whose last block is full, once it has a new one.
  extended :
      (q : QueueBuffer) (lines : List LogLine) (first others : ℕ)
      → Chain size q.heap others first q.read_index lines size
      → q.buffers ≡ addresses first (suc others)
      → q.next_address ≡ first + others + 1
      → AtFirst q.current_read_buffer first q.read_index
      → q.read_index < size
      → Queued size (setup_next_write_buffer size q) lines
  unfolding setup_next_write_buffer
  extended q lines first others chain owned next_eq at_first read_in =
      let here : q.next_address ≡ first + (suc others) = omega (arith, next_eq) in
      record {
        first = first;
        others = suc others;
        chain =
            Chain-extend size q.heap others first q.next_address q.read_index lines next_eq chain;
        owned =
            ap₂ (λ (ps : List ℕ) (a : ℕ). ps ++ a ∷ []) owned here
            ∙ addresses-snoc first (suc others);
        next_eq = omega (arith, next_eq);
        write_eq = here;
        at_first = at_first;
        read_in = read_in;
        write_in = positive;
      }

  -- `push` returns, and puts the line at the end of the queue.
  pub push_queues :
      (fuel : ℕ) (q : QueueBuffer) (lines : List LogLine) (logline : LogLine)
      → Queued size q lines
      → (q' : QueueBuffer) × (push size (suc fuel) logline q ≡ done q')
        × Queued size q' (lines ++ logline ∷ [])
  unfolding push claim
  push_queues fuel q lines logline v =
      let (b, b₁, b₂, e, e₁, e₂, c) =
        Chain-write size q.heap v.others v.first q.current_write_buffer q.read_index lines
          q.write_index logline v.write_eq v.chain v.write_in small in
      let inside : ltb q.write_index size ≡ true = ground arith in
      let w : ℕ = q.write_index in
      let next : (w + 1) % uint_max ≡ w + 1 = omega (arith, v.write_in) in
      let heap : ℕ → Option Buffer = update q.heap q.current_write_buffer (some b₂) in
      let q₁ : QueueBuffer = record q { write_index = (w + 1) % uint_max } in
      let q₂ : QueueBuffer = record q₁ { heap = heap } in
      let put = put_line_lem size logline w q₁ b b₁ b₂ ((w + 1) == size) e e₁ e₂ in
      elim (dec_lt (w + 1) size) [
        | yes room ↦
            let not_full : ((w + 1) == size) ≡ false = ground arith in
            (
              q₂,
              rw (inside, put, not_full),
              record {
                first = v.first;
                others = v.others;
                chain = rw next c;
                owned = v.owned;
                next_eq = v.next_eq;
                write_eq = v.write_eq;
                at_first = v.at_first;
                read_in = v.read_in;
                write_in = rw next room;
              },
            )
        | no end ↦
            let end_eq : w + 1 ≡ size = omega (arith, v.write_in) in
            let full : ((w + 1) == size) ≡ true = rw end_eq (eqb_refl size) in
            let here : q.next_address ≡ v.first + (suc v.others) = omega (arith, v.next_eq) in
            (
              setup_next_write_buffer size q₂,
              rw (inside, put, full),
              extended q₂ (lines ++ logline ∷ []) v.first v.others
                  (subst
                    (λ (n : ℕ).
                      Chain size heap v.others v.first q.read_index (lines ++ logline ∷ []) n)
                    end_eq c)
                  v.owned v.next_eq v.at_first v.read_in,
            )
      ]

  -- `tryPop` takes the oldest line.
  pub try_pop_some :
      (q : QueueBuffer) (lines : List LogLine) (logline : LogLine)
      → Queued size q (logline ∷ lines)
      → (q' : QueueBuffer) × (try_pop size q ≡ some (some logline, q')) × Queued size q' lines
  unfolding try_pop try_pop_at
  try_pop_some q lines logline v =
      let (b, b₁, e, e₁, gone, rest) =
        Chain-read size q.heap v.others v.first q.read_index lines q.write_index logline v.chain
          v.read_in v.write_in in
      let found : read_buffer q ≡ some v.first =
        read_buffer-first q v.first (addresses (suc v.first) v.others) q.current_read_buffer refl
          v.at_first v.owned in
      let start : ℕ = q.read_index in
      let heap : ℕ → Option Buffer = update q.heap v.first (some b₁) in
      let q₁ : QueueBuffer = record q { current_read_buffer = some v.first; heap = heap } in
      elim rest [
        | inl (more, c) ↦
            let step = advance-more size q₁ small more in
            (
              record q₁ { read_index = start + 1 },
              rw (try_pop, found, e, e₁, found, step),
              record {
                first = v.first;
                others = v.others;
                chain = c;
                owned = v.owned;
                next_eq = v.next_eq;
                write_eq = v.write_eq;
                at_first = refl;
                read_in = more;
                write_in = v.write_in;
              },
            )
        | inr (end, (m, others_eq, c)) ↦
            let step =
              advance-end size q₁ b₁ v.first (addresses (suc v.first) v.others) small end v.owned
                (update_self q.heap v.first (some b₁)) gone in
            (
              record q₁ {
                read_index = 0;
                current_read_buffer = none;
                heap = update heap v.first none;
                buffers = addresses (suc v.first) v.others;
              },
              rw (try_pop, found, e, e₁, found, step),
              record {
                first = suc v.first;
                others = m;
                chain = rw (update-update q.heap v.first (some b₁) none) c;
                owned = ap (addresses (suc v.first)) others_eq;
                next_eq = omega (arith, v.next_eq, others_eq);
                write_eq = omega (arith, v.write_eq, others_eq);
                at_first = refl;
                read_in = positive;
                write_in = v.write_in;
              },
            )
      ]

  -- `tryPop` returns false on an empty queue.
  pub try_pop_none :
      (q : QueueBuffer)
      → Queued size q []
      → (q' : QueueBuffer) × (try_pop size q ≡ some (none, q')) × Queued size q' []
  unfolding try_pop try_pop_at
  try_pop_none q v =
      let (b, e, e₁) =
        Chain-nil size q.heap v.others v.first q.read_index q.write_index v.chain v.read_in in
      let found : read_buffer q ≡ some v.first =
        read_buffer-first q v.first (addresses (suc v.first) v.others) q.current_read_buffer refl
          v.at_first v.owned in
      (
        record q { current_read_buffer = some v.first },
        rw (try_pop, found, e, e₁, found),
        record {
          first = v.first;
          others = v.others;
          chain = v.chain;
          owned = v.owned;
          next_eq = v.next_eq;
          write_eq = v.write_eq;
          at_first = refl;
          read_in = v.read_in;
          write_in = v.write_in;
        },
      )

  -- The queue buffer, with its calls.
  abbrev pub queue_base : ℕ → BufferBase
  queue_base fuel = record {
    State = QueueBuffer;
    push = push size (suc fuel);
    try_pop = λ q. of_option (try_pop size q);
  }

  -- The queue buffer meets the interface, and always has room.
  abbrev pub queue_fifo : (fuel : ℕ) → IsFifo (queue_base fuel)
  queue_fifo fuel = record {
    Queued = Queued size;
    HasRoom = λ _. Unit;
    push_queues = λ q lines logline v _. push_queues fuel q lines logline v;
    try_pop_none = λ q v. let (q', e, v') = try_pop_none q v in (q', ap of_option e, v');
    try_pop_some = λ q lines logline v.
        let (q', e, v') = try_pop_some q lines logline v in (q', ap of_option e, v');
  }

  always_room : (ops : List Op) (q : List LogLine) → RoomFor (λ _. Unit) ops q
  unfolding RoomFor
  always_room [] q = tt
  always_room (put logline ∷ ops) q = (tt, always_room ops (q ++ logline ∷ []))
  always_room (get ∷ ops) [] = always_room ops []
  always_room (get ∷ ops) (logline ∷ q) = always_room ops q

  -- Any sequence of calls on a new queue buffer whose blocks have one item at least and fewer than
  -- 2^32: each call returns, without an access to a freed block or outside of one, and the calls of
  -- `tryPop` give what they give on a list: the oldest line, or false where there is none. One
  -- round of `push` is enough.
  pub run-queue_buffer :
      (fuel : ℕ) (ops : List Op)
      → (q : QueueBuffer) × (run (queue_base fuel) ops (queue_buffer size)
          ≡ done ((deliver ops []).0, q))
  run-queue_buffer fuel ops =
      let (q, e, _) =
        run-deliver (queue_fifo fuel) ops (queue_buffer size) [] queue_buffer-Queued
          (always_room ops []) in
      (q, e)
