-- ===== src/QueueBuffer/Threads/Order/Moves.antt =====
-- The order of the lines under every move.
use zephyrlog.Prelude.{
  ℕ, ◌+◌, ◌≤◌, ◌<◌, ◌≡◌, refl, sym, ap, ◌∙◌, subst, some, List, [], ◌∷◌, ◌++◌, min, true, false,
  ◌==◌, arith, Bool-cases, inl, inr, append-nil,
}
use zephyrlog.SpinLock.{Flags}
use zephyrlog.LogLine.{LogLine}
use zephyrlog.QueueBuffer.{Buffer, QueueBuffer, uint_max, update, claim}
use zephyrlog.QueueBuffer.Threads.{
  Memory, Pc, System, Move, begins, claims, overshoots, waits, retries, loads, writes, counts,
  completes, spins, locks, unlocks, stores, queues, resets, seeks, polls, fronts, finds_none,
  misses, takes, finishes, frees, behind_lock, behind_unlock,
}
use zephyrlog.QueueBuffer.Threads.Places.{pending, carries, renews, removes}
use zephyrlog.QueueBuffer.Threads.Frames.{count_at-frame, pop_buffer-frame}
use zephyrlog.QueueBuffer.Threads.Counted.{Counted, after}
use zephyrlog.QueueBuffer.Threads.Reader.{Reader}
use zephyrlog.QueueBuffer.Threads.Alive.{Alive}
use zephyrlog.QueueBuffer.Threads.Order.{claimed_by, delivered_by}
use zephyrlog.QueueBuffer.Threads.Order.Ordered.{Ordered, Ordered-keep, Kept, Kept-refl, Plain}
use zephyrlog.QueueBuffer.Threads.Order.Producing.{
  claims-Ordered, writes-Ordered, stores-Ordered, queues-Ordered, resets-Ordered,
}
use zephyrlog.QueueBuffer.Threads.Order.Consuming.{reads-Ordered, frees-Ordered}

plain :
    {p p' : Pc}
    → renews p ≡ false
    → renews p' ≡ false
    → pending p' ≡ pending p
    → carries p' ≡ carries p
    → removes p' ≡ removes p
    → Plain p p'
plain e e' k k' n = record {
  quiet = e;
  quiet' = e';
  pending_eq = k;
  carries_eq = k';
  removes_eq = n;
}

lock-Plain : (p : Pc) {p' : Pc} → behind_lock p ≡ some p' → Plain p p'
lock-Plain p e = plain (ground arith) (ground arith) (ground arith) (ground arith) (ground arith)

unlock-Plain : (p : Pc) {p' : Pc} → behind_unlock p ≡ some p' → Plain p p'
unlock-Plain p e = plain (ground arith) (ground arith) (ground arith) (ground arith) (ground arith)

spin-Plain : (p : Pc) {p' : Pc} → behind_lock p ≡ some p' → Plain p p
spin-Plain p e = plain (ground arith) (ground arith) refl refl refl

count-Kept :
    (size p n : ℕ) (b : Buffer) (q q' : QueueBuffer)
    → q.heap p ≡ some b
    → q' ≡ record q { heap = update q.heap p (some (record b { write_count = n })) }
    → Kept size q q'
count-Kept size p n b q q' at next = record {
  items_eq = λ x b' e.
      let e' = ap (λ (y : QueueBuffer). y.heap x) (sym next) ∙ e in
      elim (Bool-cases (x == p)) [
        | inl same ↦
            let it : record b { write_count = n } ≡ b' = cc (rw same at e') in
            let here : x ≡ p = ground arith in
            (
              b,
              ap q.heap here ∙ at,
              ap (λ (y : Buffer). y.items) (sym it),
              ap (λ (y : Buffer). y.write_state) (sym it),
            )
        | inr other ↦ (b', rw other at e', refl, refl)
      ];
  block_eq = ap (λ (y : QueueBuffer). y.current_write_buffer) next;
  next_eq = ap (λ (y : QueueBuffer). y.next_address) next;
  read_eq = ap (λ (y : QueueBuffer). y.read_index) next;
  buffers_eq = ap (λ (y : QueueBuffer). y.buffers) next;
  index_eq = ap (λ (y : QueueBuffer). min y.write_index size) next;
}

-- A `fetch_add` that gives no index in range.
overshoots-Kept :
    (size i : ℕ) (q q' : QueueBuffer)
    → q.write_index + 1 < uint_max
    → claim q ≡ (i, q')
    → size ≤ i
    → Kept size q q'
unfolding claim
overshoots-Kept size i q q' small e h =
    let at : i ≡ q.write_index = ground arith in
    let next : q' ≡ record q { write_index = q.write_index + 1 } = ground arith in
    record {
      items_eq = λ p b k. (b, ap (λ (y : QueueBuffer). y.heap p) (sym next) ∙ k, refl, refl);
      block_eq = ap (λ (y : QueueBuffer). y.current_write_buffer) next;
      next_eq = ap (λ (y : QueueBuffer). y.next_address) next;
      read_eq = ap (λ (y : QueueBuffer). y.read_index) next;
      buffers_eq = ap (λ (y : QueueBuffer). y.buffers) next;
      index_eq = ap (λ (y : QueueBuffer). min y.write_index size) next ∙ omega (arith, h, at);
    }

module _ {size : ℕ} {s : System} {f : Flags} {lines out : List LogLine} (c : Counted size s f)
    (r : Reader size s) (alive : Alive size s) (v : Ordered size s lines out) (a : ℕ)
    (short : size < uint_max) (small : s.mem.queue.write_index + 1 < uint_max) where
  abbrev q : QueueBuffer
  q = s.mem.queue

  no_line :
      {s' : System} {lines out : List LogLine}
      → Ordered size s' lines out
      → Ordered size s' (lines ++ []) (out ++ [])
  no_line {s'} {lines} {out} w =
      subst (λ (xs : List LogLine). Ordered size s' xs (out ++ [])) (sym (append-nil lines))
        (subst (Ordered size s' lines) (sym (append-nil out)) w)

  plainly :
      (m : Memory) (p p' : Pc)
      → s.pc a ≡ p
      → Kept size q m.queue
      → Plain p p'
      → Ordered size (after s a m p') (lines ++ []) (out ++ [])
  plainly m p p' here kept same =
      no_line (Ordered-keep v a m p' kept (subst (λ (x : Pc). Plain x p') (sym here) same))

  quietly :
      (m : Memory) (p p' : Pc)
      → s.pc a ≡ p
      → m.queue ≡ q
      → Plain p p'
      → Ordered size (after s a m p') (lines ++ []) (out ++ [])
  quietly m p p' here same = plainly m p p' here (subst (Kept size q) (sym same) (Kept-refl size q))

  pub Move-Ordered :
      {p p' : Pc} {m : Memory}
      → (mv : Move size s.mem a p m p') → s.pc a ≡ p
      → Ordered size (after s a m p') (lines ++ claimed_by mv) (out ++ delivered_by mv)
  Move-Ordered {p} {p'} {m} (begins l n) here =
      quietly m p p' here refl (plain refl refl refl refl refl)
  Move-Ordered {p} {p'} {m} (claims {i} {q = q'} {l = l} e h) here =
      subst (Ordered size (after s a m p') (lines ++ l ∷ [])) (sym (append-nil out))
        (claims-Ordered c v a i q' l small here e h)
  Move-Ordered {p} {p'} {m} (overshoots {i} {q = q'} e h) here =
      plainly m p p' here (overshoots-Kept size i q q' small e h) (plain refl refl refl refl refl)
  Move-Ordered {p} {p'} {m} (waits h) here =
      quietly m p p' here refl (plain refl refl refl refl refl)
  Move-Ordered {p} {p'} {m} (retries h) here =
      quietly m p p' here refl (plain refl refl refl refl refl)
  Move-Ordered {p} {p'} {m} loads here = quietly m p p' here refl (plain refl refl refl refl refl)
  Move-Ordered (writes {p} {i} {l} {q = q'} e) here =
      no_line (writes-Ordered c v a p i l q' alive here e)
  Move-Ordered {p} {p'} {m} (counts {p = x} {q = q'} e) here =
      let (b, at, _, next) = count_at-frame size x false q q' e in
      plainly m p p' here (count-Kept size x _ b q q' at next) (plain refl refl refl refl refl)
  Move-Ordered {p} {p'} {m} (completes {p = x} {q = q'} e) here =
      let (b, at, _, next) = count_at-frame size x true q q' e in
      plainly m p p' here (count-Kept size x _ b q q' at next) (plain refl refl refl refl refl)
  Move-Ordered {p} {p'} {m} (spins e g) here = quietly m p p here refl (spin-Plain p e)
  Move-Ordered {p} {p'} {m} (locks e g) here = quietly m p p' here refl (lock-Plain p e)
  Move-Ordered {p} {p'} {m} (unlocks e) here = quietly m p p' here refl (unlock-Plain p e)
  Move-Ordered stores here = no_line (stores-Ordered c v a here)
  Move-Ordered (queues {p}) here = no_line (queues-Ordered c v a p here)
  Move-Ordered resets here = no_line (resets-Ordered c v a here)
  Move-Ordered {p} {p'} {m} (seeks z e) here =
      quietly m p p' here refl (plain refl refl refl refl refl)
  Move-Ordered {p} {p'} {m} (polls z e) here =
      quietly m p p' here refl (plain refl refl refl refl refl)
  Move-Ordered {p} {p'} {m} fronts here =
      plainly m p p' here
        (record {
          items_eq = λ x b k. (b, k, refl, refl);
          block_eq = refl;
          next_eq = refl;
          read_eq = refl;
          buffers_eq = refl;
          index_eq = refl;
        })
        (plain refl refl refl refl refl)
  Move-Ordered {p} {p'} {m} (finds_none e) here =
      quietly m p p' here refl (plain refl refl refl refl refl)
  Move-Ordered {p} {p'} {m} (misses e h k) here =
      quietly m p p' here refl (plain refl refl refl refl refl)
  Move-Ordered {p} {p'} {m} (takes {p = x} {l} {b} {b'} e h k n) here =
      subst (λ (xs : List LogLine). Ordered size (after s a m p') xs (out ++ l ∷ []))
        (sym (append-nil lines))
        (reads-Ordered r alive v a x l b b' m p' here e h k refl refl refl refl refl refl refl refl
          (omega (arith, alive.index_low, short)))
  Move-Ordered {p} {p'} {m} (finishes {p = x} {l} {b} {b'} e h k n) here =
      subst (λ (xs : List LogLine). Ordered size (after s a m p') xs (out ++ l ∷ []))
        (sym (append-nil lines))
        (reads-Ordered r alive v a x l b b' m p' here e h k refl refl refl refl refl refl refl refl
          (omega (arith, alive.index_low, short, n)))
  Move-Ordered {m = m} (frees {l} {q = q'} e) here =
      let (p, ps, at, next) = pop_buffer-frame q q' e in
      no_line (frees-Ordered r alive v a l p ps m here at next)
