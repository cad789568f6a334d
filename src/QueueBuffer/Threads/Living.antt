-- ===== src/QueueBuffer/Threads/Living.antt =====
-- The blocks in the queue of blocks stay in the heap under every move.
use zephyrlog.Prelude.{
  ℕ, ◌+◌, ◌%◌, ◌<◌, ◌≡◌, ◌≢◌, refl, sym, ap, ◌∙◌, subst, Option, none, some, List, ◌∷◌, length,
  true, false, ◌==◌, get_elem?, arith, Bool-cases, inl, inr, eqb_refl, length-set, get_elem?-set_ne,
}
use zephyrlog.LogLine.{LogLine}
use zephyrlog.LogLine.Moved.{moved_to}
use zephyrlog.SpinLock.{Flags}
use zephyrlog.QueueBuffer.{
  Buffer, buffer, QueueBuffer, uint_max, update, claim, queue_block, queue_buffer,
  setup_next_write_buffer,
}
use zephyrlog.QueueBuffer.Threads.{
  Memory, Pc, stored, queued, freed, System, start, Move, begins, claims, overshoots, waits,
  retries, loads, writes, counts, completes, spins, locks, unlocks, stores, queues, resets, seeks,
  polls, fronts, finds_none, misses, takes, finishes, frees, behind_lock, behind_unlock,
}
use zephyrlog.QueueBuffer.Threads.Places.{uncounted, opens, next_block}
use zephyrlog.QueueBuffer.Threads.Frames.{count_at-frame, write_at-frame, pop_buffer-frame}
use zephyrlog.QueueBuffer.Threads.Counted.{Counted, after}
use zephyrlog.QueueBuffer.Threads.Reader.{Below, Reader}
use zephyrlog.QueueBuffer.Threads.Sound.{buffer-Sound, set-Sound}
use zephyrlog.QueueBuffer.Threads.Alive.{
  Lives, AllLive, AllLive-map, AllLive-append, AllLive-free, Lives-free, Sorted, Sorted-append,
  Lives-update, AllSound, AllSound-update, AllSound-free, Alive,
}
use zephyrlog.QueueBuffer.Threads.Kept.{quiet-Alive, update-Alive, counted-Sound, read-Sound}

pub start-Alive : (size : ℕ) → 0 < size → Alive size (start size)
unfolding queue_buffer setup_next_write_buffer
start-Alive size h = record {
  sound =
      AllSound-update {size = size} (λ _. none) 1 (buffer size) (λ p b e. cc e) (buffer-Sound size);
  live = ((buffer size, refl), tt);
  sorted = (tt, tt);
  next = λ a x e. cc e;
  index_low = h;
}

next_block-lock : (p : Pc) {p' : Pc} (x : ℕ) → behind_lock p ≡ some p' → next_block p' ≢ some x
next_block-lock p x e h = ground arith

next_block-unlock : (p : Pc) {p' : Pc} (x : ℕ) → behind_unlock p ≡ some p' → next_block p' ≢ some x
next_block-unlock p x e h = ground arith

next_block-opens : (p : Pc) (x : ℕ) → next_block p ≡ some x → opens p ≡ true
next_block-opens p x e = ground arith

module _ {size : ℕ} {s : System} {f : Flags} (c : Counted size s f) (r : Reader size s)
    (v : Alive size s) (a : ℕ) (short : size < uint_max) where
  abbrev q : QueueBuffer
  q = s.mem.queue

  stores-Alive :
      (p' : Pc) (m : Memory)
      → m.queue.heap ≡ update q.heap q.next_address (some (buffer size))
      → m.queue.buffers ≡ q.buffers
      → m.queue.read_index ≡ q.read_index
      → p' ≡ stored q.next_address
      → Alive size (after s a m p')
  stores-Alive p' m heap buffers index place =
      let lives : (x : ℕ) → Lives q.heap x → Lives m.queue.heap x = λ x lively.
        subst (λ (h : ℕ → Option Buffer). Lives h x) (sym heap)
          (Lives-update q.heap q.next_address (buffer size) x lively) in
      let new : Lives m.queue.heap q.next_address =
        subst (λ (h : ℕ → Option Buffer). Lives h q.next_address) (sym heap)
          (buffer size, rw (eqb_refl q.next_address) refl) in
      record {
        sound =
            subst (AllSound size) (sym heap)
              (AllSound-update q.heap q.next_address (buffer size) v.sound (buffer-Sound size));
        live =
            AllLive-map q.heap m.queue.heap m.queue.buffers lives
              (subst (AllLive q.heap) (sym buffers) v.live);
        sorted = subst Sorted (sym buffers) v.sorted;
        next = λ b x e. elim (Bool-cases (b == a)) [
          | inl own ↦
              let k : next_block p' ≡ some x = rw own at e in
              let at : q.next_address ≡ x = cc (sym (ap next_block place) ∙ k) in
              subst (λ (y : ℕ). Lives m.queue.heap y × Below y m.queue.buffers) at
                (new, subst (Below q.next_address) (sym buffers) r.low)
          | inr differs ↦
              let (lively, below) = v.next b x (rw differs at e) in
              (lives x lively, subst (Below x) (sym buffers) below)
        ];
        index_low = omega (arith, v.index_low, index);
      }

  queues-Alive :
      (x : ℕ)
      → s.pc a ≡ stored x
      → Alive size (after s a (record s.mem { queue = queue_block x q }) queued)
  queues-Alive x here =
      let (lively, below) = v.next a x (ap next_block here) in
      record {
        sound = v.sound;
        live = AllLive-append q.heap q.buffers x v.live lively;
        sorted = Sorted-append q.buffers x v.sorted below;
        next = λ b y e. elim (Bool-cases (b == a)) [
          | inl own ↦ cc (rw own at e)
          | inr differs ↦
              let k = next_block-opens (s.pc b) y (rw differs at e) in
              let same = c.one b a k (ap opens here) in absurd (ground (arith, same, differs))
        ];
        index_low = v.index_low;
      }

  frees-Alive :
      (l : LogLine) (p : ℕ) (rest : List ℕ) (m : Memory)
      → q.buffers ≡ p ∷ rest
      → m.queue ≡ record q { heap = update q.heap p none; buffers = rest }
      → Alive size (after s a m (freed l))
  frees-Alive l p rest m at next =
      let heap : m.queue.heap ≡ update q.heap p none = ap (λ (x : QueueBuffer). x.heap) next in
      let buffers : m.queue.buffers ≡ rest = ap (λ (x : QueueBuffer). x.buffers) next in
      let (_, live) = subst (AllLive q.heap) at v.live in
      let (above, sorted) = subst Sorted at v.sorted in
      record {
        sound = subst (AllSound size) (sym heap) (AllSound-free q.heap p v.sound);
        live = subst (AllLive m.queue.heap) (sym buffers) (
            subst (λ (h : ℕ → Option Buffer). AllLive h rest) (sym heap)
              (AllLive-free q.heap p rest above live));
        sorted = subst Sorted (sym buffers) sorted;
        next = λ b x e. elim (Bool-cases (b == a)) [
          | inl own ↦ cc (rw own at e)
          | inr differs ↦
              let (lively, below) = v.next b x (rw differs at e) in
              let (less, others) = subst (Below x) at below in
              (
                subst (λ (h : ℕ → Option Buffer). Lives h x) (sym heap)
                    (Lives-free q.heap p x less lively),
                subst (Below x) (sym buffers) others,
              )
        ];
        index_low = omega (arith, v.index_low, ap (λ (x : QueueBuffer). x.read_index) next);
      }

  pub Move-Alive :
      {p p' : Pc} {m : Memory} → Move size s.mem a p m p' → s.pc a ≡ p → Alive size (after s a m p')
  unfolding claim
  Move-Alive {m = m} (begins l n) here = quiet-Alive v a m _ refl refl refl (λ x k. cc k)
  Move-Alive {m = m} (claims {i} {q = q'} e h) here =
      let next : q' ≡ record q { write_index = (q.write_index + 1) % uint_max } = cc e in
      quiet-Alive v a m _ (ap (λ (x : QueueBuffer). x.heap) next)
        (ap (λ (x : QueueBuffer). x.buffers) next) (ap (λ (x : QueueBuffer). x.read_index) next)
        (λ x k. cc k)
  Move-Alive {m = m} (overshoots {i} {q = q'} e h) here =
      let next : q' ≡ record q { write_index = (q.write_index + 1) % uint_max } = cc e in
      quiet-Alive v a m _ (ap (λ (x : QueueBuffer). x.heap) next)
        (ap (λ (x : QueueBuffer). x.buffers) next) (ap (λ (x : QueueBuffer). x.read_index) next)
        (λ x k. cc k)
  Move-Alive {m = m} (waits h) here = quiet-Alive v a m _ refl refl refl (λ x k. cc k)
  Move-Alive {m = m} (retries h) here = quiet-Alive v a m _ refl refl refl (λ x k. cc k)
  Move-Alive {m = m} loads here = quiet-Alive v a m _ refl refl refl (λ x k. cc k)
  Move-Alive {m = m} (writes {p} {i} {l} {q = q'} e) here =
      let (b, b', at, next, items, states, _) = write_at-frame p i l q q' e in
      let (in_size, _) = c.bounded a i (ap uncounted here) in
      let good = v.sound p b at in
      update-Alive v a m _ p b'
        (set-Sound i (moved_to l) in_size good items
          (λ k differs.
            ap (λ (xs : List ℕ). get_elem? xs k) states
            ∙ get_elem?-set_ne b.write_state 1 (λ same. differs (sym same)))
          (ap (length {0}) states ∙ length-set {A = ℕ} b.write_state i 1))
        (ap (λ (x : QueueBuffer). x.heap) next) (ap (λ (x : QueueBuffer). x.buffers) next)
        (omega (arith, v.index_low, ap (λ (x : QueueBuffer). x.read_index) next)) (λ x k. cc k)
  Move-Alive {m = m} (counts {p} {i} {q = q'} e) here =
      let (b, at, _, next) = count_at-frame size p false q q' e in
      update-Alive v a m _ p (record b { write_count = (b.write_count + 1) % uint_max })
        (counted-Sound v a b ((b.write_count + 1) % uint_max) (v.sound p b at))
        (ap (λ (x : QueueBuffer). x.heap) next) (ap (λ (x : QueueBuffer). x.buffers) next)
        (omega (arith, v.index_low, ap (λ (x : QueueBuffer). x.read_index) next)) (λ x k. cc k)
  Move-Alive {m = m} (completes {p} {i} {q = q'} e) here =
      let (b, at, _, next) = count_at-frame size p true q q' e in
      update-Alive v a m _ p (record b { write_count = (b.write_count + 1) % uint_max })
        (counted-Sound v a b ((b.write_count + 1) % uint_max) (v.sound p b at))
        (ap (λ (x : QueueBuffer). x.heap) next) (ap (λ (x : QueueBuffer). x.buffers) next)
        (omega (arith, v.index_low, ap (λ (x : QueueBuffer). x.read_index) next)) (λ x k. cc k)
  Move-Alive {m = m} (spins {p} e g) here =
      quiet-Alive v a m p refl refl refl (λ x k. ap next_block here ∙ k)
  Move-Alive {m = m} (locks {p} {p'} e g) here =
      quiet-Alive v a m p' refl refl refl (λ x k. absurd (next_block-lock p x e k))
  Move-Alive {m = m} (unlocks {p} {p'} e) here =
      quiet-Alive v a m p' refl refl refl (λ x k. absurd (next_block-unlock p x e k))
  Move-Alive {m = m} stores here = stores-Alive _ m refl refl refl refl
  Move-Alive (queues {p}) here = queues-Alive p here
  Move-Alive {m = m} resets here = quiet-Alive v a m _ refl refl refl (λ x k. cc k)
  Move-Alive {m = m} (seeks z e) here = quiet-Alive v a m _ refl refl refl (λ x k. cc k)
  Move-Alive {m = m} (polls z e) here = quiet-Alive v a m _ refl refl refl (λ x k. cc k)
  Move-Alive {m = m} fronts here = quiet-Alive v a m _ refl refl refl (λ x k. cc k)
  Move-Alive {m = m} (finds_none e) here = quiet-Alive v a m _ refl refl refl (λ x k. cc k)
  Move-Alive {m = m} (misses e h k) here = quiet-Alive v a m _ refl refl refl (λ x k. cc k)
  Move-Alive {m = m} (takes {p} {l} {b} {b'} e h k n) here =
      update-Alive v a m _ p b' (read-Sound v a p l b b' h k) refl refl
        (omega (arith, v.index_low, n, short)) (λ x w. cc w)
  Move-Alive {m = m} (finishes {p} {l} {b} {b'} e h k n) here =
      update-Alive v a m _ p b' (read-Sound v a p l b b' h k) refl refl (omega (arith, v.index_low))
        (λ x w. cc w)
  Move-Alive {m = m} (frees {l} {q = q'} e) here =
      let (p, rest, at, next) = pop_buffer-frame q q' e in frees-Alive l p rest m at next
