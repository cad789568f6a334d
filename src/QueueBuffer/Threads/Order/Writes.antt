-- ===== src/QueueBuffer/Threads/Order/Writes.antt =====
-- Which line each item has, behind a write to an item or a new block.
use zephyrlog.Prelude.{
  ℕ, ◌+◌, ◌<◌, ◌≡◌, ◌≢◌, sym, ap, ◌∙◌, Option, some, List, length, get_elem?, set, false, ◌==◌,
  arith, Bool-cases, inl, inr, lt-length, get_elem?-set_self, get_elem?-set_ne, get_elem?-replicate,
  replicate, length-replicate,
}
use zephyrlog.SpinLock.{Flags}
use zephyrlog.LogLine.{LogLine}
use zephyrlog.QueueBuffer.{Buffer, buffer, QueueBuffer, update, open_block}
use zephyrlog.QueueBuffer.Threads.{Memory, loaded, written, stored, entered, System}
use zephyrlog.QueueBuffer.Threads.Places.{pending, opens, carries, carries-uncounted}
use zephyrlog.QueueBuffer.Threads.Blank.{pending-uncounted}
use zephyrlog.QueueBuffer.Threads.Counted.{Counted, after}
use zephyrlog.QueueBuffer.Threads.Order.Offset.{offset}
use zephyrlog.QueueBuffer.Threads.Order.Content.{Content}

pub buffer-hides : (size i : ℕ) → get_elem? (buffer size).write_state i ≢ some 1
unfolding buffer
buffer-hides size i e =
    let low = lt-length (replicate {A = ℕ} size 0) i e in
    let zero_state =
      get_elem?-replicate {A = ℕ} size i 0 (omega (arith, low, length-replicate {A = ℕ} size 0)) in
    cc (sym zero_state ∙ e)

module _ {size : ℕ} {s : System} {lines out : List LogLine} (v : Content size s lines out)
    (a : ℕ) where
  abbrev q : QueueBuffer
  q = s.mem.queue

  -- The line goes to its item.
  pub Content-writes :
      (m : Memory) (p i : ℕ) (l : LogLine) (b b' : Buffer)
      → s.pc a ≡ loaded p i l
      → p ≡ q.current_write_buffer
      → q.heap p ≡ some b
      → i < length b.items
      → i < length b.write_state
      → b'.items ≡ set b.items i (some l)
      → b'.write_state ≡ set b.write_state i 1
      → m.queue ≡ record q { heap = update q.heap p (some b') }
      → Content size (after s a m (written p i)) lines out
  Content-writes m p i l b b' here at there item_in state_in items states next =
      let heap : m.queue.heap ≡ update q.heap p (some b') = ap (λ (x : QueueBuffer). x.heap) next in
      let block = ap (λ (x : QueueBuffer). x.current_write_buffer) next in
      record {
        shown = λ r d j k x found state item e h.
            let found' = ap (λ (g : ℕ → Option Buffer). g r) (sym heap) ∙ found in
            elim (Bool-cases (r == p)) [
              | inl own ↦
                  let same : r ≡ p = ground arith in
                  let new : b' ≡ d = cc (rw own at found') in
                  let item' =
                    ap (λ (xs : List (Option LogLine)). get_elem? xs j) (sym items)
                    ∙ ap (λ (y : Buffer). get_elem? y.items j) new
                    ∙ item in
                  elim (Bool-cases (j == i)) [
                    | inl this ↦
                        let index : j ≡ i = ground arith in
                        let line : some (some l) ≡ some (some x) =
                          sym (get_elem?-set_self b.items i (some l) item_in)
                          ∙ ap (get_elem? (set b.items i (some l))) (sym index)
                          ∙ item' in
                        let line' : l ≡ x = cc line in
                        v.held a i k l (ap carries here)
                          (omega (arith, e, index, ap (offset size) same, ap (offset size) at))
                        ∙ ap some line'
                    | inr other ↦
                        let differs : i ≢ j = ground arith in
                        v.shown p b j k x there
                          (sym (get_elem?-set_ne b.write_state 1 differs)
                            ∙ ap (λ (xs : List ℕ). get_elem? xs j) (sym states)
                            ∙ ap (λ (y : Buffer). get_elem? y.write_state j) new
                            ∙ state)
                          (sym (get_elem?-set_ne b.items (some l) differs) ∙ item')
                          (omega (arith, e, ap (offset size) same)) h
                  ]
              | inr other ↦ v.shown r d j k x (rw other at found') state item e h
            ];
        hidden = λ r d j k found state in_size e low.
            let found' = ap (λ (g : ℕ → Option Buffer). g r) (sym heap) ∙ found in
            elim (Bool-cases (r == p)) [
              | inl own ↦
                  let same : r ≡ p = ground arith in
                  let new : b' ≡ d = cc (rw own at found') in
                  let differs : i ≢ j = λ index. state (
                    ap (λ (y : Buffer). get_elem? y.write_state j) (sym new)
                    ∙ ap (λ (xs : List ℕ). get_elem? xs j) states
                    ∙ ap (get_elem? (set b.write_state i 1)) (sym index)
                    ∙ get_elem?-set_self b.write_state i 1 state_in) in
                  let (c, waits, _) =
                    v.hidden p b j k there
                      (λ one. state (
                        ap (λ (y : Buffer). get_elem? y.write_state j) (sym new)
                        ∙ ap (λ (xs : List ℕ). get_elem? xs j) states
                        ∙ get_elem?-set_ne b.write_state 1 differs
                        ∙ one))
                      in_size (omega (arith, e, ap (offset size) same)) low in
                  let other : (c == a) ≡ false = ground (arith, waits, ap pending here, differs) in
                  (c, rw other waits, same ∙ at ∙ sym block)
              | inr apart ↦
                  let (c, waits, current) =
                    v.hidden r d j k (rw apart at found') state in_size e low in
                  absurd (ground (arith, apart, current, at))
            ];
        held = λ c j k x e place. elim (Bool-cases (c == a)) [
          | inl own ↦ cc (rw own at e)
          | inr other ↦
              v.held c j k x (rw other at e) (place ∙ ap (λ (p : ℕ). offset size p + j) block)
        ];
      }

  -- The next block has no line yet, and nothing waits for an item while it is made.
  pub Content-stores :
      {f : Flags}
      → Counted size s f
      → s.pc a ≡ entered
      → length lines + size ≡ offset size q.next_address
      → Content size
          (after s a (record s.mem { queue = open_block size q }) (stored q.next_address))
          lines
          out
  Content-stores c here all =
      let (_, quiet) = c.full a (ap opens here) in
      record {
        shown = λ p b i k l at state item e h. elim (Bool-cases (p == q.next_address)) [
          | inl new ↦
              let it : buffer size ≡ b = cc (rw new at at) in
              absurd
                (buffer-hides size i (ap (λ (x : Buffer). get_elem? x.write_state i) it ∙ state))
          | inr old ↦ v.shown p b i k l (rw old at at) state item e h
        ];
        hidden = λ p b i k at state h e low. elim (Bool-cases (p == q.next_address)) [
          | inl new ↦
              let same : p ≡ q.next_address = ground arith in
              absurd (omega (arith, e, low, all, ap (offset size) same))
          | inr old ↦
              let (d, waits, _) = v.hidden p b i k (rw old at at) state h e low in
              cc (sym (quiet d) ∙ pending-uncounted (s.pc d) waits)
        ];
        held = λ d i k l e at. elim (Bool-cases (d == a)) [
          | inl own ↦ cc (rw own at e)
          | inr other ↦ cc (sym (quiet d) ∙ carries-uncounted (s.pc d) (rw other at e))
        ];
      }
