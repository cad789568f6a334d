-- ===== src/QueueBuffer/Threads/Order/Reads.antt =====
-- Which line each item has, behind a read.
use zephyrlog.Prelude.{
  ℕ, ◌+◌, ◌≤◌, ◌<◌, ◌≡◌, ◌≢◌, sym, ap, ◌∙◌, Option, some, List, [], ◌∷◌, ◌++◌, length, get_elem?,
  set, ◌==◌, arith, Bool-cases, inl, inr, length-append, get_elem?-set_ne,
}
use zephyrlog.LogLine.{LogLine}
use zephyrlog.QueueBuffer.{Buffer, QueueBuffer, update}
use zephyrlog.QueueBuffer.Threads.{Memory, Pc, System}
use zephyrlog.QueueBuffer.Threads.Places.{pending, carries, same-update_pc}
use zephyrlog.QueueBuffer.Threads.Counted.{after}
use zephyrlog.QueueBuffer.Threads.Order.Offset.{offset}
use zephyrlog.QueueBuffer.Threads.Order.Content.{Content}

module _ {size : ℕ} {s : System} {lines out : List LogLine} (v : Content size s lines out)
    (a : ℕ) where
  abbrev q : QueueBuffer
  q = s.mem.queue

  -- A line is read, the next one to deliver.
  pub Content-reads :
      (m : Memory) (p' : Pc) (p i : ℕ) (l x : LogLine) (b b' : Buffer)
      → carries p' ≡ carries (s.pc a)
      → pending p' ≡ pending (s.pc a)
      → q.heap p ≡ some b
      → i < size
      → length out + size ≡ offset size p + i
      → b'.items ≡ set b.items i (some x)
      → b'.write_state ≡ b.write_state
      → m.queue.heap ≡ update q.heap p (some b')
      → m.queue.current_write_buffer ≡ q.current_write_buffer
      → Content size (after s a m p') lines (out ++ l ∷ [])
  Content-reads m p' p i l x b b' same_carries same_pending there in_size place items states heap
        block =
      let pend = same-update_pc pending a p' s.pc same_pending in
      let carr = same-update_pc carries a p' s.pc same_carries in
      record {
        shown = λ r d j k y found state item e h.
            let h' : length out + 1 ≤ k = omega (arith, h, length-append out (l ∷ [])) in
            let found' = ap (λ (g : ℕ → Option Buffer). g r) (sym heap) ∙ found in
            elim (Bool-cases (r == p)) [
              | inl own ↦
                  let same : r ≡ p = ground arith in
                  let new : b' ≡ d = cc (rw own at found') in
                  let differs : i ≢ j =
                    λ index. absurd (omega (arith, h', e, place, index, ap (offset size) same)) in
                  v.shown p b j k y there
                    (ap (λ (xs : List ℕ). get_elem? xs j) (sym states)
                      ∙ ap (λ (y : Buffer). get_elem? y.write_state j) new
                      ∙ state)
                    (sym (get_elem?-set_ne b.items (some x) differs)
                      ∙ ap (λ (xs : List (Option LogLine)). get_elem? xs j) (sym items)
                      ∙ ap (λ (y : Buffer). get_elem? y.items j) new
                      ∙ item)
                    (omega (arith, e, ap (offset size) same)) (omega (arith, h'))
              | inr other ↦ v.shown r d j k y (rw other at found') state item e (omega (arith, h'))
            ];
        hidden = λ r d j k found state low e h.
            let found' = ap (λ (g : ℕ → Option Buffer). g r) (sym heap) ∙ found in
            elim (Bool-cases (r == p)) [
              | inl own ↦
                  let same : r ≡ p = ground arith in
                  let new : b' ≡ d = cc (rw own at found') in
                  let (c, waits, current) =
                    v.hidden p b j k there
                      (λ one. state (
                        ap (λ (y : Buffer). get_elem? y.write_state j) (sym new)
                        ∙ ap (λ (xs : List ℕ). get_elem? xs j) states
                        ∙ one))
                      low (omega (arith, e, ap (offset size) same)) h in
                  (c, pend c ∙ waits, same ∙ current ∙ sym block)
              | inr other ↦
                  let (c, waits, current) = v.hidden r d j k (rw other at found') state low e h in
                  (c, pend c ∙ waits, current ∙ sym block)
            ];
        held = λ c j k y e at.
            v.held c j k y (sym (carr c) ∙ e) (at ∙ ap (λ (p : ℕ). offset size p + j) block);
      }
