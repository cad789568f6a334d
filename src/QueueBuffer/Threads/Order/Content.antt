-- ===== src/QueueBuffer/Threads/Order/Content.antt =====
-- Which line each item of a block has.
use zephyrlog.Prelude.{
  ℕ, ◌+◌, ◌≤◌, ◌<◌, ◌≡◌, ◌≢◌, sym, ap, ◌∙◌, Option, none, some, List, [], ◌∷◌, ◌++◌, length,
  get_elem?, false, ◌==◌, arith, Bool-cases, inl, inr, eqb_refl, length-append, lt-length,
  get_elem?-append_left, get_elem?-append_last,
}
use zephyrlog.LogLine.{LogLine}
use zephyrlog.QueueBuffer.{Buffer, QueueBuffer}
use zephyrlog.QueueBuffer.Threads.{Memory, Pc, claimed, System}
use zephyrlog.QueueBuffer.Threads.Places.{pending, carries, same-update_pc}
use zephyrlog.QueueBuffer.Threads.Counted.{after}
use zephyrlog.QueueBuffer.Threads.Order.Offset.{offset, offset_inj}

-- `lines` are those claimed, `out` those delivered. An item with state 1 that is not delivered has
-- the line of its place; any other that is claimed waits for a thread; and that has this line.
pub record Content (size : ℕ) (s : System) (lines out : List LogLine) : Type 0 where
  pub shown :
      (p : ℕ) (b : Buffer) (i k : ℕ) (l : LogLine)
      → s.mem.queue.heap p ≡ some b
      → get_elem? b.write_state i ≡ some 1
      → get_elem? b.items i ≡ some (some l)
      → k + size ≡ offset size p + i
      → length out ≤ k
      → get_elem? lines k ≡ some l
  pub hidden :
      (p : ℕ) (b : Buffer) (i k : ℕ)
      → s.mem.queue.heap p ≡ some b
      → get_elem? b.write_state i ≢ some 1
      → i < size
      → k + size ≡ offset size p + i
      → k < length lines
      → (a : ℕ) × (pending (s.pc a) ≡ some i) × (p ≡ s.mem.queue.current_write_buffer)
  pub held :
      (a i k : ℕ) (l : LogLine)
      → carries (s.pc a) ≡ some (i, l)
      → k + size ≡ offset size s.mem.queue.current_write_buffer + i
      → get_elem? lines k ≡ some l

-- Every block was in the heap before, with the same items.
abbrev pub SameItems : QueueBuffer → QueueBuffer → Type 0
SameItems q q' =
    (p : ℕ) (b' : Buffer)
    → q'.heap p ≡ some b'
    → (b : Buffer) × (q.heap p ≡ some b) × (b'.items ≡ b.items) × (b'.write_state ≡ b.write_state)

append_some :
    (xs ys : List LogLine) (k : ℕ) {l : LogLine}
    → get_elem? xs k ≡ some l
    → get_elem? (xs ++ ys) k ≡ some l
append_some xs ys k e = get_elem?-append_left xs ys k (lt-length xs k e) ∙ e

module _ {size : ℕ} {s : System} {lines out : List LogLine} (v : Content size s lines out)
    (a : ℕ) where
  abbrev q : QueueBuffer
  q = s.mem.queue

  -- A move that writes to no item and claims none.
  pub Content-keep :
      (m : Memory) (p' : Pc)
      → SameItems q m.queue
      → m.queue.current_write_buffer ≡ q.current_write_buffer
      → pending p' ≡ pending (s.pc a)
      → carries p' ≡ carries (s.pc a)
      → Content size (after s a m p') lines out
  Content-keep m p' items block same_pending same_carries =
      let pend = same-update_pc pending a p' s.pc same_pending in
      let carr = same-update_pc carries a p' s.pc same_carries in
      record {
        shown = λ p b' i k l at state item e h.
            let (b, there, eq, eq') = items p b' at in
            v.shown p b i k l there (ap (λ (xs : List ℕ). get_elem? xs i) (sym eq') ∙ state)
              (ap (λ (xs : List (Option LogLine)). get_elem? xs i) (sym eq) ∙ item) e h;
        hidden = λ p b' i k at state h e low.
            let (b, there, eq, eq') = items p b' at in
            let (c, waits, here) =
              v.hidden p b i k there (λ x. state (ap (λ (xs : List ℕ). get_elem? xs i) eq' ∙ x)) h e
                low in
            (c, pend c ∙ waits, here ∙ sym block);
        held = λ c i k l e at.
            v.held c i k l (sym (carr c) ∙ e) (at ∙ ap (λ (p : ℕ). offset size p + i) block);
      }

  -- A claim of the next place.
  pub Content-claims :
      (m : Memory) (w : ℕ) (l : LogLine)
      → m.queue.heap ≡ q.heap
      → m.queue.current_write_buffer ≡ q.current_write_buffer
      → w < size
      → pending (s.pc a) ≡ none
      → length lines + size ≡ offset size q.current_write_buffer + w
      → Content size (after s a m (claimed w l)) (lines ++ l ∷ []) out
  Content-claims m w l heap block in_size none_pending place = record {
    shown = λ p b i k x at state item e h.
        append_some lines (l ∷ []) k
          (v.shown p b i k x (ap (λ (g : ℕ → Option Buffer). g p) (sym heap) ∙ at) state item e h);
    hidden = λ p b i k at state h e low. elim (Bool-cases (k == length lines)) [
      | inl last ↦
          let last_eq : k ≡ length lines = ground arith in
          let (same, index) =
            offset_inj size p q.current_write_buffer i w h in_size
              (omega (arith, e, place, last_eq)) in
          (a, rw (eqb_refl a) (ap some (sym index)), same ∙ sym block)
      | inr before ↦
          let less : k < length lines = ground (arith, low, length-append lines (l ∷ [])) in
          let (c, waits, here) =
            v.hidden p b i k (ap (λ (g : ℕ → Option Buffer). g p) (sym heap) ∙ at) state h e less in
          let other : (c == a) ≡ false = ground (arith, waits, none_pending) in
          (c, rw other waits, here ∙ sym block)
    ];
    held = λ c i k x e at.
        let place' : k + size ≡ offset size q.current_write_buffer + i =
          at ∙ ap (λ (p : ℕ). offset size p + i) block in
        elim (Bool-cases (c == a)) [
          | inl same ↦
              let it : some (w, l) ≡ some (i, x) = rw same at e in
              let index : w ≡ i = cc it in
              let last_eq : k ≡ length lines = omega (arith, place, place', index) in
              let line : l ≡ x = cc it in
              ap (get_elem? (lines ++ l ∷ [])) last_eq
              ∙ get_elem?-append_last lines l
              ∙ ap some line
          | inr differs ↦ append_some lines (l ∷ []) k (v.held c i k x (rw differs at e) place')
        ];
  }
