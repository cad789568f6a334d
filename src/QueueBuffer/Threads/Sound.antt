-- ===== src/QueueBuffer/Threads/Sound.antt =====
-- The blocks in the heap: an item with state 1 holds a line.
use zephyrlog.Prelude.{
  ℕ, ◌<◌, ◌≡◌, ◌≢◌, ◌⊎◌, refl, sym, ap, ◌∙◌, Option, none, some, length, true, false, ◌==◌,
  get_elem?, set, replicate, arith, Bool-cases, inl, inr, lt-length, length-set, length-replicate,
  get_elem?-set_self, get_elem?-set_ne, get_elem?-replicate, get_elem?-of_lt,
}
use zephyrlog.LogLine.{LogLine}
use zephyrlog.LogLine.Moved.{moved_from, moved_to}
use zephyrlog.QueueBuffer.{Buffer, buffer, read_item, take_item}

pub record Sound (size : ℕ) (b : Buffer) : Type 0 where
  pub items_length : length b.items ≡ size
  pub states_length : length b.write_state ≡ size
  pub shown :
      (k : ℕ)
      → get_elem? b.write_state k ≡ some 1
      → (l : LogLine) × (get_elem? b.items k ≡ some (some l))

pub buffer-Sound : (size : ℕ) → Sound size (buffer size)
unfolding buffer
buffer-Sound size = record {
  items_length = length-replicate size none;
  states_length = length-replicate {A = ℕ} size 0;
  shown = λ k e.
      let low = lt-length (replicate {A = ℕ} size 0) k e in
      let zero_state =
        get_elem?-replicate {A = ℕ} size k 0
          (omega (arith, low, length-replicate {A = ℕ} size 0)) in
      cc (sym zero_state ∙ e);
}

-- A line goes to an item, whose state becomes 1, or stays so.
pub set-Sound :
    {size : ℕ} {b b' : Buffer} (i : ℕ) (l : LogLine)
    → i < size
    → Sound size b
    → b'.items ≡ set b.items i (some l)
    → ((k : ℕ) → k ≢ i → get_elem? b'.write_state k ≡ get_elem? b.write_state k)
    → length b'.write_state ≡ length b.write_state
    → Sound size b'
set-Sound {size} {b} {b'} i l h v items states long = record {
  items_length = ap (length {0}) items ∙ length-set b.items i (some l) ∙ v.items_length;
  states_length = long ∙ v.states_length;
  shown = λ k e. elim (Bool-cases (k == i)) [
    | inl same ↦
        let at : k ≡ i = ground arith in
        (l, rw (items, at) (get_elem?-set_self b.items i (some l) (omega (arith, v.items_length))))
    | inr differs ↦
        let off : k ≢ i = ground arith in
        let (l', there) = v.shown k (sym (states k off) ∙ e) in
        (l', rw items (get_elem?-set_ne b.items (some l) (λ same. off (sym same)) ∙ there))
  ];
}

-- Every read of an item within the block is defined.
pub read_item-Sound :
    (size i : ℕ) (b : Buffer)
    → Sound size b
    → i < size
    → (out : Option LogLine) × (b' : Buffer) × (read_item i b ≡ some (out, b'))
unfolding read_item take_item
read_item-Sound size i b v h =
    let (state, e) = get_elem?-of_lt b.write_state i (omega (arith, v.states_length)) in
    let (item, k) = get_elem?-of_lt b.items i (omega (arith, v.items_length)) in
    read_cases state item e k (Bool-cases (state == 1))
  where
    read_cases :
        (state : ℕ) (item : Option LogLine)
        → get_elem? b.write_state i ≡ some state
        → get_elem? b.items i ≡ some item
        → ((state == 1) ≡ true) ⊎ ((state == 1) ≡ false)
        → (out : Option LogLine) × (b' : Buffer) × (read_item i b ≡ some (out, b'))
    read_cases state (some x) e k (inl on) = (
      some (moved_to x),
      record b { items = set b.items i (some (moved_from x)) },
      rw (read_item, e, k, take_item, on) refl,
    )
    read_cases state (some x) e k (inr off) = (none, b, rw (read_item, e, k, take_item, off) refl)
    read_cases state none e k (inl on) =
        let one : state ≡ 1 = ground arith in
        let (l, there) = v.shown i (e ∙ ap some one) in cc (sym k ∙ there)
    read_cases state none e k (inr off) = (none, b, rw (read_item, e, k, take_item, off) refl)
