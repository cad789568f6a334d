-- ===== src/QueueBuffer/Blocks.antt =====
-- The lines that a queue of blocks holds.
use zephyrlog.Prelude.{
  ℕ, ◌≤◌, zero, suc, ◌+◌, ◌-◌, ◌%◌, ◌<◌, ◌≡◌, refl, ap, ◌∙◌, Option, none, some, List, [], ◌∷◌,
  ◌++◌, length, set, replicate, arith, length-append, map, get_elem?, ◌==◌, length-replicate,
  get_elem?-append_left, get_elem?-replicate,
}
use zephyrlog.LogLine.{LogLine}
use zephyrlog.LogLine.Moved.{moved_from, moved_to}
use zephyrlog.QueueBuffer.{
  Buffer, buffer, write_item, count_item, read_item, take_item, destroy, uint_max,
}

-- A block from index `start` on: what was read, the lines to read, and room for `free` more.
pub record Block (size : ℕ) (b : Buffer) (start : ℕ) (lines : List LogLine) : Type 0 where
  pub gone : List LogLine
  pub free : ℕ
  pub gone_size : length gone ≡ start
  pub all : start + length lines + free ≡ size
  pub items_eq : b.items ≡ map some (gone ++ lines) ++ replicate free none
  pub state_eq : b.write_state ≡ replicate (start + length lines) 1 ++ replicate free 0
  pub count_eq : b.write_count ≡ start + length lines

module _ {ℓ} {A : Type ℓ} where
  get-middle :
      (xs ys : List A) (a : A) (i : ℕ) → length xs ≡ i → get_elem? (xs ++ a ∷ ys) i ≡ some a
  get-middle [] ys a zero e = refl
  get-middle [] ys a (suc i) e = absurd (omega arith)
  get-middle (x ∷ xs) ys a zero e = absurd (omega arith)
  get-middle (x ∷ xs) ys a (suc i) e = get-middle xs ys a i (omega arith)

  set-middle :
      (xs ys : List A) (a b : A) (i : ℕ)
      → length xs ≡ i
      → set (xs ++ a ∷ ys) i b ≡ (xs ++ b ∷ []) ++ ys
  set-middle [] ys a b zero e = refl
  set-middle [] ys a b (suc i) e = absurd (omega arith)
  set-middle (x ∷ xs) ys a b zero e = absurd (omega arith)
  set-middle (x ∷ xs) ys a b (suc i) e = ap (◌∷◌ x) (set-middle xs ys a b i (omega arith))

  replicate-snoc : (n : ℕ) (a : A) → replicate n a ++ a ∷ [] ≡ replicate (suc n) a
  replicate-snoc zero a = refl
  replicate-snoc (suc n) a = ap (◌∷◌ a) (replicate-snoc n a)

length-map-some : (xs : List LogLine) → length (map some xs) ≡ length xs
length-map-some [] = refl
length-map-some (x ∷ xs) = ap suc (length-map-some xs)

-- A new block holds nothing.
pub buffer-Block : (size : ℕ) → Block size (buffer size) 0 []
unfolding buffer
buffer-Block size = record {
  gone = [];
  free = size;
  gone_size = refl;
  all = omega arith;
  items_eq = refl;
  state_eq = refl;
  count_eq = omega arith;
}

-- The next index of a block with room.
abbrev pub filled : Buffer → LogLine → ℕ → Buffer
filled b logline i = record {
  items = set b.items i (some logline);
  write_state = set b.write_state i 1;
  write_count = i + 1;
}

map-some-snoc :
    (gone lines : List LogLine) (logline : LogLine)
    → map some (gone ++ lines) ++ some logline ∷ [] ≡ map some (gone ++ (lines ++ logline ∷ []))
map-some-snoc [] [] logline = refl
map-some-snoc [] (x ∷ lines) logline = ap (◌∷◌ (some x)) (map-some-snoc [] lines logline)
map-some-snoc (x ∷ gone) lines logline = ap (◌∷◌ (some x)) (map-some-snoc gone lines logline)

module _ {size : ℕ} {b : Buffer} {start : ℕ} {lines : List LogLine}
    (v : Block size b start lines) where
  front_size : length (map some (v.gone ++ lines)) ≡ start + length lines
  front_size =
      omega (arith, length-map-some (v.gone ++ lines), length-append v.gone lines, v.gone_size)

  -- Writing the next item, and counting it.
  pub write_item-Block :
      (logline : LogLine)
      → start + length lines < size
      → size < uint_max
      → (b₁ : Buffer) × (write_item logline (start + length lines) b ≡ some b₁)
        × (count_item size b₁
            ≡ ((start + length lines + 1) == size, filled b logline (start + length lines)))
        × Block size (filled b logline (start + length lines)) start (lines ++ logline ∷ [])
  unfolding write_item count_item moved_to
  write_item-Block logline h small =
      let w : ℕ = start + length lines in
      let free : ℕ = v.free - 1 in
      let one_free : v.free ≡ suc free = omega (arith, v.all) in
      let nothing : Option LogLine = none in
      let items : b.items ≡ map some (v.gone ++ lines) ++ nothing ∷ replicate free none =
        v.items_eq ∙ ap (λ (n : ℕ). map some (v.gone ++ lines) ++ replicate n nothing) one_free in
      let states : b.write_state ≡ replicate w 1 ++ 0 ∷ replicate free 0 =
        v.state_eq ∙ ap (λ (n : ℕ). replicate w 1 ++ replicate n 0) one_free in
      let found : get_elem? b.items w ≡ some nothing =
        rw items (get-middle _ _ nothing w front_size) in
      let counted : (b.write_count + 1) % uint_max ≡ w + 1 = omega (arith, v.count_eq) in
      (
        record b { items = set b.items w (some logline); write_state = set b.write_state w 1 },
        rw (found, write_item),
        rw (counted, count_item),
        record {
          gone = v.gone;
          free = free;
          gone_size = v.gone_size;
          all = omega (arith, v.all, length-append lines (logline ∷ []));
          items_eq =
              rw
                (
                  items,
                  set-middle (map some (v.gone ++ lines)) (replicate free none) nothing
                      (some logline) w front_size,
                )
                (ap (λ (xs : List (Option LogLine)). xs ++ replicate free none)
                  (map-some-snoc v.gone lines logline));
          state_eq =
              rw
                (
                  states,
                  set-middle {A = ℕ} (replicate w 1) (replicate free 0) 0 1 w
                      (length-replicate {A = ℕ} w 1),
                  replicate-snoc {A = ℕ} w 1,
                )
                (ap (λ (n : ℕ). replicate n 1 ++ replicate free 0) {x = suc w}
                  (omega (arith, length-append lines (logline ∷ []))));
          count_eq = omega (arith, length-append lines (logline ∷ []));
        },
      )

map-some-middle :
    (gone lines : List LogLine) (logline : LogLine) (rest : List (Option LogLine))
    → map some (gone ++ logline ∷ lines) ++ rest
      ≡ map some gone ++ some logline ∷ (map some lines ++ rest)
map-some-middle [] lines logline rest = refl
map-some-middle (x ∷ gone) lines logline rest =
    ap (◌∷◌ (some x)) (map-some-middle gone lines logline rest)

map-some-regroup :
    (gone lines : List LogLine) (logline : LogLine) (rest : List (Option LogLine))
    → (map some gone ++ some logline ∷ []) ++ (map some lines ++ rest)
      ≡ map some ((gone ++ logline ∷ []) ++ lines) ++ rest
map-some-regroup [] lines logline rest = refl
map-some-regroup (x ∷ gone) lines logline rest =
    ap (◌∷◌ (some x)) (map-some-regroup gone lines logline rest)

destroy-map :
    (n : ℕ) (xs : List LogLine) (rest : List (Option LogLine))
    → n ≤ length xs
    → destroy n (map some xs ++ rest) ≡ some tt
unfolding destroy
destroy-map zero xs rest e = refl
destroy-map (suc n) [] rest e = absurd (omega arith)
destroy-map (suc n) (x ∷ xs) rest e = destroy-map n xs rest (omega arith)

-- What the consumer leaves of the item that it reads.
abbrev pub taken : Buffer → LogLine → ℕ → Buffer
taken b logline i = record b { items = set b.items i (some (moved_from logline)) }

-- Reading the first line.
pub read_item-Block :
    {size : ℕ} {b : Buffer} {start : ℕ} {lines : List LogLine} (logline : LogLine)
    → Block size b start (logline ∷ lines)
    → (read_item start b ≡ some (some logline, taken b logline start))
      × Block size (taken b logline start) (start + 1) lines
unfolding read_item take_item moved_to
read_item-Block {size} {b} {start} {lines} logline v =
    let rest : List (Option LogLine) = replicate v.free none in
    let gone : List (Option LogLine) = map some v.gone in
    let gone_size : length gone ≡ start = length-map-some v.gone ∙ v.gone_size in
    let items : b.items ≡ gone ++ some logline ∷ (map some lines ++ rest) =
      v.items_eq ∙ map-some-middle v.gone lines logline rest in
    let state : get_elem? b.write_state start ≡ some 1 =
      rw
        (
          v.state_eq,
          get_elem?-append_left {A = ℕ} (replicate (start + suc (length lines)) 1)
              (replicate v.free 0) start
              (omega (arith, length-replicate (start + suc (length lines)) (suc zero))),
        )
        (get_elem?-replicate {A = ℕ} (start + suc (length lines)) start 1 (omega arith)) in
    let item : get_elem? b.items start ≡ some (some logline) =
      rw items (get-middle gone (map some lines ++ rest) (some logline) start gone_size) in
    (
      rw (state, item, read_item),
      record {
        gone = v.gone ++ moved_from logline ∷ [];
        free = v.free;
        gone_size = omega (arith, length-append v.gone (moved_from logline ∷ []), v.gone_size);
        all = omega (arith, v.all);
        items_eq =
            rw
              (
                items,
                set-middle gone (map some lines ++ rest) (some logline) (some (moved_from logline))
                    start gone_size,
              )
              (map-some-regroup v.gone lines (moved_from logline) rest);
        state_eq = v.state_eq ∙ ap (λ (n : ℕ). replicate n 1 ++ replicate v.free 0) (omega arith);
        count_eq = omega (arith, v.count_eq);
      },
    )

-- Where the consumer has caught up with the producers there is nothing to read.
pub read_item-nil :
    {size : ℕ} {b : Buffer} {start : ℕ}
    → Block size b start []
    → start < size
    → read_item start b ≡ some (none, b)
unfolding read_item take_item
read_item-nil {size} {b} {start} v h =
    let free : ℕ = v.free - 1 in
    let one_free : v.free ≡ suc free = omega (arith, v.all) in
    let nothing : Option LogLine = none in
    let state : get_elem? b.write_state start ≡ some 0 =
      rw (v.state_eq, one_free)
        (get-middle (replicate (start + 0) 1) (replicate free 0) 0 start
          (length-replicate (start + 0) (suc zero) ∙ omega arith)) in
    let item : get_elem? b.items start ≡ some nothing =
      rw (v.items_eq, one_free)
        (get-middle (map some (v.gone ++ [])) (replicate free nothing) nothing start
          (front_size v ∙ omega arith)) in
    rw (state, item, read_item)

-- The destructor of a block finds its items.
pub destroy-Block :
    {size : ℕ} {b : Buffer} {start : ℕ} {lines : List LogLine}
    → Block size b start lines
    → destroy b.write_count b.items ≡ some tt
destroy-Block {size} {b} {start} {lines} v = rw v.items_eq (
    destroy-map b.write_count (v.gone ++ lines) (replicate v.free none)
      (omega (arith, length-append v.gone lines, v.gone_size, v.count_eq)))

-- The same for fewer of the items.
pub destroy-Block_le :
    {size : ℕ} {b : Buffer} {start : ℕ} {lines : List LogLine} (n : ℕ)
    → Block size b start lines
    → n ≤ start
    → destroy n b.items ≡ some tt
destroy-Block_le n v h = rw v.items_eq (
    destroy-map n (v.gone ++ _) (replicate v.free none)
      (omega (arith, length-append v.gone _, v.gone_size)))
