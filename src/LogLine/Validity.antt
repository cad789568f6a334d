-- ===== src/LogLine/Validity.antt =====
-- The invariant of a `LogLine`, and what each store and resize does to the bytes in use.
use zephyrlog.Prelude.{
  ℕ, zero, ◌+◌, ◌*◌, ◌%◌, ◌≤◌, ◌<◌, ◌≡◌, refl, max, Option, none, some, List, [], ◌++◌, length,
  replicate, take, leb, if◌then◌else◌, true, false, arith, Bool-cases, inl, inr, ap, ap₂, ◌∙◌,
  length-take, length-replicate,
}
use zephyrlog.Prelude.Bytes.{read_fits, write_fits, write_overflow}
use zephyrlog.LogLine.{
  LogLine, fresh, buffer, set_buffer, store, move_to_heap, resize_buffer_if_needed,
  stack_buffer_size, size_max, add_size,
}

-- The size that the object believes in is the size of the array that it writes to.
abbrev HasSize : LogLine → Option (List ℕ) → Type 0
HasSize l none = l.buffer_size ≡ stack_buffer_size
HasSize l (some heap) = (l.buffer_size ≡ length heap) × (l.buffer_size < size_max)

pub record IsValid (l : LogLine) : Type 0 where
  pub stack_size : length l.stack_buffer ≡ stack_buffer_size
  pub has_size : HasSize l l.heap_buffer
  pub used_fits : l.bytes_used ≤ l.buffer_size

-- The bytes written so far.
pub used : LogLine → List ℕ
used l = take l.bytes_used (buffer l)

pub used-take : (l : LogLine) → take l.bytes_used (buffer l) ≡ used l
unfolding used
used-take l = refl

pub used-fresh : (stack : List ℕ) → used (fresh stack) ≡ []
unfolding used buffer
used-fresh stack = refl

pub length-buffer : {l : LogLine} → IsValid l → length (buffer l) ≡ l.buffer_size
unfolding buffer
length-buffer v = ground arith

pub length-used : {l : LogLine} → IsValid l → length (used l) ≡ l.bytes_used
unfolding used
length-used {l} v = length-take l.bytes_used (buffer l) (omega (arith, length-buffer v))

-- The object with other bytes in its array.
abbrev rewritten : List ℕ → ℕ → LogLine → LogLine
rewritten b n l = record (set_buffer b l) { bytes_used = n }

buffer-rewritten : (b : List ℕ) (n : ℕ) (l : LogLine) → buffer (rewritten b n l) ≡ b
unfolding buffer set_buffer
buffer-rewritten b n l = ground arith

buffer_size-rewritten :
    (b : List ℕ) (n : ℕ) (l : LogLine) → (rewritten b n l).buffer_size ≡ l.buffer_size
unfolding set_buffer
buffer_size-rewritten b n l = ground arith

rewritten-IsValid :
    {l : LogLine} (b : List ℕ) (n : ℕ)
    → IsValid l
    → length b ≡ l.buffer_size
    → n ≤ l.buffer_size
    → IsValid (rewritten b n l)
unfolding set_buffer
rewritten-IsValid b n v e h = ground arith

buffer_size-lt : {l : LogLine} → IsValid l → l.buffer_size < size_max
buffer_size-lt v = ground arith

-- A store that fits succeeds, keeps the invariant, and appends its bytes.
pub store_lem :
    {l : LogLine} (bytes : List ℕ)
    → IsValid l
    → l.bytes_used + length bytes ≤ l.buffer_size
    → (l' : LogLine) × (store bytes l ≡ some l')
      × IsValid l'
      × (used l' ≡ used l ++ bytes)
      × (l'.bytes_used ≡ l.bytes_used + length bytes)
      × (l'.buffer_size ≡ l.buffer_size)
unfolding store used
store_lem {l} bytes v h =
    let at : ℕ = l.bytes_used in
    let (b, e, size, kept) = write_fits at bytes (buffer l) (omega (arith, length-buffer v)) in
    let no_wrap : add_size at (length bytes) ≡ at + length bytes =
      omega (arith, buffer_size-lt v) in
    (
      rewritten b (add_size at (length bytes)) l,
      rw e,
      rewritten-IsValid b (add_size at (length bytes)) v (size ∙ length-buffer v) (omega arith),
      ap₂ take no_wrap (buffer-rewritten b (add_size at (length bytes)) l) ∙ kept,
      no_wrap,
      buffer_size-rewritten b (add_size at (length bytes)) l,
    )

-- A store past the end of the array is undefined behaviour.
pub store_overflow :
    {l : LogLine} (bytes : List ℕ)
    → IsValid l
    → l.buffer_size < l.bytes_used + length bytes
    → store bytes l ≡ none
unfolding store
store_overflow {l} bytes v h =
    rw (write_overflow l.bytes_used bytes (buffer l) (omega (arith, length-buffer v)))

-- Moving to a larger array on the heap succeeds and keeps the bytes in use.
pub move_to_heap_lem :
    {l : LogLine} (size : ℕ)
    → IsValid l
    → l.bytes_used ≤ size
    → size < size_max
    → (l' : LogLine) × (move_to_heap size l ≡ some l')
      × IsValid l'
      × (used l' ≡ used l)
      × (l'.buffer_size ≡ size)
unfolding move_to_heap used buffer
move_to_heap_lem {l} size v h small =
    let n : ℕ = l.bytes_used in
    let in_use : List ℕ = take n (buffer l) in
    let in_use_size : length in_use ≡ n = unfold used in length-used v in
    let (heap, e, heap_size, kept) =
      write_fits 0 in_use (replicate size 0) (omega (arith, length-replicate size (zero))) in
    (
      record l { buffer_size = size; heap_buffer = some heap },
      rw (read_fits n (buffer l) (omega (arith, length-buffer v)), e),
      record {
        stack_size = v.stack_size;
        has_size = omega (arith, heap_size, length-replicate size (zero));
        used_fits = h;
      },
      ap (λ (k : ℕ). take k heap) (omega arith) ∙ kept,
      refl,
    )

-- The size of the next array: 512 bytes at least for the first on the heap, twice the old one at
-- least for a later one, and never less than what is required.
pub next_size : ℕ → LogLine → ℕ
next_size required l = elim l.heap_buffer [
  | none ↦ max 512 required
  | some _ ↦ max (2 * l.buffer_size % size_max) required
]

pub size_after : ℕ → LogLine → ℕ
unfolding next_size
size_after required l = if leb required l.buffer_size then l.buffer_size else next_size required l

resize-small :
    (l : LogLine) (additional : ℕ)
    → leb (add_size l.bytes_used additional) l.buffer_size ≡ true
    → resize_buffer_if_needed additional l ≡ some l
unfolding resize_buffer_if_needed
resize-small l additional e = rw e

resize-large :
    (l : LogLine) (additional : ℕ)
    → leb (add_size l.bytes_used additional) l.buffer_size ≡ false
    → resize_buffer_if_needed additional l
      ≡ move_to_heap (next_size (add_size l.bytes_used additional) l) l
unfolding resize_buffer_if_needed next_size
resize-large l additional e = ground arith

next_size_bounds :
    (required : ℕ) (l : LogLine)
    → required < size_max
    → (required ≤ next_size required l) × (next_size required l < size_max)
unfolding next_size
next_size_bounds required l h = ground arith

-- On a well formed line, if the bytes in use and the additional ones are fewer than 2^64,
-- `resizeBufferIfNeeded` succeeds, makes room for the additional bytes, keeps the bytes in use and
-- the line well formed, and leaves the array alone where they fit already; else the new size is the
-- larger of what is required and 512, for a line that is not on the heap, or twice the old size,
-- modulo 2^64, for one that is.
pub resize_lem :
    {l : LogLine} (additional : ℕ)
    → IsValid l
    → l.bytes_used + additional < size_max
    → (l' : LogLine) × (resize_buffer_if_needed additional l ≡ some l')
      × IsValid l'
      × (used l' ≡ used l)
      × (l'.buffer_size ≡ size_after (l.bytes_used + additional) l)
      × (l.bytes_used + additional ≤ l'.buffer_size)
unfolding size_after
resize_lem {l} additional v h =
    let sum : add_size l.bytes_used additional ≡ l.bytes_used + additional = omega arith in
    let bounds = next_size_bounds (l.bytes_used + additional) l h in
    elim (Bool-cases (leb (l.bytes_used + additional) l.buffer_size)) [
      | inl small ↦ (l, resize-small l additional (rw sum small), v, refl, rw small, ground arith)
      | inr large ↦
          let (l', e, v', same, size) =
            move_to_heap_lem (next_size (l.bytes_used + additional) l) v (ground arith) bounds.1 in
          (
            l',
            resize-large l additional (rw sum large) ∙ rw (sum) e,
            v',
            same,
            rw large size,
            ground arith,
          )
    ]
