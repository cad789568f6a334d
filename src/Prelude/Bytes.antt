-- ===== src/Prelude/Bytes.antt =====
-- Memory as bytes: little-endian words, and the reads and writes at an address of an array, which
-- are `none` when they leave it.
use Prim.Native.Nat.{ℕ, zero, suc, ◌+◌, ◌*◌, ◌/◌, ◌%◌, ◌^◌, ◌≤◌, ◌<◌}
use mathlib.Core.Path.{◌≡◌, refl, sym, ap, ◌∙◌}
use mathlib.Core.List.{List, [], ◌∷◌, ◌++◌, append_assoc}
use mathlib.Core.Option.{Option, none, some}
use native.Mathlib.Nat.{pow-suc}
use native.Mathlib.Omega.{arith}
use zephyrlog.Prelude.Tests.{leb, if◌then◌else◌, leb_of_le, leb_of_lt}
use zephyrlog.Prelude.Lists.{
  length, take, drop, length-append, length-take, length-drop, take-append,
}

-- The `w` bytes of an unsigned word, lowest first.
unfoldable pub to_bytes : ℕ → ℕ → List ℕ
to_bytes zero n = []
to_bytes (suc w) n = (n % 256) ∷ to_bytes w (n / 256)

unfoldable pub of_bytes : List ℕ → ℕ
of_bytes [] = 0
of_bytes (b ∷ bs) = b + 256 * of_bytes bs

pub length-to_bytes : (w n : ℕ) → length (to_bytes w n) ≡ w
unfolding to_bytes
length-to_bytes zero n = refl
length-to_bytes (suc w) n = ap suc (length-to_bytes w (n / 256))

pub of_bytes-to_bytes : (w n : ℕ) → n < 256 ^ w → of_bytes (to_bytes w n) ≡ n
unfolding to_bytes of_bytes
of_bytes-to_bytes zero n h = omega arith
of_bytes-to_bytes (suc w) n h =
    omega (arith, of_bytes-to_bytes w (n / 256) (omega (arith, pow-suc 256 w)))

-- The first `n` bytes of what is left of an array, and the rest.
unfoldable pub read : ℕ → List ℕ → Option (List ℕ × List ℕ)
read n bs = if leb n (length bs) then some (take n bs, drop n bs) else none

drop-append : (n : ℕ) (xs ys : List ℕ) → length xs ≡ n → drop n (xs ++ ys) ≡ ys
drop-append zero [] ys e = refl
drop-append zero (x ∷ xs) ys e = absurd (omega arith)
drop-append (suc n) [] ys e = absurd (omega arith)
drop-append (suc n) (x ∷ xs) ys e = drop-append n xs ys (omega arith)

pub read-append : (n : ℕ) (xs ys : List ℕ) → length xs ≡ n → read n (xs ++ ys) ≡ some (xs, ys)
unfolding read
read-append n xs ys e = rw (
  leb_of_le n (length (xs ++ ys)) (omega (arith, length-append xs ys)),
  take-append n xs ys e,
  drop-append n xs ys e,
)

pub read_fits : (n : ℕ) (bs : List ℕ) → n ≤ length bs → read n bs ≡ some (take n bs, drop n bs)
unfolding read
read_fits n bs h = rw (leb_of_le n (length bs) h)

-- `memcpy` to offset `at` of an array.
unfoldable pub write : ℕ → List ℕ → List ℕ → Option (List ℕ)
write at bs buf =
    if leb (at + length bs) (length buf)
    then some (take at buf ++ (bs ++ drop (at + length bs) buf))
    else none

-- A write that fits gives an array of the same size, with the bytes behind what stood before them.
pub write_fits :
    (at : ℕ) (bs buf : List ℕ)
    → at + length bs ≤ length buf
    → (buf' : List ℕ) × (write at bs buf ≡ some buf')
      × (length buf' ≡ length buf)
      × (take (at + length bs) buf' ≡ take at buf ++ bs)
unfolding write
write_fits at bs buf h = (front ++ (bs ++ back), rw (leb_of_le _ _ h), size, kept)
  where
    front : List ℕ
    front = take at buf

    back : List ℕ
    back = drop (at + length bs) buf

    front_size : length front ≡ at
    front_size = length-take at buf (omega arith)

    size : length (front ++ (bs ++ back)) ≡ length buf
    size = omega (
      arith,
      front_size,
      length-append front (bs ++ back),
      length-append bs back,
      length-drop (at + length bs) buf,
    )

    kept : take (at + length bs) (front ++ (bs ++ back)) ≡ front ++ bs
    kept =
        ap (take (at + length bs)) (sym (append_assoc front bs back))
        ∙ take-append (at + length bs) (front ++ bs) back
            (omega (arith, front_size, length-append front bs))

-- A write that does not fit is no write.
pub write_overflow :
    (at : ℕ) (bs buf : List ℕ) → length buf < at + length bs → write at bs buf ≡ none
unfolding write
write_overflow at bs buf h = rw (leb_of_lt _ _ h)

pub read_overflow : (n : ℕ) (bs : List ℕ) → length bs < n → read n bs ≡ none
unfolding read
read_overflow n bs h = rw (leb_of_lt _ _ h)
