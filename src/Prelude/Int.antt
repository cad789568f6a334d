-- ===== src/Prelude/Int.antt =====
-- Signed machine integers: the integer, and the two's complement word that memory holds.
use Prim.Native.Nat.{ℕ, suc, ◌+◌, ◌-◌, ◌<◌}
use mathlib.Core.Path.{◌≡◌}
use native.Mathlib.Omega.{arith}
use zephyrlog.Prelude.Tests.{ltb, if◌then◌else◌}

-- `negsuc n` is -(n + 1).
pub data ℤ : Type 0 where
  pos : ℕ → ℤ
  negsuc : ℕ → ℤ

-- The integers of a type with `half` values from 0 up, and as many below.
abbrev pub InRange : ℕ → ℤ → Type 0
InRange half (pos n) = n < half
InRange half (negsuc n) = n < half

unfoldable pub to_word : ℕ → ℤ → ℕ
to_word half (pos n) = n
to_word half (negsuc n) = half + half - suc n

unfoldable pub of_word : ℕ → ℕ → ℤ
of_word half w = if ltb w half then pos w else negsuc (half + half - suc w)

pub of_word-to_word : (half : ℕ) (z : ℤ) → InRange half z → of_word half (to_word half z) ≡ z
unfolding of_word to_word
of_word-to_word half (pos n) h = ground arith
of_word-to_word half (negsuc n) h = ground arith

pub to_word-lt : (half : ℕ) (z : ℤ) → InRange half z → to_word half z < half + half
unfolding to_word
to_word-lt half (pos n) h = omega arith
to_word-lt half (negsuc n) h = omega arith
