-- ===== src/Prelude/Decimal.antt =====
-- What `operator<<` of a stream and `%06llu` write for a number, in ASCII.
use Prim.Native.Nat.{ℕ, zero, suc, ◌+◌, ◌-◌, ◌*◌, ◌/◌, ◌%◌, ◌^◌, ◌<◌}
use mathlib.Core.Path.{◌≡◌, refl, ◌∙◌}
use mathlib.Core.List.{List, [], ◌∷◌, ◌++◌, foldl, foldl-append}
use native.Mathlib.Nat.{pow-suc}
use native.Mathlib.Omega.{arith}
use zephyrlog.Prelude.Tests.{ltb, if◌then◌else◌}
use zephyrlog.Prelude.Lists.{length, length-append}

abbrev digit : ℕ → ℕ
digit n = b'0' + n

-- The digits of a number below 10 ^ (k + 1), with no leading zero.
unfoldable pub digits : ℕ → ℕ → List ℕ
digits zero n = digit n ∷ []
digits (suc k) n =
    let front = digits k (n / 10) in if ltb n 10 then digit n ∷ [] else front ++ digit (n % 10) ∷ []

-- The largest 64-bit word has twenty digits.
unfoldable pub decimal : ℕ → List ℕ
decimal n = digits 19 n

-- The last `w` digits, with leading zeros.
unfoldable pub padded : ℕ → ℕ → List ℕ
padded zero n = []
padded (suc w) n = padded w (n / 10) ++ digit (n % 10) ∷ []

-- The number that a row of digits stands for.
unfoldable pub value : List ℕ → ℕ
value = foldl (λ v d. 10 * v + (d - b'0')) 0

value-snoc : (ds : List ℕ) (n : ℕ) → value (ds ++ digit n ∷ []) ≡ 10 * value ds + n
unfolding value
value-snoc ds n = rw (foldl-append {0, 0}) (omega arith)

value-digit : (n : ℕ) → value (digit n ∷ []) ≡ n
unfolding value
value-digit n = omega arith

value-digits : (k n : ℕ) → n < 10 ^ suc k → value (digits k n) ≡ n
unfolding digits
value-digits zero n h = value-digit n
value-digits (suc k) n h = ground (
  arith,
  value-digit n,
  value-snoc (digits k (n / 10)) (n % 10),
  value-digits k (n / 10) (omega (arith, pow-suc 10 (suc k))),
)

pub value-decimal : (n : ℕ) → n < 2 ^ 64 → value (decimal n) ≡ n
unfolding decimal
value-decimal n h = value-digits 19 n (omega arith)

value-nil : value [] ≡ 0
unfolding value
value-nil = refl

pub value-padded : (w n : ℕ) → n < 10 ^ w → value (padded w n) ≡ n
unfolding padded
value-padded zero n h = value-nil ∙ omega arith
value-padded (suc w) n h = omega (
  arith,
  value-snoc (padded w (n / 10)) (n % 10),
  value-padded w (n / 10) (omega (arith, pow-suc 10 w)),
)

pub length-padded : (w n : ℕ) → length (padded w n) ≡ w
unfolding padded
length-padded zero n = refl
length-padded (suc w) n =
    omega (arith, length-append (padded w (n / 10)) (digit (n % 10) ∷ []), length-padded w (n / 10))
