-- ===== src/Prelude/Text.antt =====
-- Text literals as the bytes of a C string, and the comparison of strings.
use Prim.Native.Nat.{ℕ}
use Prim.Native.Char.{code}
use Prim.Native.String.{String}
use mathlib.Core.Path.{◌≡◌, refl}
use mathlib.Core.Logic.{inl, inr}
use mathlib.Core.Bool.{Bool, true, false, ◌&&◌}
use mathlib.Core.List.{List, [], ◌∷◌}
use native.Mathlib.Omega.{arith}
use zephyrlog.Prelude.Tests.{◌==◌, eqb_refl, Bool-cases}

abbrev pub codes : String → List ℕ
codes String.[] = []
codes (String.◌∷◌ c s) = code c ∷ codes s

-- `std::string::operator==`
unfoldable pub same_name : List ℕ → List ℕ → Bool
same_name [] [] = true
same_name (x ∷ xs) (y ∷ ys) = (x == y) && same_name xs ys
same_name _ _ = false

pub same_name_refl : (a : List ℕ) → same_name a a ≡ true
unfolding same_name
same_name_refl [] = refl
same_name_refl (x ∷ xs) = rw (eqb_refl x) (same_name_refl xs)

pub same_name-eq : (a b : List ℕ) → same_name a b ≡ true → a ≡ b
unfolding same_name
same_name-eq [] [] e = refl
same_name-eq [] (y ∷ ys) e = cc e
same_name-eq (x ∷ xs) [] e = cc e
same_name-eq (x ∷ xs) (y ∷ ys) e = elim (Bool-cases (x == y)) [
  | inl h ↦
      let head : x ≡ y = ground arith in
      let tail : xs ≡ ys = same_name-eq xs ys (rw h at e) in rw (head, tail)
  | inr h ↦ let no : false ≡ true = rw h at e in cc no
]
