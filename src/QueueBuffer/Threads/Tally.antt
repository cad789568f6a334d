-- ===== src/QueueBuffer/Threads/Tally.antt =====
-- Counting the items of a block: how many indices below a bound have their flag set.
use zephyrlog.Prelude.{
  ℕ, zero, suc, ◌+◌, ◌≤◌, ◌<◌, ◌≡◌, refl, true, false, ◌==◌, if◌then◌else◌, arith, Bool-cases, inl,
  inr,
}
use zephyrlog.SpinLock.{Flags, update_flag}

unfoldable pub tally : Flags → ℕ → ℕ
tally f zero = 0
tally f (suc n) = let rest = tally f n in if f n then rest + 1 else rest

pub tally_le : (f : Flags) (n : ℕ) → tally f n ≤ n
unfolding tally
tally_le f zero = omega arith
tally_le f (suc n) = ground (arith, tally_le f n)

-- One flag that is not set.
pub tally_lt : (f : Flags) (n j : ℕ) → f j ≡ false → j < n → tally f n < n
unfolding tally
tally_lt f zero j e h = omega arith
tally_lt f (suc n) j e h = elim (Bool-cases (j == n)) [
  | inl same ↦ ground (arith, tally_le f n)
  | inr differs ↦ let less : j < n = ground arith in ground (arith, tally_lt f n j e less)
]

pub tally-none : (f : Flags) (n : ℕ) → ((i : ℕ) → f i ≡ false) → tally f n ≡ 0
unfolding tally
tally-none f zero h = refl
tally-none f (suc n) h = rw (h n) (tally-none f n h)

tally-update_flag_ge : (f : Flags) (n i : ℕ) → n ≤ i → tally (update_flag i true f) n ≡ tally f n
unfolding tally
tally-update_flag_ge f zero i h = refl
tally-update_flag_ge f (suc n) i h =
    let off : (n == i) ≡ false = ground arith in
    rw (off, tally-update_flag_ge f n i (omega arith)) refl

-- Setting a flag that was not set.
pub tally-update_flag :
    (f : Flags) (n i : ℕ) → f i ≡ false → i < n → tally (update_flag i true f) n ≡ tally f n + 1
unfolding tally
tally-update_flag f zero i e h = absurd (omega arith)
tally-update_flag f (suc n) i e h = elim (Bool-cases (n == i)) [
  | inl same ↦
      let here : f n ≡ false = ground arith in
      let rest = tally-update_flag_ge f n i (ground arith) in rw (same, here, rest) refl
  | inr differs ↦
      let less : i < n = ground arith in
      let rest = tally-update_flag f n i e less in ground (arith, rest)
]
