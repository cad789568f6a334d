-- ===== src/RingBuffer/Index.antt =====
-- Positions round a ring.
use zephyrlog.Prelude.{
  ℕ, suc, ◌+◌, ◌-◌, ◌%◌, ◌^◌, ◌≤◌, ◌<◌, ◌≡◌, ◌≢◌, ◌⊎◌, inl, inr, sym, ap, ◌∙◌, arith,
}
use native.Mathlib.Nat.{
  mod-mod_of_dvd, mod-lt, mod-add-mod, add-mod-mod, mod-eq_of_lt, mod-eq-sub-mod,
  dvd_of_mod-eq-zero, add-mod_right,
}
use native.Mathlib.Decide.{dec_lt}

-- A number below two rings.
reduce : (x s : ℕ) → x < s + s → ((x < s) × (x % s ≡ x)) ⊎ ((s ≤ x) × (x % s ≡ x - s))
reduce x s h = elim (dec_lt x s) [
  | yes low ↦ inl (low, mod-eq_of_lt low)
  | no high ↦ inr (omega arith, mod-eq-sub-mod (omega arith) ∙ mod-eq_of_lt (omega arith))
]

apart : (b s j k : ℕ) → b < s → j < s → k < s → j ≢ k → (b + j) % s ≢ (b + k) % s
apart b s j k hb hj hk ne e =
    omega (arith, reduce (b + j) s (omega arith), reduce (b + k) s (omega arith))

-- Two slots less than a whole ring apart are not the same.
pub place-ne : (r s j k : ℕ) → j < s → k < s → j ≢ k → (r + j) % s ≢ (r + k) % s
place-ne r s j k hj hk ne e =
    let base : ℕ = r % s in
    let below : base < s = mod-lt r (omega arith) in
    let same : (base + j) % s ≡ (base + k) % s = mod-add-mod r s j ∙ e ∙ sym (mod-add-mod r s k) in
    absurd (apart base s j k below hj hk ne same)

-- The index that a producer claims is that many places behind the consumer's.
pub wrapped : (size r a : ℕ) → 2 ^ 32 % size ≡ 0 → (r + a) % 2 ^ 32 % size ≡ (r + a % size) % size
wrapped size r a d =
    mod-mod_of_dvd size (r + a) (dvd_of_mod-eq-zero size d) ∙ sym (add-mod-mod r a size)

-- The next position, counted from the next start.
pub shifted :
    (size r k : ℕ) → 2 ^ 32 % size ≡ 0 → ((r + 1) % 2 ^ 32 + k) % size ≡ (r + suc k) % size
shifted size r k d =
    sym (mod-add-mod ((r + 1) % 2 ^ 32) size k)
    ∙ ap (λ (n : ℕ). (n + k) % size) (mod-mod_of_dvd size (r + 1) (dvd_of_mod-eq-zero size d))
    ∙ mod-add-mod (r + 1) size k
    ∙ ap (λ (n : ℕ). n % size) (omega arith)

-- A whole ring further is the same position.
pub round_trip : (size r k : ℕ) → suc k ≡ size → (r + suc k) % size ≡ (r + 0) % size
round_trip size r k e =
    ap (λ (n : ℕ). (r + n) % size) e ∙ add-mod_right r size ∙ ap (λ (n : ℕ). n % size) (omega arith)
