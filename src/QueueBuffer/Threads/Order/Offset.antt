-- ===== src/QueueBuffer/Threads/Order/Offset.antt =====
-- The place of an item among all the items of the blocks, one block after the other.
use zephyrlog.Prelude.{ℕ, zero, suc, ◌+◌, ◌≤◌, ◌<◌, ◌≡◌, refl, ap, arith}

-- Where the block at an address ends, since the first block has address 1.
abbrev pub offset : ℕ → ℕ → ℕ
offset size zero = 0
offset size (suc p) = offset size p + size

pub offset-add_one : (size p : ℕ) → offset size (p + 1) ≡ offset size p + size
offset-add_one size p = ap (offset size) {y = suc p} (omega arith)

offset_mono : (size p q : ℕ) → p ≤ q → offset size p ≤ offset size q
offset_mono size zero q h = omega arith
offset_mono size (suc p) zero h = absurd (omega arith)
offset_mono size (suc p) (suc q) h = omega (arith, offset_mono size p q (omega arith))

offset_lt : (size p q : ℕ) → p < q → offset size p + size ≤ offset size q
offset_lt size p q h = omega (arith, offset_mono size (suc p) q (omega arith))

-- Every place is in one block only.
pub offset_inj :
    (size p q i j : ℕ)
    → i < size
    → j < size
    → offset size p + i ≡ offset size q + j
    → (p ≡ q) × (i ≡ j)
offset_inj size zero zero i j h k e = (refl, omega arith)
offset_inj size zero (suc q) i j h k e = absurd (omega arith)
offset_inj size (suc p) zero i j h k e = absurd (omega arith)
offset_inj size (suc p) (suc q) i j h k e =
    let (same, place) = offset_inj size p q i j h k (omega arith) in (omega arith, place)
