-- ===== src/QueueBuffer/Threads/Places.antt =====
-- What the place of a thread says of a block.
use zephyrlog.Prelude.{
  ℕ, ◌≡◌, ◌≢◌, refl, Option, none, some, Bool, true, false, ◌==◌, Bool-cases, inl, inr, eqb_refl,
  arith,
}
use zephyrlog.LogLine.{LogLine}
use zephyrlog.QueueBuffer.Threads.{
  Pc, claimed, loaded, written, opening, entered, stored, queued, seeking, sought, finishing,
  freeing, found, reading, freed, behind_lock, behind_unlock, update_pc,
}

-- The index that a thread has claimed and not written to, or not counted.
abbrev pub pending : Pc → Option ℕ
pending (claimed i l) = some i
pending (loaded p i l) = some i
pending _ = none

abbrev pub uncounted : Pc → Option ℕ
uncounted (claimed i l) = some i
uncounted (loaded p i l) = some i
uncounted (written p i) = some i
uncounted _ = none

-- The block that a producer has loaded.
abbrev pub address : Pc → Option ℕ
address (loaded p i l) = some p
address (written p i) = some p
address _ = none

-- The thread has completed a block, and not yet set back the index; it has stored the next block.
abbrev pub opens : Pc → Bool
opens opening = true
opens entered = true
opens (stored p) = true
opens queued = true
opens _ = false

abbrev pub renews : Pc → Bool
renews (stored p) = true
renews queued = true
renews _ = false

-- Two places that say the same.
pub record Same (p p' : Pc) : Type 0 where
  pub uncounted_eq : uncounted p' ≡ uncounted p
  pub address_eq : address p' ≡ address p
  pub opens_eq : opens p' ≡ opens p
  pub renews_eq : renews p' ≡ renews p

pub alike :
    {p p' : Pc}
    → uncounted p' ≡ uncounted p
    → address p' ≡ address p
    → opens p' ≡ opens p
    → renews p' ≡ renews p
    → Same p p'
alike u d o n = record { uncounted_eq = u; address_eq = d; opens_eq = o; renews_eq = n }

pub Same-refl : (p : Pc) → Same p p
Same-refl p = record { uncounted_eq = refl; address_eq = refl; opens_eq = refl; renews_eq = refl }

pub behind_lock-Same : (p : Pc) {p' : Pc} → behind_lock p ≡ some p' → Same p p'
behind_lock-Same p e = record {
  uncounted_eq = ground arith;
  address_eq = ground arith;
  opens_eq = ground arith;
  renews_eq = ground arith;
}

pub behind_unlock-Same : (p : Pc) {p' : Pc} → behind_unlock p ≡ some p' → Same p p'
behind_unlock-Same p e = record {
  uncounted_eq = ground arith;
  address_eq = ground arith;
  opens_eq = ground arith;
  renews_eq = ground arith;
}

-- A move between two such places changes nothing for any thread.
pub same-update_pc {ℓ} :
    {A : Type ℓ} (f : Pc → A) (a : ℕ) (p' : Pc) (pc : ℕ → Pc)
    → f p' ≡ f (pc a)
    → (b : ℕ) → f (update_pc a p' pc b) ≡ f (pc b)
same-update_pc f a p' pc e b = elim (Bool-cases (b == a)) [
  | inl same ↦ let at : b ≡ a = ground arith in rw (at, eqb_refl a) e
  | inr differs ↦ rw differs refl
]

-- The place of the thread that moves, and of another.
pub update_pc_self : (a : ℕ) (p' : Pc) (pc : ℕ → Pc) → update_pc a p' pc a ≡ p'
update_pc_self a p' pc = rw (eqb_refl a) refl

pub update_pc_other : (a b : ℕ) (p' : Pc) (pc : ℕ → Pc) → b ≢ a → update_pc a p' pc b ≡ pc b
update_pc_other a b p' pc h = let off : (b == a) ≡ false = ground arith in rw off refl

-- The thread is in `tryPop`; looks for a block; is about to free one.
abbrev pub consumes : Pc → Bool
consumes seeking = true
consumes sought = true
consumes found = true
consumes reading = true
consumes (finishing l) = true
consumes (freeing l) = true
consumes (freed l) = true
consumes _ = false

abbrev pub seeks_block : Pc → Bool
seeks_block seeking = true
seeks_block sought = true
seeks_block _ = false

abbrev pub removes : Pc → Bool
removes (finishing l) = true
removes (freeing l) = true
removes _ = false

-- The block that a thread is about to put into the queue of blocks.
abbrev pub next_block : Pc → Option ℕ
next_block (stored p) = some p
next_block _ = none

pub seeks_block-consumes : (p : Pc) → seeks_block p ≡ true → consumes p ≡ true
seeks_block-consumes p e = ground arith

pub removes-consumes : (p : Pc) → removes p ≡ true → consumes p ≡ true
removes-consumes p e = ground arith

-- The index that a thread has claimed and not written to, with the line for it.
abbrev pub carries : Pc → Option (ℕ × LogLine)
carries (claimed i l) = some (i, l)
carries (loaded p i l) = some (i, l)
carries _ = none

pub carries-uncounted :
    (p : Pc) {i : ℕ} {l : LogLine} → carries p ≡ some (i, l) → uncounted p ≡ some i
carries-uncounted p e = ground arith
