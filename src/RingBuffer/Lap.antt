-- ===== src/RingBuffer/Lap.antt =====
-- What a ring buffer is, with no index arithmetic: its slots from the consumer's position on, each
-- empty or with a line, and the number of pushes that the consumer is behind. A push goes to the
-- slot that many places on, round the ring, over what is there.
use zephyrlog.Prelude.{
  ℕ, zero, suc, ◌+◌, ◌-◌, ◌%◌, Option, none, some, List, [], ◌∷◌, ◌++◌, length, set, replicate, ◌≤◌,
  ◌≡◌, refl, ap, arith,
}
use zephyrlog.BufferBase.{Op, put, get}
use zephyrlog.LogLine.{LogLine}

pub record Lap : Type 0 where
  pub slots : List (Option LogLine)
  pub ahead : ℕ

abbrev pub empty : ℕ → Lap
empty size = record { slots = replicate size none; ahead = 0 }

unfoldable pub push : LogLine → Lap → Lap
push logline m = record {
  slots = set m.slots (m.ahead % length m.slots) (some logline);
  ahead = m.ahead + 1;
}

-- The consumer at its slot, with the slots behind it.
unfoldable pub pop_slot : List (Option LogLine) → ℕ → Option LogLine × Lap
pop_slot (some logline ∷ rest) ahead =
    (some logline, record { slots = rest ++ none ∷ []; ahead = ahead - 1 })
pop_slot slots ahead = (none, record { slots = slots; ahead = ahead })

unfoldable pub try_pop : Lap → Option LogLine × Lap
unfolding pop_slot
try_pop m = pop_slot m.slots m.ahead

-- How many slots hold a line.
abbrev pub stored : List (Option LogLine) → ℕ
stored [] = 0
stored (none ∷ rest) = stored rest
stored (some logline ∷ rest) = suc (stored rest)

pub stored-set :
    (slots : List (Option LogLine)) (k : ℕ) (logline : LogLine)
    → stored (set slots k (some logline)) ≤ stored slots + 1
stored-set [] k logline = omega arith
stored-set (none ∷ rest) zero logline = omega arith
stored-set (some old ∷ rest) zero logline = omega arith
stored-set (none ∷ rest) (suc k) logline = stored-set rest k logline
stored-set (some old ∷ rest) (suc k) logline = omega (arith, stored-set rest k logline)

pub stored-snoc : (slots : List (Option LogLine)) → stored (slots ++ none ∷ []) ≡ stored slots
stored-snoc [] = refl
stored-snoc (none ∷ rest) = stored-snoc rest
stored-snoc (some logline ∷ rest) = ap suc (stored-snoc rest)

pub stored-replicate : (n : ℕ) → stored (replicate n none) ≡ 0
stored-replicate zero = refl
stored-replicate (suc n) = stored-replicate n

unfoldable pub run : List Op → Lap → List (Option LogLine) × Lap
run [] m = ([], m)
run (put logline ∷ ops) m = run ops (push logline m)
run (get ∷ ops) m = let (out, m₁) = try_pop m in let (outs, m₂) = run ops m₁ in (out ∷ outs, m₂)
