-- ===== src/RingBuffer/Overrun.antt =====
-- What a push onto a full ring buffer does to the lines that follow.
use zephyrlog.Prelude.{
  ℕ, zero, suc, ◌+◌, ◌-◌, ◌%◌, ◌≤◌, ◌<◌, ◌≡◌, refl, sym, ap, ◌∙◌, done, Option, none, some, List,
  [], ◌∷◌, ◌++◌, length, set, replicate, arith, length-replicate, map,
}
use native.Mathlib.Nat.{mod-eq_of_lt, mod_self}
use zephyrlog.BufferBase.{Op, put, get, run}
use zephyrlog.LogLine.{LogLine}
use zephyrlog.RingBuffer.{RingBuffer}
use zephyrlog.RingBuffer.Lap
use zephyrlog.RingBuffer.Lap.{Lap}
use zephyrlog.RingBuffer.Fifo.{filled, filled-snoc, queue, length-filled, Queued}
use zephyrlog.RingBuffer.Runs.{ring_base, run_refines}

-- As many calls of `tryPop`.
abbrev pub gets : ℕ → List Op
gets zero = []
gets (suc n) = get ∷ gets n

-- The slots behind the consumer hold a queue, and the producers are `lap` pushes further on.
abbrev lapped : ℕ → List LogLine → ℕ → Lap
lapped size q lap = record { slots = filled size q; ahead = length q + lap }

try_pop-lapped :
    (size : ℕ) (q : List LogLine) (logline : LogLine) (lap : ℕ)
    → length q < size
    → Lap.try_pop (lapped size (logline ∷ q) lap) ≡ (some logline, lapped size q lap)
unfolding Lap.try_pop Lap.pop_slot filled
try_pop-lapped zero q logline lap h = absurd (omega arith)
try_pop-lapped (suc size) q logline lap h =
    let slots = filled-snoc size q (omega arith) in
    let ahead : suc (length q) + lap - 1 ≡ length q + lap = omega arith in
    λ i. (some logline, record { slots = slots i; ahead = ahead i })

-- The newest line takes the place of the oldest.
push-full :
    (size : ℕ) (q : List LogLine) (old new : LogLine)
    → suc (length q) ≡ size
    → Lap.push new (queue size (old ∷ q)) ≡ lapped size (new ∷ q) 1
unfolding Lap.push filled
push-full zero q old new h = absurd (omega arith)
push-full (suc size) q old new h =
    let wrapped : suc (length q) % suc (length (filled size q)) ≡ 0 =
      ap (λ (n : ℕ). suc (length q) % suc n) (length-filled size q ∙ omega arith)
      ∙ mod_self (suc (length q)) in
    λ i. record {
      slots = set (filled (suc size) (old ∷ q)) (wrapped i) (some new);
      ahead = suc (length q) + 1;
    }

-- The consumer takes all that is there.
run-gets :
    (size : ℕ) (q : List LogLine) (lap : ℕ) (ops : List Op)
    → length q ≤ size
    → (Lap.run (gets (length q) ++ ops) (lapped size q lap)).0
      ≡ map some q ++ (Lap.run ops (lapped size [] lap)).0
unfolding Lap.run
run-gets size [] lap ops h = refl
run-gets size (logline ∷ q) lap ops h =
    rw (try_pop-lapped size q logline lap (omega arith))
      (ap (◌∷◌ (some logline)) (run-gets size q lap ops (omega arith)))

-- With the ring empty and the producers elsewhere in it, a line that is pushed is not found.
run-hidden :
    (size : ℕ) (logline : LogLine) (lap : ℕ)
    → 0 < lap
    → lap < size
    → (Lap.run (put logline ∷ get ∷ []) (lapped size [] lap)).0 ≡ none ∷ []
unfolding Lap.run Lap.push Lap.try_pop Lap.pop_slot filled
run-hidden zero logline lap pos h = absurd (omega arith)
run-hidden (suc size) logline lap pos h =
    let nothing : Option LogLine = none in
    let behind : 0 + lap < suc (length (replicate size nothing)) =
      omega (arith, length-replicate size nothing) in
    let wrapped : (0 + lap) % suc (length (replicate size nothing)) ≡ suc (lap - 1) =
      mod-eq_of_lt behind ∙ omega arith in
    rw wrapped refl

-- A ring buffer of two slots or more is full, and one more line is pushed: the oldest line is lost,
-- the newest comes out first, before the older ones, and once these are out a further line is not
-- delivered, though nothing else is in the buffer.
pub run-overrun :
    (size : ℕ) (r : RingBuffer) (q : List LogLine) (old new next : LogLine)
    → Queued size r (old ∷ q)
    → suc (length q) ≡ size
    → 2 ≤ size
    → (r' : RingBuffer) × (run ring_base (put new ∷ gets size ++ (put next ∷ get ∷ [])) r
        ≡ done (map some (new ∷ q) ++ none ∷ [], r'))
unfolding Lap.run
run-overrun size r q old new next v full big =
    let ops : List Op = put new ∷ gets size ++ (put next ∷ get ∷ []) in
    let (r', e, _) = run_refines ops v.laps in
    let outs : (Lap.run ops (queue size (old ∷ q))).0 ≡ map some (new ∷ q) ++ none ∷ [] =
      ap (λ (m : Lap). (Lap.run (gets size ++ (put next ∷ get ∷ [])) m).0)
        (push-full size q old new full)
      ∙ ap (λ (n : ℕ). (Lap.run (gets n ++ (put next ∷ get ∷ [])) (lapped size (new ∷ q) 1)).0)
          (sym full)
      ∙ run-gets size (new ∷ q) 1 (put next ∷ get ∷ []) (omega arith)
      ∙ ap (λ (o : List (Option LogLine)). map some (new ∷ q) ++ o)
          (run-hidden size next 1 (omega arith) big) in
    (r', e ∙ ap (λ (o : List (Option LogLine)). done (o, r')) outs)
