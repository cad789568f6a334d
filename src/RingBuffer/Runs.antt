-- ===== src/RingBuffer/Runs.antt =====
-- Sequences of calls on a ring buffer.
use zephyrlog.Prelude.{◌≡◌, refl, of_option, done, List, [], ◌∷◌}
use zephyrlog.BufferBase.{BufferBase, Op, put, get, run}
use zephyrlog.RingBuffer.{RingBuffer, push, try_pop}
use zephyrlog.RingBuffer.Lap
use zephyrlog.RingBuffer.Lap.{Lap}
use zephyrlog.RingBuffer.Refine.{Represents, push_refines, try_pop_refines}

abbrev pub ring_base : BufferBase
ring_base = record {
  State = RingBuffer;
  push = λ logline r. of_option (push logline r);
  try_pop = λ r. of_option (try_pop r);
}

-- On a ring buffer that represents a lap, any sequence of calls runs without a fault, pushes onto a
-- full buffer included, and the calls of `tryPop` give what the lap gives, which the ring buffer
-- then represents again.
pub run_refines :
    (ops : List Op) {r : RingBuffer} {m : Lap}
    → Represents r m
    → let (outs, m') = Lap.run ops m in
      (r' : RingBuffer) × (run ring_base ops r ≡ done (outs, r')) × Represents r' m'
unfolding run Lap.run
run_refines [] {r} v = (r, refl, v)
run_refines (put logline ∷ ops) v =
    let (r₁, e₁, v₁) = push_refines logline v in
    let (r₂, e₂, v₂) = run_refines ops v₁ in (r₂, rw e₁ e₂, v₂)
run_refines (get ∷ ops) {r} {m} v =
    let (r₁, e₁, v₁) = try_pop_refines v in
    let (r₂, e₂, v₂) = run_refines ops v₁ in (r₂, rw (e₁, e₂), v₂)
