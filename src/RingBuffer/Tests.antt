-- ===== src/RingBuffer/Tests.antt =====
-- The theorems on the ring buffer at concrete inputs.
use zephyrlog.Prelude.{ℕ, ◌≡◌, refl, none, some, done, List, [], ◌∷◌, ◌++◌, arith}
use zephyrlog.BufferBase.{Op, put, get, run}
use zephyrlog.BufferBase.Queue.{deliver, RoomFor}
use zephyrlog.LogLine.{LogLine, fresh}
use zephyrlog.RingBuffer.{RingBuffer, ring_buffer}
use zephyrlog.RingBuffer.Lap
use zephyrlog.RingBuffer.Refine.{Represents, ring_buffer-Represents}
use zephyrlog.RingBuffer.Runs.{ring_base, run_refines}
use zephyrlog.RingBuffer.Fifo.{Queued, push-Queued, ring_buffer-Queued, run-ring_buffer}
use zephyrlog.RingBuffer.Overrun.{gets, run-overrun}

abbrev line_of : ℕ → LogLine
line_of n = fresh (n ∷ [])

abbrev two_slots : RingBuffer
two_slots = ring_buffer line_of 2

-- A call of `tryPop` too many, a push over a line, and one behind it.
abbrev sample_ops : List Op
sample_ops = get ∷ put (line_of 1) ∷ put (line_of 2) ∷ put (line_of 3) ∷ get ∷ get ∷ []

run_refines_example :
    let (outs, m') = Lap.run sample_ops (Lap.empty 2) in
    (r' : RingBuffer) × (run ring_base sample_ops two_slots ≡ done (outs, r')) × Represents r' m'
run_refines_example = run_refines sample_ops (ring_buffer-Represents line_of 2 (omega arith) refl)

run-ring_buffer_example :
    (r : RingBuffer) × (run ring_base
        (put (line_of 1) ∷ put (line_of 2) ∷ get ∷ put (line_of 3) ∷ get ∷ get ∷ get ∷ [])
        two_slots
      ≡ done (some (line_of 1) ∷ some (line_of 2) ∷ some (line_of 3) ∷ none ∷ [], r))
unfolding deliver RoomFor
run-ring_buffer_example =
    run-ring_buffer 2 line_of
      (put (line_of 1) ∷ put (line_of 2) ∷ get ∷ put (line_of 3) ∷ get ∷ get ∷ get ∷ [])
      (omega arith) refl (omega arith, (omega arith, (omega arith, tt)))

-- A full ring buffer.
full_ring : (r : RingBuffer) × Queued 2 r (line_of 1 ∷ line_of 2 ∷ [])
full_ring =
    let (r₁, _, v₁) =
      push-Queued 2 two_slots [] (line_of 1) (ring_buffer-Queued 2 line_of (omega arith) refl)
        (omega arith) in
    let (r₂, _, v₂) = push-Queued 2 r₁ (line_of 1 ∷ []) (line_of 2) v₁ (omega arith) in (r₂, v₂)

run-overrun_example :
    (r' : RingBuffer) × (run ring_base
        (put (line_of 3) ∷ gets 2 ++ (put (line_of 4) ∷ get ∷ []))
        full_ring.0
      ≡ done (some (line_of 3) ∷ some (line_of 2) ∷ none ∷ [], r'))
run-overrun_example =
    run-overrun 2 full_ring.0 (line_of 2 ∷ []) (line_of 1) (line_of 3) (line_of 4) full_ring.1 refl
      (omega arith)
