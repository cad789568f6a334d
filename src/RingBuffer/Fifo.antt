-- ===== src/RingBuffer/Fifo.antt =====
-- The ring buffer (src/ringbuffer.cpp) as a queue, while it is not full.
use zephyrlog.Prelude.{
  ℕ, zero, suc, ◌+◌, ◌-◌, ◌%◌, ◌^◌, ◌≤◌, ◌<◌, ◌≡◌, refl, ap, ◌∙◌, subst, of_option, done, Option,
  none, some, List, [], ◌∷◌, ◌++◌, length, set, replicate, arith, length-append,
}
use native.Mathlib.Nat.{mod-eq_of_lt}
use zephyrlog.BufferBase.{IsFifo, Op, run}
use zephyrlog.BufferBase.Queue.{deliver, RoomFor, run-deliver}
use zephyrlog.LogLine.{LogLine}
use zephyrlog.RingBuffer.{RingBuffer, push, try_pop, ring_buffer}
use zephyrlog.RingBuffer.Lap
use zephyrlog.RingBuffer.Lap.{Lap}
use zephyrlog.RingBuffer.Refine.{Represents, push_refines, try_pop_refines, ring_buffer-Represents}
use zephyrlog.RingBuffer.Runs.{ring_base}

-- The slots of a ring of a given size whose first slots hold a queue.
unfoldable pub filled : ℕ → List LogLine → List (Option LogLine)
filled size [] = replicate size none
filled zero (logline ∷ q) = []
filled (suc size) (logline ∷ q) = some logline ∷ filled size q

abbrev pub queue : ℕ → List LogLine → Lap
queue size q = record { slots = filled size q; ahead = length q }

pub length-filled : (size : ℕ) (q : List LogLine) → length (filled size q) ≡ size
unfolding filled
length-filled zero [] = refl
length-filled (suc size) [] = ap suc (length-filled size [])
length-filled zero (logline ∷ q) = refl
length-filled (suc size) (logline ∷ q) = ap suc (length-filled size q)

set-filled :
    (size : ℕ) (q : List LogLine) (logline : LogLine)
    → length q < size
    → set (filled size q) (length q) (some logline) ≡ filled size (q ++ logline ∷ [])
unfolding filled
set-filled zero q logline h = absurd (omega arith)
set-filled (suc size) [] logline h = refl
set-filled (suc size) (old ∷ q) logline h =
    ap (◌∷◌ (some old)) (set-filled size q logline (omega arith))

pub filled-snoc :
    (size : ℕ) (q : List LogLine)
    → length q ≤ size
    → filled size q ++ none ∷ [] ≡ filled (suc size) q
unfolding filled
filled-snoc zero [] h = refl
filled-snoc (suc size) [] h = ap (◌∷◌ none) (filled-snoc size [] (omega arith))
filled-snoc zero (logline ∷ q) h = absurd (omega arith)
filled-snoc (suc size) (logline ∷ q) h = ap (◌∷◌ (some logline)) (filled-snoc size q (omega arith))

-- A push behind a queue that leaves a slot free.
push-queue :
    (size : ℕ) (q : List LogLine) (logline : LogLine)
    → length q < size
    → Lap.push logline (queue size q) ≡ queue size (q ++ logline ∷ [])
unfolding Lap.push
push-queue size q logline h =
    let at : length q % length (filled size q) ≡ length q =
      ap (λ (n : ℕ). length q % n) (length-filled size q) ∙ mod-eq_of_lt h in
    let slots : set (filled size q) (length q % length (filled size q)) (some logline)
        ≡ filled size (q ++ logline ∷ []) =
      ap (λ (n : ℕ). set (filled size q) n (some logline)) at ∙ set-filled size q logline h in
    let ahead : length q + 1 ≡ length (q ++ logline ∷ []) =
      omega (arith, length-append q (logline ∷ [])) in
    λ i. record { slots = slots i; ahead = ahead i }

pub try_pop-queue_nil : (size : ℕ) → Lap.try_pop (queue size []) ≡ (none, queue size [])
unfolding Lap.try_pop Lap.pop_slot filled
try_pop-queue_nil zero = refl
try_pop-queue_nil (suc size) = refl

pub try_pop-queue_cons :
    (size : ℕ) (q : List LogLine) (logline : LogLine)
    → length q < size
    → Lap.try_pop (queue size (logline ∷ q)) ≡ (some logline, queue size q)
unfolding Lap.try_pop Lap.pop_slot filled
try_pop-queue_cons zero q logline h = absurd (omega arith)
try_pop-queue_cons (suc size) q logline h =
    let slots = filled-snoc size q (omega arith) in
    let ahead : suc (length q) - 1 ≡ length q = omega arith in
    λ i. (some logline, record { slots = slots i; ahead = ahead i })

-- A ring buffer of this size that holds exactly this queue.
pub record Queued (size : ℕ) (r : RingBuffer) (q : List LogLine) : Type 0 where
  pub laps : Represents r (queue size q)
  pub fits : length q ≤ size

module _ (size : ℕ) where
  -- `push` with a slot free puts the line at the end of the queue.
  pub push-Queued :
      (r : RingBuffer) (q : List LogLine) (logline : LogLine)
      → Queued size r q
      → length q < size
      → (r' : RingBuffer) × (push logline r ≡ some r') × Queued size r' (q ++ logline ∷ [])
  push-Queued r q logline v h =
      let (r', e, v') = push_refines logline v.laps in
      (
        r',
        e,
        record {
          laps = subst (Represents r') (push-queue size q logline h) v';
          fits = omega (arith, length-append q (logline ∷ []));
        },
      )

  pub try_pop-Queued_nil :
      (r : RingBuffer)
      → Queued size r []
      → (r' : RingBuffer) × (try_pop r ≡ some (none, r')) × Queued size r' []
  try_pop-Queued_nil r v =
      let (r', e, v') = try_pop_refines v.laps in
      let same = try_pop-queue_nil size in
      (
        r',
        e ∙ ap (λ (o : Option LogLine × Lap). some (o.0, r')) same,
        record {
          laps = subst (λ (o : Option LogLine × Lap). Represents r' o.1) same v';
          fits = v.fits;
        },
      )

  -- `tryPop` takes the oldest line.
  pub try_pop-Queued_cons :
      (r : RingBuffer) (q : List LogLine) (logline : LogLine)
      → Queued size r (logline ∷ q)
      → (r' : RingBuffer) × (try_pop r ≡ some (some logline, r')) × Queued size r' q
  try_pop-Queued_cons r q logline v =
      let (r', e, v') = try_pop_refines v.laps in
      let same = try_pop-queue_cons size q logline v.fits in
      (
        r',
        e ∙ ap (λ (o : Option LogLine × Lap). some (o.0, r')) same,
        record {
          laps = subst (λ (o : Option LogLine × Lap). Represents r' o.1) same v';
          fits = omega (arith, v.fits);
        },
      )

  -- The ring buffer meets the interface, with room while it is not full.
  abbrev pub ring_fifo : IsFifo ring_base
  ring_fifo = record {
    Queued = Queued size;
    HasRoom = λ q. length q < size;
    push_queues = λ r q logline v h.
        let (r', e, v') = push-Queued r q logline v h in (r', ap of_option e, v');
    try_pop_none = λ r v. let (r', e, v') = try_pop-Queued_nil r v in (r', ap of_option e, v');
    try_pop_some = λ r q logline v.
        let (r', e, v') = try_pop-Queued_cons r q logline v in (r', ap of_option e, v');
  }

  pub ring_buffer-Queued :
      (blank : ℕ → LogLine) → 0 < size → 2 ^ 32 % size ≡ 0 → Queued size (ring_buffer blank size) []
  unfolding filled
  ring_buffer-Queued blank pos d = record {
    laps = ring_buffer-Represents blank size pos d;
    fits = omega arith;
  }

  -- The calls on a new ring buffer whose size is positive and divides 2^32, in any order in which
  -- no `push` meets a full buffer: each returns, and the calls of `tryPop` give what they give on a
  -- list: the oldest line, or false where there is none.
  pub run-ring_buffer :
      (blank : ℕ → LogLine) (ops : List Op)
      → 0 < size
      → 2 ^ 32 % size ≡ 0
      → RoomFor (λ q. length q < size) ops []
      → (r : RingBuffer) × (run ring_base ops (ring_buffer blank size)
          ≡ done ((deliver ops []).0, r))
  run-ring_buffer blank ops pos d room =
      let (r, e, _) =
        run-deliver ring_fifo ops (ring_buffer blank size) [] (ring_buffer-Queued blank pos d)
          room in
      (r, e)
