-- ===== src/QueueBuffer/Threads/Tests.antt =====
-- The theorems on the threads at concrete inputs, with blocks of one line.
use zephyrlog.Prelude.{◌≡◌, ◌≢◌, ◌<◌, refl, [], ◌∷◌, Option, some, none, get_elem?, arith, false}
use zephyrlog.LogLine.{LogLine, fresh}
use zephyrlog.SpinLock.{test_and_set}
use zephyrlog.QueueBuffer.{
  Buffer, QueueBuffer, buffer, queue_buffer, setup_next_write_buffer, claim, write_at, write_item,
  count_at, count_item, read_item, get_next_read_buffer,
}
use zephyrlog.QueueBuffer.Threads.{
  System, Run, nothing, more, NoWrap, begins, claims, overshoots, loads, writes, completes, seeks,
  locks, fronts, sought, loaded, opening,
}
use zephyrlog.QueueBuffer.Threads.Places.{opens, uncounted}
use zephyrlog.QueueBuffer.Threads.Lock.{locked, locked-alone}
use zephyrlog.QueueBuffer.Threads.Safety.{
  loaded-write_at, opens-alone, claims-apart, current-read_item,
}

abbrev line : LogLine
line = fresh (7 ∷ [])

-- One producer has the index and the block, and the other has found no index in range.
before : (s : System) × (r : Run 1 s) × NoWrap r × (s.pc 1 ≡ loaded 1 0 line)
unfolding queue_buffer setup_next_write_buffer claim
before =
    let r₁ = more 1 nothing (begins line (omega arith)) in
    let r₂ = more 1 r₁ (claims refl (omega arith)) in
    let r₃ = more 2 r₂ (begins line (omega arith)) in
    let r₄ = more 2 r₃ (overshoots refl (omega arith)) in
    (
      _,
      more 1 r₄ loads,
      (omega arith, (omega arith, (omega arith, (omega arith, (omega arith, tt))))),
      refl,
    )

loaded-write_at_example :
    (b : Buffer) × (q' : QueueBuffer) × (before.0.mem.queue.heap 1 ≡ some b)
    × (get_elem? b.items 0 ≡ some none)
    × (get_elem? b.write_state 0 ≡ some 0)
    × (write_at 1 line 0 before.0.mem.queue ≡ some q')
loaded-write_at_example = loaded-write_at 1 1 1 0 line (omega arith) before.1 before.2 before.3

claims-apart_example : (0 < 1) × (uncounted (before.0.pc 2) ≢ some 0)
claims-apart_example =
    claims-apart 1 1 2 0 (omega arith) before.1 before.2 (omega arith) (rw before.3)

-- The producer has counted the only item of the block.
completed : (s : System) × (r : Run 1 s) × NoWrap r × (s.pc 1 ≡ opening)
unfolding queue_buffer setup_next_write_buffer claim write_at write_item count_at count_item buffer
completed =
    let r₁ = more 1 nothing (begins line (omega arith)) in
    let r₂ = more 1 r₁ (claims refl (omega arith)) in
    let r₃ = more 2 r₂ (begins line (omega arith)) in
    let r₄ = more 2 r₃ (overshoots refl (omega arith)) in
    let r₅ = more 1 r₄ loads in
    let r₆ = more 1 r₅ (writes refl) in
    (
      _,
      more 1 r₆ (completes refl),
      (
        omega arith,
        (
          omega arith,
          (omega arith, (omega arith, (omega arith, (omega arith, (omega arith, tt))))),
        ),
      ),
      refl,
    )

opens-alone_example : (opens (completed.0.pc 2) ≡ false) × (uncounted (completed.0.pc 2) ≡ none)
opens-alone_example =
    opens-alone 1 1 2 (omega arith) completed.1 completed.2 (omega arith) (rw completed.3)

-- The consumer has the first block.
fronted : (s : System) × (r : Run 1 s) × NoWrap r × (s.mem.queue.current_read_buffer ≡ some 1)
unfolding queue_buffer setup_next_write_buffer get_next_read_buffer test_and_set
fronted =
    let r₁ = more 0 nothing (seeks refl refl) in
    let r₂ = more 0 r₁ (locks refl refl) in
    (_, more 0 r₂ fronts, (omega arith, (omega arith, (omega arith, tt))), refl)

current-read_item_example :
    (b : Buffer) × (out : Option LogLine) × (b' : Buffer) × (fronted.0.mem.queue.heap 1 ≡ some b)
    × (read_item fronted.0.mem.queue.read_index b ≡ some (out, b'))
current-read_item_example =
    current-read_item 1 1 (omega arith) (omega arith) fronted.1 fronted.2 fronted.3

-- The consumer has taken the lock that the producer waits for.
contended : (s : System) × Run 1 s × (s.pc 0 ≡ sought)
unfolding completed queue_buffer setup_next_write_buffer claim write_at write_item count_at
    count_item buffer test_and_set
contended = let r₁ = more 0 completed.1 (seeks refl refl) in (_, more 0 r₁ (locks refl refl), refl)

locked-alone_example : locked (contended.0.pc 1) ≡ false
locked-alone_example = locked-alone 0 1 contended.1 (omega arith) (rw contended.2)
