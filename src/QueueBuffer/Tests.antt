-- ===== src/QueueBuffer/Tests.antt =====
-- The theorems on the queue buffer at concrete inputs.
use zephyrlog.Prelude.{ℕ, ◌≡◌, refl, none, some, done, [], ◌∷◌, arith}
use zephyrlog.BufferBase.{put, get, run}
use zephyrlog.BufferBase.Queue.{deliver}
use zephyrlog.LogLine.{LogLine, fresh}
use zephyrlog.QueueBuffer.{
  QueueBuffer, queue_buffer, setup_next_write_buffer, claim, write_at, count_at, try_pop,
}
use zephyrlog.QueueBuffer.Race.{count_at-freed}
use zephyrlog.QueueBuffer.Fifo.{queue_base, queue_buffer-Queued, run-queue_buffer}

abbrev line_of : ℕ → LogLine
line_of n = fresh (n ∷ [])

-- Three lines, so that the first block fills up and is freed.
run-queue_buffer_example :
    (q : QueueBuffer) × (run
        (queue_base 2 (omega arith) (omega arith) 0)
        (put (line_of 1) ∷ put (line_of 2) ∷ put (line_of 3) ∷ get ∷ get ∷ get ∷ get ∷ [])
        (queue_buffer 2)
      ≡ done (some (line_of 1) ∷ some (line_of 2) ∷ some (line_of 3) ∷ none ∷ [], q))
unfolding deliver
run-queue_buffer_example =
    run-queue_buffer 2 (omega arith) (omega arith) 0
      (put (line_of 1) ∷ put (line_of 2) ∷ put (line_of 3) ∷ get ∷ get ∷ get ∷ get ∷ [])

count_at-freed_example :
    let (index, q₁) = claim (queue_buffer 1) in
    (q₂ : QueueBuffer) × (q₃ : QueueBuffer) × (write_at
        (queue_buffer 1).current_write_buffer
        (line_of 1)
        index
        q₁
      ≡ some q₂)
    × (try_pop 1 q₂ ≡ some (some (line_of 1), q₃))
    × (count_at 1 (queue_buffer 1).current_write_buffer q₃ ≡ none)
unfolding queue_buffer setup_next_write_buffer
count_at-freed_example =
    count_at-freed 1 (omega arith) (queue_buffer 1) (line_of 1)
      (queue_buffer-Queued 1 (omega arith) (omega arith)) refl
