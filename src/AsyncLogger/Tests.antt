-- ===== src/AsyncLogger/Tests.antt =====
-- The theorems on the asynchronous logger at concrete inputs.
use zephyrlog.Prelude.{ℕ, ◌≡◌, ◌++◌, refl, done, List, [], ◌∷◌, false, arith}
use zephyrlog.Prelude.Text.{codes}
use zephyrlog.LogLine.Sample.{sample_format, sample_memory, sample_line, sample_line-text}
use zephyrlog.QueueBuffer.{queue_buffer}
use zephyrlog.QueueBuffer.Fifo.{queue_buffer-Queued}
use zephyrlog.FileWriter.Rolling.{HasWritten, render}
use zephyrlog.AsyncLogger.{shutdown, AsyncLogger, draining, stopped, work_on}
use zephyrlog.AsyncLogger.Drain.{stopped-writes_all, draining-stops}
use zephyrlog.AsyncLogger.Sample.{
  sample_base, sample_fifo, opens, new_writer, new_writer-HasWritten, pushed, logger_at, final,
  trace,
}

stopped-writes_all_example :
    (text : List ℕ) × (render sample_format sample_memory (sample_line ∷ []) ≡ done text)
    × HasWritten final.writer text
unfolding final
stopped-writes_all_example =
    stopped-writes_all sample_fifo (λ _. tt) opens (λ _. refl) sample_format sample_memory
      (queue_buffer 2) (codes "log/") (codes "app") 40 false
      (queue_buffer-Queued 2 (omega arith) (omega arith)) trace refl

sample_render :
    render sample_format sample_memory (sample_line ∷ []) ≡ done (sample_line-text.0 ++ [])
unfolding render
sample_render = rw (sample_line-text.1)

draining-stops_example :
    (a' : AsyncLogger sample_base) × (work_on sample_base opens sample_format sample_memory 2
        (logger_at shutdown pushed.0 new_writer draining)
      ≡ done a')
    × (a'.place ≡ stopped)
    × HasWritten a'.writer ([] ++ (sample_line-text.0 ++ []))
draining-stops_example =
    draining-stops sample_fifo (λ _. tt) opens (λ _. refl) sample_format sample_memory
      (sample_line ∷ []) (logger_at shutdown pushed.0 new_writer draining) refl pushed.2
      new_writer-HasWritten sample_render
