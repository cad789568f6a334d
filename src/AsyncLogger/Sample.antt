-- ===== src/AsyncLogger/Sample.antt =====
-- Inputs of the tests: a logger with a queue buffer of blocks of two lines, and a run of it.
use zephyrlog.Prelude.{ℕ, ◌≡◌, refl, none, some, done, List, [], ◌∷◌, Bool, true, false, arith}
use zephyrlog.Prelude.Text.{codes}
use zephyrlog.BufferBase.{BufferBase, IsFifo}
use zephyrlog.LogLine.{LogLine}
use zephyrlog.LogLine.Sample.{sample_format, sample_memory, sample_line, sample_line-text}
use zephyrlog.QueueBuffer.{QueueBuffer, queue_buffer}
use zephyrlog.QueueBuffer.Fifo.{queue_base, queue_fifo, queue_buffer-Queued}
use zephyrlog.FileWriter.{FileWriter, file_writer, write}
use zephyrlog.FileWriter.Rolling.{HasWritten, file_writer-HasWritten, write-HasWritten}
use zephyrlog.AsyncLogger.{
  State, Place, init, ready, shutdown, waiting, polling, AsyncLogger, Reaches, begun, started,
  added, worked, shut, draining, stopped, testing, work, work_at, take, add, start, shut_down,
  async_logger,
}

abbrev pub sample_base : BufferBase
sample_base = queue_base 2 (omega arith) (omega arith) 0

abbrev pub sample_fifo : IsFifo sample_base
sample_fifo = queue_fifo 2 (omega arith) (omega arith) 0

abbrev pub opens : List ℕ → Bool
opens _ = true

abbrev pub new_writer : FileWriter
new_writer = file_writer opens (codes "log/") (codes "app") 40 false

pub new_writer-HasWritten : HasWritten new_writer []
new_writer-HasWritten =
    file_writer-HasWritten opens (λ _. refl) (codes "log/") (codes "app") 40 false

pub sample_writer :
    (w' : FileWriter) × (write opens sample_format sample_memory sample_line new_writer ≡ done w')
sample_writer =
    let (w', e, _) =
      write-HasWritten opens (λ _. refl) sample_format sample_memory new_writer []
        sample_line-text.0 sample_line new_writer-HasWritten sample_line-text.1 in
    (w', e)

-- The buffer with the line, and once the worker has taken it, and has looked again.
pub pushed :
    (q : QueueBuffer) × (sample_base.push sample_line (queue_buffer 2) ≡ done q)
    × sample_fifo.Queued q (sample_line ∷ [])
pushed =
    sample_fifo.push_queues (queue_buffer 2) [] sample_line
      (queue_buffer-Queued 2 (omega arith) (omega arith)) tt

pub taken :
    (q : QueueBuffer) × (sample_base.try_pop pushed.0 ≡ done (some sample_line, q))
    × sample_fifo.Queued q []
taken = sample_fifo.try_pop_some pushed.0 [] sample_line pushed.2

pub emptied :
    (q : QueueBuffer) × (sample_base.try_pop taken.0 ≡ done (none, q)) × sample_fifo.Queued q []
emptied = sample_fifo.try_pop_none taken.0 taken.2

abbrev pub logger_at : State → QueueBuffer → FileWriter → Place → AsyncLogger sample_base
logger_at state buffer writer place = record {
  state = state;
  buffer = buffer;
  writer = writer;
  place = place;
}

abbrev pub Passes : List LogLine → AsyncLogger sample_base → Type 0
Passes lines a =
    Reaches sample_base opens sample_format sample_memory (queue_buffer 2) new_writer lines a

-- The constructor, a line, the destructor, and the worker's rounds between and behind them.
unfoldable pub final : AsyncLogger sample_base
final = logger_at shutdown emptied.0 sample_writer.0 stopped

pub trace : Passes (sample_line ∷ []) final
unfolding work work_at take start shut_down async_logger add final
trace =
    let begin : Passes [] (logger_at init (queue_buffer 2) new_writer waiting) = begun in
    let awake : Passes [] (logger_at ready (queue_buffer 2) new_writer testing) =
      worked (started begin refl) refl in
    let filled : Passes (sample_line ∷ []) (logger_at ready pushed.0 new_writer testing) =
      added sample_line awake refl (rw (pushed.1)) in
    let tested : Passes (sample_line ∷ []) (logger_at ready pushed.0 new_writer polling) =
      worked filled refl in
    let written : Passes (sample_line ∷ []) (logger_at shutdown taken.0 sample_writer.0 testing) =
      worked (shut tested refl) (rw (taken.1, sample_writer.1)) in
    let drains : Passes (sample_line ∷ []) (logger_at shutdown taken.0 sample_writer.0 draining) =
      worked written refl in
    worked drains (rw (emptied.1))
