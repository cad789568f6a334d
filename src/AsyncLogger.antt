-- ===== src/AsyncLogger.antt =====
-- `AsyncLogger` (include/zephyrlog/asynclogger.h, src/asynclogger.cpp): producers push lines into a
-- buffer, and a worker thread takes them out and writes them. Each step below is one atomic action
-- of one thread; the steps of the threads come in any order. The calls on the buffer are taken as
-- atomic.
pub mod Places
pub mod Drain
pub mod Sample
pub mod Threads
mod Tests
use zephyrlog.Prelude.{
  ℕ, zero, suc, ◌≡◌, ◌≢◌, Option, none, some, Outcome, done, ◌>>=◌, List, [], ◌∷◌, ◌++◌, Bool, true,
  false, if◌then◌else◌,
}
use zephyrlog.BufferBase.{BufferBase}
use zephyrlog.FileWriter.{FileWriter, write}
use zephyrlog.LogLine.{LogLine}
use zephyrlog.LogLine.Encode.{Memory}
use zephyrlog.LogLine.Stringify.{Format}

pub data State : Type 0 where
  init ready shutdown : State

-- Where the worker is in `pop`: in the first loop; before the test of the second; behind a test that
-- held; in the third loop; behind it.
pub data Place : Type 0 where
  waiting testing polling draining stopped : Place

-- `while (state == INIT)`, and `while (state == READY)`.
abbrev pub after_wait : State → Place
after_wait init = waiting
after_wait _ = testing

abbrev pub after_test : State → Place
after_test ready = polling
after_test _ = draining

module _ (b : BufferBase) where
  pub record AsyncLogger : Type 0 where
    pub state : State
    pub buffer : b.State
    pub writer : FileWriter
    pub place : Place

  -- The members, the worker started among them, before the body of the constructor.
  unfoldable pub async_logger : b.State → FileWriter → AsyncLogger
  async_logger buffer writer = record {
    state = init;
    buffer = buffer;
    writer = writer;
    place = waiting;
  }

  -- The body of the constructor.
  unfoldable pub start : AsyncLogger → AsyncLogger
  start a = record a { state = ready }

  -- The store of the destructor, which then waits for the worker to stop.
  unfoldable pub shut_down : AsyncLogger → AsyncLogger
  shut_down a = record a { state = shutdown }

  unfoldable pub add : LogLine → AsyncLogger → Outcome AsyncLogger
  add logline a = b.push logline a.buffer >>= λ buffer. done (record a { buffer = buffer })

  module _ (opens : List ℕ → Bool) (fmt : Format) (mem : Memory) where
    -- `if (tryPop(logline)) write(logline)`, and the worker's place after either branch.
    unfoldable pub take : Place → Place → AsyncLogger → Outcome AsyncLogger
    take found empty a = b.try_pop a.buffer >>= λ (out, buffer). elim out [
      | none ↦ done (record a { buffer = buffer; place = empty })
      | some logline ↦ write opens fmt mem logline a.writer >>= λ writer.
          done (record a { buffer = buffer; writer = writer; place = found })
    ]

    -- One action of `pop`, at a place, and at the worker's own.
    unfoldable pub work_at : Place → AsyncLogger → Outcome AsyncLogger
    work_at waiting a = done (record a { place = after_wait a.state })
    work_at testing a = done (record a { place = after_test a.state })
    work_at polling a = take testing testing a
    work_at draining a = take draining stopped a
    work_at stopped a = done a

    unfoldable pub work : AsyncLogger → Outcome AsyncLogger
    work a = work_at a.place a

    unfoldable pub work_on : ℕ → AsyncLogger → Outcome AsyncLogger
    work_on zero a = done a
    work_on (suc n) a = work a >>= work_on n

    -- What happens to a logger, with the lines added: the constructor ends before a producer adds a
    -- line, and no producer adds one once the destructor runs.
    pub data Reaches (buffer : b.State) (writer : FileWriter)
        : List LogLine → AsyncLogger → Type 0 where
      begun : Reaches buffer writer [] (async_logger buffer writer)
      started :
          {lines : List LogLine} {a : AsyncLogger}
          → Reaches buffer writer lines a
          → a.state ≡ init
          → Reaches buffer writer lines (start a)
      added :
          {lines : List LogLine} {a a' : AsyncLogger} (logline : LogLine)
          → Reaches buffer writer lines a
          → a.state ≡ ready
          → add logline a ≡ done a'
          → Reaches buffer writer (lines ++ logline ∷ []) a'
      worked :
          {lines : List LogLine} {a a' : AsyncLogger}
          → Reaches buffer writer lines a
          → work a ≡ done a'
          → Reaches buffer writer lines a'
      shut :
          {lines : List LogLine} {a : AsyncLogger}
          → Reaches buffer writer lines a
          → a.state ≡ ready
          → Reaches buffer writer lines (shut_down a)
