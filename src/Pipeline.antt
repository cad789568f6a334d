-- ===== src/Pipeline.antt =====
-- The parts together: the lines of the log macros (include/zephyrlog/zephyrlog.h) go to a logger with
-- a `QueueBuffer`, made by `createSafeLogger` or `initializeSafe` (src/zephyrlog.cpp,
-- src/logger.cpp), whose worker writes them to its files.
pub mod Written
mod Tests
use zephyrlog.Prelude.{
  ℕ, ◌+◌, ◌^◌, ◌<◌, ◌≡◌, Option, none, some, Outcome, List, [], ◌∷◌, ◌++◌, length, Bool, ltb,
  if◌then◌else◌,
}
use zephyrlog.LogLine.{LogLine, ◌>>=◌, stack_buffer_size, streamsize_end}
use zephyrlog.LogLine.Level.{LogLevel, level_byte, at_least}
use zephyrlog.LogLine.Encode.{Memory, Value, Call, log_call}
use zephyrlog.LogLine.Values.{AllInRange, encodings}
use zephyrlog.LogLine.Decoded.{shown_all}
use zephyrlog.LogLine.RoundTrip.{IsCall}
use zephyrlog.LogLine.Stringify.{Format, heading}
use zephyrlog.FileWriter.{file_writer}
use zephyrlog.QueueBuffer.{queue_buffer}
use zephyrlog.QueueBuffer.Fifo.{queue_base}
use zephyrlog.AsyncLogger.{AsyncLogger, async_logger}

-- A statement with a log macro, and what it meets: the level that `getLogLevel` gives, the strings in
-- memory, and what its stack holds.
pub record Statement : Type 0 where
  pub call : Call
  pub values : List Value
  pub threshold : LogLevel
  pub now : Memory
  pub stack : List ℕ

-- The right-hand side of `LOG`.
unfoldable pub line_of : Statement → Option LogLine
line_of s = log_call s.now s.call s.stack s.values

-- The lines of one statement after the other: none where the test of the macro fails.
unfoldable pub lines_of : List Statement → Option (List LogLine)
lines_of [] = some []
lines_of (s ∷ rest) =
    let more = lines_of rest in
    if at_least s.call.level s.threshold
    then (line_of s >>= λ l. more >>= λ ls. some (l ∷ ls))
    else more

-- The text of a statement in the log: its heading, what its values show, a newline.
unfoldable pub text_of : Format → Memory → Statement → Option (List ℕ)
text_of fmt later s = do
  file ← later s.call.file
  function ← later s.call.function
  out ← shown_all fmt s.now later s.values
  some (
      heading fmt s.call.now s.call.thread file function s.call.line s.call.level
      ++ (out ++ 10 ∷ []))

-- The texts of the statements that are not below the level that they meet.
unfoldable pub texts_of : Format → Memory → List Statement → Option (List ℕ)
texts_of fmt later [] = some []
texts_of fmt later (s ∷ rest) =
    let more = texts_of fmt later rest in
    if ltb (level_byte s.call.level) (level_byte s.threshold)
    then more
    else (text_of fmt later s >>= λ text. more >>= λ after. some (text ++ after))

-- The numbers of a statement are in the ranges of their types, each string that it copies is there,
-- and the line is not longer than a `std::streamsize` can say.
pub record IsStatement (s : Statement) : Type 0 where
  pub is_call : IsCall s.call
  pub stack_size : length s.stack ≡ stack_buffer_size
  pub in_range : AllInRange s.values
  pub bytes : List ℕ
  pub encoded : encodings s.now s.values ≡ some bytes
  pub short : 37 + length bytes < streamsize_end

abbrev pub AllStatements : List Statement → Type 0
AllStatements [] = Unit
AllStatements (s ∷ rest) = IsStatement s × AllStatements rest
