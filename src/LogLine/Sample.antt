-- ===== src/LogLine/Sample.antt =====
-- Inputs of the tests: what the streams write, a memory with two strings, a call site, and a line.
use zephyrlog.Prelude.{
  ℕ, none, some, List, [], ◌∷◌, ◌==◌, if◌then◌else◌, replicate, ◌≡◌, ◌<◌, ◌++◌, refl, done, arith,
  length, length-append,
}
use zephyrlog.Prelude.Decimal.{decimal, digits, padded}
use zephyrlog.Prelude.Int.{negsuc}
use zephyrlog.Prelude.Text.{codes}
use zephyrlog.LogLine.{LogLine}
use zephyrlog.LogLine.Level.{LogLevel, to_string}
use zephyrlog.LogLine.Encode.{Memory, Value, Call, log_call}
use zephyrlog.LogLine.Stringify.{Format, heading, format_timestamp, stringify}
use zephyrlog.LogLine.Values.{encodings}
use zephyrlog.LogLine.Decoded.{shown_all}
use zephyrlog.LogLine.RoundTrip.{IsCall, stringify-log}

abbrev pub sample_format : Format
sample_format = record {
  local_time = λ seconds. decimal seconds;
  show_thread = λ thread. decimal thread;
  show_double = λ bits. decimal bits;
}

abbrev pub sample_memory : Memory
sample_memory p =
    if p == 1 then some (codes "a.cpp") else if p == 2 then some (codes "main") else none

abbrev pub sample_call : Call
sample_call = record {
  level = LogLevel.info;
  file = 1;
  function = 2;
  line = 7;
  now = 5;
  thread = 9;
}

abbrev pub sample_stack : List ℕ
sample_stack = replicate 224 0

abbrev pub sample_values : List Value
sample_values =
    Value.int32 (negsuc 4) ∷ Value.string (codes "hi") ∷ Value.array 2 ∷ Value.pointer 0 ∷ []

pub sample_call-IsCall : IsCall sample_call
sample_call-IsCall = record {
  named = tt;
  file_in = omega arith;
  function_in = omega arith;
  line_in = omega arith;
  now_in = omega arith;
  thread_in = omega arith;
}

logged :
    (l : LogLine) × (log_call sample_memory sample_call sample_stack [] ≡ some l)
    × (stringify sample_format sample_memory l
        ≡ done (
            heading sample_format 5 9 (codes "a.cpp") (codes "main") 7 LogLevel.info
            ++ ([] ++ 10 ∷ [])))
unfolding encodings shown_all
logged =
    stringify-log sample_format sample_memory sample_memory sample_call sample_stack []
      sample_call-IsCall refl tt refl (omega arith) refl refl refl

-- A line with no arguments.
pub sample_line : LogLine
sample_line = logged.0

pub sample_line-text :
    (text : List ℕ) × (stringify sample_format sample_memory sample_line ≡ done text)
unfolding sample_line
sample_line-text = (_, logged.2)

pub sample_line-log_call : log_call sample_memory sample_call sample_stack [] ≡ some sample_line
unfolding sample_line
sample_line-log_call = logged.1

pub sample_line_short : length sample_line-text.0 < 100
unfolding sample_line-text heading format_timestamp to_string padded decimal digits
sample_line_short = omega arith

pub sample_line_long : 0 < length sample_line-text.0
unfolding sample_line-text
sample_line_long = omega (
  arith,
  length-append (heading sample_format 5 9 (codes "a.cpp") (codes "main") 7 LogLevel.info)
      ([] ++ 10 ∷ []),
)
