-- ===== src/LogLine/Tests.antt =====
-- The theorems on log lines at concrete inputs.
use zephyrlog.Prelude.{◌≡◌, refl, ◌≤◌, none, some, done, [], ◌∷◌, ◌++◌, replicate, arith, false}
use zephyrlog.Prelude.Text.{codes}
use zephyrlog.Prelude.Bytes.{to_bytes}
use zephyrlog.Prelude.Decimal.{decimal, digits}
use zephyrlog.LogLine.{
  LogLine, ArgType, is_heap_allocated, buffer_used_size, fresh, log_line, encode_fixed,
  resize_buffer_if_needed,
}
use zephyrlog.LogLine.Level.{LogLevel}
use zephyrlog.LogLine.Encode.{Value, log_call, append_all}
use zephyrlog.LogLine.Validity.{IsValid, used, size_after, resize_lem}
use zephyrlog.LogLine.Encoded.{Appends, header, log_line_lem}
use zephyrlog.LogLine.Values.{
  AllInRange, chars_at, encoded_text, encoding, encodings, append_all_lem,
}
use zephyrlog.LogLine.Decoded.{shown, shown_all}
use zephyrlog.LogLine.Moved.{moved_from, encode_fixed-moved_from}
use zephyrlog.LogLine.Stringify.{heading, show_int, stringify}
use zephyrlog.LogLine.RoundTrip.{stringify-log}
use zephyrlog.LogLine.Allocation.{is_heap_allocated-log_call}
use zephyrlog.LogLine.Sample.{
  sample_format, sample_memory, sample_call, sample_call-IsCall, sample_stack, sample_values,
}

sample_values-AllInRange : AllInRange sample_values
sample_values-AllInRange = (omega arith, (omega arith, (omega arith, (omega arith, tt))))

stringify-log_example :
    (l : LogLine) × (log_call sample_memory sample_call sample_stack sample_values ≡ some l)
    × (stringify sample_format sample_memory l
        ≡ done (
            heading sample_format 5 9 (codes "a.cpp") (codes "main") 7 LogLevel.info
            ++ (codes "-5himain" ++ 10 ∷ [])))
unfolding encodings encoding chars_at encoded_text shown_all shown show_int to_bytes decimal digits
stringify-log_example =
    stringify-log sample_format sample_memory sample_memory sample_call sample_stack sample_values
      sample_call-IsCall refl sample_values-AllInRange refl (omega arith) refl refl refl

log_line_lem_example :
    Appends
      (fresh sample_stack)
      (header LogLevel.info 1 2 7 5 9)
      (log_line LogLevel.info 1 2 7 5 9 sample_stack)
log_line_lem_example = log_line_lem LogLevel.info 1 2 7 5 9 sample_stack refl

-- A line with all of its stack buffer in use.
abbrev full_line : LogLine
full_line = record {
  bytes_used = 224;
  buffer_size = 224;
  heap_buffer = none;
  stack_buffer = sample_stack;
}

full_line-IsValid : IsValid full_line
full_line-IsValid = record { stack_size = refl; has_size = refl; used_fits = omega arith }

resize_lem_example :
    (l' : LogLine) × (resize_buffer_if_needed 9 full_line ≡ some l')
    × IsValid l'
    × (used l' ≡ used full_line)
    × (l'.buffer_size ≡ size_after 233 full_line)
    × (233 ≤ l'.buffer_size)
resize_lem_example = resize_lem {l = full_line} 9 full_line-IsValid (omega arith)

append_all_lem_example :
    Appends full_line
      (encoded_text (codes "hi"))
      (append_all sample_memory (Value.string (codes "hi") ∷ []) full_line)
unfolding encodings encoding to_bytes encoded_text
append_all_lem_example =
    append_all_lem sample_memory (Value.string (codes "hi") ∷ []) {l = full_line} full_line-IsValid
      refl (omega arith)

-- A line of 300 bytes, on the heap.
abbrev long_line : LogLine
long_line = record {
  bytes_used = 300;
  buffer_size = 512;
  heap_buffer = some (replicate 512 0);
  stack_buffer = sample_stack;
}

long_line-IsValid : IsValid long_line
long_line-IsValid = record {
  stack_size = refl;
  has_size = (refl, omega arith);
  used_fits = omega arith;
}

encode_fixed-moved_from_example :
    encode_fixed ArgType.uint32 (1 ∷ 0 ∷ 0 ∷ 0 ∷ []) (moved_from long_line) ≡ none
encode_fixed-moved_from_example =
    encode_fixed-moved_from long_line ArgType.uint32 (1 ∷ 0 ∷ 0 ∷ 0 ∷ []) long_line-IsValid
      (omega arith)

is_heap_allocated-log_call_example :
    (l : LogLine) × (log_call sample_memory sample_call sample_stack
        (Value.string (codes "hi") ∷ [])
      ≡ some l)
    × (buffer_used_size l ≡ 48)
    × (is_heap_allocated l ≡ false)
unfolding encodings encoding to_bytes encoded_text
is_heap_allocated-log_call_example =
    is_heap_allocated-log_call sample_memory sample_call sample_stack
      (Value.string (codes "hi") ∷ []) refl refl (omega arith)
