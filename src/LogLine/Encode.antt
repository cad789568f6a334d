-- ===== src/LogLine/Encode.antt =====
-- The `encode` functions and the overloads of `operator<<` (src/logline.cpp and
-- include/zephyrlog/logline.h).
use zephyrlog.Prelude.{ℕ, ◌^◌, Option, some, List, [], ◌∷◌, length, ◌==◌, if◌then◌else◌}
use zephyrlog.Prelude.Bytes.{to_bytes}
use zephyrlog.Prelude.Int.{ℤ, to_word}
use zephyrlog.LogLine.{LogLine, ArgType, ◌>>=◌, encode_fixed, encode_cstring, log_line}
use zephyrlog.LogLine.Level.{LogLevel}

-- The NUL-terminated string at an address, without its NUL; `none` where there is none to read.
abbrev pub Memory : Type 0
Memory = ℕ → Option (List ℕ)

unfoldable pub encode_char : ℕ → LogLine → Option LogLine
encode_char arg = encode_fixed ArgType.char (to_bytes 1 arg)

unfoldable pub encode_int32 : ℤ → LogLine → Option LogLine
encode_int32 arg = encode_fixed ArgType.int32 (to_bytes 4 (to_word (2 ^ 31) arg))

unfoldable pub encode_uint32 : ℕ → LogLine → Option LogLine
encode_uint32 arg = encode_fixed ArgType.uint32 (to_bytes 4 arg)

unfoldable pub encode_int64 : ℤ → LogLine → Option LogLine
encode_int64 arg = encode_fixed ArgType.int64 (to_bytes 8 (to_word (2 ^ 63) arg))

unfoldable pub encode_uint64 : ℕ → LogLine → Option LogLine
encode_uint64 arg = encode_fixed ArgType.uint64 (to_bytes 8 arg)

-- A `double` is its bit pattern.
unfoldable pub encode_double : ℕ → LogLine → Option LogLine
encode_double arg = encode_fixed ArgType.double (to_bytes 8 arg)

-- Only the pointer is kept.
unfoldable pub encode_string_literal : ℕ → LogLine → Option LogLine
encode_string_literal s = encode_fixed ArgType.string_literal (to_bytes 8 s)

-- The overload with no length: `encodeCString(s, s ? strlen(s) : 0)`.
unfoldable pub encode_cstring_at : Memory → ℕ → LogLine → Option LogLine
encode_cstring_at mem s l =
    if s == 0
    then encode_cstring [] 0 l
    else do chars ← mem s; encode_cstring chars (length chars) l

-- The right-hand side of `<<`, by the overload that takes it: `pointer` is a `char*` or a
-- `const char*`, `array` any array of `char`, each by its address; `string` is a `std::string`.
pub data Value : Type 0 where
  char : ℕ → Value
  int32 : ℤ → Value
  uint32 : ℕ → Value
  int64 : ℤ → Value
  uint64 : ℕ → Value
  double : ℕ → Value
  string : List ℕ → Value
  pointer : ℕ → Value
  array : ℕ → Value

-- `operator<<`
unfoldable pub append : Memory → Value → LogLine → Option LogLine
append mem (char arg) l = encode_char arg l
append mem (int32 arg) l = encode_int32 arg l
append mem (uint32 arg) l = encode_uint32 arg l
append mem (int64 arg) l = encode_int64 arg l
append mem (uint64 arg) l = encode_uint64 arg l
append mem (double arg) l = encode_double arg l
append mem (string arg) l = encode_cstring arg (length arg) l
append mem (pointer s) l = encode_cstring_at mem s l
append mem (array s) l = encode_string_literal s l

-- `line << a << b << …`
unfoldable pub append_all : Memory → List Value → LogLine → Option LogLine
append_all mem [] l = some l
append_all mem (v ∷ vs) l = append mem v l >>= append_all mem vs

-- A call site (`__FILE__` and `__func__` are pointers) and what it meets: the clock and its thread.
pub record Call : Type 0 where
  pub level : LogLevel
  pub file : ℕ
  pub function : ℕ
  pub line : ℕ
  pub now : ℕ
  pub thread : ℕ

-- The line that `LOG(level) << a << b << …` leaves.
unfoldable pub log_call : Memory → Call → List ℕ → List Value → Option LogLine
log_call mem c stack xs =
    log_line c.level c.file c.function c.line c.now c.thread stack >>= append_all mem xs
