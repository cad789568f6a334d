-- ===== src/LogLine/Stringify.antt =====
-- `LogLine::stringify` and `formatTimestamp` (src/logline.cpp): the decoding half. The loop reads
-- the buffer from the cursor on. What is undefined behaviour in C++ is `fault`: to read past the
-- array, to move the pointer past its end, as `b += len` with a `len` that is too large for it does,
-- and to follow a pointer with no string behind it. `std::endl` flushes; the second flush of a CRITICAL line writes
-- nothing and is left out.
use zephyrlog.Prelude.{
  ℕ, zero, suc, ◌-◌, ◌/◌, ◌%◌, ◌^◌, Option, none, some, List, [], ◌∷◌, ◌++◌, ◌==◌, ltb,
  if◌then◌else◌, Outcome, done, fault, out_of_fuel, ◌>>=◌,
}
use zephyrlog.Prelude.Bytes.{of_bytes, read}
use zephyrlog.Prelude.Decimal.{decimal, padded}
use zephyrlog.Prelude.Int.{ℤ, pos, negsuc, of_word}
use zephyrlog.Prelude.Text.{codes}
use zephyrlog.LogLine.{LogLine, ArgType, buffer, streamsize_end}
use zephyrlog.LogLine.Level.{LogLevel, level_of_byte, to_string}
use zephyrlog.LogLine.Encode.{Memory}

-- What the C library and the streams write: the local time of a number of seconds as
-- "%Y-%m-%d %T.", a thread id, and the double with a given bit pattern.
pub record Format : Type 0 where
  pub local_time : ℕ → List ℕ
  pub show_thread : ℕ → List ℕ
  pub show_double : ℕ → List ℕ

-- The pointer `b`, as the array from there on, and `end - b`, which is 0 once `b` has passed `end`.
pub record Cursor : Type 0 where
  pub rest : List ℕ
  pub left : ℕ

-- Reads `n` bytes at `b`, and `b += n`.
unfoldable pub fetch : ℕ → Cursor → Outcome (List ℕ × Cursor)
fetch n c = elim (read n c.rest) [
  | none ↦ fault
  | some (bytes, rest) ↦ done (bytes, record { rest = rest; left = c.left - n })
]

unfoldable pub c_string : Memory → ℕ → Outcome (List ℕ)
c_string mem p = elim (mem p) [ none ↦ fault | some s ↦ done s ]

unfoldable pub show_int : ℤ → List ℕ
show_int (pos n) = decimal n
show_int (negsuc n) = b'-' ∷ decimal (suc n)

-- `static_cast<ArgType>`; `none` is a byte that goes to the `default` of the switch.
abbrev pub arg_type : ℕ → Option ArgType
arg_type n =
    if n == 0
    then some ArgType.char
    else if n == 1
    then some ArgType.uint32
    else if n == 2
    then some ArgType.uint64
    else if n == 3
    then some ArgType.int32
    else if n == 4
    then some ArgType.int64
    else if n == 5
    then some ArgType.double
    else if n == 6
    then some ArgType.string_literal
    else if n == 7
    then some ArgType.cstring
    else none

unfoldable pub format_timestamp : Format → ℕ → List ℕ
format_timestamp fmt timestamp =
    b'[' ∷ (fmt.local_time (timestamp / 1000000) ++ (padded 6 (timestamp % 1000000) ++ b']' ∷ []))

-- What `stringify` prints before the arguments.
unfoldable pub heading :
    Format → (timestamp thread : ℕ) (file function : List ℕ) (line : ℕ) → LogLevel → List ℕ
heading fmt timestamp thread file function line level =
    format_timestamp fmt timestamp
    ++ (codes "["
        ++ (to_string level
            ++ (codes "]["
                ++ (fmt.show_thread thread
                    ++ (codes "]["
                        ++ (file
                            ++ (codes ":"
                                ++ (function ++ (codes ":" ++ (decimal line ++ codes "] "))))))))))

module _ (fmt : Format) (mem : Memory) where
  -- The body of the switch: what goes to the stream, and the cursor behind the value.
  unfoldable pub show_arg : Option ArgType → Cursor → Outcome (List ℕ × Cursor)
  show_arg (some ArgType.char) c = fetch 1 c
  show_arg (some ArgType.int32) c = do
    (bytes, c) ← fetch 4 c
    done (show_int (of_word (2 ^ 31) (of_bytes bytes)), c)
  show_arg (some ArgType.uint32) c = do (bytes, c) ← fetch 4 c; done (decimal (of_bytes bytes), c)
  show_arg (some ArgType.int64) c = do
    (bytes, c) ← fetch 8 c
    done (show_int (of_word (2 ^ 63) (of_bytes bytes)), c)
  show_arg (some ArgType.uint64) c = do (bytes, c) ← fetch 8 c; done (decimal (of_bytes bytes), c)
  show_arg (some ArgType.double) c = do
    (bytes, c) ← fetch 8 c
    done (fmt.show_double (of_bytes bytes), c)
  show_arg (some ArgType.string_literal) c = do
    (bytes, c) ← fetch 8 c
    s ← c_string mem (of_bytes bytes)
    done (s, c)
  -- A `len` that a `std::streamsize` cannot hold is past the end of every array.
  show_arg (some ArgType.cstring) c = do
    (bytes, c) ← fetch 8 c
    let len = of_bytes bytes
    if ltb len streamsize_end then fetch len c else fault
  show_arg none c = done ([], c)

  -- `while (b < end)`
  unfoldable pub show_args : ℕ → Cursor → Outcome (List ℕ)
  show_args zero c = if c.left == 0 then done [] else out_of_fuel
  show_args (suc fuel) c = if c.left == 0 then done [] else do
    (type, c) ← fetch 1 c
    (out, c) ← show_arg (arg_type (of_bytes type)) c
    more ← show_args fuel c
    done (out ++ more)

  -- Every round of the loop takes a byte at least; the fuel is the bytes in use.
  unfoldable pub stringify : LogLine → Outcome (List ℕ)
  stringify l = do
    (timestamp, c) ← fetch 8 (record { rest = buffer l; left = l.bytes_used })
    (thread, c) ← fetch 8 c
    (file, c) ← fetch 8 c
    (function, c) ← fetch 8 c
    (line, c) ← fetch 4 c
    (level, c) ← fetch 1 c
    file ← c_string mem (of_bytes file)
    function ← c_string mem (of_bytes function)
    args ← show_args l.bytes_used c
    done (
        heading fmt (of_bytes timestamp) (of_bytes thread) file function (of_bytes line)
          (level_of_byte (of_bytes level))
        ++ (args ++ 10 ∷ []))
