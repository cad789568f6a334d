-- ===== src/LogLine/RoundTrip.antt =====
-- What `stringify` prints for the line that a log call leaves.
use zephyrlog.Prelude.{
  ℕ, suc, ◌+◌, ◌^◌, ◌≤◌, ◌<◌, ◌≡◌, sym, ap, ap₂, ◌∙◌, some, List, [], ◌∷◌, ◌++◌, length, arith,
  done, append_assoc, length-append, drop, take-append-drop,
}
use zephyrlog.Prelude.Bytes.{to_bytes, of_bytes, of_bytes-to_bytes}
use zephyrlog.LogLine.{LogLine, buffer, streamsize_end, stack_buffer_size}
use zephyrlog.LogLine.Level.{IsEnumerator, level_byte, level_of_byte-level_byte}
use zephyrlog.LogLine.Encode.{Memory, Value, Call, log_call}
use zephyrlog.LogLine.Validity.{IsValid, used, length-used, used-take, used-fresh}
use zephyrlog.LogLine.Encoded.{header, length-header, log_line_lem}
use zephyrlog.LogLine.Values.{AllInRange, encodings, append_all_lem}
use zephyrlog.LogLine.Decoded.{at, fetch-to_bytes, shown_all}
use zephyrlog.LogLine.Loop.{fetch-one, show_args-encodings}
use zephyrlog.LogLine.Stringify.{Format, c_string, show_args, heading, stringify}

pub record IsCall (c : Call) : Type 0 where
  pub named : IsEnumerator c.level
  pub file_in : c.file < 2 ^ 64
  pub function_in : c.function < 2 ^ 64
  pub line_in : c.line < 2 ^ 32
  pub now_in : c.now < 2 ^ 64
  pub thread_in : c.thread < 2 ^ 64

abbrev header_of : Call → List ℕ
header_of c = header c.level c.file c.function c.line c.now c.thread

-- The fields of the header, with `more` behind them, and how far it is to the end.
abbrev fields : Call → List ℕ → List ℕ
fields c more =
    to_bytes 8 c.now
    ++ (to_bytes 8 c.thread
        ++ (to_bytes 8 c.file
            ++ (to_bytes 8 c.function ++ (to_bytes 4 c.line ++ level_byte c.level ∷ more))))

abbrev to_end : Call → ℕ → ℕ
to_end c k =
    length (to_bytes 8 c.now)
    + (length (to_bytes 8 c.thread)
        + (length (to_bytes 8 c.file)
            + (length (to_bytes 8 c.function) + (length (to_bytes 4 c.line) + suc k))))

header-append : (c : Call) (more : List ℕ) → header_of c ++ more ≡ fields c more
unfolding header
header-append c more = simp append_assoc

length-fields : (c : Call) (more : List ℕ) → length (fields c more) ≡ to_end c (length more)
length-fields c more = simp length-append

start_lem :
    (c : Call) (l : LogLine) (bytes : List ℕ)
    → IsValid l
    → used l ≡ header_of c ++ bytes
    → at (buffer l) l.bytes_used
      ≡ at (fields c (bytes ++ drop l.bytes_used (buffer l))) (to_end c (length bytes))
start_lem c l bytes v e = ap₂ at contents size
  where
    tail : List ℕ
    tail = drop l.bytes_used (buffer l)

    contents : buffer l ≡ fields c (bytes ++ tail)
    contents =
        sym (take-append-drop l.bytes_used (buffer l))
        ∙ ap (λ (u : List ℕ). u ++ tail) (used-take l ∙ e)
        ∙ append_assoc (header_of c) bytes tail
        ∙ header-append c (bytes ++ tail)

    size : l.bytes_used ≡ to_end c (length bytes)
    size = sym (length-used v) ∙ ap (length {0}) (e ∙ header-append c bytes) ∙ length-fields c bytes

c_string-found : (mem : Memory) (p : ℕ) {s : List ℕ} → mem p ≡ some s → c_string mem p ≡ done s
unfolding c_string
c_string-found mem p e = rw (e, c_string)

of_bytes-one : (b : ℕ) → of_bytes (b ∷ []) ≡ b
unfolding of_bytes
of_bytes-one b = omega arith

-- A line with this header and these bytes behind it, printed.
stringify-used :
    (fmt : Format) (mem : Memory) (c : Call) (l : LogLine) (bytes : List ℕ)
    {file function args : List ℕ}
    → IsValid l
    → used l ≡ header_of c ++ bytes
    → IsCall c
    → mem c.file ≡ some file
    → mem c.function ≡ some function
    → ((tail : List ℕ)
        → show_args fmt mem l.bytes_used (at (bytes ++ tail) (length bytes)) ≡ done args)
    → stringify fmt mem l
      ≡ done (heading fmt c.now c.thread file function c.line c.level ++ (args ++ 10 ∷ []))
unfolding stringify
stringify-used fmt mem c l bytes v e k ef eg ea = rw (
  start_lem c l bytes v e,
  fetch-to_bytes 8 c.now _ _,
  fetch-to_bytes 8 c.thread _ _,
  fetch-to_bytes 8 c.file _ _,
  fetch-to_bytes 8 c.function _ _,
  fetch-to_bytes 4 c.line _ _,
  fetch-one fmt mem (level_byte c.level) _ _,
  of_bytes-to_bytes 8 c.file k.file_in,
  of_bytes-to_bytes 8 c.function k.function_in,
  c_string-found mem c.file ef,
  c_string-found mem c.function eg,
  ea (drop l.bytes_used (buffer l)),
  of_bytes-to_bytes 8 c.now k.now_in,
  of_bytes-to_bytes 8 c.thread k.thread_in,
  of_bytes-to_bytes 4 c.line k.line_in,
  of_bytes-one (level_byte c.level),
  level_of_byte-level_byte c.level k.named,
)

-- A log call with any number of arguments, each in the range of its type, succeeds, on a stack
-- buffer of 224 bytes with any contents, and `stringify` prints the line that it leaves: the
-- heading of the call, what each argument shows, in order, and a newline. A `const char*` and a
-- `std::string` show the characters at the time of the call, an array those at the time of
-- printing. The level of the call is an enumerator and its numbers are in the ranges of their
-- types; the file and the function have strings at the time of printing; and each pointer has a
-- string when it is read. The header and the encoded arguments together have fewer than 2^63 bytes.
pub stringify-log :
    (fmt : Format) (now later : Memory) (c : Call) (stack : List ℕ) (xs : List Value)
    {bytes file function out : List ℕ}
    → IsCall c
    → length stack ≡ stack_buffer_size
    → AllInRange xs
    → encodings now xs ≡ some bytes
    → 37 + length bytes < streamsize_end
    → later c.file ≡ some file
    → later c.function ≡ some function
    → shown_all fmt now later xs ≡ some out
    → (l : LogLine) × (log_call now c stack xs ≡ some l)
      × (stringify fmt later l
          ≡ done (heading fmt c.now c.thread file function c.line c.level ++ (out ++ 10 ∷ [])))
unfolding log_call
stringify-log fmt now later c stack xs {bytes} k hs r e room ef eg s =
    let (l₁, e₁, v₁, u₁) = log_line_lem c.level c.file c.function c.line c.now c.thread stack hs in
    let started : used l₁ ≡ header_of c =
      u₁ ∙ ap (λ (b : List ℕ). b ++ header_of c) (used-fresh stack) in
    let n₁ : l₁.bytes_used ≡ 37 =
      sym (length-used v₁)
      ∙ ap (length {0}) started
      ∙ length-header c.level c.file c.function c.line c.now c.thread in
    let (l₂, e₂, v₂, u₂) = append_all_lem now xs v₁ e (omega arith) in
    let whole : used l₂ ≡ header_of c ++ bytes = u₂ ∙ ap (λ (b : List ℕ). b ++ bytes) started in
    let enough : length bytes ≤ l₂.bytes_used =
      omega (arith, length-used v₂, ap (length {0}) whole, length-append (header_of c) bytes) in
    (
      l₂,
      rw e₁ e₂,
      stringify-used fmt later c l₂ bytes v₂ whole k ef eg (λ tail.
          show_args-encodings fmt now later xs l₂.bytes_used tail r (omega arith) e s enough),
    )
