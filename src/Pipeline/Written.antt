-- ===== src/Pipeline/Written.antt =====
-- From the log macros to the files.
use zephyrlog.Prelude.{
  ℕ, ◌<◌, ◌^◌, ◌≡◌, refl, sym, ap, ◌∙◌, subst, some, done, List, [], ◌∷◌, Bool, true, false, ltb,
  Bool-cases, inl, inr, arith,
}
use zephyrlog.LogLine.{LogLine}
use zephyrlog.LogLine.Level.{level_byte, at_least}
use zephyrlog.LogLine.Encode.{Memory}
use zephyrlog.LogLine.Values.{>>=-eq-some}
use zephyrlog.LogLine.RoundTrip.{stringify-log}
use zephyrlog.LogLine.Decoded.{shown_all}
use zephyrlog.LogLine.Stringify.{Format, stringify}
use zephyrlog.FileWriter.{file_writer}
use zephyrlog.FileWriter.Rolling.{HasWritten, render}
use zephyrlog.QueueBuffer.{queue_buffer}
use zephyrlog.QueueBuffer.Fifo.{queue_base, queue_fifo, queue_buffer-Queued}
use zephyrlog.AsyncLogger.{AsyncLogger, Reaches, stopped}
use zephyrlog.AsyncLogger.Drain.{stopped-writes_all}
use zephyrlog.Pipeline.{Statement, line_of, lines_of, text_of, texts_of, IsStatement, AllStatements}

line_of-text_of :
    (fmt : Format) (later : Memory) (s : Statement) {text : List ℕ}
    → IsStatement s
    → text_of fmt later s ≡ some text
    → (l : LogLine) × (line_of s ≡ some l) × (stringify fmt later l ≡ done text)
unfolding line_of text_of
line_of-text_of fmt later s {text} v e =
    let (file, ef, e₁) = >>=-eq-some (later s.call.file) _ e in
    let (function, eg, e₂) = >>=-eq-some (later s.call.function) _ e₁ in
    let (out, eo, e₃) = >>=-eq-some (shown_all fmt s.now later s.values) _ e₂ in
    let (l, made, printed) =
      stringify-log fmt s.now later s.call s.stack s.values v.is_call v.stack_size v.in_range
        v.encoded v.short ef eg eo in
    (l, made, printed ∙ ap done (cc e₃))

-- The lines of well formed statements are made, and have the texts of the statements.
lines_of-texts_of :
    (fmt : Format) (later : Memory) (statements : List Statement) {text : List ℕ}
    → AllStatements statements
    → texts_of fmt later statements ≡ some text
    → (lines : List LogLine) × (lines_of statements ≡ some lines)
      × (render fmt later lines ≡ done text)
unfolding lines_of texts_of render
lines_of-texts_of fmt later [] v e = ([], refl, ap done (cc e))
lines_of-texts_of fmt later (s ∷ rest) (v, vs) e =
    elim (Bool-cases (ltb (level_byte s.call.level) (level_byte s.threshold))) [
      | inl below ↦
          let fails : at_least s.call.level s.threshold ≡ false = ground arith in
          let (ls, made_rest, printed_rest) = lines_of-texts_of fmt later rest vs (rw below at e) in
          (ls, rw fails made_rest, printed_rest)
      | inr above ↦
          let passes : at_least s.call.level s.threshold ≡ true = ground arith in
          let (front, ef, e₁) = >>=-eq-some (text_of fmt later s) _ (rw above at e) in
          let (back, eb, e₂) = >>=-eq-some (texts_of fmt later rest) _ e₁ in
          let (l, made, printed) = line_of-text_of fmt later s v ef in
          let (ls, made_rest, printed_rest) = lines_of-texts_of fmt later rest vs eb in
          (l ∷ ls, rw (passes, made, made_rest), rw (printed, printed_rest) (ap done (cc e₂)))
    ]

-- From the macros to the files: any number of well formed log statements run in turn, each meeting
-- a log level, and the lines that they add go to a new logger with a queue buffer whose blocks have
-- one item at least and fewer than 2^32, in that order, while the producers, the destructor and the
-- worker take turns in any way, and every file can be opened. Once the worker has stopped, the
-- files hold the texts of the statements whose level is not below the one that they met, whole and
-- in order, and nothing else: of each the heading, what its arguments show, and a newline. Files
-- that a later one has erased are counted in; only the oldest of 2^32 files is erased.
pub statements-HasWritten :
    (size : ℕ) (positive : 0 < size) (small : size < 2 ^ 32) (fuel : ℕ) (opens : List ℕ → Bool)
    (always : (path : List ℕ) → opens path ≡ true) (directory name : List ℕ) (roll_size : ℕ)
    (terminal_output : Bool) (fmt : Format) (later : Memory) (statements : List Statement)
    {lines : List LogLine} {text : List ℕ} {a : AsyncLogger (queue_base size positive small fuel)}
    → AllStatements statements
    → lines_of statements ≡ some lines
    → texts_of fmt later statements ≡ some text
    → Reaches
        (queue_base size positive small fuel)
        opens
        fmt
        later
        (queue_buffer size)
        (file_writer opens directory name roll_size terminal_output)
        lines
        a
    → a.place ≡ stopped
    → HasWritten a.writer text
statements-HasWritten size positive small fuel opens always directory name roll_size terminal_output
      fmt later statements {lines} {text} {a} v made e r here =
    let (written, rendered, files) =
      stopped-writes_all (queue_fifo size positive small fuel) (λ _. tt) opens always fmt later
        (queue_buffer size) directory name roll_size terminal_output
        (queue_buffer-Queued size positive small) r here in
    let (lines', made', rendered') = lines_of-texts_of fmt later statements v e in
    let same : lines' ≡ lines = cc (sym made' ∙ made) in
    let text_eq : done written ≡ done text =
      sym rendered ∙ ap (render fmt later) (sym same) ∙ rendered' in
    subst (HasWritten a.writer) (cc text_eq) files
