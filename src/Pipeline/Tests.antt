-- ===== src/Pipeline/Tests.antt =====
-- The theorem on the whole pipeline at a concrete input: two statements, of which
-- one is below the level that it meets, and the line of the other goes to the files.
use zephyrlog.Prelude.{ℕ, ◌≡◌, ◌++◌, refl, some, List, [], ◌∷◌, false, arith}
use zephyrlog.Prelude.Text.{codes}
use zephyrlog.LogLine.Decoded.{shown_all}
use zephyrlog.LogLine.Values.{encodings}
use zephyrlog.LogLine.Level.{LogLevel}
use zephyrlog.LogLine.Stringify.{heading}
use zephyrlog.LogLine.Sample.{
  sample_format, sample_memory, sample_call, sample_call-IsCall, sample_stack, sample_line,
  sample_line-log_call,
}
use zephyrlog.FileWriter.Rolling.{HasWritten}
use zephyrlog.AsyncLogger.Sample.{opens, final, trace}
use zephyrlog.Pipeline.{Statement, line_of, lines_of, text_of, texts_of, IsStatement}
use zephyrlog.Pipeline.Written.{statements-HasWritten}

abbrev sample_statement : Statement
sample_statement = record {
  call = sample_call;
  values = [];
  threshold = LogLevel.info;
  now = sample_memory;
  stack = sample_stack;
}

sample_statement-IsStatement : IsStatement sample_statement
unfolding encodings
sample_statement-IsStatement = record {
  is_call = sample_call-IsCall;
  stack_size = refl;
  in_range = tt;
  bytes = [];
  encoded = refl;
  short = omega arith;
}

abbrev sample_text : List ℕ
sample_text =
    heading sample_format 5 9 (codes "a.cpp") (codes "main") 7 LogLevel.info ++ ([] ++ 10 ∷ [])

-- Below the level that it meets.
abbrev quiet_statement : Statement
quiet_statement = record sample_statement { threshold = LogLevel.warn }

quiet_statement-IsStatement : IsStatement quiet_statement
unfolding encodings
quiet_statement-IsStatement = record {
  is_call = sample_call-IsCall;
  stack_size = refl;
  in_range = tt;
  bytes = [];
  encoded = refl;
  short = omega arith;
}

sample_lines : lines_of (quiet_statement ∷ sample_statement ∷ []) ≡ some (sample_line ∷ [])
unfolding lines_of line_of
sample_lines = rw sample_line-log_call

sample_texts :
    texts_of sample_format sample_memory (quiet_statement ∷ sample_statement ∷ [])
    ≡ some (sample_text ++ [])
unfolding texts_of text_of shown_all
sample_texts = refl

statements-HasWritten_example : HasWritten final.writer (sample_text ++ [])
unfolding final
statements-HasWritten_example =
    statements-HasWritten 2 (omega arith) (omega arith) 0 opens (λ _. refl) (codes "log/")
      (codes "app") 40 false sample_format sample_memory (quiet_statement ∷ sample_statement ∷ [])
      (quiet_statement-IsStatement, (sample_statement-IsStatement, tt)) sample_lines sample_texts
      trace refl
