-- ===== src/FileWriter/Tests.antt =====
-- The theorems on the file writer at concrete inputs.
use zephyrlog.Prelude.{
  ℕ, ◌≡◌, ◌++◌, refl, done, List, [], ◌∷◌, true, false, some, replicate, arith, ◌<◌, ◌+◌, ◌*◌, ◌^◌,
  length, length-append,
}
use zephyrlog.Prelude.Text.{codes}
use zephyrlog.LogLine.Sample.{
  sample_format, sample_memory, sample_line, sample_line-text, sample_line_long, sample_line_short,
}
use zephyrlog.FileWriter.{File, FileWriter, file_writer, write, write_all}
use zephyrlog.FileWriter.Whole.{write_all-whole}
use zephyrlog.FileWriter.Dropped.{write-dropped}
use zephyrlog.FileWriter.Rolling.{
  HasWritten, joined, render, file_writer-HasWritten, write_all-HasWritten,
}

abbrev new_writer : FileWriter
new_writer = file_writer (λ _. true) (codes "log/") (codes "app") 40 false

sample_text :
    (text : List ℕ) × (render sample_format sample_memory (sample_line ∷ sample_line ∷ [])
      ≡ done text)
unfolding render
sample_text = let (text, e) = sample_line-text in (text ++ (text ++ []), rw e)

write_all-HasWritten_example :
    (w' : FileWriter) × (write_all
        (λ _. true)
        sample_format
        sample_memory
        (sample_line ∷ sample_line ∷ [])
        new_writer
      ≡ done w')
    × HasWritten w' ([] ++ sample_text.0)
write_all-HasWritten_example =
    write_all-HasWritten (λ _. true) (λ _. refl) sample_format sample_memory
      (sample_line ∷ sample_line ∷ []) new_writer [] sample_text.0
      (file_writer-HasWritten (λ _. true) (λ _. refl) (codes "log/") (codes "app") 40 false)
      sample_text.1

sample_text_short : length sample_text.0 < 2 ^ 32 * (40 + 1)
unfolding sample_text
sample_text_short = omega (
  arith,
  sample_line_short,
  length-append sample_line-text.0 (sample_line-text.0 ++ []),
  length-append sample_line-text.0 [],
)

write_all-whole_example :
    (w : FileWriter) × (file : File) × (write_all
        (λ _. true)
        sample_format
        sample_memory
        (sample_line ∷ sample_line ∷ [])
        new_writer
      ≡ done w)
    × (w.os ≡ some file)
    × (joined w.closed ++ file.contents ≡ sample_text.0)
write_all-whole_example =
    write_all-whole (λ _. true) (λ _. refl) sample_format sample_memory (codes "log/") (codes "app")
      40 false (sample_line ∷ sample_line ∷ []) sample_text.0 sample_text.1 sample_text_short

-- A file with as many bytes as fit.
abbrev full_file : File
full_file = record { path = codes "log/app.1.txt"; contents = replicate 40 65 }

abbrev full_writer : FileWriter
full_writer = record {
  file_number = 1;
  bytes_written = 40;
  roll_size = 40;
  name = codes "log/app";
  terminal_output = false;
  os = some full_file;
  closed = [];
  terminal = [];
}

write-dropped_example :
    (w' : FileWriter) × (write (λ _. false) sample_format sample_memory sample_line full_writer
      ≡ done w')
    × (w'.closed ≡ [] ++ record full_file { contents = replicate 40 65 ++ sample_line-text.0 } ∷ [])
    × (write_all (λ _. false) sample_format sample_memory (sample_line ∷ sample_line ∷ []) w'
        ≡ done w')
write-dropped_example =
    write-dropped (λ _. false) sample_format sample_memory full_writer full_file sample_line
      sample_line-text.0 (sample_line ∷ sample_line ∷ []) refl sample_line-text.1
      (omega (arith, sample_line_long)) refl
