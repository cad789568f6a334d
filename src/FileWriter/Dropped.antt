-- ===== src/FileWriter/Dropped.antt =====
-- A `FileWriter` (include/zephyrlog/filewriter.h) that cannot open its next file.
use zephyrlog.Prelude.{
  ℕ, ◌+◌, ◌%◌, ◌^◌, ◌<◌, ◌≡◌, refl, ap, ◌∙◌, Option, none, some, Outcome, done, ◌>>=◌, List, [],
  ◌∷◌, ◌++◌, length, ltb, Bool, true, false, arith,
}
use zephyrlog.LogLine.{LogLine}
use zephyrlog.LogLine.Encode.{Memory}
use zephyrlog.LogLine.Stringify.{Format, stringify}
use zephyrlog.FileWriter.{
  File, FileWriter, file_path, close, open_file, roll_file, put_text, write, write_all,
}

module _ (opens : List ℕ → Bool) (fmt : Format) (mem : Memory) where
  write-none :
      (logline : LogLine) (w : FileWriter) → w.os ≡ none → write opens fmt mem logline w ≡ done w
  unfolding write
  write-none logline w e =
      ap
        (λ (o : Option File). elim o [
          | none ↦ done w
          | some file ↦ stringify fmt mem logline >>= λ text. done (put_text opens text file w)
        ])
        e

  write_all-none :
      (lines : List LogLine) (w : FileWriter)
      → w.os ≡ none
      → write_all opens fmt mem lines w ≡ done w
  unfolding write_all
  write_all-none [] w e = refl
  write_all-none (logline ∷ rest) w e =
      ap (λ (o : Outcome FileWriter). o >>= write_all opens fmt mem rest) (write-none logline w e)
      ∙ write_all-none rest w e

  -- If a line makes the current file longer than `rollSize` and the next file cannot be opened,
  -- `write` returns, the file is closed with the line in it, and every line after it is dropped
  -- without an error.
  pub write-dropped :
      (w : FileWriter) (file : File) (logline : LogLine) (text : List ℕ) (lines : List LogLine)
      → w.os ≡ some file
      → stringify fmt mem logline ≡ done text
      → w.roll_size < w.bytes_written + length text
      → opens (file_path w.name ((w.file_number + 1) % 2 ^ 32)) ≡ false
      → (w' : FileWriter) × (write opens fmt mem logline w ≡ done w')
        × (w'.closed ≡ w.closed ++ record file { contents = file.contents ++ text } ∷ [])
        × (write_all opens fmt mem lines w' ≡ done w')
  unfolding write put_text roll_file close open_file
  write-dropped w file logline text lines e printed over fails =
      let full : ltb w.roll_size (w.bytes_written + length text) ≡ true = ground arith in
      let final : FileWriter = put_text opens text file w in
      let nothing : final.os ≡ none = rw (full, fails) in
      (final, rw (e, printed), rw (full, fails), write_all-none lines final nothing)
