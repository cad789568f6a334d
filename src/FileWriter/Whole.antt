-- ===== src/FileWriter/Whole.antt =====
-- When no file of a `FileWriter` (include/zephyrlog/filewriter.h) is erased by a later one.
use zephyrlog.Prelude.{
  ℕ, ◌+◌, ◌-◌, ◌*◌, ◌^◌, ◌≤◌, ◌<◌, ◌≡◌, refl, sym, ap, ◌∙◌, some, done, List, [], ◌∷◌, ◌++◌, length,
  Bool, true, ltb, Bool-cases, Option, none, ◌>>=◌, inl, inr, ◌⊎◌, arith, length-append,
}
use zephyrlog.LogLine.{LogLine}
use zephyrlog.LogLine.Encode.{Memory}
use zephyrlog.LogLine.Stringify.{Format, stringify}
use zephyrlog.FileWriter.{
  File, FileWriter, close, roll_file, put_text, write, file_writer, write_all,
}
use zephyrlog.FileWriter.Rolling.{
  >>=-eq-done, joined, AllAbove, HasWritten, render, file_writer-HasWritten, write_all-HasWritten,
}

-- Files above a size have so many bytes together.
length-joined :
    (size : ℕ) (files : List File)
    → AllAbove size files
    → length files * (size + 1) ≤ length (joined files)
unfolding joined
length-joined size [] a = omega arith
length-joined size (file ∷ rest) (h, a) =
    omega (arith, length-joined size rest a, length-append file.contents (joined rest))

-- With fewer bytes than 2 ^ 32 full files have, nothing has been erased.
none_erased :
    (size : ℕ) (erased closed : List File)
    → (erased ≡ []) ⊎ (length closed + 1 ≡ 2 ^ 32)
    → AllAbove size (erased ++ closed)
    → length (joined (erased ++ closed)) < 2 ^ 32 * (size + 1)
    → erased ≡ []
none_erased size erased closed (inl nothing) a h = nothing
none_erased size [] closed (inr full) a h = refl
none_erased size (file ∷ erased) closed (inr full) a h =
    let files : List File = file ∷ (erased ++ closed) in
    let more : length files ≡ 2 ^ 32 + (length files - 2 ^ 32) =
      omega (arith, length-append erased closed) in
    absurd (omega (arith, length-joined size files a, ap (λ (n : ℕ). n * (size + 1)) more))

pub HasWritten-whole :
    (w : FileWriter) (text : List ℕ) (v : HasWritten w text)
    → length text < 2 ^ 32 * (w.roll_size + 1)
    → joined w.closed ++ v.file.contents ≡ text
HasWritten-whole w text v h =
    let whole = ap (length {0}) v.text_eq in
    let long = length-append (joined (v.erased ++ w.closed)) v.file.contents in
    let nothing =
      none_erased w.roll_size v.erased w.closed v.kept v.rolled (omega (arith, whole, long, h)) in
    ap (λ (fs : List File). joined (fs ++ w.closed) ++ v.file.contents) (sym nothing) ∙ v.text_eq

module _ (opens : List ℕ → Bool) where
  roll_file-roll_size : (w : FileWriter) → (roll_file opens w).roll_size ≡ w.roll_size
  unfolding roll_file close
  roll_file-roll_size w = ground arith

  start-roll_size :
      (directory name : List ℕ) (roll_size : ℕ) (terminal_output : Bool)
      → (file_writer opens directory name roll_size terminal_output).roll_size ≡ roll_size
  unfolding file_writer
  start-roll_size directory name roll_size terminal_output = roll_file-roll_size _

  put_text-roll_size :
      (text : List ℕ) (file : File) (w : FileWriter)
      → (put_text opens text file w).roll_size ≡ w.roll_size
  unfolding put_text
  put_text-roll_size text file w =
      elim (Bool-cases (ltb w.roll_size (w.bytes_written + length text))) [
        | inl over ↦ rw over (roll_file-roll_size _)
        | inr under ↦ rw under
      ]

  module _ (fmt : Format) (mem : Memory) where
    write-roll_size :
        (logline : LogLine) (w w' : FileWriter)
        → write opens fmt mem logline w ≡ done w'
        → w'.roll_size ≡ w.roll_size
    unfolding write
    write-roll_size logline w w' e = by_file w.os e
      where
        by_file :
            (o : Option File)
            → (elim o [
              | none ↦ done w
              | some file ↦ stringify fmt mem logline >>= λ text. done (put_text opens text file w)
            ])
              ≡ done w'
            → w'.roll_size ≡ w.roll_size
        by_file none e = let same : w ≡ w' = cc e in ap (λ (u : FileWriter). u.roll_size) (sym same)
        by_file (some file) e =
            let (text, _, e₂) = >>=-eq-done (stringify fmt mem logline) _ e in
            let same : put_text opens text file w ≡ w' = cc e₂ in
            ap (λ (u : FileWriter). u.roll_size) (sym same) ∙ put_text-roll_size text file w

    write_all-roll_size :
        (lines : List LogLine) (w w' : FileWriter)
        → write_all opens fmt mem lines w ≡ done w'
        → w'.roll_size ≡ w.roll_size
    unfolding write_all
    write_all-roll_size [] w w' e = cc e
    write_all-roll_size (logline ∷ rest) w w' e =
        let (w₁, e₁, e₂) = >>=-eq-done (write opens fmt mem logline w) _ e in
        write_all-roll_size rest w₁ w' e₂ ∙ write-roll_size logline w w₁ e₁

module _ (opens : List ℕ → Bool) (always : (path : List ℕ) → opens path ≡ true) where
  -- Where every file can be opened, writing lines that all have texts with a new writer returns; if
  -- the texts have fewer than 2^32 * (rollSize + 1) bytes together, a file is then open, and the
  -- files that are there, the closed ones and the open one, hold exactly these texts, whole and in
  -- order: no file has been opened a second time.
  pub write_all-whole :
      (fmt : Format) (mem : Memory) (directory name : List ℕ) (roll_size : ℕ)
      (terminal_output : Bool) (lines : List LogLine) (text : List ℕ)
      → render fmt mem lines ≡ done text
      → length text < 2 ^ 32 * (roll_size + 1)
      → (w : FileWriter) × (file : File) × (write_all opens fmt mem lines
            (file_writer opens directory name roll_size terminal_output)
          ≡ done w)
        × (w.os ≡ some file)
        × (joined w.closed ++ file.contents ≡ text)
  write_all-whole fmt mem directory name roll_size terminal_output lines text e short =
      let start = file_writer-HasWritten opens always directory name roll_size terminal_output in
      let (w, returns, v) =
        write_all-HasWritten opens always fmt mem lines
          (file_writer opens directory name roll_size terminal_output) [] text start e in
      (
        w,
        v.file,
        returns,
        v.os_eq,
        HasWritten-whole w text v (
            omega (
              arith,
              short,
              write_all-roll_size opens fmt mem lines _ w returns,
              start-roll_size opens directory name roll_size terminal_output,
            )),
      )
