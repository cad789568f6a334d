-- ===== src/FileWriter.antt =====
-- `FileWriter` (include/zephyrlog/filewriter.h): prints each line into the current file, and goes on
-- to the next file once more than `roll_size` bytes are in it. Whether a file can be opened is up to
-- the system, and is the parameter `opens`; an open file takes all that is written to it. Opening
-- erases the file that had the path before.
pub mod Paths
pub mod Rolling
pub mod Whole
pub mod Dropped
mod Tests
use zephyrlog.Prelude.{
  ℕ, zero, ◌+◌, ◌^◌, ◌%◌, Option, none, some, Outcome, done, ◌>>=◌, List, [], ◌∷◌, ◌++◌, length,
  ltb, Bool, if◌then◌else◌,
}
use zephyrlog.Prelude.Decimal.{decimal}
use zephyrlog.Prelude.Text.{codes, same_name}
use zephyrlog.LogLine.{LogLine}
use zephyrlog.LogLine.Encode.{Memory}
use zephyrlog.LogLine.Stringify.{Format, stringify}

pub record File : Type 0 where
  pub path : List ℕ
  pub contents : List ℕ

-- `os` is `none` where no file is open. `closed` is what there is of the earlier files of this
-- writer, oldest first, and `terminal` what went to `std::cout`. `bytes_written` is a `streamoff`,
-- taken as a number without bound.
pub record FileWriter : Type 0 where
  pub file_number : ℕ
  pub bytes_written : ℕ
  pub roll_size : ℕ
  pub name : List ℕ
  pub terminal_output : Bool
  pub os : Option File
  pub closed : List File
  pub terminal : List ℕ

unfoldable pub file_path : List ℕ → ℕ → List ℕ
file_path name number = name ++ (codes "." ++ (decimal number ++ codes ".txt"))

-- The file is flushed and closed, if one is open.
unfoldable pub close : FileWriter → FileWriter
close w = elim w.os [
  | none ↦ w
  | some file ↦ record w { os = none; closed = w.closed ++ file ∷ [] }
]

-- The files with another path.
unfoldable pub erase : List ℕ → List File → List File
erase path [] = []
erase path (file ∷ rest) =
    let kept = erase path rest in if same_name file.path path then kept else file ∷ kept

module _ (opens : List ℕ → Bool) where
  -- `m_os->open(logFileName, std::ofstream::out | std::ofstream::trunc)`, among the files closed
  -- before: the new file, if it can be opened, and those that are left.
  unfoldable pub open_file : List ℕ → List File → Option File × List File
  open_file path files =
      if opens path
      then (some (record { path = path; contents = [] }), erase path files)
      else (none, files)

  unfoldable pub roll_file : FileWriter → FileWriter
  roll_file w =
      let w = close w in
      let number = (w.file_number + 1) % 2 ^ 32 in
      let (os, closed) = open_file (file_path w.name number) w.closed in
      record w { file_number = number; bytes_written = 0; os = os; closed = closed }

  unfoldable pub file_writer : (directory name : List ℕ) → ℕ → Bool → FileWriter
  file_writer directory name roll_size terminal_output = roll_file (record {
    file_number = 0;
    bytes_written = 0;
    roll_size = roll_size;
    name = directory ++ name;
    terminal_output = terminal_output;
    os = none;
    closed = [];
    terminal = [];
  })

  -- What `write` does with the text of the line.
  unfoldable pub put_text : List ℕ → File → FileWriter → FileWriter
  put_text text file w =
      let w' = record w {
        terminal = if w.terminal_output then w.terminal ++ text else w.terminal;
        os = some (record file { contents = file.contents ++ text });
        bytes_written = w.bytes_written + length text;
      } in
      if ltb w'.roll_size w'.bytes_written then roll_file w' else w'

  unfoldable pub write : Format → Memory → LogLine → FileWriter → Outcome FileWriter
  write fmt mem logline w = elim w.os [
    | none ↦ done w
    | some file ↦ stringify fmt mem logline >>= λ text. done (put_text text file w)
  ]

  -- `write` on one line after the other.
  unfoldable pub write_all : Format → Memory → List LogLine → FileWriter → Outcome FileWriter
  write_all fmt mem [] w = done w
  write_all fmt mem (logline ∷ rest) w = write fmt mem logline w >>= write_all fmt mem rest
