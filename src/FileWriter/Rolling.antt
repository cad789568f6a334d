-- ===== src/FileWriter/Rolling.antt =====
-- What is in the files of a `FileWriter`.
use zephyrlog.Prelude.{
  ℕ, ◌+◌, ◌^◌, ◌%◌, ◌≤◌, ◌<◌, ◌≡◌, refl, sym, ap, ◌∙◌, subst, some, Outcome, done, fault,
  out_of_fuel, ◌>>=◌, List, [], ◌∷◌, ◌++◌, length, ltb, Bool, true, arith, append_assoc, append-nil,
  length-append, Bool-cases, inl, inr, ◌⊎◌, if◌then◌else◌,
}
use zephyrlog.LogLine.{LogLine}
use zephyrlog.LogLine.Encode.{Memory}
use zephyrlog.LogLine.Stringify.{Format, stringify}
use zephyrlog.FileWriter.Paths.{Numbered, Numbered-snoc, Numbered-append, erase_lem}
use zephyrlog.FileWriter.{
  erase, File, FileWriter, file_path, close, open_file, roll_file, file_writer, put_text, write,
  write_all,
}

-- The texts of the lines, one behind the other.
unfoldable pub render : Format → Memory → List LogLine → Outcome (List ℕ)
render fmt mem [] = done []
render fmt mem (logline ∷ rest) = do
  text ← stringify fmt mem logline
  more ← render fmt mem rest
  done (text ++ more)

pub >>=-eq-done {ℓ κ} :
    {A : Type ℓ} {B : Type κ} (o : Outcome A) (f : A → Outcome B) {b : B}
    → (o >>= f) ≡ done b
    → (a : A) × (o ≡ done a) × (f a ≡ done b)
>>=-eq-done (done a) f h = (a, refl, h)
>>=-eq-done fault f h = cc
>>=-eq-done out_of_fuel f h = cc

pub render-cons :
    (fmt : Format) (mem : Memory) (logline : LogLine) (rest : List LogLine) {text : List ℕ}
    → render fmt mem (logline ∷ rest) ≡ done text
    → (front : List ℕ) × (back : List ℕ) × (stringify fmt mem logline ≡ done front)
      × (render fmt mem rest ≡ done back)
      × (text ≡ front ++ back)
unfolding render
render-cons fmt mem logline rest h =
    let (front, e, h₁) = >>=-eq-done (stringify fmt mem logline) _ h in
    let (back, e₂, h₂) = >>=-eq-done (render fmt mem rest) _ h₁ in (front, back, e, e₂, cc)

-- All that is in the files, oldest first.
unfoldable pub joined : List File → List ℕ
joined [] = []
joined (file ∷ rest) = file.contents ++ joined rest

joined-snoc :
    (files : List File) (file : File) → joined (files ++ file ∷ []) ≡ joined files ++ file.contents
unfolding joined
joined-snoc [] file = append-nil file.contents
joined-snoc (f ∷ files) file =
    ap (◌++◌ f.contents) (joined-snoc files file)
    ∙ sym (append_assoc f.contents (joined files) file.contents)

-- Every file is larger than this.
abbrev pub AllAbove : ℕ → List File → Type 0
AllAbove size [] = Unit
AllAbove size (file ∷ rest) = (size < length file.contents) × AllAbove size rest

AllAbove-snoc :
    (size : ℕ) (files : List File) (file : File)
    → AllAbove size files
    → size < length file.contents
    → AllAbove size (files ++ file ∷ [])
AllAbove-snoc size [] file a h = (h, tt)
AllAbove-snoc size (f ∷ files) file (h₁, a) h = (h₁, AllAbove-snoc size files file a h)

-- A file is open, within the limit, and the earlier ones are above it. With those that have been
-- erased, the oldest, all the files hold `text`; and no file is erased before there are 2 ^ 32.
pub record HasWritten (w : FileWriter) (text : List ℕ) : Type 0 where
  pub file : File
  pub erased : List File
  pub os_eq : w.os ≡ some file
  pub text_eq : joined (erased ++ w.closed) ++ file.contents ≡ text
  pub kept : (erased ≡ []) ⊎ (length w.closed + 1 ≡ 2 ^ 32)
  pub few : length w.closed < 2 ^ 32
  pub size_eq : w.bytes_written ≡ length file.contents
  pub within : length file.contents ≤ w.roll_size
  pub rolled : AllAbove w.roll_size (erased ++ w.closed)
  pub number_eq : w.file_number ≡ (1 + length (erased ++ w.closed)) % 2 ^ 32
  pub numbered : Numbered w.name 1 (erased ++ w.closed)
  pub path_eq : file.path ≡ file_path w.name w.file_number

-- Nothing is erased before there are 2 ^ 32 files, with one more closed.
still_kept :
    (erased gone rest : List File) (closed : ℕ)
    → (erased ≡ []) ⊎ (closed + 1 ≡ 2 ^ 32)
    → (gone ≡ []) ⊎ (length rest + 1 ≡ 2 ^ 32)
    → length rest < 2 ^ 32
    → length gone + length rest ≡ closed + 1
    → (erased ++ gone ≡ []) ⊎ (length rest + 1 ≡ 2 ^ 32)
still_kept erased gone rest closed k (inr full) few count = inr full
still_kept erased gone rest closed (inl e) (inl g) few count = inl (rw (e, g))
still_kept erased gone rest closed (inr full) (inl g) few count =
    absurd (omega (arith, ap (length {0}) g))

module _ (opens : List ℕ → Bool) (always : (path : List ℕ) → opens path ≡ true) where
  pub file_writer-HasWritten :
      (directory name : List ℕ) (roll_size : ℕ) (terminal_output : Bool)
      → HasWritten (file_writer opens directory name roll_size terminal_output) []
  unfolding file_writer roll_file close open_file erase joined
  file_writer-HasWritten directory name roll_size terminal_output =
      let first = always (file_path (directory ++ name) 1) in
      record {
        file = record { path = file_path (directory ++ name) 1; contents = [] };
        erased = [];
        os_eq = rw first;
        text_eq = rw first;
        kept = inl refl;
        few = rw first (omega arith);
        size_eq = omega arith;
        within = omega arith;
        rolled = rw first tt;
        number_eq = rw first;
        numbered = rw first tt;
        path_eq = refl;
      }

  -- The writer with the line in its file, before the test for a full one.
  abbrev extended : FileWriter → File → List ℕ → FileWriter
  extended w file text = record w {
    terminal = if w.terminal_output then w.terminal ++ text else w.terminal;
    os = some (record file { contents = file.contents ++ text });
    bytes_written = w.bytes_written + length text;
  }

  -- A file above the limit is closed and the next one opened.
  roll_file-HasWritten :
      (w : FileWriter) (before text : List ℕ) (v : HasWritten w before)
      → w.roll_size < length (v.file.contents ++ text)
      → HasWritten (roll_file opens (extended w v.file text)) (before ++ text)
  unfolding roll_file close open_file
  roll_file-HasWritten w before text v over =
      let grown : File = record v.file { contents = v.file.contents ++ text } in
      let files : List File = w.closed ++ grown ∷ [] in
      let earlier : List File = v.erased ++ w.closed in
      let numbers : Numbered w.name 1 (earlier ++ grown ∷ []) =
        Numbered-snoc w.name 1 earlier grown v.numbered
          (v.path_eq ∙ ap (file_path w.name) v.number_eq) in
      let shape : earlier ++ grown ∷ [] ≡ v.erased ++ files =
        append_assoc v.erased w.closed (grown ∷ []) in
      let more : length files ≡ length w.closed + 1 = length-append w.closed (grown ∷ []) in
      let total : length earlier ≡ length v.erased + length w.closed =
        length-append v.erased w.closed in
      let (gone, rest, erases, split, few, kept) =
        erase_lem w.name (length v.erased + 1) files
          (Numbered-append w.name 1 v.erased files (subst (Numbered w.name 1) shape numbers))
          (omega (arith, v.few)) in
      let number : (length v.erased + 1 + length files) % 2 ^ 32 ≡ (w.file_number + 1) % 2 ^ 32 =
        omega (arith, v.number_eq) in
      let left : erase (file_path w.name ((w.file_number + 1) % 2 ^ 32)) files ≡ rest =
        ap (λ (k : ℕ). erase (file_path w.name k) files) (sym number) ∙ erases in
      let whole : earlier ++ grown ∷ [] ≡ (v.erased ++ gone) ++ rest =
        shape
        ∙ ap (λ (fs : List File). v.erased ++ fs) (sym split)
        ∙ sym (append_assoc v.erased gone rest) in
      let count : length ((v.erased ++ gone) ++ rest) ≡ length earlier + 1 =
        sym (ap (length {0}) whole) ∙ length-append earlier (grown ∷ []) in
      rw (always (file_path w.name ((w.file_number + 1) % 2 ^ 32)), left)
        record {
          file = record { path = file_path w.name ((w.file_number + 1) % 2 ^ 32); contents = [] };
          erased = v.erased ++ gone;
          os_eq = refl;
          text_eq =
              append-nil _
              ∙ ap joined (sym whole)
              ∙ joined-snoc earlier grown
              ∙ sym (append_assoc (joined earlier) v.file.contents text)
              ∙ ap (λ (t : List ℕ). t ++ text) v.text_eq;
          kept =
              still_kept v.erased gone rest (length w.closed) v.kept kept few
                (omega (arith, length-append gone rest, ap (length {0}) split));
          few = few;
          size_eq = omega arith;
          within = omega arith;
          rolled =
              subst (AllAbove w.roll_size) whole
                (AllAbove-snoc w.roll_size earlier grown v.rolled over);
          number_eq = omega (arith, v.number_eq, count);
          numbered = subst (Numbered w.name 1) whole numbers;
          path_eq = refl;
        }

  put_text-HasWritten :
      (w : FileWriter) (before text : List ℕ) (v : HasWritten w before)
      → HasWritten (put_text opens text v.file w) (before ++ text)
  unfolding put_text
  put_text-HasWritten w before text v =
      let size = length-append v.file.contents text in
      elim (Bool-cases (ltb w.roll_size (w.bytes_written + length text))) [
        | inl over ↦
            rw over (roll_file-HasWritten w before text v (ground (arith, over, v.size_eq, size)))
        | inr under ↦ rw under record {
          file = record v.file { contents = v.file.contents ++ text };
          erased = v.erased;
          os_eq = refl;
          text_eq =
              sym (append_assoc (joined (v.erased ++ w.closed)) v.file.contents text)
              ∙ ap (λ (t : List ℕ). t ++ text) v.text_eq;
          kept = v.kept;
          few = v.few;
          size_eq = omega (arith, v.size_eq, size);
          within = ground (arith, v.size_eq, size);
          rolled = v.rolled;
          number_eq = v.number_eq;
          numbered = v.numbered;
          path_eq = v.path_eq;
        }
      ]

  module _ (fmt : Format) (mem : Memory) where
    -- `write` puts the text of the line behind what is in the files.
    pub write-HasWritten :
        (w : FileWriter) (before text : List ℕ) (logline : LogLine)
        → HasWritten w before
        → stringify fmt mem logline ≡ done text
        → (w' : FileWriter) × (write opens fmt mem logline w ≡ done w')
          × HasWritten w' (before ++ text)
    unfolding write
    write-HasWritten w before text logline v e =
        (put_text opens text v.file w, rw (v.os_eq, e), put_text-HasWritten w before text v)

    -- Where it returns, the line had a text.
    pub write-text :
        (w w' : FileWriter) (before : List ℕ) (logline : LogLine)
        → HasWritten w before
        → write opens fmt mem logline w ≡ done w'
        → (text : List ℕ) × (stringify fmt mem logline ≡ done text) × HasWritten w' (before ++ text)
    unfolding write
    write-text w w' before logline v e =
        let (text, e₁, e₂) = >>=-eq-done (stringify fmt mem logline) _ (rw v.os_eq at e) in
        (
          text,
          e₁,
          subst (λ (w : FileWriter). HasWritten w (before ++ text)) (cc e₂)
              (put_text-HasWritten w before text v),
        )

    -- Where every file can be opened, on a writer whose files hold a text, writing lines that all
    -- have texts returns, and puts these texts behind it, whole and in order, over the files that
    -- are there and those erased before them; none is erased unless 2^32 files are there. The open
    -- file then has at most `rollSize` bytes, which are counted, each earlier one more than that,
    -- and all have the paths of the numbers from 1 on, modulo 2^32, in order.
    pub write_all-HasWritten :
        (lines : List LogLine) (w : FileWriter) (before text : List ℕ)
        → HasWritten w before
        → render fmt mem lines ≡ done text
        → (w' : FileWriter) × (write_all opens fmt mem lines w ≡ done w')
          × HasWritten w' (before ++ text)
    unfolding write_all render
    write_all-HasWritten [] w before text v e =
        let empty : [] ≡ text = cc e in
        (w, refl, subst (HasWritten w) (sym (append-nil before) ∙ ap (◌++◌ before) empty) v)
    write_all-HasWritten (logline ∷ rest) w before text v e =
        let (front, back, e₁, e₂, whole) = render-cons fmt mem logline rest e in
        let (w₁, s₁, v₁) = write-HasWritten w before front logline v e₁ in
        let (w₂, s₂, v₂) = write_all-HasWritten rest w₁ (before ++ front) back v₁ e₂ in
        (
          w₂,
          rw s₁ s₂,
          subst (HasWritten w₂) (append_assoc before front back ∙ ap (◌++◌ before) (sym whole)) v₂,
        )
