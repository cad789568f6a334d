-- ===== src/FileWriter/Paths.antt =====
-- The paths of the files of a `FileWriter` (include/zephyrlog/filewriter.h), whose numbers have 32
-- bits and start again at 0, and what is erased when a path is used again.
use zephyrlog.Prelude.{
  ℕ, suc, ◌+◌, ◌^◌, ◌%◌, ◌≤◌, ◌<◌, ◌≡◌, refl, sym, ap, ◌∙◌, subst, ◌==◌, List, [], ◌∷◌, ◌++◌,
  length, false, ◌⊎◌, inl, inr, arith, Bool-cases,
}
use mathlib.Core.List.{append_cancel_left, append_cancel_right}
use zephyrlog.Prelude.Decimal.{decimal, value, value-decimal}
use zephyrlog.Prelude.Text.{codes, same_name, same_name_refl, same_name-eq}
use zephyrlog.FileWriter.{File, file_path, erase}

-- The files have the paths of the numbers from `n` on.
abbrev pub Numbered : List ℕ → ℕ → List File → Type 0
Numbered name n [] = Unit
Numbered name n (file ∷ rest) =
    (file.path ≡ file_path name (n % 2 ^ 32)) × Numbered name (suc n) rest

pub Numbered-snoc :
    (name : List ℕ) (n : ℕ) (files : List File) (file : File)
    → Numbered name n files
    → file.path ≡ file_path name ((n + length files) % 2 ^ 32)
    → Numbered name n (files ++ file ∷ [])
Numbered-snoc name n [] file a e =
    (e ∙ ap (λ (k : ℕ). file_path name (k % 2 ^ 32)) (omega arith), tt)
Numbered-snoc name n (f ∷ files) file (e₁, a) e = (
  e₁,
  Numbered-snoc name (suc n) files file a
      (e ∙ ap (λ (k : ℕ). file_path name (k % 2 ^ 32)) (omega arith)),
)

pub Numbered-append :
    (name : List ℕ) (n : ℕ) (files more : List File)
    → Numbered name n (files ++ more)
    → Numbered name (length files + n) more
Numbered-append name n [] more a = subst (λ (k : ℕ). Numbered name k more) (omega arith) a
Numbered-append name n (f ∷ files) more (_, a) =
    subst (λ (k : ℕ). Numbered name k more) (omega arith)
      (Numbered-append name (suc n) files more a)

file_path_inj :
    (name : List ℕ) (a b : ℕ)
    → a < 2 ^ 64
    → b < 2 ^ 64
    → file_path name a ≡ file_path name b
    → a ≡ b
unfolding file_path
file_path_inj name a b h k e =
    let front = append_cancel_left name _ _ e in
    let dot = append_cancel_left (codes ".") _ _ front in
    let digits = append_cancel_right (decimal a) (decimal b) (codes ".txt") dot in
    sym (value-decimal a h) ∙ ap value digits ∙ value-decimal b k

-- Two numbers less than 2 ^ 32 apart have different paths.
paths-apart :
    (name : List ℕ) (n k : ℕ)
    → n < k
    → k < n + 2 ^ 32
    → same_name (file_path name (n % 2 ^ 32)) (file_path name (k % 2 ^ 32)) ≡ false
paths-apart name n k h h' =
    elim (Bool-cases (same_name (file_path name (n % 2 ^ 32)) (file_path name (k % 2 ^ 32)))) [
      | inl same ↦
          let eq =
            file_path_inj name (n % 2 ^ 32) (k % 2 ^ 32) (omega arith) (omega arith)
              (same_name-eq _ _ same) in
          absurd (omega arith)
      | inr e ↦ e
    ]

erase-apart :
    (name : List ℕ) (n k : ℕ) (files : List File)
    → Numbered name n files
    → n + length files ≤ k
    → k < n + 2 ^ 32
    → erase (file_path name (k % 2 ^ 32)) files ≡ files
unfolding erase
erase-apart name n k [] a h h' = refl
erase-apart name n k (file ∷ rest) (e, a) h h' =
    let differs =
      ap (λ (p : List ℕ). same_name p (file_path name (k % 2 ^ 32))) e
      ∙ paths-apart name n k (omega arith) h' in
    rw differs (ap (◌∷◌ file) (erase-apart name (suc n) k rest a (omega arith) (omega arith)))

-- What opening the next file erases: nothing, or of 2 ^ 32 files the oldest.
pub erase_lem :
    (name : List ℕ) (n : ℕ) (files : List File)
    → Numbered name n files
    → length files ≤ 2 ^ 32
    → (gone : List File) × (rest : List File) × (erase
          (file_path name ((n + length files) % 2 ^ 32))
          files
        ≡ rest)
      × (gone ++ rest ≡ files)
      × (length rest < 2 ^ 32)
      × ((gone ≡ []) ⊎ (length rest + 1 ≡ 2 ^ 32))
unfolding erase
erase_lem name n [] a h = ([], [], refl, refl, omega arith, inl refl)
erase_lem name n (file ∷ rest) (e, a) h = elim (Bool-cases (length rest + 1 == 2 ^ 32)) [
  | inl all ↦
      let count : length rest + 1 ≡ 2 ^ 32 = ground arith in
      let again : n % 2 ^ 32 ≡ (n + suc (length rest)) % 2 ^ 32 = omega arith in
      let same =
        ap (λ (p : List ℕ). same_name p (file_path name ((n + suc (length rest)) % 2 ^ 32)))
          (e ∙ ap (file_path name) again)
        ∙ same_name_refl (file_path name ((n + suc (length rest)) % 2 ^ 32)) in
      (
        file ∷ [],
        rest,
        rw same
            (erase-apart name (suc n) (n + suc (length rest)) rest a (omega arith) (omega arith)),
        refl,
        omega arith,
        inr count,
      )
  | inr fewer ↦ (
    [],
    file ∷ rest,
    erase-apart name n (n + suc (length rest)) (file ∷ rest) (e, a) (omega arith)
        (ground (arith, h, fewer)),
    refl,
    ground (arith, h, fewer),
    inl refl,
  )
]
