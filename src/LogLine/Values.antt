-- ===== src/LogLine/Values.antt =====
-- The bytes that one right-hand side of `<<` stands for, and what `operator<<` does with them.
use zephyrlog.Prelude.{
  ℕ, ◌+◌, ◌^◌, ◌<◌, ◌≡◌, refl, sym, Option, none, some, List, [], ◌∷◌, ◌++◌, length, arith, ap, ◌∙◌,
  subst, append_assoc, append-nil, length-append, ◌==◌, if◌then◌else◌, Bool-cases, inl, inr,
}
use zephyrlog.Prelude.Bytes.{to_bytes, length-to_bytes}
use zephyrlog.Prelude.Int.{InRange, to_word}
use zephyrlog.LogLine.{LogLine, ArgType, type_byte, size_max, ◌>>=◌, encode_fixed, encode_cstring}
use zephyrlog.LogLine.Encode.{
  Memory, Value, append, append_all, encode_char, encode_int32, encode_uint32, encode_int64,
  encode_uint64, encode_double, encode_string_literal, encode_cstring_at,
}
use zephyrlog.LogLine.Validity.{IsValid, used, length-used}
use zephyrlog.LogLine.Encoded.{Appends, encode_fixed_lem, encode_cstring_lem}

-- The values of the C++ types.
abbrev pub IsInRange : Value → Type 0
IsInRange (Value.char c) = c < 256
IsInRange (Value.int32 z) = InRange (2 ^ 31) z
IsInRange (Value.uint32 n) = n < 2 ^ 32
IsInRange (Value.int64 z) = InRange (2 ^ 63) z
IsInRange (Value.uint64 n) = n < 2 ^ 64
IsInRange (Value.double n) = n < 2 ^ 64
IsInRange (Value.string s) = length s < 2 ^ 64
IsInRange (Value.pointer p) = p < 2 ^ 64
IsInRange (Value.array p) = p < 2 ^ 64

abbrev pub AllInRange : List Value → Type 0
AllInRange [] = Unit
AllInRange (v ∷ vs) = IsInRange v × AllInRange vs

-- The characters behind a `const char*`: none behind the null pointer.
unfoldable pub chars_at : Memory → ℕ → Option (List ℕ)
chars_at mem p = if p == 0 then some [] else mem p

unfoldable pub encoded_text : List ℕ → List ℕ
encoded_text s = type_byte ArgType.cstring ∷ (to_bytes 8 (length s) ++ s)

unfoldable pub encoding : Memory → Value → Option (List ℕ)
encoding mem (Value.char c) = some (type_byte ArgType.char ∷ to_bytes 1 c)
encoding mem (Value.int32 z) = some (type_byte ArgType.int32 ∷ to_bytes 4 (to_word (2 ^ 31) z))
encoding mem (Value.uint32 n) = some (type_byte ArgType.uint32 ∷ to_bytes 4 n)
encoding mem (Value.int64 z) = some (type_byte ArgType.int64 ∷ to_bytes 8 (to_word (2 ^ 63) z))
encoding mem (Value.uint64 n) = some (type_byte ArgType.uint64 ∷ to_bytes 8 n)
encoding mem (Value.double n) = some (type_byte ArgType.double ∷ to_bytes 8 n)
encoding mem (Value.string s) = some (encoded_text s)
encoding mem (Value.pointer p) = chars_at mem p >>= λ s. some (encoded_text s)
encoding mem (Value.array p) = some (type_byte ArgType.string_literal ∷ to_bytes 8 p)

unfoldable pub encodings : Memory → List Value → Option (List ℕ)
encodings mem [] = some []
encodings mem (v ∷ vs) = do front ← encoding mem v; back ← encodings mem vs; some (front ++ back)

pub >>=-eq-some {ℓ κ} :
    {A : Type ℓ} {B : Type κ} (o : Option A) (f : A → Option B) {b : B}
    → (o >>= f) ≡ some b
    → (a : A) × (o ≡ some a) × (f a ≡ some b)
>>=-eq-some none f h = cc
>>=-eq-some (some a) f h = (a, refl, h)

pub encodings-cons :
    (mem : Memory) (v : Value) (vs : List Value) {bytes : List ℕ}
    → encodings mem (v ∷ vs) ≡ some bytes
    → (front : List ℕ) × (back : List ℕ) × (encoding mem v ≡ some front)
      × (encodings mem vs ≡ some back)
      × (bytes ≡ front ++ back)
unfolding encodings
encodings-cons mem v vs h =
    let (front, e, h₁) = >>=-eq-some (encoding mem v) _ h in
    let (back, e₂, h₂) = >>=-eq-some (encodings mem vs) _ h₁ in (front, back, e, e₂, cc)

abbrev HasRoom : LogLine → List ℕ → Type 0
HasRoom l bytes = l.bytes_used + length bytes < size_max

-- To prove what a call appends, take the bytes as they are written.
of_some :
    (l : LogLine) {written bytes : List ℕ} (o : Option LogLine)
    → (HasRoom l written → Appends l written o)
    → some written ≡ some bytes
    → HasRoom l bytes
    → Appends l bytes o
of_some l {written} {bytes} o k e =
    let same : written ≡ bytes = cc in subst (λ b. HasRoom l b → Appends l b o) same k

module _ {l : LogLine} where
  append_text :
      (s : List ℕ)
      → IsValid l
      → HasRoom l (encoded_text s)
      → Appends l (encoded_text s) (encode_cstring s (length s) l)
  unfolding encoded_text
  append_text s v h =
      encode_cstring_lem s v
        (omega (arith, length-append (to_bytes 8 (length s)) s, length-to_bytes 8 (length s)))

  append_fixed :
      (t : ArgType) (value : List ℕ)
      → IsValid l
      → HasRoom l (type_byte t ∷ value)
      → Appends l (type_byte t ∷ value) (encode_fixed t value l)
  append_fixed t value v h = encode_fixed_lem t value v (omega arith)

  append_pointer :
      (mem : Memory) (p : ℕ) {s : List ℕ}
      → chars_at mem p ≡ some s
      → IsValid l
      → HasRoom l (encoded_text s)
      → Appends l (encoded_text s) (encode_cstring_at mem p l)
  unfolding chars_at encode_cstring_at
  append_pointer mem p {s} e v h = elim (Bool-cases (p == 0)) [
    | inl null ↦
        let empty : some [] ≡ some s = rw null at e in
        rw null (of_some l (encode_cstring [] 0 l) (append_text [] v) (cc empty) h)
    | inr valid ↦
        let found : mem p ≡ some s = rw valid at e in rw (valid, found) (append_text s v h)
  ]

  -- `operator<<` succeeds, keeps the invariant, and appends the encoding of its right-hand side.
  pub append_lem :
      (mem : Memory) (x : Value) {bytes : List ℕ}
      → IsValid l
      → encoding mem x ≡ some bytes
      → HasRoom l bytes
      → Appends l bytes (append mem x l)
  unfolding encoding append encode_char encode_int32 encode_uint32 encode_int64 encode_uint64
      encode_double encode_string_literal
  append_lem mem (Value.char c) v e h = of_some l _ (append_fixed ArgType.char _ v) e h
  append_lem mem (Value.int32 z) v e h = of_some l _ (append_fixed ArgType.int32 _ v) e h
  append_lem mem (Value.uint32 n) v e h = of_some l _ (append_fixed ArgType.uint32 _ v) e h
  append_lem mem (Value.int64 z) v e h = of_some l _ (append_fixed ArgType.int64 _ v) e h
  append_lem mem (Value.uint64 n) v e h = of_some l _ (append_fixed ArgType.uint64 _ v) e h
  append_lem mem (Value.double n) v e h = of_some l _ (append_fixed ArgType.double _ v) e h
  append_lem mem (Value.array p) v e h = of_some l _ (append_fixed ArgType.string_literal _ v) e h
  append_lem mem (Value.string s) v e h = of_some l _ (append_text s v) e h
  append_lem mem (Value.pointer p) v e h =
      let (s, e₁, e₂) = >>=-eq-some (chars_at mem p) _ e in
      of_some l _ (append_pointer mem p e₁ v) e₂ h

-- On a well formed line, a row of `<<` whose values all have encodings succeeds, keeps the line
-- well formed, and appends the encodings in order to the bytes in use, if the bytes in use and the
-- encodings together are fewer than 2^64.
pub append_all_lem :
    (mem : Memory) (xs : List Value) {l : LogLine} {bytes : List ℕ}
    → IsValid l
    → encodings mem xs ≡ some bytes
    → HasRoom l bytes
    → Appends l bytes (append_all mem xs l)
unfolding encodings append_all
append_all_lem mem [] {l} {bytes} v e h =
    let empty : [] ≡ bytes = cc in
    (l, refl, v, sym (append-nil (used l)) ∙ ap (◌++◌ (used l)) empty)
append_all_lem mem (x ∷ xs) {l} {bytes} v e h =
    let (front, back, e₁, e₂, e₃) = encodings-cons mem x xs e in
    let long = length-append front back in
    let size = ap (length {0}) e₃ in
    let (l₁, s₁, v₁, u₁) = append_lem mem x v e₁ (omega arith) in
    let (l₂, s₂, v₂, u₂) = append_all_lem mem xs {l = l₁} v₁ e₂ (
      omega
        (arith, length-used v, length-used v₁, ap (length {0}) u₁, length-append (used l) front)) in
    (l₂, rw s₁ s₂, v₂, rw (u₂, u₁, e₃) (append_assoc (used l) front back))
