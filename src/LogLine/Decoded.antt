-- ===== src/LogLine/Decoded.antt =====
-- One encoded value as the loop of `stringify` reads it back, and what it shows in the log.
use zephyrlog.Prelude.{
  ℕ, ◌+◌, ◌^◌, ◌<◌, ◌≡◌, refl, sym, ap, subst, ◌∙◌, Option, some, List, [], ◌∷◌, ◌++◌, length,
  arith, ltb_of_lt, done, append_assoc, length-append,
}
use native.Mathlib.Nat.{add_assoc}
use zephyrlog.Prelude.Bytes.{to_bytes, read-append, length-to_bytes, of_bytes-to_bytes}
use zephyrlog.Prelude.Decimal.{decimal}
use zephyrlog.Prelude.Int.{ℤ, InRange, to_word, of_word-to_word, to_word-lt}
use zephyrlog.LogLine.{ArgType, type_byte, streamsize_end, ◌>>=◌}
use zephyrlog.LogLine.Encode.{Memory, Value}
use zephyrlog.LogLine.Values.{IsInRange, chars_at, encoded_text, encoding, >>=-eq-some}
use zephyrlog.LogLine.Stringify.{Format, Cursor, fetch, c_string, show_int, show_arg}

abbrev pub at : List ℕ → ℕ → Cursor
at rest left = record { rest = rest; left = left }

-- Reading what stands at the cursor.
pub fetch-append :
    (n : ℕ) (xs ys : List ℕ) (k : ℕ)
    → length xs ≡ n
    → fetch n (at (xs ++ ys) (length xs + k)) ≡ done (xs, at ys k)
unfolding fetch
fetch-append n xs ys k e =
    rw (read-append n xs ys e, fetch) (ap (λ (j : ℕ). done (xs, at ys j)) (omega arith))

pub fetch-to_bytes :
    (w n : ℕ) (ys : List ℕ) (k : ℕ)
    → fetch w (at (to_bytes w n ++ ys) (length (to_bytes w n) + k)) ≡ done (to_bytes w n, at ys k)
fetch-to_bytes w n ys k = fetch-append w (to_bytes w n) ys k (length-to_bytes w n)

module _ (fmt : Format) (now later : Memory) where
  -- What a right-hand side of `<<` looks like in the log: a `const char*` as it was at the call, and
  -- an array as it is when the line is formatted.
  unfoldable pub shown : Value → Option (List ℕ)
  shown (Value.char c) = some (c ∷ [])
  shown (Value.int32 z) = some (show_int z)
  shown (Value.uint32 n) = some (decimal n)
  shown (Value.int64 z) = some (show_int z)
  shown (Value.uint64 n) = some (decimal n)
  shown (Value.double n) = some (fmt.show_double n)
  shown (Value.string s) = some s
  shown (Value.pointer p) = chars_at now p
  shown (Value.array p) = later p

  unfoldable pub shown_all : List Value → Option (List ℕ)
  shown_all [] = some []
  shown_all (v ∷ vs) = do front ← shown v; back ← shown_all vs; some (front ++ back)

pub shown_all-cons :
    (fmt : Format) (now later : Memory) (x : Value) (xs : List Value) {out : List ℕ}
    → shown_all fmt now later (x ∷ xs) ≡ some out
    → (front : List ℕ) × (back : List ℕ) × (shown fmt now later x ≡ some front)
      × (shown_all fmt now later xs ≡ some back)
      × (out ≡ front ++ back)
unfolding shown_all
shown_all-cons fmt now later x xs h =
    let (front, e, h₁) = >>=-eq-some (shown fmt now later x) _ h in
    let (back, e₂, h₂) = >>=-eq-some (shown_all fmt now later xs) _ h₁ in (front, back, e, e₂, cc)

-- The loop's body, behind a tag, reads a payload and prints a text.
abbrev pub Decodes : Format → Memory → ArgType → List ℕ → List ℕ → Type 0
Decodes fmt mem t payload out =
    (tail : List ℕ) (k : ℕ)
    → show_arg fmt mem (some t) (at (payload ++ tail) (length payload + k)) ≡ done (out, at tail k)

to_bytes-one : (c : ℕ) → c < 256 → to_bytes 1 c ≡ c ∷ []
unfolding to_bytes
to_bytes-one c h = ap (λ (n : ℕ). n ∷ []) (omega arith)

module _ (fmt : Format) (mem : Memory) where
  Decodes-char : (c : ℕ) → c < 256 → Decodes fmt mem ArgType.char (to_bytes 1 c) (c ∷ [])
  unfolding show_arg
  Decodes-char c h tail k =
      fetch-to_bytes 1 c tail k ∙ ap (λ (b : List ℕ). done (b, at tail k)) (to_bytes-one c h)

  Decodes-uint32 : (n : ℕ) → n < 2 ^ 32 → Decodes fmt mem ArgType.uint32 (to_bytes 4 n) (decimal n)
  unfolding show_arg
  Decodes-uint32 n h tail k = rw (fetch-to_bytes 4 n tail k, of_bytes-to_bytes 4 n h) refl

  Decodes-uint64 : (n : ℕ) → n < 2 ^ 64 → Decodes fmt mem ArgType.uint64 (to_bytes 8 n) (decimal n)
  unfolding show_arg
  Decodes-uint64 n h tail k = rw (fetch-to_bytes 8 n tail k, of_bytes-to_bytes 8 n h)

  Decodes-double :
      (n : ℕ) → n < 2 ^ 64 → Decodes fmt mem ArgType.double (to_bytes 8 n) (fmt.show_double n)
  unfolding show_arg
  Decodes-double n h tail k = rw (fetch-to_bytes 8 n tail k, of_bytes-to_bytes 8 n h)

  Decodes-int32 :
      (z : ℤ)
      → InRange (2 ^ 31) z
      → Decodes fmt mem ArgType.int32 (to_bytes 4 (to_word (2 ^ 31) z)) (show_int z)
  unfolding show_arg
  Decodes-int32 z h tail k = rw (
    fetch-to_bytes 4 _ tail k,
    of_bytes-to_bytes 4 _ (to_word-lt (2 ^ 31) z h),
    of_word-to_word (2 ^ 31) z h,
  )

  Decodes-int64 :
      (z : ℤ)
      → InRange (2 ^ 63) z
      → Decodes fmt mem ArgType.int64 (to_bytes 8 (to_word (2 ^ 63) z)) (show_int z)
  unfolding show_arg
  Decodes-int64 z h tail k = rw (
    fetch-to_bytes 8 _ tail k,
    of_bytes-to_bytes 8 _ (to_word-lt (2 ^ 63) z h),
    of_word-to_word (2 ^ 63) z h,
  )

  Decodes-string_literal :
      (p : ℕ) (s : List ℕ)
      → p < 2 ^ 64
      → mem p ≡ some s
      → Decodes fmt mem ArgType.string_literal (to_bytes 8 p) s
  unfolding show_arg c_string
  Decodes-string_literal p s h e tail k =
      rw (fetch-to_bytes 8 p tail k, of_bytes-to_bytes 8 p h, e, c_string)

  Decodes-cstring :
      (s : List ℕ)
      → length s < streamsize_end
      → Decodes fmt mem ArgType.cstring (to_bytes 8 (length s) ++ s) s
  unfolding show_arg
  Decodes-cstring s h tail k =
      rw
        (
          append_assoc (to_bytes 8 (length s)) s tail,
          length-append (to_bytes 8 (length s)) s,
          add_assoc (length (to_bytes 8 (length s))) (length s) k,
          fetch-to_bytes 8 (length s) (s ++ tail) (length s + k),
          of_bytes-to_bytes 8 (length s) (omega (arith, h)),
          ltb_of_lt (length s) streamsize_end h,
        )
        (fetch-append (length s) s tail k refl)

-- The tag and the payload of an encoded value, and that the loop prints what the value shows.
abbrev pub ReadsBack : Format → Memory → List ℕ → List ℕ → Type 0
ReadsBack fmt mem bytes out =
    (t : ArgType) × (payload : List ℕ) × (bytes ≡ type_byte t ∷ payload)
    × Decodes fmt mem t payload out

module _ (fmt : Format) (now later : Memory) where
  decoded :
      (t : ArgType) (payload : List ℕ) {text bytes out : List ℕ}
      → Decodes fmt later t payload text
      → some (type_byte t ∷ payload) ≡ some bytes
      → some text ≡ some out
      → ReadsBack fmt later bytes out
  decoded t payload {text} {bytes} {out} d e s =
      let same : text ≡ out = cc s in (t, payload, cc e, subst (Decodes fmt later t payload) same d)

  decoded_text :
      (s : List ℕ) {bytes out : List ℕ}
      → length s < streamsize_end
      → some (encoded_text s) ≡ some bytes
      → some s ≡ some out
      → ReadsBack fmt later bytes out
  unfolding encoded_text
  decoded_text s h = decoded ArgType.cstring _ (Decodes-cstring fmt later s h)

  length-encoded_text : (s : List ℕ) → length (encoded_text s) ≡ 9 + length s
  unfolding encoded_text
  length-encoded_text s =
      omega (arith, length-append (to_bytes 8 (length s)) s, length-to_bytes 8 (length s))

  -- Every encoded value is read back as what it shows.
  pub reads_back :
      (x : Value) {bytes out : List ℕ}
      → IsInRange x
      → length bytes < streamsize_end
      → encoding now x ≡ some bytes
      → shown fmt now later x ≡ some out
      → ReadsBack fmt later bytes out
  unfolding encoding shown
  reads_back (Value.char c) r b e s = decoded ArgType.char _ (Decodes-char fmt later c r) e s
  reads_back (Value.int32 z) r b e s = decoded ArgType.int32 _ (Decodes-int32 fmt later z r) e s
  reads_back (Value.uint32 n) r b e s = decoded ArgType.uint32 _ (Decodes-uint32 fmt later n r) e s
  reads_back (Value.int64 z) r b e s = decoded ArgType.int64 _ (Decodes-int64 fmt later z r) e s
  reads_back (Value.uint64 n) r b e s = decoded ArgType.uint64 _ (Decodes-uint64 fmt later n r) e s
  reads_back (Value.double n) r b e s = decoded ArgType.double _ (Decodes-double fmt later n r) e s
  reads_back (Value.string t) {bytes} r b e s =
      let size : encoded_text t ≡ bytes = cc e in
      decoded_text t (omega (arith, length-encoded_text t, ap (length {0}) size)) e s
  reads_back (Value.array p) {out = out} r b e s =
      decoded ArgType.string_literal _ (Decodes-string_literal fmt later p out r s) e refl
  reads_back (Value.pointer p) {bytes} r b e s =
      let (t, found, e₁) = >>=-eq-some (chars_at now p) _ e in
      let size : encoded_text t ≡ bytes = cc e₁ in
      decoded_text t (omega (arith, length-encoded_text t, ap (length {0}) size)) e₁ (sym found ∙ s)
