-- ===== src/LogLine/Loop.antt =====
-- The loop of `stringify` over the encodings of the arguments.
use zephyrlog.Prelude.{
  ℕ, zero, suc, ◌+◌, ◌-◌, ◌≤◌, ◌<◌, ◌≡◌, refl, ap, ◌∙◌, some, List, [], ◌∷◌, ◌++◌, length, arith,
  ◌>>=◌, done, suc-eqb-zero, append_assoc, length-append,
}
use zephyrlog.Prelude.Bytes.{of_bytes}
use zephyrlog.LogLine.{ArgType, type_byte, streamsize_end}
use zephyrlog.LogLine.Encode.{Memory, Value}
use zephyrlog.LogLine.Values.{AllInRange, encodings, encodings-cons}
use zephyrlog.LogLine.Decoded.{at, fetch-append, Decodes, shown_all, shown_all-cons, reads_back}
use zephyrlog.LogLine.Stringify.{Format, fetch, arg_type, show_args}

module _ (fmt : Format) (mem : Memory) where
  pub fetch-one :
      (b : ℕ) (xs : List ℕ) (k : ℕ) → fetch 1 (at (b ∷ xs) (suc k)) ≡ done (b ∷ [], at xs k)
  fetch-one b xs k =
      ap (λ (n : ℕ). fetch 1 (at (b ∷ xs) n)) (omega arith) ∙ fetch-append 1 (b ∷ []) xs k refl

  arg_type-type_byte : (t : ArgType) → arg_type (of_bytes (type_byte t ∷ [])) ≡ some t
  unfolding of_bytes
  arg_type-type_byte ArgType.char = refl
  arg_type-type_byte _ = refl

  -- One round of the loop.
  show_args-round :
      (fuel : ℕ) (t : ArgType) (payload text rest : List ℕ) (k : ℕ)
      → Decodes fmt mem t payload text
      → show_args fmt mem
          (suc fuel)
          (at (type_byte t ∷ (payload ++ rest)) (suc (length payload + k)))
        ≡ (show_args fmt mem fuel (at rest k) >>= λ more. done (text ++ more))
  unfolding show_args
  show_args-round fuel t payload text rest k d = rw (
    suc-eqb-zero (length payload + k),
    fetch-one (type_byte t) (payload ++ rest) (length payload + k),
    arg_type-type_byte t,
    d rest k,
  )

  show_args-end : (fuel : ℕ) (rest : List ℕ) → show_args fmt mem fuel (at rest 0) ≡ done []
  unfolding show_args
  show_args-end zero rest = refl
  show_args-end (suc fuel) rest = refl

module _ (fmt : Format) (now later : Memory) where
  -- The loop prints the values in order, and stops at the end of the bytes in use.
  pub show_args-encodings :
      (xs : List Value) {bytes out : List ℕ} (fuel : ℕ) (tail : List ℕ)
      → AllInRange xs
      → length bytes < streamsize_end
      → encodings now xs ≡ some bytes
      → shown_all fmt now later xs ≡ some out
      → length bytes ≤ fuel
      → show_args fmt later fuel (at (bytes ++ tail) (length bytes)) ≡ done out
  show_args-encodings [] {bytes} {out} fuel tail r b e s h =
      unfold encodings shown_all in
      let none_written : [] ≡ bytes = cc e in
      let none_shown : [] ≡ out = cc s in
      rw (← none_written, ← none_shown) (show_args-end fmt later fuel tail)
  show_args-encodings (x ∷ xs) {bytes} {out} fuel tail r b e s h =
      let (front, back, e₁, e₂, e₃) = encodings-cons now x xs e in
      let (text, more, s₁, s₂, s₃) = shown_all-cons fmt now later x xs s in
      let sizes = ap (length {0}) e₃ ∙ length-append front back in
      let (t, payload, same, d) = reads_back fmt now later x r.0 (omega arith) e₁ s₁ in
      let size : length front ≡ suc (length payload) = ap (length {0}) same in
      let enough : fuel ≡ suc (fuel - 1) = omega arith in
      rw (enough, s₃, e₃, same, append_assoc payload back tail, length-append payload back)
        (show_args-round fmt later (fuel - 1) t payload text (back ++ tail) (length back) d
          ∙ rw (show_args-encodings xs (fuel - 1) tail r.1 (omega arith) e₂ s₂ (omega arith)))
