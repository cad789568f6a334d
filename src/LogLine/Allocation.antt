-- ===== src/LogLine/Allocation.antt =====
-- When a `LogLine` (src/logline.cpp) is on the heap: the small buffer optimisation.
use zephyrlog.Prelude.{
  ℕ, ◌+◌, ◌<◌, ◌≡◌, refl, sym, ap, ◌∙◌, subst, ◌==◌, some, List, [], ◌∷◌, ◌++◌, length, arith,
  false, ltb, ◌||◌, Bool-cases, inl, inr, take_self, length-append,
}
use zephyrlog.LogLine.{
  LogLine, ArgType, type_byte, set_buffer, store, move_to_heap, resize_buffer_if_needed,
  encode_fixed, encode_cstring, copy_chars, is_heap_allocated, fresh, log_line, buffer_used_size,
  size_max, add_size, stack_buffer_size,
}
use zephyrlog.LogLine.Validity.{IsValid, used, length-used, used-fresh}
use zephyrlog.LogLine.Encoded.{header, length-header, log_line_lem}
use zephyrlog.Prelude.Bytes.{to_bytes, length-to_bytes, read_fits}
use zephyrlog.LogLine.Encode.{
  Memory, Value, append, append_all, encode_char, encode_int32, encode_uint32, encode_int64,
  encode_uint64, encode_double, encode_string_literal, encode_cstring_at, Call, log_call,
}
use zephyrlog.LogLine.Values.{
  >>=-eq-some, chars_at, encoded_text, encoding, encodings, encodings-cons, append_lem,
  append_all_lem,
}

-- The line is on the heap exactly if more bytes are in use than the stack buffer has.
abbrev pub IsSmall : LogLine → Type 0
IsSmall l = is_heap_allocated l ≡ ltb 224 l.bytes_used

-- A store leaves the array where it is.
is_heap_allocated-store :
    (bytes : List ℕ) (l l' : LogLine)
    → store bytes l ≡ some l'
    → (is_heap_allocated l' ≡ is_heap_allocated l)
      × (l'.bytes_used ≡ add_size l.bytes_used (length bytes))
unfolding is_heap_allocated store set_buffer
is_heap_allocated-store bytes l l' e = ground arith

resize_heap :
    (additional : ℕ) (l l' : LogLine)
    → resize_buffer_if_needed additional l ≡ some l'
    → (is_heap_allocated l'
        ≡ (is_heap_allocated l || ltb l.buffer_size (add_size l.bytes_used additional)))
      × (l'.bytes_used ≡ l.bytes_used)
unfolding is_heap_allocated resize_buffer_if_needed move_to_heap
resize_heap additional l l' e = ground arith

-- Stack lines have the size of the stack buffer.
stack_size-IsValid : (l : LogLine) → IsValid l → is_heap_allocated l ≡ false → l.buffer_size ≡ 224
unfolding is_heap_allocated
stack_size-IsValid l v e = ground arith

-- A resize, and stores of as many bytes.
IsSmall-resized :
    (additional : ℕ) (l l₁ l' : LogLine)
    → IsValid l
    → IsSmall l
    → l.bytes_used + additional < size_max
    → resize_buffer_if_needed additional l ≡ some l₁
    → is_heap_allocated l' ≡ is_heap_allocated l₁
    → l'.bytes_used ≡ l.bytes_used + additional
    → IsSmall l'
IsSmall-resized additional l l₁ l' v small room e heap used =
    let (heap₁, _) = resize_heap additional l l₁ e in
    elim (Bool-cases (is_heap_allocated l)) [
      | inl on ↦ ground (arith, heap₁, small)
      | inr off ↦ ground (arith, heap₁, small, stack_size-IsValid l v off)
    ]

IsSmall-encode_fixed :
    (t : ArgType) (value : List ℕ) (l l' : LogLine)
    → IsValid l
    → IsSmall l
    → l.bytes_used + (1 + length value) < size_max
    → encode_fixed t value l ≡ some l'
    → IsSmall l'
unfolding encode_fixed
IsSmall-encode_fixed t value l l' v small room e =
    let (l₁, e₁, f₁) = >>=-eq-some (resize_buffer_if_needed (1 + length value) l) _ e in
    let (l₂, e₂, e₃) = >>=-eq-some (store (type_byte t ∷ []) l₁) _ f₁ in
    let (_, used₁) = resize_heap (1 + length value) l l₁ e₁ in
    let (heap₂, used₂) = is_heap_allocated-store (type_byte t ∷ []) l₁ l₂ e₂ in
    let (heap₃, used₃) = is_heap_allocated-store value l₂ l' e₃ in
    IsSmall-resized (1 + length value) l l₁ l' v small room e₁ (heap₃ ∙ heap₂)
      (omega (arith, used₁, used₂, used₃))

copy_chars-used :
    (s : List ℕ) (l l' : LogLine)
    → copy_chars s (length s) l ≡ some l'
    → (is_heap_allocated l' ≡ is_heap_allocated l)
      × (l'.bytes_used ≡ add_size l.bytes_used (length s))
unfolding copy_chars
copy_chars-used s l l' e =
    is_heap_allocated-store s l l' (rw (read_fits (length s) s (omega arith), take_self s) at e)

IsSmall-encode_cstring :
    (s : List ℕ) (l l' : LogLine)
    → IsValid l
    → IsSmall l
    → l.bytes_used + (9 + length s) < size_max
    → encode_cstring s (length s) l ≡ some l'
    → IsSmall l'
unfolding encode_cstring
IsSmall-encode_cstring s l l' v small room e =
    let sum : add_size (1 + 8) (length s) ≡ 9 + length s = omega arith in
    let (l₁, e₁, f₁) = >>=-eq-some (resize_buffer_if_needed (add_size (1 + 8) (length s)) l) _ e in
    let (l₂, e₂, f₂) = >>=-eq-some (store (type_byte ArgType.cstring ∷ []) l₁) _ f₁ in
    let (l₃, e₃, f₃) = >>=-eq-some (store (to_bytes 8 (length s)) l₂) _ f₂ in
    let (_, used₁) = resize_heap (add_size (1 + 8) (length s)) l l₁ e₁ in
    let (heap₂, used₂) = is_heap_allocated-store (type_byte ArgType.cstring ∷ []) l₁ l₂ e₂ in
    let (heap₃, used₃) = is_heap_allocated-store (to_bytes 8 (length s)) l₂ l₃ e₃ in
    let width = length-to_bytes 8 (length s) in
    let resized : resize_buffer_if_needed (9 + length s) l ≡ some l₁ =
      ap (λ (n : ℕ). resize_buffer_if_needed n l) (sym sum) ∙ e₁ in
    elim (Bool-cases (ltb 0 (length s))) [
      | inl some_chars ↦
          let copied : copy_chars s (length s) l₃ ≡ some l' = rw some_chars at f₃ in
          let (heap₄, used₄) = copy_chars-used s l₃ l' copied in
          IsSmall-resized (9 + length s) l l₁ l' v small room resized (heap₄ ∙ heap₃ ∙ heap₂)
            (omega (arith, used₁, used₂, used₃, used₄, width))
      | inr none_left ↦
          let empty : length s ≡ 0 = ground arith in
          let same : l₃ ≡ l' = cc (rw none_left at f₃) in
          IsSmall-resized (9 + length s) l l₁ l' v small room resized
            (ap is_heap_allocated (sym same) ∙ heap₃ ∙ heap₂)
            (ap (λ (l : LogLine). l.bytes_used) (sym same)
              ∙ omega (arith, used₁, used₂, used₃, width, empty))
    ]

room_of :
    (used : ℕ) {written bytes : List ℕ}
    → some written ≡ some bytes
    → used + length bytes < size_max
    → used + length written < size_max
room_of used {written} {bytes} e h =
    let same : written ≡ bytes = cc e in
    subst (λ (b : List ℕ). used + length b < size_max) (sym same) h

length-encoded_text : (s : List ℕ) → length (encoded_text s) ≡ 9 + length s
unfolding encoded_text
length-encoded_text s =
    omega (arith, length-append (to_bytes 8 (length s)) s, length-to_bytes 8 (length s))

IsSmall-text :
    (s : List ℕ) (l l' : LogLine) {bytes : List ℕ}
    → IsValid l
    → IsSmall l
    → some (encoded_text s) ≡ some bytes
    → l.bytes_used + length bytes < size_max
    → encode_cstring s (length s) l ≡ some l'
    → IsSmall l'
IsSmall-text s l l' v small b room e =
    IsSmall-encode_cstring s l l' v small
      (omega (arith, room_of l.bytes_used b room, length-encoded_text s)) e

IsSmall-value :
    (t : ArgType) (value : List ℕ) (l l' : LogLine) {bytes : List ℕ}
    → IsValid l
    → IsSmall l
    → some (type_byte t ∷ value) ≡ some bytes
    → l.bytes_used + length bytes < size_max
    → encode_fixed t value l ≡ some l'
    → IsSmall l'
IsSmall-value t value l l' v small b room e =
    IsSmall-encode_fixed t value l l' v small (omega (arith, room_of l.bytes_used b room)) e

-- The same for each overload of `operator<<`.
IsSmall-append :
    (mem : Memory) (x : Value) (l l' : LogLine) {bytes : List ℕ}
    → IsValid l
    → IsSmall l
    → encoding mem x ≡ some bytes
    → l.bytes_used + length bytes < size_max
    → append mem x l ≡ some l'
    → IsSmall l'
unfolding encoding append encode_char encode_int32 encode_uint32 encode_int64 encode_uint64
    encode_double encode_string_literal chars_at encode_cstring_at
IsSmall-append mem (Value.char c) l l' v small b room e =
    IsSmall-value ArgType.char _ l l' v small b room e
IsSmall-append mem (Value.int32 z) l l' v small b room e =
    IsSmall-value ArgType.int32 _ l l' v small b room e
IsSmall-append mem (Value.uint32 n) l l' v small b room e =
    IsSmall-value ArgType.uint32 _ l l' v small b room e
IsSmall-append mem (Value.int64 z) l l' v small b room e =
    IsSmall-value ArgType.int64 _ l l' v small b room e
IsSmall-append mem (Value.uint64 n) l l' v small b room e =
    IsSmall-value ArgType.uint64 _ l l' v small b room e
IsSmall-append mem (Value.double n) l l' v small b room e =
    IsSmall-value ArgType.double _ l l' v small b room e
IsSmall-append mem (Value.array p) l l' v small b room e =
    IsSmall-value ArgType.string_literal _ l l' v small b room e
IsSmall-append mem (Value.string s) l l' v small b room e = IsSmall-text s l l' v small b room e
IsSmall-append mem (Value.pointer p) l l' v small b room e =
    let (s, found, made) = >>=-eq-some (chars_at mem p) _ b in
    elim (Bool-cases (p == 0)) [
      | inl null ↦
          let empty : some [] ≡ some s = rw null at found in
          let nothing : encode_cstring [] 0 l ≡ some l' = rw null at e in
          IsSmall-text [] l l' v small
            (ap (λ (t : List ℕ). some (encoded_text t)) (cc empty) ∙ made) room nothing
      | inr valid ↦
          let there : mem p ≡ some s = rw valid at found in
          let copied : encode_cstring s (length s) l ≡ some l' = rw (valid, there) at e in
          IsSmall-text s l l' v small made room copied
    ]

IsSmall-append_all :
    (mem : Memory) (xs : List Value) (l l' : LogLine) {bytes : List ℕ}
    → IsValid l
    → IsSmall l
    → encodings mem xs ≡ some bytes
    → l.bytes_used + length bytes < size_max
    → append_all mem xs l ≡ some l'
    → IsSmall l'
unfolding append_all
IsSmall-append_all mem [] l l' v small b room e = subst IsSmall (cc e) small
IsSmall-append_all mem (x ∷ xs) l l' {bytes} v small b room e =
    let (front, back, b₁, b₂, whole) = encodings-cons mem x xs b in
    let long = length-append front back in
    let size = ap (length {0}) whole in
    let (l₁, s₁, v₁, u₁) = append_lem mem x v b₁ (omega arith) in
    let (l₂, e₁, e₂) = >>=-eq-some (append mem x l) _ e in
    let same : l₁ ≡ l₂ = cc (sym s₁ ∙ e₁) in
    let rest : append_all mem xs l₁ ≡ some l' = ap (append_all mem xs) same ∙ e₂ in
    let used₁ = ap (length {0}) u₁ in
    IsSmall-append_all mem xs l₁ l' v₁ (IsSmall-append mem x l l₁ v small b₁ (omega arith) s₁) b₂
      (omega (arith, length-used v, length-used v₁, used₁, length-append (used l) front)) rest

-- The constructor stays on the stack.
is_heap_allocated-log_line :
    (c : Call) (stack : List ℕ) (l : LogLine)
    → log_line c.level c.file c.function c.line c.now c.thread stack ≡ some l
    → is_heap_allocated l ≡ false
unfolding log_line
is_heap_allocated-log_line c stack l e =
    let (l₁, e₁, f₁) = >>=-eq-some (store (to_bytes 8 c.now) (fresh stack)) _ e in
    let (l₂, e₂, f₂) = >>=-eq-some (store (to_bytes 8 c.thread) l₁) _ f₁ in
    let (l₃, e₃, f₃) = >>=-eq-some (store (to_bytes 8 c.file) l₂) _ f₂ in
    let (l₄, e₄, f₄) = >>=-eq-some (store (to_bytes 8 c.function) l₃) _ f₃ in
    let (l₅, e₅, e₆) = >>=-eq-some (store (to_bytes 4 c.line) l₄) _ f₄ in
    (is_heap_allocated-store _ l₅ l e₆).0
    ∙ (is_heap_allocated-store _ l₄ l₅ e₅).0
    ∙ (is_heap_allocated-store _ l₃ l₄ e₄).0
    ∙ (is_heap_allocated-store _ l₂ l₃ e₃).0
    ∙ (is_heap_allocated-store _ l₁ l₂ e₂).0
    ∙ (is_heap_allocated-store _ (fresh stack) l₁ e₁).0
    ∙ unfold is_heap_allocated in refl

-- A log call on a stack buffer of 224 bytes whose arguments all have encodings, fewer than 2^64
-- bytes with the header, succeeds; `bufferUsedSize` of the line is 37 more than the bytes of the
-- arguments, and `isHeapAllocated` holds exactly if that is more than the stack buffer has.
pub is_heap_allocated-log_call :
    (mem : Memory) (c : Call) (stack : List ℕ) (xs : List Value) {bytes : List ℕ}
    → length stack ≡ stack_buffer_size
    → encodings mem xs ≡ some bytes
    → 37 + length bytes < size_max
    → (l : LogLine) × (log_call mem c stack xs ≡ some l)
      × (buffer_used_size l ≡ 37 + length bytes)
      × (is_heap_allocated l ≡ ltb stack_buffer_size (37 + length bytes))
unfolding log_call buffer_used_size
is_heap_allocated-log_call mem c stack xs {bytes} h b room =
    let (l₁, e₁, v₁, u₁) = log_line_lem c.level c.file c.function c.line c.now c.thread stack h in
    let n₁ : l₁.bytes_used ≡ 37 =
      sym (length-used v₁)
      ∙ ap (length {0}) (
          u₁
          ∙ ap (λ (u : List ℕ). u ++ header c.level c.file c.function c.line c.now c.thread)
              (used-fresh stack))
      ∙ length-header c.level c.file c.function c.line c.now c.thread in
    let (l₂, e₂, v₂, u₂) = append_all_lem mem xs v₁ b (omega (arith, n₁)) in
    let used₂ : l₂.bytes_used ≡ 37 + length bytes = omega (
      arith,
      n₁,
      length-used v₁,
      length-used v₂,
      ap (length {0}) u₂,
      length-append (used l₁) bytes,
    ) in
    let small₁ : IsSmall l₁ = is_heap_allocated-log_line c stack l₁ e₁ ∙ sym (ap (ltb 224) n₁) in
    let small₂ = IsSmall-append_all mem xs l₁ l₂ v₁ small₁ b (omega (arith, n₁)) e₂ in
    (l₂, rw e₁ e₂, used₂, small₂ ∙ ap (ltb 224) used₂)
