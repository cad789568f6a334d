-- ===== src/LogLine/Encoded.antt =====
-- What the encoder appends to the bytes in use.
use zephyrlog.Prelude.{
  ℕ, suc, ◌+◌, ◌≤◌, ◌<◌, ◌≡◌, refl, Option, none, some, List, [], ◌∷◌, ◌++◌, length, arith, ap,
  append_assoc, append-nil, take_self, length-append, ltb, true,
}
use zephyrlog.Prelude.Bytes.{to_bytes, read_fits, length-to_bytes}
use zephyrlog.LogLine.{
  LogLine, ArgType, type_byte, store, resize_buffer_if_needed, encode_fixed, encode_cstring,
  copy_chars, fresh, log_line, size_max, add_size, stack_buffer_size, ◌>>=◌,
}
use zephyrlog.LogLine.Level.{LogLevel, level_byte}
use zephyrlog.LogLine.Validity.{IsValid, used, length-used, store_lem, resize_lem}

-- The call succeeds, keeps the invariant, and puts `bytes` behind what was there.
abbrev pub Appends : LogLine → List ℕ → Option LogLine → Type 0
Appends l bytes o = (l' : LogLine) × (o ≡ some l') × IsValid l' × (used l' ≡ used l ++ bytes)

bytes_used-eq :
    {l l' : LogLine} → IsValid l → IsValid l' → used l' ≡ used l → l'.bytes_used ≡ l.bytes_used
bytes_used-eq v v' e = omega (arith, length-used v, length-used v', ap (length {0}) e)

-- Stores one after the other.
store_all : List ℕ → List (List ℕ) → LogLine → Option LogLine
store_all b [] l = store b l
store_all b (c ∷ cs) l = store b l >>= store_all c cs

joined : List ℕ → List (List ℕ) → List ℕ
joined b [] = b
joined b (c ∷ cs) = b ++ joined c cs

store_all_lem :
    {l : LogLine} (b : List ℕ) (cs : List (List ℕ))
    → IsValid l
    → l.bytes_used + length (joined b cs) ≤ l.buffer_size
    → Appends l (joined b cs) (store_all b cs l)
unfolding store_all joined
store_all_lem b [] v h = let (l', e, v', u, _, _) = store_lem b v h in (l', e, v', u)
store_all_lem {l} b (c ∷ cs) v h =
    let long = length-append b (joined c cs) in
    let (l₁, e₁, v₁, u₁, n₁, s₁) = store_lem b v (omega arith) in
    let (l₂, e₂, v₂, u₂) = store_all_lem {l = l₁} c cs v₁ (omega arith) in
    (l₂, rw e₁ e₂, v₂, rw (u₂, u₁) (append_assoc (used l) b (joined c cs)))

-- The same behind a resize.
resized_lem :
    {l : LogLine} (additional : ℕ) (b : List ℕ) (cs : List (List ℕ))
    → IsValid l
    → l.bytes_used + additional < size_max
    → length (joined b cs) ≡ additional
    → Appends l (joined b cs) (resize_buffer_if_needed additional l >>= store_all b cs)
resized_lem {l} additional b cs v h size =
    let (l₁, e₁, v₁, u₁, _, room) = resize_lem additional v h in
    let (l₂, e₂, v₂, u₂) = store_all_lem {l = l₁} b cs v₁ (omega (arith, bytes_used-eq v v₁ u₁)) in
    (l₂, rw e₁ e₂, v₂, rw (u₂, u₁))

pub encode_fixed_lem :
    {l : LogLine} (t : ArgType) (value : List ℕ)
    → IsValid l
    → l.bytes_used + (1 + length value) < size_max
    → Appends l (type_byte t ∷ value) (encode_fixed t value l)
unfolding encode_fixed store_all joined
encode_fixed_lem t value v h =
    resized_lem (1 + length value) (type_byte t ∷ []) (value ∷ []) v h (omega arith)

>>=-some : (o : Option LogLine) → (o >>= λ l. some l) ≡ o
>>=-some none = refl
>>=-some (some l) = refl

ltb-zero-suc : (n : ℕ) → ltb 0 (suc n) ≡ true
ltb-zero-suc n = ground arith

copy_chars-store : (s : List ℕ) (l : LogLine) → copy_chars s (length s) l ≡ store s l
unfolding copy_chars
copy_chars-store s l = rw (read_fits (length s) s (omega arith), take_self s)

-- The tag, the length and the characters of a string.
pub encode_cstring_lem :
    {l : LogLine} (s : List ℕ)
    → IsValid l
    → l.bytes_used + (9 + length s) < size_max
    → Appends l
        (type_byte ArgType.cstring ∷ (to_bytes 8 (length s) ++ s))
        (encode_cstring s (length s) l)
unfolding encode_cstring store_all joined
encode_cstring_lem {l} [] v h =
    simp (append-nil, >>=-some)
      (resized_lem 9 (type_byte ArgType.cstring ∷ []) (to_bytes 8 0 ∷ []) v (omega arith)
        (omega (arith, length-to_bytes 8 0)))
encode_cstring_lem {l} (x ∷ xs) v h =
    let s : List ℕ = x ∷ xs in
    let sum : add_size (1 + 8) (length s) ≡ 9 + length s = omega arith in
    let long = length-to_bytes 8 (length s) in
    simp (copy_chars-store, sum, ltb-zero-suc)
      (resized_lem (9 + length s) (type_byte ArgType.cstring ∷ []) (to_bytes 8 (length s) ∷ s ∷ [])
        v h (omega (arith, long, length-append (to_bytes 8 (length s)) s)))

-- What the constructor writes.
unfoldable pub header : LogLevel → (file function line now thread : ℕ) → List ℕ
header level file function line now thread =
    to_bytes 8 now
    ++ (to_bytes 8 thread
        ++ (to_bytes 8 file ++ (to_bytes 8 function ++ (to_bytes 4 line ++ level_byte level ∷ []))))

pub length-header :
    (level : LogLevel) (file function line now thread : ℕ)
    → length (header level file function line now thread) ≡ 37
unfolding header
length-header level file function line now thread = simp (length-append, length-to_bytes)

fresh-IsValid : (stack : List ℕ) → length stack ≡ stack_buffer_size → IsValid (fresh stack)
fresh-IsValid stack h = record { stack_size = h; has_size = refl; used_fits = omega arith }

-- On a stack buffer of 224 bytes with any contents, the constructor succeeds and leaves a well
-- formed line whose bytes in use are the header: the time, the thread, the file, the function, the
-- line number and the level.
pub log_line_lem :
    (level : LogLevel) (file function line now thread : ℕ) (stack : List ℕ)
    → length stack ≡ stack_buffer_size
    → Appends
        (fresh stack)
        (header level file function line now thread)
        (log_line level file function line now thread stack)
unfolding log_line header store_all joined
log_line_lem level file function line now thread stack h =
    store_all_lem {l = fresh stack} (to_bytes 8 now)
      (to_bytes 8 thread
        ∷ to_bytes 8 file
        ∷ to_bytes 8 function
        ∷ to_bytes 4 line
        ∷ (level_byte level ∷ [])
        ∷ [])
      (fresh-IsValid stack h) (omega (arith, length-header level file function line now thread))
