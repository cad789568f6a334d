-- ===== src/LogLine.antt =====
-- The record of include/zephyrlog/logline.h and the encoding half of src/logline.cpp: a log call
-- writes its arguments as tagged bytes into a buffer that starts inside the object and moves to the
-- heap when it is full. Bytes are little-endian, as on the two platforms of sdk/lib. A function that
-- would read or write outside an array is `none`.
pub mod Level
pub mod Encode
pub mod Validity
pub mod Encoded
pub mod Values
pub mod Stringify
pub mod Decoded
pub mod Moved
pub mod Allocation
pub mod Loop
pub mod RoundTrip
pub mod Sample
mod Tests
use zephyrlog.Prelude.{
  ℕ, zero, ◌+◌, ◌*◌, ◌%◌, ◌^◌, max, Option, none, some, Bool, true, false, List, [], ◌∷◌, length,
  replicate, leb, ltb, if◌then◌else◌, ◌==◌, ◌++◌,
}
use zephyrlog.Prelude.Bytes.{to_bytes, read, write}
use zephyrlog.LogLine.Level.{LogLevel, level_byte}

infixl 5 ◌>>=◌
abbrev pub ◌>>=◌ {ℓ κ} : {A : Type ℓ} {B : Type κ} → Option A → (A → Option B) → Option B
none >>= f = none
some a >>= f = f a

abbrev pub size_max : ℕ
size_max = 2 ^ 64

-- One more than the largest `std::streamsize`.
abbrev pub streamsize_end : ℕ
streamsize_end = 2 ^ 63

-- `size_t` addition
abbrev pub add_size : ℕ → ℕ → ℕ
add_size a b = (a + b) % size_max

abbrev pub stack_buffer_size : ℕ
stack_buffer_size = 224

-- `heap_buffer` is `none` for the null `unique_ptr`.
pub record LogLine : Type 0 where
  pub bytes_used : ℕ
  pub buffer_size : ℕ
  pub heap_buffer : Option (List ℕ)
  pub stack_buffer : List ℕ

pub data ArgType : Type 0 where
  char uint32 uint64 int32 int64 double string_literal cstring : ArgType

abbrev pub type_byte : ArgType → ℕ
type_byte char = 0
type_byte uint32 = 1
type_byte uint64 = 2
type_byte int32 = 3
type_byte int64 = 4
type_byte double = 5
type_byte string_literal = 6
type_byte cstring = 7

-- The array that `buffer()` points into, at offset `bytes_used`.
unfoldable pub buffer : LogLine → List ℕ
buffer l = elim l.heap_buffer [ none ↦ l.stack_buffer | some heap ↦ heap ]

unfoldable pub set_buffer : List ℕ → LogLine → LogLine
set_buffer b l = elim l.heap_buffer [
  | none ↦ record l { stack_buffer = b }
  | some _ ↦ record l { heap_buffer = some b }
]

-- `*reinterpret_cast<T*>(buffer()) = value; m_bytesUsed += sizeof(T)`, and the `memcpy` likewise.
unfoldable pub store : List ℕ → LogLine → Option LogLine
store bytes l = do
  b ← write l.bytes_used bytes (buffer l)
  some (record (set_buffer b l) { bytes_used = add_size l.bytes_used (length bytes) })

-- `make_unique<char[]>(size)`, which zeroes, and the `memcpy` of the bytes in use. That there is no
-- memory left for the array is not modelled.
unfoldable pub move_to_heap : ℕ → LogLine → Option LogLine
move_to_heap size l = do
  (in_use, _) ← read l.bytes_used (buffer l)
  heap ← write 0 in_use (replicate size 0)
  some (record l { buffer_size = size; heap_buffer = some heap })

unfoldable pub resize_buffer_if_needed : ℕ → LogLine → Option LogLine
resize_buffer_if_needed additional_bytes l =
    let required = add_size l.bytes_used additional_bytes in
    if leb required l.buffer_size then some l else elim l.heap_buffer [
      | none ↦ move_to_heap (max 512 required) l
      | some _ ↦ move_to_heap (max (2 * l.buffer_size % size_max) required) l
    ]

-- `bufferUsedSize` and `isHeapAllocated`
unfoldable pub buffer_used_size : LogLine → ℕ
buffer_used_size l = l.bytes_used

unfoldable pub is_heap_allocated : LogLine → Bool
is_heap_allocated l = elim l.heap_buffer [ none ↦ false | some _ ↦ true ]

-- The members' initialisers; `m_stackBuffer` has none, and holds what was there.
abbrev pub fresh : List ℕ → LogLine
fresh stack = record {
  bytes_used = 0;
  buffer_size = stack_buffer_size;
  heap_buffer = none;
  stack_buffer = stack;
}

-- The constructor. The clock and the thread id (a `pthread_t`) come from outside; a
-- `string_literal_t` is a pointer.
unfoldable pub log_line :
    (level : LogLevel) (file function line now thread : ℕ) → List ℕ → Option LogLine
log_line level file function line now thread stack = do
  l ← store (to_bytes 8 now) (fresh stack)
  l ← store (to_bytes 8 thread) l
  l ← store (to_bytes 8 file) l
  l ← store (to_bytes 8 function) l
  l ← store (to_bytes 4 line) l
  store (level_byte level ∷ []) l

-- What the `encode` functions of one fixed size share: resize, the tag, the value.
unfoldable pub encode_fixed : ArgType → List ℕ → LogLine → Option LogLine
encode_fixed type value l = do
  l ← resize_buffer_if_needed (1 + length value) l
  l ← store (type_byte type ∷ []) l
  store value l

-- `memcpy(buffer(), s, len); m_bytesUsed += len`
unfoldable pub copy_chars : List ℕ → ℕ → LogLine → Option LogLine
copy_chars s len l = do (chars, _) ← read len s; store chars l

-- The list is the array at `s`.
unfoldable pub encode_cstring : List ℕ → ℕ → LogLine → Option LogLine
encode_cstring s len l = do
  l ← resize_buffer_if_needed (add_size (1 + 8) len) l
  l ← store (type_byte cstring ∷ []) l
  l ← store (to_bytes 8 len) l
  if ltb 0 len then copy_chars s len l else some l
