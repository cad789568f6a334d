-- ===== src/LogLine/Moved.antt =====
-- The defaulted move operations of `LogLine` (include/zephyrlog/logline.h): the sizes and the stack
-- buffer are copied, the `unique_ptr` is taken and leaves null behind.
use zephyrlog.Prelude.{ℕ, ◌<◌, ◌≡◌, none, List, [], ◌∷◌, arith}
use zephyrlog.Prelude.Bytes.{write_overflow, read_overflow}
use zephyrlog.LogLine.{
  LogLine, ArgType, type_byte, buffer, store, move_to_heap, resize_buffer_if_needed, encode_fixed,
  stack_buffer_size,
}
use zephyrlog.LogLine.Validity.{IsValid}

-- What a move leaves in the object that it moves from.
unfoldable pub moved_from : LogLine → LogLine
moved_from l = record l { heap_buffer = none }

-- The object that a move makes.
unfoldable pub moved_to : LogLine → LogLine
moved_to l = l

-- Any further `<<` of a fixed size on what a move leaves of a well formed line with more than 224
-- bytes in use is undefined behaviour: it writes, or copies, past the stack buffer.
pub encode_fixed-moved_from :
    (l : LogLine) (t : ArgType) (value : List ℕ)
    → IsValid l
    → stack_buffer_size < l.bytes_used
    → encode_fixed t value (moved_from l) ≡ none
unfolding moved_from encode_fixed resize_buffer_if_needed store move_to_heap buffer
encode_fixed-moved_from l t value v h = ground (
  arith,
  write_overflow l.bytes_used (type_byte t ∷ []) l.stack_buffer,
  read_overflow l.bytes_used l.stack_buffer,
)
