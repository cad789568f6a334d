-- ===== src/RingBuffer.antt =====
-- `RingBuffer` (include/zephyrlog/ringbuffer.h, src/ringbuffer.cpp): a fixed array of items that
-- producers fill at a shared write index, over what was there if need be, and one consumer empties
-- in order. A division by zero and an access outside the array are `none`. Each operation here runs
-- alone; the spin lock of an item serves to make it so.
pub mod Lap
mod Index
pub mod Refine
pub mod Runs
pub mod Fifo
pub mod Overrun
pub mod Threads
mod Tests
use zephyrlog.Prelude.{
  ℕ, zero, suc, ◌+◌, ◌%◌, ◌^◌, Option, none, some, List, [], ◌∷◌, get_elem?, set, ◌==◌,
  if◌then◌else◌,
}
use zephyrlog.LogLine.{LogLine}
use zephyrlog.LogLine.Moved.{moved_from, moved_to}

-- `written` is 0 or 1.
pub record Item : Type 0 where
  pub written : ℕ
  pub logline : LogLine

pub record RingBuffer : Type 0 where
  pub size : ℕ
  pub ring : List Item
  pub write_index : ℕ
  pub read_index : ℕ

-- `unsigned int`
abbrev pub uint_max : ℕ
uint_max = 2 ^ 32

-- `for (size_t i = 0; i < size; ++i) new (&m_ring[i]) Item();`, with the line that the constructor
-- of the item makes at that moment.
unfoldable pub items : (ℕ → LogLine) → ℕ → ℕ → List Item
items blank i zero = []
items blank i (suc n) = record { written = 0; logline = blank i } ∷ items blank (i + 1) n

unfoldable pub ring_buffer : (ℕ → LogLine) → ℕ → RingBuffer
ring_buffer blank size = record {
  size = size;
  ring = items blank 0 size;
  write_index = 0;
  read_index = 0;
}

-- `m_writeIndex.fetch_add(1) % m_size`
unfoldable pub claim : RingBuffer → Option (ℕ × RingBuffer)
claim r =
    if r.size == 0
    then none
    else some (r.write_index % r.size, record r { write_index = (r.write_index + 1) % uint_max })

-- The critical section of `push`.
unfoldable pub publish : ℕ → LogLine → RingBuffer → Option RingBuffer
publish index logline r = elim (get_elem? r.ring index) [
  | none ↦ none
  | some item ↦
      some
        (record r { ring = set r.ring index (record { written = 1; logline = moved_to logline }) })
]

unfoldable pub push : LogLine → RingBuffer → Option RingBuffer
push logline r = elim (claim r) [ none ↦ none | some (index, r') ↦ publish index logline r' ]

-- The critical section of `tryPop`, on the item at the read index.
unfoldable pub take_item : Item → RingBuffer → Option LogLine × RingBuffer
take_item item r =
    if item.written == 1
    then (
      some (moved_to item.logline),
      record r {
        ring =
            set r.ring (r.read_index % r.size)
              (record { written = 0; logline = moved_from item.logline });
        read_index = (r.read_index + 1) % uint_max;
      },
    )
    else (none, r)

-- The line is what `tryPop` moves into its argument before it returns true; `none` is false.
unfoldable pub try_pop : RingBuffer → Option (Option LogLine × RingBuffer)
try_pop r = if r.size == 0 then none else elim (get_elem? r.ring (r.read_index % r.size)) [
  | none ↦ none
  | some item ↦ some (take_item item r)
]
