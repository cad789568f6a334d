-- ===== src/QueueBuffer.antt =====
-- `Buffer` and `QueueBuffer` (include/zephyrlog/queuebuffer.h, src/queuebuffer.cpp): an unbounded
-- queue of blocks. Producers claim an index in the newest block, and the one that completes it opens
-- the next; the consumer reads the oldest block and frees it at its end. The blocks live in a heap
-- under their addresses, so that an access to a freed one is seen: it is `none`, and so is an access
-- outside a block. The number of lines of a block, 32768 in the source, is the parameter `size`.
pub mod Blocks
pub mod Chain
pub mod Calls
pub mod Fifo
pub mod Race
pub mod Threads
mod Tests
use zephyrlog.Prelude.{
  ℕ, zero, suc, ◌+◌, ◌%◌, ◌^◌, Option, none, some, Outcome, done, fault, out_of_fuel, of_option,
  List, [], ◌∷◌, ◌++◌, get_elem?, set, replicate, ◌==◌, ltb, Bool, true, false, if◌then◌else◌,
}
use zephyrlog.LogLine.{LogLine, ◌>>=◌}
use zephyrlog.LogLine.Moved.{moved_from, moved_to}

abbrev pub uint_max : ℕ
uint_max = 2 ^ 32

-- `write_state[i]` is 1 once item `i` is written; `write_count`, the number of items written, is the
-- last cell of that array. An item is raw memory, `none`, until a line is constructed in it.
pub record Buffer : Type 0 where
  pub items : List (Option LogLine)
  pub write_state : List ℕ
  pub write_count : ℕ

-- `Buffer::Buffer`. That `malloc` finds no memory is not modelled.
unfoldable pub buffer : ℕ → Buffer
buffer size = record {
  items = replicate size none;
  write_state = replicate size 0;
  write_count = 0;
}

-- The placement new of `Buffer::push` and the store that shows the item to the consumer.
unfoldable pub write_item : LogLine → ℕ → Buffer → Option Buffer
write_item logline index b = elim (get_elem? b.items index) [
  | none ↦ none
  | some _ ↦ some (record b {
    items = set b.items index (some (moved_to logline));
    write_state = set b.write_state index 1;
  })
]

-- `m_writeState[size].fetch_add(1) + 1 == size`
unfoldable pub count_item : ℕ → Buffer → Bool × Buffer
count_item size b =
    let count = (b.write_count + 1) % uint_max in (count == size, record b { write_count = count })

-- `Buffer::tryPop`, on the state of the item and the item.
unfoldable pub take_item : ℕ → ℕ → Option LogLine → Buffer → Option (Option LogLine × Buffer)
take_item index state (some logline) b =
    if state == 1
    then some (
      some (moved_to logline),
      record b { items = set b.items index (some (moved_from logline)) },
    )
    else some (none, b)
take_item index state none b = if state == 1 then none else some (none, b)

unfoldable pub read_item : ℕ → Buffer → Option (Option LogLine × Buffer)
read_item index b = do
  state ← get_elem? b.write_state index
  item ← get_elem? b.items index
  take_item index state item b

-- `Buffer::~Buffer`: the destructor of each of the first `count` items, which must be there.
unfoldable pub destroy : ℕ → List (Option LogLine) → Option (Unit {0})
destroy zero items = some tt
destroy (suc count) (some logline ∷ items) = destroy count items
destroy (suc count) _ = none

-- `buffers` holds the addresses of the blocks that the queue owns, oldest first.
pub record QueueBuffer : Type 0 where
  pub heap : ℕ → Option Buffer
  pub next_address : ℕ
  pub buffers : List ℕ
  pub current_write_buffer : ℕ
  pub current_read_buffer : Option ℕ
  pub write_index : ℕ
  pub read_index : ℕ

abbrev pub update : (ℕ → Option Buffer) → ℕ → Option Buffer → ℕ → Option Buffer
update heap p b j = if j == p then b else heap j

-- The three stores of `setupNextWriteBuffer`: of the new block, of its entry in the queue of blocks,
-- and of the index.
abbrev pub open_block : ℕ → QueueBuffer → QueueBuffer
open_block size q = record q {
  heap = update q.heap q.next_address (some (buffer size));
  next_address = q.next_address + 1;
  current_write_buffer = q.next_address;
}

abbrev pub queue_block : ℕ → QueueBuffer → QueueBuffer
queue_block p q = record q { buffers = q.buffers ++ p ∷ [] }

abbrev pub reset_index : QueueBuffer → QueueBuffer
reset_index q = record q { write_index = 0 }

unfoldable pub setup_next_write_buffer : ℕ → QueueBuffer → QueueBuffer
setup_next_write_buffer size q = reset_index (queue_block q.next_address (open_block size q))

unfoldable pub queue_buffer : ℕ → QueueBuffer
unfolding setup_next_write_buffer
queue_buffer size = setup_next_write_buffer size (record {
  heap = λ _. none;
  next_address = 1;
  buffers = [];
  current_write_buffer = 0;
  current_read_buffer = none;
  write_index = 0;
  read_index = 0;
})

unfoldable pub get_next_read_buffer : QueueBuffer → Option ℕ
get_next_read_buffer q = elim q.buffers [ [] ↦ none | p ∷ _ ↦ some p ]

-- `m_writeIndex.fetch_add(1)`
unfoldable pub claim : QueueBuffer → ℕ × QueueBuffer
claim q = (q.write_index, record q { write_index = (q.write_index + 1) % uint_max })

-- The two halves of `Buffer::push` on the block at an address.
unfoldable pub write_at : ℕ → LogLine → ℕ → QueueBuffer → Option QueueBuffer
write_at p logline index q = do
  b ← q.heap p
  b ← write_item logline index b
  some (record q { heap = update q.heap p (some b) })

unfoldable pub count_at : ℕ → ℕ → QueueBuffer → Option (Bool × QueueBuffer)
count_at size p q = do
  b ← q.heap p
  let (full, b') = count_item size b
  some (full, record q { heap = update q.heap p (some b') })

-- The branch of `push` with an index in the block.
unfoldable pub put_line : ℕ → LogLine → ℕ → QueueBuffer → Option QueueBuffer
put_line size logline index q = do
  let p = q.current_write_buffer
  q ← write_at p logline index q
  (full, q) ← count_at size p q
  some (if full then setup_next_write_buffer size q else q)

-- `push` with no other thread at work: where it has to wait for the next block, it goes round again
-- if the index is in range already, and else waits for ever. The fuel is for the calls of itself.
unfoldable pub push : ℕ → ℕ → LogLine → QueueBuffer → Outcome QueueBuffer
push size zero logline q = out_of_fuel
push size (suc fuel) logline q =
    let (index, q') = claim q in
    let again = push size fuel logline q' in
    if ltb index size
    then of_option (put_line size logline index q')
    else if ltb q'.write_index size
    then again
    else out_of_fuel

-- `m_buffers.pop()`, which frees the block; on an empty queue it is undefined.
unfoldable pub pop_buffer : QueueBuffer → Option QueueBuffer
pop_buffer q = elim q.buffers [
  | [] ↦ none
  | p ∷ rest ↦ q.heap p >>= λ b. destroy b.write_count b.items >>= λ _.
      some (record q { heap = update q.heap p none; buffers = rest })
]

-- The consumer behind a line that it has read.
unfoldable pub advance : ℕ → QueueBuffer → Option QueueBuffer
advance size q =
    let index = (q.read_index + 1) % uint_max in
    if index == size
    then pop_buffer (record q { read_index = 0; current_read_buffer = none })
    else some (record q { read_index = index })

-- `tryPop` on the block at an address.
unfoldable pub try_pop_at : ℕ → ℕ → QueueBuffer → Option (Option LogLine × QueueBuffer)
try_pop_at size p q = do
  b ← q.heap p
  (out, b) ← read_item q.read_index b
  let q' = record q { heap = update q.heap p (some b) }
  elim out [
    | none ↦ some (none, q)
    | some logline ↦ advance size q' >>= λ q. some (some logline, q)
  ]

-- The block that the consumer reads: the one at hand, or else the oldest.
unfoldable pub read_buffer : QueueBuffer → Option ℕ
read_buffer q = elim q.current_read_buffer [ none ↦ get_next_read_buffer q | some p ↦ some p ]

unfoldable pub try_pop : ℕ → QueueBuffer → Option (Option LogLine × QueueBuffer)
try_pop size q =
    let found = read_buffer q in
    let q' = record q { current_read_buffer = found } in
    elim found [ none ↦ some (none, q') | some p ↦ try_pop_at size p q' ]
