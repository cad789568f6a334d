-- ===== src/QueueBuffer/Threads.antt =====
-- The calls of src/queuebuffer.cpp by threads that take turns in any order, one access to the shared
-- memory at a time: `push` by any thread but thread 0, which is the consumer and calls `tryPop`.
-- The construction of a line and the store that shows it are one access here, as are the load of
-- that store and the move of the line; `m_readIndex` and `m_currentReadBuffer` are the consumer's
-- own. An access to a freed block has no step.
mod Tally
pub mod Places
mod Frames
pub mod Counted
mod Opening
mod Steps
mod Rooms
mod Blank
mod Reader
mod Consumer
mod Reading
mod Moves
mod Invariant
mod Sound
mod Alive
mod Kept
mod Living
pub mod Safety
pub mod Lock
pub mod Order
mod Tests
use zephyrlog.Prelude.{
  ℕ, ◌+◌, ◌%◌, ◌≡◌, ◌≢◌, ◌≤◌, ◌<◌, Option, none, some, Bool, true, false, ◌==◌, if◌then◌else◌,
}
use zephyrlog.LogLine.{LogLine}
use zephyrlog.SpinLock.{Flags, test_and_set, clear}
use zephyrlog.QueueBuffer.{
  Buffer, buffer, QueueBuffer, queue_buffer, uint_max, update, read_item, get_next_read_buffer,
  claim, write_at, count_at, open_block, queue_block, reset_index, pop_buffer,
}

-- The lock of the queue of blocks is flag 0.
pub record Memory : Type 0 where
  pub queue : QueueBuffer
  pub flags : Flags

-- Where a thread stands, with its live variables. A producer before the claim of an index; with none
-- in range; with one; with the block too; behind the store; and, for the next block, at the lock;
-- behind it; behind the store of the block; behind its entry in the queue of blocks; behind the store
-- of the index. The consumer at the lock of the queue of blocks; behind it; with the oldest block; at
-- the block to read; and, behind the last line of a block, at the lock; behind it; behind the removal
-- of the block.
pub data Pc : Type 0 where
  idle : Pc
  pushing waiting : LogLine → Pc
  claimed : (index : ℕ) → LogLine → Pc
  loaded : (address index : ℕ) → LogLine → Pc
  written : (address index : ℕ) → Pc
  opening entered queued opened : Pc
  stored : (address : ℕ) → Pc
  seeking sought found reading : Pc
  finishing freeing freed : LogLine → Pc

-- What follows a lock, and what follows an unlock.
abbrev pub behind_lock : Pc → Option Pc
behind_lock opening = some entered
behind_lock seeking = some sought
behind_lock (finishing l) = some (freeing l)
behind_lock _ = none

abbrev pub behind_unlock : Pc → Option Pc
behind_unlock opened = some idle
behind_unlock found = some reading
behind_unlock (freed l) = some idle
behind_unlock _ = none

-- One access by thread `a`.
pub data Move (size : ℕ) (m : Memory) (a : ℕ) : Pc → Memory → Pc → Type 0 where
  begins : (l : LogLine) → a ≢ 0 → Move size m a idle m (pushing l)
  claims :
      {i : ℕ} {q : QueueBuffer} {l : LogLine}
      → claim m.queue ≡ (i, q)
      → i < size
      → Move size m a (pushing l) (record m { queue = q }) (claimed i l)
  overshoots :
      {i : ℕ} {q : QueueBuffer} {l : LogLine}
      → claim m.queue ≡ (i, q)
      → size ≤ i
      → Move size m a (pushing l) (record m { queue = q }) (waiting l)
  waits : {l : LogLine} → size ≤ m.queue.write_index → Move size m a (waiting l) m (waiting l)
  retries : {l : LogLine} → m.queue.write_index < size → Move size m a (waiting l) m (pushing l)
  loads :
      {i : ℕ} {l : LogLine}
      → Move size m a (claimed i l) m (loaded m.queue.current_write_buffer i l)
  writes :
      {p i : ℕ} {l : LogLine} {q : QueueBuffer}
      → write_at p l i m.queue ≡ some q
      → Move size m a (loaded p i l) (record m { queue = q }) (written p i)
  counts :
      {p i : ℕ} {q : QueueBuffer}
      → count_at size p m.queue ≡ some (false, q)
      → Move size m a (written p i) (record m { queue = q }) idle
  completes :
      {p i : ℕ} {q : QueueBuffer}
      → count_at size p m.queue ≡ some (true, q)
      → Move size m a (written p i) (record m { queue = q }) opening
  spins :
      {p p' : Pc}
      → behind_lock p ≡ some p'
      → (test_and_set 0 m.flags).0 ≡ true
      → Move size m a p (record m { flags = (test_and_set 0 m.flags).1 }) p
  locks :
      {p p' : Pc}
      → behind_lock p ≡ some p'
      → (test_and_set 0 m.flags).0 ≡ false
      → Move size m a p (record m { flags = (test_and_set 0 m.flags).1 }) p'
  unlocks :
      {p p' : Pc}
      → behind_unlock p ≡ some p'
      → Move size m a p (record m { flags = clear 0 m.flags }) p'
  stores :
      Move size m a entered
        (record m { queue = open_block size m.queue })
        (stored m.queue.next_address)
  queues : {p : ℕ} → Move size m a (stored p) (record m { queue = queue_block p m.queue }) queued
  resets : Move size m a queued (record m { queue = reset_index m.queue }) opened
  seeks : a ≡ 0 → m.queue.current_read_buffer ≡ none → Move size m a idle m seeking
  polls : {p : ℕ} → a ≡ 0 → m.queue.current_read_buffer ≡ some p → Move size m a idle m reading
  fronts :
      Move size m a sought
        (record m { queue = record m.queue { current_read_buffer = get_next_read_buffer m.queue } })
        found
  finds_none : m.queue.current_read_buffer ≡ none → Move size m a reading m idle
  misses :
      {p : ℕ} {b b' : Buffer}
      → m.queue.current_read_buffer ≡ some p
      → m.queue.heap p ≡ some b
      → read_item m.queue.read_index b ≡ some (none, b')
      → Move size m a reading m idle
  takes :
      {p : ℕ} {l : LogLine} {b b' : Buffer}
      → m.queue.current_read_buffer ≡ some p
      → m.queue.heap p ≡ some b
      → read_item m.queue.read_index b ≡ some (some l, b')
      → (m.queue.read_index + 1) % uint_max ≢ size
      → Move size m a reading
          (record m {
            queue = record m.queue {
              heap = update m.queue.heap p (some b');
              read_index = (m.queue.read_index + 1) % uint_max;
            };
          })
          idle
  finishes :
      {p : ℕ} {l : LogLine} {b b' : Buffer}
      → m.queue.current_read_buffer ≡ some p
      → m.queue.heap p ≡ some b
      → read_item m.queue.read_index b ≡ some (some l, b')
      → (m.queue.read_index + 1) % uint_max ≡ size
      → Move size m a reading
          (record m {
            queue = record m.queue {
              heap = update m.queue.heap p (some b');
              read_index = 0;
              current_read_buffer = none;
            };
          })
          (finishing l)
  frees :
      {l : LogLine} {q : QueueBuffer}
      → pop_buffer m.queue ≡ some q
      → Move size m a (freeing l) (record m { queue = q }) (freed l)

abbrev pub update_pc : ℕ → Pc → (ℕ → Pc) → ℕ → Pc
update_pc a p pc b = if b == a then p else pc b

pub record System : Type 0 where
  pub mem : Memory
  pub pc : ℕ → Pc

-- Every thread is idle, and the lock is free.
abbrev pub start : ℕ → System
start size = record {
  mem = record { queue = queue_buffer size; flags = λ _. false };
  pc = λ _. idle;
}

-- A run of the threads on a new queue buffer.
pub data Run (size : ℕ) : System → Type 0 where
  nothing : Run size (start size)
  more :
      {s : System} (a : ℕ) {m : Memory} {p : Pc}
      → Run size s
      → Move size s.mem a (s.pc a) m p
      → Run size (record { mem = m; pc = update_pc a p s.pc })

-- No `fetch_add` of the run makes the write index wrap around: fewer than 2^32 calls at a time
-- between one block and the next.
abbrev pub NoWrap : {size : ℕ} {s : System} → Run size s → Type 0
NoWrap nothing = Unit
NoWrap (more {s = s} a r mv) = (s.mem.queue.write_index + 1 < uint_max) × NoWrap r
