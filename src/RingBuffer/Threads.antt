-- ===== src/RingBuffer/Threads.antt =====
-- The calls of src/ringbuffer.cpp by threads that take turns in any order, one access to the shared
-- memory at a time: `push` by any thread but thread 0, which is the consumer and calls `tryPop`.
pub mod Exclusion
mod Pending
pub mod Atomic
mod Tests
use zephyrlog.Prelude.{
  ℕ, ◌+◌, ◌%◌, ◌≡◌, ◌≢◌, Option, none, some, List, [], ◌∷◌, ◌++◌, get_elem?, set, Bool, true, false,
  ◌==◌, if◌then◌else◌,
}
use zephyrlog.LogLine.{LogLine}
use zephyrlog.LogLine.Moved.{moved_from, moved_to}
use zephyrlog.RingBuffer.{Item, RingBuffer, uint_max, claim}
use zephyrlog.SpinLock.{Flags, test_and_set, clear}

-- The flag of an item stands beside the ring, under the item's index.
pub record Memory : Type 0 where
  pub ring : RingBuffer
  pub flags : Flags

-- Where a thread stands, with its live variables: a producer that has claimed an index, at the lock
-- of the item; behind it; behind the move of the line; behind the mark. The consumer at the lock;
-- behind it; behind the move; behind the clearing of the mark; behind the increment of the index; and
-- where the item was not written.
pub data Pc : Type 0 where
  idle : Pc
  claimed entered moved marked : (index : ℕ) → LogLine → Pc
  polling checking missed : (index : ℕ) → Pc
  took cleared advanced : (index : ℕ) → LogLine → Pc

abbrev pub set_item : ℕ → Item → Memory → Memory
set_item i item m = record m { ring = record m.ring { ring = set m.ring.ring i item } }

-- One access by thread `a`.
pub data Move (m : Memory) (a : ℕ) : Pc → Memory → Pc → Type 0 where
  claims :
      {i : ℕ} {r : RingBuffer} (l : LogLine)
      → a ≢ 0
      → claim m.ring ≡ some (i, r)
      → Move m a idle (record m { ring = r }) (claimed i l)
  spins :
      {i : ℕ} {l : LogLine}
      → (test_and_set i m.flags).0 ≡ true
      → Move m a (claimed i l) (record m { flags = (test_and_set i m.flags).1 }) (claimed i l)
  locks :
      {i : ℕ} {l : LogLine}
      → (test_and_set i m.flags).0 ≡ false
      → Move m a (claimed i l) (record m { flags = (test_and_set i m.flags).1 }) (entered i l)
  moves :
      {i : ℕ} {l : LogLine} {item : Item}
      → get_elem? m.ring.ring i ≡ some item
      → Move m a (entered i l) (set_item i (record item { logline = moved_to l }) m) (moved i l)
  marks :
      {i : ℕ} {l : LogLine} {item : Item}
      → get_elem? m.ring.ring i ≡ some item
      → Move m a (moved i l) (set_item i (record item { written = 1 }) m) (marked i l)
  unlocks :
      {i : ℕ} {l : LogLine} → Move m a (marked i l) (record m { flags = clear i m.flags }) idle
  polls :
      {i : ℕ}
      → a ≡ 0
      → m.ring.size ≢ 0
      → i ≡ m.ring.read_index % m.ring.size
      → Move m a idle m (polling i)
  consumer_spins :
      {i : ℕ}
      → (test_and_set i m.flags).0 ≡ true
      → Move m a (polling i) (record m { flags = (test_and_set i m.flags).1 }) (polling i)
  consumer_locks :
      {i : ℕ}
      → (test_and_set i m.flags).0 ≡ false
      → Move m a (polling i) (record m { flags = (test_and_set i m.flags).1 }) (checking i)
  misses :
      {i : ℕ} {item : Item}
      → get_elem? m.ring.ring i ≡ some item
      → item.written ≢ 1
      → Move m a (checking i) m (missed i)
  takes :
      {i : ℕ} {item : Item}
      → get_elem? m.ring.ring i ≡ some item
      → item.written ≡ 1
      → Move m a
          (checking i)
          (set_item i (record item { logline = moved_from item.logline }) m)
          (took i (moved_to item.logline))
  clears :
      {i : ℕ} {l : LogLine} {item : Item}
      → get_elem? m.ring.ring i ≡ some item
      → Move m a (took i l) (set_item i (record item { written = 0 }) m) (cleared i l)
  advances :
      {i : ℕ} {l : LogLine}
      → Move m a
          (cleared i l)
          (record m { ring = record m.ring { read_index = (m.ring.read_index + 1) % uint_max } })
          (advanced i l)
  returns_true :
      {i : ℕ} {l : LogLine} → Move m a (advanced i l) (record m { flags = clear i m.flags }) idle
  returns_false : {i : ℕ} → Move m a (missed i) (record m { flags = clear i m.flags }) idle

abbrev pub update_pc : ℕ → Pc → (ℕ → Pc) → ℕ → Pc
update_pc a p pc b = if b == a then p else pc b

pub record System : Type 0 where
  pub mem : Memory
  pub pc : ℕ → Pc

-- Every thread is idle, and every lock is free.
abbrev pub start : RingBuffer → System
start r = record { mem = record { ring = r; flags = λ _. false }; pc = λ _. idle }

pub data Event : Type 0 where
  silent missing : Event
  claiming : (index : ℕ) → Event
  publishing : (index : ℕ) → LogLine → Event
  popping : LogLine → Event

-- A call takes effect in one of its accesses: a publication in the move of the line, a `tryPop` in
-- the test of the mark.
abbrev pub event : {m m' : Memory} {a : ℕ} {p p' : Pc} → Move m a p m' p' → Event
event (claims {i} l g e) = claiming i
event (moves {i} {l} e) = publishing i l
event (takes {item = item} e w) = popping item.logline
event (misses e w) = missing
event _ = silent

-- A run of the threads with its events, the last one first.
pub data Trace (r : RingBuffer) : List Event → System → Type 0 where
  nothing : Trace r [] (start r)
  more :
      {es : List Event} {s : System} (a : ℕ) {m : Memory} {p : Pc}
      → Trace r es s
      → (mv : Move s.mem a (s.pc a) m p)
      → Trace r (event mv ∷ es) (record { mem = m; pc = update_pc a p s.pc })
