-- ===== src/QueueBuffer/Threads/Safety.antt =====
-- What no thread of src/queuebuffer.cpp does: a producer write outside of a block, to a block that
-- was freed, or over a line, and the consumer read such a block, or an item with no line.
use zephyrlog.Prelude.{
  ℕ, ◌<◌, ◌≡◌, ◌≢◌, refl, ap, ◌∙◌, subst, Option, none, some, true, false, get_elem?, set,
  Bool-cases, inl, inr,
}
use zephyrlog.LogLine.{LogLine}
use zephyrlog.LogLine.Moved.{moved_to}
use zephyrlog.QueueBuffer.{Buffer, QueueBuffer, uint_max, update, write_item, write_at, read_item}
use zephyrlog.QueueBuffer.Threads.{loaded, System, Run, nothing, more, NoWrap}
use zephyrlog.QueueBuffer.Threads.Places.{pending, address, uncounted, opens}
use zephyrlog.QueueBuffer.Threads.Rooms.{held}
use zephyrlog.QueueBuffer.Threads.Sound.{read_item-Sound}
use zephyrlog.QueueBuffer.Threads.Alive.{AllLive, Alive}
use zephyrlog.QueueBuffer.Threads.Living.{start-Alive, Move-Alive}
use zephyrlog.QueueBuffer.Threads.Invariant.{Run-Inv}

write_at-blank :
    (q : QueueBuffer) (p i : ℕ) (l : LogLine) (b : Buffer)
    → q.heap p ≡ some b
    → get_elem? b.items i ≡ some none
    → (q' : QueueBuffer) × (write_at p l i q ≡ some q')
unfolding write_at write_item
write_at-blank q p i l b at raw =
    let b' : Buffer = record b {
      items = set b.items i (some (moved_to l));
      write_state = set b.write_state i 1;
    } in
    (record q { heap = update q.heap p (some b') }, rw (at, write_item, raw) refl)

-- In any run of the threads on a new queue buffer, with blocks of fewer than 2^32 items and no
-- `fetch_add` that makes the write index wrap around: a producer that has claimed an index and
-- loaded the block finds that block in the heap, the item under its index raw memory, and its state
-- 0, so that the line can be written.
pub loaded-write_at :
    (size a p i : ℕ) (l : LogLine) {s : System}
    → size < uint_max
    → (r : Run size s) → NoWrap r
    → s.pc a ≡ loaded p i l
    → (b : Buffer) × (q' : QueueBuffer) × (s.mem.queue.heap p ≡ some b)
      × (get_elem? b.items i ≡ some none)
      × (get_elem? b.write_state i ≡ some 0)
      × (write_at p l i s.mem.queue ≡ some q')
loaded-write_at size a p i l {s} short r fits here =
    let v = Run-Inv size short r fits in
    let (in_size, _) = v.counted.bounded a i (ap uncounted here) in
    let (b, at, raw, zero_state) = v.blank i in_size (held a (ap pending here)) in
    let block : p ≡ s.mem.queue.current_write_buffer = v.counted.current a p (ap address here) in
    let there : s.mem.queue.heap p ≡ some b = ap s.mem.queue.heap block ∙ at in
    let (q', written) = write_at-blank s.mem.queue p i l b there raw in
    (b, q', there, raw, zero_state, written)

-- In any run of the threads on a new queue buffer, with blocks of fewer than 2^32 items and no
-- `fetch_add` that makes the write index wrap around: while a producer opens the next block, from
-- the count that completes a block to the store of the index, no other producer opens one, and none
-- has an index that is still to be written or counted.
pub opens-alone :
    (size a b : ℕ) {s : System}
    → size < uint_max
    → (r : Run size s) → NoWrap r
    → a ≢ b
    → opens (s.pc a) ≡ true
    → (opens (s.pc b) ≡ false) × (uncounted (s.pc b) ≡ none)
opens-alone size a b {s} short r fits other on =
    let v = (Run-Inv size short r fits).counted in
    let (_, quiet) = v.full a on in
    (
      elim (Bool-cases (opens (s.pc b))) [
        | inl both ↦ absurd (other (v.one a b on both))
        | inr off ↦ off
      ],
      quiet b,
    )

-- In any run of the threads on a new queue buffer, with blocks of fewer than 2^32 items and no
-- `fetch_add` that makes the write index wrap around: an index that a producer has claimed and not
-- yet counted is in the block, and no other producer has it.
pub claims-apart :
    (size a b i : ℕ) {s : System}
    → size < uint_max
    → (r : Run size s) → NoWrap r
    → a ≢ b
    → uncounted (s.pc a) ≡ some i
    → (i < size) × (uncounted (s.pc b) ≢ some i)
claims-apart size a b i short r fits other mine =
    let v = (Run-Inv size short r fits).counted in
    let (in_size, _) = v.bounded a i mine in (in_size, λ same. other (v.unique a b i mine same))

pub Run-Alive :
    (size : ℕ) {s : System}
    → 0 < size
    → size < uint_max
    → (r : Run size s) → NoWrap r
    → Alive size s
Run-Alive size some_item short nothing fits = start-Alive size some_item
Run-Alive size some_item short (more {s = s} a r mv) (small, fits) =
    let v = Run-Inv size short r fits in
    Move-Alive v.counted v.reader (Run-Alive size some_item short r fits) a short mv refl

-- In any run of the threads on a new queue buffer, with blocks of one item at least and fewer than
-- 2^32 and no `fetch_add` that makes the write index wrap around: the block that the consumer has
-- at hand is in the heap, and its `tryPop` at the read index is within the block and, where the
-- state is 1, finds a line.
pub current-read_item :
    (size p : ℕ) {s : System}
    → 0 < size
    → size < uint_max
    → (r : Run size s) → NoWrap r
    → s.mem.queue.current_read_buffer ≡ some p
    → (b : Buffer) × (out : Option LogLine) × (b' : Buffer) × (s.mem.queue.heap p ≡ some b)
      × (read_item s.mem.queue.read_index b ≡ some (out, b'))
current-read_item size p {s} some_item short r fits e =
    let alive = Run-Alive size some_item short r fits in
    let (rest, owned) = (Run-Inv size short r fits).reader.owner p e in
    let ((b, at), _) = subst (AllLive s.mem.queue.heap) owned alive.live in
    let (out, b', k) =
      read_item-Sound size s.mem.queue.read_index b (alive.sound p b at) alive.index_low in
    (b, out, b', at, k)
