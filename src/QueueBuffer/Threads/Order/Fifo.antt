-- ===== src/QueueBuffer/Threads/Order/Fifo.antt =====
-- The lines come out of a queue buffer in the order in which their indices were claimed, whatever the
-- turns of the threads of src/queuebuffer.cpp.
use zephyrlog.Prelude.{
  ℕ, zero, ◌+◌, ◌≤◌, ◌<◌, suc, ◌≡◌, ◌≢◌, ◌⊎◌, length-append, refl, sym, ap, ◌∙◌, none, some, List,
  [], ◌∷◌, ◌++◌, length, Bool, true, false, get_elem?, arith, Bool-cases, inl, inr, append-nil,
}
use zephyrlog.LogLine.{LogLine}
use zephyrlog.QueueBuffer.{Buffer, QueueBuffer, uint_max, read_item, get_next_read_buffer}
use zephyrlog.QueueBuffer.Calls.{addresses}
use zephyrlog.QueueBuffer.Threads.{Pc, claimed, loaded, sought, System, Run, nothing, more, NoWrap}
use zephyrlog.QueueBuffer.Threads.Places.{pending, carries, removes, consumes, seeks_block}
use zephyrlog.QueueBuffer.Threads.Frames.{read_item-none}
use zephyrlog.QueueBuffer.Threads.Invariant.{Run-Inv}
use zephyrlog.QueueBuffer.Threads.Safety.{Run-Alive}
use zephyrlog.QueueBuffer.Threads.Order.{claimed_lines, delivered_lines}
use zephyrlog.QueueBuffer.Threads.Order.Offset.{offset, offset-add_one}
use zephyrlog.QueueBuffer.Threads.Order.Phase.{Phase, settled, storing, renewing}
use zephyrlog.QueueBuffer.Threads.Order.Ordered.{Ordered, progress, start-Ordered}
use zephyrlog.QueueBuffer.Threads.Order.Consuming.{oldest_place}
use zephyrlog.QueueBuffer.Threads.Order.Content.{Content}
use zephyrlog.QueueBuffer.Threads.Order.Moves.{Move-Ordered}

Run-Ordered :
    (size : ℕ) {s : System}
    → 0 < size
    → size < uint_max
    → (r : Run size s) → NoWrap r
    → Ordered size s (claimed_lines r) (delivered_lines r)
Run-Ordered size some_item short nothing fits = start-Ordered size
Run-Ordered size some_item short (more {s = s} a r mv) (small, fits) =
    let v = Run-Inv size short r fits in
    Move-Ordered v.counted v.reader (Run-Alive size some_item short r fits)
      (Run-Ordered size some_item short r fits) a short small mv refl

-- In any run of the threads on a new queue buffer, with blocks of one item at least and fewer than
-- 2^32 and no `fetch_add` that makes the write index wrap around: the lines that the calls of
-- `tryPop` have moved out are the first of those that a `push` has claimed an index for, each once
-- and in the order of the claims.
pub delivered_lines-claimed_lines :
    (size : ℕ) {s : System}
    → 0 < size
    → size < uint_max
    → (r : Run size s) → NoWrap r
    → (rest : List LogLine) × (claimed_lines r ≡ delivered_lines r ++ rest)
delivered_lines-claimed_lines size some_item short r fits =
    let v = Run-Ordered size some_item short r fits in (v.rest, v.prefix)

List-cases :
    (xs : List LogLine) → (xs ≡ []) ⊎ ((l : LogLine) × (rest : List LogLine) × (xs ≡ l ∷ rest))
List-cases [] = inl refl
List-cases (l ∷ rest) = inr (l, rest, refl)

pending-carries : (p : Pc) {i : ℕ} → pending p ≡ some i → (l : LogLine) × (carries p ≡ some (i, l))
pending-carries (claimed j l) e = (l, ap (λ (x : ℕ). some (x, l)) (cc e))
pending-carries (loaded p j l) e = (l, ap (λ (x : ℕ). some (x, l)) (cc e))
pending-carries _ e = cc e

length-get_elem? :
    (out rest : List LogLine) (l : LogLine) → get_elem? (out ++ l ∷ rest) (length out) ≡ some l
length-get_elem? [] rest l = refl
length-get_elem? (x ∷ out) rest l = length-get_elem? out rest l

-- The next line to deliver waits for a thread, where its item does not show it.
next_carried :
    {size : ℕ} {s : System} {lines out : List LogLine}
    → Content size s lines out
    → (p : ℕ) (b : Buffer) (l : LogLine) (rest : List LogLine) → lines ≡ out ++ l ∷ rest
    → s.mem.queue.heap p ≡ some b
    → get_elem? b.write_state s.mem.queue.read_index ≢ some 1
    → s.mem.queue.read_index < size
    → length out + size ≡ offset size p + s.mem.queue.read_index
    → (a : ℕ) × (carries (s.pc a) ≡ some (s.mem.queue.read_index, l))
next_carried {size} {s} {lines} {out} v p b l rest prefix at state low place =
    let long : length lines ≡ length out + suc (length rest) =
      ap (length {0}) prefix ∙ length-append out (l ∷ rest) in
    let (a, waits, current) =
      v.hidden p b s.mem.queue.read_index (length out) at state low place (omega (arith, long)) in
    let (l', held) = pending-carries (s.pc a) waits in
    let here : get_elem? lines (length out) ≡ some l' =
      v.held a s.mem.queue.read_index (length out) l' held
        (place ∙ ap (λ (x : ℕ). offset size x + s.mem.queue.read_index) current) in
    let there : get_elem? lines (length out) ≡ some l =
      ap (λ (xs : List LogLine). get_elem? xs (length out)) prefix ∙ length-get_elem? out rest l in
    let same : l' ≡ l = cc (sym here ∙ there) in
    (a, held ∙ ap (λ (x : LogLine). some (s.mem.queue.read_index, x)) same)

-- In any run of the threads on a new queue buffer, with blocks of one item at least and fewer than
-- 2^32 and no `fetch_add` that makes the write index wrap around: where a `tryPop` finds no line in
-- the block that the consumer has at hand, every line claimed has been moved out, or a thread has
-- the index of this very item and, not yet written, the next line that is to come out.
pub misses-carries :
    (size p : ℕ) (b b' : Buffer) {s : System}
    → 0 < size
    → size < uint_max
    → (r : Run size s) → NoWrap r
    → s.mem.queue.current_read_buffer ≡ some p
    → s.mem.queue.heap p ≡ some b
    → read_item s.mem.queue.read_index b ≡ some (none, b')
    → (claimed_lines r ≡ delivered_lines r)
      ⊎ ((a : ℕ) × (l : LogLine) × (rest : List LogLine) × (carries (s.pc a)
            ≡ some (s.mem.queue.read_index, l))
          × (claimed_lines r ≡ delivered_lines r ++ l ∷ rest))
misses-carries size p b b' {s} some_item short r fits e at miss =
    let v = Run-Ordered size some_item short r fits in
    let reader = (Run-Inv size short r fits).reader in
    let alive = Run-Alive size some_item short r fits in
    let not_done : removes (s.pc 0) ≡ false = elim (Bool-cases (removes (s.pc 0))) [
      | inl on ↦ cc (sym e ∙ (reader.places 0).removes_none on)
      | inr off ↦ off
    ] in
    let (_, place) = oldest_place reader alive v 0 p not_done e in
    let state = read_item-none s.mem.queue.read_index b b' miss in
    elim (List-cases v.rest) [
      | inl ended ↦
          inl (v.prefix ∙ ap (◌++◌ (delivered_lines r)) ended ∙ append-nil (delivered_lines r))
      | inr (l, rest, more_lines) ↦
          let prefix = v.prefix ∙ ap (◌++◌ (delivered_lines r)) more_lines in
          let (a, held) = next_carried v.content p b l rest prefix at state alive.index_low place in
          inr (a, l, rest, held, prefix)
    ]

get_next_read_buffer-none : (q : QueueBuffer) → get_next_read_buffer q ≡ none → q.buffers ≡ []
unfolding get_next_read_buffer
get_next_read_buffer-none q e = ground (arith, e)

addresses_nil : (first others : ℕ) → [] ≡ addresses first others → others ≡ 0
addresses_nil first zero e = refl
addresses_nil first (suc n) e = cc e

-- With no block in the queue, as many lines are delivered as are claimed.
same_length :
    {size : ℕ} {s : System} {n g k first : ℕ}
    → Phase size s n g
    → g ≡ first
    → s.mem.queue.next_address ≡ s.mem.queue.current_write_buffer + 1
    → k + size ≡ offset size first
    → k ≤ n
    → n ≡ k
same_length {size} {s} {first = first} (settled quiet e h) at last place low =
    let here : first ≡ s.mem.queue.current_write_buffer + 1 = omega (arith, at, e, last) in
    omega (
      arith,
      h,
      low,
      place,
      ap (offset size) here,
      offset-add_one size s.mem.queue.current_write_buffer,
    )
same_length {size} {s} {first = first} (storing a there e h) at last place low =
    let here : first ≡ s.mem.queue.current_write_buffer = omega (arith, at, e, last) in
    omega (arith, h, place, ap (offset size) here)
same_length {size} {s} {first = first} (renewing a there e h) at last place low =
    let here : first ≡ s.mem.queue.current_write_buffer + 1 = omega (arith, at, e, last) in
    omega (
      arith,
      h,
      low,
      place,
      ap (offset size) here,
      offset-add_one size s.mem.queue.current_write_buffer,
    )

same_lines :
    (lines out rest : List LogLine) → lines ≡ out ++ rest → length lines ≡ length out → lines ≡ out
same_lines lines out [] prefix e = prefix ∙ append-nil out
same_lines lines out (l ∷ rest) prefix e =
    let long : length lines ≡ length out + suc (length rest) =
      ap (length {0}) prefix ∙ length-append out (l ∷ rest) in
    absurd (omega (arith, e, long))

-- In any run of the threads on a new queue buffer, with blocks of one item at least and fewer than
-- 2^32 and no `fetch_add` that makes the write index wrap around: where the consumer looks for the
-- oldest block and the queue of blocks is empty, every line claimed has been moved out.
pub fronts-claimed_lines :
    (size : ℕ) {s : System}
    → 0 < size
    → size < uint_max
    → (r : Run size s) → NoWrap r
    → s.pc 0 ≡ sought
    → get_next_read_buffer s.mem.queue ≡ none
    → claimed_lines r ≡ delivered_lines r
fronts-claimed_lines size {s} some_item short r fits here e =
    let v = Run-Ordered size some_item short r fits in
    let reader = (Run-Inv size short r fits).reader in
    let none_left =
      addresses_nil v.first v.others (sym (get_next_read_buffer-none s.mem.queue e) ∙ v.owned) in
    let start : s.mem.queue.read_index ≡ 0 =
      reader.start_index ((reader.places 0).seeks_none (ap seeks_block here)) in
    let place : length (delivered_lines r) + size ≡ offset size v.first =
      v.read_place
      ∙ ap (λ (d : Bool). offset size v.first + progress size d s.mem.queue.read_index)
          (ap removes here)
      ∙ omega (arith, start) in
    let long = ap (length {0}) v.prefix ∙ length-append (delivered_lines r) v.rest in
    same_lines (claimed_lines r) (delivered_lines r) v.rest v.prefix
      (same_length v.phase (omega (arith, none_left)) v.next_eq place (omega (arith, long)))

-- Only thread 0 is in `tryPop`.
pub consumes-single :
    (size a : ℕ) {s : System}
    → size < uint_max
    → (r : Run size s) → NoWrap r
    → consumes (s.pc a) ≡ true
    → a ≡ 0
consumes-single size a short r fits = ((Run-Inv size short r fits).reader.places a).single
