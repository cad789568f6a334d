-- ===== src/QueueBuffer/Threads/Blank.antt =====
-- The items that are still to be written are raw memory, under every move.
use zephyrlog.Prelude.{
  ℕ, ◌+◌, ◌%◌, ◌<◌, ◌≡◌, ◌≢◌, refl, sym, ap, ◌∙◌, subst, Option, none, some, List, ◌∷◌, true, false,
  ◌==◌, arith, Bool-cases, inl, inr, get_elem?, get_elem?-set_ne, get_elem?-replicate,
}
use zephyrlog.LogLine.{LogLine}
use zephyrlog.SpinLock.{Flags}
use zephyrlog.QueueBuffer.{
  Buffer, buffer, QueueBuffer, uint_max, update, claim, open_block, read_item,
}
use zephyrlog.QueueBuffer.Threads.{
  Memory, Pc, written, freeing, System, Move, claims, overshoots, writes, counts, completes, stores,
  takes, finishes, frees,
}
use zephyrlog.QueueBuffer.Threads.Places.{pending, uncounted, opens, renews}
use zephyrlog.QueueBuffer.Threads.Frames.{
  count_at-frame, write_at-frame, read_item-frame, pop_buffer-frame,
}
use zephyrlog.QueueBuffer.Threads.Counted.{Counted, after, uncounted-closed}
use zephyrlog.QueueBuffer.Threads.Rooms.{Room, ahead, held, renewing, BlankAt, storing}

-- Another block under an address.
BlankAt-update :
    (q q' : QueueBuffer) (p j : ℕ) (b b' : Buffer)
    → q.heap p ≡ some b
    → (p ≡ q.current_write_buffer → get_elem? b'.items j ≡ get_elem? b.items j)
    → get_elem? b'.write_state j ≡ get_elem? b.write_state j
    → q' ≡ record q { heap = update q.heap p (some b') }
    → BlankAt q j
    → BlankAt q' j
BlankAt-update q q' p j b b' at items states next (c, k, blank, zero_state) =
    let other : BlankAt (record q { heap = update q.heap p (some b') }) j =
      elim (Bool-cases (q.current_write_buffer == p)) [
        | inl same ↦
            let one : b ≡ c = ground arith in
            (
              b',
              ground arith,
              items (ground arith) ∙ ap (λ (x : Buffer). get_elem? x.items j) one ∙ blank,
              states ∙ ap (λ (x : Buffer). get_elem? x.write_state j) one ∙ zero_state,
            )
        | inr differs ↦ (c, ground arith, blank, zero_state)
      ] in
    subst (λ (x : QueueBuffer). BlankAt x j) (sym next) other

-- An item that the consumer has read was written.
pub read-other :
    (q : QueueBuffer) (j p i : ℕ) (b : Buffer)
    → q.heap p ≡ some b
    → get_elem? b.write_state i ≡ some 1
    → p ≡ q.current_write_buffer
    → BlankAt q j
    → i ≢ j
read-other q j p i b at one same (c, k, blank, zero_state) h =
    let it : b ≡ c = ground (arith, ap q.heap same) in
    ground
      (arith, ap (λ (x : Buffer). get_elem? x.write_state i) it, ap (get_elem? c.write_state) h)

pub pending-uncounted : (p : Pc) {j : ℕ} → pending p ≡ some j → uncounted p ≡ some j
pending-uncounted p e = ground arith

renews-opens : (p : Pc) → renews p ≡ true → opens p ≡ true
renews-opens p e = ground arith

module _ {size : ℕ} {s : System} {f : Flags} (v : Counted size s f) (a : ℕ) (j : ℕ) where
  abbrev q : QueueBuffer
  q = s.mem.queue

  -- Behind a write the item is not among those to be written.
  written-other :
      (p i : ℕ) (m : Memory)
      → m.queue.write_index ≡ q.write_index
      → uncounted (s.pc a) ≡ some i
      → Room (after s a m (written p i)) j
      → i ≢ j
  written-other p i m index mine (ahead h) same =
      let (_, low) = v.bounded a i mine in absurd (omega (arith, h, index, low, same))
  written-other p i m index mine (held c h) same = elim (Bool-cases (c == a)) [
    | inl own ↦ cc (rw own at h)
    | inr differs ↦
        let other = pending-uncounted (s.pc c) (rw differs at h) in
        absurd (ground (arith, v.unique c a i (other ∙ ap some (sym same)) mine, differs))
  ]
  written-other p i m index mine (renewing c h) same = elim (Bool-cases (c == a)) [
    | inl own ↦ cc (rw own at h)
    | inr differs ↦
        cc (sym (uncounted-closed v a i mine c) ∙ renews-opens (s.pc c) (rw differs at h))
  ]

  -- The state that a read leaves, where the block stays.
  read-BlankAt :
      (p : ℕ) (l : LogLine) (b b' : Buffer) (q' : QueueBuffer)
      → q.heap p ≡ some b
      → read_item q.read_index b ≡ some (some l, b')
      → q'.heap ≡ update q.heap p (some b')
      → q'.current_write_buffer ≡ q.current_write_buffer
      → BlankAt q j
      → BlankAt q' j
  read-BlankAt p l b b' q' at r heap block blank =
      let (item, one, items, states, _) = read_item-frame q.read_index l b b' r in
      let (c, k, raw, rest) =
        BlankAt-update q (record q { heap = update q.heap p (some b') }) p j b b' at
          (λ same.
            ap (λ (xs : List (Option LogLine)). get_elem? xs j) items
            ∙ get_elem?-set_ne b.items (some item)
                (read-other q j p q.read_index b at one same blank))
          (ap (λ (xs : List ℕ). get_elem? xs j) states) refl blank in
      (
        c,
        ap (λ (g : ℕ → Option Buffer). g q'.current_write_buffer) heap
            ∙ ap (update q.heap p (some b')) block
            ∙ k,
        raw,
        rest,
      )

  -- A block is freed that is not the one to write.
  free-BlankAt :
      (p : ℕ) (q' : QueueBuffer)
      → p ≢ q.current_write_buffer
      → q'.heap ≡ update q.heap p none
      → q'.current_write_buffer ≡ q.current_write_buffer
      → BlankAt q j
      → BlankAt q' j
  free-BlankAt p q' other heap block (c, k, raw, rest) =
      let off : (q.current_write_buffer == p) ≡ false = ground arith in
      let there : update q.heap p none q.current_write_buffer ≡ some c = rw off k in
      (
        c,
        ap (λ (g : ℕ → Option Buffer). g q'.current_write_buffer) heap
            ∙ ap (update q.heap p none) block
            ∙ there,
        raw,
        rest,
      )

  pub Move-BlankAt :
      {p p' : Pc} {m : Memory}
      → Move size s.mem a p m p'
      → s.pc a ≡ p
      → storing p ≡ false
      → ((l : LogLine)
          → p ≡ freeing l
          → (front : ℕ) (rest : List ℕ) → q.buffers ≡ front ∷ rest
          → front ≢ q.current_write_buffer)
      → Room (after s a m p') j
      → BlankAt q j
      → BlankAt m.queue j
  unfolding claim
  Move-BlankAt (claims e h) here n free room (c, k, raw, rest) = (c, ground (arith, k), raw, rest)
  Move-BlankAt (overshoots e h) here n free room (c, k, raw, rest) =
      (c, ground (arith, k), raw, rest)
  Move-BlankAt {m = m} (writes {p} {i} {l} {q = q'} e) here n free room blank =
      let (b, b', at, next, items, states, _) = write_at-frame p i l q q' e in
      let other =
        written-other p i m (ap (λ (x : QueueBuffer). x.write_index) next) (ap uncounted here)
          room in
      BlankAt-update q q' p j b b' at
        (λ _.
          ap (λ (xs : List (Option LogLine)). get_elem? xs j) items
          ∙ get_elem?-set_ne b.items _ other)
        (ap (λ (xs : List ℕ). get_elem? xs j) states ∙ get_elem?-set_ne b.write_state 1 other) next
        blank
  Move-BlankAt (counts {p} {i} {q = q'} e) here n free room blank =
      let (b, at, _, next) = count_at-frame size p false q q' e in
      BlankAt-update q q' p j b (record b { write_count = (b.write_count + 1) % uint_max }) at
        (λ _. refl) refl next blank
  Move-BlankAt (completes {p} {i} {q = q'} e) here n free room blank =
      let (b, at, _, next) = count_at-frame size p true q q' e in
      BlankAt-update q q' p j b (record b { write_count = (b.write_count + 1) % uint_max }) at
        (λ _. refl) refl next blank
  Move-BlankAt stores here n free room blank = cc n
  Move-BlankAt {m = m} (takes {p} {l} {b} {b'} e h r _) here n free room blank =
      read-BlankAt p l b b' m.queue h r refl refl blank
  Move-BlankAt {m = m} (finishes {p} {l} {b} {b'} e h r _) here n free room blank =
      read-BlankAt p l b b' m.queue h r refl refl blank
  Move-BlankAt (frees {l} {q = q'} e) here n free room blank =
      let (p, rest, at, next) = pop_buffer-frame q q' e in
      free-BlankAt p q' (free l refl p rest at) (ap (λ (x : QueueBuffer). x.heap) next)
        (ap (λ (x : QueueBuffer). x.current_write_buffer) next) blank
  Move-BlankAt _ here n free room blank = blank

-- The items of a new block.
pub open_block-BlankAt :
    (size : ℕ) (q : QueueBuffer) (j : ℕ) → j < size → BlankAt (open_block size q) j
unfolding buffer
open_block-BlankAt size q j h = (
  buffer size,
  ground arith,
  get_elem?-replicate size j none h,
  get_elem?-replicate {A = ℕ} size j 0 h,
)
