-- ===== src/QueueBuffer/Threads/Order/Consuming.antt =====
-- The order of the lines behind a read and behind the removal of a block.
use zephyrlog.Prelude.{
  ℕ, zero, suc, ◌+◌, ◌≡◌, refl, sym, ap, ◌∙◌, subst, Option, none, some, List, [], ◌∷◌, ◌++◌,
  length, Bool, true, false, ◌==◌, get_elem?, min, arith, Bool-cases, inl, inr, append_assoc,
  length-append,
}
use zephyrlog.LogLine.{LogLine}
use zephyrlog.QueueBuffer.{Buffer, QueueBuffer, update, read_item}
use zephyrlog.QueueBuffer.Calls.{addresses}
use zephyrlog.QueueBuffer.Threads.{Memory, Pc, reading, freeing, freed, System}
use zephyrlog.QueueBuffer.Threads.Places.{pending, carries, renews, removes, consumes}
use zephyrlog.QueueBuffer.Threads.Frames.{read_item-frame, read_item-line}
use zephyrlog.QueueBuffer.Threads.Counted.{after}
use zephyrlog.QueueBuffer.Threads.Reader.{Reader}
use zephyrlog.QueueBuffer.Threads.Alive.{Alive}
use zephyrlog.QueueBuffer.Threads.Order.Offset.{offset}
use zephyrlog.QueueBuffer.Threads.Order.Phase.{Phase, Phase_keep}
use zephyrlog.QueueBuffer.Threads.Order.Content.{Content-keep, SameItems}
use zephyrlog.QueueBuffer.Threads.Order.Reads.{Content-reads}
use zephyrlog.QueueBuffer.Threads.Order.Ordered.{Ordered, progress}

-- What follows the lines delivered starts with the one in their next place.
next_line :
    (out rest : List LogLine) (l : LogLine)
    → get_elem? (out ++ rest) (length out) ≡ some l
    → (rest' : List LogLine) × (rest ≡ l ∷ rest')
next_line [] [] l e = cc e
next_line [] (x ∷ rest) l e = (rest, ap (λ (y : LogLine). y ∷ rest) (cc e))
next_line (x ∷ out) rest l e = next_line out rest l e

addresses-cons :
    (first others p : ℕ) (ps : List ℕ)
    → p ∷ ps ≡ addresses first others
    → (n : ℕ) × (others ≡ suc n) × (p ≡ first) × (ps ≡ addresses (suc first) n)
addresses-cons first zero p ps e = cc e
addresses-cons first (suc n) p ps e = (n, refl, cc e, cc e)

module _ {size : ℕ} {s : System} {lines out : List LogLine} (r : Reader size s)
    (alive : Alive size s) (v : Ordered size s lines out) (a : ℕ) where
  abbrev q : QueueBuffer
  q = s.mem.queue

  -- The block at hand is the oldest, and the next line to deliver is the one at the read index.
  pub oldest_place :
      (p : ℕ)
      → removes (s.pc 0) ≡ false
      → q.current_read_buffer ≡ some p
      → (p ≡ v.first) × (length out + size ≡ offset size p + q.read_index)
  oldest_place p not_done e =
      let (_, owner) = r.owner p e in
      let (_, _, front, _) = addresses-cons v.first v.others p _ (sym owner ∙ v.owned) in
      (
        front,
        v.read_place
            ∙ ap (λ (d : Bool). offset size v.first + progress size d q.read_index) not_done
            ∙ ap (λ (x : ℕ). offset size x + q.read_index) (sym front),
      )

  -- The item at the read index has that line.
  pub read_line :
      (p : ℕ) (l : LogLine) (b b' : Buffer)
      → removes (s.pc 0) ≡ false
      → q.current_read_buffer ≡ some p
      → q.heap p ≡ some b
      → read_item q.read_index b ≡ some (some l, b')
      → (p ≡ v.first)
        × (length out + size ≡ offset size p + q.read_index)
        × (rest : List LogLine) × (v.rest ≡ l ∷ rest)
  read_line p l b b' not_done e h k =
      let (_, one, _, _, _) = read_item-frame q.read_index l b b' k in
      let (front, place) = oldest_place p not_done e in
      let it : get_elem? lines (length out) ≡ some l =
        v.content.shown p b q.read_index (length out) l h one (read_item-line q.read_index l b b' k)
          place (omega arith) in
      let (rest, starts) =
        next_line out v.rest l
          (ap (λ (xs : List LogLine). get_elem? xs (length out)) (sym v.prefix) ∙ it) in
      (front, place, rest, starts)

  -- A read, of the last item of the block or of one before it.
  pub reads-Ordered :
      (p : ℕ) (l : LogLine) (b b' : Buffer) (m : Memory) (p' : Pc)
      → s.pc a ≡ reading
      → q.current_read_buffer ≡ some p
      → q.heap p ≡ some b
      → read_item q.read_index b ≡ some (some l, b')
      → renews p' ≡ false
      → pending p' ≡ none
      → carries p' ≡ none
      → m.queue.heap ≡ update q.heap p (some b')
      → m.queue.current_write_buffer ≡ q.current_write_buffer
      → m.queue.next_address ≡ q.next_address
      → m.queue.buffers ≡ q.buffers
      → min m.queue.write_index size ≡ min q.write_index size
      → progress size (removes p') m.queue.read_index ≡ q.read_index + 1
      → Ordered size (after s a m p') lines (out ++ l ∷ [])
  reads-Ordered p l b b' m p' here e h k off pend carr heap block last buffers index next =
      let consumer : a ≡ 0 = (r.places a).single (ap consumes here) in
      let mine : s.pc 0 ≡ reading = ap s.pc (sym consumer) ∙ here in
      let (front, place, rest, starts) = read_line p l b b' (ap removes mine) e h k in
      let (x, one, items, states, _) = read_item-frame q.read_index l b b' k in
      let own : (0 == a) ≡ true = ground (arith, consumer) in
      record {
        first = v.first;
        others = v.others;
        rest = rest;
        prefix =
            v.prefix
            ∙ ap (λ (xs : List LogLine). out ++ xs) starts
            ∙ sym (append_assoc out (l ∷ []) rest);
        owned = buffers ∙ v.owned;
        next_eq = last ∙ v.next_eq ∙ ap (λ (y : ℕ). y + 1) (sym block);
        phase = Phase_keep a m p' (ap renews here) off last block index v.phase;
        read_place =
            rw own (omega (arith, place, next, length-append out (l ∷ []), ap (offset size) front));
        content =
            Content-reads v.content a m p' p q.read_index l x b b' (carr ∙ sym (ap carries here))
              (pend ∙ sym (ap pending here)) h alive.index_low place items states heap block;
      }

  free-SameItems : (q' : QueueBuffer) (p : ℕ) → q'.heap ≡ update q.heap p none → SameItems q q'
  free-SameItems q' p heap x b e =
      let e' = ap (λ (g : ℕ → Option Buffer). g x) (sym heap) ∙ e in
      elim (Bool-cases (x == p)) [
        | inl same ↦ cc (rw same at e')
        | inr other ↦ (b, rw other at e', refl, refl)
      ]

  pub frees-Ordered :
      (l : LogLine) (p : ℕ) (ps : List ℕ) (m : Memory)
      → s.pc a ≡ freeing l
      → q.buffers ≡ p ∷ ps
      → m.queue ≡ record q { heap = update q.heap p none; buffers = ps }
      → Ordered size (after s a m (freed l)) lines out
  frees-Ordered l p ps m here owner next =
      let consumer : a ≡ 0 = (r.places a).single (ap consumes here) in
      let mine : s.pc 0 ≡ freeing l = ap s.pc (sym consumer) ∙ here in
      let (n, more_blocks, front, tail) =
        addresses-cons v.first v.others p ps (sym owner ∙ v.owned) in
      let block = ap (λ (x : QueueBuffer). x.current_write_buffer) next in
      let last = ap (λ (x : QueueBuffer). x.next_address) next in
      let done : removes (s.pc 0) ≡ true = ap removes mine in
      let all : length out + size ≡ offset size v.first + size =
        v.read_place ∙ ap (λ (d : Bool). offset size v.first + progress size d q.read_index) done in
      let none_read : q.read_index ≡ 0 =
        r.start_index ((r.places a).removes_none (ap removes here)) in
      let index = ap (λ (x : QueueBuffer). x.read_index) next in
      let own : (0 == a) ≡ true = ground (arith, consumer) in
      let end : v.first + v.others ≡ suc v.first + n = omega (arith, more_blocks) in
      record {
        first = suc v.first;
        others = n;
        rest = v.rest;
        prefix = v.prefix;
        owned = ap (λ (x : QueueBuffer). x.buffers) next ∙ tail;
        next_eq = last ∙ v.next_eq ∙ ap (λ (y : ℕ). y + 1) (sym block);
        phase = subst (Phase size (after s a m (freed l)) (length lines)) end (
            Phase_keep a m (freed l) (ap renews here) refl last block
              (ap (λ (x : QueueBuffer). min x.write_index size) next) v.phase);
        read_place = rw own (omega (arith, all, none_read, index));
        content =
            Content-keep v.content a m (freed l)
              (free-SameItems m.queue p (ap (λ (x : QueueBuffer). x.heap) next)) block
              (sym (ap pending here)) (sym (ap carries here));
      }
