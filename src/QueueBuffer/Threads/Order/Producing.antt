-- ===== src/QueueBuffer/Threads/Order/Producing.antt =====
-- The order of the lines behind a claim, a write, and the accesses that make the next block.
use zephyrlog.Prelude.{
  ℕ, min, suc, ◌+◌, ◌<◌, ◌≡◌, refl, sym, ap, ◌∙◌, subst, some, List, [], ◌∷◌, ◌++◌, length, arith,
  append_assoc, length-append,
}
use zephyrlog.SpinLock.{Flags}
use zephyrlog.LogLine.{LogLine}
use zephyrlog.LogLine.Moved.{moved_to}
use zephyrlog.QueueBuffer.{
  QueueBuffer, uint_max, claim, write_at, open_block, queue_block, reset_index,
}
use zephyrlog.QueueBuffer.Calls.{addresses, addresses-snoc}
use zephyrlog.QueueBuffer.Threads.{
  Pc, pushing, claimed, loaded, written, entered, stored, queued, opened, System,
}
use zephyrlog.QueueBuffer.Threads.Places.{uncounted, address, pending, removes, carries}
use zephyrlog.QueueBuffer.Threads.Frames.{write_at-frame}
use zephyrlog.QueueBuffer.Threads.Counted.{Counted, after}
use zephyrlog.QueueBuffer.Threads.Alive.{Alive}
use zephyrlog.QueueBuffer.Threads.Order.Offset.{offset}
use zephyrlog.QueueBuffer.Threads.Order.Phase.{
  Phase, Phase_keep, claim_place, Phase-claims, Phase-stores, Phase-queues, Phase-resets,
  storing_place,
}
use zephyrlog.QueueBuffer.Threads.Order.Content.{Content-keep, Content-claims}
use zephyrlog.QueueBuffer.Threads.Order.Writes.{Content-writes, Content-stores}
use zephyrlog.QueueBuffer.Threads.Order.Ordered.{Ordered, progress, progress_keep, Kept-refl}

module _ {size : ℕ} {s : System} {f : Flags} {lines out : List LogLine} (c : Counted size s f)
    (v : Ordered size s lines out) (a : ℕ) where
  abbrev q : QueueBuffer
  q = s.mem.queue

  same_place :
      (p' : Pc) (i : ℕ)
      → removes p' ≡ removes (s.pc a)
      → i ≡ q.read_index
      → length out + size
        ≡ offset size v.first + progress size (removes ((after s a s.mem p').pc 0)) i
  same_place p' i same e =
      v.read_place ∙ ap (◌+◌ (offset size v.first)) (sym (progress_keep size s a p' same e))

  pub claims-Ordered :
      (i : ℕ) (q' : QueueBuffer) (l : LogLine)
      → q.write_index + 1 < uint_max
      → s.pc a ≡ pushing l
      → claim q ≡ (i, q')
      → i < size
      → Ordered size (after s a (record s.mem { queue = q' }) (claimed i l)) (lines ++ l ∷ []) out
  unfolding claim
  claims-Ordered i q' l small here e h =
      let at : i ≡ q.write_index = ground arith in
      let next : q' ≡ record q { write_index = q.write_index + 1 } = ground arith in
      let low : q.write_index < size = omega (arith, h, at) in
      let (_, _, place) = claim_place c a low v.phase in
      let block = ap (λ (x : QueueBuffer). x.current_write_buffer) next in
      record {
        first = v.first;
        others = v.others;
        rest = v.rest ++ l ∷ [];
        prefix =
            ap (λ (xs : List LogLine). xs ++ l ∷ []) v.prefix ∙ append_assoc out v.rest (l ∷ []);
        owned = ap (λ (x : QueueBuffer). x.buffers) next ∙ v.owned;
        next_eq =
            ap (λ (x : QueueBuffer). x.next_address) next
            ∙ v.next_eq
            ∙ ap (λ (x : ℕ). x + 1) (sym block);
        phase =
            subst
              (λ (n : ℕ).
                Phase size (after s a (record s.mem { queue = q' }) (claimed i l)) n
                  (v.first + v.others))
              (sym (length-append lines (l ∷ [])))
              (Phase-claims c a (record s.mem { queue = q' }) i l low next v.phase);
        read_place =
            same_place (claimed i l) q'.read_index (sym (ap removes here))
              (ap (λ (x : QueueBuffer). x.read_index) next);
        content =
            Content-claims v.content a (record s.mem { queue = q' }) i l
              (ap (λ (x : QueueBuffer). x.heap) next) block h (ap pending here)
              (omega (arith, place, at));
      }

  pub writes-Ordered :
      (p i : ℕ) (l : LogLine) (q' : QueueBuffer)
      → Alive size s
      → s.pc a ≡ loaded p i l
      → write_at p l i q ≡ some q'
      → Ordered size (after s a (record s.mem { queue = q' }) (written p i)) lines out
  unfolding moved_to
  writes-Ordered p i l q' alive here e =
      let (b, b', at, next, items, states, _) = write_at-frame p i l q q' e in
      let (in_size, _) = c.bounded a i (ap uncounted here) in
      let good = alive.sound p b at in
      let block = ap (λ (x : QueueBuffer). x.current_write_buffer) next in
      let last = ap (λ (x : QueueBuffer). x.next_address) next in
      record {
        first = v.first;
        others = v.others;
        rest = v.rest;
        prefix = v.prefix;
        owned = ap (λ (x : QueueBuffer). x.buffers) next ∙ v.owned;
        next_eq = last ∙ v.next_eq ∙ ap (λ (x : ℕ). x + 1) (sym block);
        phase =
            Phase_keep a (record s.mem { queue = q' }) (written p i) (ground (arith, here)) refl
              last block (ap (λ (x : QueueBuffer). min x.write_index size) next) v.phase;
        read_place =
            same_place (written p i) q'.read_index (sym (ap removes here))
              (ap (λ (x : QueueBuffer). x.read_index) next);
        content =
            Content-writes v.content a (record s.mem { queue = q' }) p i l b b' here
              (c.current a p (ap address here)) at (omega (arith, in_size, good.items_length))
              (omega (arith, in_size, good.states_length)) items states next;
      }

  pub stores-Ordered :
      s.pc a ≡ entered
      → Ordered size
          (after s a (record s.mem { queue = open_block size q }) (stored q.next_address))
          lines
          out
  stores-Ordered here = record {
    first = v.first;
    others = v.others;
    rest = v.rest;
    prefix = v.prefix;
    owned = v.owned;
    next_eq = refl;
    phase = Phase-stores c a here v.next_eq v.phase;
    read_place = same_place (stored q.next_address) q.read_index (sym (ap removes here)) refl;
    content = Content-stores v.content a c here (storing_place c a here v.next_eq v.phase);
  }

  pub queues-Ordered :
      (x : ℕ)
      → s.pc a ≡ stored x
      → Ordered size (after s a (record s.mem { queue = queue_block x q }) queued) lines out
  queues-Ordered x here =
      let (last, phase) = Phase-queues c a x here v.phase in
      let place : v.first + v.others + 1 ≡ v.first + suc v.others = omega arith in
      record {
        first = v.first;
        others = suc v.others;
        rest = v.rest;
        prefix = v.prefix;
        owned =
            ap (λ (ps : List ℕ). ps ++ x ∷ []) v.owned
            ∙ ap (λ (y : ℕ). addresses v.first v.others ++ y ∷ []) last
            ∙ addresses-snoc v.first v.others;
        next_eq = v.next_eq;
        phase =
            subst
              (Phase size (after s a (record s.mem { queue = queue_block x q }) queued)
                (length lines))
              place phase;
        read_place = same_place queued q.read_index (sym (ap removes here)) refl;
        content =
            Content-keep v.content a (record s.mem { queue = queue_block x q }) queued
              (Kept-refl size q).items_eq refl (sym (ap pending here)) (sym (ap carries here));
      }

  pub resets-Ordered :
      s.pc a ≡ queued
      → Ordered size (after s a (record s.mem { queue = reset_index q }) opened) lines out
  resets-Ordered here = record {
    first = v.first;
    others = v.others;
    rest = v.rest;
    prefix = v.prefix;
    owned = v.owned;
    next_eq = v.next_eq;
    phase = Phase-resets c a here v.phase;
    read_place = same_place opened q.read_index (sym (ap removes here)) refl;
    content =
        Content-keep v.content a (record s.mem { queue = reset_index q }) opened
          (Kept-refl size q).items_eq refl (sym (ap pending here)) (sym (ap carries here));
  }
