-- ===== src/QueueBuffer/Threads/Opening.antt =====
-- The opening of the next block, from the count that completes one to the store of the index.
use zephyrlog.Prelude.{
  ℕ, ◌+◌, ◌-◌, ◌%◌, ◌≤◌, ◌<◌, ◌≡◌, ◌≢◌, refl, sym, ap, ◌∙◌, Option, none, some, true, false, ◌==◌,
  arith, Bool-cases, inl, inr,
}
use zephyrlog.SpinLock.{Flags, update_flag}
use zephyrlog.QueueBuffer.{Buffer, buffer, QueueBuffer, uint_max, open_block, reset_index}
use zephyrlog.QueueBuffer.Threads.{opening, written, entered, stored, queued, opened, System}
use zephyrlog.QueueBuffer.Threads.Tally.{tally, tally_lt, tally-none, tally-update_flag}
use zephyrlog.QueueBuffer.Threads.Places.{uncounted, address, opens, renews}
use zephyrlog.QueueBuffer.Threads.Counted.{
  Counted, after, counting, counting-count, uncounted-closed,
}

none_of : (o : Option ℕ) → ((j : ℕ) → o ≢ some j) → o ≡ none
none_of none h = refl
none_of (some j) h = absurd (h j refl)

module _ {size : ℕ} {s : System} {f : Flags} (v : Counted size s f) (a : ℕ) where
  abbrev q : QueueBuffer
  q = s.mem.queue

  -- The index that completes the block: every index has been counted.
  completed :
      (i : ℕ)
      → uncounted (s.pc a) ≡ some i
      → tally f size + 1 ≡ size
      → (j : ℕ) → j < size
      → update_flag i true f j ≡ true
  completed i e full j h =
      let (in_size, _) = v.bounded a i e in
      let new = tally-update_flag f size i (v.apart a i e) in_size in
      elim (Bool-cases (update_flag i true f j)) [
        | inl on ↦ on
        | inr off ↦
            let less = tally_lt (update_flag i true f) size j off h in
            absurd (omega (arith, less, new))
      ]

  completed-full :
      (i : ℕ) → uncounted (s.pc a) ≡ some i → tally f size + 1 ≡ size → size ≤ q.write_index
  completed-full i e full =
      let (in_size, low) = v.bounded a i e in
      let all = completed i e full (size - 1) (omega arith) in
      elim (Bool-cases (size - 1 == i)) [
        | inl same ↦ ground arith
        | inr differs ↦
            let on : f (size - 1) ≡ true = ground (arith, all) in
            let last = v.below (size - 1) on in omega (arith, last)
      ]

  completed-quiet :
      (i : ℕ)
      → uncounted (s.pc a) ≡ some i
      → tally f size + 1 ≡ size
      → (c : ℕ) → c ≢ a
      → uncounted (s.pc c) ≡ none
  completed-quiet i e full c other = none_of (uncounted (s.pc c)) (λ j k.
      let (in_size, _) = v.bounded c j k in
      let all = completed i e full j in_size in
      let free = v.apart c j k in
      let differs : j ≢ i = λ same. other (v.unique c a i (k ∙ ap some same) e) in
      ground (arith, all, free, differs))

  pub completes-Counted :
      (p i : ℕ) (b : Buffer) (flags : Flags)
      → size < uint_max
      → s.pc a ≡ written p i
      → q.heap p ≡ some b
      → ((b.write_count + 1) % uint_max == size) ≡ true
      → Counted size
          (after s a (record { queue = counting q p b; flags = flags }) opening)
          (update_flag i true f)
  completes-Counted p i b flags small here e full =
      let at : p ≡ q.current_write_buffer = v.current a p (ap address here) in
      let mine : uncounted (s.pc a) ≡ some i = ap uncounted here in
      let old : b.write_count ≡ tally f size = v.count b (ap q.heap (sym at) ∙ e) in
      let (in_size, _) = v.bounded a i mine in
      let less = tally_lt f size i (v.apart a i mine) in_size in
      let last : tally f size + 1 ≡ size = ground (arith, old, less) in
      let closed = uncounted-closed v a i mine in
      record {
        bounded = λ c j k. ground (arith, v.bounded c j, here);
        unique = λ c d j k k'. ground (arith, v.unique c d j, here);
        apart = λ c j k. ground (arith, v.apart c j, v.unique c a j, here);
        below = λ j k. ground (arith, v.below j, v.bounded a j, here);
        current = λ c p k. ground (arith, v.current c p, here);
        count = counting-count v a p i b small here e;
        one = λ c d k k'. ground (arith, closed c, closed d);
        full =
            λ c k. (completed-full i mine last, λ d. ground (arith, completed-quiet i mine last d));
        renewed = λ c k j. absurd (ground (arith, closed c));
      }

  pub stores-Counted :
      (flags : Flags)
      → s.pc a ≡ entered
      → Counted size
          (after s a (record { queue = open_block size q; flags = flags }) (stored q.next_address))
          (λ _. false)
  unfolding buffer
  stores-Counted flags here =
      let (high, quiet) = v.full a (ap opens here) in
      record {
        bounded = λ c j k. absurd (ground (arith, quiet c));
        unique = λ c d j k k'. absurd (ground (arith, quiet c));
        apart = λ c j k. refl;
        below = λ j k. cc k;
        current = λ c p k. absurd (ground (arith, quiet c));
        count = λ b k. ground (arith, k, tally-none (λ _. false) size (λ _. refl));
        one = λ c d k k'. ground (arith, v.one c d, v.one c a, v.one a d, here);
        full = λ c k. (high, λ d. ground (arith, quiet d));
        renewed = λ c k j. refl;
      }

  pub resets-Counted :
      (flags : Flags)
      → s.pc a ≡ queued
      → Counted size (after s a (record { queue = reset_index q; flags = flags }) opened) f
  resets-Counted flags here =
      let (high, quiet) = v.full a (ap opens here) in
      let empty : (j : ℕ) → f j ≡ false = v.renewed a (ap renews here) in
      record {
        bounded = λ c j k. absurd (ground (arith, quiet c));
        unique = λ c d j k k'. absurd (ground (arith, quiet c));
        apart = λ c j k. empty j;
        below = λ j k. cc (sym (empty j) ∙ k);
        current = λ c p k. absurd (ground (arith, quiet c));
        count = v.count;
        one = λ c d k k'. ground (arith, v.one c a, v.one d a, here);
        full = λ c k. absurd (ground (arith, v.one c a, here));
        renewed = λ c k j. empty j;
      }
