-- ===== src/QueueBuffer/Threads/Counted.antt =====
-- Which items of the block that producers write have been counted.
use zephyrlog.Prelude.{
  ℕ, ◌+◌, ◌%◌, ◌≤◌, ◌<◌, ◌≡◌, refl, sym, ap, ◌∙◌, none, some, true, false, arith, Bool-cases, inl,
  inr,
}
use zephyrlog.LogLine.{LogLine}
use zephyrlog.SpinLock.{Flags, update_flag}
use zephyrlog.QueueBuffer.{
  Buffer, buffer, QueueBuffer, uint_max, update, claim, queue_buffer, setup_next_write_buffer,
}
use zephyrlog.QueueBuffer.Threads.{
  Memory, Pc, idle, claimed, loaded, written, System, start, update_pc,
}
use zephyrlog.QueueBuffer.Threads.Tally.{tally, tally_lt, tally-none, tally-update_flag}
use zephyrlog.QueueBuffer.Threads.Places.{uncounted, address, opens, renews, Same, same-update_pc}

-- The flags are those of the indices counted.
pub record Counted (size : ℕ) (s : System) (f : Flags) : Type 0 where
  pub bounded : (a i : ℕ) → uncounted (s.pc a) ≡ some i → (i < size) × (i < s.mem.queue.write_index)
  pub unique : (a b i : ℕ) → uncounted (s.pc a) ≡ some i → uncounted (s.pc b) ≡ some i → a ≡ b
  pub apart : (a i : ℕ) → uncounted (s.pc a) ≡ some i → f i ≡ false
  pub below : (i : ℕ) → f i ≡ true → i < s.mem.queue.write_index
  pub current : (a p : ℕ) → address (s.pc a) ≡ some p → p ≡ s.mem.queue.current_write_buffer
  pub count :
      (b : Buffer)
      → s.mem.queue.heap s.mem.queue.current_write_buffer ≡ some b
      → b.write_count ≡ tally f size
  pub one : (a b : ℕ) → opens (s.pc a) ≡ true → opens (s.pc b) ≡ true → a ≡ b
  pub full :
      (a : ℕ)
      → opens (s.pc a) ≡ true
      → (size ≤ s.mem.queue.write_index) × ((b : ℕ) → uncounted (s.pc b) ≡ none)
  pub renewed : (a : ℕ) → renews (s.pc a) ≡ true → (i : ℕ) → f i ≡ false

pub start-Counted : (size : ℕ) → Counted size (start size) (λ _. false)
unfolding queue_buffer setup_next_write_buffer buffer
start-Counted size = record {
  bounded = λ a i e. cc e;
  unique = λ a b i e h. cc e;
  apart = λ a i e. refl;
  below = λ i e. cc e;
  current = λ a p e. cc e;
  count = λ b e. ground (arith, tally-none (λ _. false) size (λ _. refl));
  one = λ a b e h. cc e;
  full = λ a e. cc e;
  renewed = λ a e i. refl;
}

-- The block that producers write has the count that it had.
abbrev pub SameCount : QueueBuffer → QueueBuffer → Type 0
SameCount q q' =
    (b' : Buffer)
    → q'.heap q'.current_write_buffer ≡ some b'
    → (b : Buffer) × (q.heap q.current_write_buffer ≡ some b) × (b'.write_count ≡ b.write_count)

abbrev pub after : System → ℕ → Memory → Pc → System
after s a m p' = record { mem = m; pc = update_pc a p' s.pc }

-- A thread counts its item.
abbrev pub counting : QueueBuffer → ℕ → Buffer → QueueBuffer
counting q p b = record q {
  heap = update q.heap p (some (record b { write_count = (b.write_count + 1) % uint_max }));
}

module _ {size : ℕ} {s : System} {f : Flags} (v : Counted size s f) (a : ℕ) where
  abbrev q : QueueBuffer
  q = s.mem.queue

  -- A move between places that say the same.
  pub Same-Counted :
      (m : Memory) (p' : Pc)
      → Same (s.pc a) p'
      → q.write_index ≤ m.queue.write_index
      → m.queue.current_write_buffer ≡ q.current_write_buffer
      → SameCount q m.queue
      → Counted size (after s a m p') f
  Same-Counted m p' same grows block counts =
      let u = same-update_pc uncounted a p' s.pc same.uncounted_eq in
      let d = same-update_pc address a p' s.pc same.address_eq in
      let o = same-update_pc opens a p' s.pc same.opens_eq in
      let n = same-update_pc renews a p' s.pc same.renews_eq in
      record {
        bounded =
            λ b i e. let (in_size, low) = v.bounded b i (sym (u b) ∙ e) in (in_size, omega arith);
        unique = λ b c i e h. v.unique b c i (sym (u b) ∙ e) (sym (u c) ∙ h);
        apart = λ b i e. v.apart b i (sym (u b) ∙ e);
        below = λ i e. let low = v.below i e in omega arith;
        current = λ b p e. v.current b p (sym (d b) ∙ e) ∙ sym block;
        count = λ b e. let (b₀, e₀, n₀) = counts b e in n₀ ∙ v.count b₀ e₀;
        one = λ b c e h. v.one b c (sym (o b) ∙ e) (sym (o c) ∙ h);
        full = λ b e.
            let (high, quiet) = v.full b (sym (o b) ∙ e) in (omega arith, λ c. u c ∙ quiet c);
        renewed = λ b e i. v.renewed b (sym (n b) ∙ e) i;
      }

  pub claims-Counted :
      (i : ℕ) (q' : QueueBuffer) (l : LogLine) (flags : Flags)
      → q.write_index + 1 < uint_max
      → opens (s.pc a) ≡ false
      → renews (s.pc a) ≡ false
      → claim q ≡ (i, q')
      → i < size
      → Counted size (after s a (record { queue = q'; flags = flags }) (claimed i l)) f
  unfolding claim
  claims-Counted i q' l flags small mine mine' e h =
      let at : i ≡ q.write_index = ground arith in
      let next : q' ≡ record q { write_index = q.write_index + 1 } = ground arith in
      record {
        bounded = λ b j k. ground (arith, v.bounded b j, next);
        unique = λ b c j k k'. ground (arith, v.unique b c j, v.bounded b j, v.bounded c j);
        apart = λ b j k. ground (arith, v.apart b j, v.below i, Bool-cases (f i));
        below = λ j k. ground (arith, v.below j, next);
        current = λ b p k. ground (arith, v.current b p, next);
        count = λ b k. v.count b (ground (arith, k, next));
        one = λ b c k k'. ground (arith, v.one b c);
        full = λ b k. ground (arith, v.full b);
        renewed = λ b k j. ground (arith, λ (h : renews (s.pc b) ≡ true). v.renewed b h j);
      }

  pub loads-Counted :
      (i : ℕ) (l : LogLine)
      → s.pc a ≡ claimed i l
      → Counted size (after s a s.mem (loaded q.current_write_buffer i l)) f
  loads-Counted i l here = record {
    bounded = λ b j k. ground (arith, v.bounded b j, here);
    unique = λ b c j k k'. ground (arith, v.unique b c j, here);
    apart = λ b j k. ground (arith, v.apart b j, here);
    below = v.below;
    current = λ b p k. ground (arith, v.current b p, here);
    count = v.count;
    one = λ b c k k'. ground (arith, v.one b c, here);
    full = λ b k. ground (arith, v.full b, here);
    renewed = λ b k j. ground (arith, here, λ (h : renews (s.pc b) ≡ true). v.renewed b h j);
  }

  -- The count in the block is the number of the indices counted.
  pub counting-count :
      (p i : ℕ) (b : Buffer)
      → size < uint_max
      → s.pc a ≡ written p i
      → q.heap p ≡ some b
      → (b' : Buffer) → (counting q p b).heap q.current_write_buffer ≡ some b'
      → b'.write_count ≡ tally (update_flag i true f) size
  counting-count p i b small here e b' e' =
      let at : p ≡ q.current_write_buffer = v.current a p (ap address here) in
      let (in_size, _) = v.bounded a i (ap uncounted here) in
      let free : f i ≡ false = v.apart a i (ap uncounted here) in
      let old : b.write_count ≡ tally f size = v.count b (ap q.heap (sym at) ∙ e) in
      let less = tally_lt f size i free in_size in
      let new = tally-update_flag f size i free in_size in
      let it : b' ≡ record b { write_count = (b.write_count + 1) % uint_max } =
        ground (arith, e', at) in
      ap (λ (x : Buffer). x.write_count) it ∙ omega (arith, old, less, new)

  -- While an item is to be counted, nobody opens a block.
  pub uncounted-closed : (i : ℕ) → uncounted (s.pc a) ≡ some i → (c : ℕ) → opens (s.pc c) ≡ false
  uncounted-closed i e c = elim (Bool-cases (opens (s.pc c))) [
    | inl on ↦ cc (sym e ∙ (v.full c on).1 a)
    | inr off ↦ off
  ]

  pub counts-Counted :
      (p i : ℕ) (b : Buffer) (flags : Flags)
      → size < uint_max
      → s.pc a ≡ written p i
      → q.heap p ≡ some b
      → Counted size
          (after s a (record { queue = counting q p b; flags = flags }) idle)
          (update_flag i true f)
  counts-Counted p i b flags small here e = record {
    bounded = λ c j k. ground (arith, v.bounded c j, here);
    unique = λ c d j k k'. ground (arith, v.unique c d j, here);
    apart = λ c j k. ground (arith, v.apart c j, v.unique c a j, here);
    below = λ j k. ground (arith, v.below j, v.bounded a j, here);
    current = λ c p k. ground (arith, v.current c p, here);
    count = counting-count p i b small here e;
    one = λ c d k k'. ground (arith, v.one c d, here);
    full = λ c k. absurd (ground (arith, uncounted-closed i (ap uncounted here) c));
    renewed = λ c k j. absurd (ground (arith, uncounted-closed i (ap uncounted here) c));
  }
