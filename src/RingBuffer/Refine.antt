-- ===== src/RingBuffer/Refine.antt =====
-- The ring buffer (src/ringbuffer.cpp) and its laps, overwriting included, for a size that divides
-- 2^32, so that the indices may wrap.
use zephyrlog.Prelude.{
  ℕ, zero, suc, ◌+◌, ◌%◌, ◌^◌, ◌≤◌, ◌<◌, ◌≡◌, refl, sym, ap, ◌∙◌, subst, Option, none, some, List,
  [], ◌∷◌, ◌++◌, length, set, replicate, get_elem?, arith, length-set, length-append,
  length-replicate, get_elem?-set_self, get_elem?-set_ne, get_elem?-replicate,
  get_elem?-append_left, get_elem?-append_last, lt-length, get_elem?-of_lt,
}
use native.Mathlib.Nat.{add-zero, zero-add, mod-lt, mod-add-mod, mod-eq_of_lt}
use native.Mathlib.Decide.{dec_lt, ℕ_discrete}
use zephyrlog.RingBuffer.Index.{place-ne, wrapped, shifted, round_trip}
use zephyrlog.LogLine.{LogLine}
use zephyrlog.LogLine.Moved.{moved_from, moved_to}
use zephyrlog.RingBuffer.{
  Item, RingBuffer, uint_max, items, ring_buffer, claim, publish, push, take_item, try_pop,
}
use zephyrlog.RingBuffer.Lap
use zephyrlog.RingBuffer.Lap.{Lap}

-- The index of the slot that is `k` places behind the consumer.
abbrev place : RingBuffer → ℕ → ℕ
place r k = (r.read_index + k) % r.size

abbrev Holds : Item → Option LogLine → Type 0
Holds item none = item.written ≡ 0
Holds item (some l) = (item.written ≡ 1) × (item.logline ≡ l)

abbrev SlotHolds : List Item → ℕ → Option LogLine → Type 0
SlotHolds ring i o = (item : Item) × (get_elem? ring i ≡ some item) × Holds item o

abbrev AllHold : ℕ → ℕ → List Item → List (Option LogLine) → Type 0
AllHold size base ring slots =
    (k : ℕ) (o : Option LogLine) → get_elem? slots k ≡ some o → SlotHolds ring ((base + k) % size) o

pub record Represents (r : RingBuffer) (m : Lap) : Type 0 where
  pub nonempty : 0 < r.size
  pub divides : 2 ^ 32 % r.size ≡ 0
  pub allocated : length r.ring ≡ r.size
  pub all_slots : length m.slots ≡ r.size
  pub read_in : r.read_index < 2 ^ 32
  pub write_at : r.write_index ≡ (r.read_index + m.ahead) % 2 ^ 32
  pub counted : Lap.stored m.slots ≤ m.ahead
  pub holds : AllHold r.size r.read_index r.ring m.slots

-- Writing one slot of the ring.
AllHold-set :
    (size base : ℕ) (ring : List Item) (slots : List (Option LogLine)) (k₀ : ℕ) (item : Item)
    (o₀ : Option LogLine)
    → length ring ≡ size
    → length slots ≡ size
    → k₀ < size
    → Holds item o₀
    → AllHold size base ring slots
    → AllHold size base (set ring ((base + k₀) % size) item) (set slots k₀ o₀)
AllHold-set size base ring slots k₀ item o₀ er es hk h all k o e = elim (ℕ_discrete k k₀) [
  | yes same ↦
      let at_k : get_elem? (set slots k₀ o₀) k ≡ some o₀ =
        rw same (get_elem?-set_self slots k₀ o₀ (omega arith)) in
      let is_o : o₀ ≡ o = cc (at_k, e) in
      (
        item,
        rw same (
            get_elem?-set_self ring ((base + k₀) % size) item
              (rw er (mod-lt (base + k₀) (omega arith)))),
        subst (Holds item) is_o h,
      )
  | no other ↦
      let old : get_elem? slots k ≡ some o =
        sym (get_elem?-set_ne slots o₀ (λ q. other (sym q))) ∙ e in
      let (there, found, held) = all k o old in
      (
        there,
        get_elem?-set_ne ring item (
              place-ne base size k₀ k hk (omega (arith, lt-length slots k old))
                (λ q. other (sym q)))
            ∙ found,
        held,
      )
]

-- The consumer moves on by one slot, which becomes the last.
AllHold-rotate :
    (size base : ℕ) (ring : List Item) (x : Option LogLine) (rest : List (Option LogLine))
    → 2 ^ 32 % size ≡ 0
    → suc (length rest) ≡ size
    → AllHold size base ring (x ∷ rest)
    → AllHold size ((base + 1) % 2 ^ 32) ring (rest ++ x ∷ [])
AllHold-rotate size base ring x rest d e all k o h = elim (dec_lt k (length rest)) [
  | yes low ↦
      rw (shifted size base k d)
        (all (suc k) o (sym (get_elem?-append_left rest (x ∷ []) k low) ∙ h))
  | no high ↦
      let last : k ≡ length rest =
        omega (arith, lt-length (rest ++ x ∷ []) k h, length-append rest (x ∷ [])) in
      let is_x : get_elem? (rest ++ x ∷ []) k ≡ some x = rw last (get_elem?-append_last rest x) in
      rw (shifted size base k d, round_trip size base k (omega arith)) (all 0 o (cc (is_x, h)))
]

-- The operations on a ring whose item is at hand.
abbrev pushed : RingBuffer → LogLine → RingBuffer
pushed r logline = record r {
  ring = set r.ring (r.write_index % r.size) (record { written = 1; logline = logline });
  write_index = (r.write_index + 1) % uint_max;
}

abbrev popped : RingBuffer → LogLine → RingBuffer
popped r logline = record r {
  ring = set r.ring (r.read_index % r.size) (record { written = 0; logline = moved_from logline });
  read_index = (r.read_index + 1) % uint_max;
}

push-found :
    (r : RingBuffer) (logline : LogLine) {old : Item}
    → 0 < r.size
    → get_elem? r.ring (r.write_index % r.size) ≡ some old
    → push logline r ≡ some (pushed r logline)
unfolding push claim publish moved_to
push-found r logline pos found = ground arith

try_pop-found :
    (r : RingBuffer) {item : Item} (o : Option LogLine)
    → 0 < r.size
    → get_elem? r.ring (r.read_index % r.size) ≡ some item
    → Holds item o
    → try_pop r ≡ some (o, elim o [ none ↦ r | some logline ↦ popped r logline ])
unfolding try_pop take_item moved_to
try_pop-found r none pos found h = ground arith
try_pop-found r (some logline) pos found h = ground arith

-- `push` never faults, and does what it does to the laps.
pub push_refines :
    {r : RingBuffer} {m : Lap} (logline : LogLine)
    → Represents r m
    → (r' : RingBuffer) × (push logline r ≡ some r') × Represents r' (Lap.push logline m)
unfolding Lap.push
push_refines {r} {m} logline v =
    let k : ℕ = m.ahead % length m.slots in
    let index : ℕ = r.write_index % r.size in
    let item : Item = record { written = 1; logline = logline } in
    let at : index ≡ place r k =
      ap (λ (n : ℕ). n % r.size) v.write_at
      ∙ wrapped r.size r.read_index m.ahead v.divides
      ∙ ap (λ (n : ℕ). (r.read_index + m.ahead % n) % r.size) (sym v.all_slots) in
    let in_ring : index < length r.ring = rw v.allocated (mod-lt r.write_index v.nonempty) in
    let (old, found) = get_elem?-of_lt r.ring index in_ring in
    let in_slots : k < r.size = rw v.all_slots (mod-lt m.ahead v.nonempty) in
    (
      pushed r logline,
      push-found r logline v.nonempty found,
      record {
        nonempty = v.nonempty;
        divides = v.divides;
        allocated = length-set r.ring index item ∙ v.allocated;
        all_slots = length-set m.slots k (some logline) ∙ v.all_slots;
        read_in = v.read_in;
        write_at = rw v.write_at (
            mod-add-mod (r.read_index + m.ahead) (2 ^ 32) 1
            ∙ ap (λ (n : ℕ). n % 2 ^ 32) (omega arith));
        counted = omega (arith, Lap.stored-set m.slots k logline, v.counted);
        holds = rw at (
            AllHold-set r.size r.read_index r.ring m.slots k item (some logline) v.allocated
              v.all_slots in_slots (refl, refl) v.holds);
      },
    )

-- The consumer at a slot.
pop_refines :
    {r : RingBuffer} (slots : List (Option LogLine)) (ahead : ℕ)
    → Represents r (record { slots = slots; ahead = ahead })
    → let (out, m') = Lap.pop_slot slots ahead in
      (r' : RingBuffer) × (try_pop r ≡ some (out, r')) × Represents r' m'
unfolding Lap.pop_slot
pop_refines [] ahead v = absurd (omega (arith, v.all_slots, v.nonempty))
pop_refines {r} (none ∷ rest) ahead v =
    let (item, found, written) = v.holds 0 none refl in
    (r, try_pop-found r none v.nonempty (rw add-zero at found) written, v)
pop_refines {r} (some logline ∷ rest) ahead v =
    let (item, found, held) = v.holds 0 (some logline) refl in
    let emptied : Item = record { written = 0; logline = moved_from logline } in
    let ring : List Item = set r.ring (r.read_index % r.size) emptied in
    let cleared : AllHold r.size r.read_index ring (none ∷ rest) = rw add-zero at (
      AllHold-set r.size r.read_index r.ring (some logline ∷ rest) 0 emptied none v.allocated
        v.all_slots v.nonempty refl v.holds) in
    (
      popped r logline,
      try_pop-found r (some logline) v.nonempty (rw add-zero at found) held,
      record {
        nonempty = v.nonempty;
        divides = v.divides;
        allocated = length-set r.ring (r.read_index % r.size) emptied ∙ v.allocated;
        all_slots = omega (arith, length-append rest (none ∷ []), v.all_slots);
        read_in = omega arith;
        write_at = omega (arith, v.counted, v.write_at);
        counted = omega (arith, Lap.stored-snoc rest, v.counted);
        holds = AllHold-rotate r.size r.read_index ring none rest v.divides v.all_slots cleared;
      },
    )

-- `tryPop` never faults, and does what it does to the laps.
pub try_pop_refines :
    {r : RingBuffer} {m : Lap}
    → Represents r m
    → let (out, m') = Lap.try_pop m in
      (r' : RingBuffer) × (try_pop r ≡ some (out, r')) × Represents r' m'
unfolding Lap.try_pop
try_pop_refines {r} {m} v = pop_refines m.slots m.ahead v

items-get :
    (blank : ℕ → LogLine) (n i k : ℕ)
    → k < n
    → (item : Item) × (get_elem? (items blank i n) k ≡ some item) × (item.written ≡ 0)
unfolding items
items-get blank zero i k h = absurd (omega arith)
items-get blank (suc n) i zero h = (record { written = 0; logline = blank i }, refl, refl)
items-get blank (suc n) i (suc k) h = items-get blank n (i + 1) k (omega arith)

length-items : (blank : ℕ → LogLine) (n i : ℕ) → length (items blank i n) ≡ n
unfolding items
length-items blank zero i = refl
length-items blank (suc n) i = ap suc (length-items blank n (i + 1))

-- A new ring buffer is empty.
pub ring_buffer-Represents :
    (blank : ℕ → LogLine) (size : ℕ)
    → 0 < size
    → 2 ^ 32 % size ≡ 0
    → Represents (ring_buffer blank size) (Lap.empty size)
unfolding ring_buffer
ring_buffer-Represents blank size pos d = record {
  nonempty = pos;
  divides = d;
  allocated = length-items blank size 0;
  all_slots = length-replicate size none;
  read_in = omega arith;
  write_at = omega arith;
  counted = omega (arith, Lap.stored-replicate size);
  holds = λ k o e.
      let nothing : Option LogLine = none in
      let low : k < size =
        omega (arith, lt-length (replicate size nothing) k e, length-replicate size nothing) in
      let is_none : nothing ≡ o = cc (get_elem?-replicate size k nothing low, e) in
      subst (SlotHolds (items blank 0 size) ((0 + k) % size)) is_none (
        rw (mod-eq_of_lt {n = 0 + k} {m = size} (omega arith), zero-add)
          (items-get blank size 0 k low));
}
