-- ===== src/RingBuffer/Threads/Atomic.antt =====
-- The calls of src/ringbuffer.cpp by several threads, as a sequence of the atomic steps of
-- RingBuffer.antt: a claim, a publication, a call of `tryPop`.
use zephyrlog.Prelude.{
  ℕ, ◌+◌, ◌%◌, ◌≡◌, ◌≢◌, refl, sym, ap, ap₂, ◌∙◌, subst, Option, none, some, get_elem?, set, Bool,
  true, false, ◌==◌, arith, List, [], ◌∷◌, suc,
}
use native.Mathlib.Decide.{ℕ_discrete}
use zephyrlog.LogLine.{LogLine}
use zephyrlog.LogLine.Moved.{moved_from, moved_to}
use zephyrlog.RingBuffer.{Item, RingBuffer, uint_max, claim, publish, take_item, try_pop}
use zephyrlog.RingBuffer.Threads.{
  Memory, Pc, idle, claimed, entered, moved, marked, polling, checking, missed, took, cleared,
  advanced, Move, claims, spins, locks, moves, marks, unlocks, polls, consumer_spins,
  consumer_locks, misses, takes, clears, advances, returns_true, returns_false, update_pc, System,
  start, Event, event, silent, missing, claiming, publishing, popping, Trace, nothing, more,
}
use zephyrlog.RingBuffer.Threads.Exclusion.{Inv, Trace-Inv, holds, consumes, IsFresh}
use zephyrlog.RingBuffer.Threads.Pending.{
  pending, Completes, update_pc_self, update_pc_ne, keep, untouched, begin_write, end_write,
}

-- The atomic step that an event stands for.
abbrev pub Deed : Event → RingBuffer → RingBuffer → Type 0
Deed silent r r' = r ≡ r'
Deed missing r r' = try_pop r ≡ some (none, r')
Deed (claiming i) r r' = claim r ≡ some (i, r')
Deed (publishing i l) r r' = publish i l r ≡ some r'
Deed (popping l) r r' = try_pop r ≡ some (some l, r')

-- The index that the consumer has still to increment.
abbrev pub reads : Pc → ℕ → ℕ
reads (took i l) n = (n + 1) % uint_max
reads (cleared i l) n = (n + 1) % uint_max
reads _ n = n

pub record Rel (s : System) (r : RingBuffer) : Type 0 where
  pub size : r.size ≡ s.mem.ring.size
  pub writing : r.write_index ≡ s.mem.ring.write_index
  pub reading : r.read_index ≡ reads (s.pc 0) s.mem.ring.read_index
  pub items : Completes s.pc s.mem.ring.ring r.ring

reads-update_pc :
    (a n : ℕ) (p' : Pc) (pc : ℕ → Pc)
    → reads p' n ≡ reads (pc a) n
    → reads (update_pc a p' pc 0) n ≡ reads (pc 0) n
reads-update_pc a n p' pc e = elim (ℕ_discrete 0 a) [
  | yes at ↦
      ap (λ (k : ℕ). reads (update_pc a p' pc k) n) at
      ∙ ap (λ (p : Pc). reads p n) (update_pc_self a p' pc)
      ∙ e
      ∙ ap (λ (k : ℕ). reads (pc k) n) (sym at)
  | no off ↦ ap (λ (p : Pc). reads p n) (update_pc_ne a 0 p' pc off)
]

module _ (s : System) (inv : Inv s) (r : RingBuffer) (rel : Rel s r) (a : ℕ) where
  abbrev after : Memory → Pc → System
  after m p' = record { mem = m; pc = update_pc a p' s.pc }

  abbrev read_index : ℕ
  read_index = s.mem.ring.read_index

  -- The consumer's index under a move that does not count.
  reading_keep :
      {p : Pc} (p' : Pc)
      → s.pc a ≡ p
      → reads p' read_index ≡ reads p read_index
      → r.read_index ≡ reads (update_pc a p' s.pc 0) read_index
  reading_keep p' here e =
      rel.reading
      ∙ sym (
          reads-update_pc a read_index p' s.pc (e ∙ sym (ap (λ (p : Pc). reads p read_index) here)))

  -- The index under a move of the consumer.
  reading_own : (p' : Pc) (n : ℕ) → a ≡ 0 → reads (update_pc a p' s.pc 0) n ≡ reads p' n
  reading_own p' n zero_eq =
      ap (λ (k : ℕ). reads (update_pc a p' s.pc k) n) (sym zero_eq)
      ∙ ap (λ (p : Pc). reads p n) (update_pc_self a p' s.pc)

  reading_consumer : {p : Pc} → s.pc a ≡ p → a ≡ 0 → r.read_index ≡ reads p read_index
  reading_consumer {p} here zero_eq =
      rel.reading
      ∙ ap (λ (k : ℕ). reads (s.pc k) read_index) (sym zero_eq)
      ∙ ap (λ (p : Pc). reads p read_index) here

  -- A move that leaves the ring alone.
  stay :
      {p : Pc} (flags : ℕ → Bool) (p' : Pc)
      → s.pc a ≡ p
      → pending p ≡ none
      → pending p' ≡ none
      → reads p' read_index ≡ reads p read_index
      → Rel (after (record { ring = s.mem.ring; flags = flags }) p') r
  stay flags p' here e e' f = record {
    size = rel.size;
    writing = rel.writing;
    reading = reading_keep p' here f;
    items = keep s inv a p' r.ring (ap pending here ∙ e) e' rel.items;
  }

  claim_lem :
      (r₁ : RingBuffer) (i : ℕ)
      → claim s.mem.ring ≡ some (i, r₁)
      → (r' : RingBuffer) × (claim r ≡ some (i, r'))
        × (r'.size ≡ r₁.size)
        × (r'.write_index ≡ r₁.write_index)
        × (r'.read_index ≡ r.read_index)
        × (r₁.read_index ≡ s.mem.ring.read_index)
        × (r'.ring ≡ r.ring)
        × (r₁.ring ≡ s.mem.ring.ring)
  unfolding claim
  claim_lem r₁ i e = (
    record r { write_index = (r.write_index + 1) % uint_max },
    ground (arith, rel.size, rel.writing),
    ground (arith, rel.size),
    ground (arith, rel.writing),
    refl,
    ground arith,
    refl,
    ground arith,
  )

  found_at :
      (i : ℕ) (item : Item)
      → holds (s.pc a) ≡ some i
      → pending (s.pc a) ≡ none
      → get_elem? s.mem.ring.ring i ≡ some item
      → get_elem? r.ring i ≡ some item
  found_at i item mine e there = rel.items.same i (untouched s inv a (s.pc a) i mine e) ∙ there

  try_pop_at :
      (i : ℕ) (item : Item) {o : Option LogLine × RingBuffer}
      → r.size ≢ 0
      → i ≡ r.read_index % r.size
      → get_elem? r.ring i ≡ some item
      → take_item item r ≡ o
      → try_pop r ≡ some o
  unfolding try_pop
  try_pop_at i item pos at there e =
      let nonzero : (r.size == 0) ≡ false = ground arith in rw (nonzero, ← at, there, e)

  pub Move-Deed :
      {p p' : Pc} {m : Memory} (mv : Move s.mem a p m p')
      → s.pc a ≡ p
      → (r' : RingBuffer) × Deed (event mv) r r' × Rel (after m p') r'
  unfolding publish take_item moved_to
  Move-Deed (claims {i} {r = r₁} l g e) here =
      let (r', e', size, writing, reading, old, items, ring) = claim_lem r₁ i e in
      (
        r',
        e',
        record {
          size = size;
          writing = writing;
          reading =
              reading
              ∙ reading_keep (claimed i l) here refl
              ∙ ap (reads (update_pc a (claimed i l) s.pc 0)) (sym old);
          items =
              rw (items, ring) (keep s inv a (claimed i l) r.ring (ap pending here) refl rel.items);
        },
      )
  Move-Deed (spins {i} {l} e) here = (r, refl, stay _ (claimed i l) here refl refl refl)
  Move-Deed (locks {i} {l} e) here = (r, refl, stay _ (entered i l) here refl refl refl)
  Move-Deed (moves {i} {l} {item} e) here =
      let final : Item = record { written = 1; logline = l } in
      let there = found_at i item (ap holds here) (ap pending here) e in
      (
        record r { ring = set r.ring i final },
        rw (publish, there),
        record {
          size = rel.size;
          writing = rel.writing;
          reading = reading_keep (moved i l) here refl;
          items =
              begin_write s inv a (moved i l) r.ring i item _ final (ap holds here)
                (ap pending here) refl there rel.items;
        },
      )
  Move-Deed (marks {i} {l} {item} e) here =
      let (old, at, same) = subst (IsFresh s.mem.ring) here (inv.fresh a) in
      let item_eq : item ≡ old = cc (sym e ∙ at) in
      let final_eq : record { written = 1; logline = l } ≡ record item { written = 1 } =
        ap (λ (l : LogLine). record { written = 1; logline = l })
          (sym same ∙ ap (λ (o : Item). o.logline) (sym item_eq)) in
      (
        r,
        refl,
        record {
          size = rel.size;
          writing = rel.writing;
          reading = reading_keep (marked i l) here refl;
          items =
              end_write s inv a (marked i l) r.ring i item _ (ap holds here)
                (ap pending here ∙ ap (λ (o : Item). some (i, o)) final_eq) refl e rel.items;
        },
      )
  Move-Deed unlocks here = (r, refl, stay _ idle here refl refl refl)
  Move-Deed (polls {i} g pos e) here = (r, refl, stay _ (polling i) here refl refl refl)
  Move-Deed (consumer_spins {i} e) here = (r, refl, stay _ (polling i) here refl refl refl)
  Move-Deed (consumer_locks {i} e) here = (r, refl, stay _ (checking i) here refl refl refl)
  Move-Deed (misses {i} {item} e w) here =
      let consumer : a ≡ 0 = inv.single a (ap consumes here) in
      let (pos, at) = subst (IsFresh s.mem.ring) here (inv.fresh a) in
      let there = found_at i item (ap holds here) (ap pending here) e in
      let index : i ≡ r.read_index % r.size =
        at ∙ ap₂ ◌%◌ (sym (reading_consumer here consumer)) (sym rel.size) in
      let empty : (item.written == 1) ≡ false = ground arith in
      (
        r,
        try_pop_at i item (λ z. pos (sym rel.size ∙ z)) index there (rw empty),
        stay s.mem.flags (missed i) here refl refl refl,
      )
  Move-Deed (takes {i} {item} e w) here =
      let consumer : a ≡ 0 = inv.single a (ap consumes here) in
      let (pos, at) = subst (IsFresh s.mem.ring) here (inv.fresh a) in
      let there = found_at i item (ap holds here) (ap pending here) e in
      let read : r.read_index ≡ read_index = reading_consumer here consumer in
      let index : i ≡ r.read_index % r.size = at ∙ ap₂ ◌%◌ (sym read) (sym rel.size) in
      let full : (item.written == 1) ≡ true = rw w in
      let final : Item = record { written = 0; logline = moved_from item.logline } in
      (
        record r { ring = set r.ring i final; read_index = (r.read_index + 1) % uint_max },
        try_pop_at i item (λ z. pos (sym rel.size ∙ z)) index there (rw (full, ← index)),
        record {
          size = rel.size;
          writing = rel.writing;
          reading =
              ap (λ (n : ℕ). (n + 1) % uint_max) read
              ∙ sym (reading_own (took i item.logline) read_index consumer);
          items =
              begin_write s inv a (took i item.logline) r.ring i item _ final (ap holds here)
                (ap pending here) refl there rel.items;
        },
      )
  Move-Deed (clears {i} {l} {item} e) here =
      let at = subst (IsFresh s.mem.ring) here (inv.fresh a) in
      let item_eq : item ≡ record { written = 1; logline = moved_from l } = cc (sym e ∙ at) in
      let final_eq : record { written = 0; logline = moved_from l } ≡ record item { written = 0 } =
        ap (λ (o : Item). record o { written = 0 }) (sym item_eq) in
      (
        r,
        refl,
        record {
          size = rel.size;
          writing = rel.writing;
          reading = reading_keep (cleared i l) here refl;
          items =
              end_write s inv a (cleared i l) r.ring i item _ (ap holds here)
                (ap pending here ∙ ap (λ (o : Item). some (i, o)) final_eq) refl e rel.items;
        },
      )
  Move-Deed (advances {i} {l}) here =
      let consumer : a ≡ 0 = inv.single a (ap consumes here) in
      (
        r,
        refl,
        record {
          size = rel.size;
          writing = rel.writing;
          reading =
              reading_consumer here consumer
              ∙ sym (reading_own (advanced i l) ((read_index + 1) % uint_max) consumer);
          items = keep s inv a (advanced i l) r.ring (ap pending here) refl rel.items;
        },
      )
  Move-Deed returns_true here = (r, refl, stay _ idle here refl refl refl)
  Move-Deed returns_false here = (r, refl, stay _ idle here refl refl refl)

start-Rel : (r : RingBuffer) → Rel (start r) r
start-Rel r = record {
  size = refl;
  writing = refl;
  reading = refl;
  items = record { same = λ j _. refl; over = λ b j item e. cc e };
}

-- The steps for a list of events, the last one first.
abbrev pub Deeds : List Event → RingBuffer → RingBuffer → Type 0
Deeds [] r r' = r ≡ r'
Deeds (e ∷ es) r r' = (r₁ : RingBuffer) × Deeds es r r₁ × Deed e r₁ r'

-- Any run of the threads on a ring buffer, one access at a time, has the effect of its events one
-- after the other, each as one atomic step: a claim of an index, the publication of a line in its
-- item, or a `tryPop`, with the line that it gives. The ring buffer of these steps is the one in
-- memory, but for what the threads that hold a lock have still to store.
pub Trace-Deeds :
    {r : RingBuffer} {es : List Event} {s : System}
    → Trace r es s
    → (r' : RingBuffer) × Deeds es r r' × Rel s r'
Trace-Deeds {r} nothing = (r, refl, start-Rel r)
Trace-Deeds (more {s = s} a t mv) =
    let (r₁, deeds, rel) = Trace-Deeds t in
    let (r₂, deed, rel') = Move-Deed s (Trace-Inv t) r₁ rel a mv refl in
    (r₂, (r₁, deeds, deed), rel')

eq_of_get_elem? : (xs ys : List Item) → ((j : ℕ) → get_elem? xs j ≡ get_elem? ys j) → xs ≡ ys
eq_of_get_elem? [] [] h = refl
eq_of_get_elem? [] (y ∷ ys) h = cc (h 0)
eq_of_get_elem? (x ∷ xs) [] h = cc (h 0)
eq_of_get_elem? (x ∷ xs) (y ∷ ys) h =
    let head : x ≡ y = cc (h 0) in
    let tail : xs ≡ ys = eq_of_get_elem? xs ys (λ j. h (suc j)) in rw (head, tail)

-- With every thread idle nothing is pending.
idle-Rel : (s : System) (r : RingBuffer) → Rel s r → ((a : ℕ) → s.pc a ≡ idle) → r ≡ s.mem.ring
idle-Rel s r rel quiet =
    let items : r.ring ≡ s.mem.ring.ring = eq_of_get_elem? r.ring s.mem.ring.ring (λ j.
      rel.items.same j (λ b item e.
        let no_item : none ≡ some (j, item) = sym (ap pending (quiet b)) ∙ e in cc no_item)) in
    let read : r.read_index ≡ s.mem.ring.read_index =
      rel.reading ∙ ap (λ (p : Pc). reads p s.mem.ring.read_index) (quiet 0) in
    λ i. record {
      size = rel.size i;
      ring = items i;
      write_index = rel.writing i;
      read_index = read i;
    }

-- Where all calls on a ring buffer have returned, the ring buffer is what the events of the run,
-- each as one atomic step, make of the ring buffer at the start.
pub idle-Deeds :
    {r : RingBuffer} {es : List Event} {s : System}
    → Trace r es s
    → ((a : ℕ) → s.pc a ≡ idle)
    → Deeds es r s.mem.ring
idle-Deeds {r} {es} {s} t quiet =
    let (r', deeds, rel) = Trace-Deeds t in subst (Deeds es r) (idle-Rel s r' rel quiet) deeds
