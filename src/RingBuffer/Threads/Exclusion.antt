-- ===== src/RingBuffer/Threads/Exclusion.antt =====
-- Who holds the lock of an item.
use zephyrlog.Prelude.{
  List, ℕ, ◌%◌, ◌≡◌, ◌≢◌, refl, sym, ap, ◌∙◌, subst, Option, none, some, get_elem?, set, Bool, true,
  false, ◌==◌, arith, get_elem?-set_self, get_elem?-set_ne, lt-length, eqb_refl, Bool-cases, inl,
  inr,
}
use zephyrlog.LogLine.Moved.{moved_from, moved_to}
use zephyrlog.RingBuffer.{Item, RingBuffer, claim}
use native.Mathlib.Decide.{ℕ_discrete}
use zephyrlog.SpinLock.{test_and_set, clear}
use zephyrlog.RingBuffer.Threads.{
  Memory, Pc, entered, moved, marked, polling, checking, missed, took, cleared, advanced, Move,
  claims, spins, locks, moves, marks, unlocks, polls, consumer_spins, consumer_locks, misses, takes,
  clears, advances, returns_true, returns_false, update_pc, System, start, Event, Trace, nothing,
  more,
}

-- The item whose lock a thread holds.
abbrev pub holds : Pc → Option ℕ
holds (entered i l) = some i
holds (moved i l) = some i
holds (marked i l) = some i
holds (checking i) = some i
holds (missed i) = some i
holds (took i l) = some i
holds (cleared i l) = some i
holds (advanced i l) = some i
holds _ = none

-- The program is in `tryPop`.
abbrev pub consumes : Pc → Bool
consumes (polling i) = true
consumes (checking i) = true
consumes (missed i) = true
consumes (took i l) = true
consumes (cleared i l) = true
consumes (advanced i l) = true
consumes _ = false

-- What a thread knows of the ring.
abbrev pub IsFresh : RingBuffer → Pc → Type 0
IsFresh r (moved i l) = (item : Item) × (get_elem? r.ring i ≡ some item) × (item.logline ≡ l)
IsFresh r (polling i) = (r.size ≢ 0) × (i ≡ r.read_index % r.size)
IsFresh r (checking i) = (r.size ≢ 0) × (i ≡ r.read_index % r.size)
IsFresh r (took i l) = get_elem? r.ring i ≡ some (record { written = 1; logline = moved_from l })
IsFresh r _ = Unit

pub record Inv (s : System) : Type 0 where
  pub held : (a i : ℕ) → holds (s.pc a) ≡ some i → s.mem.flags i ≡ true
  pub unique : (a b i : ℕ) → holds (s.pc a) ≡ some i → holds (s.pc b) ≡ some i → a ≡ b
  pub single : (a : ℕ) → consumes (s.pc a) ≡ true → a ≡ 0
  pub fresh : (a : ℕ) → IsFresh s.mem.ring (s.pc a)

pub start-Inv : (r : RingBuffer) → Inv (start r)
start-Inv r = record {
  held = λ a i e. cc e;
  unique = λ a b i e f. cc e;
  single = λ a e. cc e;
  fresh = λ a. tt;
}

-- The premise of a move, for the catch-all clauses below, which cannot name it.
abbrev Guard : {m m' : Memory} {a : ℕ} {p p' : Pc} → Move m a p m' p' → Type 0
Guard {m} (spins {i} _) = m.flags i ≡ true
Guard {m} (locks {i} _) = m.flags i ≡ false
Guard {m} (consumer_spins {i} _) = m.flags i ≡ true
Guard {m} (consumer_locks {i} _) = m.flags i ≡ false
Guard {a = a} (polls _ _ _) = a ≡ 0
Guard _ = Unit

guard : {m m' : Memory} {a : ℕ} {p p' : Pc} (mv : Move m a p m' p') → Guard mv
unfolding test_and_set
guard (spins g) = g
guard (locks g) = g
guard (consumer_spins g) = g
guard (consumer_locks g) = g
guard (polls g _ _) = g
guard _ = tt

module _ (s : System) (inv : Inv s) (a : ℕ) where
  Move-held :
      {p p' : Pc} {m : Memory}
      → Move s.mem a p m p'
      → s.pc a ≡ p
      → (b i : ℕ) → holds (update_pc a p' s.pc b) ≡ some i
      → m.flags i ≡ true
  unfolding test_and_set clear
  Move-held (claims l g c) e b i h = ground (arith, inv.held b i)
  Move-held mv e b i h = ground (arith, guard mv, inv.held b i, inv.held a i, inv.unique a b i)

  Move-unique :
      {p p' : Pc} {m : Memory}
      → Move s.mem a p m p'
      → s.pc a ≡ p
      → (b c i : ℕ) → holds (update_pc a p' s.pc b) ≡ some i
      → holds (update_pc a p' s.pc c) ≡ some i
      → b ≡ c
  unfolding test_and_set
  Move-unique (claims l g q) e b c i h k = ground (arith, inv.unique b c i)
  Move-unique mv e b c i h k =
      ground (arith, guard mv, inv.unique b c i, inv.held b i, inv.held c i)

  Move-single :
      {p p' : Pc} {m : Memory}
      → Move s.mem a p m p'
      → s.pc a ≡ p
      → (b : ℕ) → consumes (update_pc a p' s.pc b) ≡ true
      → b ≡ 0
  Move-single (claims l g q) e b h = ground (arith, inv.single b)
  Move-single mv e b h = ground (arith, guard mv, inv.single a, inv.single b)

-- What a thread knows outlasts a write to an item that it does not hold.
IsFresh-set :
    (r : RingBuffer) (i : ℕ) (item : Item) (q : Pc)
    → holds q ≢ some i
    → IsFresh r q
    → IsFresh (record r { ring = set r.ring i item }) q
IsFresh-set r i item (moved j l) h (old, e, k) =
    (old, get_elem?-set_ne r.ring item (λ same. h (ap some (sym same))) ∙ e, k)
IsFresh-set r i item (took j l) h e =
    get_elem?-set_ne r.ring item (λ same. h (ap some (sym same))) ∙ e
IsFresh-set r i item (polling j) h k = k
IsFresh-set r i item (checking j) h k = k
IsFresh-set r i item _ h k = tt

-- What a producer knows does not depend on the indices.
IsFresh-indices :
    (r r' : RingBuffer) (q : Pc)
    → r'.ring ≡ r.ring
    → consumes q ≡ false
    → IsFresh r q
    → IsFresh r' q
IsFresh-indices r r' (moved j l) same h k = rw same k
IsFresh-indices r r' (took j l) same h k = cc h
IsFresh-indices r r' (polling j) same h k = cc h
IsFresh-indices r r' (checking j) same h k = cc h
IsFresh-indices r r' _ same h k = tt

claim-frame :
    (r r' : RingBuffer) (i : ℕ)
    → claim r ≡ some (i, r')
    → (r'.ring ≡ r.ring) × (r'.size ≡ r.size) × (r'.read_index ≡ r.read_index)
unfolding claim
claim-frame r r' i e = ground arith

IsFresh-claim :
    (r r' : RingBuffer) (i : ℕ) (q : Pc) → claim r ≡ some (i, r') → IsFresh r q → IsFresh r' q
IsFresh-claim r r' i (moved j l) e k = let (same, _, _) = claim-frame r r' i e in rw same k
IsFresh-claim r r' i (took j l) e k = let (same, _, _) = claim-frame r r' i e in rw same k
IsFresh-claim r r' i (polling j) e k =
    let (_, size, read) = claim-frame r r' i e in rw (size, read) k
IsFresh-claim r r' i (checking j) e k =
    let (_, size, read) = claim-frame r r' i e in rw (size, read) k
IsFresh-claim r r' i _ e k = tt

module _ (s : System) (inv : Inv s) (a : ℕ) where
  abbrev ring : RingBuffer
  ring = s.mem.ring

  -- The other threads, and the one that moves.
  by_thread :
      (m : Memory) (p' : Pc)
      → IsFresh m.ring p'
      → ((b : ℕ) → b ≢ a → IsFresh m.ring (s.pc b))
      → (b : ℕ) → IsFresh m.ring (update_pc a p' s.pc b)
  by_thread m p' own others b = elim (ℕ_discrete b a) [
    | yes same ↦ rw (same, eqb_refl a) own
    | no differs ↦ let off : (b == a) ≡ false = ground arith in rw off (others b differs)
  ]

  others_set :
      (i : ℕ) (item : Item)
      → holds (s.pc a) ≡ some i
      → (b : ℕ) → b ≢ a
      → IsFresh (record ring { ring = set ring.ring i item }) (s.pc b)
  others_set i item mine b differs =
      IsFresh-set ring i item (s.pc b) (λ h. differs (inv.unique b a i h mine)) (inv.fresh b)

  others_read :
      (n : ℕ)
      → consumes (s.pc a) ≡ true
      → (b : ℕ) → b ≢ a
      → IsFresh (record ring { read_index = n }) (s.pc b)
  others_read n mine b differs =
      let other : consumes (s.pc b) ≡ false = elim (Bool-cases (consumes (s.pc b))) [
        | inl same ↦ absurd (differs (inv.single b same ∙ sym (inv.single a mine)))
        | inr different ↦ different
      ] in
      IsFresh-indices ring (record ring { read_index = n }) (s.pc b) refl other (inv.fresh b)

  Move-IsFresh :
      {p p' : Pc} {m : Memory}
      → Move s.mem a p m p'
      → s.pc a ≡ p
      → (b : ℕ) → IsFresh m.ring (update_pc a p' s.pc b)
  unfolding moved_to
  Move-IsFresh {m = m} (claims l g e) here =
      by_thread m _ tt (λ c _. IsFresh-claim ring m.ring _ (s.pc c) e (inv.fresh c))
  Move-IsFresh {m = m} (spins e) here = by_thread m _ tt (λ c _. inv.fresh c)
  Move-IsFresh {m = m} (locks e) here = by_thread m _ tt (λ c _. inv.fresh c)
  Move-IsFresh {p' = p'} {m} (moves {i} {l} {item} e) here =
      by_thread m p'
        (
          record item { logline = l },
          get_elem?-set_self ring.ring i _ (lt-length ring.ring i e),
          refl,
        )
        (others_set i _ (ap holds here))
  Move-IsFresh {p' = p'} {m} (marks {i} e) here = by_thread m p' tt (others_set i _ (ap holds here))
  Move-IsFresh {m = m} unlocks here = by_thread m _ tt (λ c _. inv.fresh c)
  Move-IsFresh {p' = p'} {m} (polls g pos e) here = by_thread m p' (pos, e) (λ c _. inv.fresh c)
  Move-IsFresh {p' = p'} {m} (consumer_spins e) here =
      by_thread m p' (subst (IsFresh ring) here (inv.fresh a)) (λ c _. inv.fresh c)
  Move-IsFresh {p' = p'} {m} (consumer_locks {i} e) here =
      by_thread m p' (subst (IsFresh ring) here (inv.fresh a)) (λ c _. inv.fresh c)
  Move-IsFresh {p' = p'} {m} (misses e w) here = by_thread m p' tt (λ c _. inv.fresh c)
  Move-IsFresh {p' = p'} {m} (takes {i} {item} e w) here =
      by_thread m p'
        (get_elem?-set_self ring.ring i _ (lt-length ring.ring i e)
          ∙ ap (λ (n : ℕ). some (record { written = n; logline = moved_from item.logline })) w)
        (others_set i _ (ap holds here))
  Move-IsFresh {p' = p'} {m} (clears {i} e) here =
      by_thread m p' tt (others_set i _ (ap holds here))
  Move-IsFresh {p' = p'} {m} advances here = by_thread m p' tt (others_read _ (ap consumes here))
  Move-IsFresh {m = m} returns_true here = by_thread m _ tt (λ c _. inv.fresh c)
  Move-IsFresh {m = m} returns_false here = by_thread m _ tt (λ c _. inv.fresh c)

pub Move-Inv :
    (s : System) (a : ℕ) {m : Memory} {p : Pc}
    → Inv s
    → Move s.mem a (s.pc a) m p
    → Inv (record { mem = m; pc = update_pc a p s.pc })
Move-Inv s a inv mv = record {
  held = Move-held s inv a mv refl;
  unique = Move-unique s inv a mv refl;
  single = Move-single s inv a mv refl;
  fresh = Move-IsFresh s inv a mv refl;
}

pub Trace-Inv : {r : RingBuffer} {es : List Event} {s : System} → Trace r es s → Inv s
Trace-Inv {r} nothing = start-Inv r
Trace-Inv (more {s = s} a t mv) = Move-Inv s a (Trace-Inv t) mv

-- In any run of the threads on a ring buffer, one access at a time, no two threads are behind the
-- spin lock of the same item at once.
pub mutual_exclusion :
    {r : RingBuffer} {es : List Event} {s : System} (a b i : ℕ)
    → Trace r es s
    → a ≢ b
    → holds (s.pc a) ≡ some i
    → holds (s.pc b) ≢ some i
mutual_exclusion a b i t other h k = other ((Trace-Inv t).unique a b i h k)
