-- ===== src/QueueBuffer/Threads/Order/Callers.antt =====
-- Which thread has called `push` of src/queuebuffer.cpp with which line.
use zephyrlog.Prelude.{
  ℕ, ◌≡◌, ◌≢◌, subst, refl, sym, ap, ◌∙◌, some, List, [], ◌∷◌, ◌++◌, map, false, ◌==◌,
  if◌then◌else◌, arith, Bool-cases, inl, inr, append-nil, append_assoc, eqb_refl,
}
use zephyrlog.LogLine.{LogLine}
use zephyrlog.QueueBuffer.Threads.{
  Memory, Pc, pushing, waiting, System, Move, begins, claims, overshoots, waits, retries, loads,
  writes, counts, completes, spins, locks, unlocks, stores, queues, resets, seeks, polls, fronts,
  finds_none, misses, takes, finishes, frees, behind_lock, behind_unlock, Run, nothing, more,
}
use zephyrlog.QueueBuffer.Threads.Places.{update_pc_self, update_pc_other}
use zephyrlog.QueueBuffer.Threads.Order.{claimed_by, claimed_lines}

-- The line that a move starts a `push` with.
abbrev pub called_by :
    {size a : ℕ} {m m' : Memory} {p p' : Pc} → Move size m a p m' p' → List LogLine
called_by (begins l n) = l ∷ []
called_by _ = []

-- The calls and the claims of a run, each with its thread.
abbrev pub push_calls : {size : ℕ} {s : System} → Run size s → List (ℕ × LogLine)
push_calls nothing = []
push_calls (more a r mv) = push_calls r ++ map (λ (l : LogLine). (a, l)) (called_by mv)

abbrev pub push_claims : {size : ℕ} {s : System} → Run size s → List (ℕ × LogLine)
push_claims nothing = []
push_claims (more a r mv) = push_claims r ++ map (λ (l : LogLine). (a, l)) (claimed_by mv)

-- The lines of one thread.
abbrev pub lines_of : ℕ → List (ℕ × LogLine) → List LogLine
lines_of b [] = []
lines_of b ((a, l) ∷ rest) = if a == b then l ∷ lines_of b rest else lines_of b rest

-- The line of a call that has no index yet.
abbrev pub unclaimed : Pc → List LogLine
unclaimed (pushing l) = l ∷ []
unclaimed (waiting l) = l ∷ []
unclaimed _ = []

lines_of-append :
    (b : ℕ) (xs ys : List (ℕ × LogLine)) → lines_of b (xs ++ ys) ≡ lines_of b xs ++ lines_of b ys
lines_of-append b [] ys = refl
lines_of-append b ((a, l) ∷ xs) ys = elim (Bool-cases (a == b)) [
  | inl same ↦ rw (same, lines_of-append b xs ys) refl
  | inr other ↦ rw (other, lines_of-append b xs ys) refl
]

lines_of-own : (a : ℕ) (ls : List LogLine) → lines_of a (map (λ (l : LogLine). (a, l)) ls) ≡ ls
lines_of-own a [] = refl
lines_of-own a (l ∷ ls) = rw (eqb_refl a, lines_of-own a ls) refl

lines_of-other :
    (a b : ℕ) (ls : List LogLine)
    → (a == b) ≡ false
    → lines_of b (map (λ (l : LogLine). (a, l)) ls) ≡ []
lines_of-other a b [] e = refl
lines_of-other a b (l ∷ ls) e = rw e (lines_of-other a b ls e)

map-lines :
    (a : ℕ) (ls : List LogLine)
    → map (λ (e : ℕ × LogLine). e.1) (map (λ (l : LogLine). (a, l)) ls) ≡ ls
map-lines a [] = refl
map-lines a (l ∷ ls) = ap (◌∷◌ l) (map-lines a ls)

map-append :
    (xs ys : List (ℕ × LogLine))
    → map (λ (e : ℕ × LogLine). e.1) (xs ++ ys)
      ≡ map (λ (e : ℕ × LogLine). e.1) xs ++ map (λ (e : ℕ × LogLine). e.1) ys
map-append [] ys = refl
map-append (x ∷ xs) ys = ap (◌∷◌ x.1) (map-append xs ys)

unclaimed-lock : (p : Pc) {p' : Pc} → behind_lock p ≡ some p' → unclaimed p ≡ unclaimed p'
unclaimed-lock p e = ground arith

unclaimed-unlock : (p : Pc) {p' : Pc} → behind_unlock p ≡ some p' → unclaimed p ≡ unclaimed p'
unclaimed-unlock p e = ground arith

Move-unclaimed :
    {size a : ℕ} {m m' : Memory} {p p' : Pc}
    → (mv : Move size m a p m' p') → unclaimed p ++ called_by mv ≡ claimed_by mv ++ unclaimed p'
Move-unclaimed (begins l n) = refl
Move-unclaimed (claims e h) = refl
Move-unclaimed (overshoots e h) = refl
Move-unclaimed (waits h) = refl
Move-unclaimed (retries h) = refl
Move-unclaimed (spins {p} e g) = append-nil (unclaimed p)
Move-unclaimed (locks {p} e g) = append-nil (unclaimed p) ∙ unclaimed-lock p e
Move-unclaimed (unlocks {p} e) = append-nil (unclaimed p) ∙ unclaimed-unlock p e
Move-unclaimed loads = refl
Move-unclaimed (writes e) = refl
Move-unclaimed (counts e) = refl
Move-unclaimed (completes e) = refl
Move-unclaimed stores = refl
Move-unclaimed queues = refl
Move-unclaimed resets = refl
Move-unclaimed (seeks z e) = refl
Move-unclaimed (polls z e) = refl
Move-unclaimed fronts = refl
Move-unclaimed (finds_none e) = refl
Move-unclaimed (misses e h k) = refl
Move-unclaimed (takes e h k n) = refl
Move-unclaimed (finishes e h k n) = refl
Move-unclaimed (frees e) = refl

push_claims-claimed_lines :
    {size : ℕ} {s : System} (r : Run size s)
    → map (λ (e : ℕ × LogLine). e.1) (push_claims r) ≡ claimed_lines r
push_claims-claimed_lines nothing = refl
push_claims-claimed_lines (more a r mv) =
    map-append (push_claims r) (map (λ (l : LogLine). (a, l)) (claimed_by mv))
    ∙ ap
        (λ (xs : List LogLine).
          xs ++ map (λ (e : ℕ × LogLine). e.1) (map (λ (l : LogLine). (a, l)) (claimed_by mv)))
        (push_claims-claimed_lines r)
    ∙ ap (◌++◌ (claimed_lines r)) (map-lines a (claimed_by mv))

-- The lines of a thread, behind a move of its own and behind one of another.
lines_of-snoc_own :
    (a : ℕ) (xs : List (ℕ × LogLine)) (ls : List LogLine)
    → lines_of a (xs ++ map (λ (l : LogLine). (a, l)) ls) ≡ lines_of a xs ++ ls
lines_of-snoc_own a xs ls =
    lines_of-append a xs (map (λ (l : LogLine). (a, l)) ls)
    ∙ ap (◌++◌ (lines_of a xs)) (lines_of-own a ls)

lines_of-snoc_other :
    (a b : ℕ) (xs : List (ℕ × LogLine)) (ls : List LogLine)
    → (a == b) ≡ false
    → lines_of b (xs ++ map (λ (l : LogLine). (a, l)) ls) ≡ lines_of b xs
lines_of-snoc_other a b xs ls e =
    lines_of-append b xs (map (λ (l : LogLine). (a, l)) ls)
    ∙ ap (◌++◌ (lines_of b xs)) (lines_of-other a b ls e)
    ∙ append-nil (lines_of b xs)

abbrev Claimed : {size : ℕ} {s : System} → ℕ → Run size s → Type 0
Claimed {s = s} b r = lines_of b (push_calls r) ≡ lines_of b (push_claims r) ++ unclaimed (s.pc b)

own-Claimed :
    {size : ℕ} {s : System} {m : Memory} {p : Pc} (a : ℕ) (r : Run size s)
    (mv : Move size s.mem a (s.pc a) m p)
    → Claimed a r
    → Claimed a (more a r mv)
own-Claimed {s = s} {p = p} a r mv e =
    lines_of-snoc_own a (push_calls r) (called_by mv)
    ∙ ap (λ (xs : List LogLine). xs ++ called_by mv) e
    ∙ append_assoc (lines_of a (push_claims r)) (unclaimed (s.pc a)) (called_by mv)
    ∙ ap (◌++◌ (lines_of a (push_claims r))) (Move-unclaimed mv)
    ∙ sym (append_assoc (lines_of a (push_claims r)) (claimed_by mv) (unclaimed p))
    ∙ ap (λ (xs : List LogLine). xs ++ unclaimed p)
        (sym (lines_of-snoc_own a (push_claims r) (claimed_by mv)))
    ∙ ap (λ (x : Pc). lines_of a (push_claims (more a r mv)) ++ unclaimed x)
        (sym (update_pc_self a p s.pc))

Run-Claimed : {size : ℕ} {s : System} (b : ℕ) (r : Run size s) → Claimed b r
Run-Claimed b nothing = refl
Run-Claimed b (more {s = s} a {p = p} r mv) = elim (Bool-cases (a == b)) [
  | inl same ↦
      let at : a ≡ b = ground arith in
      subst (λ (c : ℕ). Claimed c (more a r mv)) at
        (own-Claimed a r mv (subst (λ (c : ℕ). Claimed c r) (sym at) (Run-Claimed b r)))
  | inr other ↦
      let off : b ≢ a = ground arith in
      lines_of-snoc_other a b (push_calls r) (called_by mv) other
      ∙ Run-Claimed b r
      ∙ ap (λ (xs : List LogLine). xs ++ unclaimed (s.pc b))
          (sym (lines_of-snoc_other a b (push_claims r) (claimed_by mv) other))
      ∙ ap (λ (x : Pc). lines_of b (push_claims (more a r mv)) ++ unclaimed x)
          (sym (update_pc_other a b p s.pc off))
]

-- In any run of the threads on a new queue buffer, a thread claims indices for the lines of its
-- calls of `push`, each once and in the order of the calls; if it is in a call that has no index
-- yet, the line of that call is the only one left. The claims of all threads together, in their
-- order, are the lines claimed.
pub push_calls-push_claims :
    {size : ℕ} {s : System} (b : ℕ) (r : Run size s)
    → (map (λ (e : ℕ × LogLine). e.1) (push_claims r) ≡ claimed_lines r)
      × (lines_of b (push_calls r) ≡ lines_of b (push_claims r) ++ unclaimed (s.pc b))
push_calls-push_claims b r = (push_claims-claimed_lines r, Run-Claimed b r)
