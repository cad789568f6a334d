-- ===== src/QueueBuffer/Threads/Lock.antt =====
-- Who holds the lock of the queue of blocks.
use zephyrlog.Prelude.{ℕ, ◌≡◌, ◌≢◌, refl, ap, some, Bool, true, false, arith, Bool-cases, inl, inr}
use zephyrlog.SpinLock.{test_and_set, clear}
use zephyrlog.QueueBuffer.Threads.{
  Memory, Pc, entered, stored, queued, opened, sought, found, freeing, freed, System, Move, spins,
  locks, unlocks, behind_lock, behind_unlock, update_pc, Run, nothing, more,
}

abbrev pub locked : Pc → Bool
locked entered = true
locked (stored p) = true
locked queued = true
locked opened = true
locked sought = true
locked found = true
locked (freeing l) = true
locked (freed l) = true
locked _ = false

record Locked (s : System) : Type 0 where
  held : (a : ℕ) → locked (s.pc a) ≡ true → s.mem.flags 0 ≡ true
  unique : (a b : ℕ) → locked (s.pc a) ≡ true → locked (s.pc b) ≡ true → a ≡ b

at_lock : (p : Pc) {p' : Pc} → behind_lock p ≡ some p' → locked p ≡ false
at_lock p e = ground arith

at_unlock : (p : Pc) {p' : Pc} → behind_unlock p ≡ some p' → (locked p ≡ true) × (locked p' ≡ false)
at_unlock p e = (ground arith, ground arith)

module _ {size : ℕ} (s : System) (v : Locked s) (a : ℕ) where
  Move-held :
      {p p' : Pc} {m : Memory}
      → Move size s.mem a p m p'
      → s.pc a ≡ p
      → (b : ℕ) → locked (update_pc a p' s.pc b) ≡ true
      → m.flags 0 ≡ true
  unfolding test_and_set clear
  Move-held (spins {p} e g) here b h = refl
  Move-held (locks {p} e g) here b h = refl
  Move-held (unlocks {p} {p'} e) here b h =
      let (mine, off) = at_unlock p e in
      absurd (ground (arith, v.unique a b, ap locked here, mine, off, h))
  Move-held mv here b h = ground (arith, v.held b, v.held a)

  Move-unique :
      {p p' : Pc} {m : Memory}
      → Move size s.mem a p m p'
      → s.pc a ≡ p
      → (b c : ℕ) → locked (update_pc a p' s.pc b) ≡ true
      → locked (update_pc a p' s.pc c) ≡ true
      → b ≡ c
  unfolding test_and_set
  Move-unique (spins {p} e g) here b c h k = ground (arith, v.unique b c, at_lock p e)
  Move-unique (locks {p} e g) here b c h k = ground (arith, v.held b, v.held c, g)
  Move-unique (unlocks {p} {p'} e) here b c h k =
      let (mine, off) = at_unlock p e in ground (arith, v.unique b c, off)
  Move-unique mv here b c h k = ground (arith, v.unique b c)

Run-Locked : {size : ℕ} {s : System} → Run size s → Locked s
Run-Locked nothing = record { held = λ a e. cc e; unique = λ a b e h. cc e }
Run-Locked {size} (more {s = s} a r mv) = record {
  held = Move-held s (Run-Locked r) a mv refl;
  unique = Move-unique s (Run-Locked r) a mv refl;
}

-- In any run of the threads on a new queue buffer, one access at a time, while a thread is behind
-- the spin lock of the queue of blocks, in `setupNextWriteBuffer`, `getNextReadBuffer` or `tryPop`,
-- no other thread is.
pub locked-alone :
    {size : ℕ} {s : System} (a b : ℕ)
    → Run size s
    → a ≢ b
    → locked (s.pc a) ≡ true
    → locked (s.pc b) ≡ false
locked-alone {s = s} a b r other mine = elim (Bool-cases (locked (s.pc b))) [
  | inl both ↦ absurd (other ((Run-Locked r).unique a b mine both))
  | inr off ↦ off
]
