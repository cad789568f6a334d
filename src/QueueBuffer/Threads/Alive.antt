-- ===== src/QueueBuffer/Threads/Alive.antt =====
-- The blocks in the queue of blocks are in the heap.
use zephyrlog.Prelude.{
  ℕ, ◌<◌, ◌≡◌, refl, subst, Option, none, some, List, [], ◌∷◌, ◌++◌, false, ◌==◌, arith, Bool-cases,
  inl, inr,
}
use zephyrlog.QueueBuffer.{Buffer, update}
use zephyrlog.QueueBuffer.Threads.{System}
use zephyrlog.QueueBuffer.Threads.Places.{next_block}
use zephyrlog.QueueBuffer.Threads.Reader.{Below}
use zephyrlog.QueueBuffer.Threads.Sound.{Sound}

abbrev pub Lives : (ℕ → Option Buffer) → ℕ → Type 0
Lives heap p = (b : Buffer) × (heap p ≡ some b)

abbrev pub AllLive : (ℕ → Option Buffer) → List ℕ → Type 0
AllLive heap [] = Unit
AllLive heap (p ∷ ps) = Lives heap p × AllLive heap ps

abbrev pub Above : ℕ → List ℕ → Type 0
Above n [] = Unit
Above n (p ∷ ps) = (n < p) × Above n ps

abbrev pub Sorted : List ℕ → Type 0
Sorted [] = Unit
Sorted (p ∷ ps) = Above p ps × Sorted ps

pub AllLive-map :
    (heap heap' : ℕ → Option Buffer) (ps : List ℕ)
    → ((p : ℕ) → Lives heap p → Lives heap' p)
    → AllLive heap ps
    → AllLive heap' ps
AllLive-map heap heap' [] f h = tt
AllLive-map heap heap' (p ∷ ps) f (h, hs) = (f p h, AllLive-map heap heap' ps f hs)

pub AllLive-append :
    (heap : ℕ → Option Buffer) (ps : List ℕ) (p : ℕ)
    → AllLive heap ps
    → Lives heap p
    → AllLive heap (ps ++ p ∷ [])
AllLive-append heap [] p h k = (k, tt)
AllLive-append heap (x ∷ ps) p (h, hs) k = (h, AllLive-append heap ps p hs k)

pub Lives-free :
    (heap : ℕ → Option Buffer) (p x : ℕ) → p < x → Lives heap x → Lives (update heap p none) x
Lives-free heap p x h (b, e) = let off : (x == p) ≡ false = ground arith in (b, rw off e)

pub AllLive-free :
    (heap : ℕ → Option Buffer) (p : ℕ) (ps : List ℕ)
    → Above p ps
    → AllLive heap ps
    → AllLive (update heap p none) ps
AllLive-free heap p [] h k = tt
AllLive-free heap p (x ∷ ps) (h, hs) (k, ks) =
    (Lives-free heap p x h k, AllLive-free heap p ps hs ks)

Above-append : (n : ℕ) (ps : List ℕ) (p : ℕ) → Above n ps → n < p → Above n (ps ++ p ∷ [])
Above-append n [] p h k = (k, tt)
Above-append n (x ∷ ps) p (h, hs) k = (h, Above-append n ps p hs k)

pub Sorted-append : (ps : List ℕ) (p : ℕ) → Sorted ps → Below p ps → Sorted (ps ++ p ∷ [])
Sorted-append [] p h k = (tt, tt)
Sorted-append (x ∷ ps) p (h, hs) (k, ks) = (Above-append x ps p h k, Sorted-append ps p hs ks)

-- A heap with one more block, or with another one in place of one.
pub Lives-update :
    (heap : ℕ → Option Buffer) (r : ℕ) (b : Buffer) (p : ℕ)
    → Lives heap p
    → Lives (update heap r (some b)) p
Lives-update heap r b p (c, e) = elim (Bool-cases (p == r)) [
  | inl same ↦ (b, rw same refl)
  | inr differs ↦ (c, rw differs e)
]

abbrev pub AllSound : ℕ → (ℕ → Option Buffer) → Type 0
AllSound size heap = (p : ℕ) (b : Buffer) → heap p ≡ some b → Sound size b

pub AllSound-update :
    {size : ℕ} (heap : ℕ → Option Buffer) (r : ℕ) (b : Buffer)
    → AllSound size heap
    → Sound size b
    → AllSound size (update heap r (some b))
AllSound-update {size} heap r b v own p c e = elim (Bool-cases (p == r)) [
  | inl same ↦ let one : b ≡ c = cc (rw same at e) in subst (Sound size) one own
  | inr differs ↦ v p c (rw differs at e)
]

pub AllSound-free :
    {size : ℕ} (heap : ℕ → Option Buffer) (r : ℕ)
    → AllSound size heap
    → AllSound size (update heap r none)
AllSound-free heap r v p c e = elim (Bool-cases (p == r)) [
  | inl same ↦ cc (rw same at e)
  | inr differs ↦ v p c (rw differs at e)
]

pub record Alive (size : ℕ) (s : System) : Type 0 where
  pub sound : AllSound size s.mem.queue.heap
  pub live : AllLive s.mem.queue.heap s.mem.queue.buffers
  pub sorted : Sorted s.mem.queue.buffers
  pub next :
      (a x : ℕ)
      → next_block (s.pc a) ≡ some x
      → Lives s.mem.queue.heap x × Below x s.mem.queue.buffers
  pub index_low : s.mem.queue.read_index < size
