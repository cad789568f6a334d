-- ===== src/QueueBuffer/Calls.antt =====
-- The parts of the calls on a queue buffer (src/queuebuffer.cpp), one by one.
use zephyrlog.Prelude.{
  ℕ, zero, suc, ◌+◌, ◌%◌, ◌<◌, ◌≡◌, ap, ◌∙◌, Option, none, some, List, [], ◌∷◌, ◌++◌, arith, ◌==◌,
  if◌then◌else◌, eqb_refl, false, Bool,
}
use zephyrlog.LogLine.{LogLine}
use zephyrlog.QueueBuffer.{
  Buffer, QueueBuffer, write_item, count_item, destroy, update, uint_max, setup_next_write_buffer,
  get_next_read_buffer, write_at, count_at, put_line, pop_buffer, advance, read_buffer,
}
use zephyrlog.QueueBuffer.Chain.{update-update, update_self, Chain}

-- `n` addresses from `p` on.
abbrev pub addresses : ℕ → ℕ → List ℕ
addresses p zero = []
addresses p (suc n) = p ∷ addresses (suc p) n

pub addresses-snoc : (p n : ℕ) → addresses p n ++ (p + n) ∷ [] ≡ addresses p (suc n)
addresses-snoc p zero = ap (λ (a : ℕ). a ∷ []) (omega arith)
addresses-snoc p (suc n) = ap (◌∷◌ p) (
    ap (λ (a : ℕ). addresses (suc p) n ++ a ∷ []) {y = suc p + n} (omega arith)
    ∙ addresses-snoc (suc p) n)

-- The consumer is at the first block, and has it at hand or not; it has it at hand if it has read
-- from it.
abbrev pub AtFirst : Option ℕ → ℕ → ℕ → Type 0
AtFirst none p start = start ≡ 0
AtFirst (some r) p start = r ≡ p

pub record Queued (size : ℕ) (q : QueueBuffer) (lines : List LogLine) : Type 0 where
  pub first : ℕ
  pub others : ℕ
  pub chain : Chain size q.heap others first q.read_index lines q.write_index
  pub owned : q.buffers ≡ addresses first (suc others)
  pub next_eq : q.next_address ≡ first + others + 1
  pub write_eq : q.current_write_buffer ≡ first + others
  pub at_first : AtFirst q.current_read_buffer first q.read_index
  pub read_in : q.read_index < size
  pub write_in : q.write_index < size

-- The two halves of a write, one after the other.
pub put_line_lem :
    (size : ℕ) (logline : LogLine) (index : ℕ) (q : QueueBuffer) (b b₁ b₂ : Buffer) (full : Bool)
    → q.heap q.current_write_buffer ≡ some b
    → write_item logline index b ≡ some b₁
    → count_item size b₁ ≡ (full, b₂)
    → put_line size logline index q ≡ (
        let q' = record q { heap = update q.heap q.current_write_buffer (some b₂) } in
        some (if full then setup_next_write_buffer size q' else q'))
unfolding put_line write_at count_at
put_line_lem size logline index q b b₁ b₂ full e e₁ e₂ =
    let p : ℕ = q.current_write_buffer in
    rw (e, e₁, update_self q.heap p (some b₁), e₂, update-update q.heap p (some b₁) (some b₂))

-- The consumer reads the oldest block.
pub read_buffer-first :
    (q : QueueBuffer) (p : ℕ) (rest : List ℕ) (o : Option ℕ)
    → q.current_read_buffer ≡ o
    → AtFirst o p q.read_index
    → q.buffers ≡ p ∷ rest
    → read_buffer q ≡ some p
unfolding read_buffer get_next_read_buffer
read_buffer-first q p rest none e at owned = rw (e, owned)
read_buffer-first q p rest (some r) e at owned = rw (e, at)

-- Behind a line that is not the last one of its block.
pub advance-more :
    (size : ℕ) (q : QueueBuffer)
    → size < uint_max
    → q.read_index + 1 < size
    → advance size q ≡ some (record q { read_index = q.read_index + 1 })
unfolding advance
advance-more size q small more =
    let next : (q.read_index + 1) % uint_max ≡ q.read_index + 1 = omega arith in
    let inside : ((q.read_index + 1) == size) ≡ false = ground arith in rw (next, inside)

-- Behind the last line of a block, which is freed.
pub advance-end :
    (size : ℕ) (q : QueueBuffer) (b : Buffer) (p : ℕ) (rest : List ℕ)
    → size < uint_max
    → q.read_index + 1 ≡ size
    → q.buffers ≡ p ∷ rest
    → q.heap p ≡ some b
    → destroy b.write_count b.items ≡ some tt
    → advance size q
      ≡ some (record q {
        read_index = 0;
        current_read_buffer = none;
        heap = update q.heap p none;
        buffers = rest;
      })
unfolding advance pop_buffer
advance-end size q b p rest small end owned found gone =
    let next : (q.read_index + 1) % uint_max ≡ size = omega arith in
    rw (next, eqb_refl size, owned, found, gone)
