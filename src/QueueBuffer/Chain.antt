-- ===== src/QueueBuffer/Chain.antt =====
-- The blocks of a queue buffer, one behind the other in the heap.
use zephyrlog.Prelude.{
  ℕ, zero, suc, ◌+◌, ◌≤◌, ◌<◌, ◌≡◌, ◌≢◌, refl, sym, ap, ◌∙◌, Option, none, some, List, [], ◌∷◌,
  ◌++◌, length, arith, length-append, append_assoc, append-nil, ◌==◌, eqb_refl, ◌⊎◌, inl, inr,
}
use native.Mathlib.Decide.{dec_lt, ℕ_discrete}
use std.Path.{fun_ext}
use zephyrlog.LogLine.{LogLine}
use zephyrlog.QueueBuffer.{
  Buffer, buffer, write_item, count_item, read_item, destroy, update, uint_max,
}
use zephyrlog.QueueBuffer.Blocks.{
  Block, buffer-Block, filled, taken, write_item-Block, read_item-Block, read_item-nil,
  destroy-Block,
}

abbrev Heap : Type 0
Heap = ℕ → Option Buffer

pub update_self : (heap : Heap) (p : ℕ) (b : Option Buffer) → update heap p b p ≡ b
update_self heap p b = rw (eqb_refl p)

update_ne : (heap : Heap) (p j : ℕ) (b : Option Buffer) → j ≢ p → update heap p b j ≡ heap j
update_ne heap p j b h = ground arith

pub update-update :
    (heap : Heap) (p : ℕ) (b b' : Option Buffer) → update (update heap p b) p b' ≡ update heap p b'
update-update heap p b b' =
    fun_ext (λ j. elim (ℕ_discrete j p) [ yes e ↦ rw (e, eqb_refl p) | no h ↦ ground arith ])

-- `n` full blocks from address `p` on and one more, at consecutive addresses: the lines from index
-- `start` of the first, up to index `w` of the last.
module _ (size : ℕ) (heap : Heap) where
  abbrev pub Chain : (n p start : ℕ) → List LogLine → ℕ → Type 0
  Chain zero p start lines w =
      (b : Buffer) × (heap p ≡ some b) × Block size b start lines × (start + length lines ≡ w)
  Chain (suc n) p start lines w =
      (b : Buffer) × (front : List LogLine) × (back : List LogLine) × (heap p ≡ some b)
      × Block size b start front
      × (start + length front ≡ size)
      × (lines ≡ front ++ back)
      × Chain n (suc p) 0 back w

-- A chain does not change with the heap outside of it.
Chain-same :
    (size : ℕ) (heap heap' : Heap) (n p start : ℕ) (lines : List LogLine) (w : ℕ)
    → ((j : ℕ) → p ≤ j → heap' j ≡ heap j)
    → Chain size heap n p start lines w
    → Chain size heap' n p start lines w
Chain-same size heap heap' zero p start lines w same (b, e, v, k) =
    (b, same p (omega arith) ∙ e, v, k)
Chain-same size heap heap' (suc n) p start lines w same (b, front, back, e, v, k, l, c) = (
  b,
  front,
  back,
  same p (omega arith) ∙ e,
  v,
  k,
  l,
  Chain-same size heap heap' n (suc p) 0 back w (λ j h. same j (omega arith)) c,
)

-- The last block, at address `a`, and the chain once a line is written there and counted.
pub Chain-write :
    (size : ℕ) (heap : Heap) (n p a start : ℕ) (lines : List LogLine) (w : ℕ) (logline : LogLine)
    → a ≡ p + n
    → Chain size heap n p start lines w
    → w < size
    → size < uint_max
    → (b : Buffer) × (b₁ : Buffer) × (b₂ : Buffer) × (heap a ≡ some b)
      × (write_item logline w b ≡ some b₁)
      × (count_item size b₁ ≡ ((w + 1) == size, b₂))
      × Chain size (update heap a (some b₂)) n p start (lines ++ logline ∷ []) (w + 1)
Chain-write size heap zero p a start lines w logline at (b, e, v, k) h small =
    let same : a ≡ p = omega arith in
    let (b₁, e₁, e₂, v') = write_item-Block v logline (omega arith) small in
    let b₂ : Buffer = filled b logline (start + length lines) in
    rw (← k, same)
      (
        b,
        b₁,
        b₂,
        e,
        e₁,
        e₂,
        (b₂, update_self heap p (some b₂), v', omega (arith, length-append lines (logline ∷ []))),
      )
Chain-write size heap (suc n) p a start lines w logline at (b, front, back, e, v, k, l, c) h small =
    let (b₀, b₁, b₂, e₀, e₁, e₂, c') =
      Chain-write size heap n (suc p) a 0 back w logline (omega arith) c h small in
    (
      b₀,
      b₁,
      b₂,
      e₀,
      e₁,
      e₂,
      (
        b,
        front,
        back ++ logline ∷ [],
        update_ne heap a p (some b₂) (omega arith) ∙ e,
        v,
        k,
        ap (λ (xs : List LogLine). xs ++ logline ∷ []) l ∙ append_assoc front back (logline ∷ []),
        c',
      ),
    )

-- A full chain with a new block behind it, at address `a`.
pub Chain-extend :
    (size : ℕ) (heap : Heap) (n p a start : ℕ) (lines : List LogLine)
    → a ≡ p + n + 1
    → Chain size heap n p start lines size
    → Chain size (update heap a (some (buffer size))) (suc n) p start lines 0
Chain-extend size heap zero p a start lines at (b, e, v, k) =
    let same : a ≡ suc p = omega arith in
    let new : Option Buffer = some (buffer size) in
    rw same (
      b,
      lines,
      [],
      update_ne heap (suc p) p new (omega arith) ∙ e,
      v,
      k,
      sym (append-nil lines),
      (buffer size, update_self heap (suc p) new, buffer-Block size, omega arith),
    )
Chain-extend size heap (suc n) p a start lines at (b, front, back, e, v, k, l, c) = (
  b,
  front,
  back,
  update_ne heap a p (some (buffer size)) (omega arith) ∙ e,
  v,
  k,
  l,
  Chain-extend size heap n (suc p) a 0 back (omega arith) c,
)

nil_of_length : (xs : List LogLine) → length xs ≡ 0 → xs ≡ []
nil_of_length [] e = refl
nil_of_length (x ∷ xs) e = absurd (omega arith)

-- Where nothing is left, the first block is the last one, and shows nothing.
pub Chain-nil :
    (size : ℕ) (heap : Heap) (n p start w : ℕ)
    → Chain size heap n p start [] w
    → start < size
    → (b : Buffer) × (heap p ≡ some b) × (read_item start b ≡ some (none, b))
Chain-nil size heap zero p start w (b, e, v, k) h = (b, e, read_item-nil v h)
Chain-nil size heap (suc n) p start w (b, [], back, e, v, k, l, c) h = absurd (omega arith)
Chain-nil size heap (suc n) p start w (b, x ∷ front, back, e, v, k, l, c) h = cc l

-- The first block with a line to read, and the chain behind that line. The block stays, unless the
-- line was its last one.
pub Chain-read :
    (size : ℕ) (heap : Heap) (n p start : ℕ) (lines : List LogLine) (w : ℕ) (logline : LogLine)
    → Chain size heap n p start (logline ∷ lines) w
    → start < size
    → w < size
    → (b : Buffer) × (b₁ : Buffer) × (heap p ≡ some b)
      × (read_item start b ≡ some (some logline, b₁))
      × (destroy b₁.write_count b₁.items ≡ some tt)
      × (((start + 1 < size) × Chain size (update heap p (some b₁)) n p (start + 1) lines w)
          ⊎ ((start + 1 ≡ size)
              × ((m : ℕ) × (n ≡ suc m) × Chain size (update heap p none) m (suc p) 0 lines w)))
Chain-read size heap zero p start lines w logline (b, e, v, k) hs hw =
    let (r, v') = read_item-Block logline v in
    let b₁ : Buffer = taken b logline start in
    (
      b,
      b₁,
      e,
      r,
      destroy-Block v',
      inl (omega arith, (b₁, update_self heap p (some b₁), v', omega arith)),
    )
Chain-read size heap (suc n) p start lines w logline (b, [], back, e, v, k, l, c) hs hw =
    absurd (omega arith)
Chain-read size heap (suc n) p start lines w logline (b, x ∷ front, back, e, v, k, l, c) hs hw =
    let same : x ≡ logline = cc l in
    let (r, v') = read_item-Block x v in
    let b₁ : Buffer = taken b x start in
    let lines_eq : lines ≡ front ++ back = cc l in
    let elsewhere : (o : Option Buffer) (j : ℕ) → suc p ≤ j → update heap p o j ≡ heap j =
      λ o j h. update_ne heap p j o (omega arith) in
    (
      b,
      b₁,
      e,
      rw (← same) r,
      destroy-Block v',
      elim (dec_lt (start + 1) size) [
        | yes more ↦ inl (
          more,
          (
            b₁,
            front,
            back,
            update_self heap p (some b₁),
            v',
            omega arith,
            lines_eq,
            Chain-same size heap (update heap p (some b₁)) n (suc p) 0 back w (elsewhere (some b₁))
                c,
          ),
        )
        | no end ↦
            let empty : front ≡ [] = nil_of_length front (omega arith) in
            let rest : lines ≡ back = lines_eq ∙ ap (λ (xs : List LogLine). xs ++ back) empty in
            inr (
              omega arith,
              (
                n,
                refl,
                rw rest (
                    Chain-same size heap (update heap p none) n (suc p) 0 back w (elsewhere none)
                      c),
              ),
            )
      ],
    )
