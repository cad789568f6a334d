-- ===== src/QueueBuffer/Race.antt =====
-- A consumer between the two halves of `Buffer::push` (src/queuebuffer.cpp).
use zephyrlog.Prelude.{
  ℕ, zero, suc, ◌+◌, ◌%◌, ◌<◌, ◌≡◌, refl, sym, ap, ◌∙◌, subst, Option, none, some, [], ◌∷◌, length,
  arith, Bool,
}
use zephyrlog.LogLine.{LogLine}
use zephyrlog.QueueBuffer.{
  Buffer, QueueBuffer, update, uint_max, write_item, count_item, take_item, read_item, destroy,
  claim, write_at, count_at, read_buffer, try_pop, try_pop_at,
}
use zephyrlog.QueueBuffer.Blocks.{
  Block, filled, taken, write_item-Block, read_item-Block, destroy-Block_le,
}
use zephyrlog.QueueBuffer.Chain.{Chain, update_self}
use zephyrlog.QueueBuffer.Calls.{Queued, addresses, read_buffer-first, advance-end}

-- A block with another count.
abbrev counted : ℕ → Buffer → Buffer
counted n b = record b { write_count = n }

abbrev recount : ℕ → Option (Option LogLine × Buffer) → Option (Option LogLine × Buffer)
recount n none = none
recount n (some (out, b)) = some (out, counted n b)

-- The consumer does not look at the count.
read_item-counted :
    (index n : ℕ) (b : Buffer) → read_item index (counted n b) ≡ recount n (read_item index b)
unfolding read_item take_item
read_item-counted index n b = ground arith

write_count-write_item :
    (logline : LogLine) (index : ℕ) (b b' : Buffer)
    → write_item logline index b ≡ some b'
    → b'.write_count ≡ b.write_count
unfolding write_item
write_count-write_item logline index b b' e = ground arith

module _ (size : ℕ) (small : size < uint_max) where
  -- The last block, where the consumer has caught up with the producers.
  last-Block :
      (heap : ℕ → Option Buffer) (n p start w : ℕ)
      → Chain size heap n p start [] w
      → start < size
      → (n ≡ 0) × (start ≡ w) × ((b : Buffer) × (heap p ≡ some b) × Block size b w [])
  last-Block heap zero p start w (b, e, v, k) h =
      let same : start ≡ w = omega arith in
      (refl, same, (b, e, subst (λ (s : ℕ). Block size b s []) same v))
  last-Block heap (suc n) p start w (b, [], back, e, v, k, l, c) h = absurd (omega arith)
  last-Block heap (suc n) p start w (b, x ∷ front, back, e, v, k, l, c) h = cc l

  -- What the consumer finds in the item that a producer has written and not yet counted.
  read_item-uncounted :
      (logline : LogLine) (w : ℕ) (b : Buffer)
      → Block size b w []
      → w + 1 ≡ size
      → (b₁ : Buffer) × (b₂ : Buffer) × (write_item logline w b ≡ some b₁)
        × (read_item w b₁ ≡ some (some logline, b₂))
        × (destroy b₂.write_count b₂.items ≡ some tt)
  unfolding count_item
  read_item-uncounted logline w b v end =
      let here : w + length {A = LogLine} [] ≡ w = omega arith in
      let (b₁, e₁, e₂, v₁) = write_item-Block v logline (omega arith) small in
      let written : write_item logline w b ≡ some b₁ =
        ap (λ (k : ℕ). write_item logline k b) (sym here) ∙ e₁ in
      let shape : b₁ ≡ counted b₁.write_count (filled b logline w) =
        ap (λ (r : Bool × Buffer). counted b₁.write_count r.1) e₂
        ∙ ap (λ (k : ℕ). counted b₁.write_count (filled b logline k)) here in
      let full : Block size (filled b logline w) w (logline ∷ []) =
        subst (λ (k : ℕ). Block size (filled b logline k) w (logline ∷ [])) here v₁ in
      let (r, v₂) = read_item-Block logline full in
      let few : b₁.write_count ≡ w =
        write_count-write_item logline w b b₁ written ∙ v.count_eq ∙ here in
      (
        b₁,
        counted b₁.write_count (taken (filled b logline w) logline w),
        written,
        ap (read_item w) shape
            ∙ read_item-counted w b₁.write_count (filled b logline w)
            ∙ ap (recount b₁.write_count) r,
        destroy-Block_le b₁.write_count v₂ (omega (arith, few)),
      )

  -- On an empty queue buffer whose last block has one item left, with blocks of fewer than 2^32
  -- items: a consumer that calls `tryPop` between the two halves of the `push` that completes the
  -- block takes the line and frees the block, and the second half of the `push` then accesses the
  -- freed block.
  pub count_at-freed :
      (q : QueueBuffer) (logline : LogLine)
      → Queued size q []
      → q.write_index + 1 ≡ size
      → let (index, q₁) = claim q in
        (q₂ : QueueBuffer) × (q₃ : QueueBuffer) × (write_at q.current_write_buffer logline index q₁
          ≡ some q₂)
        × (try_pop size q₂ ≡ some (some logline, q₃))
        × (count_at size q.current_write_buffer q₃ ≡ none)
  unfolding claim write_at count_at try_pop try_pop_at
  count_at-freed q logline v end =
      let p : ℕ = v.first in
      let w : ℕ = q.write_index in
      let (others, start, (b, e, block)) =
        last-Block q.heap v.others p q.read_index w v.chain v.read_in in
      let at : q.current_write_buffer ≡ p = omega (arith, v.write_eq) in
      let one : q.buffers ≡ p ∷ [] = v.owned ∙ ap (λ (n : ℕ). addresses p (suc n)) others in
      let (b₁, b₂, e₁, e₂, gone) = read_item-uncounted logline w b block end in
      let q₁ : QueueBuffer = record q { write_index = (w + 1) % uint_max } in
      let q₂ : QueueBuffer = record q₁ { heap = update q.heap q.current_write_buffer (some b₁) } in
      let taken_at : QueueBuffer = record q₂ {
        heap = update q₂.heap p (some b₂);
        current_read_buffer = some p;
      } in
      let found : read_buffer q₂ ≡ some p =
        read_buffer-first q₂ p [] q.current_read_buffer refl v.at_first one in
      let step =
        advance-end size taken_at b₂ p [] small (omega (arith, start)) one
          (update_self q₂.heap p (some b₂)) gone in
      let known : q.heap q.current_write_buffer ≡ some b = ap q.heap at ∙ e in
      let there : q₂.heap p ≡ some b₁ =
        ap (λ (k : ℕ). update q.heap k (some b₁) p) at ∙ update_self q.heap p (some b₁) in
      let reads : read_item q.read_index b₁ ≡ some (some logline, b₂) =
        ap (λ (k : ℕ). read_item k b₁) start ∙ e₂ in
      let q₃ : QueueBuffer = record taken_at {
        read_index = 0;
        current_read_buffer = none;
        heap = update taken_at.heap p none;
        buffers = [];
      } in
      let freed : q₃.heap q.current_write_buffer ≡ none =
        ap (update taken_at.heap p none) at ∙ update_self taken_at.heap p none in
      (q₂, q₃, rw (known, e₁), rw (try_pop, found, there, reads, found, step), rw freed)
