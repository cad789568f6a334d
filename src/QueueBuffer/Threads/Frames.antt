-- ===== src/QueueBuffer/Threads/Frames.antt =====
-- What one access to a block changes.
use zephyrlog.Prelude.{
  ℕ, ◌+◌, ◌%◌, ◌≡◌, ◌≢◌, refl, sym, ap, ◌∙◌, Option, none, some, List, [], ◌∷◌, Bool, ◌==◌,
  get_elem?, set, arith,
}
use zephyrlog.LogLine.{LogLine}
use zephyrlog.LogLine.Moved.{moved_from, moved_to}
use zephyrlog.LogLine.Values.{>>=-eq-some}
use zephyrlog.QueueBuffer.{
  Buffer, QueueBuffer, uint_max, update, write_item, count_item, take_item, read_item, destroy,
  write_at, count_at, pop_buffer,
}

-- The block is found, and its count goes up.
pub count_at-frame :
    (size p : ℕ) (full : Bool) (q q' : QueueBuffer)
    → count_at size p q ≡ some (full, q')
    → (b : Buffer) × (q.heap p ≡ some b)
      × (full ≡ ((b.write_count + 1) % uint_max == size))
      × (q' ≡ record q {
        heap = update q.heap p (some (record b { write_count = (b.write_count + 1) % uint_max }));
      })
unfolding count_at count_item
count_at-frame size p full q q' e = let (b, h, k) = >>=-eq-some (q.heap p) _ e in (b, h, cc k, cc k)

-- The block is found, and an item of it is written.
pub write_at-frame :
    (p i : ℕ) (l : LogLine) (q q' : QueueBuffer)
    → write_at p l i q ≡ some q'
    → (b : Buffer) × (b' : Buffer) × (q.heap p ≡ some b)
      × (q' ≡ record q { heap = update q.heap p (some b') })
      × (b'.items ≡ set b.items i (some (moved_to l)))
      × (b'.write_state ≡ set b.write_state i 1)
      × (b'.write_count ≡ b.write_count)
unfolding write_at write_item
write_at-frame p i l q q' e =
    let (b, h, k) = >>=-eq-some (q.heap p) _ e in
    let (b', w, last) = >>=-eq-some (write_item l i b) _ k in
    (b, b', h, cc last, ground (arith, w), ground (arith, w), ground (arith, w))

take_item-frame :
    (i state : ℕ) (item : Option LogLine) (l : LogLine) (b b' : Buffer)
    → take_item i state item b ≡ some (some l, b')
    → (l' : LogLine) × (state ≡ 1)
      × (b'.items ≡ set b.items i (some l'))
      × (b'.write_state ≡ b.write_state)
      × (b'.write_count ≡ b.write_count)
unfolding take_item
take_item-frame i state none l b b' e = absurd (ground (arith, e))
take_item-frame i state (some x) l b b' e =
    (moved_from x, ground (arith, e), ground (arith, e), ground (arith, e), ground (arith, e))

-- An item is read where its state is 1.
pub read_item-frame :
    (i : ℕ) (l : LogLine) (b b' : Buffer)
    → read_item i b ≡ some (some l, b')
    → (l' : LogLine) × (get_elem? b.write_state i ≡ some 1)
      × (b'.items ≡ set b.items i (some l'))
      × (b'.write_state ≡ b.write_state)
      × (b'.write_count ≡ b.write_count)
unfolding read_item
read_item-frame i l b b' e =
    let (state, h, k) = >>=-eq-some (get_elem? b.write_state i) _ e in
    let (item, h', k') = >>=-eq-some (get_elem? b.items i) _ k in
    let (l', one, eqs, eqs', eqs₃) = take_item-frame i state item l b b' k' in
    (l', h ∙ ap some one, eqs, eqs', eqs₃)

pop_buffer-cons :
    (p : ℕ) (rest : List ℕ) (q q' : QueueBuffer)
    → pop_buffer (record q { buffers = p ∷ rest }) ≡ some q'
    → q' ≡ record q { heap = update q.heap p none; buffers = rest }
unfolding pop_buffer
pop_buffer-cons p rest q q' e =
    let (b, h, k) = >>=-eq-some (q.heap p) _ e in
    let (u, d, k₁) = >>=-eq-some (destroy b.write_count b.items) _ k in cc k₁

pop_buffer-nil : (q q' : QueueBuffer) → pop_buffer (record q { buffers = [] }) ≡ some q' → ⊥
unfolding pop_buffer
pop_buffer-nil q q' e = cc e

-- The oldest block is freed.
pub pop_buffer-frame :
    (q q' : QueueBuffer)
    → pop_buffer q ≡ some q'
    → (p : ℕ) × (rest : List ℕ) × (q.buffers ≡ p ∷ rest)
      × (q' ≡ record q { heap = update q.heap p none; buffers = rest })
pop_buffer-frame q q' e = pop_cases q.buffers refl
  where
    same : (ps : List ℕ) → q.buffers ≡ ps → pop_buffer (record q { buffers = ps }) ≡ some q'
    same ps at = ap (λ (xs : List ℕ). pop_buffer (record q { buffers = xs })) (sym at) ∙ e

    pop_cases :
        (ps : List ℕ)
        → q.buffers ≡ ps
        → (p : ℕ) × (rest : List ℕ) × (q.buffers ≡ p ∷ rest)
          × (q' ≡ record q { heap = update q.heap p none; buffers = rest })
    pop_cases [] at = absurd (pop_buffer-nil q q' (same [] at))
    pop_cases (p ∷ rest) at = (p, rest, at, pop_buffer-cons p rest q q' (same (p ∷ rest) at))

take_item-line :
    (i state : ℕ) (item : Option LogLine) (l : LogLine) (b b' : Buffer)
    → take_item i state item b ≡ some (some l, b')
    → item ≡ some l
unfolding take_item moved_to
take_item-line i state none l b b' e = absurd (ground (arith, e))
take_item-line i state (some x) l b b' e = ground (arith, e)

-- The line that is read is the one in the item.
pub read_item-line :
    (i : ℕ) (l : LogLine) (b b' : Buffer)
    → read_item i b ≡ some (some l, b')
    → get_elem? b.items i ≡ some (some l)
unfolding read_item
read_item-line i l b b' e =
    let (state, h, k) = >>=-eq-some (get_elem? b.write_state i) _ e in
    let (item, h', k') = >>=-eq-some (get_elem? b.items i) _ k in
    h' ∙ ap some (take_item-line i state item l b b' k')

take_item-none :
    (i state : ℕ) (item : Option LogLine) (b b' : Buffer)
    → take_item i state item b ≡ some (none, b')
    → state ≢ 1
unfolding take_item
take_item-none i state none b b' e = ground (arith, e)
take_item-none i state (some x) b b' e = ground (arith, e)

-- No line is read where the state is not 1.
pub read_item-none :
    (i : ℕ) (b b' : Buffer) → read_item i b ≡ some (none, b') → get_elem? b.write_state i ≢ some 1
unfolding read_item
read_item-none i b b' e one =
    let (state, h, k) = >>=-eq-some (get_elem? b.write_state i) _ e in
    let (item, h', k') = >>=-eq-some (get_elem? b.items i) _ k in
    let state_one : state ≡ 1 = cc (sym h ∙ one) in take_item-none i state item b b' k' state_one
