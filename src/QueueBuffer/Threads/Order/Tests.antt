-- ===== src/QueueBuffer/Threads/Order/Tests.antt =====
-- The theorems on the order of the lines at a concrete run, with blocks of two lines.
use zephyrlog.Prelude.{
  ℕ, ◌+◌, ◌%◌, ◌≡◌, ◌≢◌, ◌<◌, ◌⊎◌, refl, some, none, List, [], ◌∷◌, ◌++◌, map, arith,
}
use zephyrlog.LogLine.{LogLine, fresh}
use zephyrlog.LogLine.Moved.{moved_to}
use zephyrlog.SpinLock.{test_and_set, clear}
use zephyrlog.QueueBuffer.{
  Buffer, uint_max, queue_buffer, setup_next_write_buffer, claim, write_at, write_item, buffer,
  get_next_read_buffer, read_item, take_item, count_at, count_item, pop_buffer, destroy,
}
use zephyrlog.QueueBuffer.Threads.{
  Memory, Pc, System, start, Move, Run, nothing, more, NoWrap, begins, claims, loads, writes, seeks,
  locks, fronts, unlocks, takes, completes, finishes, frees, sought,
}
use zephyrlog.QueueBuffer.Threads.Places.{carries}
use zephyrlog.QueueBuffer.Threads.Counted.{after}
use zephyrlog.QueueBuffer.Threads.Order.{claimed_lines, delivered_lines}
use zephyrlog.QueueBuffer.Threads.Order.Callers.{
  push_calls, push_claims, lines_of, unclaimed, push_calls-push_claims,
}
use zephyrlog.QueueBuffer.Threads.Order.Fifo.{
  delivered_lines-claimed_lines, misses-carries, fronts-claimed_lines,
}

record Passed (size : ℕ) (s : System) : Type 0 where
  pub run : Run size s
  pub fits : NoWrap run

abbrev line : LogLine
line = fresh (7 ∷ [])

abbrev next_line : LogLine
next_line = fresh (8 ∷ [])

move :
    {size : ℕ} {s : System} {m : Memory} {p : Pc}
    → Passed size s
    → (a : ℕ) → s.mem.queue.write_index + 1 < uint_max
    → Move size s.mem a (s.pc a) m p
    → Passed size (after s a m p)
move g a small mv = record { run = more a g.run mv; fits = (small, g.fits) }

first_producer : ◌≢◌ {A = ℕ} 1 0
first_producer = omega arith

second_producer : ◌≢◌ {A = ℕ} 2 0
second_producer = omega arith

zero_in : 0 < 2
zero_in = omega arith

one_in : 1 < 2
one_in = omega arith

two_short : 2 < uint_max
two_short = omega arith

not_last : (0 + 1) % uint_max ≢ 2
not_last = omega arith

zero_fits : 0 + 1 < uint_max
zero_fits = omega arith

one_fits : 1 + 1 < uint_max
one_fits = omega arith

-- A producer has written a line, and the consumer moved it out; another has an index.
taken :
    (s : System) × (b : Buffer) × Passed 2 s
    × (s.mem.queue.current_read_buffer ≡ some 1)
    × (s.mem.queue.heap 1 ≡ some b)
    × (read_item s.mem.queue.read_index b ≡ some (none, b))
unfolding queue_buffer setup_next_write_buffer claim write_at write_item buffer test_and_set
    get_next_read_buffer read_item take_item moved_to
taken =
    let g₀ : Passed 2 (start 2) = record { run = nothing; fits = tt } in
    let g₁ = move g₀ 1 zero_fits (begins line first_producer) in
    let g₂ = move g₁ 1 zero_fits (claims refl zero_in) in
    let g₃ = move g₂ 1 one_fits loads in
    let g₄ = move g₃ 1 one_fits (writes refl) in
    let g₅ = move g₄ 0 one_fits (seeks refl refl) in
    let g₆ = move g₅ 0 one_fits (locks refl refl) in
    let g₇ = move g₆ 0 one_fits fronts in
    let g₈ = move g₇ 0 one_fits (unlocks refl) in
    let g₉ = move g₈ 0 one_fits (takes refl refl refl not_last) in
    let g₁₀ = move g₉ 2 one_fits (begins next_line second_producer) in
    (_, _, move g₁₀ 2 one_fits (claims refl one_in), refl, refl, refl)

delivered_lines-claimed_lines_example :
    (rest : List LogLine) × (claimed_lines taken.2.run ≡ delivered_lines taken.2.run ++ rest)
delivered_lines-claimed_lines_example =
    delivered_lines-claimed_lines 2 zero_in two_short taken.2.run taken.2.fits

misses-carries_example :
    (claimed_lines taken.2.run ≡ delivered_lines taken.2.run)
    ⊎ ((a : ℕ) × (l : LogLine) × (rest : List LogLine) × (carries (taken.0.pc a)
          ≡ some (taken.0.mem.queue.read_index, l))
        × (claimed_lines taken.2.run ≡ delivered_lines taken.2.run ++ l ∷ rest))
misses-carries_example =
    misses-carries 2 1 taken.1 taken.1 zero_in two_short taken.2.run taken.2.fits taken.3 taken.4
      taken.5

push_calls-push_claims_example :
    (map (λ (e : ℕ × LogLine). e.1) (push_claims taken.2.run) ≡ claimed_lines taken.2.run)
    × (lines_of 2 (push_calls taken.2.run)
        ≡ lines_of 2 (push_claims taken.2.run) ++ unclaimed (taken.0.pc 2))
push_calls-push_claims_example = push_calls-push_claims 2 taken.2.run

zero_lt_one : 0 < 1
zero_lt_one = omega arith

one_short : 1 < uint_max
one_short = omega arith

is_last : (0 + 1) % uint_max ≡ 1
is_last = omega arith

-- The consumer has read and freed the only block before its producer has made the next one, and
-- looks for a block again.
emptied : (s : System) × Passed 1 s × (s.pc 0 ≡ sought) × (get_next_read_buffer s.mem.queue ≡ none)
unfolding queue_buffer setup_next_write_buffer claim write_at write_item count_at count_item buffer
    test_and_set get_next_read_buffer read_item take_item moved_to pop_buffer destroy clear
emptied =
    let g₀ : Passed 1 (start 1) = record { run = nothing; fits = tt } in
    let g₁ = move g₀ 1 zero_fits (begins line first_producer) in
    let g₂ = move g₁ 1 zero_fits (claims refl zero_lt_one) in
    let g₃ = move g₂ 1 one_fits loads in
    let g₄ = move g₃ 1 one_fits (writes refl) in
    let g₅ = move g₄ 1 one_fits (completes refl) in
    let g₆ = move g₅ 0 one_fits (seeks refl refl) in
    let g₇ = move g₆ 0 one_fits (locks refl refl) in
    let g₈ = move g₇ 0 one_fits fronts in
    let g₉ = move g₈ 0 one_fits (unlocks refl) in
    let g₁₀ = move g₉ 0 one_fits (finishes refl refl refl is_last) in
    let g₁₁ = move g₁₀ 0 one_fits (locks refl refl) in
    let g₁₂ = move g₁₁ 0 one_fits (frees refl) in
    let g₁₃ = move g₁₂ 0 one_fits (unlocks refl) in
    let g₁₄ = move g₁₃ 0 one_fits (seeks refl refl) in
    (_, move g₁₄ 0 one_fits (locks refl refl), refl, refl)

fronts-claimed_lines_example : claimed_lines emptied.1.run ≡ delivered_lines emptied.1.run
fronts-claimed_lines_example =
    fronts-claimed_lines 1 zero_lt_one one_short emptied.1.run emptied.1.fits emptied.2 emptied.3
