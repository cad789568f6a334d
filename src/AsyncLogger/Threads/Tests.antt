-- ===== src/AsyncLogger/Threads/Tests.antt =====
-- The theorems on the threads of src/asynclogger.cpp at a concrete run, with blocks of two lines.
use zephyrlog.Prelude.{
  ℕ, map, ◌+◌, ◌%◌, ◌≡◌, ◌≢◌, ◌<◌, refl, List, ◌++◌, done, ◌==◌, arith, Bool-cases, inl, inr, some,
  none, true, false,
}
use zephyrlog.Prelude.Text.{codes}
use zephyrlog.LogLine.{LogLine}
use zephyrlog.LogLine.Moved.{moved_to}
use zephyrlog.LogLine.Sample.{sample_format, sample_memory, sample_line}
use zephyrlog.SpinLock.{test_and_set}
use zephyrlog.FileWriter.{FileWriter, write}
use zephyrlog.FileWriter.Rolling.{HasWritten, render}
use zephyrlog.QueueBuffer.{
  uint_max, queue_buffer, setup_next_write_buffer, claim, write_at, write_item, count_at,
  count_item, buffer, get_next_read_buffer, read_item, take_item,
}
use zephyrlog.QueueBuffer.Threads.{
  Pc, idle, update_pc, start, nothing, System, Run, Move, Memory, more, NoWrap, begins, claims,
  loads, writes, counts, seeks, polls, locks, fronts, unlocks, takes, misses,
}
use zephyrlog.QueueBuffer.Threads.Counted.{after}
use zephyrlog.QueueBuffer.Threads.Order.{claimed_lines}
use zephyrlog.QueueBuffer.Threads.Order.Callers.{push_calls, push_claims, lines_of}
use zephyrlog.AsyncLogger.{State, Place, init, ready, shutdown, waiting, testing, draining, stopped}
use zephyrlog.AsyncLogger.Sample.{opens, new_writer, sample_writer}
use zephyrlog.AsyncLogger.Threads.{
  calls, result, after_line, after_none, Logs, built, started, produced, shut, awoke, tested,
  popped, emptied, wrote,
}
use zephyrlog.AsyncLogger.Threads.Drain.{Logged-prefix, Logged-writes_all}

producer : ◌≢◌ {A = ℕ} 1 0
producer = omega arith

in_block : 0 < 2
in_block = omega arith

two_short : 2 < uint_max
two_short = omega arith

not_last : (0 + 1) % uint_max ≢ 2
not_last = omega arith

zero_fits : 0 + 1 < uint_max
zero_fits = omega arith

one_fits : 1 + 1 < uint_max
one_fits = omega arith

-- A thread that is idle again.
again :
    (p₁ p₂ p₃ p₄ : Pc) (a : ℕ)
    → update_pc 1 idle
        (update_pc 1 p₄ (update_pc 1 p₃ (update_pc 1 p₂ (update_pc 1 p₁ (λ _. idle)))))
        a
      ≡ idle
again p₁ p₂ p₃ p₄ a = elim (Bool-cases (a == 1)) [
  | inl same ↦ rw same refl
  | inr other ↦ rw other refl
]

-- The logger with its run.
record Stage (s : System) (state : State) (w : FileWriter) (place : Place) : Type 0 where
  pub run : Run 2 s
  pub fits : NoWrap run
  pub logs : Logs opens sample_format sample_memory new_writer 2 s run state w place

produce :
    {s : System} {w : FileWriter} {place : Place} {m : Memory} {p : Pc}
    → Stage s ready w place
    → s.mem.queue.write_index + 1 < uint_max
    → Move 2 s.mem 1 (s.pc 1) m p
    → Stage (after s 1 m p) ready w place
produce g small mv = record {
  run = more 1 g.run mv;
  fits = (small, g.fits);
  logs = produced g.logs 1 producer mv;
}

pop :
    {s : System} {state : State} {w : FileWriter} {place : Place} {m : Memory} {p : Pc}
    → Stage s state w place
    → s.mem.queue.write_index + 1 < uint_max
    → calls place ≡ true
    → (mv : Move 2 s.mem 0 (s.pc 0) m p) → result mv ≡ none
    → Stage (after s 0 m p) state w place
pop g small c mv e = record {
  run = more 0 g.run mv;
  fits = (small, g.fits);
  logs = popped g.logs c mv e;
}

put :
    {s : System} {state : State} {w w' : FileWriter} {place : Place} {m : Memory} {p : Pc}
    (l : LogLine)
    → Stage s state w place
    → s.mem.queue.write_index + 1 < uint_max
    → calls place ≡ true
    → (mv : Move 2 s.mem 0 (s.pc 0) m p) → result mv ≡ some (some l)
    → write opens sample_format sample_memory l w ≡ done w'
    → Stage (after s 0 m p) state w' (after_line place)
put l g small c mv e k = record {
  run = more 0 g.run mv;
  fits = (small, g.fits);
  logs = wrote l g.logs c mv e k;
}

end :
    {s : System} {state : State} {w : FileWriter} {place : Place} {m : Memory} {p : Pc}
    → Stage s state w place
    → s.mem.queue.write_index + 1 < uint_max
    → calls place ≡ true
    → (mv : Move 2 s.mem 0 (s.pc 0) m p) → result mv ≡ some none
    → Stage (after s 0 m p) state w (after_none place)
end g small c mv e = record {
  run = more 0 g.run mv;
  fits = (small, g.fits);
  logs = emptied g.logs c mv e;
}

-- A producer adds a line, and the destructor runs.
added : (s : System) × Stage s shutdown new_writer draining
unfolding queue_buffer setup_next_write_buffer claim write_at write_item count_at count_item buffer
added =
    let g₀ : Stage (start 2) init new_writer waiting = record {
      run = nothing;
      fits = tt;
      logs = built;
    } in
    let g₁ : Stage (start 2) ready new_writer testing = record {
      run = g₀.run;
      fits = g₀.fits;
      logs = awoke (started g₀.logs);
    } in
    let g₂ = produce g₁ zero_fits (begins sample_line producer) in
    let g₃ = produce g₂ zero_fits (claims refl in_block) in
    let g₄ = produce g₃ one_fits loads in
    let g₅ = produce g₄ one_fits (writes refl) in
    let g₆ = produce g₅ one_fits (counts refl) in
    (
      _,
      record {
        run = g₆.run;
        fits = g₆.fits;
        logs = tested (shut g₆.logs (λ a _. again _ _ _ _ a));
      },
    )

-- The worker finds the block, writes the line and stops.
finished : (s : System) × Stage s shutdown sample_writer.0 stopped
unfolding added queue_buffer setup_next_write_buffer claim write_at write_item count_at count_item
    buffer test_and_set get_next_read_buffer read_item take_item moved_to
finished =
    let g₁ = pop added.1 one_fits refl (seeks refl refl) refl in
    let g₂ = pop g₁ one_fits refl (locks refl refl) refl in
    let g₃ = pop g₂ one_fits refl fronts refl in
    let g₄ = pop g₃ one_fits refl (unlocks refl) refl in
    let g₅ =
      put sample_line g₄ one_fits refl (takes refl refl refl not_last) refl sample_writer.1 in
    let g₆ = pop g₅ one_fits refl (polls refl refl) refl in
    (_, end g₆ one_fits refl (misses refl refl refl) refl)

Logged-writes_all_example :
    (text : List ℕ) × (render sample_format sample_memory (claimed_lines finished.1.run)
      ≡ done text)
    × HasWritten sample_writer.0 text
    × ((b : ℕ) → lines_of b (push_calls finished.1.run) ≡ lines_of b (push_claims finished.1.run))
    × (map (λ (e : ℕ × LogLine). e.1) (push_claims finished.1.run) ≡ claimed_lines finished.1.run)
Logged-writes_all_example =
    Logged-writes_all opens (λ _. refl) sample_format sample_memory (codes "log/") (codes "app") 40
      false 2 in_block two_short finished.1.logs finished.1.fits

Logged-prefix_example :
    (front rest : List LogLine) × (text : List ℕ) × (claimed_lines finished.1.run ≡ front ++ rest)
    × (render sample_format sample_memory front ≡ done text)
    × HasWritten sample_writer.0 text
Logged-prefix_example =
    Logged-prefix opens (λ _. refl) sample_format sample_memory (codes "log/") (codes "app") 40
      false 2 in_block two_short finished.1.logs finished.1.fits
