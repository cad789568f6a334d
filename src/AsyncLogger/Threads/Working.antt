-- ===== src/AsyncLogger/Threads/Working.antt =====
-- What holds between the steps of the producers, the destructor and the worker of
-- src/asynclogger.cpp.
use zephyrlog.Prelude.{
  ℕ, ◌≡◌, ◌≢◌, refl, sym, ap, ◌∙◌, none, done, List, [], ◌++◌, true, false, ◌==◌, arith,
  append_assoc,
}
use zephyrlog.FileWriter.{FileWriter}
use zephyrlog.FileWriter.Rolling.{HasWritten, render}
use zephyrlog.LogLine.{LogLine}
use zephyrlog.LogLine.Encode.{Memory}
use zephyrlog.LogLine.Stringify.{Format}
use zephyrlog.QueueBuffer.Threads
use zephyrlog.QueueBuffer.Threads.{
  Pc, idle, reading, System, start, Move, Run, nothing, more, NoWrap,
}
use zephyrlog.QueueBuffer.Threads.Counted.{after}
use zephyrlog.QueueBuffer.Threads.Order.{claimed_by, delivered_by, claimed_lines, delivered_lines}
use zephyrlog.AsyncLogger.{
  State, init, ready, shutdown, Place, polling, draining, stopped, after_wait, after_test,
}
use zephyrlog.AsyncLogger.Places.{Late, Late-polling, Late-draining}
use zephyrlog.AsyncLogger.Threads.{result, calls, after_line, after_none}
use zephyrlog.AsyncLogger.Threads.Calls.{hand, given, Move-hand, at_block}

pub after_wait-stopped : (state : State) → after_wait state ≢ stopped
after_wait-stopped state e = ground arith

pub after_test-stopped : (state : State) → after_test state ≢ stopped
after_test-stopped state e = ground arith

pub after_line-stopped : (place : Place) → after_line place ≢ stopped
after_line-stopped place e = ground arith

pub after_none-stopped : (place : Place) → after_none place ≡ stopped → place ≡ draining
after_none-stopped place e = ground arith

pub after_none-draining : (place : Place) → after_none place ≢ draining
after_none-draining place e = ground arith

pub Late-after_none :
    (state : State) (place : Place)
    → calls place ≡ true
    → Late state place
    → Late state (after_none place)
Late-after_none state polling c late = Late-polling state late
Late-after_none state draining c late = Late-draining state late
Late-after_none state _ c late = cc c

pub Late-after_line :
    (state : State) (place : Place)
    → calls place ≡ true
    → Late state place
    → Late state (after_line place)
Late-after_line state polling c late = Late-polling state late
Late-after_line state draining c late = late
Late-after_line state _ c late = cc c

pub draining-Late : (state : State) → Late state draining → state ≡ shutdown
draining-Late init late = absurd late
draining-Late ready late = absurd late
draining-Late shutdown late = refl

-- The files hold the texts of the lines that the worker was given. Once the destructor runs, no
-- producer is in a call, and where the worker has found no block or stopped, every line is delivered.
pub record Working (fmt : Format) (mem : Memory) {size : ℕ} {s : System} (r : Run size s)
    (state : State) (w : FileWriter) (place : Place) : Type 0 where
  pub written : List LogLine
  pub text : List ℕ
  pub parts : delivered_lines r ≡ written ++ hand (s.pc 0)
  pub rendered : render fmt mem written ≡ done text
  pub files : HasWritten w text
  pub late : Late state place
  pub outside : calls place ≡ false → s.pc 0 ≡ idle
  pub gone : state ≡ shutdown → (a : ℕ) → a ≢ 0 → s.pc a ≡ idle
  pub none_left :
      place ≡ draining
      → at_block (s.pc 0) ≡ true
      → s.mem.queue.current_read_buffer ≡ none
      → claimed_lines r ≡ delivered_lines r
  pub all : place ≡ stopped → claimed_lines r ≡ delivered_lines r

module _ {fmt : Format} {mem : Memory} {size : ℕ} {s : System} {r : Run size s} {state : State}
    {w : FileWriter} {place : Place} (v : Working fmt mem r state w place) where
  -- A move of the state or of the worker's place, outside of `tryPop`.
  pub elsewhere-Working :
      (state' : State) (place' : Place)
      → s.pc 0 ≡ idle
      → place' ≢ stopped
      → Late state' place'
      → (state' ≡ shutdown → (a : ℕ) → a ≢ 0 → s.pc a ≡ idle)
      → Working fmt mem r state' w place'
  elsewhere-Working state' place' quiet going late gone = record {
    written = v.written;
    text = v.text;
    parts = v.parts;
    rendered = v.rendered;
    files = v.files;
    late = late;
    outside = λ _. quiet;
    gone = gone;
    none_left = λ _ k _. cc (sym (ap at_block quiet) ∙ k);
    all = λ e. absurd (going e);
  }

  pub state-Working :
      (state' : State)
      → Late state' place
      → (state' ≡ shutdown → (a : ℕ) → a ≢ 0 → s.pc a ≡ idle)
      → Working fmt mem r state' w place
  state-Working state' late gone = record {
    written = v.written;
    text = v.text;
    parts = v.parts;
    rendered = v.rendered;
    files = v.files;
    late = late;
    outside = v.outside;
    gone = gone;
    none_left = v.none_left;
    all = v.all;
  }

  -- The lines behind a move of the worker.
  pub moved_parts :
      {m : Threads.Memory} {p : Pc} (mv : Move size s.mem 0 (s.pc 0) m p)
      → delivered_lines r ++ delivered_by mv ≡ (v.written ++ given (result mv)) ++ hand p
  moved_parts {p = p} mv =
      ap (λ (xs : List LogLine). xs ++ delivered_by mv) v.parts
      ∙ append_assoc v.written (hand (s.pc 0)) (delivered_by mv)
      ∙ ap (◌++◌ v.written) (Move-hand mv)
      ∙ sym (append_assoc v.written (given (result mv)) (hand p))

  pub no_more :
      {m : Threads.Memory} {p : Pc} {a : ℕ} (mv : Move size s.mem a (s.pc a) m p)
      → claimed_lines r ≡ delivered_lines r
      → claimed_by mv ≡ []
      → delivered_by mv ≡ []
      → claimed_lines r ++ claimed_by mv ≡ delivered_lines r ++ delivered_by mv
  no_more mv e h k =
      ap (◌++◌ (claimed_lines r)) h
      ∙ ap (λ (xs : List LogLine). xs ++ []) e
      ∙ ap (◌++◌ (delivered_lines r)) (sym k)

  -- The worker moves, and no other thread does.
  pub others_gone :
      (m : Threads.Memory) (p : Pc)
      → state ≡ shutdown
      → (a : ℕ) → a ≢ 0
      → (after s 0 m p).pc a ≡ idle
  others_gone m p e a other = let off : (a == 0) ≡ false = ground arith in rw off (v.gone e a other)
