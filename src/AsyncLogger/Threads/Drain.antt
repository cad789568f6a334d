-- ===== src/AsyncLogger/Threads/Drain.antt =====
-- What the worker of src/asynclogger.cpp has written when it stops, on a queue buffer that it shares
-- with producers one access at a time.
use zephyrlog.Prelude.{
  ℕ, map, ◌≡◌, ◌≢◌, ◌<◌, refl, sym, ap, ◌∙◌, subst, done, List, [], ◌++◌, Bool, true, false, ◌==◌,
  arith, inl, inr, append-nil, Bool-cases, append_assoc,
}
use zephyrlog.FileWriter.{FileWriter, file_writer}
use zephyrlog.FileWriter.Rolling.{HasWritten, file_writer-HasWritten, render}
use zephyrlog.LogLine.{LogLine}
use zephyrlog.LogLine.Encode.{Memory}
use zephyrlog.LogLine.Stringify.{Format}
use zephyrlog.QueueBuffer.{uint_max}
use zephyrlog.QueueBuffer.Threads
use zephyrlog.QueueBuffer.Threads.{Pc, idle, System, Move, Run, nothing, more, NoWrap}
use zephyrlog.QueueBuffer.Threads.Places.{consumes}
use zephyrlog.QueueBuffer.Threads.Order.{claimed_lines, delivered_lines}
use zephyrlog.QueueBuffer.Threads.Order.Fifo.{delivered_lines-claimed_lines, consumes-single}
use zephyrlog.QueueBuffer.Threads.Order.Callers.{
  push_calls, push_claims, lines_of, unclaimed, push_calls-push_claims,
}
use zephyrlog.AsyncLogger.{State, init, ready, shutdown, Place, stopped, after_wait, after_test}
use zephyrlog.AsyncLogger.Places.{Late, Late-start, Late-after_wait, Late-after_test}
use zephyrlog.AsyncLogger.Threads.{
  Logs, built, started, produced, shut, awoke, tested, popped, emptied, wrote,
}
use zephyrlog.AsyncLogger.Threads.Calls.{hand, producer-delivered_by}
use zephyrlog.AsyncLogger.Threads.Working.{
  Working, elsewhere-Working, state-Working, after_wait-stopped, after_test-stopped,
}
use zephyrlog.AsyncLogger.Threads.Worker.{popped-Working, emptied-Working, wrote-Working}

stopped-Late : (state : State) → Late state stopped → state ≡ shutdown
stopped-Late init late = absurd late
stopped-Late ready late = absurd late
stopped-Late shutdown late = refl

-- A move of a producer.
produced-Working :
    {fmt : Format} {mem : Memory} {size : ℕ} {s : System} {r : Run size s} {w : FileWriter}
    {place : Place} {m : Threads.Memory} {p : Pc}
    → Working fmt mem r ready w place
    → size < uint_max
    → NoWrap r
    → (a : ℕ) → a ≢ 0
    → (mv : Move size s.mem a (s.pc a) m p) → Working fmt mem (more a r mv) ready w place
produced-Working {size = size} {s} {r} {place = place} {m} {p} v short fits a other mv =
    let off : (0 == a) ≡ false = ground arith in
    let producer : consumes (s.pc a) ≡ false = elim (Bool-cases (consumes (s.pc a))) [
      | inl on ↦ absurd (other (consumes-single size a short r fits on))
      | inr off ↦ off
    ] in
    record {
      written = v.written;
      text = v.text;
      parts =
          ap (◌++◌ (delivered_lines r)) (producer-delivered_by mv producer)
          ∙ append-nil (delivered_lines r)
          ∙ v.parts
          ∙ rw off refl;
      rendered = v.rendered;
      files = v.files;
      late = v.late;
      outside = λ c. rw off (v.outside c);
      gone = λ e. cc e;
      none_left = λ drains _ _. absurd (subst (Late ready) drains v.late);
      all = λ ends. absurd (subst (Late ready) ends v.late);
    }

module _ (opens : List ℕ → Bool) (always : (path : List ℕ) → opens path ≡ true) (fmt : Format)
    (mem : Memory) where
  module _ (directory name : List ℕ) (roll_size : ℕ) (terminal_output : Bool) (size : ℕ)
      (some_item : 0 < size) (short : size < uint_max) where
    abbrev pub Logged : (s : System) → Run size s → State → FileWriter → Place → Type 0
    Logged = Logs opens fmt mem (file_writer opens directory name roll_size terminal_output) size

    Logs-Working :
        {s : System} {r : Run size s} {state : State} {w : FileWriter} {place : Place}
        → Logged s r state w place
        → NoWrap r
        → Working fmt mem r state w place
    unfolding render
    Logs-Working built fits = record {
      written = [];
      text = [];
      parts = refl;
      rendered = refl;
      files = file_writer-HasWritten opens always directory name roll_size terminal_output;
      late = tt;
      outside = λ _. refl;
      gone = λ e. cc e;
      none_left = λ e. cc e;
      all = λ e. cc e;
    }
    Logs-Working (started {place = place} h) fits =
        let v = Logs-Working h fits in state-Working v ready (Late-start place v.late) (λ e. cc e)
    Logs-Working (produced {r = r} h a other mv) (small, fits) =
        produced-Working (Logs-Working h fits) short fits a other mv
    Logs-Working (shut h all_idle) fits =
        let v = Logs-Working h fits in state-Working v shutdown tt (λ _. all_idle)
    Logs-Working (awoke {state = state} h) fits =
        let v = Logs-Working h fits in
        elsewhere-Working v state (after_wait state) (v.outside refl) (after_wait-stopped state)
          (Late-after_wait state) v.gone
    Logs-Working (tested {state = state} h) fits =
        let v = Logs-Working h fits in
        elsewhere-Working v state (after_test state) (v.outside refl) (after_test-stopped state)
          (Late-after_test state v.late) v.gone
    Logs-Working (popped h c mv e) (small, fits) =
        popped-Working (Logs-Working h fits) some_item short fits c mv e
    Logs-Working (emptied h c mv e) (small, fits) =
        emptied-Working (Logs-Working h fits) some_item short fits c mv e
    Logs-Working (wrote l h c mv e k) (small, fits) =
        wrote-Working (Logs-Working h fits) some_item short fits c opens always l mv e k

    -- Any number of producers and the worker of a logger with a queue buffer take turns, one access
    -- to the shared memory at a time, with blocks of one item at least and fewer than 2^32 and no
    -- `fetch_add` that makes the write index wrap around; no producer is in a call when the
    -- destructor runs, and every file can be opened. At any time the files hold the texts of the
    -- first of the lines claimed, whole, in the order of the claims, and nothing else. Files that a
    -- later one has erased are counted in; only the oldest of 2^32 files is erased.
    pub Logged-prefix :
        {s : System} {r : Run size s} {state : State} {w : FileWriter} {place : Place}
        → Logged s r state w place
        → NoWrap r
        → (front rest : List LogLine) × (text : List ℕ) × (claimed_lines r ≡ front ++ rest)
          × (render fmt mem front ≡ done text)
          × HasWritten w text
    Logged-prefix {s} {r} h fits =
        let v = Logs-Working h fits in
        let (rest, prefix) = delivered_lines-claimed_lines size some_item short r fits in
        (
          v.written,
          hand (s.pc 0) ++ rest,
          v.text,
          prefix
              ∙ ap (λ (xs : List LogLine). xs ++ rest) v.parts
              ∙ append_assoc v.written (hand (s.pc 0)) rest,
          v.rendered,
          v.files,
        )

    -- Any number of producers and the worker of a logger with a queue buffer take turns, one access
    -- to the shared memory at a time, with blocks of one item at least and fewer than 2^32 and no
    -- `fetch_add` that makes the write index wrap around; no producer is in a call when the
    -- destructor runs, and every file can be opened. Once the worker has stopped, the files hold
    -- the texts of the lines claimed, whole, in the order of the claims, and nothing else; each of
    -- these lines has a text; and they are the lines that the producers added, those of each thread
    -- in the order of its calls. Files that a later one has erased are counted in; only the oldest
    -- of 2^32 files is erased.
    pub Logged-writes_all :
        {s : System} {r : Run size s} {state : State} {w : FileWriter}
        → Logged s r state w stopped
        → NoWrap r
        → (text : List ℕ) × (render fmt mem (claimed_lines r) ≡ done text)
          × HasWritten w text
          × ((b : ℕ) → lines_of b (push_calls r) ≡ lines_of b (push_claims r))
          × (map (λ (e : ℕ × LogLine). e.1) (push_claims r) ≡ claimed_lines r)
    Logged-writes_all {s} {r} {state} h fits =
        let v = Logs-Working h fits in
        let all : v.written ≡ claimed_lines r = sym (
          v.all refl
          ∙ v.parts
          ∙ ap (λ (p : Pc). v.written ++ hand p) (v.outside refl)
          ∙ append-nil v.written) in
        let gone = v.gone (stopped-Late state v.late) in
        let quiet : (b : ℕ) → unclaimed (s.pc b) ≡ [] = λ b. elim (Bool-cases (b == 0)) [
          | inl own ↦
              let at : b ≡ 0 = ground arith in
              ap (λ (c : ℕ). unclaimed (s.pc c)) at ∙ ap unclaimed (v.outside refl)
          | inr other ↦ let differs : b ≢ 0 = ground arith in ap unclaimed (gone b differs)
        ] in
        (
          v.text,
          subst (λ (xs : List LogLine). render fmt mem xs ≡ done v.text) all v.rendered,
          v.files,
          λ b.
              (push_calls-push_claims b r).1
              ∙ ap (◌++◌ (lines_of b (push_claims r))) (quiet b)
              ∙ append-nil (lines_of b (push_claims r)),
          (push_calls-push_claims 0 r).0,
        )
