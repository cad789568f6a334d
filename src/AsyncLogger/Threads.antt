-- ===== src/AsyncLogger/Threads.antt =====
-- `AsyncLogger` with a `QueueBuffer`, the second constructor (src/asynclogger.cpp), whose calls on the
-- buffer are not taken as atomic: the producers that `add` lines and the worker, thread 0, take turns
-- one access to the shared memory at a time. A load of the state with the test of it is one step, as
-- is the last access of a `tryPop` with the `write` of the line that it gives.
mod Calls
mod Working
mod Worker
pub mod Drain
mod Tests
use zephyrlog.Prelude.{ℕ, ◌≡◌, ◌≢◌, Option, none, some, done, Bool, true, false, List}
use zephyrlog.FileWriter.{FileWriter, write}
use zephyrlog.LogLine.{LogLine}
use zephyrlog.LogLine.Encode.{Memory}
use zephyrlog.LogLine.Stringify.{Format}
use zephyrlog.QueueBuffer.Threads
use zephyrlog.QueueBuffer.Threads.{
  Pc, idle, freed, System, start, Move, unlocks, finds_none, misses, takes, Run, nothing, more,
}
use zephyrlog.QueueBuffer.Threads.Counted.{after}
use zephyrlog.AsyncLogger.{
  State, init, ready, shutdown, Place, waiting, testing, polling, draining, stopped, after_wait,
  after_test,
}

-- What a `tryPop` returns that ends with an unlock, or with a move: no line, or one.
abbrev pub returned : Pc → Option (Option LogLine)
returned (freed l) = some (some l)
returned _ = none

abbrev pub result :
    {size a : ℕ} {m m' : Threads.Memory} {p p' : Pc}
    → Move size m a p m' p'
    → Option (Option LogLine)
result (unlocks {p} e) = returned p
result (finds_none e) = some none
result (misses e h k) = some none
result (takes {l = l} e h k n) = some (some l)
result _ = none

-- The worker is in one of the loops that call `tryPop`; where it goes with a line, and with none.
abbrev pub calls : Place → Bool
calls polling = true
calls draining = true
calls _ = false

abbrev pub after_line : Place → Place
after_line draining = draining
after_line _ = testing

abbrev pub after_none : Place → Place
after_none draining = stopped
after_none _ = testing

-- What happens to a logger whose files are those of a new writer, with the run of its buffer: the
-- producers add lines once the constructor has ended, and all calls have returned when the
-- destructor runs.
module _ (opens : List ℕ → Bool) (fmt : Format) (mem : Memory) (writer : FileWriter)
    (size : ℕ) where
  pub data Logs : (s : System) → Run size s → State → FileWriter → Place → Type 0 where
    built : Logs (start size) nothing init writer waiting
    started :
        {s : System} {r : Run size s} {w : FileWriter} {place : Place}
        → Logs s r init w place
        → Logs s r ready w place
    produced :
        {s : System} {r : Run size s} {w : FileWriter} {place : Place} {m : Threads.Memory} {p : Pc}
        → Logs s r ready w place
        → (a : ℕ) → a ≢ 0
        → (mv : Move size s.mem a (s.pc a) m p) → Logs (after s a m p) (more a r mv) ready w place
    shut :
        {s : System} {r : Run size s} {w : FileWriter} {place : Place}
        → Logs s r ready w place
        → ((a : ℕ) → a ≢ 0 → s.pc a ≡ idle)
        → Logs s r shutdown w place
    awoke :
        {s : System} {r : Run size s} {state : State} {w : FileWriter}
        → Logs s r state w waiting
        → Logs s r state w (after_wait state)
    tested :
        {s : System} {r : Run size s} {state : State} {w : FileWriter}
        → Logs s r state w testing
        → Logs s r state w (after_test state)
    popped :
        {s : System} {r : Run size s} {state : State} {w : FileWriter} {place : Place}
        {m : Threads.Memory} {p : Pc}
        → Logs s r state w place
        → calls place ≡ true
        → (mv : Move size s.mem 0 (s.pc 0) m p) → result mv ≡ none
        → Logs (after s 0 m p) (more 0 r mv) state w place
    emptied :
        {s : System} {r : Run size s} {state : State} {w : FileWriter} {place : Place}
        {m : Threads.Memory} {p : Pc}
        → Logs s r state w place
        → calls place ≡ true
        → (mv : Move size s.mem 0 (s.pc 0) m p) → result mv ≡ some none
        → Logs (after s 0 m p) (more 0 r mv) state w (after_none place)
    wrote :
        {s : System} {r : Run size s} {state : State} {w w' : FileWriter} {place : Place}
        {m : Threads.Memory} {p : Pc} (l : LogLine)
        → Logs s r state w place
        → calls place ≡ true
        → (mv : Move size s.mem 0 (s.pc 0) m p) → result mv ≡ some (some l)
        → write opens fmt mem l w ≡ done w'
        → Logs (after s 0 m p) (more 0 r mv) state w' (after_line place)
