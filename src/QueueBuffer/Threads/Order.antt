-- ===== src/QueueBuffer/Threads/Order.antt =====
-- The lines that go through a queue buffer (src/queuebuffer.cpp) in a run of its threads: those that
-- a `push` has claimed an index for, in the order of the claims, and those that a `tryPop` has moved
-- out.
mod Offset
mod Phase
mod Content
mod Writes
mod Reads
mod Ordered
mod Producing
mod Consuming
mod Moves
pub mod Fifo
pub mod Callers
mod Tests
use zephyrlog.Prelude.{ℕ, List, [], ◌∷◌, ◌++◌}
use zephyrlog.LogLine.{LogLine}
use zephyrlog.QueueBuffer.Threads.{
  Memory, Pc, System, Move, claims, takes, finishes, Run, nothing, more,
}

-- The line that a move claims an index for, or moves out.
abbrev pub claimed_by :
    {size a : ℕ} {m m' : Memory} {p p' : Pc} → Move size m a p m' p' → List LogLine
claimed_by (claims {l = l} e h) = l ∷ []
claimed_by _ = []

abbrev pub delivered_by :
    {size a : ℕ} {m m' : Memory} {p p' : Pc} → Move size m a p m' p' → List LogLine
delivered_by (takes {l = l} e h k n) = l ∷ []
delivered_by (finishes {l = l} e h k n) = l ∷ []
delivered_by _ = []

abbrev pub claimed_lines : {size : ℕ} {s : System} → Run size s → List LogLine
claimed_lines nothing = []
claimed_lines (more a r mv) = claimed_lines r ++ claimed_by mv

abbrev pub delivered_lines : {size : ℕ} {s : System} → Run size s → List LogLine
delivered_lines nothing = []
delivered_lines (more a r mv) = delivered_lines r ++ delivered_by mv
