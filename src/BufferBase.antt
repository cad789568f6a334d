-- ===== src/BufferBase.antt =====
-- `BufferBase` (include/zephyrlog/bufferbase.h): the interface of the two buffers, what a client may
-- rely on while no buffer overflows, and a client's calls in order.
pub mod Queue
use zephyrlog.Prelude.{ℕ, ◌≡◌, Option, none, some, Outcome, done, ◌>>=◌, List, [], ◌∷◌, ◌++◌}
use zephyrlog.LogLine.{LogLine}

-- A call ends in undefined behaviour, or waits for ever, or returns. The result of `try_pop` is the
-- line that it moves into its argument, or `none` where it returns false.
pub record BufferBase : Type 1 where
  pub State : Type 0
  pub push : LogLine → State → Outcome State
  pub try_pop : State → Outcome (Option LogLine × State)

-- The buffer holds a queue: lines come out in the order in which they went in.
pub record IsFifo (b : BufferBase) : Type 1 where
  pub Queued : b.State → List LogLine → Type 0
  pub HasRoom : List LogLine → Type 0
  pub push_queues :
      (s : b.State) (q : List LogLine) (logline : LogLine)
      → Queued s q
      → HasRoom q
      → (s' : b.State) × (b.push logline s ≡ done s') × Queued s' (q ++ logline ∷ [])
  pub try_pop_none :
      (s : b.State) → Queued s [] → (s' : b.State) × (b.try_pop s ≡ done (none, s')) × Queued s' []
  pub try_pop_some :
      (s : b.State) (q : List LogLine) (logline : LogLine)
      → Queued s (logline ∷ q)
      → (s' : b.State) × (b.try_pop s ≡ done (some logline, s')) × Queued s' q

pub data Op : Type 0 where
  put : LogLine → Op
  get : Op

-- What the calls of `try_pop` give, in order.
unfoldable pub run :
    (b : BufferBase) → List Op → b.State → Outcome (List (Option LogLine) × b.State)
run b [] s = done ([], s)
run b (put logline ∷ ops) s = b.push logline s >>= run b ops
run b (get ∷ ops) s = do (out, s) ← b.try_pop s; (outs, s) ← run b ops s; done (out ∷ outs, s)
