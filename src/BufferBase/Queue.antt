-- ===== src/BufferBase/Queue.antt =====
-- A sequence of calls on any buffer that meets the interface of include/zephyrlog/bufferbase.h,
-- beside the same calls on a list.
use zephyrlog.Prelude.{◌≡◌, refl, Option, none, some, done, List, [], ◌∷◌, ◌++◌}
use zephyrlog.BufferBase.{BufferBase, IsFifo, Op, put, get, run}
use zephyrlog.LogLine.{LogLine}

-- The calls on a list: what `try_pop` gives, in order, and what is left.
unfoldable pub deliver : List Op → List LogLine → List (Option LogLine) × List LogLine
deliver [] q = ([], q)
deliver (put logline ∷ ops) q = deliver ops (q ++ logline ∷ [])
deliver (get ∷ ops) [] = let (outs, q') = deliver ops [] in (none ∷ outs, q')
deliver (get ∷ ops) (logline ∷ q) = let (outs, q') = deliver ops q in (some logline ∷ outs, q')

-- No call of `push` meets a full buffer.
unfoldable pub RoomFor : (List LogLine → Type 0) → List Op → List LogLine → Type 0
RoomFor has_room [] q = Unit
RoomFor has_room (put logline ∷ ops) q = has_room q × RoomFor has_room ops (q ++ logline ∷ [])
RoomFor has_room (get ∷ ops) [] = RoomFor has_room ops []
RoomFor has_room (get ∷ ops) (logline ∷ q) = RoomFor has_room ops q

module _ {b : BufferBase} (fifo : IsFifo b) where
  pub run-deliver :
      (ops : List Op) (s : b.State) (q : List LogLine)
      → fifo.Queued s q
      → RoomFor fifo.HasRoom ops q
      → (s' : b.State) × (run b ops s ≡ done ((deliver ops q).0, s'))
        × fifo.Queued s' (deliver ops q).1
  unfolding run deliver RoomFor
  run-deliver [] s q v room = (s, refl, v)
  run-deliver (put logline ∷ ops) s q v (h, room) =
      let (s₁, e₁, v₁) = fifo.push_queues s q logline v h in
      let (s₂, e₂, v₂) = run-deliver ops s₁ (q ++ logline ∷ []) v₁ room in (s₂, rw e₁ e₂, v₂)
  run-deliver (get ∷ ops) s [] v room =
      let (s₁, e₁, v₁) = fifo.try_pop_none s v in
      let (s₂, e₂, v₂) = run-deliver ops s₁ [] v₁ room in (s₂, rw (e₁, e₂), v₂)
  run-deliver (get ∷ ops) s (logline ∷ q) v room =
      let (s₁, e₁, v₁) = fifo.try_pop_some s q logline v in
      let (s₂, e₂, v₂) = run-deliver ops s₁ q v₁ room in (s₂, rw (e₁, e₂), v₂)
