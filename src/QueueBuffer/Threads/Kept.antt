-- ===== src/QueueBuffer/Threads/Kept.antt =====
-- Moves that keep the queue of blocks, and the blocks in the heap.
use zephyrlog.Prelude.{
  ℕ, ◌<◌, ◌≡◌, sym, ap, ◌∙◌, subst, Option, some, List, length, ◌==◌, get_elem?, arith, Bool-cases,
  inl, inr,
}
use zephyrlog.LogLine.{LogLine}
use zephyrlog.QueueBuffer.{Buffer, QueueBuffer, update, read_item}
use zephyrlog.QueueBuffer.Threads.{Memory, Pc, System}
use zephyrlog.QueueBuffer.Threads.Places.{next_block}
use zephyrlog.QueueBuffer.Threads.Frames.{read_item-frame}
use zephyrlog.QueueBuffer.Threads.Counted.{after}
use zephyrlog.QueueBuffer.Threads.Reader.{Below}
use zephyrlog.QueueBuffer.Threads.Sound.{Sound, set-Sound}
use zephyrlog.QueueBuffer.Threads.Alive.{
  Lives, AllLive, AllLive-map, Sorted, Lives-update, AllSound, AllSound-update, Alive,
}

module _ {size : ℕ} {s : System} (v : Alive size s) (a : ℕ) where
  abbrev q : QueueBuffer
  q = s.mem.queue

  -- A move that keeps the queue of blocks.
  pub keeps-Alive :
      (m : Memory) (p' : Pc)
      → AllSound size m.queue.heap
      → ((x : ℕ) → Lives q.heap x → Lives m.queue.heap x)
      → m.queue.buffers ≡ q.buffers
      → m.queue.read_index < size
      → ((x : ℕ) → next_block p' ≡ some x → next_block (s.pc a) ≡ some x)
      → Alive size (after s a m p')
  keeps-Alive m p' sound lives buffers low same = record {
    sound = sound;
    live =
        AllLive-map q.heap m.queue.heap m.queue.buffers lives
          (subst (AllLive q.heap) (sym buffers) v.live);
    sorted = subst Sorted (sym buffers) v.sorted;
    next = λ b x e.
        let old : next_block (s.pc b) ≡ some x = elim (Bool-cases (b == a)) [
          | inl own ↦
              let at : b ≡ a = ground arith in
              ap (λ (d : ℕ). next_block (s.pc d)) at ∙ same x (rw own at e)
          | inr differs ↦ rw differs at e
        ] in
        let (lively, below) = v.next b x old in
        (lives x lively, subst (Below x) (sym buffers) below);
    index_low = low;
  }

  -- A move that keeps the heap too.
  pub quiet-Alive :
      (m : Memory) (p' : Pc)
      → m.queue.heap ≡ q.heap
      → m.queue.buffers ≡ q.buffers
      → m.queue.read_index ≡ q.read_index
      → ((x : ℕ) → next_block p' ≡ some x → next_block (s.pc a) ≡ some x)
      → Alive size (after s a m p')
  quiet-Alive m p' heap buffers index same =
      keeps-Alive m p' (subst (AllSound size) (sym heap) v.sound)
        (λ x lively. subst (λ (h : ℕ → Option Buffer). Lives h x) (sym heap) lively) buffers
        (omega (arith, v.index_low, index)) same

  -- A move that puts another block in place of one.
  pub update-Alive :
      (m : Memory) (p' : Pc) (p : ℕ) (b : Buffer)
      → Sound size b
      → m.queue.heap ≡ update q.heap p (some b)
      → m.queue.buffers ≡ q.buffers
      → m.queue.read_index < size
      → ((x : ℕ) → next_block p' ≡ some x → next_block (s.pc a) ≡ some x)
      → Alive size (after s a m p')
  update-Alive m p' p b good heap buffers low same =
      keeps-Alive m p' (subst (AllSound size) (sym heap) (AllSound-update q.heap p b v.sound good))
        (λ x lively.
          subst (λ (h : ℕ → Option Buffer). Lives h x) (sym heap)
            (Lives-update q.heap p b x lively))
        buffers low same

  pub counted-Sound :
      (b : Buffer) (n : ℕ) → Sound size b → Sound size (record b { write_count = n })
  counted-Sound b n good = record {
    items_length = good.items_length;
    states_length = good.states_length;
    shown = good.shown;
  }

  pub read-Sound :
      (p : ℕ) (l : LogLine) (b b' : Buffer)
      → q.heap p ≡ some b
      → read_item q.read_index b ≡ some (some l, b')
      → Sound size b'
  read-Sound p l b b' at e =
      let (l', one, items, states, _) = read_item-frame q.read_index l b b' e in
      let good = v.sound p b at in
      set-Sound q.read_index l' v.index_low good items
        (λ k differs. ap (λ (xs : List ℕ). get_elem? xs k) states) (ap (length {0}) states)
