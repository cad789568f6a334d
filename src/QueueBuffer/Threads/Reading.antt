-- ===== src/QueueBuffer/Threads/Reading.antt =====
-- The consumer's knowledge of the blocks when it reads a line and when it frees a block.
use zephyrlog.Prelude.{
  ℕ, ◌+◌, ◌%◌, ◌≤◌, ◌<◌, ◌≡◌, refl, sym, ap, ◌∙◌, subst, none, some, List, ◌∷◌, true, arith,
}
use zephyrlog.LogLine.{LogLine}
use zephyrlog.QueueBuffer.{Buffer, QueueBuffer, uint_max, update, read_item}
use zephyrlog.QueueBuffer.Threads.{Memory, idle, reading, finishing, freeing, freed, System}
use zephyrlog.QueueBuffer.Threads.Places.{consumes, removes}
use zephyrlog.QueueBuffer.Threads.Frames.{read_item-frame}
use zephyrlog.QueueBuffer.Threads.Counted.{after}
use zephyrlog.QueueBuffer.Threads.Rooms.{Room, BlankAt}
use zephyrlog.QueueBuffer.Threads.Blank.{read-other}
use zephyrlog.QueueBuffer.Threads.Reader.{Below, Reader, by_thread}
use zephyrlog.QueueBuffer.Threads.Consumer.{others_consumer, removes-consumer}

module _ {size : ℕ} {s : System} (v : Reader size s) (a : ℕ) where
  abbrev q : QueueBuffer
  q = s.mem.queue

  -- The item at the read index was written, so that those to be written are behind it.
  read-behind :
      (p : ℕ) (l : LogLine) (b b' : Buffer) (j : ℕ)
      → size < uint_max
      → q.current_read_buffer ≡ some p
      → q.heap p ≡ some b
      → read_item q.read_index b ≡ some (some l, b')
      → p ≡ q.current_write_buffer
      → j < size
      → Room s j
      → BlankAt q j
      → (q.read_index + 1) % uint_max ≤ j
  read-behind p l b b' j short e at r same h there blank =
      let (item, one, _, _, _) = read_item-frame q.read_index l b b' r in
      let low = v.unread p j e same h there in
      let differs = read-other q j p q.read_index b at one same blank in omega (arith, low, differs)

  pub takes-Reader :
      (p : ℕ) (l : LogLine) (b b' : Buffer) (m : Memory)
      → size < uint_max
      → s.pc a ≡ reading
      → q.current_read_buffer ≡ some p
      → q.heap p ≡ some b
      → read_item q.read_index b ≡ some (some l, b')
      → m.queue
        ≡ record q { heap = update q.heap p (some b'); read_index = (q.read_index + 1) % uint_max }
      → ((j : ℕ) → Room (after s a m idle) j → Room s j)
      → ((j : ℕ) → j < size → Room s j → BlankAt q j)
      → Reader size (after s a m idle)
  takes-Reader p l b b' m short here e at r next room blank =
      let mine : consumes (s.pc a) ≡ true = ap consumes here in
      let own : q.current_read_buffer ≡ m.queue.current_read_buffer = cc next in
      let block : m.queue.current_write_buffer ≡ q.current_write_buffer = cc next in
      let buffers : m.queue.buffers ≡ q.buffers = cc next in
      let addresses : m.queue.next_address ≡ q.next_address = cc next in
      let index : m.queue.read_index ≡ (q.read_index + 1) % uint_max = cc next in
      record {
        places =
            by_thread v a m.queue idle
              (record {
                single = λ k. cc k;
                seeks_none = λ k. cc k;
                removes_none = λ k. cc k;
                next_low = λ x k. cc k;
              })
              (others_consumer v a m.queue mine addresses);
        start_index = λ k. cc (sym e ∙ own ∙ k);
        owner = λ r' k. let (rest, w) = v.owner r' (own ∙ k) in (rest, buffers ∙ w);
        unread = λ r' j k same h there.
            let one : p ≡ r' = cc (sym e ∙ own ∙ k) in
            let behind =
              read-behind p l b b' j short e at r (one ∙ same ∙ block) h (room j there)
                (blank j h (room j there)) in
            omega (arith, index, behind);
        removing = λ c k. cc (removes-consumer v a idle c mine k);
        low =
            subst (λ (n : ℕ). Below n m.queue.buffers) (sym addresses)
              (subst (Below q.next_address) (sym buffers) v.low);
        current_low = omega (arith, v.current_low, addresses, block);
      }

  pub finishes-Reader :
      (p : ℕ) (l : LogLine) (b b' : Buffer)
      → size < uint_max
      → s.pc a ≡ reading
      → q.current_read_buffer ≡ some p
      → q.heap p ≡ some b
      → read_item q.read_index b ≡ some (some l, b')
      → (q.read_index + 1) % uint_max ≡ size
      → let m : Memory = record s.mem {
        queue = record q {
          heap = update q.heap p (some b');
          read_index = 0;
          current_read_buffer = none;
        };
      } in
        ((j : ℕ) → Room (after s a m (finishing l)) j → Room s j)
        → ((j : ℕ) → j < size → Room s j → BlankAt q j)
        → Reader size (after s a m (finishing l))
  finishes-Reader p l b b' short here e at r end room blank =
      let mine : consumes (s.pc a) ≡ true = ap consumes here in
      let q' : QueueBuffer = record q {
        heap = update q.heap p (some b');
        read_index = 0;
        current_read_buffer = none;
      } in
      let (rest, owned) = v.owner p e in
      record {
        places =
            by_thread v a q' (finishing l)
              (record {
                single = λ _. (v.places a).single mine;
                seeks_none = λ k. refl;
                removes_none = λ k. refl;
                next_low = λ x k. cc k;
              })
              (others_consumer v a q' mine refl);
        start_index = λ k. refl;
        owner = λ r' k. cc k;
        unread = λ r' j k same h there. cc k;
        removing = λ c k. (
          p,
          rest,
          owned,
          λ j h there same.
              let behind =
                read-behind p l b b' j short e at r same h (room j there)
                  (blank j h (room j there)) in
              absurd (omega (arith, behind, end, h)),
        );
        low = v.low;
        current_low = v.current_low;
      }

  pub frees-Reader :
      (l : LogLine) (p : ℕ) (rest : List ℕ) (m : Memory)
      → s.pc a ≡ freeing l
      → q.buffers ≡ p ∷ rest
      → m.queue ≡ record q { heap = update q.heap p none; buffers = rest }
      → Reader size (after s a m (freed l))
  frees-Reader l p rest m here at next =
      let mine : consumes (s.pc a) ≡ true = ap consumes here in
      let nothing : q.current_read_buffer ≡ none = (v.places a).removes_none (ap removes here) in
      let own : q.current_read_buffer ≡ m.queue.current_read_buffer = cc next in
      let block : m.queue.current_write_buffer ≡ q.current_write_buffer = cc next in
      let buffers : m.queue.buffers ≡ rest = cc next in
      let addresses : m.queue.next_address ≡ q.next_address = cc next in
      let index : m.queue.read_index ≡ q.read_index = cc next in
      let (_, tail_low) = subst (Below q.next_address) at v.low in
      record {
        places =
            by_thread v a m.queue (freed l)
              (record {
                single = λ _. (v.places a).single mine;
                seeks_none = λ k. cc k;
                removes_none = λ k. cc k;
                next_low = λ x k. cc k;
              })
              (others_consumer v a m.queue mine addresses);
        start_index = λ k. index ∙ v.start_index nothing;
        owner = λ r' k. cc (sym nothing ∙ own ∙ k);
        unread = λ r' j k same h there. cc (sym nothing ∙ own ∙ k);
        removing = λ c k. cc (removes-consumer v a (freed l) c mine k);
        low =
            subst (λ (n : ℕ). Below n m.queue.buffers) (sym addresses)
              (subst (Below q.next_address) (sym buffers) tail_low);
        current_low = omega (arith, v.current_low, addresses, block);
      }
