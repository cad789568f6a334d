-- ===== src/QueueBuffer/Threads/Invariant.antt =====
-- The invariant of the threads on a queue buffer, through any run.
use zephyrlog.Prelude.{ℕ, ◌<◌, refl, none, false, get_elem?-replicate}
use zephyrlog.SpinLock.{Flags}
use zephyrlog.QueueBuffer.{uint_max, buffer, queue_buffer, setup_next_write_buffer}
use zephyrlog.QueueBuffer.Threads.{System, Run, nothing, more, NoWrap}
use zephyrlog.QueueBuffer.Threads.Counted.{Counted, start-Counted}
use zephyrlog.QueueBuffer.Threads.Steps.{Move-Counted}
use zephyrlog.QueueBuffer.Threads.Rooms.{Room, BlankAt}
use zephyrlog.QueueBuffer.Threads.Reader.{Reader, start-Reader}
use zephyrlog.QueueBuffer.Threads.Moves.{Move-Reader, Move-blank}

-- What holds between the moves.
pub record Inv (size : ℕ) (s : System) : Type 0 where
  pub flags : Flags
  pub counted : Counted size s flags
  pub reader : Reader size s
  pub blank : (j : ℕ) → j < size → Room s j → BlankAt s.mem.queue j

start-blank : (size : ℕ) (j : ℕ) → j < size → BlankAt (queue_buffer size) j
unfolding queue_buffer setup_next_write_buffer buffer
start-blank size j h =
    (buffer size, refl, get_elem?-replicate size j none h, get_elem?-replicate {A = ℕ} size j 0 h)

pub Run-Inv : (size : ℕ) {s : System} → size < uint_max → (r : Run size s) → NoWrap r → Inv size s
Run-Inv size short nothing fits = record {
  flags = λ _. false;
  counted = start-Counted size;
  reader = start-Reader size;
  blank = λ j h _. start-blank size j h;
}
Run-Inv size short (more {s = s} a r mv) (small, fits) =
    let v = Run-Inv size short r fits in
    let (f, counted) = Move-Counted v.counted a short small mv refl in
    record {
      flags = f;
      counted = counted;
      reader = Move-Reader v.reader a short small v.blank mv refl;
      blank = Move-blank v.reader a short small v.blank v.counted mv refl;
    }
