-- ===== src/QueueBuffer/Threads/Order/Ordered.antt =====
-- The order of the lines: what is delivered comes first of what is claimed, and the blocks hold what
-- comes between.
use zephyrlog.Prelude.{
  ℕ, ◌+◌, ◌≡◌, Bool-cases, inl, inr, ◌==◌, refl, sym, ap, ◌∙◌, min, List, [], ◌++◌, length, Bool,
  false, if◌then◌else◌, get_elem?, arith,
}
use zephyrlog.LogLine.{LogLine}
use zephyrlog.QueueBuffer.{Buffer, QueueBuffer, queue_buffer, setup_next_write_buffer, buffer}
use zephyrlog.QueueBuffer.Calls.{addresses}
use zephyrlog.QueueBuffer.Threads.{Memory, Pc, System, start}
use zephyrlog.QueueBuffer.Threads.Places.{pending, carries, renews, removes, same-update_pc}
use zephyrlog.QueueBuffer.Threads.Counted.{after}
use zephyrlog.QueueBuffer.Threads.Order.Offset.{offset}
use zephyrlog.QueueBuffer.Threads.Order.Phase.{Phase, settled, Phase_keep}
use zephyrlog.QueueBuffer.Threads.Order.Content.{Content, SameItems, Content-keep}
use zephyrlog.QueueBuffer.Threads.Order.Writes.{buffer-hides}

-- How much of the oldest block has been read.
abbrev pub progress : ℕ → Bool → ℕ → ℕ
progress size done index = if done then size else index

pub record Ordered (size : ℕ) (s : System) (lines out : List LogLine) : Type 0 where
  pub first : ℕ
  pub others : ℕ
  pub rest : List LogLine
  pub prefix : lines ≡ out ++ rest
  pub owned : s.mem.queue.buffers ≡ addresses first others
  pub next_eq : s.mem.queue.next_address ≡ s.mem.queue.current_write_buffer + 1
  pub phase : Phase size s (length lines) (first + others)
  pub read_place :
      length out + size
      ≡ offset size first + progress size (removes (s.pc 0)) s.mem.queue.read_index
  pub content : Content size s lines out

pub start-Ordered : (size : ℕ) → Ordered size (start size) [] []
unfolding queue_buffer setup_next_write_buffer
start-Ordered size = record {
  first = 1;
  others = 1;
  rest = [];
  prefix = refl;
  owned = refl;
  next_eq = refl;
  phase = settled (λ a. refl) refl (omega arith);
  read_place = omega arith;
  content = record {
    shown = λ p b i k l at state item e h. elim (Bool-cases (p == 1)) [
      | inl first_block ↦
          let it : buffer size ≡ b = cc (rw first_block at at) in
          absurd (buffer-hides size i (ap (λ (x : Buffer). get_elem? x.write_state i) it ∙ state))
      | inr other ↦ cc (rw other at at)
    ];
    hidden = λ p b i k at state h e low. absurd (omega (arith, low));
    held = λ a i k l e at. cc e;
  };
}

-- What the queue keeps under most moves.
pub record Kept (size : ℕ) (q q' : QueueBuffer) : Type 0 where
  pub items_eq : SameItems q q'
  pub block_eq : q'.current_write_buffer ≡ q.current_write_buffer
  pub next_eq : q'.next_address ≡ q.next_address
  pub read_eq : q'.read_index ≡ q.read_index
  pub buffers_eq : q'.buffers ≡ q.buffers
  pub index_eq : min q'.write_index size ≡ min q.write_index size

pub Kept-refl : (size : ℕ) (q : QueueBuffer) → Kept size q q
Kept-refl size q = record {
  items_eq = λ p b e. (b, e, refl, refl);
  block_eq = refl;
  next_eq = refl;
  read_eq = refl;
  buffers_eq = refl;
  index_eq = refl;
}

-- What most moves keep of the place of a thread.
pub record Plain (p p' : Pc) : Type 0 where
  pub quiet : renews p ≡ false
  pub quiet' : renews p' ≡ false
  pub pending_eq : pending p' ≡ pending p
  pub carries_eq : carries p' ≡ carries p
  pub removes_eq : removes p' ≡ removes p

pub progress_keep :
    (size : ℕ) (s : System) (a : ℕ) (p' : Pc) {i j : ℕ}
    → removes p' ≡ removes (s.pc a)
    → i ≡ j
    → progress size (removes ((after s a s.mem p').pc 0)) i ≡ progress size (removes (s.pc 0)) j
progress_keep size s a p' {i} {j} same e =
    ap (λ (d : Bool). progress size d i) (same-update_pc removes a p' s.pc same 0)
    ∙ ap (progress size (removes (s.pc 0))) e

pub Ordered-keep :
    {size : ℕ} {s : System} {lines out : List LogLine}
    → Ordered size s lines out
    → (a : ℕ) (m : Memory) (p' : Pc) → Kept size s.mem.queue m.queue
    → Plain (s.pc a) p'
    → Ordered size (after s a m p') lines out
Ordered-keep {size} {s} v a m p' kept plain = record {
  first = v.first;
  others = v.others;
  rest = v.rest;
  prefix = v.prefix;
  owned = kept.buffers_eq ∙ v.owned;
  next_eq = kept.next_eq ∙ v.next_eq ∙ ap (λ (x : ℕ). x + 1) (sym kept.block_eq);
  phase =
      Phase_keep a m p' plain.quiet plain.quiet' kept.next_eq kept.block_eq kept.index_eq v.phase;
  read_place =
      v.read_place
      ∙ ap (◌+◌ (offset size v.first))
          (sym (progress_keep size s a p' plain.removes_eq kept.read_eq));
  content =
      Content-keep v.content a m p' kept.items_eq kept.block_eq plain.pending_eq plain.carries_eq;
}
