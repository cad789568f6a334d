-- ===== src/AsyncLogger/Threads/Worker.antt =====
-- The steps of the worker of src/asynclogger.cpp in `tryPop`, and behind it.
use zephyrlog.Prelude.{
  ℕ, ◌≡◌, ◌≢◌, ◌<◌, sym, ap, ◌∙◌, subst, Option, none, some, done, List, [], ◌∷◌, ◌++◌, Bool, true,
  ◌==◌, arith, inl, inr, append-nil, Bool-cases,
}
use zephyrlog.FileWriter.{FileWriter, write}
use zephyrlog.FileWriter.Rolling.{write-text}
use zephyrlog.LogLine.{LogLine}
use zephyrlog.LogLine.Encode.{Memory}
use zephyrlog.LogLine.Stringify.{Format}
use zephyrlog.QueueBuffer.{uint_max}
use zephyrlog.QueueBuffer.Threads
use zephyrlog.QueueBuffer.Threads.{
  Pc, idle, reading, System, start, Move, Run, nothing, more, NoWrap,
}
use zephyrlog.QueueBuffer.Threads.Places.{carries}
use zephyrlog.QueueBuffer.Threads.Order.{claimed_lines, delivered_lines}
use zephyrlog.QueueBuffer.Threads.Order.Fifo.{misses-carries, fronts-claimed_lines}
use zephyrlog.AsyncLogger.{State, Place, draining, stopped}
use zephyrlog.AsyncLogger.Places.{Late, render-snoc}
use zephyrlog.AsyncLogger.Threads.{result, calls, after_line, after_none}
use zephyrlog.AsyncLogger.Threads.Calls.{
  hand, given, result-idle, at_block, result-at_block, Missed, no_block, no_item, result-Missed,
}
use zephyrlog.AsyncLogger.Threads.Working.{
  Working, Late-after_none, Late-after_line, draining-Late, after_line-stopped, after_none-stopped,
  after_none-draining, moved_parts, no_more, others_gone,
}

given_none : (lines rest : List LogLine) → (lines ++ []) ++ rest ≡ lines ++ rest
given_none lines rest = ap (λ (xs : List LogLine). xs ++ rest) (append-nil lines)

calls-stopped : (place : Place) → calls place ≡ true → place ≢ stopped
calls-stopped place c e = ground arith

module _ {fmt : Format} {mem : Memory} {size : ℕ} {s : System} {r : Run size s} {state : State}
    {w : FileWriter} {place : Place} (v : Working fmt mem r state w place) (some_item : 0 < size)
    (short : size < uint_max) (fits : NoWrap r) (c : calls place ≡ true) where
  -- An access of `tryPop` before its last.
  pub popped-Working :
      {m : Threads.Memory} {p : Pc}
      → (mv : Move size s.mem 0 (s.pc 0) m p) → result mv ≡ none
      → Working fmt mem (more 0 r mv) state w place
  popped-Working {m} {p} mv e = record {
    written = v.written;
    text = v.text;
    parts =
        moved_parts v mv
        ∙ ap (λ (o : Option (Option LogLine)). (v.written ++ given o) ++ hand p) e
        ∙ given_none v.written (hand p);
    rendered = v.rendered;
    files = v.files;
    late = v.late;
    outside = λ h. cc (sym c ∙ h);
    gone = others_gone v m p;
    none_left = λ drains at empty.
        let (claims, delivers, cases) = result-at_block mv at empty in
        elim cases [
          | inl (looked, front) ↦
              no_more v mv (fronts-claimed_lines size some_item short r fits looked front) claims
                delivers
          | inr (at', empty') ↦ no_more v mv (v.none_left drains at' empty') claims delivers
        ];
    all = λ e. absurd (calls-stopped place c e);
  }

  -- A `tryPop` with no line finds none left, once the destructor runs.
  Missed-claimed_lines :
      place ≡ draining → s.pc 0 ≡ reading → Missed s.mem.queue → claimed_lines r ≡ delivered_lines r
  Missed-claimed_lines drains here (no_block e) = v.none_left drains (ap at_block here) e
  Missed-claimed_lines drains here (no_item p b b' e h k) =
      elim (misses-carries size p b b' some_item short r fits e h k) [
        | inl same ↦ same
        | inr (a, l, rest, holds, _) ↦ elim (Bool-cases (a == 0)) [
          | inl own ↦
              let at : a ≡ 0 = ground arith in cc (sym (ap carries (ap s.pc at ∙ here)) ∙ holds)
          | inr other ↦
              let differs : a ≢ 0 = ground arith in
              let ended =
                v.gone (draining-Late state (subst (Late state) drains v.late)) a differs in
              cc (sym (ap carries ended) ∙ holds)
        ]
      ]

  pub emptied-Working :
      {m : Threads.Memory} {p : Pc}
      → (mv : Move size s.mem 0 (s.pc 0) m p) → result mv ≡ some none
      → Working fmt mem (more 0 r mv) state w (after_none place)
  emptied-Working {m} {p} mv e =
      let (here, claims, delivers, missed) = result-Missed mv e in
      record {
        written = v.written;
        text = v.text;
        parts =
            moved_parts v mv
            ∙ ap (λ (o : Option (Option LogLine)). (v.written ++ given o) ++ hand p) e
            ∙ given_none v.written (hand p);
        rendered = v.rendered;
        files = v.files;
        late = Late-after_none state place c v.late;
        outside = λ _. result-idle mv e;
        gone = others_gone v m p;
        none_left = λ drains _ _. absurd (after_none-draining place drains);
        all = λ ends.
            no_more v mv (Missed-claimed_lines (after_none-stopped place ends) here missed) claims
              delivers;
      }

  module _ (opens : List ℕ → Bool) (always : (path : List ℕ) → opens path ≡ true) where
    pub wrote-Working :
        {m : Threads.Memory} {p : Pc} {w' : FileWriter} (l : LogLine)
        → (mv : Move size s.mem 0 (s.pc 0) m p) → result mv ≡ some (some l)
        → write opens fmt mem l w ≡ done w'
        → Working fmt mem (more 0 r mv) state w' (after_line place)
    wrote-Working {m} {p} {w'} l mv e h =
        let (text, shows, files) = write-text opens always fmt mem w w' v.text l v.files h in
        let quiet = result-idle mv e in
        record {
          written = v.written ++ l ∷ [];
          text = v.text ++ text;
          parts =
              moved_parts v mv
              ∙ ap (λ (o : Option (Option LogLine)). (v.written ++ given o) ++ hand p) e;
          rendered = render-snoc fmt mem v.written l v.rendered shows;
          files = files;
          late = Late-after_line state place c v.late;
          outside = λ _. quiet;
          gone = others_gone v m p;
          none_left = λ _ k _. cc (sym (ap at_block quiet) ∙ k);
          all = λ ends. absurd (after_line-stopped place ends);
        }
