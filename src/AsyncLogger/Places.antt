-- ===== src/AsyncLogger/Places.antt =====
-- Where the worker of src/asynclogger.cpp can be in each state of the logger.
use zephyrlog.Prelude.{ℕ, ◌≡◌, sym, ap, done, List, [], ◌∷◌, ◌++◌, append_assoc, append-nil}
use zephyrlog.FileWriter.Rolling.{render, render-cons}
use zephyrlog.LogLine.{LogLine}
use zephyrlog.LogLine.Encode.{Memory}
use zephyrlog.LogLine.Stringify.{Format, stringify}
use zephyrlog.AsyncLogger.{
  State, Place, init, ready, shutdown, waiting, testing, polling, draining, stopped, after_wait,
  after_test,
}

-- The worker waits while the logger is not ready, and drains the buffer only once it shuts down.
abbrev pub Late : State → Place → Type 0
Late init waiting = Unit
Late init _ = ⊥
Late ready draining = ⊥
Late ready stopped = ⊥
Late ready _ = Unit
Late shutdown _ = Unit

pub Late-start : (p : Place) → Late init p → Late ready p
Late-start waiting h = tt
Late-start testing h = absurd h
Late-start polling h = absurd h
Late-start draining h = absurd h
Late-start stopped h = absurd h

pub Late-after_test : (s : State) → Late s testing → Late s (after_test s)
Late-after_test init h = absurd h
Late-after_test ready h = tt
Late-after_test shutdown h = tt

pub Late-after_wait : (s : State) → Late s (after_wait s)
Late-after_wait init = tt
Late-after_wait ready = tt
Late-after_wait shutdown = tt

pub Late-polling : (s : State) → Late s polling → Late s testing
Late-polling init h = h
Late-polling ready h = h
Late-polling shutdown h = h

pub Late-draining : (s : State) → Late s draining → Late s stopped
Late-draining init h = h
Late-draining ready h = h
Late-draining shutdown h = h

-- It stops only on an empty buffer.
abbrev pub Finished : Place → List LogLine → Type 0
Finished stopped queue = queue ≡ []
Finished _ queue = Unit

pub Finished-ready : (p : Place) (q : List LogLine) → Late ready p → Finished p q
Finished-ready waiting q h = tt
Finished-ready testing q h = tt
Finished-ready polling q h = tt
Finished-ready draining q h = tt
Finished-ready stopped q h = absurd h

pub Finished-after_wait : (s : State) (q : List LogLine) → Finished (after_wait s) q
Finished-after_wait init q = tt
Finished-after_wait ready q = tt
Finished-after_wait shutdown q = tt

pub Finished-after_test : (s : State) (q : List LogLine) → Finished (after_test s) q
Finished-after_test init q = tt
Finished-after_test ready q = tt
Finished-after_test shutdown q = tt

pub render-snoc :
    (fmt : Format) (mem : Memory) (lines : List LogLine) (logline : LogLine) {before text : List ℕ}
    → render fmt mem lines ≡ done before
    → stringify fmt mem logline ≡ done text
    → render fmt mem (lines ++ logline ∷ []) ≡ done (before ++ text)
unfolding render
render-snoc fmt mem [] logline {before} {text} e h =
    let empty : [] ≡ before = cc e in rw (h, ← empty) (ap done (append-nil text))
render-snoc fmt mem (l ∷ lines) logline {text = text} e h =
    let (front, back, e₁, e₂, whole) = render-cons fmt mem l lines e in
    rw (e₁, render-snoc fmt mem lines logline e₂ h, whole)
      (ap done (sym (append_assoc front back text)))
