-- ===== src/AsyncLogger/Drain.antt =====
-- What the worker has written when it stops, on a buffer that is a queue without bound.
use zephyrlog.Prelude.{
  ℕ, suc, ◌≡◌, refl, sym, ap, ◌∙◌, subst, done, ◌>>=◌, List, [], ◌∷◌, ◌++◌, length, Bool, true,
  append_assoc, append-nil,
}
use zephyrlog.BufferBase.{BufferBase, IsFifo}
use zephyrlog.FileWriter.{file_writer, write}
use zephyrlog.FileWriter.Rolling.{
  HasWritten, file_writer-HasWritten, render, render-cons, write-HasWritten, write-text,
  >>=-eq-done,
}
use zephyrlog.LogLine.{LogLine}
use zephyrlog.LogLine.Encode.{Memory}
use zephyrlog.LogLine.Stringify.{Format}
use zephyrlog.AsyncLogger.{
  State, Place, AsyncLogger, init, ready, shutdown, waiting, testing, polling, draining, stopped,
  async_logger, start, shut_down, add, take, after_wait, after_test, work_at, work, work_on,
  Reaches, begun, started, added, worked, shut,
}
use zephyrlog.AsyncLogger.Places.{
  Late, Finished, Late-start, Late-after_test, Late-after_wait, Late-polling, Late-draining,
  Finished-ready, Finished-after_wait, Finished-after_test, render-snoc,
}

module _ {b : BufferBase} (fifo : IsFifo b) (unbounded : (q : List LogLine) → fifo.HasRoom q)
    (opens : List ℕ → Bool) (always : (path : List ℕ) → opens path ≡ true) (fmt : Format)
    (mem : Memory) where
  record Holds (lines : List LogLine) (a : AsyncLogger b) : Type 0 where
    pub written : List LogLine
    pub queue : List LogLine
    pub text : List ℕ
    pub whole : written ++ queue ≡ lines
    pub queued : fifo.Queued a.buffer queue
    pub rendered : render fmt mem written ≡ done text
    pub files : HasWritten a.writer text
    pub late : Late a.state a.place
    pub finished : Finished a.place queue

  -- A change of the state and of the worker's place.
  elsewhere :
      (lines : List LogLine) (a : AsyncLogger b) (v : Holds lines a) (s : State) (p : Place)
      → Late s p
      → Finished p v.queue
      → Holds lines (record a { state = s; place = p })
  elsewhere lines a v s p late finished = record {
    written = v.written;
    queue = v.queue;
    text = v.text;
    whole = v.whole;
    queued = v.queued;
    rendered = v.rendered;
    files = v.files;
    late = late;
    finished = finished;
  }

  add-Holds :
      (lines : List LogLine) (logline : LogLine) (a a' : AsyncLogger b)
      → Holds lines a
      → a.state ≡ ready
      → add b logline a ≡ done a'
      → Holds (lines ++ logline ∷ []) a'
  unfolding add
  add-Holds lines logline a a' v here e =
      let (s, e₁, v₁) = fifo.push_queues a.buffer v.queue logline v.queued (unbounded v.queue) in
      let h : done (record a { buffer = s }) ≡ done a' = rw e₁ at e in
      subst (Holds (lines ++ logline ∷ [])) (cc h) (record {
        written = v.written;
        queue = v.queue ++ logline ∷ [];
        text = v.text;
        whole =
            sym (append_assoc v.written v.queue (logline ∷ []))
            ∙ ap (λ (xs : List LogLine). xs ++ logline ∷ []) v.whole;
        queued = v₁;
        rendered = v.rendered;
        files = v.files;
        late = v.late;
        finished =
            Finished-ready a.place (v.queue ++ logline ∷ [])
              (subst (λ (s : State). Late s a.place) here v.late);
      })

  -- The worker at a call of `tryPop`.
  take-Holds :
      (lines : List LogLine) (found empty : Place) (a a' : AsyncLogger b) (v : Holds lines a)
      → take b opens fmt mem found empty a ≡ done a'
      → Late a.state found
      → Late a.state empty
      → ((q : List LogLine) → Finished found q)
      → Finished empty []
      → Holds lines a'
  unfolding take write
  take-Holds lines found empty a a' v e lf le ff fe = by_queue v.queue refl
    where
      by_queue : (q : List LogLine) → v.queue ≡ q → Holds lines a'
      by_queue [] same =
          let (s, e₁, v₁) =
            fifo.try_pop_none a.buffer (subst (fifo.Queued a.buffer) same v.queued) in
          let h : done (record a { buffer = s; place = empty }) ≡ done a' = rw e₁ at e in
          subst (Holds lines) (cc h) (record {
            written = v.written;
            queue = [];
            text = v.text;
            whole = ap (◌++◌ v.written) (sym same) ∙ v.whole;
            queued = v₁;
            rendered = v.rendered;
            files = v.files;
            late = le;
            finished = fe;
          })
      by_queue (l ∷ q) same =
          let (s, e₁, v₁) =
            fifo.try_pop_some a.buffer q l (subst (fifo.Queued a.buffer) same v.queued) in
          let h : (write opens fmt mem l a.writer >>= λ w.
          done (record a { buffer = s; writer = w; place = found }))
              ≡ done a' =
            rw e₁ at e in
          let (w, e₂, h₂) = >>=-eq-done (write opens fmt mem l a.writer) _ h in
          let (text, e₃, files) = write-text opens always fmt mem a.writer w v.text l v.files e₂ in
          subst (Holds lines) (cc h₂) (record {
            written = v.written ++ l ∷ [];
            queue = q;
            text = v.text ++ text;
            whole = append_assoc v.written (l ∷ []) q ∙ ap (◌++◌ v.written) (sym same) ∙ v.whole;
            queued = v₁;
            rendered = render-snoc fmt mem v.written l v.rendered e₃;
            files = files;
            late = lf;
            finished = ff q;
          })

  work-Holds :
      (lines : List LogLine) (a a' : AsyncLogger b)
      → Holds lines a
      → work b opens fmt mem a ≡ done a'
      → Holds lines a'
  unfolding work work_at
  work-Holds lines a a' v e = at a.place refl
    where
      late : (p : Place) → a.place ≡ p → Late a.state p
      late p here = subst (Late a.state) here v.late

      step : (p : Place) → a.place ≡ p → work_at b opens fmt mem p a ≡ done a'
      step p here = sym (ap (λ (p : Place). work_at b opens fmt mem p a) here) ∙ e

      at : (p : Place) → a.place ≡ p → Holds lines a'
      at waiting here = subst (Holds lines) (cc (step _ here)) (
          elsewhere lines a v a.state (after_wait a.state) (Late-after_wait a.state)
            (Finished-after_wait a.state v.queue))
      at testing here = subst (Holds lines) (cc (step _ here)) (
          elsewhere lines a v a.state (after_test a.state)
            (Late-after_test a.state (late testing here)) (Finished-after_test a.state v.queue))
      at polling here =
          let early = Late-polling a.state (late polling here) in
          take-Holds lines testing testing a a' v (step _ here) early early (λ q. tt) tt
      at draining here =
          take-Holds lines draining stopped a a' v (step _ here) (late draining here)
            (Late-draining a.state (late draining here)) (λ q. tt) refl
      at stopped here = subst (Holds lines) (cc (step _ here)) v

  Reaches-Holds :
      (buffer : b.State) (directory name : List ℕ) (roll_size : ℕ) (terminal_output : Bool)
      → fifo.Queued buffer []
      → {lines : List LogLine} {a : AsyncLogger b}
      → Reaches b opens fmt mem buffer
          (file_writer opens directory name roll_size terminal_output)
          lines
          a
      → Holds lines a
  unfolding async_logger start add shut_down render
  Reaches-Holds buffer directory name roll_size terminal_output v begun = record {
    written = [];
    queue = [];
    text = [];
    whole = refl;
    queued = v;
    rendered = refl;
    files = file_writer-HasWritten opens always directory name roll_size terminal_output;
    late = tt;
    finished = tt;
  }
  Reaches-Holds buffer directory name roll_size terminal_output v {lines} (started {a = a} r e) =
      let h = Reaches-Holds buffer directory name roll_size terminal_output v r in
      let waits : Late init a.place = subst (λ (s : State). Late s a.place) e h.late in
      elsewhere lines a h ready a.place (Late-start a.place waits) h.finished
  Reaches-Holds buffer directory name roll_size terminal_output v
        (added {a = a} {a'} logline r e p) =
      add-Holds _ logline a a' (Reaches-Holds buffer directory name roll_size terminal_output v r) e
        p
  Reaches-Holds buffer directory name roll_size terminal_output v (worked {a = a} {a'} r e) =
      work-Holds _ a a' (Reaches-Holds buffer directory name roll_size terminal_output v r) e
  Reaches-Holds buffer directory name roll_size terminal_output v {lines} (shut {a = a} r e) =
      let h = Reaches-Holds buffer directory name roll_size terminal_output v r in
      elsewhere lines a h shutdown a.place tt h.finished

  -- However the steps of the producers, the destructor and the worker take turns: once the worker
  -- has stopped, the files hold the texts of all the lines added, whole and in order, and nothing
  -- else, and each line has a text. Files that a later one has erased are counted in; only the
  -- oldest of 2^32 files is erased. The buffer is empty at first, keeps the order of its lines and
  -- always has room, and every file can be opened.
  pub stopped-writes_all :
      (buffer : b.State) (directory name : List ℕ) (roll_size : ℕ) (terminal_output : Bool)
      → fifo.Queued buffer []
      → {lines : List LogLine} {a : AsyncLogger b}
      → Reaches b opens fmt mem buffer
          (file_writer opens directory name roll_size terminal_output)
          lines
          a
      → a.place ≡ stopped
      → (text : List ℕ) × (render fmt mem lines ≡ done text) × HasWritten a.writer text
  stopped-writes_all buffer directory name roll_size terminal_output v {lines} {a} r here =
      let h = Reaches-Holds buffer directory name roll_size terminal_output v r in
      let empty : h.queue ≡ [] = subst (λ (p : Place). Finished p h.queue) here h.finished in
      let all : h.written ≡ lines =
        sym (append-nil h.written) ∙ ap (◌++◌ h.written) (sym empty) ∙ h.whole in
      (
        h.text,
        subst (λ (xs : List LogLine). render fmt mem xs ≡ done h.text) all h.rendered,
        h.files,
      )

  -- A worker in its last loop, with a queue of lines in the buffer that all have texts, stops after
  -- as many rounds as there are lines and one more, and the files then hold these texts behind what
  -- they held. Files that a later one has erased are counted in; only the oldest of 2^32 files is
  -- erased. The buffer keeps the order of its lines and always has room, and every file can be
  -- opened.
  pub draining-stops :
      (queue : List LogLine) (a : AsyncLogger b) {before text : List ℕ}
      → a.place ≡ draining
      → fifo.Queued a.buffer queue
      → HasWritten a.writer before
      → render fmt mem queue ≡ done text
      → (a' : AsyncLogger b) × (work_on b opens fmt mem (suc (length queue)) a ≡ done a')
        × (a'.place ≡ stopped)
        × HasWritten a'.writer (before ++ text)
  unfolding work_on work work_at take render
  draining-stops [] a {before} {text} here v w e =
      let (s, e₁, v₁) = fifo.try_pop_none a.buffer v in
      let empty : [] ≡ text = cc e in
      (
        record a { buffer = s; place = stopped },
        rw (here, e₁),
        refl,
        subst (HasWritten a.writer) (sym (append-nil before) ∙ ap (◌++◌ before) empty) w,
      )
  draining-stops (l ∷ queue) a {before} {text} here v w e =
      let (s, e₁, v₁) = fifo.try_pop_some a.buffer queue l v in
      let (front, back, e₂, e₃, whole) = render-cons fmt mem l queue e in
      let (writer, e₄, w₁) = write-HasWritten opens always fmt mem a.writer before front l w e₂ in
      let next : AsyncLogger b = record a { buffer = s; writer = writer; place = draining } in
      let (a', e₅, here', w₂) = draining-stops queue next refl v₁ w₁ e₃ in
      (
        a',
        rw (here, e₁, e₄) e₅,
        here',
        subst (HasWritten a'.writer) (append_assoc before front back ∙ ap (◌++◌ before) (sym whole))
            w₂,
      )
