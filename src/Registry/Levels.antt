-- ===== src/Registry/Levels.antt =====
-- The log level, which the default logger keeps, and what it lets through.
use zephyrlog.Prelude.{
  ℕ, ◌≡◌, refl, ap, ◌∙◌, Option, some, Outcome, done, ◌>>=◌, length, get_elem?, set, ◌⊎◌, ◌≤◌, ◌<◌,
  arith, Bool-cases, get_elem?-set_ne, ◌≢◌, leb, if◌then◌else◌, inl, inr, Option-cases,
  get_elem?-append_last, get_elem?-set_self, lt-length, set-set, List,
}
use std.Path.{fun_ext}
use zephyrlog.Prelude.Text.{codes}
use zephyrlog.LogLine.{LogLine}
use zephyrlog.LogLine.Level.{LogLevel, level_byte, at_least}
use zephyrlog.Registry.{
  Logger, Globals, put_logger, set_level, level_of, name_of, set_level_of, set_log_level,
  get_log_level, make_logger, register, set_default_logger, initialize, add, route_to, route,
  log_default, log_named,
}
use zephyrlog.Registry.Valid.{IsValid}

module _ (Impl : Type 0) where
  log_lem :
      (add_line : LogLine → Impl → Outcome Impl) (threshold : LogLevel) (g : Globals Impl)
      (level : LogLevel) (line : Outcome LogLine) (id : ℕ)
      → g.default_logger ≡ some id
      → get_log_level Impl g ≡ done threshold
      → log_default Impl add_line level line g
        ≡ (if at_least level threshold then (line >>= λ l. add Impl add_line id l g) else done g)
  unfolding log_default route route_to
  log_lem add_line threshold g level line id e got =
      let same : (l : LogLine) → route Impl add_line l g ≡ add Impl add_line id l g =
        λ l. ap (λ (o : Option ℕ). route_to Impl add_line o l g) e in
      rw got (
        ap
          (λ (f : LogLine → Outcome (Globals Impl)).
            if at_least level threshold then (line >>= f) else done g)
          (fun_ext same))

  set_log_level-all :
      (threshold : LogLevel) (g : Globals Impl)
      → IsValid Impl g
      → (g' : Globals Impl) × (set_log_level Impl threshold g ≡ done g')
        × (get_log_level Impl g' ≡ done threshold)
        × (g'.default_logger ≡ g.default_logger)
  unfolding set_log_level set_level_of get_log_level set_level level_of put_logger
  set_log_level-all threshold g v = elim (Option-cases g.default_logger) [
    | inl nothing ↦ (
      record g { log_level = threshold },
      ap (λ (o : Option ℕ). set_level_of Impl o threshold (record g { log_level = threshold }))
          nothing,
      rw (get_log_level, nothing),
      refl,
    )
    | inr (i, is) ↦
        let (own, other, (logger, f, n), r) = v.has_default i is in
        let new : Logger Impl = record logger { level = threshold } in
        let g' : Globals Impl = record g { log_level = threshold; loggers = set g.loggers i new } in
        let there = get_elem?-set_self g.loggers i new (lt-length g.loggers i f) in
        (
          g',
          ap (λ (o : Option ℕ). set_level_of Impl o threshold (record g { log_level = threshold }))
                is
              ∙ rw f,
          rw (get_log_level, is, there),
          refl,
        )
  ]

  -- From a valid state, `setLogLevel` returns, and `getLogLevel` then gives the level that was set,
  -- whether there is a default logger or not.
  pub get_log_level-set_log_level :
      (threshold : LogLevel) (g : Globals Impl)
      → IsValid Impl g
      → (g' : Globals Impl) × (set_log_level Impl threshold g ≡ done g')
        × (get_log_level Impl g' ≡ done threshold)
  get_log_level-set_log_level threshold g v =
      let (g', e, got, _) = set_log_level-all threshold g v in (g', e, got)

  -- What `setLogLevel` leaves where the default logger is this one.
  leveled : LogLevel → ℕ → Logger Impl → Globals Impl → Globals Impl
  leveled threshold id logger g =
      put_logger Impl id (record logger { level = threshold }) (record g { log_level = threshold })

  set_log_level-some :
      (threshold : LogLevel) (id : ℕ) (g : Globals Impl) (logger : Logger Impl)
      → g.default_logger ≡ some id
      → get_elem? g.loggers id ≡ some logger
      → set_log_level Impl threshold g ≡ done (leveled threshold id logger g)
  unfolding set_log_level set_level_of set_level leveled
  set_log_level-some threshold id g logger here there =
      ap (λ (o : Option ℕ). set_level_of Impl o threshold (record g { log_level = threshold })) here
      ∙ rw there

  -- A line added to that logger then.
  add-leveled :
      (add_line : LogLine → Impl → Outcome Impl) (threshold : LogLevel) (id : ℕ) (g : Globals Impl)
      (logger : Logger Impl) (l : LogLine)
      → get_elem? g.loggers id ≡ some logger
      → add Impl add_line id l (leveled threshold id logger g) ≡ (do
        impl ← add_line l logger.impl
        done (record (leveled threshold id logger g) {
          loggers = set g.loggers id (record logger { impl = impl; level = threshold });
        }))
  unfolding add leveled put_logger
  add-leveled add_line threshold id g logger l there =
      let new : Logger Impl = record logger { level = threshold } in
      rw (get_elem?-set_self g.loggers id new (lt-length g.loggers id there)) (
        ap
          (λ (f : Impl → List (Logger Impl)). add_line l logger.impl >>= λ impl.
            done (record (leveled threshold id logger g) { loggers = f impl }))
          (fun_ext λ impl. set-set g.loggers id new (record new { impl = impl })))

  get_log_level-leveled :
      (threshold : LogLevel) (id : ℕ) (g : Globals Impl) (logger : Logger Impl)
      → g.default_logger ≡ some id
      → get_elem? g.loggers id ≡ some logger
      → get_log_level Impl (leveled threshold id logger g) ≡ done threshold
  unfolding get_log_level level_of leveled put_logger
  get_log_level-leveled threshold id g logger here there =
      let new : Logger Impl = record logger { level = threshold } in
      rw (here, get_elem?-set_self g.loggers id new (lt-length g.loggers id there))

  -- Where the default logger points to a logger, `setLogLevel` returns. The macros for the default
  -- logger then make the line and hand it to the `AsyncLogger` of that logger, whose level is now
  -- the level set, and change no other logger, if the value of their own level is at least that of
  -- the level set; if it is less, they change nothing, and do not make the line.
  pub log_default-set_log_level :
      (add_line : LogLine → Impl → Outcome Impl) (threshold level : LogLevel)
      (line : Outcome LogLine) (id : ℕ) (g : Globals Impl) (logger : Logger Impl)
      → g.default_logger ≡ some id
      → get_elem? g.loggers id ≡ some logger
      → (g' : Globals Impl) × (set_log_level Impl threshold g ≡ done g')
        × (((level_byte threshold ≤ level_byte level)
              × (log_default Impl add_line level line g' ≡ (do
                l ← line
                impl ← add_line l logger.impl
                done (record g' {
                  loggers = set g.loggers id (record logger { impl = impl; level = threshold });
                }))))
            ⊎ ((level_byte level < level_byte threshold)
                × (log_default Impl add_line level line g' ≡ done g')))
  log_default-set_log_level add_line threshold level line id g logger here there =
      let g' : Globals Impl = leveled threshold id logger g in
      let default : g'.default_logger ≡ some id = unfold leveled put_logger in here in
      let logged =
        log_lem add_line threshold g' level line id default
          (get_log_level-leveled threshold id g logger here there) in
      (
        g',
        set_log_level-some threshold id g logger here there,
        elim (Bool-cases (leb (level_byte threshold) (level_byte level))) [
          | inl passes ↦ inl (
            ground arith,
            logged
                ∙ rw passes (
                    ap (λ (f : LogLine → Outcome (Globals Impl)). line >>= f)
                      (fun_ext λ l. add-leveled add_line threshold id g logger l there)),
          )
          | inr fails ↦ inr (ground arith, logged ∙ rw fails)
        ],
      )

  named_lem :
      (add_line : LogLine → Impl → Outcome Impl) (g : Globals Impl) (level : LogLevel)
      (line : Outcome LogLine) (id : ℕ) (logger : Logger Impl)
      → get_elem? g.loggers id ≡ some logger
      → log_named Impl add_line id level line g
        ≡ (if at_least level logger.level then (line >>= λ l. add Impl add_line id l g) else done g)
  unfolding log_named level_of
  named_lem add_line g level line id logger there = rw there

  add_lem :
      (add_line : LogLine → Impl → Outcome Impl) (g : Globals Impl) (id : ℕ) (logger : Logger Impl)
      (l : LogLine)
      → get_elem? g.loggers id ≡ some logger
      → add Impl add_line id l g ≡ (do
        impl ← add_line l logger.impl
        done (record g { loggers = set g.loggers id (record logger { impl = impl }) }))
  unfolding add put_logger
  add_lem add_line g id logger l there = rw there

  -- Where the default logger points to a logger, `setLogLevel` returns, and leaves every other
  -- logger as it is: the macros for such a logger make the line and hand it to the `AsyncLogger` of
  -- that logger, and change no other one, if the value of their level is at least that of the
  -- logger's own level, whatever level was set; if it is less, they change nothing, and do not make
  -- the line.
  pub log_named-set_log_level :
      (add_line : LogLine → Impl → Outcome Impl) (threshold level : LogLevel)
      (line : Outcome LogLine) (default id : ℕ) (g : Globals Impl) (chosen logger : Logger Impl)
      → g.default_logger ≡ some default
      → get_elem? g.loggers default ≡ some chosen
      → get_elem? g.loggers id ≡ some logger
      → default ≢ id
      → (g' : Globals Impl) × (set_log_level Impl threshold g ≡ done g')
        × (get_elem? g'.loggers id ≡ some logger)
        × (((level_byte logger.level ≤ level_byte level)
              × (log_named Impl add_line id level line g' ≡ (do
                l ← line
                impl ← add_line l logger.impl
                done (record g' { loggers = set g'.loggers id (record logger { impl = impl }) }))))
            ⊎ ((level_byte level < level_byte logger.level)
                × (log_named Impl add_line id level line g' ≡ done g')))
  log_named-set_log_level add_line threshold level line default id g chosen logger here found there
        differs =
      let g' : Globals Impl = leveled threshold default chosen g in
      let still : get_elem? g'.loggers id ≡ some logger =
        unfold leveled put_logger in
        get_elem?-set_ne g.loggers (record chosen { level = threshold }) differs ∙ there in
      let logged = named_lem add_line g' level line id logger still in
      (
        g',
        set_log_level-some threshold default g chosen here found,
        still,
        elim (Bool-cases (leb (level_byte logger.level) (level_byte level))) [
          | inl passes ↦ inl (
            ground arith,
            logged
                ∙ rw passes (
                    ap (λ (f : LogLine → Outcome (Globals Impl)). line >>= f)
                      (fun_ext λ l. add_lem add_line g' id logger l still)),
          )
          | inr fails ↦ inr (ground arith, logged ∙ rw fails)
        ],
      )

  -- Whatever level was set before, `initializeQuick` and `initializeSafe` return, and `getLogLevel`
  -- then gives DEBUG: a level set before the default logger is made, or replaced, is lost.
  pub initialize-resets_level :
      (impl : Impl) (g : Globals Impl)
      → (g' : Globals Impl) × (initialize Impl impl g ≡ done g')
        × (get_log_level Impl g' ≡ done LogLevel.debug)
  unfolding initialize set_default_logger get_log_level level_of name_of make_logger register
  initialize-resets_level impl g =
      let made : Globals Impl = (make_logger Impl (codes "default") impl g).1 in
      let new : Logger Impl = record {
        name = codes "default";
        impl = impl;
        level = LogLevel.debug;
      } in
      let there = get_elem?-append_last g.loggers new in
      (
        record (register Impl (codes "default") (length g.loggers) made) {
          default_logger = some (length g.loggers);
        },
        rw there,
        rw there,
      )
