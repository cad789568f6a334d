-- ===== src/Registry/Valid.antt =====
-- The pointers that the registry holds, and what the functions do to them.
use zephyrlog.Prelude.{
  ℕ, ◌≡◌, refl, ◌∙◌, subst, some, done, List, length, get_elem?, if◌then◌else◌, Bool-cases, inl,
  inr, get_elem?-append_left, get_elem?-append_last, lt-length,
}
use zephyrlog.Prelude.Text.{codes, same_name, same_name_refl, same_name-eq}
use zephyrlog.LogLine.Level.{LogLevel}
use zephyrlog.Registry.{
  Logger, Globals, globals, name_of, make_logger, register, create_logger, get_logger,
  set_default_logger, get_default_logger, initialize,
}

module _ (Impl : Type 0) where
  -- The pointer is to a logger with this name.
  abbrev pub Points : Globals Impl → List ℕ → ℕ → Type 0
  Points g name id =
      (logger : Logger Impl) × (get_elem? g.loggers id ≡ some logger) × (logger.name ≡ name)

  -- Every logger in the registry is there under its own name, and the default logger's name is there.
  pub record IsValid (g : Globals Impl) : Type 0 where
    pub registered : (name : List ℕ) (id : ℕ) → g.registry name ≡ some id → Points g name id
    pub has_default :
        (id : ℕ)
        → g.default_logger ≡ some id
        → (name : List ℕ) × (other : ℕ) × Points g name id × (g.registry name ≡ some other)

  pub globals-IsValid : IsValid (globals Impl)
  globals-IsValid = record { registered = λ name id e. cc e; has_default = λ id e. cc e }

  make_logger-Points :
      (name : List ℕ) (impl : Impl) (g : Globals Impl) (own : List ℕ) (id : ℕ)
      → Points g own id
      → Points (make_logger Impl name impl g).1 own id
  unfolding make_logger
  make_logger-Points name impl g own id (logger, e, n) =
      (logger, get_elem?-append_left g.loggers _ id (lt-length g.loggers id e) ∙ e, n)

  make_logger-new :
      (name : List ℕ) (impl : Impl) (g : Globals Impl)
      → Points (make_logger Impl name impl g).1 name (length g.loggers)
  unfolding make_logger
  make_logger-new name impl g = (
    record { name = name; impl = impl; level = LogLevel.debug },
    get_elem?-append_last g.loggers _,
    refl,
  )

  make_logger-IsValid :
      (name : List ℕ) (impl : Impl) (g : Globals Impl)
      → IsValid g
      → IsValid (make_logger Impl name impl g).1
  unfolding make_logger
  make_logger-IsValid name impl g v = record {
    registered = λ own id e. make_logger-Points name impl g own id (v.registered own id e);
    has_default = λ id e.
        let (own, other, p, r) = v.has_default id e in
        (own, other, make_logger-Points name impl g own id p, r);
  }

  -- The registry once a pointer is stored in it, or taken out of it.
  pub registry-register :
      (name key : List ℕ) (id : ℕ) (g : Globals Impl)
      → (register Impl name id g).registry key
        ≡ (if same_name name key then some id else g.registry key)
  unfolding register
  registry-register name key id g = refl

  pub register-IsValid :
      (name : List ℕ) (id : ℕ) (g : Globals Impl)
      → IsValid g
      → Points g name id
      → IsValid (register Impl name id g)
  unfolding register
  register-IsValid name id g v p = record { registered = registered; has_default = has_default }
    where
      registered :
          (key : List ℕ) (i : ℕ) → (register Impl name id g).registry key ≡ some i → Points g key i
      registered key i e = elim (Bool-cases (same_name name key)) [
        | inl same ↦
            let found : some id ≡ some i = rw same at e in
            let at : id ≡ i = cc found in rw (← same_name-eq name key same, ← at) p
        | inr differs ↦ v.registered key i (rw differs at e)
      ]

      has_default :
          (i : ℕ)
          → g.default_logger ≡ some i
          → (own : List ℕ) × (other : ℕ) × Points g own i
            × ((register Impl name id g).registry own ≡ some other)
      has_default i e =
          let (own, other, q, r) = v.has_default i e in
          elim (Bool-cases (same_name name own)) [
            | inl same ↦ (own, id, q, rw same)
            | inr differs ↦ (own, other, q, rw differs r)
          ]

  pub name_of-Points :
      (g : Globals Impl) (name : List ℕ) (id : ℕ) → Points g name id → name_of Impl id g ≡ done name
  unfolding name_of
  name_of-Points g name id (logger, e, n) = rw (e, n)

  -- From a valid state, `createLogger` and `createSafeLogger` leave a valid state, their result
  -- points to a logger with the name given, and `getLogger` finds that logger under this name, and
  -- under any other name what it found before.
  pub create_logger-registry :
      (name key : List ℕ) (impl : Impl) (g : Globals Impl)
      → IsValid g
      → let (id, g') = create_logger Impl name impl g in
        IsValid g'
        × Points g' name id
        × (get_logger Impl key g' ≡ (if same_name name key then some id else get_logger Impl key g))
  unfolding create_logger get_logger make_logger register
  create_logger-registry name key impl g v =
      let p = make_logger-new name impl g in
      (register-IsValid name (length g.loggers) _ (make_logger-IsValid name impl g v) p, p, refl)

  default-IsValid :
      (g : Globals Impl) (name : List ℕ) (id other : ℕ)
      → IsValid g
      → Points g name id
      → g.registry name ≡ some other
      → IsValid (record g { default_logger = some id })
  default-IsValid g name id other v p r = record {
    registered = v.registered;
    has_default = λ i e. (name, other, subst (Points g name) (cc e) p, r);
  }

  set_default-IsValid :
      (g : Globals Impl) (name : List ℕ) (id : ℕ)
      → IsValid g
      → Points g name id
      → (set_default_logger Impl (some id) g
          ≡ done (record (register Impl name id g) { default_logger = some id }))
        × IsValid (record (register Impl name id g) { default_logger = some id })
  unfolding set_default_logger
  set_default-IsValid g name id v p =
      let found : (register Impl name id g).registry name ≡ some id =
        unfold register in rw (same_name_refl name) in
      (
        rw (name_of-Points g name id p),
        default-IsValid (register Impl name id g) name id id (register-IsValid name id g v p)
            (unfold register in p) found,
      )

  -- From a valid state, `initializeQuick` and `initializeSafe` return and leave a valid state, with
  -- a new logger as the default logger; `getLogger` finds it as "default", and under any other name
  -- what it found before.
  pub initialize-registry :
      (key : List ℕ) (impl : Impl) (g : Globals Impl)
      → IsValid g
      → (g' : Globals Impl) × (initialize Impl impl g ≡ done g')
        × IsValid g'
        × (get_default_logger Impl g' ≡ some (length g.loggers))
        × (get_logger Impl key g' ≡ (
            if same_name (codes "default") key
            then some (length g.loggers)
            else get_logger Impl key g))
  unfolding initialize get_logger get_default_logger make_logger register
  initialize-registry key impl g v =
      let name : List ℕ = codes "default" in
      let made : Globals Impl = (make_logger Impl name impl g).1 in
      let (e, w) =
        set_default-IsValid made name (length g.loggers) (make_logger-IsValid name impl g v)
          (make_logger-new name impl g) in
      (
        record (register Impl name (length g.loggers) made) {
          default_logger = some (length g.loggers);
        },
        e,
        w,
        refl,
        refl,
      )
