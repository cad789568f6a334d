-- ===== src/Registry/Remove.antt =====
-- `removeLogger` (src/zephyrlog.cpp) and the pointers that it leaves.
use zephyrlog.Prelude.{
  ℕ, ◌≡◌, ◌≢◌, refl, sym, ap, ◌∙◌, Option, none, some, done, List, get_elem?, true, false,
  if◌then◌else◌, Bool-cases, inl, inr, Option-cases, ◌⊎◌,
}
use zephyrlog.Registry.{
  Logger, Globals, name_of, unregister, get_logger, get_default_logger, clear_default,
  remove_logger,
}
use zephyrlog.Prelude.Text.{same_name, same_name_refl, same_name-eq}
use zephyrlog.Registry.Valid.{IsValid, Points, name_of-Points}

module _ (Impl : Type 0) where
  has_key :
      (g : Globals Impl) (own : List ℕ) (id : ℕ)
      → IsValid Impl g
      → g.default_logger ≡ some id
      → Points Impl g own id
      → (other : ℕ) × (g.registry own ≡ some other)
  has_key g own id v e (logger, f, n) =
      let (name, other, (logger', f', n'), r) = v.has_default id e in
      let same : logger ≡ logger' = cc in
      let name_eq : name ≡ own = sym n' ∙ ap (λ (l : Logger Impl). l.name) (sym same) ∙ n in
      (other, ap g.registry (sym name_eq) ∙ r)

  missing_key :
      (name : List ℕ) (g : Globals Impl)
      → g.registry name ≡ none
      → (key : List ℕ) → g.registry key ≡ (if same_name name key then none else g.registry key)
  missing_key name g e key = elim (Bool-cases (same_name name key)) [
    | inl same ↦ rw same (ap g.registry (sym (same_name-eq name key same)) ∙ e)
    | inr differs ↦ rw differs
  ]

  -- The default logger, if any, has another name.
  abbrev Unnamed : List ℕ → Globals Impl → Type 0
  Unnamed name g =
      (own : List ℕ) (id : ℕ) → g.default_logger ≡ some id → Points Impl g own id → own ≢ name

  unregister-IsValid :
      (name : List ℕ) (g : Globals Impl)
      → IsValid Impl g
      → Unnamed name g
      → IsValid Impl (unregister Impl name g)
  unfolding unregister
  unregister-IsValid name g v safe = record { registered = registered; has_default = has_default }
    where
      registered :
          (key : List ℕ) (i : ℕ)
          → (unregister Impl name g).registry key ≡ some i
          → Points Impl g key i
      registered key i e = elim (Bool-cases (same_name name key)) [
        | inl same ↦ let found : none ≡ some i = rw same at e in cc found
        | inr differs ↦ v.registered key i (rw differs at e)
      ]

      has_default :
          (i : ℕ)
          → g.default_logger ≡ some i
          → (own : List ℕ) × (other : ℕ) × Points Impl g own i
            × ((unregister Impl name g).registry own ≡ some other)
      has_default i e =
          let (own, other, q, r) = v.has_default i e in
          elim (Bool-cases (same_name name own)) [
            | inl same ↦ absurd (safe own i e q (sym (same_name-eq name own same)))
            | inr differs ↦ (own, other, q, rw differs r)
          ]

  -- What becomes of the default logger when a name is removed.
  abbrev pub Cleared : List ℕ → Globals Impl → Globals Impl → Type 0
  Cleared name g g' =
      (own : List ℕ) (id : ℕ)
      → g.default_logger ≡ some id
      → Points Impl g own id
      → ((own ≡ name) × (g'.default_logger ≡ none)) ⊎ ((own ≢ name) × (g'.default_logger ≡ some id))

  differs_of : (a b : List ℕ) → same_name a b ≡ false → a ≢ b
  differs_of a b e same =
      let no : true ≡ false = sym (same_name_refl a) ∙ ap (same_name a) same ∙ e in cc no

  clear_default-lem :
      (name : List ℕ) (g : Globals Impl)
      → IsValid Impl g
      → (g' : Globals Impl) × (clear_default Impl name g ≡ done g')
        × IsValid Impl g'
        × (g'.registry ≡ g.registry)
        × Cleared name g g'
        × Unnamed name g'
  unfolding clear_default name_of
  clear_default-lem name g v = elim (Option-cases g.default_logger) [
    | inl nothing ↦ (
      g,
      rw nothing,
      v,
      refl,
      (λ own id e. let no : none ≡ some id = sym nothing ∙ e in cc no),
      (λ own id e. let no : none ≡ some id = sym nothing ∙ e in cc no),
    )
    | inr (i, is) ↦
        let (own, other, p, r) = v.has_default i is in
        elim (Bool-cases (same_name own name)) [
          | inl same ↦ (
            record g { default_logger = none },
            rw (is, name_of-Points Impl g own i p, same),
            record { registered = v.registered; has_default = λ id e. cc e },
            refl,
            (λ o id e q.
                inl (owner own o i id p q (sym is ∙ e) ∙ same_name-eq own name same, refl)),
            (λ o id e. cc e),
          )
          | inr differs ↦
              let unlike = differs_of own name differs in
              (
                g,
                rw (is, name_of-Points Impl g own i p, differs),
                v,
                refl,
                (λ o id e q. inr ((λ h. unlike (sym (owner own o i id p q (sym is ∙ e)) ∙ h)), e)),
                (λ o id e q h. unlike (sym (owner own o i id p q (sym is ∙ e)) ∙ h)),
              )
        ]
  ]
    where
      owner :
          (own o : List ℕ) (i id : ℕ)
          → Points Impl g own i
          → Points Impl g o id
          → some i ≡ some id
          → o ≡ own
      owner own o i id (l, f, n) (l', f', n') e =
          let at : i ≡ id = cc e in
          let found : some l ≡ some l' = sym f ∙ ap (get_elem? g.loggers) at ∙ f' in
          let same : l ≡ l' = cc found in sym n' ∙ ap (λ (l : Logger Impl). l.name) (sym same) ∙ n

  -- What `removeLogger` does.
  pub remove_logger-all :
      (name : List ℕ) (g : Globals Impl)
      → IsValid Impl g
      → (g' : Globals Impl) × (remove_logger Impl name g ≡ done g')
        × IsValid Impl g'
        × ((key : List ℕ)
            → get_logger Impl key g' ≡ (if same_name name key then none else get_logger Impl key g))
        × Cleared name g g'
  unfolding remove_logger get_logger unregister
  remove_logger-all name g v = elim (Option-cases (g.registry name)) [
    | inl missing ↦ (
      g,
      rw (remove_logger, missing),
      v,
      missing_key name g missing,
      λ own id e p. inr (
        λ same.
            let (other, r) = has_key g own id v e p in
            let found : some other ≡ none = sym r ∙ ap g.registry same ∙ missing in cc found,
        e,
      ),
    )
    | inr (there, found) ↦
        let (g₁, e, w, same, effect, safe) = clear_default-lem name g v in
        (
          unregister Impl name g₁,
          rw (remove_logger, found, e),
          unregister-IsValid name g₁ w safe,
          λ key. ap (λ (r : List ℕ → Option ℕ). if same_name name key then none else r key) same,
          effect,
        )
  ]

  -- From a valid state, `removeLogger` returns and leaves a valid state; `getLogger` then finds
  -- nothing under that name, and under any other name what it found before.
  pub remove_logger-registry :
      (name key : List ℕ) (g : Globals Impl)
      → IsValid Impl g
      → (g' : Globals Impl) × (remove_logger Impl name g ≡ done g')
        × IsValid Impl g'
        × (get_logger Impl key g' ≡ (if same_name name key then none else get_logger Impl key g))
  remove_logger-registry name key g v =
      let (g', e, w, found, _) = remove_logger-all name g v in (g', e, w, found key)

  -- From a valid state with a default logger, `removeLogger` returns and leaves no default logger
  -- if that logger has the name removed, and the same default logger if it has another name.
  pub remove_logger-default :
      (name own : List ℕ) (id : ℕ) (g : Globals Impl)
      → IsValid Impl g
      → g.default_logger ≡ some id
      → Points Impl g own id
      → (g' : Globals Impl) × (remove_logger Impl name g ≡ done g')
        × (((own ≡ name) × (get_default_logger Impl g' ≡ none))
            ⊎ ((own ≢ name) × (get_default_logger Impl g' ≡ some id)))
  unfolding get_default_logger
  remove_logger-default name own id g v e p =
      let (g', done_eq, _, _, cleared) = remove_logger-all name g v in
      (g', done_eq, cleared own id e p)
