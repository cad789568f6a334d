-- ===== src/Registry/Race.antt =====
-- A call of `removeLogger` between the two halves of `setDefaultLogger` (src/zephyrlog.cpp): the
-- lock covers the registry and not the store of the default logger.
use zephyrlog.Prelude.{ℕ, ◌≡◌, refl, none, some, done, List, ◌∙◌}
use zephyrlog.Prelude.Text.{same_name_refl}
use zephyrlog.Registry.{
  Globals, register, store_default, get_logger, get_default_logger, remove_logger,
}
use zephyrlog.Registry.Valid.{IsValid, Points, register-IsValid}
use zephyrlog.Registry.Remove.{remove_logger-all}

module _ (Impl : Type 0) where
  -- From a valid state, if `removeLogger` with the name of a logger runs between the two halves of
  -- `setDefaultLogger` of that logger, then the logger is the default logger, `getLogger` does not
  -- find its name, and another `removeLogger` of it changes nothing.
  pub store_default-remove_logger :
      (name : List ℕ) (id : ℕ) (g : Globals Impl)
      → IsValid Impl g
      → Points Impl g name id
      → (g' : Globals Impl) × (remove_logger Impl name (register Impl name id g) ≡ done g')
        × (get_default_logger Impl (store_default Impl id g') ≡ some id)
        × (get_logger Impl name (store_default Impl id g') ≡ none)
        × (remove_logger Impl name (store_default Impl id g') ≡ done (store_default Impl id g'))
  unfolding store_default get_default_logger get_logger remove_logger register
  store_default-remove_logger name id g v p =
      let (g', e, _, found, _) =
        remove_logger-all Impl name (register Impl name id g)
          (register-IsValid Impl name id g v p) in
      let gone : g'.registry name ≡ none = found name ∙ rw (same_name_refl name) in
      (g', e, refl, gone, rw (remove_logger, gone))
