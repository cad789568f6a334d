-- ===== src/Registry.antt =====
-- `Logger` and `LoggerRef` (include/zephyrlog/logger.h, src/logger.cpp), the globals and functions of
-- src/zephyrlog.cpp, and the macros of include/zephyrlog/zephyrlog.h. A `shared_ptr` is a position in
-- the list of all the loggers made; the destructor of a logger that no pointer is left to is not
-- modelled. Each function is one step: the source takes a lock or a single atomic access in it. What
-- an `AsyncLogger` is, and its `add`, are parameters, which the module AsyncLogger can fill.
pub mod Valid
pub mod Remove
pub mod Race
pub mod Levels
mod Tests
use zephyrlog.Prelude.{
  ℕ, zero, suc, ◌+◌, ◌==◌, ◌&&◌, ◌≡◌, Option, none, some, Outcome, done, fault, of_option, ◌>>=◌,
  List, [], ◌∷◌, ◌++◌, length, get_elem?, set, Bool, true, false, if◌then◌else◌,
}
use zephyrlog.Prelude.Text.{codes, same_name}
use zephyrlog.LogLine.{LogLine}
use zephyrlog.LogLine.Level.{LogLevel, at_least}

module _ (Impl : Type 0) where
  pub record Logger : Type 0 where
    pub name : List ℕ
    pub impl : Impl
    pub level : LogLevel

  pub record Globals : Type 0 where
    pub loggers : List Logger
    pub default_logger : Option ℕ
    pub log_level : LogLevel
    pub registry : List ℕ → Option ℕ

  -- The initialisers of the globals.
  abbrev pub globals : Globals
  globals = record {
    loggers = [];
    default_logger = none;
    log_level = LogLevel.debug;
    registry = λ _. none;
  }

  unfoldable pub put_logger : ℕ → Logger → Globals → Globals
  put_logger id logger g = record g { loggers = set g.loggers id logger }

  -- `Logger::setLevel`, `Logger::level` and `Logger::name`, through a pointer.
  unfoldable pub set_level : ℕ → LogLevel → Globals → Outcome Globals
  set_level id level g = do
    logger ← of_option (get_elem? g.loggers id)
    done (put_logger id (record logger { level = level }) g)

  unfoldable pub level_of : ℕ → Globals → Outcome LogLevel
  level_of id g = do logger ← of_option (get_elem? g.loggers id); done logger.level

  unfoldable pub name_of : ℕ → Globals → Outcome (List ℕ)
  name_of id g = do logger ← of_option (get_elem? g.loggers id); done logger.name

  -- `setLogLevel`
  unfoldable pub set_level_of : Option ℕ → LogLevel → Globals → Outcome Globals
  set_level_of none level g = done g
  set_level_of (some id) level g = set_level id level g

  unfoldable pub set_log_level : LogLevel → Globals → Outcome Globals
  set_log_level level g = set_level_of g.default_logger level (record g { log_level = level })

  -- `getLogLevel`
  unfoldable pub get_log_level : Globals → Outcome LogLevel
  get_log_level g = elim g.default_logger [ none ↦ done g.log_level | some id ↦ level_of id g ]

  -- `std::make_shared<Logger>`, on an `AsyncLogger` that the constructor makes.
  unfoldable pub make_logger : List ℕ → Impl → Globals → ℕ × Globals
  make_logger name impl g =
      let logger : Logger = record { name = name; impl = impl; level = LogLevel.debug } in
      (length g.loggers, record g { loggers = g.loggers ++ logger ∷ [] })

  -- `g_registry[name] = logger`
  unfoldable pub register : List ℕ → ℕ → Globals → Globals
  register name id g = record g {
    registry = λ key. if same_name name key then some id else g.registry key;
  }

  -- `g_registry.erase(it)`
  unfoldable pub unregister : List ℕ → Globals → Globals
  unregister name g = record g {
    registry = λ key. if same_name name key then none else g.registry key;
  }

  -- `createLogger` and `createSafeLogger`
  unfoldable pub create_logger : List ℕ → Impl → Globals → ℕ × Globals
  create_logger name impl g = let (id, g) = make_logger name impl g in (id, register name id g)

  -- `getLogger`
  unfoldable pub get_logger : List ℕ → Globals → Option ℕ
  get_logger name g = g.registry name

  -- `std::atomic_store(&g_defaultLogger, std::move(logger))`
  unfoldable pub store_default : ℕ → Globals → Globals
  store_default id g = record g { default_logger = some id }

  -- `setDefaultLogger`; `none` is a null pointer.
  unfoldable pub set_default_logger : Option ℕ → Globals → Outcome Globals
  unfolding store_default
  set_default_logger none g = done g
  set_default_logger (some id) g = do
    name ← name_of id g
    done (store_default id (register name id g))

  -- `getDefaultLogger`
  unfoldable pub get_default_logger : Globals → Option ℕ
  get_default_logger g = g.default_logger

  -- `initializeQuick` and `initializeSafe`
  unfoldable pub initialize : Impl → Globals → Outcome Globals
  initialize impl g =
      let (id, g) = make_logger (codes "default") impl g in set_default_logger (some id) g

  -- The default logger, cleared if it has this name.
  unfoldable pub clear_default : List ℕ → Globals → Outcome Globals
  clear_default name g = elim g.default_logger [
    | none ↦ done g
    | some id ↦ name_of id g >>= λ own.
        done (if same_name own name then record g { default_logger = none } else g)
  ]

  -- `removeLogger`
  unfoldable pub remove_logger : List ℕ → Globals → Outcome Globals
  remove_logger name g = elim (g.registry name) [
    | none ↦ done g
    | some _ ↦ clear_default name g >>= λ g. done (unregister name g)
  ]

  module _ (add_line : LogLine → Impl → Outcome Impl) where
    -- `Logger::add`, and `LoggerRef::operator==`.
    unfoldable pub add : ℕ → LogLine → Globals → Outcome Globals
    add id logline g = do
      logger ← of_option (get_elem? g.loggers id)
      impl ← add_line logline logger.impl
      done (put_logger id (record logger { impl = impl }) g)

    -- `ZephyrLog::operator==`
    unfoldable pub route_to : Option ℕ → LogLine → Globals → Outcome Globals
    route_to none logline g = done g
    route_to (some id) logline g = add id logline g

    unfoldable pub route : LogLine → Globals → Outcome Globals
    route logline g = route_to g.default_logger logline g

    -- `ZDEBUG`, `ZINFO` and so on, on the line that their right-hand side makes.
    unfoldable pub log_default : LogLevel → Outcome LogLine → Globals → Outcome Globals
    log_default level line g = get_log_level g >>= λ threshold.
        if at_least level threshold then (line >>= λ logline. route logline g) else done g

    -- `ZD(logger)`, `ZI(logger)` and so on.
    unfoldable pub log_named : ℕ → LogLevel → Outcome LogLine → Globals → Outcome Globals
    log_named id level line g = level_of id g >>= λ threshold.
        if at_least level threshold then (line >>= λ logline. add id logline g) else done g
