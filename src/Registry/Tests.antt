-- ===== src/Registry/Tests.antt =====
-- The theorems on the registry at concrete inputs. A logger's `AsyncLogger` is the list of its lines.
use zephyrlog.Prelude.{
  ℕ, ◌≡◌, ◌≢◌, ◌⊎◌, ◌++◌, none, some, Outcome, done, List, [], ◌∷◌, ◌≤◌, ◌<◌, set, get_elem?, arith,
}
use zephyrlog.Prelude.Text.{codes, same_name}
use zephyrlog.LogLine.{LogLine, fresh}
use zephyrlog.LogLine.Level.{LogLevel, level_byte}
use zephyrlog.Registry.{
  Logger, store_default, Globals, globals, make_logger, register, create_logger, get_logger,
  initialize, get_default_logger, remove_logger, set_log_level, get_log_level, log_default,
  log_named,
}
use zephyrlog.Registry.Valid.{
  IsValid, Points, globals-IsValid, create_logger-registry, initialize-registry,
}
use zephyrlog.Registry.Remove.{remove_logger-registry, remove_logger-default}
use zephyrlog.Registry.Race.{store_default-remove_logger}
use zephyrlog.Registry.Levels.{
  get_log_level-set_log_level, log_default-set_log_level, log_named-set_log_level,
  initialize-resets_level,
}

abbrev Lines : Type 0
Lines = List LogLine

abbrev add_line : LogLine → Lines → Outcome Lines
add_line logline lines = done (lines ++ logline ∷ [])

-- A logger "net", and then the default logger.
abbrev named : Globals Lines
named = (create_logger Lines (codes "net") [] (globals Lines)).1

named-IsValid : IsValid Lines named
named-IsValid =
    (create_logger-registry Lines (codes "net") [] [] (globals Lines) (globals-IsValid Lines)).0

both :
    (g' : Globals Lines) × (initialize Lines [] named ≡ done g')
    × IsValid Lines g'
    × (get_default_logger Lines g' ≡ some 1)
    × (get_logger Lines (codes "net") g' ≡ some 0)
unfolding create_logger make_logger register get_logger same_name
both = initialize-registry Lines (codes "net") [] named named-IsValid

is_default : both.0.default_logger ≡ some 1
unfolding get_default_logger
is_default = both.3

create_logger-registry_example :
    let (id, g') = create_logger Lines (codes "net") [] (globals Lines) in
    IsValid Lines g'
    × Points Lines g' (codes "net") id
    × (get_logger Lines (codes "net") g' ≡ some id)
unfolding same_name
create_logger-registry_example =
    create_logger-registry Lines (codes "net") (codes "net") [] (globals Lines)
      (globals-IsValid Lines)

initialize-registry_example :
    (g' : Globals Lines) × (initialize Lines [] named ≡ done g')
    × IsValid Lines g'
    × (get_default_logger Lines g' ≡ some 1)
    × (get_logger Lines (codes "net") g' ≡ some 0)
unfolding create_logger make_logger register get_logger same_name
initialize-registry_example = initialize-registry Lines (codes "net") [] named named-IsValid

remove_logger-registry_example :
    (g' : Globals Lines) × (remove_logger Lines (codes "net") both.0 ≡ done g')
    × IsValid Lines g'
    × (get_logger Lines (codes "net") g' ≡ none)
unfolding same_name
remove_logger-registry_example =
    remove_logger-registry Lines (codes "net") (codes "net") both.0 both.2

default_points : (own : List ℕ) × Points Lines both.0 own 1
default_points = let (own, _, p, _) = both.2.has_default 1 is_default in (own, p)

remove_logger-default_example :
    (g' : Globals Lines) × (remove_logger Lines (codes "net") both.0 ≡ done g')
    × (((default_points.0 ≡ codes "net") × (get_default_logger Lines g' ≡ none))
        ⊎ ((default_points.0 ≢ codes "net") × (get_default_logger Lines g' ≡ some 1)))
remove_logger-default_example =
    remove_logger-default Lines (codes "net") default_points.0 1 both.0 both.2 is_default
      default_points.1

get_log_level-set_log_level_example :
    (g' : Globals Lines) × (set_log_level Lines LogLevel.warn both.0 ≡ done g')
    × (get_log_level Lines g' ≡ done LogLevel.warn)
get_log_level-set_log_level_example = get_log_level-set_log_level Lines LogLevel.warn both.0 both.2

-- The logger that the default logger points to.
default_logger : (logger : Logger Lines) × (get_elem? both.0.loggers 1 ≡ some logger)
default_logger = let (_, (logger, e, _)) = default_points in (logger, e)

log_default-set_log_level_example :
    (g' : Globals Lines) × (set_log_level Lines LogLevel.warn both.0 ≡ done g')
    × (((2 ≤ 2)
          × (log_default Lines add_line LogLevel.warn (done (fresh [])) g'
              ≡ done (record g' {
                loggers = set both.0.loggers 1 (record default_logger.0 {
                  impl = default_logger.0.impl ++ fresh [] ∷ [];
                  level = LogLevel.warn;
                });
              })))
        ⊎ ((2 < 2) × (log_default Lines add_line LogLevel.warn (done (fresh [])) g' ≡ done g')))
log_default-set_log_level_example =
    log_default-set_log_level Lines add_line LogLevel.warn LogLevel.warn (done (fresh [])) 1 both.0
      default_logger.0 is_default default_logger.1

-- The logger "net".
net_logger : (logger : Logger Lines) × (get_elem? both.0.loggers 0 ≡ some logger)
unfolding get_logger
net_logger = let (logger, e, _) = both.2.registered (codes "net") 0 both.4 in (logger, e)

log_named-set_log_level_example :
    (g' : Globals Lines) × (set_log_level Lines LogLevel.error both.0 ≡ done g')
    × (get_elem? g'.loggers 0 ≡ some net_logger.0)
    × (((level_byte net_logger.0.level ≤ 1)
          × (log_named Lines add_line 0 LogLevel.info (done (fresh [])) g'
              ≡ done (record g' {
                loggers =
                    set g'.loggers 0
                      (record net_logger.0 { impl = net_logger.0.impl ++ fresh [] ∷ [] });
              })))
        ⊎ ((1 < level_byte net_logger.0.level)
            × (log_named Lines add_line 0 LogLevel.info (done (fresh [])) g' ≡ done g')))
log_named-set_log_level_example =
    log_named-set_log_level Lines add_line LogLevel.error LogLevel.info (done (fresh [])) 1 0 both.0
      default_logger.0 net_logger.0 is_default default_logger.1 net_logger.1 (λ e. ground arith)

initialize-resets_level_example :
    (g' : Globals Lines) × (initialize Lines [] named ≡ done g')
    × (get_log_level Lines g' ≡ done LogLevel.debug)
initialize-resets_level_example = initialize-resets_level Lines [] named

store_default-remove_logger_example :
    (g' : Globals Lines) × (remove_logger Lines default_points.0
        (register Lines default_points.0 1 both.0)
      ≡ done g')
    × (get_default_logger Lines (store_default Lines 1 g') ≡ some 1)
    × (get_logger Lines default_points.0 (store_default Lines 1 g') ≡ none)
    × (remove_logger Lines default_points.0 (store_default Lines 1 g')
        ≡ done (store_default Lines 1 g'))
store_default-remove_logger_example =
    store_default-remove_logger Lines default_points.0 1 both.0 both.2 default_points.1
