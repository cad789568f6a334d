-- ===== src/LogLine/Level.antt =====
-- `enum class LogLevel : uint8_t` and `toString` (include/zephyrlog/logline.h, src/logline.cpp).
use zephyrlog.Prelude.{ℕ, ◌≡◌, refl, List, Bool, leb, ◌==◌, if◌then◌else◌}
use zephyrlog.Prelude.Text.{codes}

-- `other` is a value of the underlying type that no enumerator names.
pub data LogLevel : Type 0 where
  debug info warn error critical : LogLevel
  other : ℕ → LogLevel

-- The value as a `uint8_t`.
abbrev pub level_byte : LogLevel → ℕ
level_byte debug = 0
level_byte info = 1
level_byte warn = 2
level_byte error = 3
level_byte critical = 4
level_byte (other n) = n

-- A byte read as a `LogLevel`.
abbrev pub level_of_byte : ℕ → LogLevel
level_of_byte n =
    if n == 0
    then debug
    else if n == 1
    then info
    else if n == 2
    then warn
    else if n == 3
    then error
    else if n == 4
    then critical
    else other n

abbrev pub IsEnumerator : LogLevel → Type 0
IsEnumerator (other n) = ⊥
IsEnumerator _ = Unit

pub level_of_byte-level_byte : (l : LogLevel) → IsEnumerator l → level_of_byte (level_byte l) ≡ l
level_of_byte-level_byte (other n) h = absurd h
level_of_byte-level_byte _ h = refl

-- `LEVEL >= threshold`
abbrev pub at_least : LogLevel → LogLevel → Bool
at_least l threshold = leb (level_byte threshold) (level_byte l)

unfoldable pub to_string : LogLevel → List ℕ
to_string debug = codes "DEBUG"
to_string info = codes "INFO "
to_string warn = codes "WARN "
to_string error = codes "ERROR"
to_string critical = codes "CRIT "
to_string (other n) = codes "UNKN "
