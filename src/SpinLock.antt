-- ===== src/SpinLock.antt =====
-- `SpinLock` (include/zephyrlog/spinlock.h): a lock on an `std::atomic_flag`, taken by its
-- constructor and given back by its destructor. The flags of a program are a family of Booleans.
use zephyrlog.Prelude.{ℕ, Bool, true, false, ◌==◌, if◌then◌else◌}

abbrev pub Flags : Type 0
Flags = ℕ → Bool

abbrev pub update_flag : ℕ → Bool → Flags → Flags
update_flag i b flags j = if j == i then b else flags j

-- `m_flag.test_and_set()`: the old value, and the flags with this one set. The constructor repeats
-- it while the old value is true.
unfoldable pub test_and_set : ℕ → Flags → Bool × Flags
test_and_set i flags = (flags i, update_flag i true flags)

-- `m_flag.clear()`
unfoldable pub clear : ℕ → Flags → Flags
clear i flags = update_flag i false flags
