-- ===== src/Guard.antt =====
-- src/utils/mutex_raii.cpp and includes/atomic_val_raii.h: the guard of a mutex, and that of an
-- atomic variable.
pub mod Release
use real_time_data_transfer.Base.{
  if◌then◌else◌, ℕ, Bool, true, false, not, Option, none, some, List, [], ◌∷◌,
}

-- The guard's own field; the mutex is `none` when free, and otherwise the thread that holds it.
pub record MutexRaii : Type 0 where
  pub is_locked : Bool

abbrev pub Mutex : Type 0
Mutex = Option ℕ

-- The constructor.
abbrev pub mutex_raii : MutexRaii
mutex_raii = record { is_locked = false }

-- `none` when pthread_mutex_lock blocks.
unfoldable pub lock_block : ℕ → MutexRaii → Mutex → Option (MutexRaii × Mutex)
lock_block thread g none = some (record { is_locked = true }, some thread)
lock_block thread g (some holder) = none

unfoldable pub lock_non_block : ℕ → MutexRaii → Mutex → Bool × MutexRaii × Mutex
lock_non_block thread g none = (true, record { is_locked = true }, some thread)
lock_non_block thread g (some holder) = (false, g, some holder)

unfoldable pub unlock : MutexRaii → Mutex → Bool × MutexRaii × Mutex
unlock g m = if not g.is_locked then (false, g, m) else (true, record { is_locked = false }, none)

-- The destructor.
abbrev pub destroy : MutexRaii → Mutex → Mutex
destroy g m = (unlock g m).2

-- The destructor of AtomicValRAII<T>, whose end value the variable takes.
abbrev pub destroy_atomic {ℓ} : {T : Type ℓ} → T → T → T
destroy_atomic end_value value = end_value

-- What the owner of a guard calls.
pub data GuardCall : Type 0 where
  locks_block locks_non_block unlocks_guard : GuardCall

-- One call by `thread`.
unfoldable pub call : ℕ → GuardCall → MutexRaii × Mutex → Option (MutexRaii × Mutex)
unfolding lock_block lock_non_block unlock
call thread locks_block (g, m) = lock_block thread g m
call thread locks_non_block (g, m) =
    some ((lock_non_block thread g m).1, (lock_non_block thread g m).2)
call thread unlocks_guard (g, m) = some ((unlock g m).1, (unlock g m).2)

-- The calls of a scope, and the destructor at its end; `none` when one of them blocks.
unfoldable pub scope : ℕ → List GuardCall → MutexRaii × Mutex → Option Mutex
unfolding call
scope thread [] (g, m) = some (destroy g m)
scope thread (c ∷ rest) s = elim (call thread c s) [ none ↦ none | some s' ↦ scope thread rest s' ]
