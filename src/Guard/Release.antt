-- ===== src/Guard/Release.antt =====
-- src/utils/mutex_raii.cpp: a scope with a guard gives the mutex back.
use real_time_data_transfer.Base.{
  some_not_none, ℕ, sym, ◌≢◌, true, false, Option, none, some, List, [], ◌∷◌,
}
use real_time_data_transfer.Guard.{
  MutexRaii, Mutex, mutex_raii, GuardCall, scope, locks_block, locks_non_block, unlocks_guard,
}

module _ (thread : ℕ) where
  -- The guard is locked exactly when its thread holds the mutex.
  data Matches : MutexRaii × Mutex → Type 0 where
    holds : Matches (record { is_locked = true }, some thread)
    holds_not : {m : Mutex} → m ≢ some thread → Matches (record { is_locked = false }, m)

  -- A scope ends with the mutex in other hands or free, or blocks.
  pub data IsReleased : Option Mutex → Type 0 where
    blocked : IsReleased none
    released : {m : Mutex} → m ≢ some thread → IsReleased (some m)

  scope-Matches :
      (cs : List GuardCall) (s : MutexRaii × Mutex) → Matches s → IsReleased (scope thread cs s)
  unfolding scope
  scope-Matches [] s holds = released (λ e. some_not_none (sym e))
  scope-Matches [] s (holds_not n) = released n
  scope-Matches (locks_block ∷ rest) s holds = blocked
  scope-Matches (locks_block ∷ rest) s (holds_not {m = none} n) = scope-Matches rest _ holds
  scope-Matches (locks_block ∷ rest) s (holds_not {m = some k} n) = blocked
  scope-Matches (locks_non_block ∷ rest) s holds = scope-Matches rest _ holds
  scope-Matches (locks_non_block ∷ rest) s (holds_not {m = none} n) = scope-Matches rest _ holds
  scope-Matches (locks_non_block ∷ rest) s (holds_not {m = some k} n) =
      scope-Matches rest _ (holds_not n)
  scope-Matches (unlocks_guard ∷ rest) s holds =
      scope-Matches rest _ (holds_not (λ e. some_not_none (sym e)))
  scope-Matches (unlocks_guard ∷ rest) s (holds_not n) = scope-Matches rest _ (holds_not n)

  -- A scope that constructs a guard of a mutex that its thread does not hold, and makes any calls
  -- of lock_block, lock_non_block and unlock on it, ends with a mutex that the thread does not
  -- hold, unless one of the calls blocks.
  pub scope-IsReleased :
      (cs : List GuardCall) (m : Mutex)
      → m ≢ some thread
      → IsReleased (scope thread cs (mutex_raii, m))
  scope-IsReleased cs m n = scope-Matches cs (mutex_raii, m) (holds_not n)
