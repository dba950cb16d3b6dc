-- ===== src/Tests/Guards.antt =====
-- src/utils/mutex_raii.cpp: a scope on which the theorem about guards is applied.
use real_time_data_transfer.Base.{some_not_none, ◌≡◌, refl, sym, none, some, List, [], ◌∷◌}
use real_time_data_transfer.Guard.{
  mutex_raii, GuardCall, scope, locks_block, locks_non_block, unlocks_guard,
}
use real_time_data_transfer.Guard.Release.{IsReleased, scope-IsReleased}

abbrev calls : List GuardCall
calls = locks_non_block ∷ unlocks_guard ∷ locks_block ∷ []

scope_runs : scope 1 calls (mutex_raii, none) ≡ some none
unfolding scope
scope_runs = refl

scope-IsReleased_example : IsReleased 1 (scope 1 calls (mutex_raii, none))
scope-IsReleased_example = scope-IsReleased 1 calls none (λ e. some_not_none (sym e))
