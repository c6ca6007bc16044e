-- ===== src/Run/Tests.antt =====
-- The theorems on runs at concrete histories.
use payments_hub.Base.{◌≤◌, ◌≡◌, refl, List, [], ◌∷◌, length}
use payments_hub.Base.Result.{ok}
use payments_hub.Run.{Status, approved, executing, transition, Run, new, apply_transition}
use payments_hub.Run.Lifecycle.{apply_all, transitions_bounded, is_started, started_needs_approval}

abbrev day_run : Run
day_run = new 3 1774483200

abbrev executed : List Status
executed = approved ∷ executing ∷ []

abbrev executing_run : Run
executing_run = record day_run { status = executing }

executed_history : apply_all day_run executed ≡ ok executing_run
unfolding apply_all apply_transition new transition
executed_history = refl

transitions_bounded_example : length executed ≤ 4
transitions_bounded_example = transitions_bounded day_run executed executing_run executed_history

started_needs_approval_example : (rest : List Status) × (executed ≡ approved ∷ rest)
unfolding new is_started
started_needs_approval_example =
    started_needs_approval day_run executed executing_run refl executed_history refl
