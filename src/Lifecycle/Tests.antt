-- ===== src/Lifecycle/Tests.antt =====
-- Runs of domain/state_machine.py at concrete states.
use mathlib.Core.List.{Memᴰ}
use moodle_autotask.Base.{◌+◌, ◌≤◌, ◌≡◌, refl, false, List, [], ◌∷◌, length, ok, err}
use moodle_autotask.Lifecycle.{
  TaskState, discovered, awaiting_start_approval, planning, provisioning, running, collecting,
  review_ready, awaiting_submit_approval, submitting, completed, cleaned, transition,
  invalid_transition,
}
use moodle_autotask.Lifecycle.Runs.{follow, height, follow_bounded, can_be_cleaned, way_out}
use moodle_autotask.Lifecycle.Gates.{approvals_not_bypassed, before_start}

-- The whole life of a task that is approved twice.
abbrev full_life : List TaskState
full_life =
    awaiting_start_approval ∷ planning ∷ provisioning ∷ running ∷ collecting ∷ review_ready
    ∷ awaiting_submit_approval ∷ submitting ∷ completed ∷ []

full_life_runs : follow discovered full_life ≡ ok completed
unfolding follow transition
full_life_runs = refl

skipping_refused : transition planning running ≡ err (invalid_transition planning running)
unfolding transition
skipping_refused = refl

follow_bounded_example : length full_life + height completed ≤ height discovered
follow_bounded_example = follow_bounded discovered full_life full_life_runs

can_be_cleaned_example :
    (follow running (way_out running) ≡ ok cleaned) × (length (way_out running) ≤ 3)
can_be_cleaned_example = can_be_cleaned running

approvals_not_bypassed_example :
    (before_start completed ≡ false → Memᴰ awaiting_start_approval full_life)
    × (completed ≡ completed → Memᴰ awaiting_submit_approval full_life)
approvals_not_bypassed_example = approvals_not_bypassed full_life full_life_runs
