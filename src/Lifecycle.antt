-- ===== src/Lifecycle.antt =====
-- src/moodle_autotask/domain/state_machine.py: the states of a task, and the transitions between
-- them. An exception is the `err` of a `Result`.
pub mod Runs
pub mod Gates
mod Tests
use moodle_autotask.Base.{Bool, List, [], ◌∷◌, any, holds, if◌then◌else◌, Result, ok, err}

pub data TaskState : Type 0 where
  discovered awaiting_start_approval planning provisioning running collecting : TaskState
  review_ready awaiting_submit_approval submitting completed denied cancelled : TaskState
  failed cleaning_up cleaned : TaskState

unfoldable pub TaskState-discrete : Discrete TaskState
TaskState-discrete = hlevel

-- `InvalidTaskTransitionError`, with the two states that its message names.
pub data TransitionError : Type 0 where
  invalid_transition : TaskState → TaskState → TransitionError

-- `_TRANSITIONS`
unfoldable pub transitions : TaskState → List TaskState
transitions discovered = awaiting_start_approval ∷ cancelled ∷ []
transitions awaiting_start_approval = planning ∷ denied ∷ cancelled ∷ []
transitions planning = provisioning ∷ failed ∷ cancelled ∷ []
transitions provisioning = running ∷ failed ∷ cleaning_up ∷ []
transitions running = collecting ∷ failed ∷ cleaning_up ∷ []
transitions collecting = review_ready ∷ failed ∷ cleaning_up ∷ []
transitions review_ready = awaiting_submit_approval ∷ cancelled ∷ []
transitions awaiting_submit_approval = submitting ∷ denied ∷ cancelled ∷ []
transitions submitting = completed ∷ failed ∷ cleaning_up ∷ []
transitions completed = cleaning_up ∷ []
transitions denied = cleaning_up ∷ []
transitions cancelled = cleaning_up ∷ []
transitions failed = cleaning_up ∷ []
transitions cleaning_up = cleaned ∷ []
transitions cleaned = []

unfoldable pub transition : TaskState → TaskState → Result TransitionError TaskState
unfolding transitions TaskState-discrete
transition current target =
    if any (λ s. holds (TaskState-discrete target s)) (transitions current)
    then ok target
    else err (invalid_transition current target)
