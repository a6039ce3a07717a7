-- ===== src/Orchestrator/Steps.antt =====
-- application/orchestrator.py: the rules of Exec.Steps for the parts that the methods share.
use moodle_autotask.Base.{◌≡◌, refl, Option, none, some, Result, ok, err}
use moodle_autotask.Exec.{◌>>=◌, continue, modify}
use moodle_autotask.Exec.Steps.{IsPreorder, Steps, steps_rules, Steps-raise, Steps-pure}
use moodle_autotask.Lifecycle.{TaskState, TransitionError, transition}
use moodle_autotask.Models.{ApprovalCheckpoint, Digest, ApprovalRecord, start_work}
use moodle_autotask.Orchestrator.{
  Orchestrator, set_state, or_raise, validate_approval, require_start_approval, check_transition,
  or_refused, OrchestratorError, required, approval_invalid,
}

module _ {R : Orchestrator → Orchestrator → Type 0} where
  pub Steps-check_transition : (t : TaskState) → IsPreorder R → Steps R (check_transition t)
  unfolding check_transition
  Steps-check_transition t p = record { at = p.stays }

  pub Steps-set_state :
      (t : TaskState)
      → IsPreorder R
      → ((o : Orchestrator) (u : TaskState)
          → transition o.state t ≡ ok u
          → R o (record o { state = u }))
      → Steps R (set_state t)
  unfolding set_state check_transition or_refused ◌>>=◌
  Steps-set_state t p h = record { at = λ o. go o (transition o.state t) refl }
    where
      go :
          (o : Orchestrator) (r : Result TransitionError TaskState)
          → transition o.state t ≡ r
          → R o (continue (or_refused r) (λ s. modify (λ o. record o { state = s })) o).1
      go o (ok u) e = h o u e
      go o (err x) e = p.stays o

  pub Steps-validate_approval :
      (a : ApprovalRecord) (c : ApprovalCheckpoint) (d : Digest)
      → IsPreorder R
      → Steps R (validate_approval a c d)
  unfolding validate_approval
  Steps-validate_approval a c d p = search steps_rules

  pub Steps-require_start_approval :
      (d : Digest) → IsPreorder R → Steps R (require_start_approval d)
  unfolding require_start_approval required
  Steps-require_start_approval d p = record { at = λ o. go o o.start_approval }
    where
      go : (o : Orchestrator) (a : Option ApprovalRecord) → R o (required a d o).1
      go o none = (Steps-raise approval_invalid p).at o
      go o (some a) = (Steps-validate_approval a start_work d p).at o

  pub Steps-or_raise :
      {A : Type 0} (a : Option A) (e : OrchestratorError) → IsPreorder R → Steps R (or_raise a e)
  unfolding or_raise
  Steps-or_raise none e p = Steps-raise e p
  Steps-or_raise (some a) e p = Steps-pure a p

pub ruleset method_rules = (
  steps_rules, Steps-check_transition, Steps-validate_approval, Steps-require_start_approval,
  Steps-or_raise,
)
