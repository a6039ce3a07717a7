-- ===== src/Orchestrator/Spares.antt =====
-- application/orchestrator.py: the methods that neither approve a submission nor submit leave
-- both alone, and lead to no earlier state.
use moodle_autotask.Base.{
  String, ◌≡◌, inl, inr, Bool, true, false, Option, none, some, List, [], ◌∷◌, arith, ok,
}
use moodle_autotask.Exec.{◌>>=◌, modify}
use moodle_autotask.Exec.Steps.{IsPreorder, Steps, Steps-modify, Steps-bind}
use moodle_autotask.Lifecycle.Runs.{transition-cases}
use moodle_autotask.Lifecycle.{
  cleaned, cleaning_up, TaskState, discovered, awaiting_start_approval, planning, provisioning,
  running, collecting, review_ready, awaiting_submit_approval, transition, cleaning_up,
}
use moodle_autotask.Models.{
  Digest, ApprovalRecord, LabProvisionRequest, ExecutionRequest, SubmissionIntent, LabHandle,
}
use moodle_autotask.Orchestrator.Steps.{method_rules, Steps-set_state}
use moodle_autotask.Orchestrator.{
  Orchestrator, Ports, PortCall, submitted, approve_start, check_transition, set_state,
  bind_provision, or_refused, provision_and_check, validate_approval, call_readiness,
  call_provision, call_reconcile, call_teardown, call_execute, OrchestratorError,
  provision_unless_replayed, teardown_lab, run_cleanup, execute, reconcile_lab, cleanup,
  begin_cleanup, provision_lab, request_submit_approval, request_start_approval,
}

-- The intents that the submitter was called with, newest first.
abbrev pub submits : List PortCall → List SubmissionIntent
submits [] = []
submits (submitted i _ ∷ log) = i ∷ submits log
submits (_ ∷ log) = submits log

-- The states from which `submitting` can still be reached.
abbrev pub may_submit : TaskState → Bool
may_submit discovered = true
may_submit awaiting_start_approval = true
may_submit planning = true
may_submit provisioning = true
may_submit running = true
may_submit collecting = true
may_submit review_ready = true
may_submit awaiting_submit_approval = true
may_submit _ = false

-- What an operation that does not approve and does not submit leaves alone.
pub record Spares (o o' : Orchestrator) : Type 0 where
  pub task : o'.task_id ≡ o.task_id
  pub revision : o'.workflow_revision ≡ o.workflow_revision
  pub approval : o'.submit_approval ≡ o.submit_approval
  pub intent : o'.approved_submission_intent ≡ o.approved_submission_intent
  pub calls : submits o'.log ≡ submits o.log
  pub onward : may_submit o'.state ≡ true → may_submit o.state ≡ true

Spares-preorder : IsPreorder Spares
Spares-preorder = record { stays = λ s. ground arith; goes_on = λ s t u h k. ground arith }

-- No transition leads from a state past the boundary to one before it.
transition_onward :
    (s t : TaskState) {u : TaskState}
    → transition s t ≡ ok u
    → may_submit u ≡ true
    → may_submit s ≡ true
unfolding transition
transition_onward s t h m = ground arith

pub set_state-Spares : (t : TaskState) → Steps Spares (set_state t)
set_state-Spares t =
    Steps-set_state t Spares-preorder (λ o u e. ground (arith, transition_onward o.state t e))

ruleset spares_rules = (method_rules, Spares-preorder, set_state-Spares)

bind_provision-Spares :
    (s : TaskState) (r : LabProvisionRequest) (k : String) → Steps Spares (bind_provision s r k)
unfolding bind_provision
bind_provision-Spares planning r k =
    Steps-bind _ _ Spares-preorder (Steps-modify _ (λ o. ground arith)) (λ _. search spares_rules)
bind_provision-Spares _ r k = search spares_rules depth 8

pub approve_start-Spares : (a : ApprovalRecord) (d : Digest) → Steps Spares (approve_start a d)
unfolding approve_start check_transition or_refused validate_approval ◌>>=◌
approve_start-Spares a d = record {
  at = λ o. elim (transition-cases o.state planning) [
    | inl e ↦ ground (arith, transition_onward o.state planning e)
    | inr e ↦ ground arith
  ];
}

pub request_start_approval-Spares : Steps Spares request_start_approval
unfolding request_start_approval
request_start_approval-Spares = set_state-Spares awaiting_start_approval

pub request_submit_approval-Spares : Steps Spares request_submit_approval
unfolding request_submit_approval
request_submit_approval-Spares = set_state-Spares awaiting_submit_approval

module _ (ports : Ports) where
  call_provision-Spares :
      (r : LabProvisionRequest) (k : String) → Steps Spares (call_provision ports r k)
  unfolding call_provision
  call_provision-Spares r k = record { at = λ o. ground arith }

  call_readiness-Spares : (h : LabHandle) → Steps Spares (call_readiness ports h)
  unfolding call_readiness
  call_readiness-Spares h = record { at = λ o. ground arith }

  call_reconcile-Spares :
      (r : LabProvisionRequest) (k : String) → Steps Spares (call_reconcile ports r k)
  unfolding call_reconcile
  call_reconcile-Spares r k = record { at = λ o. ground arith }

  call_teardown-Spares : (h : LabHandle) (k : String) → Steps Spares (call_teardown ports h k)
  unfolding call_teardown
  call_teardown-Spares h k = record { at = λ o. ground arith }

  call_execute-Spares :
      (r : ExecutionRequest) (h : Option LabHandle) → Steps Spares (call_execute ports r h)
  unfolding call_execute
  call_execute-Spares r h = record { at = λ o. ground arith }

  -- `lab_handle`, `provision_request` and the cleanup key are none of what `Spares` speaks of.
  lab_handle-Spares :
      (h : Option LabHandle)
      → Steps {E = OrchestratorError} Spares
          (modify (λ (o : Orchestrator). record o { lab_handle = h }))
  lab_handle-Spares h = Steps-modify _ (λ o. ground arith)

  ruleset calls_spare = (
    spares_rules, call_provision-Spares, call_readiness-Spares, call_reconcile-Spares,
    call_teardown-Spares, call_execute-Spares, lab_handle-Spares,
  )

  provision_and_check-Spares :
      (r : LabProvisionRequest) (k : String) → Steps Spares (provision_and_check ports r k)
  unfolding provision_and_check
  provision_and_check-Spares r k = search calls_spare depth 9

  provision_unless_replayed-Spares :
      (r : LabProvisionRequest) (k : String) (h : Option LabHandle)
      → Steps Spares (provision_unless_replayed ports r k h)
  unfolding provision_unless_replayed
  provision_unless_replayed-Spares r k none = provision_and_check-Spares r k
  provision_unless_replayed-Spares r k (some h) = search spares_rules

  pub provision_lab-Spares :
      (r : LabProvisionRequest) (k : String) → Steps Spares (provision_lab ports r k)
  unfolding provision_lab
  provision_lab-Spares r k =
      search (spares_rules, bind_provision-Spares, provision_unless_replayed-Spares) depth 9

  pub execute-Spares : (r : ExecutionRequest) → Steps Spares (execute ports r)
  unfolding execute
  execute-Spares r = search calls_spare depth 14

  begin_cleanup-Spares : (s : TaskState) (k : String) → Steps Spares (begin_cleanup ports s k)
  unfolding begin_cleanup
  begin_cleanup-Spares cleaning_up k = search spares_rules depth 8
  begin_cleanup-Spares _ k =
      Steps-bind _ _ Spares-preorder (set_state-Spares cleaning_up)
        (λ _. Steps-modify _ (λ o. ground arith))

  reconcile_lab-Spares :
      (h : Option LabHandle) (r : Option LabProvisionRequest)
      → Steps Spares (reconcile_lab ports h r)
  unfolding reconcile_lab
  reconcile_lab-Spares none (some r) = search calls_spare depth 8
  reconcile_lab-Spares _ _ = search spares_rules

  teardown_lab-Spares : (h : Option LabHandle) (k : String) → Steps Spares (teardown_lab ports h k)
  unfolding teardown_lab
  teardown_lab-Spares none k = search spares_rules
  teardown_lab-Spares (some h) k = call_teardown-Spares h k

  run_cleanup-Spares : (s : TaskState) (k : String) → Steps Spares (run_cleanup ports s k)
  unfolding run_cleanup
  run_cleanup-Spares cleaned k = search spares_rules depth 8
  run_cleanup-Spares _ k =
      search (spares_rules, begin_cleanup-Spares, reconcile_lab-Spares, teardown_lab-Spares) depth 9

  pub cleanup-Spares : (k : String) → Steps Spares (cleanup ports k)
  unfolding cleanup
  cleanup-Spares k = record { at = λ o. (run_cleanup-Spares o.state k).at o }
