-- ===== src/Orchestrator.antt =====
-- src/moodle_autotask/application/orchestrator.py: the methods of `TaskOrchestrator`. Each is an
-- action that returns or raises and leaves the object changed as far as it got. The three ports
-- are the section's parameter; see Ports.
mod State
mod Steps
mod Checks
pub mod Runs
pub mod Spares
pub mod Submission
pub mod Authorized
mod Tests
pub use State.*
use moodle_autotask.Base.{
  String, Bool, true, false, not, ◌||◌, Option, none, some, ◌∷◌, if◌then◌else◌, holds,
  String-discrete, Result, ok, err,
}
use moodle_autotask.Exec.{pure, raise, gets, modify, raise_if, ◌>>=◌, ◌>>◌}
use moodle_autotask.Lifecycle.{
  TaskState, TaskState-discrete, planning, provisioning, running, failed, cleaning_up, cleaned,
  awaiting_start_approval, awaiting_submit_approval, collecting, review_ready, submitting,
  completed, TransitionError, transition,
}
use moodle_autotask.Models.{
  TaskId, TaskId-discrete, WorkflowRevision, WorkflowRevision-discrete, Digest, Digest-discrete,
  LabHandle, ApprovalCheckpoint, ApprovalCheckpoint-discrete, start_work, submit, ApprovalRecord,
  LabProvisionRequest, LabProvisionRequest-discrete, ExecutionRequest, ExecutionResult,
  SubmissionIntent, SubmissionIntent-discrete,
}

pub or_refused : Result TransitionError TaskState → Result OrchestratorError TaskState
or_refused (ok s) = ok s
or_refused (err e) = err (refused e)

-- `transition(self.state, target)`, which may raise and changes nothing
pub check_transition : TaskState → Action TaskState
check_transition target o = (or_refused (transition o.state target), o)

-- `self.state = transition(self.state, target)`
pub set_state : TaskState → Action Unit
set_state target = do s ← check_transition target; modify (λ o. record o { state = s })

-- `task_id != self.task_id or workflow_revision != self.workflow_revision`
abbrev pub is_foreign : Orchestrator → TaskId → WorkflowRevision → Bool
is_foreign o t r =
    not (holds (TaskId-discrete t o.task_id))
    || not (holds (WorkflowRevision-discrete r o.workflow_revision))

-- The test of `_validate_approval`.
abbrev pub is_mismatch : Orchestrator → ApprovalRecord → ApprovalCheckpoint → Digest → Bool
is_mismatch o a c d =
    not a.approved
    || not (holds (ApprovalCheckpoint-discrete a.checkpoint c))
    || not (holds (TaskId-discrete a.task_id o.task_id))
    || not (holds (WorkflowRevision-discrete a.workflow_revision o.workflow_revision))
    || not (holds (Digest-discrete a.digest d))

-- `_validate_approval`
pub validate_approval : ApprovalRecord → ApprovalCheckpoint → Digest → Action Unit
validate_approval a c d = do
  mismatch ← gets (λ o. is_mismatch o a c d)
  raise_if mismatch approval_invalid

-- `_require_start_approval`, given the approval that is stored
pub required : Option ApprovalRecord → Digest → Action Unit
required none d = raise approval_invalid
required (some a) d = validate_approval a start_work d

pub require_start_approval : Digest → Action Unit
require_start_approval d o = required o.start_approval d o

pub request_start_approval : Action Unit
request_start_approval = set_state awaiting_start_approval

pub approve_start : ApprovalRecord → Digest → Action Unit
approve_start approval expected_digest = do
  next_state ← check_transition planning
  validate_approval approval start_work expected_digest
  modify (λ o. record o { start_approval = some approval; state = next_state })

-- `request != self._provision_request or idempotency_key != self._provision_idempotency_key`
abbrev is_conflict : Orchestrator → LabProvisionRequest → String → Bool
is_conflict o request key =
    not (same LabProvisionRequest-discrete request o.provision_request)
    || not (same String-discrete key o.provision_idempotency_key)

pub or_raise : {A : Type 0} → Option A → OrchestratorError → Action A
or_raise none e = raise e
or_raise (some a) _ = pure a

-- The branches of `provision_lab` on the state; the handle is that of a replay that returns early.
pub bind_provision : TaskState → LabProvisionRequest → String → Action (Option LabHandle)
bind_provision planning request key = do
  modify (λ o. record o { provision_request = some request; provision_idempotency_key = some key })
  set_state provisioning
  pure none
bind_provision provisioning request key = do
  raise_if (← gets (λ o. is_conflict o request key)) idempotency_conflict
  pure none
bind_provision running request key = do
  raise_if (← gets (λ o. is_conflict o request key)) idempotency_conflict
  handle ← or_raise (← gets (λ o. o.lab_handle)) no_retained_handle
  pure (some handle)
bind_provision _ request key = do check_transition provisioning; pure none

-- `key != self._cleanup_idempotency_key`
abbrev is_other_key : Orchestrator → String → Bool
is_other_key o key = not (same String-discrete key o.cleanup_idempotency_key)

pub or_port_failed : {A : Type 0} → Result PortError A → Result OrchestratorError A
or_port_failed (ok a) = ok a
or_port_failed (err e) = err (port_failed e)

abbrev is_ready : LabReadiness → Bool
is_ready LabReadiness.ready = true
is_ready _ = false

-- The methods that call no port.
pub request_submit_approval : Action Unit
request_submit_approval = set_state awaiting_submit_approval

pub approve_submission : ApprovalRecord → SubmissionIntent → Action Unit
approve_submission approval intent = do
  check_transition submitting
  validate_approval approval submit intent.submission_digest
  raise_if (← gets (λ o. is_foreign o intent.task_id intent.workflow_revision)) approval_invalid
  modify
      (λ o. record o { submit_approval = some approval; approved_submission_intent = some intent })

module _ (ports : Ports) where
  -- The calls of the ports, each recorded with its outcome.
  pub call_provision : LabProvisionRequest → String → Action LabHandle
  call_provision request key o =
      let r = ports.provision o.log request key in
      (or_port_failed r, record o { log = provisioned request key r ∷ o.log })

  pub call_reconcile : LabProvisionRequest → String → Action (Option LabHandle)
  call_reconcile request key o =
      let r = ports.reconcile o.log request key in
      (or_port_failed r, record o { log = reconciled request key r ∷ o.log })

  pub call_readiness : LabHandle → Action LabReadiness
  call_readiness handle o =
      let r = ports.readiness o.log handle in
      (or_port_failed r, record o { log = asked_readiness handle r ∷ o.log })

  pub call_teardown : LabHandle → String → Action Unit
  call_teardown handle key o =
      let r = ports.teardown o.log handle key in
      (or_port_failed r, record o { log = torn_down handle key r ∷ o.log })

  pub call_execute : ExecutionRequest → Option LabHandle → Action ExecutionResult
  call_execute request handle o =
      let r = ports.execute o.log request handle in
      (or_port_failed r, record o { log = executed request handle r ∷ o.log })

  pub call_submit : SubmissionIntent → Action SubmissionReceipt
  call_submit intent o =
      let r = ports.submit o.log intent in
      (or_port_failed r, record o { log = submitted intent r ∷ o.log })

  -- The end of `provision_lab`, after its branches on the state.
  pub provision_and_check : LabProvisionRequest → String → Action LabHandle
  provision_and_check request key = do
    handle ← call_provision request key
    modify (λ o. record o { lab_handle = some handle })
    readiness ← call_readiness handle
    if is_ready readiness
        then set_state running >> pure handle
        else set_state failed >> raise lab_not_ready

  pub provision_unless_replayed : LabProvisionRequest → String → Option LabHandle → Action LabHandle
  provision_unless_replayed request key none = provision_and_check request key
  provision_unless_replayed request key (some handle) = pure handle

  pub provision_lab : LabProvisionRequest → String → Action LabHandle
  provision_lab request key = do
    raise_if (← gets (λ o. is_foreign o request.task_id request.workflow_revision)) approval_invalid
    require_start_approval request.specification_digest
    state ← gets (λ o. o.state)
    replayed ← bind_provision state request key
    provision_unless_replayed request key replayed

  pub execute : ExecutionRequest → Action ExecutionResult
  execute request = do
    raise_if (← gets (λ o. is_foreign o request.task_id request.workflow_revision)) approval_invalid
    require_start_approval request.execution_digest
    set_state collecting
    result ← call_execute request (← gets (λ o. o.lab_handle))
    if result.succeeded
        then set_state review_ready >> pure result
        else set_state failed >> pure result

  -- `submit`, given the approval and the intent that are stored.
  pub submit_approved :
      Option ApprovalRecord → Option SubmissionIntent → SubmissionIntent → Action SubmissionReceipt
  submit_approved (some approval) (some approved) intent = do
    raise_if (not (holds (SubmissionIntent-discrete intent approved))) approval_invalid
    validate_approval approval submit intent.submission_digest
    raise_if (← gets (λ o. is_foreign o intent.task_id intent.workflow_revision)) approval_invalid
    set_state submitting
    receipt ← call_submit intent
    set_state completed
    pure receipt
  submit_approved _ _ intent = raise approval_invalid

  pub submit_intent : SubmissionIntent → Action SubmissionReceipt
  submit_intent intent o = submit_approved o.submit_approval o.approved_submission_intent intent o

  -- `cleanup`, in the order of its steps: the branches on the state.
  pub begin_cleanup : TaskState → String → Action Unit
  begin_cleanup cleaning_up key = do
    raise_if (← gets (λ o. is_other_key o key)) idempotency_conflict
  begin_cleanup _ key = do
    set_state cleaning_up
    modify (λ o. record o { cleanup_idempotency_key = some key })

  -- A provision whose outcome is unknown is looked up.
  pub reconcile_lab : Option LabHandle → Option LabProvisionRequest → Action Unit
  reconcile_lab none (some request) = do
    key ← or_raise (← gets (λ o. o.provision_idempotency_key)) no_reconcile_key
    handle ← call_reconcile request key
    modify (λ o. record o { lab_handle = handle })
  reconcile_lab _ _ = pure tt

  pub teardown_lab : Option LabHandle → String → Action Unit
  teardown_lab none key = pure tt
  teardown_lab (some handle) key = call_teardown handle key

  pub run_cleanup : TaskState → String → Action Unit
  run_cleanup cleaned key = do raise_if (← gets (λ o. is_other_key o key)) idempotency_conflict
  run_cleanup state key = do
    begin_cleanup state key
    reconcile_lab (← gets (λ o. o.lab_handle)) (← gets (λ o. o.provision_request))
    teardown_lab (← gets (λ o. o.lab_handle)) key
    set_state cleaned

  pub cleanup : String → Action Unit
  cleanup key o = run_cleanup o.state key o
