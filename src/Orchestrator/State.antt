-- ===== src/Orchestrator/State.antt =====
-- application/orchestrator.py and ports/contracts.py: the object, the exceptions that its methods
-- raise, and the ports that they call.
use moodle_autotask.Base.{String, Bool, false, Option, none, some, List, holds, Result}
use moodle_autotask.Exec.{Exec}
use moodle_autotask.Lifecycle.{TaskState, TransitionError}
use moodle_autotask.Models.{
  TaskId, WorkflowRevision, LabHandle, ApprovalRecord, LabProvisionRequest, ExecutionRequest,
  ExecutionResult, SubmissionIntent,
}

pub data LabReadiness : Type 0 where
  pending ready failed : LabReadiness

pub record SubmissionReceipt : Type 0 where
  pub reference : String

-- An exception of a port, by its message.
pub data PortError : Type 0 where
  raised : String → PortError

pub data OrchestratorError : Type 0 where
  refused : TransitionError → OrchestratorError  -- InvalidTaskTransitionError
  approval_invalid lab_not_ready idempotency_conflict : OrchestratorError
  no_retained_handle : OrchestratorError  -- the RuntimeError of a replayed `provision_lab`
  no_reconcile_key : OrchestratorError  -- the RuntimeError of `cleanup`
  port_failed : PortError → OrchestratorError

-- A call of a port with its outcome.
pub data PortCall : Type 0 where
  provisioned : LabProvisionRequest → String → Result PortError LabHandle → PortCall
  reconciled : LabProvisionRequest → String → Result PortError (Option LabHandle) → PortCall
  asked_readiness : LabHandle → Result PortError LabReadiness → PortCall
  torn_down : LabHandle → String → Result PortError Unit → PortCall
  executed : ExecutionRequest → Option LabHandle → Result PortError ExecutionResult → PortCall
  submitted : SubmissionIntent → Result PortError SubmissionReceipt → PortCall

-- `LabProvider`, `AgentRuntime` and `TaskSubmitter`. The outcome of a call may depend on all the
-- calls before it, newest first.
pub record Ports : Type 0 where
  pub provision : List PortCall → LabProvisionRequest → String → Result PortError LabHandle
  pub reconcile : List PortCall → LabProvisionRequest → String → Result PortError (Option LabHandle)
  pub readiness : List PortCall → LabHandle → Result PortError LabReadiness
  pub teardown : List PortCall → LabHandle → String → Result PortError Unit
  pub execute :
      List PortCall → ExecutionRequest → Option LabHandle → Result PortError ExecutionResult
  pub submit : List PortCall → SubmissionIntent → Result PortError SubmissionReceipt

-- `TaskOrchestrator`. The ports are not among the fields, and `log` is no field of the class: it
-- is the calls of the ports so far, newest first.
pub record Orchestrator : Type 0 where
  pub task_id : TaskId
  pub workflow_revision : WorkflowRevision
  pub state : TaskState
  pub lab_handle : Option LabHandle
  pub start_approval : Option ApprovalRecord
  pub submit_approval : Option ApprovalRecord
  pub provision_request : Option LabProvisionRequest
  pub provision_idempotency_key : Option String
  pub cleanup_idempotency_key : Option String
  pub approved_submission_intent : Option SubmissionIntent
  pub log : List PortCall

abbrev pub Action : Type 0 → Type 0
Action A = Exec Orchestrator OrchestratorError A

-- `x == y` where `y` may be `None`
abbrev pub same : {A : Type 0} → Discrete A → A → Option A → Bool
same dec x none = false
same dec x (some y) = holds (dec x y)
