-- ===== src/Orchestrator/Runs.antt =====
-- application/orchestrator.py: a caller that makes any calls in any order, and goes on after an
-- exception.
use moodle_autotask.Base.{String, none, List, [], ◌∷◌}
use moodle_autotask.Lifecycle.{discovered}
use moodle_autotask.Models.{
  TaskId, WorkflowRevision, Digest, ApprovalRecord, LabProvisionRequest, ExecutionRequest,
  SubmissionIntent,
}
use moodle_autotask.Orchestrator.{
  Orchestrator, Ports, request_start_approval, approve_start, provision_lab, execute,
  request_submit_approval, approve_submission, submit_intent, cleanup,
}

pub data Op : Type 0 where
  request_start : Op
  approve : ApprovalRecord → Digest → Op
  provision : LabProvisionRequest → String → Op
  run_agent : ExecutionRequest → Op
  request_submit : Op
  approve_submit : ApprovalRecord → SubmissionIntent → Op
  hand_in : SubmissionIntent → Op
  clean : String → Op

-- `TaskOrchestrator(task_id, workflow_revision, ...)`, in the default state
abbrev pub new : TaskId → WorkflowRevision → Orchestrator
new task revision = record {
  task_id = task;
  workflow_revision = revision;
  state = discovered;
  lab_handle = none;
  start_approval = none;
  submit_approval = none;
  provision_request = none;
  provision_idempotency_key = none;
  cleanup_idempotency_key = none;
  approved_submission_intent = none;
  log = [];
}

module _ (ports : Ports) where
  unfoldable pub apply : Op → Orchestrator → Orchestrator
  apply request_start o = (request_start_approval o).1
  apply (approve a d) o = (approve_start a d o).1
  apply (provision r k) o = (provision_lab ports r k o).1
  apply (run_agent r) o = (execute ports r o).1
  apply request_submit o = (request_submit_approval o).1
  apply (approve_submit a i) o = (approve_submission a i o).1
  apply (hand_in i) o = (submit_intent ports i o).1
  apply (clean k) o = (cleanup ports k o).1

  -- The calls so far, newest first, as is the log.
  unfoldable pub run : List Op → Orchestrator → Orchestrator
  run [] o = o
  run (op ∷ past) o = apply op (run past o)
