-- ===== src/Orchestrator/Tests.antt =====
-- application/orchestrator.py at a concrete task: the whole life of a task that is approved twice.
use moodle_autotask.Exec.{◌>>=◌}
use mathlib.Core.List.{Memᴰ}
use moodle_autotask.Base.{◌≡◌, refl, ◌⊎◌, true, none, List, [], ◌∷◌, String-discrete, ok}
use moodle_autotask.Lifecycle.{transition}
use moodle_autotask.Models.{
  TaskId, WorkflowRevision, Digest, start_work, submit, ApprovalRecord, LabProvisionRequest,
  ExecutionRequest, SubmissionIntent, in_guest, TaskId-discrete, WorkflowRevision-discrete,
  Digest-discrete, ApprovalCheckpoint-discrete, SubmissionIntent-discrete,
}
use moodle_autotask.Orchestrator.{
  Ports, LabReadiness, ◌>>=◌, request_start_approval, approve_start, provision_lab, execute,
  request_submit_approval, approve_submission, submit_intent, set_state, check_transition,
  or_refused, validate_approval, required, require_start_approval, bind_provision,
  provision_unless_replayed, provision_and_check, call_provision, call_readiness, call_execute,
  call_submit, or_port_failed, submit_approved,
}
use moodle_autotask.Orchestrator.Runs.{
  Op, request_start, approve, provision, run_agent, request_submit, approve_submit, hand_in, new,
  run, apply,
}
use moodle_autotask.Orchestrator.Spares.{submits}
use moodle_autotask.Orchestrator.Submission.{Authorizes}
use moodle_autotask.Orchestrator.Authorized.{submits_authorized}

abbrev task : TaskId
task = record { value = "task-1" }

abbrev revision : WorkflowRevision
revision = record { value = "rev-1" }

abbrev plan : Digest
plan = record { value = "plan" }

abbrev report : Digest
report = record { value = "report" }

abbrev intent : SubmissionIntent
intent = record {
  task_id = task;
  workflow_revision = revision;
  submission_digest = report;
  manifest = record { uri = "memory://manifest"; digest = report };
  artifacts = [];
}

abbrev start_approval : ApprovalRecord
start_approval = record {
  checkpoint = start_work;
  task_id = task;
  workflow_revision = revision;
  digest = plan;
  approver = "reviewer-a";
  approved = true;
}

abbrev submit_approval : ApprovalRecord
submit_approval = record start_approval { checkpoint = submit; digest = report }

abbrev lab_request : LabProvisionRequest
lab_request = record {
  task_id = task;
  workflow_revision = revision;
  requested_mode = in_guest;
  specification_digest = plan;
  image_reference = none;
}

abbrev agent_request : ExecutionRequest
agent_request = record {
  task_id = task;
  workflow_revision = revision;
  execution_digest = plan;
  selected_mode = in_guest;
  capabilities = [];
}

-- Ports that always succeed.
abbrev fakes : Ports
fakes = record {
  provision = λ _ _ key. ok (record { value = key });
  reconcile = λ _ _ _. ok none;
  readiness = λ _ _. ok LabReadiness.ready;
  teardown = λ _ _ _. ok tt;
  execute = λ _ _ _. ok (record { succeeded = true; artifacts = []; manifest = none; detail = "" });
  submit = λ _ _. ok (record { reference = "fake:submission" });
}

-- Newest first.
abbrev full_life : List Op
full_life =
    hand_in intent
    ∷ approve_submit submit_approval intent
    ∷ request_submit
    ∷ run_agent agent_request
    ∷ provision lab_request "provision-1"
    ∷ approve start_approval plan
    ∷ request_start
    ∷ []

submits_authorized_example :
    (submits (run fakes full_life (new task revision)).log ≡ [])
    ⊎ ((a : ApprovalRecord) × (i : SubmissionIntent) × (submits
            (run fakes full_life (new task revision)).log
          ≡ i ∷ [])
        × (Memᴰ (approve_submit a i) full_life × Authorizes task revision a i))
submits_authorized_example = submits_authorized fakes full_life task revision

-- The submission does take place.
full_life-submits : submits (run fakes full_life (new task revision)).log ≡ intent ∷ []
unfolding run apply ◌>>=◌ transition request_start_approval approve_start provision_lab execute
    request_submit_approval approve_submission submit_intent set_state check_transition or_refused
    validate_approval required require_start_approval bind_provision provision_unless_replayed
    provision_and_check call_provision call_readiness call_execute call_submit or_port_failed
    submit_approved TaskId-discrete WorkflowRevision-discrete Digest-discrete
    ApprovalCheckpoint-discrete SubmissionIntent-discrete String-discrete
full_life-submits = refl
