-- ===== src/Orchestrator/Checks.antt =====
-- application/orchestrator.py: what has been established where a check of the approval or of the
-- identity has not raised.
use moodle_autotask.Base.{◌≡◌, true, false, arith}
use moodle_autotask.Models.{TaskId, WorkflowRevision, Digest, ApprovalRecord, ApprovalCheckpoint}
use moodle_autotask.Orchestrator.{Orchestrator, is_foreign, is_mismatch}

pub record Matches (o : Orchestrator) (a : ApprovalRecord) (c : ApprovalCheckpoint) (d : Digest)
    : Type 0 where
  pub approved : a.approved ≡ true
  pub checkpoint : a.checkpoint ≡ c
  pub task : a.task_id ≡ o.task_id
  pub revision : a.workflow_revision ≡ o.workflow_revision
  pub digest : a.digest ≡ d

pub not_mismatch :
    (o : Orchestrator) (a : ApprovalRecord) (c : ApprovalCheckpoint) (d : Digest)
    → is_mismatch o a c d ≡ false
    → Matches o a c d
not_mismatch o a c d h = ground arith

pub not_foreign :
    (o : Orchestrator) (t : TaskId) (v : WorkflowRevision)
    → is_foreign o t v ≡ false
    → (t ≡ o.task_id) × (v ≡ o.workflow_revision)
not_foreign o t v h = ground arith
