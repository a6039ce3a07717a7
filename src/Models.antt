-- ===== src/Models.antt =====
-- src/moodle_autotask/domain/models.py: the values that cross the task lifecycle boundary, as
-- records; their validation is in Checks and Json. Python's `==` on these frozen dataclasses is
-- equality of all fields, here a decision `T-discrete`. A `frozenset` of texts is a list.
pub mod Checks
pub mod Json
mod Tests
use moodle_autotask.Base.{String, Bool, Option, List, String-discrete, all}

pub record TaskId : Type 0 where
  pub value : String

unfoldable pub TaskId-discrete : Discrete TaskId
unfolding String-discrete
TaskId-discrete = hlevel String-discrete

pub record WorkflowRevision : Type 0 where
  pub value : String

unfoldable pub WorkflowRevision-discrete : Discrete WorkflowRevision
unfolding String-discrete
WorkflowRevision-discrete = hlevel String-discrete

pub record Digest : Type 0 where
  pub value : String

unfoldable pub Digest-discrete : Discrete Digest
unfolding String-discrete
Digest-discrete = hlevel String-discrete

pub record LabHandle : Type 0 where
  pub value : String

pub record ArtifactReference : Type 0 where
  pub uri : String
  pub digest : Digest

pub record ManifestReference : Type 0 where
  pub uri : String
  pub digest : Digest

pub data ApprovalCheckpoint : Type 0 where
  start_work submit : ApprovalCheckpoint

unfoldable pub ApprovalCheckpoint-discrete : Discrete ApprovalCheckpoint
ApprovalCheckpoint-discrete = hlevel

pub data ExecutionMode : Type 0 where
  central in_guest hybrid auto : ExecutionMode

unfoldable pub ExecutionMode-discrete : Discrete ExecutionMode
ExecutionMode-discrete = hlevel

pub record ApprovalRecord : Type 0 where
  pub checkpoint : ApprovalCheckpoint
  pub task_id : TaskId
  pub workflow_revision : WorkflowRevision
  pub digest : Digest
  pub approver : String
  pub approved : Bool

pub record LabProvisionRequest : Type 0 where
  pub task_id : TaskId
  pub workflow_revision : WorkflowRevision
  pub requested_mode : ExecutionMode
  pub specification_digest : Digest
  pub image_reference : Option String

unfoldable pub LabProvisionRequest-discrete : Discrete LabProvisionRequest
unfolding String-discrete
LabProvisionRequest-discrete = hlevel String-discrete

pub record ExecutionRequest : Type 0 where
  pub task_id : TaskId
  pub workflow_revision : WorkflowRevision
  pub execution_digest : Digest
  pub selected_mode : ExecutionMode
  pub capabilities : List String

pub record ExecutionResult : Type 0 where
  pub succeeded : Bool
  pub artifacts : List ArtifactReference
  pub manifest : Option ManifestReference
  pub detail : String

pub record SubmissionIntent : Type 0 where
  pub task_id : TaskId
  pub workflow_revision : WorkflowRevision
  pub submission_digest : Digest
  pub manifest : ManifestReference
  pub artifacts : List ArtifactReference

unfoldable pub SubmissionIntent-discrete : Discrete SubmissionIntent
unfolding String-discrete
SubmissionIntent-discrete = hlevel String-discrete
