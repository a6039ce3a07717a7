-- ===== src/Worker/Types.antt =====
-- adapters/aws/worker.py, adapters/moodle/approval_state.py and adapters/moodle/state.py: what the
-- worker hands around, and the durable state and the Moodle service as it calls them. A call's
-- outcome may depend on all the calls before it, newest first.
use moodle_autotask.Base.{ℕ, String, Bool, true, false, Option, List, ◌∷◌, Result}
use moodle_autotask.Exec.{Exec}

-- The fields of `NotificationEvent` that the worker's submission path reads.
pub record NotificationEvent : Type 0 where
  pub event_id : String
  pub submission_drafts : Bool

-- `SubmissionManifest`
pub record SubmissionManifest : Type 0 where
  pub event : NotificationEvent
  pub manifest_digest : String
  pub filename : String
  pub report_markdown : String
  pub report_digest : String

pub data Phase : Type 0 where
  uploading saving finalizing : Phase

-- `SubmissionClaim`
pub record SubmissionClaim : Type 0 where
  pub manifest : SubmissionManifest
  pub lease_token : String
  pub phase : Phase
  pub draft_item_id : Option ℕ

-- A receipt, by its attribute `reference`, which is `none` if it is missing or is no text.
pub record Receipt : Type 0 where
  pub reference : Option String

-- The classes of exceptions that the submission path tells apart. `approval_state_error` is a
-- `RuntimeError`, and so are the Moodle client's errors.
pub data Error : Type 0 where
  approval_state_error runtime_error value_error os_error other_error : Error

abbrev pub is_runtime_error : Error → Bool
is_runtime_error Error.approval_state_error = true
is_runtime_error Error.runtime_error = true
is_runtime_error _ = false

-- `WorkerCycle.result`, as far as it comes from a submission.
pub data CycleResult : Type 0 where
  submission_confirmed submission_failed submission_ownership_lost : CycleResult
  submission_draft_unverified submission_unverified submission_ambiguous : CycleResult

-- A call, with its outcome.
pub data Effect : Type 0 where
  claimed : Result Error (Option SubmissionClaim) → Effect
  uploaded : SubmissionManifest → Result Error ℕ → Effect
  saved : SubmissionManifest → ℕ → Result Error Unit → Effect
  finalized : SubmissionManifest → Result Error Unit → Effect
  verified : SubmissionManifest → Result Error (Option Receipt) → Effect
  verified_draft : SubmissionManifest → Result Error Bool → Effect
  recorded_draft : SubmissionClaim → ℕ → Result Error (Option SubmissionClaim) → Effect
  recorded_finalizing : SubmissionClaim → Result Error (Option SubmissionClaim) → Effect
  completed : SubmissionClaim → String → Result Error Bool → Effect
  failed : SubmissionClaim → CycleResult → Result Error Bool → Effect

abbrev pub Log : Type 0
Log = List Effect

-- The methods of `SubmissionService` and those of `ApprovalState` on submissions.
pub record Environment : Type 0 where
  pub claim_submission : Log → Result Error (Option SubmissionClaim)
  pub upload : Log → SubmissionManifest → Result Error ℕ
  pub save : Log → SubmissionManifest → ℕ → Result Error Unit
  pub finalize : Log → SubmissionManifest → Result Error Unit
  pub verify : Log → SubmissionManifest → Result Error (Option Receipt)
  pub verify_draft : Log → SubmissionManifest → Result Error Bool
  pub record_submission_draft : Log → SubmissionClaim → ℕ → Result Error (Option SubmissionClaim)
  pub record_submission_finalizing : Log → SubmissionClaim → Result Error (Option SubmissionClaim)
  pub complete_submission : Log → SubmissionClaim → String → Result Error Bool
  pub fail_submission : Log → SubmissionClaim → CycleResult → Result Error Bool

abbrev pub Action : Type 0 → Type 0
Action A = Exec Log Error A

-- A call, which is recorded with its outcome.
unfoldable pub call : {A : Type 0} → (Log → Result Error A) → (Result Error A → Effect) → Action A
call ask mark log = let r = ask log in (r, mark r ∷ log)
