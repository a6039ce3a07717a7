-- ===== src/Approvals/Submissions.antt =====
-- adapters/moodle/approval_state.py: the submissions, from `prepare_submission` to
-- `_finish_submission`, and the notifications of their results.
pub mod Claims
pub mod Operations
pub mod Keeps
pub mod Stages
pub mod Once
pub mod Apart
pub mod Paid
pub mod Decided
pub mod Tests
use moodle_autotask.Base.{
  ℕ, String, Bool, true, false, not, ◌&&◌, ◌||◌, Option, none, some, List, [], ◌∷◌, leb, ◌==◌,
  if◌then◌else◌, holds, String-discrete, ℕ_discrete, any, Result, ok, err,
}
use moodle_autotask.Table.{update_where, select_one, count}
use moodle_autotask.Events.{NotificationEvent, same_text}
use moodle_autotask.Approvals.{
  SubmissionAction, Callback, SubmissionManifest, Phase, SubmissionStatus, Lease, Submission,
  Request, ApprovalState, StateError, state_error, Outcome, ◌>>=◌, ◌>>◌, guard, found, positive_id,
  insert_callbacks, token_of,
}

abbrev pub same_action : SubmissionAction → SubmissionAction → Bool
same_action SubmissionAction.submit SubmissionAction.submit = true
same_action SubmissionAction.decline SubmissionAction.decline = true
same_action SubmissionAction.details SubmissionAction.details = true
same_action _ _ = false

-- The entries of `SubmissionManifest.as_dict`, less those that are computed from others.
pub record Payload : Type 0 where
  pub filename : String
  pub report_digest : String
  pub report_markdown : String
  pub assignment_id : Option ℕ
  pub submission_drafts : Bool
  pub requires_submission_statement : Bool
  pub submission_statement : String
  pub submission_statement_format : ℕ
  pub manifest_digest : String
  pub revision_digest : String
  pub task_key : String

unfoldable pub Payload-discrete : Discrete Payload
unfolding String-discrete ℕ_discrete
Payload-discrete = hlevel (String-discrete, ℕ_discrete)

-- `SubmissionManifest.as_dict`
abbrev pub payload : SubmissionManifest → Payload
payload m =
    let content = m.event.content in
    record {
      filename = m.filename;
      report_digest = m.report_digest;
      report_markdown = m.report_markdown;
      assignment_id = content.assignment_id;
      submission_drafts = content.submission_drafts;
      requires_submission_statement = content.requires_submission_statement;
      submission_statement = content.submission_statement;
      submission_statement_format = content.submission_statement_format;
      manifest_digest = m.manifest_digest;
      revision_digest = m.event.revision_digest;
      task_key = m.event.task_key;
    }

abbrev pub has_event : String → Submission → Bool
has_event event_id r = same_text r.event_id event_id

abbrev same_manifest : SubmissionManifest → Option SubmissionManifest → Bool
same_manifest m none = false
same_manifest m (some n) = holds (Payload-discrete (payload n) (payload m))

abbrev pub new_submission : SubmissionManifest → ℕ → Submission
new_submission m moment = record {
  event_id = m.event.event_id;
  manifest = some m;
  status = SubmissionStatus.awaiting_approval;
  decided = none;
  lease = none;
  draft_item_id = none;
  receipt_reference = none;
  error_code = none;
  created_at = moment;
}

abbrev pub is_request_for : String → Request → Bool
is_request_for event_id r = same_text r.event_id event_id

abbrev pub actions : List SubmissionAction
actions = SubmissionAction.submit ∷ SubmissionAction.decline ∷ SubmissionAction.details ∷ []

-- The first part of `prepare_submission`: an insertion, which the foreign key refuses without a
-- request, or a comparison with the submission that is there.
unfoldable pub store_manifest :
    SubmissionManifest
    → ℕ
    → (ℕ → String)
    → ApprovalState
    → Option Submission
    → Result StateError ApprovalState
unfolding Payload-discrete
store_manifest m moment tokens s none = do
  guard (any (is_request_for m.event.event_id) s.requests)
  cs ← insert_callbacks same_action m.event.event_id actions tokens s.submission_callbacks
  ok (record s { submissions = new_submission m moment ∷ s.submissions; submission_callbacks = cs })
store_manifest m moment tokens s (some r) = do guard (same_manifest m r.manifest); ok s

abbrev pub is_supported : NotificationEvent → Bool
is_supported e = e.content.submission_drafts || not e.content.requires_submission_statement

-- `event.assignment_id is not None`
abbrev pub has_assignment : NotificationEvent → Bool
has_assignment e = elim e.content.assignment_id [ none ↦ false | some _ ↦ true ]

-- `SubmissionButtons`, without its flag
abbrev pub buttons : String → ApprovalState → Result StateError (String × String × String)
buttons event_id s = do
  submit ← token_of same_action event_id SubmissionAction.submit s.submission_callbacks
  decline ← token_of same_action event_id SubmissionAction.decline s.submission_callbacks
  show ← token_of same_action event_id SubmissionAction.details s.submission_callbacks
  ok (submit, decline, show)

-- `prepare_submission`, from the manifest that `_submission_manifest` has built or refused
unfoldable pub prepare_submission :
    NotificationEvent
    → Option SubmissionManifest
    → ℕ
    → (ℕ → String)
    → ApprovalState
    → Outcome (SubmissionManifest × (String × String × String))
unfolding store_manifest
prepare_submission e built moment tokens s = do
  guard (has_assignment e)
  guard (is_supported e)
  m ← found built
  s' ← store_manifest m moment tokens s (select_one (has_event m.event.event_id) s.submissions)
  b ← buttons m.event.event_id s'
  ok ((m, b), s')

-- What a submission's callback has come to.
pub data Resolution : Type 0 where
  details approved declined already_approved already_declined conflict : Resolution

abbrev is_awaiting : SubmissionStatus → Bool
is_awaiting SubmissionStatus.awaiting_approval = true
is_awaiting _ = false

abbrev pub is_awaited : String → Submission → Bool
is_awaited event_id r = has_event event_id r && is_awaiting r.status

abbrev pub set_decided : SubmissionStatus → ℕ → ℕ → Submission → Submission
set_decided status user_id moment r = record r { status = status; decided = some (user_id, moment) }

-- The UPDATE of `resolve_submission`, which has to meet one row.
unfoldable pub decide :
    SubmissionStatus → Resolution → ℕ → ℕ → String → ApprovalState → Outcome Resolution
unfolding update_where count
decide status result user_id moment event_id s =
    if count (is_awaited event_id) s.submissions == 1
    then ok (
      result,
      record s {
        submissions =
            update_where (is_awaited event_id) (set_decided status user_id moment) s.submissions;
      },
    )
    else err state_error

-- `resolve_submission` from the row that its SELECT has joined, of the submission's status
unfoldable pub resolve_status :
    ℕ → ℕ → String → ApprovalState → SubmissionAction → SubmissionStatus → Outcome Resolution
unfolding decide
resolve_status user_id moment event_id s SubmissionAction.details status =
    ok (Resolution.details, s)
resolve_status user_id moment event_id s SubmissionAction.submit
      SubmissionStatus.awaiting_approval =
    decide SubmissionStatus.approved Resolution.approved user_id moment event_id s
resolve_status user_id moment event_id s SubmissionAction.submit SubmissionStatus.approved =
    ok (Resolution.already_approved, s)
resolve_status user_id moment event_id s SubmissionAction.decline
      SubmissionStatus.awaiting_approval =
    decide SubmissionStatus.declined Resolution.declined user_id moment event_id s
resolve_status user_id moment event_id s SubmissionAction.decline SubmissionStatus.declined =
    ok (Resolution.already_declined, s)
resolve_status user_id moment event_id s _ _ = ok (Resolution.conflict, s)

abbrev pub has_token : {A : Type 0} → String → Callback A → Bool
has_token token c = same_text c.token token

-- `resolve_submission`, of a token in the form that it demands
unfoldable pub resolve_submission :
    String
    → (user_id allowed_user_id moment : ℕ) → ApprovalState
    → Outcome (Resolution × SubmissionManifest)
unfolding resolve_status
resolve_submission token user_id allowed_user_id moment s = do
  guard (positive_id user_id && positive_id allowed_user_id && user_id == allowed_user_id)
  c ← found (select_one (has_token token) s.submission_callbacks)
  r ← found (select_one (has_event c.event_id) s.submissions)
  m ← found r.manifest
  (result, s') ← resolve_status user_id moment m.event.event_id s c.action r.status
  ok ((result, m), s')

abbrev pub is_expired : ℕ → Option Lease → Bool
is_expired moment none = false
is_expired moment (some l) = leb l.expires_at moment

abbrev is_uploading : SubmissionStatus → Bool
is_uploading (SubmissionStatus.in_phase Phase.uploading) = true
is_uploading _ = false

abbrev pub is_late : SubmissionStatus → Bool
is_late (SubmissionStatus.in_phase Phase.saving) = true
is_late (SubmissionStatus.in_phase Phase.finalizing) = true
is_late _ = false

abbrev is_approved : SubmissionStatus → Bool
is_approved SubmissionStatus.approved = true
is_approved _ = false

abbrev pub is_stale_upload : ℕ → Submission → Bool
is_stale_upload moment r = is_uploading r.status && is_expired moment r.lease

abbrev pub set_approved : Submission → Submission
set_approved r = record r { status = SubmissionStatus.approved; lease = none }

abbrev pub is_claimable : ℕ → Submission → Bool
is_claimable moment r = is_approved r.status || is_late r.status && is_expired moment r.lease
