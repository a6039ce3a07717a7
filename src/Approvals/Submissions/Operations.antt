-- ===== src/Approvals/Submissions/Operations.antt =====
-- adapters/moodle/approval_state.py: the calls on submissions by workers and by the bot, in any
-- order, and what each of them has achieved.
use moodle_autotask.Base.{
  ℕ, ◌+◌, String, Bool, true, false, ◌&&◌, Option, none, some, List, [], ◌∷◌, ◌==◌, if◌then◌else◌,
  ok, err,
}
use moodle_autotask.Events.{NotificationEvent, same_text}
use moodle_autotask.Approvals.{SubmissionManifest, SubmissionClaim, ApprovalState, Outcome}
use moodle_autotask.Approvals.Submissions.{Resolution, prepare_submission, resolve_submission}
use moodle_autotask.Approvals.Submissions.Claims.{
  claim_submission, record_submission_draft, record_submission_finalizing, complete_submission,
  fail_submission, mark_submission_notification_delivered,
}

-- A call of a method, with the time at which it runs.
pub data Operation : Type 0 where
  call_prepare :
      NotificationEvent
      → Option SubmissionManifest
      → (moment : ℕ) → (tokens : ℕ → String) → Operation
  call_resolve : (token : String) (user_id moment : ℕ) → Operation
  call_claim : (owner token : String) (lease_seconds moment : ℕ) → Operation
  call_draft : SubmissionClaim → (item_id moment : ℕ) → Operation
  call_finalizing : SubmissionClaim → (moment : ℕ) → Operation
  call_complete : SubmissionClaim → (reference : String) → (moment : ℕ) → Operation
  call_fail : SubmissionClaim → (error_code : String) → (moment : ℕ) → Operation
  call_delivered : (event_id : String) → (moment : ℕ) → Operation

-- What a call has achieved for the submission of an event.
pub data Achieved : Type 0 where
  nothing : Achieved
  approved_by : (user_id : ℕ) (event_id : String) → Achieved
  handed_out drafted finalized finished : (event_id : String) → Achieved

abbrev pub event_of : SubmissionClaim → String
event_of c = c.manifest.event.event_id

abbrev pub if_given : Achieved → Option SubmissionClaim → Achieved
if_given a none = nothing
if_given a (some _) = a

abbrev pub if_done : Achieved → Bool → Achieved
if_done a true = a
if_done a false = nothing

abbrev pub approval : ℕ → Resolution → SubmissionManifest → Achieved
approval user_id Resolution.approved m = approved_by user_id m.event.event_id
approval user_id _ m = nothing

abbrev pub handed : Option SubmissionClaim → Achieved
handed none = nothing
handed (some c) = handed_out (event_of c)

abbrev pub achieved :
    {A : Type 0} → (A → Achieved) → ApprovalState → Outcome A → Achieved × ApprovalState
achieved f s (ok (a, s')) = (f a, s')
achieved f s (err _) = (nothing, s)

-- A call, with the user who may decide.
unfoldable pub apply : (allowed_user_id : ℕ) → Operation → ApprovalState → Achieved × ApprovalState
unfolding prepare_submission resolve_submission claim_submission record_submission_draft
    record_submission_finalizing complete_submission fail_submission
    mark_submission_notification_delivered
apply allowed (call_prepare e built moment tokens) s =
    achieved (λ _. nothing) s (prepare_submission e built moment tokens s)
apply allowed (call_resolve token user_id moment) s =
    achieved (λ (r, m). approval user_id r m) s (resolve_submission token user_id allowed moment s)
apply allowed (call_claim owner token lease_seconds moment) s =
    achieved handed s (claim_submission owner token lease_seconds moment s)
apply allowed (call_draft c item_id moment) s =
    achieved (if_given (drafted (event_of c))) s (record_submission_draft c item_id moment s)
apply allowed (call_finalizing c moment) s =
    achieved (if_given (finalized (event_of c))) s (record_submission_finalizing c moment s)
apply allowed (call_complete c reference moment) s =
    achieved (if_done (finished (event_of c))) s (complete_submission c reference moment s)
apply allowed (call_fail c error_code moment) s =
    achieved (if_done (finished (event_of c))) s (fail_submission c error_code moment s)
apply allowed (call_delivered event_id moment) s =
    achieved (λ _. nothing) s (mark_submission_notification_delivered event_id moment s)

abbrev add_achieved : Achieved → List Achieved × ApprovalState → List Achieved × ApprovalState
add_achieved a (later, s) = (a ∷ later, s)

-- All that a sequence of calls has achieved, and the tables at the end.
unfoldable pub run :
    (allowed_user_id : ℕ) → List Operation → ApprovalState → List Achieved × ApprovalState
unfolding apply
run allowed [] s = ([], s)
run allowed (op ∷ ops) s = let (a, s') = apply allowed op s in add_achieved a (run allowed ops s')

-- The number of achievements that pass a test.
unfoldable pub tally : (Achieved → Bool) → List Achieved → ℕ
tally test [] = 0
tally test (a ∷ rest) = (if test a then 1 else 0) + tally test rest

abbrev pub is_drafted : String → Achieved → Bool
is_drafted e (drafted f) = same_text f e
is_drafted e _ = false

abbrev pub is_finalized : String → Achieved → Bool
is_finalized e (finalized f) = same_text f e
is_finalized e _ = false

abbrev pub is_finished : String → Achieved → Bool
is_finished e (finished f) = same_text f e
is_finished e _ = false

abbrev pub is_handed_out : String → Achieved → Bool
is_handed_out e (handed_out f) = same_text f e
is_handed_out e _ = false

abbrev pub is_approval : ℕ → String → Achieved → Bool
is_approval allowed e (approved_by user f) = user == allowed && same_text f e
is_approval allowed e _ = false
