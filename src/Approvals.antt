-- ===== src/Approvals.antt =====
-- adapters/moodle/approval_state.py: `ApprovalState`, the durable state of the approvals, as the
-- rows of its tables, newest first. A method is one transaction, and what it raises leaves the
-- tables as they were. The payloads are the values that are read back from them, `none` where the
-- decoder refuses the text; no method changes a stored payload.
pub mod Requests
pub mod Submissions
pub mod Work
use moodle_autotask.Base.{
  ℕ, suc, ◌^◌, String, Bool, ◌&&◌, ◌||◌, Option, none, some, List, [], ◌∷◌, ltb, leb, if◌then◌else◌,
  any, Result, ok, err,
}
use moodle_autotask.Models.{ExecutionMode}
use moodle_autotask.Events.{NotificationEvent, same_text}

pub data Decision : Type 0 where
  pending approved ignored : Decision

-- A row of `requests`. The pairs stand for columns that a CHECK keeps null together: the chat and
-- the message of a notification, and the user and the time of a decision.
pub record Request : Type 0 where
  pub event_id : String
  pub task_key : String
  pub revision_digest : String
  pub payload : NotificationEvent
  pub notified : Option (ℕ × ℕ)
  pub decision : Decision
  pub decided : Option (ℕ × ℕ)
  pub created_at : ℕ

pub data CallbackAction : Type 0 where
  approve ignore details : CallbackAction

-- A row of `callbacks`, and of `submission_callbacks`.
pub record Callback (A : Type 0) : Type 0 where
  pub token : String
  pub event_id : String
  pub action : A

pub data SubmissionAction : Type 0 where
  submit decline details : SubmissionAction

-- `SubmissionManifest`
pub record SubmissionManifest : Type 0 where
  pub event : NotificationEvent
  pub manifest_digest : String
  pub filename : String
  pub report_markdown : String
  pub report_digest : String

pub data Phase : Type 0 where
  uploading saving finalizing : Phase

-- `SubmissionClaim`
pub record SubmissionClaim : Type 0 where
  pub manifest : SubmissionManifest
  pub lease_token : String
  pub phase : Phase
  pub draft_item_id : Option ℕ

pub data SubmissionStatus : Type 0 where
  awaiting_approval approved declined : SubmissionStatus
  in_phase : Phase → SubmissionStatus
  submitted failed : SubmissionStatus

-- The columns `lease_token` and `lease_expires_at`.
pub record Lease : Type 0 where
  pub token : String
  pub expires_at : ℕ

-- A row of `submissions`; `manifest` is what `_manifest_from_json` makes of the row and its request.
pub record Submission : Type 0 where
  pub event_id : String
  pub manifest : Option SubmissionManifest
  pub status : SubmissionStatus
  pub decided : Option (ℕ × ℕ)
  pub lease : Option Lease
  pub draft_item_id : Option ℕ
  pub receipt_reference : Option String
  pub error_code : Option String
  pub created_at : ℕ

-- A row of `submission_outbox`.
pub record SubmissionResult : Type 0 where
  pub event_id : String
  pub status : SubmissionStatus
  pub reference : Option String
  pub delivered_at : Option ℕ
  pub created_at : ℕ

pub data WorkStatus : Type 0 where
  pending lab_pending ready failed cleaned : WorkStatus

-- A row of `work_items`.
pub record WorkRow : Type 0 where
  pub event_id : String
  pub selected_mode : ExecutionMode
  pub specification_digest : String
  pub provision_key : String
  pub status : WorkStatus
  pub lab_handle : Option String
  pub attempts : ℕ
  pub available_at : ℕ
  pub lease_owner : Option String
  pub lease : Option Lease
  pub error_code : Option String
  pub created_at : ℕ
  pub cleanup_due_at : Option ℕ

-- A row of `execution_outbox`.
pub record ExecutionResult : Type 0 where
  pub event_id : String
  pub payload : String
  pub delivered_at : Option ℕ
  pub created_at : ℕ

pub record ApprovalState : Type 0 where
  pub requests : List Request
  pub callbacks : List (Callback CallbackAction)
  pub next_update_id : ℕ
  pub work_items : List WorkRow
  pub submissions : List Submission
  pub submission_callbacks : List (Callback SubmissionAction)
  pub submission_outbox : List SubmissionResult
  pub execution_outbox : List ExecutionResult

-- `ApprovalStateError`
pub data StateError : Type 0 where
  state_error : StateError

abbrev pub Outcome : Type 0 → Type 0
Outcome A = Result StateError (A × ApprovalState)

-- The tables after a call, which an exception leaves as they were.
abbrev pub after : {A : Type 0} → ApprovalState → Outcome A → ApprovalState
after s (ok (_, s')) = s'
after s (err _) = s

infixl 5 ◌>>=◌ ◌>>◌
abbrev pub ◌>>=◌ :
    {A B : Type 0} → Result StateError A → (A → Result StateError B) → Result StateError B
ok a >>= f = f a
err e >>= _ = err e

abbrev pub ◌>>◌ :
    {B : Type 0} → Result StateError (Unit {0}) → Result StateError B → Result StateError B
m >> k = m >>= λ _. k

-- `if not test: raise ApprovalStateError(...)`
abbrev pub guard : Bool → Result StateError (Unit {0})
guard test = if test then ok tt else err state_error

abbrev pub found : {A : Type 0} → Option A → Result StateError A
found none = err state_error
found (some a) = ok a

-- `_positive_id`
abbrev pub positive_id : ℕ → Bool
positive_id n = leb 1 n && ltb n (2 ^ 63)

-- The three tokens that `_new_token` gives, one for each of the actions, are refused if the table
-- has one of them, or a callback of the event for one of the actions.
module _ {A : Type 0} where
  unfoldable pub insert_callback :
      (A → A → Bool) → Callback A → List (Callback A) → Result StateError (List (Callback A))
  insert_callback same c cs =
      if any
        (λ (d : Callback A).
          same_text d.token c.token || (same_text d.event_id c.event_id && same d.action c.action))
        cs
      then err state_error
      else ok (c ∷ cs)

  unfoldable pub insert_callbacks :
      (A → A → Bool)
      → String
      → List A
      → (ℕ → String)
      → List (Callback A)
      → Result StateError (List (Callback A))
  unfolding insert_callback
  insert_callbacks same event_id [] tokens cs = ok cs
  insert_callbacks same event_id (a ∷ actions) tokens cs =
      insert_callback same (record { token = tokens 0; event_id = event_id; action = a }) cs
      >>= insert_callbacks same event_id actions (λ n. tokens (suc n))

  -- The token of an event's callback for an action.
  unfoldable pub token_of :
      (A → A → Bool) → String → A → List (Callback A) → Result StateError String
  token_of same event_id a [] = err state_error
  token_of same event_id a (c ∷ cs) =
      if same_text c.event_id event_id && same c.action a
      then ok c.token
      else token_of same event_id a cs
