-- ===== src/Approvals/Requests.antt =====
-- adapters/moodle/approval_state.py: the requests for approval: `prepare`, `mark_notified`,
-- `resolve`, which enqueues the work of an approved request, `decision`, and the cursor of the
-- updates that Telegram sends.
use moodle_autotask.Base.{
  ℕ, ◌+◌, max, String, Bool, true, false, not, ◌&&◌, ◌||◌, Option, none, some, List, [], ◌∷◌, ◌++◌,
  reverse, ◌==◌, if◌then◌else◌, holds, codes, any, Result, ok,
}
use moodle_autotask.Models.{ExecutionMode}
use moodle_autotask.Table.{update_where, select_one}
use moodle_autotask.Events.{
  NotificationEvent-discrete, NotificationAttachment, NotificationEvent, same_text,
}
use moodle_autotask.Approvals.{
  Decision, Request, CallbackAction, Callback, WorkStatus, WorkRow, ApprovalState, StateError,
  Outcome, ◌>>=◌, ◌>>◌, guard, found, positive_id, insert_callbacks, token_of,
}

abbrev pub is_pending : Decision → Bool
is_pending Decision.pending = true
is_pending _ = false

-- What comes from the hash and from Python's `str.lower`: `Digest.of_json` of an event, the key of
-- a provision, and a text's lower case, on its code points.
pub record Runtime : Type 0 where
  pub specification_digest : NotificationEvent → String
  pub provision_key : String → String → String
  pub lower : List ℕ → List ℕ

abbrev same_event : NotificationEvent → NotificationEvent → Bool
same_event a b = holds (NotificationEvent-discrete a b)

-- `text.endswith(suffix)`, `text.startswith(prefix)` and `word in text`, by code points
unfoldable starts_with : List ℕ → List ℕ → Bool
starts_with [] text = true
starts_with (_ ∷ _) [] = false
starts_with (p ∷ ps) (c ∷ cs) = p == c && starts_with ps cs

unfoldable ends_with : List ℕ → List ℕ → Bool
unfolding starts_with
ends_with suffix text = starts_with (reverse suffix) (reverse text)

unfoldable contains : List ℕ → List ℕ → Bool
unfolding starts_with
contains word [] = starts_with word []
contains word (c ∷ cs) = starts_with word (c ∷ cs) || contains word cs

abbrev image_suffixes : List String
image_suffixes = ".ova" ∷ ".ovf" ∷ ".vdi" ∷ ".vmdk" ∷ ".vhd" ∷ ".vhdx" ∷ []

abbrev lab_words : List String
lab_words = "laboratori" ∷ "laboratorio" ∷ "pràctica" ∷ "práctica" ∷ "practica" ∷ "virtual" ∷ []

abbrev is_image : List ℕ → Bool
is_image name = any (λ suffix. ends_with (codes suffix) name) image_suffixes

abbrev pub has_token : String → Callback CallbackAction → Bool
has_token token c = same_text c.token token

-- What a callback has come to: `ApprovalOutcome.result`.
pub data Resolution : Type 0 where
  details approved ignored already_approved already_ignored conflict : Resolution

module _ (rt : Runtime) where
  -- `_requires_image_import` of adapters/aws/worker.py tests the same.
  unfoldable pub requires_image : NotificationEvent → Bool
  unfolding ends_with
  requires_image e =
      any (λ (a : NotificationAttachment). is_image (rt.lower (codes a.filename)))
        e.content.attachments

  -- The words are looked for in the course's names and the title, joined by blanks.
  abbrev mentions_lab : NotificationEvent → Bool
  mentions_lab e =
      let searchable =
        codes e.content.course_name
        ++ (b' ' ∷ codes e.content.course_shortname ++ (b' ' ∷ codes e.content.assignment_title)) in
      any (λ word. contains (codes word) (rt.lower searchable)) lab_words

  -- `_select_mode`
  unfoldable pub select_mode : NotificationEvent → ExecutionMode
  unfolding requires_image contains
  select_mode e =
      if requires_image e
      then ExecutionMode.in_guest
      else if any (λ (a : NotificationAttachment). a.is_lab_artifact) e.content.attachments
          || mentions_lab e
      then ExecutionMode.hybrid
      else ExecutionMode.central

  abbrev pub new_work : NotificationEvent → ℕ → WorkRow
  new_work e moment =
      let digest = rt.specification_digest e in
      record {
        event_id = e.event_id;
        selected_mode = select_mode e;
        specification_digest = digest;
        provision_key = rt.provision_key e.event_id digest;
        status = WorkStatus.pending;
        lab_handle = none;
        attempts = 0;
        available_at = moment;
        lease_owner = none;
        lease = none;
        error_code = none;
        created_at = moment;
        cleanup_due_at = none;
      }

  -- `_enqueue_work`: `INSERT OR IGNORE`, with the two unique columns
  unfoldable pub enqueue_work : NotificationEvent → ℕ → List WorkRow → List WorkRow
  unfolding select_mode
  enqueue_work e moment rows =
      let w = new_work e moment in
      if any
        (λ (v : WorkRow).
          same_text v.event_id w.event_id || same_text v.provision_key w.provision_key)
        rows
      then rows
      else w ∷ rows

abbrev pub same_action : CallbackAction → CallbackAction → Bool
same_action CallbackAction.approve CallbackAction.approve = true
same_action CallbackAction.ignore CallbackAction.ignore = true
same_action CallbackAction.details CallbackAction.details = true
same_action _ _ = false

abbrev pub actions : List CallbackAction
actions = CallbackAction.approve ∷ CallbackAction.ignore ∷ CallbackAction.details ∷ []

abbrev pub new_request : NotificationEvent → ℕ → Request
new_request e moment = record {
  event_id = e.event_id;
  task_key = e.task_key;
  revision_digest = e.revision_digest;
  payload = e;
  notified = none;
  decision = Decision.pending;
  decided = none;
  created_at = moment;
}

abbrev pub has_event : String → Request → Bool
has_event event_id r = same_text r.event_id event_id

abbrev pub has_identity : String → String → Request → Bool
has_identity task_key revision_digest r =
    same_text r.task_key task_key && same_text r.revision_digest revision_digest

-- `row == (event.task_key, event.revision_digest, payload)`
abbrev pub is_request_of : NotificationEvent → Request → Bool
is_request_of e r = has_identity e.task_key e.revision_digest r && same_event r.payload e

-- The first part of `prepare`: an insertion, or a comparison with the request that is there.
unfoldable pub prepare_request :
    NotificationEvent
    → ℕ
    → (ℕ → String)
    → ApprovalState
    → Option Request
    → Result StateError ApprovalState
unfolding NotificationEvent-discrete
prepare_request e moment tokens s none = do
  guard (not (any (has_identity e.task_key e.revision_digest) s.requests))
  cs ← insert_callbacks same_action e.event_id actions tokens s.callbacks
  ok (record s { requests = new_request e moment ∷ s.requests; callbacks = cs })
prepare_request e moment tokens s (some r) = do guard (is_request_of e r); ok s

-- `ApprovalButtons`
abbrev pub buttons : String → ApprovalState → Result StateError (String × String × String)
buttons event_id s = do
  approve ← token_of same_action event_id CallbackAction.approve s.callbacks
  ignore ← token_of same_action event_id CallbackAction.ignore s.callbacks
  show ← token_of same_action event_id CallbackAction.details s.callbacks
  ok (approve, ignore, show)

-- `prepare`
unfoldable pub prepare :
    NotificationEvent → ℕ → (ℕ → String) → ApprovalState → Outcome (String × String × String)
unfolding prepare_request
prepare e moment tokens s = do
  s' ← prepare_request e moment tokens s (select_one (has_event e.event_id) s.requests)
  b ← buttons e.event_id s'
  ok (b, s')

-- `mark_notified`
unfoldable pub mark_notified :
    NotificationEvent → (chat_id message_id : ℕ) → ApprovalState → Outcome (Unit {0})
unfolding update_where NotificationEvent-discrete
mark_notified e chat_id message_id s = do
  guard (positive_id chat_id && positive_id message_id)
  r ← found (select_one (has_event e.event_id) s.requests)
  guard (is_request_of e r)
  ok (
    tt,
    record s {
      requests =
          update_where (has_event e.event_id)
            (λ q. record q { notified = some (chat_id, message_id) }) s.requests;
    },
  )

abbrev pub decide : Decision → ℕ → ℕ → NotificationEvent → List Request → List Request
decide d user_id moment e rows =
    update_where (λ r. has_event e.event_id r && is_pending r.decision)
      (λ r. record r { decision = d; decided = some (user_id, moment) }) rows

module _ (rt : Runtime) where
  -- `resolve` from the row that its SELECT has joined
  unfoldable pub resolve_request :
      ℕ
      → ℕ
      → ApprovalState
      → CallbackAction
      → NotificationEvent
      → Decision
      → Resolution × ApprovalState
  unfolding update_where enqueue_work
  resolve_request user_id moment s CallbackAction.details e d = (Resolution.details, s)
  resolve_request user_id moment s CallbackAction.approve e Decision.pending = (
    Resolution.approved,
    record s {
      requests = decide Decision.approved user_id moment e s.requests;
      work_items = enqueue_work rt e moment s.work_items;
    },
  )
  resolve_request user_id moment s CallbackAction.approve e Decision.approved =
      (Resolution.already_approved, record s { work_items = enqueue_work rt e moment s.work_items })
  resolve_request user_id moment s CallbackAction.approve e Decision.ignored =
      (Resolution.conflict, s)
  resolve_request user_id moment s CallbackAction.ignore e Decision.pending = (
    Resolution.ignored,
    record s { requests = decide Decision.ignored user_id moment e s.requests },
  )
  resolve_request user_id moment s CallbackAction.ignore e Decision.ignored =
      (Resolution.already_ignored, s)
  resolve_request user_id moment s CallbackAction.ignore e Decision.approved =
      (Resolution.conflict, s)

  -- `resolve`, of a token in the form that it demands
  unfoldable pub resolve :
      String → (user_id allowed_user_id moment : ℕ) → ApprovalState → Outcome Resolution
  unfolding resolve_request
  resolve token user_id allowed_user_id moment s = do
    guard (positive_id user_id && positive_id allowed_user_id && user_id == allowed_user_id)
    c ← found (select_one (has_token token) s.callbacks)
    r ← found (select_one (has_event c.event_id) s.requests)
    ok (resolve_request user_id moment s c.action r.payload r.decision)

-- `decision`
unfoldable pub decision : String → String → ApprovalState → Option Decision
decision task_key revision_digest s =
    elim (select_one
      (λ (r : Request).
        same_text r.task_key task_key && same_text r.revision_digest revision_digest)
      s.requests) [ none ↦ none | some r ↦ some r.decision ]

-- `advance_update_id`
unfoldable pub advance_update_id : ℕ → ApprovalState → ℕ × ApprovalState
advance_update_id processed_update_id s =
    let next = max s.next_update_id (processed_update_id + 1) in
    (next, record s { next_update_id = next })
