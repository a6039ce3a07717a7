-- ===== src/Outbox.antt =====
-- adapters/moodle/state.py: `MoodleState`, the durable outbox of notifications. The two tables are
-- lists of rows, and a method is one transaction: what it raises leaves the tables as they were.
-- The columns of a lease and the time of a delivery stand in `delivery_state`, as the table's two
-- CHECKs demand. A row's payload is the event that is read back from it, `none` if
-- `_event_from_json` (Events/Reading) refuses it.
pub mod Leases
pub mod Keeps
pub mod Claims
pub mod Operations
pub mod Final
pub mod Acknowledged
mod Tests
use moodle_autotask.Base.{
  ℕ, String, Bool, true, false, ◌&&◌, ◌||◌, Option, none, some, List, ◌∷◌, if◌then◌else◌, any,
}
use moodle_autotask.Table.{update_where}
use moodle_autotask.Events.{Status, new, updated, NotificationDraft, NotificationEvent, same_text}

pub record OutboxClaim : Type 0 where
  pub event : NotificationEvent
  pub lease_token : String

pub data DeliveryState : Type 0 where
  pending : DeliveryState
  leased : (owner token : String) (expires_at : ℕ) → DeliveryState
  delivered : (delivered_at : ℕ) → DeliveryState

pub data ErrorCode : Type 0 where
  sink_failed ownership_lost : ErrorCode

-- A row of the table `outbox`.
pub record Row : Type 0 where
  pub event_id : String
  pub task_key : String
  pub revision_digest : String
  pub payload : Option NotificationEvent
  pub delivery_state : DeliveryState
  pub attempts : ℕ
  pub available_at : ℕ
  pub created_at : ℕ
  pub error_code : Option ErrorCode

pub record MoodleState : Type 0 where
  pub outbox : List Row
  pub acknowledgements : List (String × String)

-- `MoodleStateError`
pub data StateError : Type 0 where
  state_error : StateError

-- `_MAX_ATTEMPTS`
abbrev pub max_attempts : ℕ
max_attempts = 1000000

abbrev pub has_identity : String → String → Row → Bool
has_identity task_key revision_digest r =
    same_text r.task_key task_key && same_text r.revision_digest revision_digest

abbrev is_acknowledgement : String → String → String × String → Bool
is_acknowledgement task_key revision_digest (k, v) =
    same_text k task_key && same_text v revision_digest

-- `_is_acknowledged`
unfoldable pub is_acknowledged : String → String → MoodleState → Bool
is_acknowledged task_key revision_digest s =
    any (is_acknowledgement task_key revision_digest) s.acknowledgements

-- `_is_suppressed`
unfoldable pub is_suppressed : String → String → MoodleState → Bool
unfolding is_acknowledged
is_suppressed task_key revision_digest s =
    is_acknowledged task_key revision_digest s
    || any (has_identity task_key revision_digest) s.outbox

-- `_has_prior_ack`
unfoldable pub has_prior_ack : String → MoodleState → Bool
has_prior_ack task_key s = any (λ (k, _). same_text k task_key) s.acknowledgements

-- `_has_prior`
unfoldable pub has_prior : String → MoodleState → Bool
unfolding has_prior_ack
has_prior task_key s = has_prior_ack task_key s || any (λ r. same_text r.task_key task_key) s.outbox

-- `INSERT OR IGNORE INTO acknowledgements`
unfoldable pub insert_or_ignore : String → String → MoodleState → List (String × String)
unfolding is_acknowledged
insert_or_ignore task_key revision_digest s =
    if is_acknowledged task_key revision_digest s
    then s.acknowledgements
    else (task_key, revision_digest) ∷ s.acknowledgements

-- `status`, of an identity in the form that `_validate_identity` demands
unfoldable pub status : String → String → MoodleState → Option Status
unfolding is_acknowledged has_prior_ack
status task_key revision_digest s =
    if is_acknowledged task_key revision_digest s
    then none
    else some (if has_prior_ack task_key s then updated else new)

abbrev pub set_delivered : ℕ → Row → Row
set_delivered moment r = record r { delivery_state = delivered moment; error_code = none }

abbrev pub is_open : DeliveryState → Bool
is_open (delivered _) = false
is_open _ = true

-- `acknowledge`
unfoldable pub acknowledge : String → String → ℕ → MoodleState → MoodleState
unfolding insert_or_ignore update_where
acknowledge task_key revision_digest now s = record {
  acknowledgements = insert_or_ignore task_key revision_digest s;
  outbox =
      update_where (λ r. has_identity task_key revision_digest r && is_open r.delivery_state)
        (set_delivered now) s.outbox;
}

-- `_event_from_draft`; `event_id_of` is `_event_id`, a hash
abbrev pub event_from_draft :
    (String → String → String) → NotificationDraft → Status → NotificationEvent
event_from_draft event_id_of draft status = record {
  event_id = event_id_of draft.task_key draft.revision_digest;
  status = status;
  task_key = draft.task_key;
  revision_digest = draft.revision_digest;
  content = draft.content;
}

abbrev pub new_row : NotificationEvent → ℕ → Row
new_row event moment = record {
  event_id = event.event_id;
  task_key = event.task_key;
  revision_digest = event.revision_digest;
  payload = some event;
  delivery_state = pending;
  attempts = 0;
  available_at = moment;
  created_at = moment;
  error_code = none;
}

abbrev pub has_id : String → Row → Bool
has_id event_id r = same_text r.event_id event_id

-- The end of `enqueue`: an event whose key is taken is an `IntegrityError`.
unfoldable pub insert_event :
    NotificationEvent → ℕ → MoodleState → Option NotificationEvent × MoodleState
insert_event event moment s =
    if any (has_id event.event_id) s.outbox
    then (none, s)
    else (some event, record s { outbox = new_row event moment ∷ s.outbox })

-- `enqueue`
unfoldable pub enqueue :
    (String → String → String)
    → NotificationDraft
    → ℕ
    → MoodleState
    → Option NotificationEvent × MoodleState
unfolding is_suppressed has_prior insert_event
enqueue event_id_of draft moment s =
    if is_suppressed draft.task_key draft.revision_digest s
    then (none, s)
    else insert_event
        (event_from_draft event_id_of draft (if has_prior draft.task_key s then updated else new))
        moment s
