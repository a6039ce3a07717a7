-- ===== src/Events.antt =====
-- adapters/moodle/state.py: the notifications, their `__post_init__` checks, and how an event is
-- stored as JSON. A dict is the list of its entries. A value of it is one of those that the code
-- tells apart: `other` is any further one, among them negative numbers, and a list that has other
-- things in it than dicts of plain values.
pub mod Reading
pub mod RoundTrip
pub mod Tests
use moodle_autotask.Base.{
  ℕ, ◌+◌, ◌*◌, String, Bool, true, false, not, ◌&&◌, Option, none, some, List, [], ◌∷◌, map,
  ℕ_discrete, ltb, leb, ◌==◌, if◌then◌else◌, holds, String-discrete, codes, length, all,
}
use moodle_autotask.Models.Checks.{is_blank, is_hex}

pub record NotificationAttachment : Type 0 where
  pub filename : String
  pub size_bytes : ℕ
  pub mimetype : Option String
  pub is_lab_artifact : Bool

-- The fields that `NotificationDraft` and `NotificationEvent` have beside the task's identity.
pub record Content : Type 0 where
  pub course_name : String
  pub course_shortname : String
  pub assignment_title : String
  pub allows_submissions_from : ℕ
  pub due_date : ℕ
  pub cutoff_date : ℕ
  pub grading_due_date : ℕ
  pub time_modified : ℕ
  pub attachments : List NotificationAttachment
  pub assignment_id : Option ℕ
  pub submission_drafts : Bool
  pub requires_submission_statement : Bool
  pub submission_statement : String
  pub submission_statement_format : ℕ
  pub team_submission : Bool
  pub no_submissions : Bool
  pub file_submission_enabled : Bool
  pub file_submission_max_files : ℕ
  pub file_submission_max_bytes : ℕ
  pub file_submission_filetypes : String

pub data Status : Type 0 where
  new updated : Status

pub record NotificationDraft : Type 0 where
  pub task_key : String
  pub revision_digest : String
  pub content : Content

-- The field `kind` has but one permitted value.
pub record NotificationEvent : Type 0 where
  pub event_id : String
  pub status : Status
  pub task_key : String
  pub revision_digest : String
  pub content : Content

abbrev pub same_text : String → String → Bool
same_text a b = holds (String-discrete a b)

abbrev text_length : String → ℕ
text_length s = length (codes s)

abbrev utf8_width : ℕ → ℕ
utf8_width c = if ltb c 128 then 1 else if ltb c 2048 then 2 else if ltb c 65536 then 3 else 4

-- `len(text.encode("utf-8"))`
unfoldable utf8_length : List ℕ → ℕ
utf8_length [] = 0
utf8_length (c ∷ cs) = utf8_width c + utf8_length cs

-- A match of `prefix[0-9a-f]{64}`.
unfoldable is_keyed : List ℕ → List ℕ → Bool
is_keyed [] cs = length cs == 64 && all is_hex cs
is_keyed (p ∷ ps) [] = false
is_keyed (p ∷ ps) (c ∷ cs) = p == c && is_keyed ps cs

-- `_validate_identity`
unfoldable pub validate_identity : String → String → Bool
unfolding is_keyed
validate_identity task_key revision_digest =
    is_keyed (codes "moodle-task-v1:") (codes task_key)
    && is_keyed (codes "moodle-assignment-v1:") (codes revision_digest)

abbrev is_short : Option String → Bool
is_short none = true
is_short (some t) = leb (text_length t) 255

-- `NotificationAttachment.__post_init__`
unfoldable pub valid_attachment : NotificationAttachment → Bool
valid_attachment a =
    not (same_text a.filename "") && leb (text_length a.filename) 255 && is_short a.mimetype

abbrev is_title : String → Bool
is_title t = not (is_blank t) && leb (text_length t) 4096

abbrev is_positive : Option ℕ → Bool
is_positive none = true
is_positive (some n) = ltb 0 n

-- `NotificationDraft.__post_init__`
unfoldable pub valid_draft : NotificationDraft → Bool
unfolding validate_identity utf8_length
valid_draft d =
    let c = d.content in
    validate_identity d.task_key d.revision_digest
    && all is_title (c.course_name ∷ c.course_shortname ∷ c.assignment_title ∷ [])
    && leb (length c.attachments) 1000
    && is_positive c.assignment_id
    && leb (utf8_length (codes c.submission_statement)) (2 * 1024 * 1024)
    && leb c.file_submission_max_files 1000
    && leb (text_length c.file_submission_filetypes) 4096

abbrev draft_of : NotificationEvent → NotificationDraft
draft_of e = record {
  task_key = e.task_key;
  revision_digest = e.revision_digest;
  content = e.content;
}

-- `NotificationEvent.__post_init__`; `event_id_of` is `_event_id`, a hash
unfoldable pub valid_event : (String → String → String) → NotificationEvent → Bool
unfolding valid_draft
valid_event event_id_of e =
    is_keyed (codes "moodle-notification-event-v1:") (codes e.event_id)
    && same_text e.event_id (event_id_of e.task_key e.revision_digest)
    && valid_draft (draft_of e)

pub data Plain : Type 0 where
  null : Plain
  boolean : Bool → Plain
  number : ℕ → Plain
  text : String → Plain

pub data Value : Type 0 where
  plain : Plain → Value
  dicts : List (List (String × Plain)) → Value
  other : Value

abbrev pub Dict : Type 0
Dict = List (String × Value)

abbrev or_null : {A : Type 0} → (A → Plain) → Option A → Plain
or_null f none = null
or_null f (some a) = f a

abbrev status_text : Status → String
status_text new = "NEW"
status_text updated = "UPDATED"

-- `NotificationAttachment.as_dict`
unfoldable pub attachment_as_dict : NotificationAttachment → List (String × Plain)
attachment_as_dict a =
    ("filename", text a.filename)
    ∷ ("size_bytes", number a.size_bytes)
    ∷ ("mimetype", or_null text a.mimetype)
    ∷ ("is_lab_artifact", boolean a.is_lab_artifact)
    ∷ []

-- `NotificationEvent.as_dict`
unfoldable pub as_dict : NotificationEvent → Dict
unfolding attachment_as_dict
as_dict e =
    let c = e.content in
    ("kind", plain (text "moodle-notification-v1"))
    ∷ ("event_id", plain (text e.event_id))
    ∷ ("status", plain (text (status_text e.status)))
    ∷ ("task_key", plain (text e.task_key))
    ∷ ("revision_digest", plain (text e.revision_digest))
    ∷ ("course_name", plain (text c.course_name))
    ∷ ("course_shortname", plain (text c.course_shortname))
    ∷ ("assignment_title", plain (text c.assignment_title))
    ∷ ("allows_submissions_from", plain (number c.allows_submissions_from))
    ∷ ("due_date", plain (number c.due_date))
    ∷ ("cutoff_date", plain (number c.cutoff_date))
    ∷ ("grading_due_date", plain (number c.grading_due_date))
    ∷ ("time_modified", plain (number c.time_modified))
    ∷ ("attachments", dicts (map attachment_as_dict c.attachments))
    ∷ ("assignment_id", plain (or_null number c.assignment_id))
    ∷ ("submission_drafts", plain (boolean c.submission_drafts))
    ∷ ("requires_submission_statement", plain (boolean c.requires_submission_statement))
    ∷ ("submission_statement", plain (text c.submission_statement))
    ∷ ("submission_statement_format", plain (number c.submission_statement_format))
    ∷ ("team_submission", plain (boolean c.team_submission))
    ∷ ("no_submissions", plain (boolean c.no_submissions))
    ∷ ("file_submission_enabled", plain (boolean c.file_submission_enabled))
    ∷ ("file_submission_max_files", plain (number c.file_submission_max_files))
    ∷ ("file_submission_max_bytes", plain (number c.file_submission_max_bytes))
    ∷ ("file_submission_filetypes", plain (text c.file_submission_filetypes))
    ∷ []

unfoldable pub NotificationAttachment-discrete : Discrete NotificationAttachment
unfolding String-discrete ℕ_discrete
NotificationAttachment-discrete = hlevel (String-discrete, ℕ_discrete)

unfoldable pub Content-discrete : Discrete Content
unfolding String-discrete ℕ_discrete NotificationAttachment-discrete
Content-discrete = hlevel (String-discrete, ℕ_discrete, NotificationAttachment-discrete)

-- `==` of events, and of the payloads that they are stored as.
unfoldable pub NotificationEvent-discrete : Discrete NotificationEvent
unfolding String-discrete Content-discrete
NotificationEvent-discrete = hlevel (String-discrete, Content-discrete)
