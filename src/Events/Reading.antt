-- ===== src/Events/Reading.antt =====
-- adapters/moodle/state.py: `_event_from_json`, from the value that `json.loads` gave. `none` is the
-- `MoodleStateError` that every failed check ends in.
use moodle_autotask.Base.{
  ℕ, ◌*◌, String, Bool, true, false, ◌&&◌, ◌||◌, Option, none, some, List, [], ◌∷◌, ◌++◌, map,
  if◌then◌else◌, all, any,
}
use moodle_autotask.Events.{
  NotificationAttachment, Content, Status, new, updated, NotificationEvent, same_text,
  valid_attachment, valid_event, Plain, null, boolean, number, text, Value, plain, dicts, Dict,
}

infixl 5 ◌>>=◌ ◌>>◌
abbrev pub ◌>>=◌ : {A B : Type 0} → Option A → (A → Option B) → Option B
none >>= f = none
some a >>= f = f a

abbrev pub ◌>>◌ : {A B : Type 0} → Option A → Option B → Option B
m >> k = m >>= λ _. k

abbrev pub guard : Bool → Option (Unit {0})
guard test = if test then some tt else none

unfoldable pub get : {V : Type 0} → String → List (String × V) → Option V
get k [] = none
get k ((j, v) ∷ d) = if same_text k j then some v else get k d

abbrev pub keys : {V : Type 0} → List (String × V) → List String
keys d = map (λ (k, _). k) d

abbrev is_subset : List String → List String → Bool
is_subset xs ys = all (λ x. any (same_text x) ys) xs

-- `set(xs) == set(ys)`
unfoldable same_set : List String → List String → Bool
same_set xs ys = is_subset xs ys && is_subset ys xs

abbrev pub as_text : Plain → Option String
as_text (text t) = some t
as_text _ = none

abbrev pub as_number : Plain → Option ℕ
as_number (number n) = some n
as_number _ = none

abbrev as_boolean : Plain → Option Bool
as_boolean (boolean b) = some b
as_boolean _ = none

abbrev pub or_none : {A : Type 0} → (Plain → Option A) → Plain → Option (Option A)
or_none read null = some none
or_none read v = read v >>= (λ a. some (some a))

abbrev attachment_keys : List String
attachment_keys = "filename" ∷ "size_bytes" ∷ "mimetype" ∷ "is_lab_artifact" ∷ []

-- `NotificationAttachment(**item)`, of a dict with the permitted keys
unfoldable pub read_attachment : List (String × Plain) → Option NotificationAttachment
unfolding get same_set
read_attachment d = do
  guard (same_set (keys d) attachment_keys)
  filename ← get "filename" d >>= as_text
  size_bytes ← get "size_bytes" d >>= as_number
  mimetype ← get "mimetype" d >>= or_none as_text
  is_lab_artifact ← get "is_lab_artifact" d >>= as_boolean
  let a : NotificationAttachment = record {
    filename = filename;
    size_bytes = size_bytes;
    mimetype = mimetype;
    is_lab_artifact = is_lab_artifact;
  }
  guard (valid_attachment a)
  some a

unfoldable pub read_attachments :
    List (List (String × Plain)) → Option (List NotificationAttachment)
unfolding read_attachment
read_attachments [] = some []
read_attachments (d ∷ ds) = do a ← read_attachment d; rest ← read_attachments ds; some (a ∷ rest)

abbrev as_plain : Value → Option Plain
as_plain (plain p) = some p
as_plain _ = none

abbrev as_dicts : Value → Option (List (List (String × Plain)))
as_dicts (dicts ds) = some ds
as_dicts _ = none

-- `raw[key]`
abbrev pub field : {A : Type 0} → (Plain → Option A) → String → Dict → Option A
field read key raw = get key raw >>= as_plain >>= read

abbrev get_or : Plain → Option Value → Value
get_or default none = plain default
get_or default (some v) = v

-- `raw.get(key, default)`
abbrev field_or : {A : Type 0} → (Plain → Option A) → Plain → String → Dict → Option A
field_or read default key raw = as_plain (get_or default (get key raw)) >>= read

abbrev pub read_status : String → Option Status
read_status t =
    if same_text t "NEW" then some new else if same_text t "UPDATED" then some updated else none

abbrev required_keys : List String
required_keys =
    "kind" ∷ "event_id" ∷ "status" ∷ "task_key" ∷ "revision_digest" ∷ "course_name"
    ∷ "course_shortname" ∷ "assignment_title" ∷ "allows_submissions_from" ∷ "due_date"
    ∷ "cutoff_date" ∷ "grading_due_date" ∷ "time_modified" ∷ "attachments" ∷ []

abbrev policy_keys : List String
policy_keys =
    "assignment_id" ∷ "submission_drafts" ∷ "requires_submission_statement" ∷ "submission_statement"
    ∷ "submission_statement_format" ∷ "team_submission" ∷ "no_submissions"
    ∷ "file_submission_enabled" ∷ "file_submission_max_files" ∷ "file_submission_max_bytes"
    ∷ "file_submission_filetypes" ∷ []

-- `set(raw) in permitted_keys`
unfoldable pub is_permitted : List String → Bool
unfolding same_set
is_permitted ks =
    same_set ks required_keys
    || same_set ks ("assignment_id" ∷ required_keys)
    || same_set ks ("assignment_id" ∷ "submission_drafts" ∷ required_keys)
    || same_set ks
        ("assignment_id" ∷ "submission_drafts" ∷ "requires_submission_statement" ∷ required_keys)
    || same_set ks (required_keys ++ policy_keys)

unfoldable pub read_content : Dict → Option Content
unfolding get read_attachments
read_content raw = do
  course_name ← field as_text "course_name" raw
  course_shortname ← field as_text "course_shortname" raw
  assignment_title ← field as_text "assignment_title" raw
  allows_submissions_from ← field as_number "allows_submissions_from" raw
  due_date ← field as_number "due_date" raw
  cutoff_date ← field as_number "cutoff_date" raw
  grading_due_date ← field as_number "grading_due_date" raw
  time_modified ← field as_number "time_modified" raw
  attachments ← get "attachments" raw >>= as_dicts >>= read_attachments
  assignment_id ← field_or (or_none as_number) null "assignment_id" raw
  submission_drafts ← field_or as_boolean (boolean false) "submission_drafts" raw
  requires_submission_statement ←
      field_or as_boolean (boolean false) "requires_submission_statement" raw
  submission_statement ← field_or as_text (text "") "submission_statement" raw
  submission_statement_format ← field_or as_number (number 0) "submission_statement_format" raw
  team_submission ← field_or as_boolean (boolean false) "team_submission" raw
  no_submissions ← field_or as_boolean (boolean false) "no_submissions" raw
  file_submission_enabled ← field_or as_boolean (boolean true) "file_submission_enabled" raw
  file_submission_max_files ← field_or as_number (number 1) "file_submission_max_files" raw
  file_submission_max_bytes ←
      field_or as_number (number (2 * 1024 * 1024)) "file_submission_max_bytes" raw
  file_submission_filetypes ← field_or as_text (text ".md") "file_submission_filetypes" raw
  some (record {
    course_name = course_name;
    course_shortname = course_shortname;
    assignment_title = assignment_title;
    allows_submissions_from = allows_submissions_from;
    due_date = due_date;
    cutoff_date = cutoff_date;
    grading_due_date = grading_due_date;
    time_modified = time_modified;
    attachments = attachments;
    assignment_id = assignment_id;
    submission_drafts = submission_drafts;
    requires_submission_statement = requires_submission_statement;
    submission_statement = submission_statement;
    submission_statement_format = submission_statement_format;
    team_submission = team_submission;
    no_submissions = no_submissions;
    file_submission_enabled = file_submission_enabled;
    file_submission_max_files = file_submission_max_files;
    file_submission_max_bytes = file_submission_max_bytes;
    file_submission_filetypes = file_submission_filetypes;
  })

-- `_event_from_json`
unfoldable pub event_from_json : (String → String → String) → Dict → Option NotificationEvent
unfolding is_permitted read_content
event_from_json event_id_of raw = do
  guard (is_permitted (keys raw))
  event_id ← field as_text "event_id" raw
  kind ← field as_text "kind" raw
  guard (same_text kind "moodle-notification-v1")
  status ← field as_text "status" raw >>= read_status
  task_key ← field as_text "task_key" raw
  revision_digest ← field as_text "revision_digest" raw
  content ← read_content raw
  let event : NotificationEvent = record {
    event_id = event_id;
    status = status;
    task_key = task_key;
    revision_digest = revision_digest;
    content = content;
  }
  guard (valid_event event_id_of event)
  some event
