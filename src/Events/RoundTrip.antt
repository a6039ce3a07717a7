-- ===== src/Events/RoundTrip.antt =====
-- adapters/moodle/state.py: what is stored of an event is read back as that event.
use moodle_autotask.Base.{
  ℕ, String, ◌≡◌, refl, Bool, true, Option, none, some, List, [], ◌∷◌, map, String-discrete, All,
}
use moodle_autotask.Events.{
  NotificationAttachment, valid_attachment, attachment_as_dict, Status, as_dict, same_text,
  NotificationEvent, new, updated, status_text, valid_event, or_null, number,
}
use moodle_autotask.Events.Reading.{
  read_attachment, read_attachments, read_content, is_permitted, or_none, event_from_json,
  as_number, read_status, get, keys, field, as_text,
}

attachment_returns :
    (filename : String) (size_bytes : ℕ) (mimetype : Option String) (is_lab_artifact : Bool)
    → let a : NotificationAttachment = record {
      filename = filename;
      size_bytes = size_bytes;
      mimetype = mimetype;
      is_lab_artifact = is_lab_artifact;
    } in
      valid_attachment a ≡ true → read_attachment (attachment_as_dict a) ≡ some a
unfolding read_attachment attachment_as_dict String-discrete
attachment_returns filename size_bytes none is_lab_artifact h = rw h refl
attachment_returns filename size_bytes (some m) is_lab_artifact h = rw h refl

attachments_return :
    (items : List NotificationAttachment)
    → All (λ a. valid_attachment a ≡ true) items
    → read_attachments (map attachment_as_dict items) ≡ some items
unfolding read_attachments
attachments_return [] h = refl
attachments_return (a ∷ rest) (h, hs) =
    rw
      (
        attachment_returns a.filename a.size_bytes a.mimetype a.is_lab_artifact h,
        attachments_return rest hs,
      )
      refl

number_returns :
    (assignment_id : Option ℕ)
    → or_none as_number (or_null number assignment_id) ≡ some assignment_id
number_returns none = refl
number_returns (some n) = refl

status_returns : (s : Status) → read_status (status_text s) ≡ some s
unfolding String-discrete
status_returns new = refl
status_returns updated = refl

same_kind : same_text "moodle-notification-v1" "moodle-notification-v1" ≡ true
unfolding String-discrete
same_kind = refl

permitted : (e : NotificationEvent) → is_permitted (keys (as_dict e)) ≡ true
unfolding is_permitted as_dict String-discrete
permitted e = refl

content_returns :
    (e : NotificationEvent)
    → All (λ a. valid_attachment a ≡ true) e.content.attachments
    → read_content (as_dict e) ≡ some e.content
unfolding read_content as_dict String-discrete get
content_returns e h =
    rw (attachments_return e.content.attachments h, number_returns e.content.assignment_id) refl

text_field :
    (e : NotificationEvent)
    → (field as_text "event_id" (as_dict e) ≡ some e.event_id)
      × (field as_text "kind" (as_dict e) ≡ some "moodle-notification-v1")
      × (field as_text "status" (as_dict e) ≡ some (status_text e.status))
      × (field as_text "task_key" (as_dict e) ≡ some e.task_key)
      × (field as_text "revision_digest" (as_dict e) ≡ some e.revision_digest)
unfolding as_dict String-discrete get
text_field e = (refl, refl, refl, refl, refl)

-- An event that passes the checks of `NotificationEvent` and of its attachments is read back, from
-- the dict in which it is stored, as that very event.
pub event_from_json-as_dict :
    (event_id_of : String → String → String) (e : NotificationEvent)
    → valid_event event_id_of e ≡ true
    → All (λ a. valid_attachment a ≡ true) e.content.attachments
    → event_from_json event_id_of (as_dict e) ≡ some e
unfolding event_from_json
event_from_json-as_dict event_id_of e h k =
    let (id, kind, status, task, revision) = text_field e in
    rw
      (
        permitted e,
        id,
        kind,
        same_kind,
        status,
        status_returns e.status,
        task,
        revision,
        content_returns e k,
        h,
      )
      refl
