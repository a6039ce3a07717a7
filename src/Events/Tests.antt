-- ===== src/Events/Tests.antt =====
-- adapters/moodle/state.py: an event with an attachment.
use moodle_autotask.Base.{String, ◌≡◌, refl, true, false, none, some, [], ◌∷◌, String-discrete}
use moodle_autotask.Events.{
  new, NotificationAttachment, NotificationEvent, valid_attachment, valid_event, as_dict,
}
use moodle_autotask.Events.Reading.{event_from_json}
use moodle_autotask.Models.Checks.{is_blank}
use moodle_autotask.Events.RoundTrip.{event_from_json-as_dict}

abbrev id_of : String → String → String
id_of task_key revision_digest =
    "moodle-notification-event-v1:0123456789abcdef0123456789abcdef0123456789abcdef0123456789abcdef"

abbrev pub image : NotificationAttachment
image = record { filename = "lab.ova"; size_bytes = 1024; mimetype = none; is_lab_artifact = true }

abbrev pub event : NotificationEvent
event = record {
  event_id =
      "moodle-notification-event-v1:0123456789abcdef0123456789abcdef0123456789abcdef0123456789abcdef";
  status = new;
  task_key = "moodle-task-v1:0123456789abcdef0123456789abcdef0123456789abcdef0123456789abcdef";
  revision_digest =
      "moodle-assignment-v1:0123456789abcdef0123456789abcdef0123456789abcdef0123456789abcdef";
  content = record {
    course_name = "Operating systems";
    course_shortname = "OS";
    assignment_title = "Harden a server";
    allows_submissions_from = 0;
    due_date = 1700000000;
    cutoff_date = 0;
    grading_due_date = 0;
    time_modified = 1600000000;
    attachments = image ∷ [];
    assignment_id = some 17;
    submission_drafts = true;
    requires_submission_statement = false;
    submission_statement = "";
    submission_statement_format = 0;
    team_submission = false;
    no_submissions = false;
    file_submission_enabled = true;
    file_submission_max_files = 1;
    file_submission_max_bytes = 2097152;
    file_submission_filetypes = ".md";
  };
}

event_passes : valid_event id_of event ≡ true
unfolding valid_event is_blank String-discrete
event_passes = refl

image_passes : valid_attachment image ≡ true
unfolding valid_attachment String-discrete
image_passes = refl

event_from_json-as_dict_example : event_from_json id_of (as_dict event) ≡ some event
event_from_json-as_dict_example =
    event_from_json-as_dict id_of event event_passes (image_passes, tt)
