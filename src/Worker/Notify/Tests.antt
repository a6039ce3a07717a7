-- ===== src/Worker/Notify/Tests.antt =====
-- adapters/aws/worker.py: an execution that is notified, and its submission offered.
use moodle_autotask.Base.{String, ◌≡◌, refl, true, none, some, [], ◌∷◌, ok, err}
use moodle_autotask.Exec.{catch, ◌>>=◌, pure}
use moodle_autotask.Events.Tests.{event}
use moodle_autotask.Approvals.{SubmissionManifest}
use moodle_autotask.Approvals.Submissions.Tests.{manifest}
use moodle_autotask.Worker.Notify.{
  Failure, ExecutionNotification, execution_read, notified, offer_checked, submission_prepared,
  ready_notified, execution_marked, result_read, Environment, deliver_pending_notification, call,
}
use moodle_autotask.Worker.Notify.Marked.{AllPermitted, deliver-AllPermitted}

abbrev execution : ExecutionNotification
execution = record {
  event = event;
  succeeded = true;
  summary = "done";
  report_markdown = "# Report";
}

abbrev offer : SubmissionManifest × (String × String × String)
offer = (manifest, ("submit", "decline", "details"))

abbrev ports : Environment
ports = record {
  has_notifier = true;
  notifies_submissions = true;
  has_service = true;
  pending_execution = λ log. ok (some execution);
  notify = λ log n. ok tt;
  notify_blocked = λ log e. ok tt;
  can_offer = λ log e. ok tt;
  prepare_submission = λ log n. ok offer;
  notify_ready = λ log o. ok tt;
  mark_execution = λ log n. ok tt;
  pending_result = λ log. ok none;
  notify_result = λ log r. err Failure.runtime;
  mark_result = λ log r. ok tt;
}

offered :
    (deliver_pending_notification ports []).1
    ≡ result_read (ok none)
      ∷ execution_marked execution (ok tt)
      ∷ ready_notified offer (ok tt)
      ∷ submission_prepared execution (ok offer)
      ∷ offer_checked event (ok tt)
      ∷ notified execution (ok tt)
      ∷ execution_read (ok (some execution))
      ∷ []
unfolding deliver_pending_notification ◌>>=◌ pure catch call
offered = refl

deliver-AllPermitted_example : AllPermitted (deliver_pending_notification ports []).1
deliver-AllPermitted_example = deliver-AllPermitted ports
