-- ===== src/Worker/Submit/Tests.antt =====
-- adapters/aws/worker.py at a concrete Moodle service.
use moodle_autotask.Exec.{◌>>=◌, catch}
use moodle_autotask.Base.{◌+◌, ◌≤◌, ◌≡◌, refl, true, false, some, [], String-discrete, ok, err}
use moodle_autotask.Worker.Types.{
  SubmissionManifest, Phase, SubmissionClaim, Error, submission_confirmed, Environment, call,
}
use moodle_autotask.Worker.Submit.{
  process_claimed, process_submission, process_phase, upload, record_submission_draft,
  save_if_owned, try_save, save, after_save, recover_save, verify, confirm_ambiguous, complete_with,
  complete_submission, receipt_reference,
}
use moodle_autotask.Worker.Submit.Counts.{saves, finalizes, uploads}
use moodle_autotask.Worker.Submit.Once.{cycle_mutates_once, recovery_repeats_nothing}
use moodle_autotask.Worker.Submit.Evidence.{IsConfirmed, IsConfirmed-has_receipt}

abbrev manifest : SubmissionManifest
manifest = record {
  event = record { event_id = "event-1"; submission_drafts = false };
  manifest_digest = "m";
  filename = "report.md";
  report_markdown = "# Report";
  report_digest = "r";
}

abbrev claim_in : Phase → SubmissionClaim
claim_in p = record {
  manifest = manifest;
  lease_token = "token";
  phase = p;
  draft_item_id = some 7;
}

-- The response to `save` is lost, and Moodle has the submission all the same.
abbrev lossy : Environment
lossy = record {
  claim_submission = λ _. ok (some (claim_in Phase.uploading));
  upload = λ _ _. ok 7;
  save = λ _ _ _. err Error.runtime_error;
  finalize = λ _ _. ok tt;
  verify = λ _ _. ok (some (record { reference = some "moodle-submission:1" }));
  verify_draft = λ _ _. ok false;
  record_submission_draft = λ _ _ _. ok (some (claim_in Phase.saving));
  record_submission_finalizing = λ _ _. ok (some (claim_in Phase.finalizing));
  complete_submission = λ _ _ _. ok true;
  fail_submission = λ _ _ _. ok true;
}

lossy_confirms :
    (process_claimed lossy (some (claim_in Phase.uploading)) []).0 ≡ ok (some submission_confirmed)
unfolding process_claimed process_phase upload record_submission_draft save_if_owned try_save save
    after_save recover_save verify confirm_ambiguous complete_with complete_submission
    receipt_reference catch call ◌>>=◌ String-discrete
lossy_confirms = refl

cycle_mutates_once_example :
    (uploads (process_submission lossy []).1 ≤ uploads [] + 1)
    × (saves (process_submission lossy []).1 ≤ saves [] + 1)
    × (finalizes (process_submission lossy []).1 ≤ finalizes [] + 1)
cycle_mutates_once_example = cycle_mutates_once lossy []

recovery_repeats_nothing_example :
    let log' = (process_claimed lossy (some (claim_in Phase.saving)) []).1 in
    (uploads log' ≤ uploads []) × (saves log' ≤ saves []) × (finalizes log' ≤ finalizes [] + 1)
recovery_repeats_nothing_example =
    recovery_repeats_nothing lossy (claim_in Phase.saving) [] (λ e. cc)

IsConfirmed-has_receipt_example :
    IsConfirmed (process_claimed lossy (some (claim_in Phase.uploading)) []).1
IsConfirmed-has_receipt_example =
    IsConfirmed-has_receipt lossy (claim_in Phase.uploading) [] lossy_confirms
