-- ===== src/Approvals/Submissions/Tests.antt =====
-- adapters/moodle/approval_state.py: a submission on its way, at concrete calls.
use moodle_autotask.Base.{
  ℕ, ◌+◌, ◌≤◌, ◌≡◌, refl, Option, none, some, List, [], ◌∷◌, arith, String-discrete, All,
}
use moodle_autotask.Table.{count}
use moodle_autotask.Events.Tests.{event}
use moodle_autotask.Approvals.{
  SubmissionAction, SubmissionManifest, Phase, SubmissionClaim, ApprovalState,
}
use moodle_autotask.Approvals.Submissions.{new_submission}
use moodle_autotask.Approvals.Submissions.Operations.{
  Operation, call_resolve, call_claim, call_draft, call_finalizing, call_complete, nothing,
  approved_by, handed_out, drafted, finalized, finished, run, tally, is_drafted, is_finalized,
  is_finished,
}
use moodle_autotask.Approvals.Submissions.Stages.{at_stage, HasKeys}
use moodle_autotask.Approvals.Submissions.Paid.{
  has_draft, in_finalization, has_result, drafted_once, finalized_once, finished_once,
}
use moodle_autotask.Approvals.Submissions.Decided.{Agrees, run-Agrees}

abbrev pub manifest : SubmissionManifest
manifest = record {
  event = event;
  manifest_digest = "digest";
  filename = "report.md";
  report_markdown = "# Report";
  report_digest = "report";
}

-- One submission waits for its approval.
abbrev waiting : ApprovalState
waiting = record {
  requests = [];
  callbacks = [];
  next_update_id = 0;
  work_items = [];
  submissions = new_submission manifest 5 ∷ [];
  submission_callbacks =
      record { token = "yes"; event_id = event.event_id; action = SubmissionAction.submit } ∷ [];
  submission_outbox = [];
  execution_outbox = [];
}

abbrev at_phase : Phase → Option ℕ → SubmissionClaim
at_phase phase item = record {
  manifest = manifest;
  lease_token = "lease";
  phase = phase;
  draft_item_id = item;
}

-- Another user, the user, a worker, and the worker once more.
abbrev calls : List Operation
calls =
    call_resolve "yes" 8 10
    ∷ call_resolve "yes" 7 10
    ∷ call_claim "worker" "lease" 60 20
    ∷ call_draft (at_phase Phase.uploading none) 31 25
    ∷ call_draft (at_phase Phase.uploading none) 32 26
    ∷ call_finalizing (at_phase Phase.saving (some 31)) 30
    ∷ call_complete (at_phase Phase.finalizing (some 31)) "reference" 40
    ∷ call_complete (at_phase Phase.finalizing (some 31)) "reference" 41
    ∷ []

calls_achieve :
    (run 7 calls waiting).0
    ≡ nothing
      ∷ approved_by 7 event.event_id
      ∷ handed_out event.event_id
      ∷ drafted event.event_id
      ∷ nothing
      ∷ finalized event.event_id
      ∷ finished event.event_id
      ∷ nothing
      ∷ []
unfolding run String-discrete
calls_achieve = refl

one_row : HasKeys waiting.submissions
unfolding count
one_row e = ground arith

drafted_once_example :
    tally (is_drafted event.event_id) (run 7 calls waiting).0
      + count (at_stage has_draft event.event_id) waiting.submissions
    ≤ 1
drafted_once_example = drafted_once event.event_id 7 calls waiting one_row

finalized_once_example :
    tally (is_finalized event.event_id) (run 7 calls waiting).0
      + count (at_stage in_finalization event.event_id) waiting.submissions
    ≤ 1
finalized_once_example = finalized_once event.event_id 7 calls waiting one_row

finished_once_example :
    tally (is_finished event.event_id) (run 7 calls waiting).0
      + count (at_stage has_result event.event_id) waiting.submissions
    ≤ 1
finished_once_example = finished_once event.event_id 7 calls waiting one_row

run-Agrees_example : All (Agrees 7) (run 7 calls waiting).1.submissions
run-Agrees_example = run-Agrees 7 calls waiting (refl, tt)
