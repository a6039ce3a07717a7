-- ===== src/Worker/Execution/Tests.antt =====
-- adapters/aws/worker.py: a lab that is cleaned up, at concrete ports.
use moodle_autotask.Base.{
  ◌-◌, ◌*◌, ◌^◌, min, ◌≡◌, refl, subst, ◌↔◌, ◌⊎◌, true, false, none, some, [], ◌∷◌, arith,
  String-discrete, Result, ok, err,
}
use moodle_autotask.Models.{ExecutionMode}
use moodle_autotask.Exec.{catch, raise, ◌>>=◌}
use moodle_autotask.Events.Tests.{event}
use moodle_autotask.Approvals.{WorkStatus, ApprovalState}
use moodle_autotask.Approvals.Requests.{Runtime, requires_image}
use moodle_autotask.Approvals.Work.{WorkClaim}
use moodle_autotask.Approvals.Work.Calls.{Completion}
use moodle_autotask.Approvals.Work.World.{
  call as call_work, call_complete_execution, call_mark_cleaned, call_retry_work,
}
use moodle_autotask.Worker.Execution.{
  process_work, retry_delay, process_status, execute, prepare_item, prepare, broker_step, follow,
  process_claim, is_cleanup_claim, clean_up, teardown, clean_image, cleanup_image, settle,
  record_call, deliver, recover, recover_other, cleanup_code,
}
use moodle_autotask.Worker.Execution.Types.{
  Failure, execution_complete, stepped, prepared, lab_cleaned, cleanup_retry, Setup, Readiness,
  Progress, recorded, torn_down, image_cleaned, delivered, Environment, call,
}
use moodle_autotask.Worker.Execution.Permitted.{is_told_by, is_accepted, AllPermitted}
use moodle_autotask.Worker.Execution.Returned.{call_returns_iff}
use moodle_autotask.Approvals.Work.Returns.{Returns}
use moodle_autotask.Worker.Execution.Raised.{process_work_raises}
use moodle_autotask.Worker.Execution.Delay.{retry_delay_doubles}
use moodle_autotask.Worker.Execution.Cycle.{process_work-AllPermitted}

abbrev runtime : Runtime
runtime = record {
  specification_digest = λ e. e.event_id;
  provision_key = λ id digest. id;
  lower = λ text. text;
}

abbrev setup : Setup
setup = record { has_preparer = true; has_importer = true; has_broker = true; has_transfer = true }

abbrev ports : Result Failure Unit → Environment
ports torn = record {
  record_call = λ log c k. ok true;
  teardown = λ log handle c. torn;
  cleanup_image = λ log c. ok tt;
  prepare = λ log c. err Failure.os;
  ensure_image = λ log c p. ok none;
  provision = λ log c image. ok "lab";
  readiness = λ log handle c. ok Readiness.ready;
  ensure_inputs = λ log c p. ok "inputs";
  step = λ log c p. ok Progress.pending;
  deliver = λ log. ok tt;
  is_envelope_valid = λ e. true;
}

-- The work has failed and its lab is still there; its image was imported.
abbrev failed_claim : WorkClaim
failed_claim = record {
  item = record {
    event = event;
    selected_mode = ExecutionMode.in_guest;
    specification_digest = "digest";
    provision_key = "key";
    status = WorkStatus.failed;
    lab_handle = some "lab";
    attempts = 3;
    error_code = some "agent_failed";
  };
  lease_token = "lease";
}

cleaned : process_work runtime setup (ports (ok tt)) failed_claim [] ≡ (
  ok lab_cleaned,
  delivered (ok tt)
      ∷ recorded failed_claim call_mark_cleaned (ok true)
      ∷ image_cleaned failed_claim (ok tt)
      ∷ torn_down "lab" failed_claim (ok tt)
      ∷ [],
)
unfolding process_work String-discrete catch ◌>>=◌ process_claim is_cleanup_claim clean_up teardown
    call clean_image requires_image cleanup_image settle record_call deliver
cleaned = refl

-- A teardown that fails is tried again after two minutes.
tried_again : process_work runtime setup (ports (err Failure.runtime)) failed_claim [] ≡ (
  ok cleanup_retry,
  recorded failed_claim (call_retry_work "cleanup_failed" 120 false) (ok true)
      ∷ torn_down "lab" failed_claim (err Failure.runtime)
      ∷ [],
)
unfolding process_work String-discrete catch ◌>>=◌ process_claim is_cleanup_claim clean_up teardown
    call recover recover_other settle record_call cleanup_code retry_delay
tried_again = refl

-- Central work that is to be executed, and a broker that has executed it.
abbrev ready_claim : WorkClaim
ready_claim = record {
  item = record {
    event = event;
    selected_mode = ExecutionMode.central;
    specification_digest = "digest";
    provision_key = "key";
    status = WorkStatus.ready;
    lab_handle = none;
    attempts = 1;
    error_code = some "agent_ready";
  };
  lease_token = "lease";
}

abbrev completion : Completion
completion = record {
  succeeded = true;
  summary_bytes = 100;
  report_bytes = 2000;
  has_provenance = true;
  payload = some "payload";
}

abbrev broker : Environment
broker = record (ports (ok tt)) {
  prepare =
      λ log c. ok (record { name = "work"; specification_digest = "other"; guest_inputs = none });
  step = λ log c p. ok (Progress.succeeded completion);
}

executed : process_work runtime setup broker ready_claim [] ≡ (
  ok execution_complete,
  delivered (ok tt)
      ∷ recorded ready_claim (call_complete_execution completion) (ok true)
      ∷ stepped ready_claim
          (record { name = "work"; specification_digest = "digest"; guest_inputs = none })
          (ok (Progress.succeeded completion))
      ∷ prepared ready_claim
          (ok (record { name = "work"; specification_digest = "other"; guest_inputs = none }))
      ∷ [],
)
unfolding process_work String-discrete catch ◌>>=◌ process_claim is_cleanup_claim process_status
    execute prepare_item prepare broker_step call follow settle record_call deliver
executed = refl

broker_told :
    (progress : Progress)
    → ◌≡◌ {A = Result Failure Progress} (ok (Progress.succeeded completion)) (ok progress)
    → is_told_by ready_claim.item progress ≡ true
broker_told progress h =
    let same : Progress.succeeded completion ≡ progress = ground arith in
    subst (λ p. is_told_by ready_claim.item p ≡ true) same refl

process_work-AllPermitted_example :
    AllPermitted true ready_claim (process_work runtime setup broker ready_claim []).1
process_work-AllPermitted_example =
    process_work-AllPermitted runtime setup broker ready_claim (λ h. absurd (ground arith))
      (λ log p progress h. broker_told progress h)

retry_delay_doubles_example : retry_delay 4 ≡ min 1800 (30 * 2 ^ (4 - 1))
retry_delay_doubles_example = retry_delay_doubles 4

-- The tables, with the row of the work that is ready, leased to its claim.
abbrev tables : ApprovalState
tables = record {
  requests = [];
  callbacks = [];
  next_update_id = 0;
  work_items =
      record {
        event_id = event.event_id;
        selected_mode = ExecutionMode.central;
        specification_digest = "digest";
        provision_key = "key";
        status = WorkStatus.ready;
        lab_handle = none;
        attempts = 1;
        available_at = 0;
        lease_owner = some "worker";
        lease = some (record { token = "lease"; expires_at = 100 });
        error_code = some "agent_ready";
        created_at = 0;
        cleanup_due_at = none;
      }
      ∷ [];
  submissions = [];
  submission_callbacks = [];
  submission_outbox = [];
  execution_outbox = [];
}

call_returns_iff_example :
    Returns (call_work ready_claim (call_complete_execution completion) 5 tables)
    ↔ (is_accepted ready_claim.item (call_complete_execution completion) ≡ true)
call_returns_iff_example =
    call_returns_iff ready_claim (call_complete_execution completion) 5 tables refl
      ((λ own token. (refl, refl, refl)), tt) refl

-- The completion is accepted, and is stored.
completes_work : Returns (call_work ready_claim (call_complete_execution completion) 5 tables)
unfolding is_accepted
completes_work = call_returns_iff_example.1 refl

-- A port that raises an unknown exception while the image is cleaned up.
abbrev odd_ports : Environment
odd_ports = record (ports (ok tt)) { cleanup_image = λ log c. err Failure.other }

odd_cycle : (process_work runtime setup odd_ports failed_claim []).0 ≡ err Failure.other
unfolding process_work String-discrete catch ◌>>=◌ process_claim is_cleanup_claim clean_up teardown
    call clean_image requires_image cleanup_image settle record_call recover raise
odd_cycle = refl

process_work_raises_example :
    (Failure.other ≡ Failure.approval_state) ⊎ (Failure.other ≡ Failure.other)
process_work_raises_example =
    process_work_raises runtime setup odd_ports failed_claim [] Failure.other
      (λ log k x h. absurd (ground arith)) odd_cycle
