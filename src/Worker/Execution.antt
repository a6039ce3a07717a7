-- ===== src/Worker/Execution.antt =====
-- adapters/aws/worker.py: `_process_claim`, and what `process_one` does with a claim of work.
pub mod Types
pub mod Permitted
pub mod Proper
pub mod Cycle
pub mod Delay
pub mod Returned
pub mod Raised
pub mod Tests
use moodle_autotask.Base.{
  ℕ, ◌-◌, min, String, Bool, true, false, not, ◌&&◌, ◌||◌, Option, none, some, if◌then◌else◌, holds,
  String-discrete,
}
use moodle_autotask.Models.{ExecutionMode}
use moodle_autotask.Events.{NotificationAttachment}
use moodle_autotask.Exec.{pure, raise, catch, ◌>>=◌, ◌>>◌}
use moodle_autotask.Approvals.{WorkStatus}
use moodle_autotask.Approvals.Requests.{Runtime, requires_image}
use moodle_autotask.Approvals.Work.{WorkItem, WorkClaim, is_central, is_given}
use moodle_autotask.Approvals.Work.Calls.{Completion}
use moodle_autotask.Approvals.Work.World.{
  Call, call_record_lab, call_mark_ready, call_complete_execution, call_mark_cleaned,
  call_retry_work, call_fail_work,
}
use moodle_autotask.Worker.Execution.Types.{
  Failure, CycleResult, ownership_lost, lab_cleaned, central_ready, central_input_envelope_invalid,
  image_import_required, image_import_pending, lab_provisioned, lab_ready, lab_pending,
  agent_pending, execution_failed, execution_complete, retry, cleanup_retry, storage_capacity,
  Setup, Prepared, Readiness, Progress, recorded, torn_down, image_cleaned, prepared, image_ensured,
  provisioned, readiness_read, inputs_ensured, stepped, delivered, Environment, Action, call,
  delay_at,
}

-- `_retry_delay`
unfoldable pub retry_delay : ℕ → ℕ
retry_delay attempts = delay_at (min (attempts - 1) 6)

abbrev is_complete : Option String → Bool
is_complete none = false
is_complete (some code) = holds (String-discrete code "execution_complete")

abbrev cleans : Bool → WorkItem → WorkStatus → Bool
cleans has_broker item WorkStatus.failed = is_given item.lab_handle
cleans has_broker item WorkStatus.ready =
    is_given item.lab_handle && (not has_broker || is_complete item.error_code)
cleans has_broker item _ = false

-- `_is_cleanup_claim`, which `_process_claim` tests too
unfoldable pub is_cleanup_claim : WorkClaim → Bool → Bool
unfolding String-discrete
is_cleanup_claim c has_broker = cleans has_broker c.item c.item.status

module _ (rt : Runtime) (setup : Setup) (env : Environment) where
  -- A method of the durable state, on the claim.
  pub record_call : WorkClaim → Call → Action Bool
  record_call c k = call (λ log. env.record_call log c k) (recorded c k)

  -- `if not state...: return WorkerCycle("ownership_lost")`, then the cycle's own result
  pub settle : WorkClaim → Call → CycleResult → Action CycleResult
  settle c k result = do done ← record_call c k; if done then pure result else pure ownership_lost

  pub teardown : String → WorkClaim → Action Unit
  teardown handle c = call (λ log. env.teardown log handle c) (torn_down handle c)

  pub cleanup_image : WorkClaim → Action Unit
  cleanup_image c = call (λ log. env.cleanup_image log c) (image_cleaned c)

  pub clean_image : WorkClaim → Action Unit
  clean_image c =
      if not (requires_image rt c.item.event)
      then pure tt
      else if setup.has_importer
      then cleanup_image c
      else raise Failure.runtime

  -- The branch of a claim that is to be cleaned up.
  pub clean_up : WorkClaim → Option String → Action CycleResult
  clean_up c none = raise Failure.other
  clean_up c (some handle) = do
    teardown handle c
    clean_image c
    settle c call_mark_cleaned lab_cleaned

  pub prepare : WorkClaim → Action Prepared
  prepare c = call (λ log. env.prepare log c) (prepared c)

  pub ensure_image : WorkClaim → Prepared → Action (Option (Option String))
  ensure_image c p = call (λ log. env.ensure_image log c p) (image_ensured c p)

  pub provision : WorkClaim → Option String → Action String
  provision c image = call (λ log. env.provision log c image) (provisioned c image)

  pub provision_lab : WorkClaim → Option String → Action CycleResult
  provision_lab c image = do
    handle ← provision c image
    settle c (call_record_lab handle) lab_provisioned

  -- What follows an image import: it is pending, or has an identifier, or should have one.
  pub provision_imported : WorkClaim → Option (Option String) → Action CycleResult
  provision_imported c none =
      settle c (call_retry_work "image_import_pending" 60 false) image_import_pending
  provision_imported c (some none) = raise Failure.runtime
  provision_imported c (some (some image)) = provision_lab c (some image)

  pub start_lab : WorkClaim → Action CycleResult
  start_lab c =
      if requires_image rt c.item.event
      then if not (setup.has_preparer && setup.has_importer)
        then settle c (call_fail_work "image_import_required") image_import_required
        else (do p ← prepare c; imported ← ensure_image c p; provision_imported c imported)
      else if setup.has_preparer
      then (do prepare c; provision_lab c none)
      else provision_lab c none

  pub start_central : WorkClaim → Action CycleResult
  start_central c =
      if env.is_envelope_valid c.item.event
      then settle c (call_mark_ready setup.has_broker) central_ready
      else settle c (call_fail_work "central_input_envelope_invalid") central_input_envelope_invalid

  pub ensure_inputs : WorkClaim → Prepared → Action String
  ensure_inputs c p = call (λ log. env.ensure_inputs log c p) (inputs_ensured c p)

  -- `_with_guest_inputs`
  pub with_guest_inputs : WorkClaim → Prepared → Action Prepared
  with_guest_inputs c p =
      if setup.has_transfer
      then (do ready ← ensure_inputs c p; pure (record p { guest_inputs = some ready }))
      else raise Failure.runtime

  -- The assignment, with the item's digest in place of its own.
  pub prepare_item : WorkClaim → Action Prepared
  prepare_item c =
      if setup.has_preparer
      then (do
        p ← prepare c
        pure (record p { specification_digest = c.item.specification_digest }))
      else raise Failure.runtime

  pub broker_step : WorkClaim → Prepared → Action Progress
  broker_step c p = call (λ log. env.step log c p) (stepped c p)

  pub follow : WorkClaim → Progress → Action CycleResult
  follow c Progress.pending = settle c (call_retry_work "agent_pending" 15 false) agent_pending
  follow c (Progress.failed d) =
      settle c (call_complete_execution (record d { succeeded = false })) execution_failed
  follow c (Progress.succeeded d) =
      settle c (call_complete_execution (record d { succeeded = true })) execution_complete

  pub execute : WorkClaim → Action CycleResult
  execute c = do
    p ← prepare_item c
    q ← if is_central c.item.selected_mode then pure p else with_guest_inputs c p
    progress ← broker_step c q
    follow c progress

  pub readiness : String → WorkClaim → Action Readiness
  readiness handle c = call (λ log. env.readiness log handle c) (readiness_read handle c)

  -- The inputs are transferred once the lab is ready, for work in a guest.
  pub transfer : WorkClaim → Action Prepared
  transfer c = prepare_item c >>= with_guest_inputs c

  pub lab_is : WorkClaim → Readiness → Action CycleResult
  lab_is c Readiness.ready =
      if is_central c.item.selected_mode
      then settle c (call_mark_ready setup.has_broker) lab_ready
      else transfer c >> settle c (call_mark_ready setup.has_broker) lab_ready
  lab_is c Readiness.failed =
      settle c (call_retry_work "lab_failed" (retry_delay c.item.attempts) true) retry
  lab_is c Readiness.pending = settle c (call_retry_work "lab_pending" 30 false) lab_pending

  pub watch_lab : WorkClaim → Option String → Action CycleResult
  watch_lab c none = raise Failure.approval_state
  watch_lab c (some handle) = readiness handle c >>= lab_is c

  pub process_status : WorkClaim → WorkStatus → Action CycleResult
  process_status c WorkStatus.pending =
      if is_central c.item.selected_mode then start_central c else start_lab c
  process_status c WorkStatus.ready =
      if setup.has_broker then execute c else raise Failure.approval_state
  process_status c WorkStatus.lab_pending = watch_lab c c.item.lab_handle
  process_status c _ = raise Failure.approval_state

  -- `_process_claim`
  pub process_claim : WorkClaim → Action CycleResult
  process_claim c =
      if is_cleanup_claim c setup.has_broker
      then clean_up c c.item.lab_handle
      else process_status c c.item.status

  pub deliver : Action Unit
  deliver = call env.deliver delivered

  -- The error code of a cleanup that is tried again.
  pub cleanup_code : WorkClaim → String
  cleanup_code c = if is_complete c.item.error_code then "execution_complete" else "cleanup_failed"

  pub recover_other : WorkClaim → Action CycleResult
  recover_other c =
      if is_cleanup_claim c setup.has_broker
      then settle c (call_retry_work (cleanup_code c) (retry_delay c.item.attempts) false)
          cleanup_retry
      else settle c (call_retry_work "provider_failed" (retry_delay c.item.attempts) true) retry

  -- The handlers of `process_one`.
  pub recover : WorkClaim → Failure → Action CycleResult
  recover c Failure.approval_state = raise Failure.approval_state
  recover c Failure.storage_capacity =
      settle c (call_retry_work "storage_capacity" (retry_delay c.item.attempts) false)
        storage_capacity
  recover c Failure.os = recover_other c
  recover c Failure.runtime = recover_other c
  recover c Failure.value = recover_other c
  recover c Failure.other = raise Failure.other

  -- `process_one`, from a claim on
  pub process_work : WorkClaim → Action CycleResult
  process_work c = catch (do result ← process_claim c; deliver; pure result) (recover c)
