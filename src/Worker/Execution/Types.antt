-- ===== src/Worker/Execution/Types.antt =====
-- adapters/aws/worker.py, ports/contracts.py: what the worker calls while it has a claim of work. A
-- call's outcome may depend on all the calls before it, newest first.
use moodle_autotask.Base.{ℕ, zero, suc, String, Bool, Option, List, ◌∷◌, Result}
use moodle_autotask.Events.{NotificationEvent}
use moodle_autotask.Exec.{Exec}
use moodle_autotask.Approvals.Work.{WorkClaim}
use moodle_autotask.Approvals.Work.Calls.{Completion}
use moodle_autotask.Approvals.Work.World.{Call}

-- The exceptions that `process_one` tells apart: `ApprovalStateError`, `StorageCapacityError`, those
-- of `except (OSError, RuntimeError, ValueError)`, and any other.
pub data Failure : Type 0 where
  approval_state storage_capacity os runtime value other : Failure

-- `WorkerCycle.result`, as far as it comes from work.
pub data CycleResult : Type 0 where
  ownership_lost lab_cleaned central_ready central_input_envelope_invalid : CycleResult
  image_import_required image_import_pending lab_provisioned lab_ready lab_pending : CycleResult
  agent_pending execution_failed execution_complete : CycleResult
  retry cleanup_retry storage_capacity : CycleResult

-- Which of the optional arguments of `process_one` are given.
pub record Setup : Type 0 where
  pub has_preparer : Bool
  pub has_importer : Bool
  pub has_broker : Bool
  pub has_transfer : Bool

-- `PreparedAssignment`: its digest, what is known of its guest inputs, and the rest under a name.
pub record Prepared : Type 0 where
  pub name : String
  pub specification_digest : String
  pub guest_inputs : Option String

-- `LabReadiness`
pub data Readiness : Type 0 where
  pending ready failed : Readiness

-- `ExecutionProgress`, with what `complete_execution` is given of it
pub data Progress : Type 0 where
  pending : Progress
  failed succeeded : Completion → Progress

-- A call, with its outcome, which is also what the building of its arguments raises. The
-- idempotency keys come from the claim's `provision_key`.
pub data Effect : Type 0 where
  recorded : WorkClaim → Call → Result Failure Bool → Effect
  torn_down : (handle : String) → WorkClaim → Result Failure Unit → Effect
  image_cleaned : WorkClaim → Result Failure Unit → Effect
  prepared : WorkClaim → Result Failure Prepared → Effect
  image_ensured : WorkClaim → Prepared → Result Failure (Option (Option String)) → Effect
  provisioned : WorkClaim → (image : Option String) → Result Failure String → Effect
  readiness_read : (handle : String) → WorkClaim → Result Failure Readiness → Effect
  inputs_ensured : WorkClaim → Prepared → Result Failure String → Effect
  stepped : WorkClaim → Prepared → Result Failure Progress → Effect
  delivered : Result Failure Unit → Effect

abbrev pub Log : Type 0
Log = List Effect

-- The ports, the durable state, and `_deliver_pending_notification`. An image import is pending, or
-- has come to an image, whose identifier may be missing.
pub record Environment : Type 0 where
  pub record_call : Log → WorkClaim → Call → Result Failure Bool
  pub teardown : Log → String → WorkClaim → Result Failure Unit
  pub cleanup_image : Log → WorkClaim → Result Failure Unit
  pub prepare : Log → WorkClaim → Result Failure Prepared
  pub ensure_image : Log → WorkClaim → Prepared → Result Failure (Option (Option String))
  pub provision : Log → WorkClaim → Option String → Result Failure String
  pub readiness : Log → String → WorkClaim → Result Failure Readiness
  pub ensure_inputs : Log → WorkClaim → Prepared → Result Failure String
  pub step : Log → WorkClaim → Prepared → Result Failure Progress
  pub deliver : Log → Result Failure Unit
  -- `validate_declared_prepared_input_envelope` raises nothing.
  pub is_envelope_valid : NotificationEvent → Bool

abbrev pub Action : Type 0 → Type 0
Action A = Exec Log Failure A

-- A call, which is recorded with its outcome.
unfoldable pub call :
    {A : Type 0} → (Log → Result Failure A) → (Result Failure A → Effect) → Action A
call ask mark log = let r = ask log in (r, mark r ∷ log)

-- The delays of `_retry_delay`.
abbrev pub delay_at : ℕ → ℕ
delay_at zero = 30
delay_at (suc zero) = 60
delay_at (suc (suc zero)) = 120
delay_at (suc (suc (suc zero))) = 240
delay_at (suc (suc (suc (suc zero)))) = 480
delay_at (suc (suc (suc (suc (suc zero))))) = 960
delay_at _ = 1800
