-- ===== src/Worker/Notify.antt =====
-- adapters/aws/worker.py: `_deliver_pending_notification` and `_offer_submission_approval`, over a
-- notifier, a Moodle service and a durable state whose answers may depend on all the calls before.
pub mod Takes
pub mod Marked
pub mod Tests
use moodle_autotask.Base.{
  ℕ, String, Bool, true, false, not, ◌&&◌, Option, none, some, List, ◌∷◌, if◌then◌else◌, Result, ok,
  err,
}
use moodle_autotask.Events.{NotificationEvent}
use moodle_autotask.Exec.{Exec, pure, raise, catch, ◌>>=◌, ◌>>◌}
use moodle_autotask.Approvals.{SubmissionManifest, SubmissionResult}
use moodle_autotask.Approvals.Submissions.{is_supported}

-- The exceptions that the two functions tell apart. The first four are `RuntimeError`s.
pub data Failure : Type 0 where
  runtime unsupported_policy permanent_offer approval_state other : Failure

abbrev pub is_runtime : Failure → Bool
is_runtime Failure.other = false
is_runtime _ = true

-- `ExecutionNotification`, of which the texts are passed on as they are
pub record ExecutionNotification : Type 0 where
  pub event : NotificationEvent
  pub succeeded : Bool
  pub summary : String
  pub report_markdown : String

-- What `prepare_submission` gives: the manifest and the buttons.
abbrev pub Offer : Type 0
Offer = SubmissionManifest × (String × String × String)

-- A call, with its outcome.
pub data Effect : Type 0 where
  execution_read : Result Failure (Option ExecutionNotification) → Effect
  notified : ExecutionNotification → Result Failure Unit → Effect
  blocked : NotificationEvent → Result Failure Unit → Effect
  offer_checked : NotificationEvent → Result Failure Unit → Effect
  submission_prepared : ExecutionNotification → Result Failure Offer → Effect
  ready_notified : Offer → Result Failure Unit → Effect
  execution_marked : ExecutionNotification → Result Failure Unit → Effect
  result_read : Result Failure (Option SubmissionResult) → Effect
  result_notified : SubmissionResult → Result Failure Unit → Effect
  result_marked : SubmissionResult → Result Failure Unit → Effect

abbrev pub Log : Type 0
Log = List Effect

-- Whether there are a notifier, one for submissions too, and a service; and the calls.
pub record Environment : Type 0 where
  pub has_notifier : Bool
  pub notifies_submissions : Bool
  pub has_service : Bool
  pub pending_execution : Log → Result Failure (Option ExecutionNotification)
  pub notify : Log → ExecutionNotification → Result Failure Unit
  pub notify_blocked : Log → NotificationEvent → Result Failure Unit
  pub can_offer : Log → NotificationEvent → Result Failure Unit
  pub prepare_submission : Log → ExecutionNotification → Result Failure Offer
  pub notify_ready : Log → Offer → Result Failure Unit
  pub mark_execution : Log → ExecutionNotification → Result Failure Unit
  pub pending_result : Log → Result Failure (Option SubmissionResult)
  pub notify_result : Log → SubmissionResult → Result Failure Unit
  pub mark_result : Log → SubmissionResult → Result Failure Unit

abbrev pub Action : Type 0 → Type 0
Action A = Exec Log Failure A

-- A call, which is recorded with its outcome.
unfoldable pub call :
    {A : Type 0} → (Log → Result Failure A) → (Result Failure A → Effect) → Action A
call ask mark log = let r = ask log in (r, mark r ∷ log)

-- A call whose exception is handed on as a value, for what follows the `try`.
unfoldable pub attempt : {A : Type 0} → Action A → Action (Result Failure A)
attempt m = catch (do a ← m; pure (ok a)) (λ e. pure (err e))

module _ (env : Environment) where
  abbrev pub notify_blocked : NotificationEvent → Action Unit
  notify_blocked e = call (λ log. env.notify_blocked log e) (blocked e)

  abbrev pub prepare_submission : ExecutionNotification → Action Offer
  prepare_submission n = call (λ log. env.prepare_submission log n) (submission_prepared n)

  abbrev pub notify_ready : Offer → Action Unit
  notify_ready o = call (λ log. env.notify_ready log o) (ready_notified o)

  -- What follows `service.can_offer_submission`.
  unfoldable pub after_check : ExecutionNotification → Result Failure Unit → Action Unit
  after_check n (ok _) = prepare_submission n >>= notify_ready
  after_check n (err Failure.unsupported_policy) = notify_blocked n.event
  after_check n (err Failure.permanent_offer) = notify_blocked n.event
  after_check n (err e) = raise e

  -- `_offer_submission_approval`
  unfoldable pub offer_submission_approval : ExecutionNotification → Action Unit
  unfolding after_check attempt
  offer_submission_approval n =
      if not env.notifies_submissions
      then pure tt
      else if not (is_supported n.event)
      then notify_blocked n.event
      else if not env.has_service
      then raise Failure.runtime
      else attempt (call (λ log. env.can_offer log n.event) (offer_checked n.event))
        >>= after_check n

  abbrev has_assignment : Option ℕ → Bool
  has_assignment none = false
  has_assignment (some _) = true

  unfoldable pub notify_execution : ExecutionNotification → Action Unit
  unfolding offer_submission_approval
  notify_execution n =
      call (λ log. env.notify log n) (notified n)
      >> (if n.succeeded && has_assignment n.event.content.assignment_id
          then offer_submission_approval n
          else pure tt)

  abbrev pub mark_execution : ExecutionNotification → Action Unit
  mark_execution n = call (λ log. env.mark_execution log n) (execution_marked n)

  -- What follows the first `try`: whether the function goes on.
  unfoldable pub after_notify : ExecutionNotification → Result Failure Unit → Action Bool
  after_notify n (ok _) = mark_execution n >> pure true
  after_notify n (err e) = if is_runtime e then pure false else raise e

  unfoldable pub deliver_execution : Option ExecutionNotification → Action Bool
  unfolding notify_execution after_notify attempt
  deliver_execution none = pure true
  deliver_execution (some n) =
      if env.has_notifier then attempt (notify_execution n) >>= after_notify n else pure true

  abbrev pub mark_result : SubmissionResult → Action Unit
  mark_result r = call (λ log. env.mark_result log r) (result_marked r)

  unfoldable pub after_result : SubmissionResult → Result Failure Unit → Action Unit
  after_result r (ok _) = mark_result r
  after_result r (err e) = if is_runtime e then pure tt else raise e

  unfoldable pub deliver_result : Option SubmissionResult → Action Unit
  unfolding after_result attempt
  deliver_result none = pure tt
  deliver_result (some r) =
      attempt (call (λ log. env.notify_result log r) (result_notified r)) >>= after_result r

  unfoldable pub deliver_results : Bool → Action Unit
  unfolding deliver_result
  deliver_results false = pure tt
  deliver_results true =
      if env.has_notifier && env.notifies_submissions
      then call env.pending_result result_read >>= deliver_result
      else pure tt

  -- `_deliver_pending_notification`
  unfoldable pub deliver_pending_notification : Action Unit
  unfolding deliver_execution deliver_results
  deliver_pending_notification =
      call env.pending_execution execution_read >>= deliver_execution >>= deliver_results
