-- ===== src/Worker/Notify/Marked.antt =====
-- adapters/aws/worker.py: in which order notifications are sent and marked as delivered.
use moodle_autotask.Base.{
  ◌≡◌, refl, ◌⊎◌, inl, inr, Bool, true, false, not, ◌&&◌, Option, none, some, [], ◌∷◌, arith,
  Result, ok, err,
}
use moodle_autotask.Exec.{◌>>=◌}
use moodle_autotask.Approvals.{SubmissionResult}
use moodle_autotask.Approvals.Submissions.{is_supported}
use moodle_autotask.Worker.Notify.Takes.{
  Takes, Takes-bind, Takes-try, Takes-call, Takes-if, Takes-pure, Takes-raise, Kept,
}
use moodle_autotask.Worker.Notify.{
  Failure, is_runtime, ExecutionNotification, Effect, execution_read, notified, blocked,
  offer_checked, submission_prepared, ready_notified, execution_marked, result_read,
  result_notified, result_marked, Log, Environment, Action, notify_blocked, prepare_submission,
  notify_ready, after_check, offer_submission_approval, notify_execution, after_notify,
  deliver_execution, after_result, deliver_result, deliver_results, deliver_pending_notification,
  has_assignment,
}

abbrev pub Occurs : Effect → Log → Type 0
Occurs e [] = ⊥
Occurs e (x ∷ log) = (x ≡ e) ⊎ Occurs e log

-- A call after others: a notification is marked as delivered only after the notifier has returned
-- from it; a submission is prepared only for an execution that succeeded, with a policy that is
-- supported, and that was notified, after a check that returned; and it is offered only once it is
-- prepared.
abbrev pub Permitted : Effect → Log → Type 0
Permitted (execution_marked n _) log = Occurs (notified n (ok tt)) log
Permitted (result_marked r _) log = Occurs (result_notified r (ok tt)) log
Permitted (submission_prepared n _) log =
    (n.succeeded ≡ true)
    × (is_supported n.event ≡ true)
    × Occurs (notified n (ok tt)) log
    × Occurs (offer_checked n.event (ok tt)) log
Permitted (ready_notified o _) log =
    (n : ExecutionNotification) × Occurs (submission_prepared n (ok o)) log
Permitted _ log = Unit {0}

abbrev pub AllPermitted : Log → Type 0
AllPermitted [] = Unit {0}
AllPermitted (e ∷ log) = Permitted e log × AllPermitted log

-- What is known of a log within the first `try`.
abbrev Told : ExecutionNotification → Log → Type 0
Told n log = AllPermitted log × Occurs (notified n (ok tt)) log

module _ (env : Environment) where
  blocked-Told :
      (n : ExecutionNotification) → Takes (Told n) (notify_blocked env n.event) (Kept (Told n))
  blocked-Told n =
      Takes-call (Told n) (Kept (Told n)) _ (blocked n.event) (λ r log (p, t). ((tt, p), inr t))

  Checked : ExecutionNotification → Result Failure Unit → Log → Type 0
  Checked n (ok _) log = Told n log × Occurs (offer_checked n.event (ok tt)) log
  Checked n (err _) log = Told n log

  prepared-Told :
      (n : ExecutionNotification)
      → n.succeeded ≡ true
      → is_supported n.event ≡ true
      → Takes (Checked n (ok tt)) (prepare_submission env n >>= notify_ready env) (Kept (Told n))
  unfolding Checked
  prepared-Told n done supported =
      Takes-bind _ (λ r log. Told n log × Occurs (submission_prepared n r) log) _ _ _
        (Takes-call (Checked n (ok tt)) (λ r log. Told n log × Occurs (submission_prepared n r) log)
          _ (submission_prepared n)
          (λ r log ((p, t), checked). ((((done, supported, t, checked), p), inr t), inl refl)))
        (λ o.
          Takes-call (λ log. Told n log × Occurs (submission_prepared n (ok o)) log) (Kept (Told n))
            _ (ready_notified o) (λ r log ((p, t), prepared). (((n, prepared), p), inr t)))
        (λ e log (told, _). told)

  after_check-Told :
      (n : ExecutionNotification)
      → n.succeeded ≡ true
      → is_supported n.event ≡ true
      → (r : Result Failure Unit) → Takes (Checked n r) (after_check env n r) (Kept (Told n))
  unfolding after_check Checked
  after_check-Told n done supported (ok tt) = prepared-Told n done supported
  after_check-Told n done supported (err Failure.unsupported_policy) = blocked-Told n
  after_check-Told n done supported (err Failure.permanent_offer) = blocked-Told n
  after_check-Told n done supported (err Failure.runtime) = Takes-raise (Told n) Failure.runtime
  after_check-Told n done supported (err Failure.approval_state) =
      Takes-raise (Told n) Failure.approval_state
  after_check-Told n done supported (err Failure.other) = Takes-raise (Told n) Failure.other

  offer-Told :
      (n : ExecutionNotification)
      → n.succeeded ≡ true
      → Takes (Told n) (offer_submission_approval env n) (Kept (Told n))
  unfolding offer_submission_approval Checked
  offer-Told n done =
      Takes-if _ _ (not env.notifies_submissions) _ _ (λ _. Takes-pure (Told n) tt)
        (λ _.
          Takes-if _ _ (not (is_supported n.event)) _ _ (λ _. blocked-Told n)
            (λ supported.
              Takes-if _ _ (not env.has_service) _ _ (λ _. Takes-raise (Told n) Failure.runtime)
                (λ _.
                  Takes-try (Told n) (Checked n) _ _ _
                    (Takes-call (Told n) (Checked n) _ (offer_checked n.event) (checks n))
                    (after_check-Told n done (ground (arith, supported))))))
    where
      checks :
          (n : ExecutionNotification) (r : Result Failure Unit) (log : Log)
          → Told n log
          → Checked n r (offer_checked n.event r ∷ log)
      checks n (ok tt) log (p, t) = (((tt, p), inr t), inl refl)
      checks n (err e) log (p, t) = ((tt, p), inr t)

  Sent : ExecutionNotification → Result Failure Unit → Log → Type 0
  Sent n (ok _) log = Told n log
  Sent n (err _) log = AllPermitted log

  Sent-of :
      (n : ExecutionNotification) (r : Result Failure Unit) (log : Log) → Told n log → Sent n r log
  unfolding Sent
  Sent-of n (ok tt) log t = t
  Sent-of n (err e) log (p, t) = p

  Takes-Sent :
      (n : ExecutionNotification) (m : Action Unit)
      → Takes (Told n) m (Kept (Told n))
      → Takes (Told n) m (Sent n)
  Takes-Sent n m h = record { at = λ log told. Sent-of n (m log).0 (m log).1 (h.at log told) }

  notify_execution_sends :
      (n : ExecutionNotification) → Takes AllPermitted (notify_execution env n) (Sent n)
  unfolding notify_execution Sent
  notify_execution_sends n =
      Takes-bind AllPermitted (Sent n) (Sent n) _ _
        (Takes-call AllPermitted (Sent n) _ (notified n) (sends n))
        (λ u. Takes-Sent n _ (
          Takes-if (Told n) (Kept (Told n))
            (n.succeeded && has_assignment env n.event.content.assignment_id) _ _
            (λ done. offer-Told n (ground (arith, done))) (λ _. Takes-pure (Told n) tt)))
        (λ e log p. p)
    where
      sends :
          (n : ExecutionNotification) (r : Result Failure Unit) (log : Log)
          → AllPermitted log
          → Sent n r (notified n r ∷ log)
      sends n (ok tt) log p = ((tt, p), inl refl)
      sends n (err e) log p = (tt, p)

  after_notify_permits :
      (n : ExecutionNotification) (r : Result Failure Unit)
      → Takes (Sent n r) (after_notify env n r) (Kept AllPermitted)
  unfolding after_notify Sent
  after_notify_permits n (ok tt) =
      Takes-bind _ (Kept AllPermitted) _ _ _
        (Takes-call (Told n) (Kept AllPermitted) _ (execution_marked n) (λ r log (p, t). (t, p)))
        (λ _. Takes-pure AllPermitted true) (λ e log p. p)
  after_notify_permits n (err e) =
      Takes-if _ _ (is_runtime e) _ _ (λ _. Takes-pure AllPermitted false)
        (λ _. Takes-raise AllPermitted e)

  deliver_execution_permits :
      (o : Option ExecutionNotification)
      → Takes AllPermitted (deliver_execution env o) (Kept AllPermitted)
  unfolding deliver_execution
  deliver_execution_permits none = Takes-pure AllPermitted true
  deliver_execution_permits (some n) =
      Takes-if _ _ env.has_notifier _ _
        (λ _.
          Takes-try AllPermitted (Sent n) _ _ _ (notify_execution_sends n) (after_notify_permits n))
        (λ _. Takes-pure AllPermitted true)

  Shown : SubmissionResult → Result Failure Unit → Log → Type 0
  Shown r (ok _) log = AllPermitted log × Occurs (result_notified r (ok tt)) log
  Shown r (err _) log = AllPermitted log

  after_result_permits :
      (s : SubmissionResult) (r : Result Failure Unit)
      → Takes (Shown s r) (after_result env s r) (Kept AllPermitted)
  unfolding after_result Shown
  after_result_permits s (ok tt) =
      Takes-call (Shown s (ok tt)) (Kept AllPermitted) _ (result_marked s) (λ r log (p, t). (t, p))
  after_result_permits s (err e) =
      Takes-if _ _ (is_runtime e) _ _ (λ _. Takes-pure AllPermitted tt)
        (λ _. Takes-raise AllPermitted e)

  deliver_result_permits :
      (o : Option SubmissionResult) → Takes AllPermitted (deliver_result env o) (Kept AllPermitted)
  unfolding deliver_result Shown
  deliver_result_permits none = Takes-pure AllPermitted tt
  deliver_result_permits (some s) =
      Takes-try AllPermitted (Shown s) _ _ _
        (Takes-call AllPermitted (Shown s) _ (result_notified s) (shows s)) (after_result_permits s)
    where
      shows :
          (s : SubmissionResult) (r : Result Failure Unit) (log : Log)
          → AllPermitted log
          → Shown s r (result_notified s r ∷ log)
      shows s (ok tt) log p = ((tt, p), inl refl)
      shows s (err e) log p = (tt, p)

  deliver_results_permits :
      (goes_on : Bool) → Takes AllPermitted (deliver_results env goes_on) (Kept AllPermitted)
  unfolding deliver_results
  deliver_results_permits false = Takes-pure AllPermitted tt
  deliver_results_permits true =
      Takes-if _ _ (env.has_notifier && env.notifies_submissions) _ _
        (λ _.
          Takes-bind _ (Kept AllPermitted) _ _ _
            (Takes-call AllPermitted (Kept AllPermitted) _ result_read (λ r log p. (tt, p)))
            deliver_result_permits (λ e log p. p))
        (λ _. Takes-pure AllPermitted tt)

  deliver_permits : Takes AllPermitted (deliver_pending_notification env) (Kept AllPermitted)
  unfolding deliver_pending_notification
  deliver_permits =
      Takes-bind _ (Kept AllPermitted) _ _ _
        (Takes-bind _ (Kept AllPermitted) _ _ _
          (Takes-call AllPermitted (Kept AllPermitted) _ execution_read (λ r log p. (tt, p)))
          deliver_execution_permits (λ e log p. p))
        deliver_results_permits (λ e log p. p)

-- Whatever the notifier, the Moodle service and the durable state return or raise: a delivery of
-- pending notifications marks one as delivered only after the notifier has returned from it; it
-- prepares a submission only for an execution that succeeded and was notified, whose policy is
-- supported, after the service's check has returned; and it offers only what it has prepared.
pub deliver-AllPermitted :
    (env : Environment) → AllPermitted (deliver_pending_notification env []).1
deliver-AllPermitted env = (deliver_permits env).at [] tt
