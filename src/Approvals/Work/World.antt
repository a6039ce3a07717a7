-- ===== src/Approvals/Work/World.antt =====
-- adapters/moodle/approval_state.py: the bot, which prepares and resolves requests, and the workers,
-- which claim work and record what came of it, over one database, in any order.
use moodle_autotask.Base.{
  ℕ, zero, suc, ◌+◌, String, Bool, Option, none, some, List, [], ◌∷◌, length, ok, err,
}
use moodle_autotask.Events.{NotificationEvent}
use moodle_autotask.Approvals.{ApprovalState, Outcome, after}
use moodle_autotask.Approvals.Requests.{Runtime, prepare, mark_notified, resolve}
use moodle_autotask.Approvals.Work.{WorkClaim, claim_work}
use moodle_autotask.Approvals.Work.Calls.{
  Completion, record_lab, mark_ready, mark_execution_complete, complete_execution, fail_execution,
  mark_cleaned, retry_work, fail_work,
}

-- What the holder of a claim calls.
pub data Call : Type 0 where
  call_record_lab : (handle : String) → Call
  call_mark_ready : (for_execution : Bool) → Call
  call_mark_execution_complete : Call
  call_complete_execution : Completion → Call
  call_fail_execution : (error_code : String) → Call
  call_mark_cleaned : Call
  call_retry_work : (error_code : String) → (delay_seconds : ℕ) → (exhaustible : Bool) → Call
  call_fail_work : (error_code : String) → Call

unfoldable pub call : WorkClaim → Call → ℕ → ApprovalState → Outcome Bool
unfolding record_lab mark_ready mark_execution_complete complete_execution fail_execution
    mark_cleaned retry_work fail_work
call c (call_record_lab handle) moment s = record_lab c handle moment s
call c (call_mark_ready for_execution) moment s = mark_ready c for_execution moment s
call c call_mark_execution_complete moment s = mark_execution_complete c moment s
call c (call_complete_execution d) moment s = complete_execution c d moment s
call c (call_fail_execution error_code) moment s = fail_execution c error_code moment s
call c call_mark_cleaned moment s = mark_cleaned c moment s
call c (call_retry_work error_code delay_seconds exhaustible) moment s =
    retry_work c error_code delay_seconds exhaustible moment s
call c (call_fail_work error_code) moment s = fail_work c error_code moment s

-- The database, the claims that were ever handed out, newest first, and the time.
pub record World : Type 0 where
  pub state : ApprovalState
  pub issued : List WorkClaim
  pub clock : ℕ

-- A holder names its claim by its place among those handed out.
pub data Action : Type 0 where
  passes : (seconds : ℕ) → Action
  prepares : NotificationEvent → (tokens : ℕ → String) → Action
  notifies : NotificationEvent → (chat_id message_id : ℕ) → Action
  resolves : (token : String) → (user_id : ℕ) → Action
  claims : (owner : String) → (lease_seconds : ℕ) → Action
  records : (place : ℕ) → Call → Action

abbrev pub nth : {A : Type 0} → ℕ → List A → Option A
nth n [] = none
nth zero (a ∷ rest) = some a
nth (suc n) (a ∷ rest) = nth n rest

-- The world after a claim, which an exception leaves as it was.
abbrev pub claimed : World → Outcome (Option WorkClaim) → World
claimed w (err _) = w
claimed w (ok (none, s)) = record w { state = s }
claimed w (ok (some c, s)) = record w { state = s; issued = c ∷ w.issued }

unfoldable pub recorded : World → Call → Option WorkClaim → World
unfolding call
recorded w k none = w
recorded w k (some c) = record w { state = after w.state (call c k w.clock w.state) }

module _ (rt : Runtime) (allowed_user_id : ℕ) (tokens : ℕ → String) where
  -- The token of a claim is the next of those that `secrets` gives.
  unfoldable pub step : Action → World → World
  unfolding prepare mark_notified resolve claim_work recorded
  step (passes seconds) w = record w { clock = w.clock + seconds }
  step (prepares e callbacks) w = record w {
    state = after w.state (prepare e w.clock callbacks w.state);
  }
  step (notifies e chat_id message_id) w = record w {
    state = after w.state (mark_notified e chat_id message_id w.state);
  }
  step (resolves token user_id) w = record w {
    state = after w.state (resolve rt token user_id allowed_user_id w.clock w.state);
  }
  step (claims owner lease_seconds) w =
      claimed w (claim_work rt owner (tokens (length w.issued)) lease_seconds w.clock w.state)
  step (records place k) w = recorded w k (nth place w.issued)

  unfoldable pub run : List Action → World → World
  unfolding step
  run [] w = w
  run (a ∷ actions) w = run actions (step a w)
