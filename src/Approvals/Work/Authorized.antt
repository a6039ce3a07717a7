-- ===== src/Approvals/Work/Authorized.antt =====
-- adapters/moodle/approval_state.py: no work without an approval, whatever the bot and the workers do.
use moodle_autotask.Base.{
  ℕ, ◌+◌, String, ◌≡◌, refl, inl, inr, Bool, true, false, not, ◌&&◌, Option, none, some, List, [],
  ◌∷◌, arith, ◌==◌, Bool-cases, length, any, All, ok,
}
use moodle_autotask.Table.{select_one, count}
use moodle_autotask.Events.{NotificationEvent}
use moodle_autotask.Approvals.{
  Request, WorkRow, ApprovalState, after, guard, found, positive_id, insert_callbacks,
}
use moodle_autotask.Approvals.Requests.{
  Runtime, has_event as has_request_event, has_identity, same_action, actions, is_request_of,
  has_token, buttons, prepare, prepare_request, mark_notified, resolve,
}
use moodle_autotask.Approvals.Submissions.Claims.{is_lease_request}
use moodle_autotask.Approvals.Work.{
  WorkClaim, is_claimable, is_taken, set_taken, select_rows, scan, take_work, claim_work, work_item,
  update_work,
}
use moodle_autotask.Approvals.Work.Calls.{add_result, has_result}
use moodle_autotask.Approvals.Work.World.{
  Call, World, Action, passes, prepares, notifies, resolves, claims, records, nth, claimed,
  recorded, step, run,
}
use moodle_autotask.Approvals.Work.Finish.{through, through_claim, bound}
use moodle_autotask.Approvals.Work.Keeps.{call_keeps}
use moodle_autotask.Approvals.Work.Approved.{
  Authorized, HasApproval, work-Authorized, same-Authorized, new-Authorized, requests-Authorized,
  resolved-Authorized,
}

module _ (allowed : ℕ) where
  prepared-Authorized :
      (e : NotificationEvent) (moment : ℕ) (callbacks : ℕ → String) (s : ApprovalState)
      (o : Option Request) {s' : ApprovalState}
      → Authorized allowed s
      → prepare_request e moment callbacks s o ≡ ok s'
      → Authorized allowed s'
  unfolding prepare_request
  prepared-Authorized e moment callbacks s none {s' = s'} auth h =
      let (_, h1) =
        bound (guard (not (any (has_identity e.task_key e.revision_digest) s.requests))) _ h in
      let (cs, h2) =
        bound (insert_callbacks same_action e.event_id actions callbacks s.callbacks) _ h1 in
      new-Authorized allowed s s' auth e moment (ground arith) (ground arith)
  prepared-Authorized e moment callbacks s (some r) {s' = s'} auth h =
      let (_, h1) = bound (guard (is_request_of e r)) _ h in
      same-Authorized allowed s s' auth (ground arith) (ground arith)

  prepare-Authorized :
      (e : NotificationEvent) (moment : ℕ) (callbacks : ℕ → String) (s : ApprovalState)
      → Authorized allowed s
      → Authorized allowed (after s (prepare e moment callbacks s))
  unfolding prepare
  prepare-Authorized e moment callbacks s auth =
      through (Authorized allowed) s
        (prepare_request e moment callbacks s
          (select_one (has_request_event e.event_id) s.requests))
        _ auth
        (λ s' h. through (Authorized allowed) s (buttons e.event_id s') _ auth (λ b _.
          prepared-Authorized e moment callbacks s
            (select_one (has_request_event e.event_id) s.requests) auth h))

  notified-Authorized :
      (e : NotificationEvent) (chat_id message_id : ℕ) (s : ApprovalState)
      → Authorized allowed s
      → Authorized allowed (after s (mark_notified e chat_id message_id s))
  unfolding mark_notified
  notified-Authorized e chat_id message_id s auth =
      through (Authorized allowed) s (guard (positive_id chat_id && positive_id message_id)) _ auth
        (λ _ _.
          through (Authorized allowed) s
            (found (select_one (has_request_event e.event_id) s.requests)) _ auth
            (λ r _. through (Authorized allowed) s (guard (is_request_of e r)) _ auth (λ _ _.
              requests-Authorized allowed s _ auth _ _ (λ x q t h. ground arith) (λ q t h. h) refl
                refl)))

  resolve-Authorized :
      (rt : Runtime) (token : String) (user_id moment : ℕ) (s : ApprovalState)
      → Authorized allowed s
      → Authorized allowed (after s (resolve rt token user_id allowed moment s))
  unfolding resolve
  resolve-Authorized rt token user_id moment s auth =
      through (Authorized allowed) s
        (guard (positive_id user_id && positive_id allowed && user_id == allowed)) _ auth
        (λ _ g.
          through (Authorized allowed) s (found (select_one (has_token token) s.callbacks)) _ auth
            (λ c _.
              through (Authorized allowed) s
                (found (select_one (has_request_event c.event_id) s.requests)) _ auth
                (λ r row.
                  resolved-Authorized rt allowed user_id moment s auth c.event_id r c.action
                    r.decision (ground (arith, g)) (ground (arith, row)) refl)))

  take-Authorized :
      (rt : Runtime) (owner token : String) (lease_seconds : ℕ) (w : World)
      (o : Option (WorkRow × NotificationEvent))
      → Authorized allowed w.state
      → Authorized allowed
          (claimed w (take_work rt owner token lease_seconds w.clock w.state o)).state
  unfolding take_work
  take-Authorized rt owner token lease_seconds w none auth = auth
  take-Authorized rt owner token lease_seconds w (some (v, e)) auth =
      let P = λ (u : World). Authorized allowed u.state in
      through_claim P w (guard (count (is_taken w.clock v.event_id) w.state.work_items == 1)) _ auth
        (λ _ _.
          through_claim P w
            (update_work (is_taken w.clock v.event_id)
              (set_taken owner token (w.clock + lease_seconds)) w.state)
            _ auth
            (λ s updated. through_claim P w (work_item rt v e (v.attempts + 1)) _ auth (λ item _.
              work-Authorized allowed w.state s auth (is_taken w.clock v.event_id)
                (set_taken owner token (w.clock + lease_seconds)) (λ r. refl)
                (ground (arith, updated)) (ground (arith, updated)))))

  claim-Authorized :
      (rt : Runtime) (owner token : String) (lease_seconds : ℕ) (w : World)
      → Authorized allowed w.state
      → Authorized allowed
          (claimed w (claim_work rt owner token lease_seconds w.clock w.state)).state
  unfolding claim_work
  claim-Authorized rt owner token lease_seconds w auth =
      let P = λ (u : World). Authorized allowed u.state in
      through_claim P w (guard (is_lease_request owner lease_seconds)) _ auth (λ _ _.
        through_claim P w
          (scan rt w.clock w.state (select_rows (is_claimable w.clock) w.state.work_items)) _ auth
          (λ o _. take-Authorized rt owner token lease_seconds w o auth))

  added-Authorized :
      (c : WorkClaim) (moment : ℕ) (s : ApprovalState) (payload : String) (b : Bool)
      (s' : ApprovalState)
      → Authorized allowed s
      → Authorized allowed s'
      → Authorized allowed (after s (add_result c moment payload b s'))
  added-Authorized c moment s payload false s' auth auth' = auth'
  added-Authorized c moment s payload true s' auth auth' =
      elim (Bool-cases (has_result c s'.execution_outbox)) [
        | inl t ↦ rw t auth
        | inr f ↦ rw f (record { faithful = auth'.faithful; approved = auth'.approved })
      ]

  record-Authorized :
      (w : World) (k : Call) (o : Option WorkClaim)
      → Authorized allowed w.state
      → Authorized allowed (recorded w k o).state
  unfolding recorded
  record-Authorized w k none auth = auth
  record-Authorized w k (some c) auth =
      call_keeps (Authorized allowed) c w.clock w.state auth
        (λ a h. work-Authorized allowed w.state _ auth _ _ (λ r. refl) refl refl)
        (λ handle g. work-Authorized allowed w.state _ auth _ _ (λ r. refl) refl refl)
        (λ payload b s'. added-Authorized c w.clock w.state payload b s' auth) k

  module _ (rt : Runtime) (tokens : ℕ → String) where
    step-Authorized :
        (a : Action) (w : World)
        → Authorized allowed w.state
        → Authorized allowed (step rt allowed tokens a w).state
    unfolding step
    step-Authorized (passes seconds) w auth = auth
    step-Authorized (prepares e callbacks) w auth =
        prepare-Authorized e w.clock callbacks w.state auth
    step-Authorized (notifies e chat_id message_id) w auth =
        notified-Authorized e chat_id message_id w.state auth
    step-Authorized (resolves token user_id) w auth =
        resolve-Authorized rt token user_id w.clock w.state auth
    step-Authorized (claims owner lease_seconds) w auth =
        claim-Authorized rt owner (tokens (length w.issued)) lease_seconds w auth
    step-Authorized (records place k) w auth = record-Authorized w k (nth place w.issued) auth

    run-Authorized :
        (actions : List Action) (w : World)
        → Authorized allowed w.state
        → Authorized allowed (run rt allowed tokens actions w).state
    unfolding run
    run-Authorized [] w auth = auth
    run-Authorized (a ∷ rest) w auth =
        run-Authorized rest (step rt allowed tokens a w) (step-Authorized a w auth)

-- Whatever the bot does with requests and the workers with claims, starting from no requests and no
-- work: every row of the work is for an event of which some request was approved, and approved by
-- the allowed user.
pub work_approved :
    (rt : Runtime) (tokens : ℕ → String) (allowed : ℕ) (actions : List Action) (w : World)
    → w.state.requests ≡ []
    → w.state.work_items ≡ []
    → (let s = (run rt allowed tokens actions w).state in
        All (HasApproval allowed s.requests) s.work_items)
work_approved rt tokens allowed actions w no_requests no_work =
    (run-Authorized allowed rt tokens actions w
      (record { faithful = rw no_requests tt; approved = rw no_work tt })).approved
