-- ===== src/Approvals/Work/Exclusive.antt =====
-- adapters/moodle/approval_state.py: one lab at a time, whatever the bot and the workers do.
use moodle_autotask.Base.{
  ℕ, ◌+◌, ◌≤◌, String, ◌≡◌, refl, inl, inr, true, false, not, ◌&&◌, Option, none, some, List, [],
  ◌∷◌, arith, ◌==◌, Option-cases, length, any, All, ok,
}
use moodle_autotask.Table.{select_one, count, All-both}
use moodle_autotask.Events.{NotificationEvent}
use moodle_autotask.Approvals.{
  Request, WorkRow, ApprovalState, after, guard, found, positive_id, insert_callbacks,
}
use moodle_autotask.Approvals.Requests.{
  Runtime, has_event as has_request_event, has_identity, same_action, actions, is_request_of,
  has_token, prepare, prepare_request, mark_notified, resolve,
}
use moodle_autotask.Approvals.Submissions.Claims.{is_lease_request}
use moodle_autotask.Approvals.Work.{
  WorkClaim, has_event, has_lab, is_cleaned, is_blocked, is_claimable, is_taken, set_taken,
  select_rows, scan, take_work, claim_work, work_item, update_work,
}
use moodle_autotask.Approvals.Work.World.{
  Call, World, Action, passes, prepares, notifies, resolves, claims, records, nth, claimed,
  recorded, step, run,
}
use moodle_autotask.Approvals.Work.Sound.{Fits, Sound}
use moodle_autotask.Approvals.Work.Finish.{bound, through_claim, nth-All, through, SoundAt}
use moodle_autotask.Approvals.Work.Records.{call-Sound}
use moodle_autotask.Approvals.Work.Found.{select_rows-All, scan_found, item_fields, unique}
use moodle_autotask.Approvals.Work.Resolved.{later-Sound, same-Sound, request-Sound}
use moodle_autotask.Approvals.Work.Taken.{taken-Sound}

-- No work, and no claims.
empty-Sound :
    (tokens : ℕ → String) (s : ApprovalState) (clock : ℕ)
    → s.work_items ≡ []
    → Sound tokens (record { state = s; issued = []; clock = clock })
unfolding count
empty-Sound tokens s clock empty = record {
  keys = λ e. rw empty (omega arith);
  one_lab = rw empty (omega arith);
  leases = rw empty tt;
  fresh = tt;
  uncleaned = tt;
  fits = tt;
}

request_work :
    (e : NotificationEvent) (moment : ℕ) (callbacks : ℕ → String) (s : ApprovalState)
    (o : Option Request) {s' : ApprovalState}
    → prepare_request e moment callbacks s o ≡ ok s'
    → s'.work_items ≡ s.work_items
unfolding prepare_request
request_work e moment callbacks s none h =
    let (_, h1) =
      bound (guard (not (any (has_identity e.task_key e.revision_digest) s.requests))) _ h in
    let (cs, h2) =
      bound (insert_callbacks same_action e.event_id actions callbacks s.callbacks) _ h1 in
    ground arith
request_work e moment callbacks s (some r) h =
    let (_, h1) = bound (guard (is_request_of e r)) _ h in ground arith

prepare_work :
    (e : NotificationEvent) (moment : ℕ) (callbacks : ℕ → String) (s : ApprovalState)
    → (after s (prepare e moment callbacks s)).work_items ≡ s.work_items
unfolding prepare
prepare_work e moment callbacks s =
    through (λ (t : ApprovalState). t.work_items ≡ s.work_items) s
      (prepare_request e moment callbacks s (select_one (has_request_event e.event_id) s.requests))
      _ refl (λ s' h. let same = request_work e moment callbacks s _ h in ground arith)

notified_work :
    (e : NotificationEvent) (chat_id message_id : ℕ) (s : ApprovalState)
    → (after s (mark_notified e chat_id message_id s)).work_items ≡ s.work_items
unfolding mark_notified
notified_work e chat_id message_id s = ground arith

module _ (rt : Runtime) where
  resolve-Sound :
      (tokens : ℕ → String) (token : String) (user_id allowed : ℕ) (w : World)
      → Sound tokens w
      → SoundAt tokens w (after w.state (resolve rt token user_id allowed w.clock w.state))
  unfolding resolve
  resolve-Sound tokens token user_id allowed w sound =
      through (SoundAt tokens w) w.state
        (guard (positive_id user_id && positive_id allowed && user_id == allowed)) _ sound
        (λ _ _.
          through (SoundAt tokens w) w.state
            (found (select_one (has_token token) w.state.callbacks)) _ sound
            (λ c _.
              through (SoundAt tokens w) w.state
                (found (select_one (has_request_event c.event_id) w.state.requests)) _ sound
                (λ r _. request-Sound rt tokens w sound user_id c.action r.payload r.decision)))

module _ (rt : Runtime) (tokens : ℕ → String)
    (distinct : (m n : ℕ) → tokens m ≡ tokens n → m ≡ n) where
  take-Sound :
      (owner : String) (lease_seconds : ℕ) (w : World) (v : WorkRow) (e : NotificationEvent)
      → Sound tokens w
      → is_blocked w.clock w.state.work_items v ≡ false
      → is_claimable w.clock v ≡ true
      → All (λ (q : WorkRow). has_event v.event_id q ≡ true → q ≡ v) w.state.work_items
      → Sound tokens (
          claimed w (
            take_work rt owner
              (tokens (length w.issued))
              lease_seconds
              w.clock
              w.state
              (some (v, e))))
  unfolding take_work
  take-Sound owner lease_seconds w v e sound free open_row alone =
      let token = tokens (length w.issued) in
      through_claim (Sound tokens) w
        (guard (count (is_taken w.clock v.event_id) w.state.work_items == 1)) _ sound
        (λ _ _.
          through_claim (Sound tokens) w
            (update_work (is_taken w.clock v.event_id)
              (set_taken owner token (w.clock + lease_seconds)) w.state)
            _ sound
            (λ s updated.
              through_claim (Sound tokens) w (work_item rt v e (v.attempts + 1)) _ sound
                (λ item given.
                  let (id, status, mode, handle) = item_fields rt v e (v.attempts + 1) given in
                  taken-Sound tokens distinct w sound v
                    (record { item = item; lease_token = token }) owner lease_seconds s
                    (ground (arith, updated)) free open_row alone refl id status mode handle)))

  found-Sound :
      (owner : String) (lease_seconds : ℕ) (w : World) (o : Option (WorkRow × NotificationEvent))
      → Sound tokens w
      → scan rt w.clock w.state (select_rows (is_claimable w.clock) w.state.work_items) ≡ ok o
      → Sound tokens (
          claimed w (take_work rt owner (tokens (length w.issued)) lease_seconds w.clock w.state o))
  unfolding take_work
  found-Sound owner lease_seconds w none sound h = sound
  found-Sound owner lease_seconds w (some (v, e)) sound h =
      let IsAlone = λ (r : WorkRow).
        All (λ (q : WorkRow). has_event r.event_id q ≡ true → q ≡ r) w.state.work_items in
      let IsGood = λ (r : WorkRow). (is_claimable w.clock r ≡ true) × IsAlone r in
      let good =
        select_rows-All IsGood IsAlone (is_claimable w.clock) w.state.work_items
          (λ r alone t. (t, alone)) (unique w.state.work_items sound.keys) in
      let ((open_row, alone), free) =
        scan_found rt IsGood w.clock w.state (select_rows (is_claimable w.clock) w.state.work_items)
          good h in
      take-Sound owner lease_seconds w v e sound free open_row alone

  claim-Sound :
      (owner : String) (lease_seconds : ℕ) (w : World)
      → Sound tokens w
      → Sound tokens
          (claimed w (claim_work rt owner (tokens (length w.issued)) lease_seconds w.clock w.state))
  unfolding claim_work
  claim-Sound owner lease_seconds w sound =
      through_claim (Sound tokens) w (guard (is_lease_request owner lease_seconds)) _ sound (λ _ _.
        through_claim (Sound tokens) w
          (scan rt w.clock w.state (select_rows (is_claimable w.clock) w.state.work_items)) _ sound
          (λ o h. found-Sound owner lease_seconds w o sound h))

  record-Sound :
      (w : World) (k : Call) (place : ℕ)
      → Sound tokens w
      → Sound tokens (recorded w k (nth place w.issued))
  unfolding recorded
  record-Sound w k place sound = elim (Option-cases (nth place w.issued)) [
    | inl e ↦ rw e sound
    | inr (c, e) ↦
        let (uncleaned, fits) =
          nth-All
            (λ (d : WorkClaim).
              (is_cleaned d.item.status ≡ false) × All (Fits d) w.state.work_items)
            place w.issued (All-both _ _ w.issued sound.uncleaned sound.fits) e in
        rw e (call-Sound tokens w c fits uncleaned sound k)
  ]

  step-Sound :
      (allowed : ℕ) (a : Action) (w : World)
      → Sound tokens w
      → Sound tokens (step rt allowed tokens a w)
  unfolding step
  step-Sound allowed (passes seconds) w sound = later-Sound tokens w seconds sound
  step-Sound allowed (prepares e callbacks) w sound =
      same-Sound tokens w _ (prepare_work e w.clock callbacks w.state) sound
  step-Sound allowed (notifies e chat_id message_id) w sound =
      same-Sound tokens w _ (notified_work e chat_id message_id w.state) sound
  step-Sound allowed (resolves token user_id) w sound =
      resolve-Sound rt tokens token user_id allowed w sound
  step-Sound allowed (claims owner lease_seconds) w sound = claim-Sound owner lease_seconds w sound
  step-Sound allowed (records place k) w sound = record-Sound w k place sound

  run-Sound :
      (allowed : ℕ) (actions : List Action) (w : World)
      → Sound tokens w
      → Sound tokens (run rt allowed tokens actions w)
  unfolding run
  run-Sound allowed [] w sound = sound
  run-Sound allowed (a ∷ rest) w sound =
      run-Sound allowed rest (step rt allowed tokens a w) (step-Sound allowed a w sound)

-- Whatever the bot does with requests and the workers with claims, in any order and with any pauses:
-- at every time at most one row of the work has a lab, that is, has a handle and is not cleaned, or
-- is being provisioned under a lease in force; and an event has at most one row. Work starts with an
-- empty table, and the tokens of leases are distinct.
pub one_lab :
    (rt : Runtime) (tokens : ℕ → String) (allowed : ℕ) (actions : List Action) (s : ApprovalState)
    (clock : ℕ)
    → ((m n : ℕ) → tokens m ≡ tokens n → m ≡ n)
    → s.work_items ≡ []
    → (let w = run rt allowed tokens actions (record { state = s; issued = []; clock = clock }) in
        (count (has_lab w.clock) w.state.work_items ≤ 1)
        × ((e : String) → count (has_event e) w.state.work_items ≤ 1))
one_lab rt tokens allowed actions s clock distinct empty =
    let sound =
      run-Sound rt tokens distinct allowed actions
        (record { state = s; issued = []; clock = clock }) (empty-Sound tokens s clock empty) in
    (sound.one_lab, sound.keys)
