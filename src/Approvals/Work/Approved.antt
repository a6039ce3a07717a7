-- ===== src/Approvals/Work/Approved.antt =====
-- adapters/moodle/approval_state.py: the approval that stands behind a row of the work.
use moodle_autotask.Base.{
  ℕ, String, ◌≡◌, refl, sym, subst, subst₂, inl, inr, Bool, true, false, ◌&&◌, ◌||◌, Option, none,
  some, List, ◌∷◌, arith, ◌==◌, Bool-cases, any, All,
}
use moodle_autotask.Table.{
  update_where, select_one, All-update_where, All-map, any-update_where, any-update_where_makes,
  any-select_one, select_one-All,
}
use moodle_autotask.Events.{NotificationEvent, same_text}
use moodle_autotask.Approvals.{Decision, Request, CallbackAction, WorkRow, ApprovalState}
use moodle_autotask.Approvals.Requests.{
  Runtime, has_event, is_pending, decide, resolve_request, enqueue_work, new_work, new_request,
}

abbrev is_approved : Decision → Bool
is_approved Decision.approved = true
is_approved _ = false

abbrev decided_by : ℕ → Option (ℕ × ℕ) → Bool
decided_by allowed none = false
decided_by allowed (some (user, moment)) = user == allowed

-- A request of an event, which the user has approved.
abbrev pub is_approval : ℕ → String → Request → Bool
is_approval allowed event_id r =
    has_event event_id r && is_approved r.decision && decided_by allowed r.decided

abbrev pub Faithful : ℕ → Request → Type 0
Faithful allowed r =
    (r.payload.event_id ≡ r.event_id)
    × (is_approved r.decision ≡ true → decided_by allowed r.decided ≡ true)

abbrev pub HasApproval : ℕ → List Request → WorkRow → Type 0
HasApproval allowed requests w = any (is_approval allowed w.event_id) requests ≡ true

pub record Authorized (allowed : ℕ) (s : ApprovalState) : Type 0 where
  pub faithful : All (Faithful allowed) s.requests
  pub approved : All (HasApproval allowed s.requests) s.work_items

module _ (allowed : ℕ) (s s' : ApprovalState) (auth : Authorized allowed s) where
  -- The work changes, but for its events.
  pub work-Authorized :
      (test : WorkRow → Bool) (set : WorkRow → WorkRow)
      → ((w : WorkRow) → (set w).event_id ≡ w.event_id)
      → s'.requests ≡ s.requests
      → s'.work_items ≡ update_where test set s.work_items
      → Authorized allowed s'
  work-Authorized test set same requests work = record {
    faithful = rw requests auth.faithful;
    approved =
        subst₂ (λ (r : List Request) (x : List WorkRow). All (HasApproval allowed r) x)
          (sym requests) (sym work)
          (All-update_where (HasApproval allowed s.requests) test set s.work_items
            (λ w t h.
              subst (λ (e : String). any (is_approval allowed e) s.requests ≡ true) (sym (same w))
                h)
            auth.approved);
  }

  pub same-Authorized :
      s'.requests ≡ s.requests → s'.work_items ≡ s.work_items → Authorized allowed s'
  same-Authorized requests work = record {
    faithful = rw requests auth.faithful;
    approved =
        subst₂ (λ (r : List Request) (x : List WorkRow). All (HasApproval allowed r) x)
          (sym requests) (sym work) auth.approved;
  }

  -- A new request.
  pub new-Authorized :
      (e : NotificationEvent) (moment : ℕ)
      → s'.requests ≡ new_request e moment ∷ s.requests
      → s'.work_items ≡ s.work_items
      → Authorized allowed s'
  new-Authorized e moment requests work = record {
    faithful = rw requests ((refl, λ h. absurd (ground arith)), auth.faithful);
    approved =
        subst₂ (λ (r : List Request) (x : List WorkRow). All (HasApproval allowed r) x)
          (sym requests) (sym work)
          (All-map (HasApproval allowed s.requests)
            (HasApproval allowed (new_request e moment ∷ s.requests)) s.work_items
            (λ w h. ground arith) auth.approved);
  }

  -- The requests change, and what is approved stays so.
  pub requests-Authorized :
      (test : Request → Bool) (set : Request → Request)
      → ((e : String) (r : Request)
          → test r ≡ true
          → is_approval allowed e r ≡ true
          → is_approval allowed e (set r) ≡ true)
      → ((r : Request) → test r ≡ true → Faithful allowed r → Faithful allowed (set r))
      → s'.requests ≡ update_where test set s.requests
      → s'.work_items ≡ s.work_items
      → Authorized allowed s'
  requests-Authorized test set keeps faithful requests work = record {
    faithful =
        rw requests
          (All-update_where (Faithful allowed) test set s.requests faithful auth.faithful);
    approved =
        subst₂ (λ (r : List Request) (x : List WorkRow). All (HasApproval allowed r) x)
          (sym requests) (sym work)
          (All-map (HasApproval allowed s.requests)
            (HasApproval allowed (update_where test set s.requests)) s.work_items
            (λ w h.
              any-update_where (is_approval allowed w.event_id) test set s.requests
                (keeps w.event_id) h)
            auth.approved);
  }

  -- Work for an event that is approved.
  pub enqueued-Authorized :
      (rt : Runtime) (e : NotificationEvent) (moment : ℕ)
      → any (is_approval allowed e.event_id) s.requests ≡ true
      → s'.requests ≡ s.requests
      → s'.work_items ≡ enqueue_work rt e moment s.work_items
      → Authorized allowed s'
  unfolding enqueue_work
  enqueued-Authorized rt e moment approval requests work =
      let n = new_work rt e moment in
      elim (Bool-cases (
        any
          (λ (v : WorkRow).
            same_text v.event_id n.event_id || same_text v.provision_key n.provision_key)
          s.work_items)) [
            | inl t ↦ same-Authorized requests (ground arith)
            | inr f ↦ record {
              faithful = rw requests auth.faithful;
              approved =
                  subst₂ (λ (r : List Request) (x : List WorkRow). All (HasApproval allowed r) x)
                    (sym requests) (sym (the_work f)) (approval, auth.approved);
            }
          ]
    where
      the_work :
          any
              (λ (v : WorkRow).
                same_text v.event_id (new_work rt e moment).event_id
                || same_text v.provision_key (new_work rt e moment).provision_key)
              s.work_items
            ≡ false
          → s'.work_items ≡ new_work rt e moment ∷ s.work_items
      the_work f = ground arith

module _ (rt : Runtime) (allowed user_id moment : ℕ) (s : ApprovalState)
    (auth : Authorized allowed s) (id : String) (r : Request) where
  abbrev decided_state : Decision → ApprovalState
  decided_state d = record s { requests = decide d user_id moment r.payload s.requests }

  decided-Authorized : (d : Decision) → user_id ≡ allowed → Authorized allowed (decided_state d)
  decided-Authorized d same =
      requests-Authorized allowed s (decided_state d) auth _ _ (λ e q t h. ground arith)
        (λ q t (id_same, h). (id_same, λ k. ground (arith, same))) refl refl

  pub resolved-Authorized :
      (a : CallbackAction) (d : Decision)
      → user_id ≡ allowed
      → select_one (has_event id) s.requests ≡ some r
      → r.decision ≡ d
      → Authorized allowed (resolve_request rt user_id moment s a r.payload d).1
  unfolding resolve_request
  resolved-Authorized CallbackAction.details d same row given = auth
  resolved-Authorized CallbackAction.approve Decision.pending same row given =
      let (id_same, _) =
        select_one-All (Faithful allowed) (has_event id) s.requests auth.faithful row in
      let waits =
        any-select_one (has_event id)
          (λ (q : Request). has_event r.payload.event_id q && is_pending q.decision) s.requests row
          (ground arith) in
      enqueued-Authorized allowed (decided_state Decision.approved) _
        (decided-Authorized Decision.approved same) rt r.payload moment
        (any-update_where_makes (is_approval allowed r.payload.event_id) _ _ s.requests
          (λ q t. ground (arith, same)) waits)
        refl refl
  resolved-Authorized CallbackAction.approve Decision.approved same row given =
      let (id_same, by_user) =
        select_one-All (Faithful allowed) (has_event id) s.requests auth.faithful row in
      enqueued-Authorized allowed s _ auth rt r.payload moment
        (any-select_one (has_event id) (is_approval allowed r.payload.event_id) s.requests row
          (ground arith))
        refl refl
  resolved-Authorized CallbackAction.approve Decision.ignored same row given = auth
  resolved-Authorized CallbackAction.ignore Decision.pending same row given =
      decided-Authorized Decision.ignored same
  resolved-Authorized CallbackAction.ignore Decision.ignored same row given = auth
  resolved-Authorized CallbackAction.ignore Decision.approved same row given = auth
