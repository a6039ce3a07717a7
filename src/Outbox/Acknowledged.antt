-- ===== src/Outbox/Acknowledged.antt =====
-- adapters/moodle/state.py: a revision that has been acknowledged stays so.
use moodle_autotask.Base.{
  ℕ, String, ◌≡◌, refl, inl, inr, true, ◌&&◌, Option, none, some, List, [], ◌∷◌, leb, Bool-cases,
  any, ok, err,
}
use moodle_autotask.Events.{Content, NotificationDraft}
use moodle_autotask.Outbox.{
  Row, MoodleState, ErrorCode, OutboxClaim, is_acknowledged, is_suppressed, insert_or_ignore,
  set_delivered, enqueue, insert_event, acknowledge, status, has_id,
}
use moodle_autotask.Table.{update_where}
use moodle_autotask.Outbox.Leases.{
  Claimed, with_outbox, is_owner, claim_rows, claim, complete, renew, fail, find_owned, defer,
  is_owned, after, select, limited,
}
use moodle_autotask.Outbox.Keeps.{or_true}
use moodle_autotask.Outbox.Operations.{
  Operation, call_enqueue, call_acknowledge, call_claim, call_renew, call_complete, call_fail,
  apply, run, claims_of,
}

module _ (k v : String) where
  abbrev Acknowledged : MoodleState → Type 0
  Acknowledged s = is_acknowledged k v s ≡ true

  inserted :
      (task_key revision_digest : String) (s : MoodleState) (rows : List Row)
      → Acknowledged s
      → Acknowledged
          (record { outbox = rows; acknowledgements = insert_or_ignore task_key revision_digest s })
  unfolding is_acknowledged insert_or_ignore
  inserted task_key revision_digest s rows h =
      elim (Bool-cases (is_acknowledged task_key revision_digest s)) [
        | inl t ↦ rw t h
        | inr f ↦ rw (f, h) (or_true _)
      ]

  enqueued :
      (event_id_of : String → String → String) (draft : NotificationDraft) (moment : ℕ)
      (s : MoodleState)
      → Acknowledged s
      → Acknowledged (enqueue event_id_of draft moment s).1
  unfolding enqueue insert_event is_acknowledged
  enqueued event_id_of draft moment s h =
      elim (Bool-cases (is_suppressed draft.task_key draft.revision_digest s)) [
        | inl t ↦ rw t h
        | inr f ↦
            elim (Bool-cases
              (any (has_id (event_id_of draft.task_key draft.revision_digest)) s.outbox)) [
                | inl t ↦ rw (f, t) h
                | inr g ↦ rw (f, g) h
              ]
      ]

  claimed :
      (s : MoodleState) (r : Claimed)
      → Acknowledged s
      → Acknowledged (claims_of s (with_outbox s r)).1
  unfolding is_acknowledged
  claimed s (ok _) h = h
  claimed s (err _) h = h

  after_claim :
      (owner : String) (limit lease_seconds : ℕ) (tokens : ℕ → String) (moment : ℕ)
      (s : MoodleState)
      → Acknowledged s
      → Acknowledged (claims_of s (claim owner limit lease_seconds tokens moment s)).1
  unfolding claim
  after_claim owner limit lease_seconds tokens moment s h =
      elim (Bool-cases (
        is_owner owner
        && (leb 1 limit && leb limit 100)
        && (leb 6 lease_seconds && leb lease_seconds 3600))) [
          | inr f ↦ rw f h
          | inl t ↦ rw t (
              claimed s
                (claim_rows owner moment lease_seconds (limited limit (select moment s.outbox))
                  tokens s.outbox)
                h)
        ]

  renewed :
      (c : OutboxClaim) (lease_seconds moment : ℕ) (s : MoodleState)
      → Acknowledged s
      → Acknowledged (after s (renew c lease_seconds moment s))
  unfolding renew is_acknowledged
  renewed c lease_seconds moment s h =
      elim (Bool-cases (leb 6 lease_seconds && leb lease_seconds 3600)) [
        | inr f ↦ rw f h
        | inl t ↦ rw t h
      ]

  completed :
      (c : OutboxClaim) (moment : ℕ) (s : MoodleState)
      → Acknowledged s
      → Acknowledged (complete c moment s).1
  unfolding complete
  completed c moment s h = elim (Bool-cases (any (is_owned c moment) s.outbox)) [
    | inl t ↦ rw t (
        inserted c.event.task_key c.event.revision_digest s
          (update_where (is_owned c moment) (set_delivered moment) s.outbox) h)
    | inr f ↦ rw f h
  ]

  deferred :
      (c : OutboxClaim) (base top : ℕ) (code : ErrorCode) (moment : ℕ) (s : MoodleState)
      (found : Option Row)
      → Acknowledged s
      → Acknowledged (defer c base top code moment s found).1
  unfolding defer is_acknowledged
  deferred c base top code moment s none h = h
  deferred c base top code moment s (some r) h = h

  failed :
      (c : OutboxClaim) (base top : ℕ) (code : ErrorCode) (moment : ℕ) (s : MoodleState)
      → Acknowledged s
      → Acknowledged (after s (fail c base top code moment s))
  unfolding fail
  failed c base top code moment s h =
      elim (Bool-cases (leb 1 base && leb base top && leb top 86400)) [
        | inr f ↦ rw f h
        | inl t ↦ rw t (deferred c base top code moment s (find_owned c moment s.outbox) h)
      ]

  applied :
      (event_id_of : String → String → String) (op : Operation) (s : MoodleState)
      → Acknowledged s
      → Acknowledged (apply event_id_of op s).1
  unfolding apply acknowledge
  applied event_id_of (call_enqueue draft moment) s h = enqueued event_id_of draft moment s h
  applied event_id_of (call_acknowledge task_key revision_digest now) s h =
      inserted task_key revision_digest s (acknowledge task_key revision_digest now s).outbox h
  applied event_id_of (call_claim owner limit lease_seconds tokens moment) s h =
      after_claim owner limit lease_seconds tokens moment s h
  applied event_id_of (call_renew c lease_seconds moment) s h = renewed c lease_seconds moment s h
  applied event_id_of (call_complete c moment) s h = completed c moment s h
  applied event_id_of (call_fail c base top code moment) s h = failed c base top code moment s h

  ran :
      (event_id_of : String → String → String) (ops : List Operation) (s : MoodleState)
      → Acknowledged s
      → Acknowledged (run event_id_of ops s).1
  unfolding run
  ran event_id_of [] s h = h
  ran event_id_of (op ∷ ops) s h =
      ran event_id_of ops (apply event_id_of op s).1 (applied event_id_of op s h)

  nothing_enqueued :
      (event_id_of : String → String → String) (content : Content) (moment : ℕ) (s : MoodleState)
      → Acknowledged s
      → enqueue event_id_of
          (record { task_key = k; revision_digest = v; content = content })
          moment
          s
        ≡ (none, s)
  unfolding enqueue is_suppressed
  nothing_enqueued event_id_of content moment s h = rw h refl

-- Once a revision of a task has been acknowledged, then after every sequence of calls its status is
-- that of nothing to do, and enqueueing it again does nothing.
pub acknowledged_final :
    (event_id_of : String → String → String) (task_key revision_digest : String)
    (ops : List Operation) (s : MoodleState)
    → is_acknowledged task_key revision_digest s ≡ true
    → let s' = (run event_id_of ops s).1 in
      (status task_key revision_digest s' ≡ none)
      × ((content : Content) (moment : ℕ)
          → enqueue event_id_of
              (record { task_key = task_key; revision_digest = revision_digest; content = content })
              moment
              s'
            ≡ (none, s'))
unfolding status
acknowledged_final event_id_of task_key revision_digest ops s h =
    let later = ran task_key revision_digest event_id_of ops s h in
    (
      rw later refl,
      (λ content moment.
          nothing_enqueued task_key revision_digest event_id_of content moment _ later),
    )
