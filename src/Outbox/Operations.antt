-- ===== src/Outbox/Operations.antt =====
-- adapters/moodle/state.py: the calls that the scheduler and the operator make, in any order, and
-- what they leave true of one event.
use moodle_autotask.Base.{
  ℕ, String, ◌≡◌, ◌≢◌, inl, inr, false, ◌&&◌, List, [], ◌∷◌, ◌++◌, leb, Bool-cases, All, Result, ok,
  err,
}
use moodle_autotask.Events.{NotificationDraft}
use moodle_autotask.Outbox.{
  OutboxClaim, DeliveryState, delivered, ErrorCode, MoodleState, StateError, acknowledge, enqueue,
}
use moodle_autotask.Outbox.Leases.{
  is_due, is_leased_to, after, claim_rows, claim, renew, complete, fail, select, limited, Claimed,
  with_outbox, is_owner,
}
use moodle_autotask.Outbox.Claims.{Spared, claim_rows-Spared}
use moodle_autotask.Outbox.Keeps.{
  Keeps, enqueue-Keeps, acknowledge-Keeps, renew-Keeps, complete-Keeps, fail-Keeps,
}

-- A call of a method of `MoodleState` that may write, with the time at which it runs.
pub data Operation : Type 0 where
  call_enqueue : NotificationDraft → (moment : ℕ) → Operation
  call_acknowledge : (task_key revision_digest : String) (now : ℕ) → Operation
  call_claim :
      (owner : String) (limit lease_seconds : ℕ) (tokens : ℕ → String) (moment : ℕ) → Operation
  call_renew : OutboxClaim → (lease_seconds moment : ℕ) → Operation
  call_complete : OutboxClaim → (moment : ℕ) → Operation
  call_fail :
      OutboxClaim
      → (retry_base_seconds retry_max_seconds : ℕ) → ErrorCode
      → (moment : ℕ) → Operation

abbrev pub claims_of :
    MoodleState
    → Result StateError (List OutboxClaim × MoodleState)
    → List OutboxClaim × MoodleState
claims_of s (ok r) = r
claims_of s (err _) = ([], s)

-- The claims that a call hands out, and the tables after it.
unfoldable pub apply :
    (String → String → String) → Operation → MoodleState → List OutboxClaim × MoodleState
unfolding enqueue acknowledge claim renew complete fail
apply event_id_of (call_enqueue draft moment) s = ([], (enqueue event_id_of draft moment s).1)
apply event_id_of (call_acknowledge task_key revision_digest now) s =
    ([], acknowledge task_key revision_digest now s)
apply event_id_of (call_claim owner limit lease_seconds tokens moment) s =
    claims_of s (claim owner limit lease_seconds tokens moment s)
apply event_id_of (call_renew c lease_seconds moment) s =
    ([], after s (renew c lease_seconds moment s))
apply event_id_of (call_complete c moment) s = ([], (complete c moment s).1)
apply event_id_of (call_fail c base top code moment) s =
    ([], after s (fail c base top code moment s))

abbrev add_claims :
    List OutboxClaim → List OutboxClaim × MoodleState → List OutboxClaim × MoodleState
add_claims claims (later, s) = (claims ++ later, s)

-- All the claims that a sequence of calls hands out, and the tables at the end.
unfoldable pub run :
    (String → String → String) → List Operation → MoodleState → List OutboxClaim × MoodleState
unfolding apply
run event_id_of [] s = ([], s)
run event_id_of (op ∷ ops) s =
    let (claims, s') = apply event_id_of op s in add_claims claims (run event_id_of ops s')

module _ (e : String) (Q : DeliveryState → Type 0) where
  -- A call that can neither take an event whose rows satisfy `Q` nor write to it as its owner.
  abbrev pub Harmless : Operation → Type 0
  Harmless (call_claim owner limit lease_seconds tokens moment) =
      (available_at : ℕ) (d : DeliveryState) → Q d → is_due moment available_at d ≡ false
  Harmless (call_renew c lease_seconds moment) =
      (d : DeliveryState) → Q d → is_leased_to c.lease_token moment d ≡ false
  Harmless (call_fail c base top code moment) =
      (d : DeliveryState) → Q d → is_leased_to c.lease_token moment d ≡ false
  Harmless _ = Unit

  -- The event is not among the claims, and its rows still satisfy `Q`.
  abbrev pub Unclaimed : List OutboxClaim × MoodleState → Type 0
  Unclaimed (claims, s) =
      All (λ (c : OutboxClaim). c.event.event_id ≢ e) claims × Keeps e Q s.outbox

  claimed_outbox :
      (s : MoodleState) (r : Claimed)
      → Keeps e Q s.outbox
      → Spared e Q r
      → Unclaimed (claims_of s (with_outbox s r))
  claimed_outbox s (ok (claims, rows)) k (k', a) = (a, k')
  claimed_outbox s (err _) k _ = (tt, k)

  claim-Unclaimed :
      (owner : String) (limit lease_seconds : ℕ) (tokens : ℕ → String) (moment : ℕ)
      (s : MoodleState)
      → ((available_at : ℕ) (d : DeliveryState) → Q d → is_due moment available_at d ≡ false)
      → Keeps e Q s.outbox
      → Unclaimed (claims_of s (claim owner limit lease_seconds tokens moment s))
  unfolding claim
  claim-Unclaimed owner limit lease_seconds tokens moment s h k =
      elim (Bool-cases (
        is_owner owner
        && (leb 1 limit && leb limit 100)
        && (leb 6 lease_seconds && leb lease_seconds 3600))) [
          | inr f ↦ rw f (tt, k)
          | inl t ↦
              let selected = limited limit (select moment s.outbox) in
              rw t (
                claimed_outbox s (claim_rows owner moment lease_seconds selected tokens s.outbox) k
                  (claim_rows-Spared e Q owner moment lease_seconds selected tokens s.outbox h k))
        ]

  apply-Unclaimed :
      (event_id_of : String → String → String) (op : Operation) (s : MoodleState)
      → ((n : ℕ) → Q (delivered n))
      → Harmless op
      → Keeps e Q s.outbox
      → Unclaimed (apply event_id_of op s)
  unfolding apply
  apply-Unclaimed event_id_of (call_enqueue draft moment) s q h k =
      (tt, enqueue-Keeps e Q event_id_of draft moment s k)
  apply-Unclaimed event_id_of (call_acknowledge task_key revision_digest now) s q h k =
      (tt, acknowledge-Keeps e Q task_key revision_digest now s q k)
  apply-Unclaimed event_id_of (call_claim owner limit lease_seconds tokens moment) s q h k =
      claim-Unclaimed owner limit lease_seconds tokens moment s h k
  apply-Unclaimed event_id_of (call_renew c lease_seconds moment) s q h k =
      (tt, renew-Keeps e Q c lease_seconds moment s h k)
  apply-Unclaimed event_id_of (call_complete c moment) s q h k =
      (tt, complete-Keeps e Q c moment s q k)
  apply-Unclaimed event_id_of (call_fail c base top code moment) s q h k =
      (tt, fail-Keeps e Q c base top code moment s h k)

  spared_append :
      (claims later : List OutboxClaim)
      → All (λ (c : OutboxClaim). c.event.event_id ≢ e) claims
      → All (λ (c : OutboxClaim). c.event.event_id ≢ e) later
      → All (λ (c : OutboxClaim). c.event.event_id ≢ e) (claims ++ later)
  spared_append [] later a b = b
  spared_append (c ∷ claims) later (n, a) b = (n, spared_append claims later a b)

  -- A sequence of harmless calls.
  pub run-Unclaimed :
      (event_id_of : String → String → String) (ops : List Operation) (s : MoodleState)
      → ((n : ℕ) → Q (delivered n))
      → All Harmless ops
      → Keeps e Q s.outbox
      → Unclaimed (run event_id_of ops s)
  unfolding run
  run-Unclaimed event_id_of [] s q h k = (tt, k)
  run-Unclaimed event_id_of (op ∷ ops) s q (h, hs) k =
      let one = apply-Unclaimed event_id_of op s q h k in
      let more = run-Unclaimed event_id_of ops (apply event_id_of op s).1 q hs one.1 in
      (spared_append _ _ one.0 more.0, more.1)
