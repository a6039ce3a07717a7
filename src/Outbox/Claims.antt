-- ===== src/Outbox/Claims.antt =====
-- adapters/moodle/state.py: what `claim` leaves true of the row of one event that is not due.
use moodle_autotask.Base.{
  ℕ, ◌+◌, String, ◌≡◌, refl, sym, ap, ◌∙◌, ◌≢◌, inl, inr, true, false, Option, none, some, List, [],
  ◌∷◌, arith, Bool-cases, Option-cases, any, All, Result, Result-cases, ok, err,
}
use moodle_autotask.Events.{NotificationEvent}
use moodle_autotask.Outbox.{OutboxClaim, DeliveryState, Row, StateError}
use moodle_autotask.Table.{update_where}
use moodle_autotask.Outbox.Leases.{
  is_due, is_takeable, set_leased, Claimed, add_claim, claim_more, take_row, stored_event,
  claim_rows,
}
use moodle_autotask.Outbox.Keeps.{Keeps, takeable_not, update-Keeps, not_both}

module _ (e : String) (Q : DeliveryState → Type 0) where
  -- What a claim leaves, and that it has not taken the event.
  abbrev pub Spared : Claimed → Type 0
  Spared (ok (claims, rows)) =
      Keeps e Q rows × All (λ (c : OutboxClaim). c.event.event_id ≢ e) claims
  Spared (err _) = Unit

  -- The same of one pass of the loop.
  abbrev SparedOne : Result StateError (Option OutboxClaim × List Row) → Type 0
  SparedOne (ok (none, rows)) = Keeps e Q rows
  SparedOne (ok (some c, rows)) = Keeps e Q rows × (c.event.event_id ≢ e)
  SparedOne (err _) = Unit

  Spared-add_claim :
      (c : OutboxClaim) (r : Claimed)
      → c.event.event_id ≢ e
      → Spared r
      → Spared (add_claim (some c) r)
  Spared-add_claim c (ok (claims, rows)) n (k, a) = (k, (n, a))
  Spared-add_claim c (err _) n k = tt

  Spared-claim_more :
      (r : Result StateError (Option OutboxClaim × List Row)) (more : List Row → Claimed)
      → SparedOne r
      → ((rows : List Row) → Keeps e Q rows → Spared (more rows))
      → Spared (claim_more r more)
  Spared-claim_more (ok (none, rows)) more k h = h rows k
  Spared-claim_more (ok (some c, rows)) more (k, n) h = Spared-add_claim c (more rows) n (h rows k)
  Spared-claim_more (err _) more k h = tt

  stored_id :
      (r : Row) (event : NotificationEvent)
      → stored_event r ≡ ok event
      → event.event_id ≡ r.event_id
  unfolding stored_event
  stored_id r event h = elim (Option-cases r.payload) [
    | inl q ↦ ground arith
    | inr (p, q) ↦ ground arith
  ]

  takes_another :
      (moment : ℕ) (id : String) (rows : List Row)
      → ((available_at : ℕ) (d : DeliveryState) → Q d → is_due moment available_at d ≡ false)
      → Keeps e Q rows
      → any (is_takeable moment id) rows ≡ true
      → id ≢ e
  takes_another moment id rows h k t same = not_both (
      sym t
      ∙ ap (λ x. any (is_takeable moment x) rows) same
      ∙ takeable_not e Q moment rows h k.kept)

  take-Keeps :
      (moment : ℕ) (id owner token : String) (expires_at : ℕ) (rows : List Row)
      → id ≢ e
      → Keeps e Q rows
      → Keeps e Q (update_where (is_takeable moment id) (set_leased owner token expires_at) rows)
  take-Keeps moment id owner token expires_at rows n k =
      update-Keeps e Q (is_takeable moment id) (set_leased owner token expires_at) rows (λ r. refl)
        (λ r kr o same. absurd (ground arith)) k

  take_row-SparedOne :
      (owner token : String) (moment lease_seconds : ℕ) (r : Row) (rows : List Row)
      → ((available_at : ℕ) (d : DeliveryState) → Q d → is_due moment available_at d ≡ false)
      → Keeps e Q rows
      → SparedOne (take_row owner token moment lease_seconds r rows)
  unfolding take_row
  take_row-SparedOne owner token moment lease_seconds r rows h k =
      elim (Bool-cases (any (is_takeable moment r.event_id) rows)) [
        | inr f ↦ rw f k
        | inl t ↦
            let n : r.event_id ≢ e = takes_another moment r.event_id rows h k t in
            elim (Result-cases (stored_event r)) [
              | inr (x, q) ↦ rw (t, q) tt
              | inl (event, q) ↦
                  rw (t, q)
                    (
                      take-Keeps moment r.event_id owner token (moment + lease_seconds) rows n k,
                      (λ same. n (sym (stored_id r event q) ∙ same)),
                    )
            ]
      ]

  pub claim_rows-Spared :
      (owner : String) (moment lease_seconds : ℕ) (selected : List Row) (tokens : ℕ → String)
      (rows : List Row)
      → ((available_at : ℕ) (d : DeliveryState) → Q d → is_due moment available_at d ≡ false)
      → Keeps e Q rows
      → Spared (claim_rows owner moment lease_seconds selected tokens rows)
  unfolding claim_rows
  claim_rows-Spared owner moment lease_seconds [] tokens rows h k = (k, tt)
  claim_rows-Spared owner moment lease_seconds (r ∷ selected) tokens rows h k =
      Spared-claim_more _ _ (take_row-SparedOne owner (tokens 0) moment lease_seconds r rows h k)
        (λ rows' k'. claim_rows-Spared owner moment lease_seconds selected _ rows' h k')
