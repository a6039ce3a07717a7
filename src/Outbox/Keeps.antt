-- ===== src/Outbox/Keeps.antt =====
-- adapters/moodle/state.py: what an operation leaves true of the row of one event, as long as the
-- event is neither due nor owned by the caller.
use moodle_autotask.Base.{
  ℕ, ◌+◌, String, ◌≡◌, refl, sym, ap, ◌∙◌, ◌≢◌, inl, inr, Bool, true, false, ◌&&◌, ◌||◌, Option,
  none, some, List, [], ◌∷◌, arith, leb, Bool-cases, String-discrete, any, All,
}
use moodle_autotask.Events.{NotificationDraft, NotificationEvent}
use moodle_autotask.Outbox.{
  OutboxClaim, DeliveryState, delivered, ErrorCode, Row, MoodleState, has_id, set_delivered,
  acknowledge, insert_event, enqueue, is_suppressed,
}
use moodle_autotask.Table.{update_where}
use moodle_autotask.Outbox.Leases.{
  is_due, is_leased_to, is_takeable, is_owned, set_expiry, after, renew, complete, find_owned,
  defer, fail,
}

pub not_both : true ≡ false → ⊥
not_both p = cc

pub or_true : (b : Bool) → b || true ≡ true
or_true true = refl
or_true false = refl

-- The event has a row, and `Q` holds of the delivery state of each row that it has.
pub record Keeps (e : String) (Q : DeliveryState → Type 0) (rows : List Row) : Type 0 where
  pub present : any (has_id e) rows ≡ true
  pub kept : All (λ r. r.event_id ≡ e → Q r.delivery_state) rows

module _ (e : String) (Q : DeliveryState → Type 0) where
  update_kept :
      (test : Row → Bool) (set : Row → Row) (rows : List Row)
      → ((r : Row)
          → (r.event_id ≡ e → Q r.delivery_state)
          → test r ≡ true
          → (set r).event_id ≡ e
          → Q (set r).delivery_state)
      → All (λ r. r.event_id ≡ e → Q r.delivery_state) rows
      → All (λ r. r.event_id ≡ e → Q r.delivery_state) (update_where test set rows)
  unfolding update_where
  update_kept test set [] h k = tt
  update_kept test set (r ∷ rows) h (kr, k) = elim (Bool-cases (test r)) [
    | inl t ↦ rw t (h r kr t, update_kept test set rows h k)
    | inr f ↦ rw f (kr, update_kept test set rows h k)
  ]

  update_present :
      (test : Row → Bool) (set : Row → Row) (rows : List Row)
      → ((r : Row) → (set r).event_id ≡ r.event_id)
      → any (has_id e) rows ≡ true
      → any (has_id e) (update_where test set rows) ≡ true
  unfolding update_where
  update_present test set [] same p = p
  update_present test set (r ∷ rows) same p = elim (Bool-cases (has_id e r)) [
    | inl h ↦ elim (Bool-cases (test r)) [ inl t ↦ rw (t, same r, h) refl | inr f ↦ rw (f, h) refl ]
    | inr h ↦
        let rest : any (has_id e) rows ≡ true = ground arith in
        elim (Bool-cases (test r)) [
          | inl t ↦ rw (t, same r, h) (update_present test set rows same rest)
          | inr f ↦ rw (f, h) (update_present test set rows same rest)
        ]
  ]

  pub update-Keeps :
      (test : Row → Bool) (set : Row → Row) (rows : List Row)
      → ((r : Row) → (set r).event_id ≡ r.event_id)
      → ((r : Row)
          → (r.event_id ≡ e → Q r.delivery_state)
          → test r ≡ true
          → r.event_id ≡ e
          → Q (set r).delivery_state)
      → Keeps e Q rows
      → Keeps e Q (update_where test set rows)
  update-Keeps test set rows same h k = record {
    present = update_present test set rows same k.present;
    kept = update_kept test set rows (λ r kr t q. h r kr t (sym (same r) ∙ q)) k.kept;
  }

  taken : (rows : List Row) (id : String) → id ≡ e → any (has_id e) rows ≡ any (has_id id) rows
  taken rows id same = ap (λ x. any (has_id x) rows) (sym same)

  pub insert-Keeps :
      (event : NotificationEvent) (moment : ℕ) (s : MoodleState)
      → Keeps e Q s.outbox
      → Keeps e Q (insert_event event moment s).1.outbox
  unfolding insert_event
  insert-Keeps event moment s k = elim (Bool-cases (any (has_id event.event_id) s.outbox)) [
    | inl t ↦ rw t k
    | inr f ↦ rw f (record {
      present = rw k.present (or_true _);
      kept = (
        (λ same.
            let t = taken s.outbox event.event_id same in
            let p = k.present in absurd (not_both cc)),
        k.kept,
      );
    })
  ]

  pub enqueue-Keeps :
      (event_id_of : String → String → String) (draft : NotificationDraft) (moment : ℕ)
      (s : MoodleState)
      → Keeps e Q s.outbox
      → Keeps e Q (enqueue event_id_of draft moment s).1.outbox
  unfolding enqueue
  enqueue-Keeps event_id_of draft moment s k =
      elim (Bool-cases (is_suppressed draft.task_key draft.revision_digest s)) [
        | inl t ↦ rw t k
        | inr f ↦ rw f (insert-Keeps _ moment s k)
      ]

  pub acknowledge-Keeps :
      (task_key revision_digest : String) (now : ℕ) (s : MoodleState)
      → ((n : ℕ) → Q (delivered n))
      → Keeps e Q s.outbox
      → Keeps e Q (acknowledge task_key revision_digest now s).outbox
  unfolding acknowledge
  acknowledge-Keeps task_key revision_digest now s q k =
      update-Keeps _ (set_delivered now) s.outbox (λ r. refl) (λ r kr t same. q now) k

  -- Nobody can take the event at `moment`.
  pub takeable_not :
      (moment : ℕ) (rows : List Row)
      → ((available_at : ℕ) (d : DeliveryState) → Q d → is_due moment available_at d ≡ false)
      → All (λ r. r.event_id ≡ e → Q r.delivery_state) rows
      → any (is_takeable moment e) rows ≡ false
  takeable_not moment [] h k = refl
  takeable_not moment (r ∷ rows) h (kr, k) =
      let rest = takeable_not moment rows h k in
      elim (String-discrete r.event_id e) [
        | no n ↦ ground arith
        | yes q ↦ let d = h r.available_at r.delivery_state (kr q) in ground arith
      ]

  not_owned :
      (c : OutboxClaim) (moment : ℕ) (r : Row)
      → ((d : DeliveryState) → Q d → is_leased_to c.lease_token moment d ≡ false)
      → (r.event_id ≡ e → Q r.delivery_state)
      → r.event_id ≡ e
      → is_owned c moment r ≡ false
  not_owned c moment r h kr q = let d = h r.delivery_state (kr q) in ground arith

  pub renew-Keeps :
      (c : OutboxClaim) (lease_seconds moment : ℕ) (s : MoodleState)
      → ((d : DeliveryState) → Q d → is_leased_to c.lease_token moment d ≡ false)
      → Keeps e Q s.outbox
      → Keeps e Q (after s (renew c lease_seconds moment s)).outbox
  unfolding renew
  renew-Keeps c lease_seconds moment s h k =
      elim (Bool-cases (leb 6 lease_seconds && leb lease_seconds 3600)) [
        | inr f ↦ rw f k
        | inl t ↦ rw t (
            update-Keeps (is_owned c moment) (set_expiry (moment + lease_seconds)) s.outbox
              (λ r. refl)
              (λ r kr o same.
                let n = not_owned c moment r h kr same in absurd (not_both (sym o ∙ n)))
              k)
      ]

  pub complete-Keeps :
      (c : OutboxClaim) (moment : ℕ) (s : MoodleState)
      → ((n : ℕ) → Q (delivered n))
      → Keeps e Q s.outbox
      → Keeps e Q (complete c moment s).1.outbox
  unfolding complete
  complete-Keeps c moment s h k = elim (Bool-cases (any (is_owned c moment) s.outbox)) [
    | inl t ↦ rw t (
        update-Keeps (is_owned c moment) (set_delivered moment) s.outbox (λ r. refl)
          (λ r kr t same. h moment) k)
    | inr f ↦ rw f k
  ]

  finds_none :
      (c : OutboxClaim) (moment : ℕ) (rows : List Row)
      → c.event.event_id ≡ e
      → ((d : DeliveryState) → Q d → is_leased_to c.lease_token moment d ≡ false)
      → All (λ r. r.event_id ≡ e → Q r.delivery_state) rows
      → find_owned c moment rows ≡ none
  unfolding find_owned
  finds_none c moment [] same h k = refl
  finds_none c moment (r ∷ rows) same h (kr, k) =
      let rest = finds_none c moment rows same h k in
      elim (String-discrete r.event_id e) [
        | no n ↦ ground arith
        | yes q ↦ let d = not_owned c moment r h kr q in ground arith
      ]

  pub defer-Keeps :
      (c : OutboxClaim) (base top : ℕ) (code : ErrorCode) (moment : ℕ) (s : MoodleState)
      (found : Option Row)
      → c.event.event_id ≢ e
      → Keeps e Q s.outbox
      → Keeps e Q (defer c base top code moment s found).1.outbox
  unfolding defer
  defer-Keeps c base top code moment s none n k = k
  defer-Keeps c base top code moment s (some r) n k =
      update-Keeps (has_id c.event.event_id) _ s.outbox (λ r. refl)
        (λ q kq t same. absurd (ground arith)) k

  defers_nothing :
      (c : OutboxClaim) (base top : ℕ) (code : ErrorCode) (moment : ℕ) (s : MoodleState)
      → Keeps e Q s.outbox
      → Keeps e Q (defer c base top code moment s none).1.outbox
  unfolding defer
  defers_nothing c base top code moment s k = k

  pub fail-Keeps :
      (c : OutboxClaim) (base top : ℕ) (code : ErrorCode) (moment : ℕ) (s : MoodleState)
      → ((d : DeliveryState) → Q d → is_leased_to c.lease_token moment d ≡ false)
      → Keeps e Q s.outbox
      → Keeps e Q (after s (fail c base top code moment s)).outbox
  unfolding fail
  fail-Keeps c base top code moment s h k =
      elim (Bool-cases (leb 1 base && leb base top && leb top 86400)) [
        | inr f ↦ rw f k
        | inl t ↦ elim (String-discrete c.event.event_id e) [
          | no n ↦ rw t (defer-Keeps c base top code moment s (find_owned c moment s.outbox) n k)
          | yes same ↦
              rw (t, finds_none c moment s.outbox same h k.kept)
                (defers_nothing c base top code moment s k)
        ]
      ]
