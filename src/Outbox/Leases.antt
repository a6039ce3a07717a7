-- ===== src/Outbox/Leases.antt =====
-- adapters/moodle/state.py: `claim`, `renew`, `complete` and `fail`, and all the operations of
-- `MoodleState` as one type, which a sequence of callers goes through.
use moodle_autotask.Base.{
  ℕ, zero, suc, ◌+◌, ◌-◌, ◌*◌, ◌^◌, min, String, Bool, true, false, not, ◌&&◌, ◌||◌, Option, none,
  some, List, [], ◌∷◌, ltb, leb, ◌==◌, if◌then◌else◌, codes, length, any, Result, ok, err,
}
use moodle_autotask.Events.{NotificationEvent, same_text}
use moodle_autotask.Outbox.{
  OutboxClaim, DeliveryState, pending, leased, delivered, ErrorCode, Row, MoodleState, StateError,
  state_error, max_attempts, has_id, set_delivered, insert_or_ignore,
}
use moodle_autotask.Table.{update_where, leb_codes}

abbrev pub is_due : ℕ → ℕ → DeliveryState → Bool
is_due moment available_at pending = leb available_at moment
is_due moment available_at (leased _ _ expires_at) = leb expires_at moment
is_due moment available_at (delivered _) = false

-- The condition of both statements of `claim`.
abbrev pub is_claimable : ℕ → Row → Bool
is_claimable moment r = ltb r.attempts max_attempts && is_due moment r.available_at r.delivery_state

-- `ORDER BY created_at, event_id`
unfoldable precedes : Row → Row → Bool
unfolding leb_codes
precedes r q =
    ltb r.created_at q.created_at
    || r.created_at == q.created_at && leb_codes (codes r.event_id) (codes q.event_id)

unfoldable insert : Row → List Row → List Row
unfolding precedes
insert r [] = r ∷ []
insert r (q ∷ rows) = if precedes r q then r ∷ q ∷ rows else q ∷ insert r rows

-- The rows of the SELECT of `claim`, in their order.
unfoldable pub select : ℕ → List Row → List Row
unfolding insert
select moment [] = []
select moment (r ∷ rows) =
    if is_claimable moment r then insert r (select moment rows) else select moment rows

-- `LIMIT`
unfoldable pub limited : ℕ → List Row → List Row
limited zero rows = []
limited (suc n) [] = []
limited (suc n) (r ∷ rows) = r ∷ limited n rows

abbrev pub is_takeable : ℕ → String → Row → Bool
is_takeable moment event_id r = has_id event_id r && is_claimable moment r

abbrev pub set_leased : String → String → ℕ → Row → Row
set_leased owner token expires_at r = record r {
  delivery_state = leased owner token expires_at;
  attempts = r.attempts + 1;
  error_code = none;
}

-- The event of a row, unless its text is corrupt or its identity is not the row's.
unfoldable pub stored_event : Row → Result StateError NotificationEvent
stored_event r = elim r.payload [
  | none ↦ err state_error
  | some event ↦
      if same_text event.event_id r.event_id
        && same_text event.task_key r.task_key
        && same_text event.revision_digest r.revision_digest
      then ok event
      else err state_error
]

-- One pass of the loop of `claim`: the claim, if the row could be taken, and the rows after it.
unfoldable pub take_row :
    (owner token : String) (moment lease_seconds : ℕ)
    → Row
    → List Row
    → Result StateError (Option OutboxClaim × List Row)
unfolding update_where stored_event
take_row owner token moment lease_seconds r rows =
    if any (is_takeable moment r.event_id) rows
    then elim (stored_event r) [
      | err e ↦ err e
      | ok event ↦ ok (
        some (record { event = event; lease_token = token }),
        update_where (is_takeable moment r.event_id)
            (set_leased owner token (moment + lease_seconds)) rows,
      )
    ]
    else ok (none, rows)

abbrev pub Claimed : Type 0
Claimed = Result StateError (List OutboxClaim × List Row)

abbrev pub add_claim : Option OutboxClaim → Claimed → Claimed
add_claim (some c) (ok (claims, rows)) = ok (c ∷ claims, rows)
add_claim none r = r
add_claim (some c) (err e) = err e

abbrev pub claim_more :
    Result StateError (Option OutboxClaim × List Row) → (List Row → Claimed) → Claimed
claim_more (ok (taken, rows)) more = add_claim taken (more rows)
claim_more (err e) more = err e

-- The loop of `claim` over the selected rows; `tokens` are those that `secrets` will give.
unfoldable pub claim_rows :
    (owner : String) (moment lease_seconds : ℕ) → List Row → (ℕ → String) → List Row → Claimed
unfolding take_row
claim_rows owner moment lease_seconds [] tokens rows = ok ([], rows)
claim_rows owner moment lease_seconds (r ∷ selected) tokens rows =
    claim_more (take_row owner (tokens 0) moment lease_seconds r rows)
      (claim_rows owner moment lease_seconds selected (λ n. tokens (suc n)))

abbrev pub is_owner : String → Bool
is_owner owner = not (same_text owner "") && leb (length (codes owner)) 128

abbrev pub with_outbox : MoodleState → Claimed → Result StateError (List OutboxClaim × MoodleState)
with_outbox s (ok (claims, rows)) = ok (claims, record s { outbox = rows })
with_outbox s (err e) = err e

-- `claim`
unfoldable pub claim :
    (owner : String) (limit lease_seconds : ℕ) (tokens : ℕ → String) (moment : ℕ)
    → MoodleState
    → Result StateError (List OutboxClaim × MoodleState)
unfolding claim_rows select limited
claim owner limit lease_seconds tokens moment s =
    if is_owner owner
      && (leb 1 limit && leb limit 100)
      && (leb 6 lease_seconds && leb lease_seconds 3600)
    then with_outbox s (
        claim_rows owner moment lease_seconds (limited limit (select moment s.outbox)) tokens
          s.outbox)
    else err state_error

-- The tables after a call, which an exception leaves as they were.
abbrev pub after : {A : Type 0} → MoodleState → Result StateError (A × MoodleState) → MoodleState
after s (ok (_, s')) = s'
after s (err _) = s

abbrev pub is_leased_to : String → ℕ → DeliveryState → Bool
is_leased_to token moment (leased _ t expires_at) = same_text t token && ltb moment expires_at
is_leased_to token moment _ = false

-- The condition of `renew`, `complete` and of the SELECT of `fail`.
abbrev pub is_owned : OutboxClaim → ℕ → Row → Bool
is_owned c moment r =
    has_id c.event.event_id r && is_leased_to c.lease_token moment r.delivery_state

abbrev extend : ℕ → DeliveryState → DeliveryState
extend expires_at (leased owner token _) = leased owner token expires_at
extend expires_at d = d

abbrev pub set_expiry : ℕ → Row → Row
set_expiry expires_at r = record r { delivery_state = extend expires_at r.delivery_state }

-- `renew`
unfoldable pub renew :
    OutboxClaim → (lease_seconds moment : ℕ) → MoodleState → Result StateError (Bool × MoodleState)
unfolding update_where
renew c lease_seconds moment s =
    if leb 6 lease_seconds && leb lease_seconds 3600
    then ok (
      any (is_owned c moment) s.outbox,
      record s {
        outbox = update_where (is_owned c moment) (set_expiry (moment + lease_seconds)) s.outbox;
      },
    )
    else err state_error

-- `complete`
unfoldable pub complete : OutboxClaim → (moment : ℕ) → MoodleState → Bool × MoodleState
unfolding update_where insert_or_ignore
complete c moment s =
    if any (is_owned c moment) s.outbox
    then (
      true,
      record {
        outbox = update_where (is_owned c moment) (set_delivered moment) s.outbox;
        acknowledgements = insert_or_ignore c.event.task_key c.event.revision_digest s;
      },
    )
    else (false, s)

-- `min(retry_max_seconds, retry_base_seconds * (2 ** min(attempts - 1, 20)))`. Only leased rows get
-- here, which have been attempted at least once.
unfoldable pub retry_delay : (retry_base_seconds retry_max_seconds attempts : ℕ) → ℕ
retry_delay retry_base_seconds retry_max_seconds attempts =
    min retry_max_seconds (retry_base_seconds * 2 ^ min (attempts - 1) 20)

unfoldable pub find_owned : OutboxClaim → ℕ → List Row → Option Row
find_owned c moment [] = none
find_owned c moment (r ∷ rows) = if is_owned c moment r then some r else find_owned c moment rows

abbrev pub set_pending : ℕ → ErrorCode → Row → Row
set_pending available_at error_code r = record r {
  delivery_state = pending;
  available_at = available_at;
  error_code = some error_code;
}

-- `fail` from the row that its SELECT found
unfoldable pub defer :
    OutboxClaim
    → (retry_base_seconds retry_max_seconds : ℕ) → ErrorCode
    → ℕ
    → MoodleState
    → Option Row
    → Bool × MoodleState
unfolding retry_delay update_where
defer c retry_base_seconds retry_max_seconds error_code moment s none = (false, s)
defer c retry_base_seconds retry_max_seconds error_code moment s (some r) =
    let delay = retry_delay retry_base_seconds retry_max_seconds r.attempts in
    (
      true,
      record s {
        outbox =
            update_where (has_id c.event.event_id) (set_pending (moment + delay) error_code)
              s.outbox;
      },
    )

-- `fail`
unfoldable pub fail :
    OutboxClaim
    → (retry_base_seconds retry_max_seconds : ℕ) → ErrorCode
    → (moment : ℕ) → MoodleState
    → Result StateError (Bool × MoodleState)
unfolding defer find_owned
fail c retry_base_seconds retry_max_seconds error_code moment s =
    if leb 1 retry_base_seconds
      && leb retry_base_seconds retry_max_seconds
      && leb retry_max_seconds 86400
    then ok (
        defer c retry_base_seconds retry_max_seconds error_code moment s
          (find_owned c moment s.outbox))
    else err state_error
