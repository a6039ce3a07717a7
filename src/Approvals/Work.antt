-- ===== src/Approvals/Work.antt =====
-- adapters/moodle/approval_state.py: the work on approved requests: `claim_work`, and what the
-- holder of a claim records, from `record_lab` to `fail_work`. The tokens of leases have the form
-- that `secrets` gives them, and the handles are texts that `LabHandle` takes.
pub mod Calls
pub mod World
pub mod Sound
pub mod Finish
pub mod Keeps
pub mod Records
pub mod Returns
pub mod Found
pub mod Taken
pub mod Resolved
pub mod Exclusive
pub mod Approved
pub mod Authorized
pub mod Tests
use moodle_autotask.Base.{
  ℕ, ◌+◌, String, Bool, true, false, not, ◌&&◌, ◌||◌, Option, none, some, List, [], ◌∷◌, ltb, leb,
  ◌==◌, if◌then◌else◌, holds, codes, all, any, Result, ok, err,
}
use moodle_autotask.Models.{ExecutionMode, ExecutionMode-discrete}
use moodle_autotask.Table.{update_where, select_one, count, leb_codes}
use moodle_autotask.Events.{NotificationEvent, same_text}
use moodle_autotask.Approvals.{
  Request, WorkStatus, WorkRow, Lease, ApprovalState, StateError, state_error, Outcome, ◌>>=◌, ◌>>◌,
  guard,
}
use moodle_autotask.Approvals.Requests.{Runtime, select_mode}
use moodle_autotask.Approvals.Submissions.{is_expired}
use moodle_autotask.Approvals.Submissions.Claims.{is_lease_request, is_error_code}

-- `WorkItem`
pub record WorkItem : Type 0 where
  pub event : NotificationEvent
  pub selected_mode : ExecutionMode
  pub specification_digest : String
  pub provision_key : String
  pub status : WorkStatus
  pub lab_handle : Option String
  pub attempts : ℕ
  pub error_code : Option String

-- `WorkClaim`
pub record WorkClaim : Type 0 where
  pub item : WorkItem
  pub lease_token : String

abbrev pub is_central : ExecutionMode → Bool
is_central ExecutionMode.central = true
is_central _ = false

abbrev pub is_pending : WorkStatus → Bool
is_pending WorkStatus.pending = true
is_pending _ = false

abbrev pub is_cleaned : WorkStatus → Bool
is_cleaned WorkStatus.cleaned = true
is_cleaned _ = false

abbrev pub is_given : {A : Type 0} → Option A → Bool
is_given none = false
is_given (some _) = true

-- The CHECKs of the table.
abbrev pub is_stored_state : WorkStatus → ExecutionMode → Option String → Bool
is_stored_state WorkStatus.lab_pending mode handle = is_given handle && not (is_central mode)
is_stored_state WorkStatus.ready mode handle =
    (is_central mode || is_given handle) && (not (is_given handle) || not (is_central mode))
is_stored_state _ mode handle = not (is_given handle) || not (is_central mode)

abbrev pub is_stored : WorkRow → Bool
is_stored w = is_stored_state w.status w.selected_mode w.lab_handle && leb w.attempts 1000000

-- An UPDATE, which a CHECK may refuse.
abbrev pub update_work :
    (WorkRow → Bool) → (WorkRow → WorkRow) → ApprovalState → Result StateError ApprovalState
update_work test set s =
    let rows = update_where test set s.work_items in
    if all is_stored rows then ok (record s { work_items = rows }) else err state_error

-- `lease_expires_at IS NULL OR lease_expires_at <= ?`
abbrev pub is_free : ℕ → Option Lease → Bool
is_free moment none = true
is_free moment (some l) = is_expired moment (some l)

-- `cleanup_due_at IS NULL OR cleanup_due_at <= ?`
abbrev is_due : ℕ → Option ℕ → Bool
is_due moment none = true
is_due moment (some t) = leb t moment

abbrev is_open : ℕ → WorkRow → WorkStatus → Bool
is_open moment w WorkStatus.pending = true
is_open moment w WorkStatus.lab_pending = true
is_open moment w WorkStatus.failed = is_given w.lab_handle && is_due moment w.cleanup_due_at
is_open moment w WorkStatus.ready =
    is_central w.selected_mode
    || is_given w.lab_handle && (not (is_given w.error_code) || is_due moment w.cleanup_due_at)
is_open moment w WorkStatus.cleaned = false

-- The WHERE clause of `claim_work`.
abbrev pub is_claimable : ℕ → WorkRow → Bool
is_claimable moment w =
    is_open moment w w.status && leb w.available_at moment && is_free moment w.lease

abbrev rank : WorkStatus → ℕ
rank WorkStatus.failed = 0
rank WorkStatus.ready = 1
rank WorkStatus.lab_pending = 2
rank _ = 3

-- The ORDER BY clause.
unfoldable pub precedes : WorkRow → WorkRow → Bool
unfolding leb_codes
precedes w v =
    ltb (rank w.status) (rank v.status)
    || rank w.status == rank v.status
      && (ltb w.created_at v.created_at
          || w.created_at == v.created_at && leb_codes (codes w.event_id) (codes v.event_id))

unfoldable pub insert_row : WorkRow → List WorkRow → List WorkRow
unfolding precedes
insert_row w [] = w ∷ []
insert_row w (v ∷ rows) = if precedes w v then w ∷ (v ∷ rows) else v ∷ insert_row w rows

-- The rows of a SELECT, in order.
unfoldable pub select_rows : (WorkRow → Bool) → List WorkRow → List WorkRow
unfolding insert_row
select_rows test [] = []
select_rows test (w ∷ rows) =
    let rest = select_rows test rows in if test w then insert_row w rest else rest

abbrev is_event_code : Option String → Bool
is_event_code none = true
is_event_code (some code) = is_error_code (codes code)

abbrev same_mode : ExecutionMode → ExecutionMode → Bool
same_mode a b = holds (ExecutionMode-discrete a b)

-- A lab of the work is there, or is being provisioned.
abbrev pub has_lab : ℕ → WorkRow → Bool
has_lab moment w =
    is_given w.lab_handle && not (is_cleaned w.status)
    || not (is_central w.selected_mode) && is_pending w.status && not (is_free moment w.lease)

abbrev pub has_event : String → WorkRow → Bool
has_event event_id w = same_text w.event_id event_id

-- Work that may not start while another row has a lab.
abbrev pub is_blocked : ℕ → List WorkRow → WorkRow → Bool
is_blocked moment rows w =
    not (is_central w.selected_mode)
    && is_pending w.status
    && any (λ (v : WorkRow). not (has_event w.event_id v) && has_lab moment v) rows

abbrev pub is_taken : ℕ → String → WorkRow → Bool
is_taken moment event_id w = has_event event_id w && is_free moment w.lease

abbrev pub set_taken : (owner token : String) → (expires_at : ℕ) → WorkRow → WorkRow
set_taken owner token expires_at w = record w {
  attempts = w.attempts + 1;
  lease_owner = some owner;
  lease = some (record { token = token; expires_at = expires_at });
}

module _ (rt : Runtime) where
  -- `_work_item`, of a row and its request's event; it refuses what does not fit the event
  unfoldable pub work_item : WorkRow → NotificationEvent → ℕ → Result StateError WorkItem
  unfolding ExecutionMode-discrete select_mode is_error_code
  work_item w e attempts = do
    guard (
        same_text w.event_id e.event_id
        && same_mode w.selected_mode (select_mode rt e)
        && same_text w.specification_digest (rt.specification_digest e)
        && same_text w.provision_key (rt.provision_key e.event_id (rt.specification_digest e))
        && is_event_code w.error_code
        && is_stored_state w.status w.selected_mode w.lab_handle)
    ok (record {
      event = e;
      selected_mode = w.selected_mode;
      specification_digest = w.specification_digest;
      provision_key = w.provision_key;
      status = w.status;
      lab_handle = w.lab_handle;
      attempts = attempts;
      error_code = w.error_code;
    })

  abbrev event_of : List Request → WorkRow → Option NotificationEvent
  event_of requests w =
      elim (select_one (λ (r : Request). same_text r.event_id w.event_id) requests) [
        | none ↦ none
        | some r ↦ some r.payload
      ]

  -- The loop of `claim_work` over the rows that its SELECT has joined.
  abbrev pub scan_row :
      ℕ
      → List WorkRow
      → WorkRow
      → Option NotificationEvent
      → Result StateError (Option (WorkRow × NotificationEvent))
      → Result StateError (Option (WorkRow × NotificationEvent))
  scan_row moment rows w none rest = rest
  scan_row moment rows w (some e) rest = do
    item ← work_item w e w.attempts
    if is_blocked moment rows w then rest else ok (some (w, e))

  unfoldable pub scan :
      ℕ → ApprovalState → List WorkRow → Result StateError (Option (WorkRow × NotificationEvent))
  unfolding work_item select_one
  scan moment s [] = ok none
  scan moment s (w ∷ candidates) =
      let rest = scan moment s candidates in
      scan_row moment s.work_items w (event_of s.requests w) rest

  unfoldable pub take_work :
      (owner token : String)
      → (lease_seconds moment : ℕ) → ApprovalState
      → Option (WorkRow × NotificationEvent)
      → Outcome (Option WorkClaim)
  unfolding update_where count work_item
  take_work owner token lease_seconds moment s none = ok (none, s)
  take_work owner token lease_seconds moment s (some (w, e)) = do
    guard (count (is_taken moment w.event_id) s.work_items == 1)
    s' ← update_work (is_taken moment w.event_id) (set_taken owner token (moment + lease_seconds)) s
    item ← work_item w e (w.attempts + 1)
    ok (some (record { item = item; lease_token = token }), s')

  -- `claim_work`
  unfoldable pub claim_work :
      (owner token : String)
      → (lease_seconds moment : ℕ) → ApprovalState
      → Outcome (Option WorkClaim)
  unfolding scan select_rows take_work
  claim_work owner token lease_seconds moment s = do
    guard (is_lease_request owner lease_seconds)
    found ← scan moment s (select_rows (is_claimable moment) s.work_items)
    take_work owner token lease_seconds moment s found
