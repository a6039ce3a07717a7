-- ===== src/Approvals/Work/Sound.antt =====
-- adapters/moodle/approval_state.py: what holds of the work and of the claims on it: a row for each
-- event, one lab at a time, fresh tokens, and claims that fit the rows of which they hold the lease.
use moodle_autotask.Base.{
  ℕ, ◌≤◌, ◌<◌, String, ◌≡◌, Bool, true, false, Option, none, some, length, All,
}
use moodle_autotask.Table.{count}
use moodle_autotask.Events.{same_text}
use moodle_autotask.Approvals.{WorkRow, Lease}
use moodle_autotask.Approvals.Work.{WorkClaim, has_event, has_lab, is_cleaned}
use moodle_autotask.Approvals.Work.World.{World}

-- One of the first `n` tokens.
abbrev pub Older : (ℕ → String) → ℕ → String → Type 0
Older tokens n token = (k : ℕ) × (k < n) × (token ≡ tokens k)

abbrev pub LeaseOlder : (ℕ → String) → ℕ → Option Lease → Type 0
LeaseOlder tokens n none = Unit {0}
LeaseOlder tokens n (some l) = Older tokens n l.token

abbrev pub has_token : String → Option Lease → Bool
has_token token none = false
has_token token (some l) = same_text l.token token

-- A claim fits a row if, where it holds the row's lease, the row is as it was when it was claimed.
abbrev pub Fits : WorkClaim → WorkRow → Type 0
Fits c w =
    has_event c.item.event.event_id w ≡ true
    → has_token c.lease_token w.lease ≡ true
    → (w.status ≡ c.item.status)
      × (w.selected_mode ≡ c.item.selected_mode)
      × (w.lab_handle ≡ c.item.lab_handle)

pub record Sound (tokens : ℕ → String) (w : World) : Type 0 where
  pub keys : (e : String) → count (has_event e) w.state.work_items ≤ 1
  pub one_lab : count (has_lab w.clock) w.state.work_items ≤ 1
  pub leases : All (λ (r : WorkRow). LeaseOlder tokens (length w.issued) r.lease) w.state.work_items
  pub fresh : All (λ (c : WorkClaim). Older tokens (length w.issued) c.lease_token) w.issued
  pub uncleaned : All (λ (c : WorkClaim). is_cleaned c.item.status ≡ false) w.issued
  pub fits : All (λ (c : WorkClaim). All (Fits c) w.state.work_items) w.issued
