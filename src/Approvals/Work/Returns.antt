-- ===== src/Approvals/Work/Returns.antt =====
-- adapters/moodle/approval_state.py: what a claim's holder assigns passes the CHECKs of the table.
use moodle_autotask.Base.{
  ℕ, String, ◌≡◌, refl, inl, inr, Bool, true, false, not, ◌&&◌, ◌||◌, Option, none, some, List, [],
  ◌∷◌, arith, if◌then◌else◌, Bool-cases, all, All, ok,
}
use moodle_autotask.Table.{update_where}
use moodle_autotask.Models.{ExecutionMode}
use moodle_autotask.Approvals.{WorkStatus, WorkRow, ApprovalState, Outcome, guard, ◌>>◌, ◌>>=◌}
use moodle_autotask.Approvals.Work.{
  WorkClaim, is_pending, is_central, is_given, is_stored, is_stored_state,
}
use moodle_autotask.Approvals.Work.Sound.{Fits}
use moodle_autotask.Approvals.Work.Calls.{
  Completion, stay, Assignment, assign, is_owned, is_unready, stored_payload, add_result,
  has_result, completed, lab_recorded, cleaned_at, failed_with, finish_claim,
}

-- A call returns, and the rows that it leaves pass the CHECKs of the table.
abbrev pub Returns : Outcome Bool → Type 0
Returns m =
    (updated : Bool) × (s : ApprovalState) × (m ≡ ok (updated, s))
    × (all is_stored s.work_items ≡ true)

-- The CHECKs let a status follow another.
abbrev Follows : WorkStatus → WorkStatus → ExecutionMode → Option String → Type 0
Follows old new mode handle =
    is_stored_state old mode handle ≡ true → is_stored_state new mode handle ≡ true

failed_Follows :
    (old : WorkStatus) (mode : ExecutionMode) (handle : Option String)
    → Follows old WorkStatus.failed mode handle
failed_Follows WorkStatus.pending mode handle h = h
failed_Follows WorkStatus.lab_pending mode handle h = ground arith
failed_Follows WorkStatus.ready mode handle h = ground arith
failed_Follows WorkStatus.failed mode handle h = h
failed_Follows WorkStatus.cleaned mode handle h = h

cleaned-Follows :
    (old : WorkStatus) (mode : ExecutionMode) (handle : Option String)
    → Follows old WorkStatus.cleaned mode handle
cleaned-Follows WorkStatus.pending mode handle h = h
cleaned-Follows WorkStatus.lab_pending mode handle h = ground arith
cleaned-Follows WorkStatus.ready mode handle h = ground arith
cleaned-Follows WorkStatus.failed mode handle h = h
cleaned-Follows WorkStatus.cleaned mode handle h = h

pub ready_Follows :
    (old : WorkStatus) (mode : ExecutionMode) (handle : Option String)
    → is_unready old ≡ true
    → (not (is_pending old) || is_central mode) ≡ true
    → Follows old WorkStatus.ready mode handle
ready_Follows WorkStatus.pending mode handle u g h = ground arith
ready_Follows WorkStatus.lab_pending mode handle u g h = ground arith
ready_Follows WorkStatus.ready mode handle u g h = h
ready_Follows WorkStatus.failed mode handle u g h = absurd (ground arith)
ready_Follows WorkStatus.cleaned mode handle u g h = absurd (ground arith)

pub past : (b : Bool) (m : Outcome Bool) → b ≡ true → Returns m → Returns (guard b >> m)
past b m h r = rw h r

pub both : {a b : Bool} → a ≡ true → b ≡ true → (a && b) ≡ true
both h k = rw (h, k) refl

pub parts : (a b : Bool) → (a && b) ≡ true → (a ≡ true) × (b ≡ true)
parts a b h = (ground arith, ground arith)

module _ (c : WorkClaim) (moment : ℕ) where
  -- An assignment that the CHECKs accept for the rows that fit the claim.
  abbrev pub IsSafe : Assignment → Type 0
  IsSafe a =
      (w : WorkRow)
      → w.status ≡ c.item.status
      → w.selected_mode ≡ c.item.selected_mode
      → is_stored_state w.status w.selected_mode w.lab_handle ≡ true
      → is_stored_state (a.status w.status) w.selected_mode (a.lab_handle w.lab_handle) ≡ true

  rows_stored :
      (a : Assignment) (rows : List WorkRow)
      → IsSafe a
      → all is_stored rows ≡ true
      → All (Fits c) rows
      → all is_stored (update_where (is_owned c moment) (assign a) rows) ≡ true
  unfolding update_where
  rows_stored a [] safe h fits = refl
  rows_stored a (w ∷ rows) safe h (fit, fits) =
      let (first, others) = parts (is_stored w) (all is_stored rows) h in
      let rest = rows_stored a rows safe others fits in
      elim (Bool-cases (is_owned c moment w)) [
        | inr f ↦ rw f (both first rest)
        | inl t ↦
            let (status, mode, _) = fit (ground arith) (ground arith) in
            let (state, few) = parts _ _ first in
            rw t (both (both (safe w status mode state) few) rest)
      ]

  pub failed_IsSafe : (error_code : String) (at : ℕ) → IsSafe (failed_with error_code at)
  failed_IsSafe error_code at w same mode h = failed_Follows w.status w.selected_mode w.lab_handle h

  pub cleaned_IsSafe : IsSafe (cleaned_at moment)
  cleaned_IsSafe w same mode h = cleaned-Follows w.status w.selected_mode w.lab_handle h

  pub either_IsSafe :
      (b : Bool) (x y : Assignment) → IsSafe x → IsSafe y → IsSafe (if b then x else y)
  either_IsSafe true x y h k = h
  either_IsSafe false x y h k = k

  pub retry_IsSafe :
      (error_code : String) (later : ℕ) (exhausted : Bool)
      → IsSafe (
          if exhausted then failed_with error_code later else record {
            status = stay;
            lab_handle = stay;
            available_at = later;
            error_code = some error_code;
            cleanup_due_at = stay;
          })
  retry_IsSafe error_code later true = failed_IsSafe error_code later
  retry_IsSafe error_code later false = λ w same mode h. h

  completed-IsSafe : (succeeded : Bool) → IsSafe (completed c succeeded moment)
  completed-IsSafe succeeded = either_IsSafe (not (is_given c.item.lab_handle)) _ _ cleaned_IsSafe (
      either_IsSafe succeeded _ _ (λ w same mode h. h)
        (λ w same mode h. failed_Follows w.status w.selected_mode w.lab_handle h))

  pub lab_IsSafe :
      (handle : String)
      → (is_pending c.item.status && not (is_central c.item.selected_mode)) ≡ true
      → IsSafe (lab_recorded handle moment)
  lab_IsSafe handle g w same mode h = rw mode (ground arith)

  module _ (s : ApprovalState) (stored : all is_stored s.work_items ≡ true)
      (fits : All (Fits c) s.work_items) where
    pub finish_returns : (a : Assignment) → IsSafe a → Returns (finish_claim c a moment s)
    unfolding finish_claim
    finish_returns a safe =
        let kept = rows_stored a s.work_items safe stored fits in past _ _ kept (_, _, refl, kept)

    finish_then :
        (a : Assignment) (f : Bool × ApprovalState → Outcome Bool)
        → IsSafe a
        → ((b : Bool) (s' : ApprovalState)
            → s'.execution_outbox ≡ s.execution_outbox
            → all is_stored s'.work_items ≡ true
            → Returns (f (b, s')))
        → Returns (finish_claim c a moment s >>= f)
    unfolding finish_claim
    finish_then a f safe next =
        let kept = rows_stored a s.work_items safe stored fits in rw kept (next _ _ refl kept)

    add_returns :
        (payload : String) (b : Bool) (s' : ApprovalState)
        → has_result c s'.execution_outbox ≡ false
        → all is_stored s'.work_items ≡ true
        → Returns (add_result c moment payload b s')
    add_returns payload false s' new kept = (_, _, refl, kept)
    add_returns payload true s' new kept = rw new (_, _, refl, kept)

    pub completes :
        (d : Completion) (o : Option String)
        → is_given o ≡ true
        → has_result c s.execution_outbox ≡ false
        → Returns (do
          payload ← stored_payload o
          (updated, s') ← finish_claim c (completed c d.succeeded moment) moment s
          add_result c moment payload updated s')
    completes d none g new = absurd (ground arith)
    completes d (some payload) g new =
        finish_then (completed c d.succeeded moment) _ (completed-IsSafe d.succeeded)
          (λ b s' same kept. add_returns payload b s' (rw same new) kept)

pub passed : (b : Bool) (m : Outcome Bool) → Returns (guard b >> m) → (b ≡ true) × Returns m
passed true m r = (refl, r)
passed false m (_, _, e, _) = absurd (ground arith)

pub given_payload :
    (o : Option String) (f : String → Outcome Bool)
    → Returns (stored_payload o >>= f)
    → is_given o ≡ true
given_payload none f (_, _, e, _) = absurd (ground arith)
given_payload (some payload) f r = refl
