-- ===== src/Worker/Execution/Permitted.antt =====
-- adapters/aws/worker.py: which calls are proper while the worker has a claim of work.
use moodle_autotask.Base.{
  ◌*◌, ◌≡◌, refl, Bool, true, false, not, ◌&&◌, ◌||◌, some, [], ◌∷◌, leb, if◌then◌else◌, codes,
  Result, ok,
}
use moodle_autotask.Exec.Steps.{IsPreorder, Steps}
use moodle_autotask.Approvals.Submissions.Claims.{is_error_code}
use moodle_autotask.Approvals.Work.{WorkItem, WorkClaim, is_pending, is_central, is_given}
use moodle_autotask.Approvals.Work.Calls.{Completion, is_ready, is_unready, is_cleanable}
use moodle_autotask.Approvals.Work.World.{
  Call, call_record_lab, call_mark_ready, call_mark_execution_complete, call_complete_execution,
  call_fail_execution, call_mark_cleaned, call_retry_work, call_fail_work,
}
use moodle_autotask.Worker.Execution.{is_cleanup_claim}
use moodle_autotask.Worker.Execution.Types.{
  Failure, Progress, Effect, recorded, torn_down, image_cleaned, provisioned, Log, Action, call,
}

-- What `complete_execution` demands of what it is told of an execution.
abbrev pub is_told : WorkItem → Completion → Bool
is_told item d =
    (leb d.summary_bytes 16384 && leb d.report_bytes (2 * 1024 * 1024))
    && (d.has_provenance || is_central item.selected_mode && not d.succeeded)
    && is_given d.payload

-- The completion that the worker makes of the broker's progress is such a one.
abbrev pub is_told_by : WorkItem → Progress → Bool
is_told_by item Progress.pending = true
is_told_by item (Progress.failed d) = is_told item (record d { succeeded = false })
is_told_by item (Progress.succeeded d) = is_told item (record d { succeeded = true })

-- What the methods of `ApprovalState` demand of a claim's item and of their arguments.
unfoldable pub is_accepted : WorkItem → Call → Bool
unfolding is_error_code
is_accepted item (call_record_lab _) = is_pending item.status && not (is_central item.selected_mode)
is_accepted item (call_mark_ready _) =
    is_unready item.status && (not (is_pending item.status) || is_central item.selected_mode)
is_accepted item call_mark_execution_complete = is_ready item.status
is_accepted item (call_complete_execution d) = is_ready item.status && is_told item d
is_accepted item (call_fail_execution code) = is_ready item.status && is_error_code (codes code)
is_accepted item call_mark_cleaned = is_cleanable item.status && is_given item.lab_handle
is_accepted item (call_retry_work code delay _) =
    is_error_code (codes code) && (leb 1 delay && leb delay 3600)
is_accepted item (call_fail_work code) =
    is_pending item.status && not (is_given item.lab_handle) && is_error_code (codes code)

-- The lab of the claim was torn down.
abbrev pub has_torn : Log → Bool
has_torn [] = false
has_torn (torn_down handle c (ok _) ∷ log) = true
has_torn (_ ∷ log) = has_torn log

abbrev pub needs_teardown : Call → Bool
needs_teardown call_mark_cleaned = true
needs_teardown _ = false

-- A call after others. A method of the state gets the claim and is one that does not refuse it, and
-- the work is marked as cleaned only after a teardown that returned. Labs are torn down for claims
-- that are to be cleaned up only, and it is the claim's own; they are provisioned for others only,
-- namely for pending work that is not central.
abbrev pub Permitted : Bool → WorkClaim → Effect → Log → Type 0
Permitted has_broker c (recorded d k _) log =
    (d ≡ c) × (is_accepted c.item k ≡ true) × (needs_teardown k ≡ true → has_torn log ≡ true)
Permitted has_broker c (torn_down handle d _) log =
    (d ≡ c) × (c.item.lab_handle ≡ some handle) × (is_cleanup_claim c has_broker ≡ true)
Permitted has_broker c (image_cleaned d _) log =
    (d ≡ c) × (is_cleanup_claim c has_broker ≡ true) × (has_torn log ≡ true)
Permitted has_broker c (provisioned d _ _) log =
    (d ≡ c)
    × (is_cleanup_claim c has_broker ≡ false)
    × ((is_pending c.item.status && not (is_central c.item.selected_mode)) ≡ true)
Permitted has_broker c _ log = Unit {0}

abbrev pub AllPermitted : Bool → WorkClaim → Log → Type 0
AllPermitted has_broker c [] = Unit {0}
AllPermitted has_broker c (e ∷ log) = Permitted has_broker c e log × AllPermitted has_broker c log

-- What keeps the calls proper.
abbrev pub Adds : Bool → WorkClaim → Log → Log → Type 0
Adds has_broker c log log' = AllPermitted has_broker c log → AllPermitted has_broker c log'

pub Adds-IsPreorder : (has_broker : Bool) (c : WorkClaim) → IsPreorder (Adds has_broker c)
Adds-IsPreorder has_broker c = record { stays = λ s h. h; goes_on = λ s t u f g h. g (f h) }

pub call-Steps :
    {A : Type 0} (has_broker : Bool) (c : WorkClaim) (ask : Log → Result Failure A)
    (mark : Result Failure A → Effect)
    → ((r : Result Failure A) (log : Log) → Permitted has_broker c (mark r) log)
    → Steps (Adds has_broker c) (call ask mark)
unfolding call
call-Steps has_broker c ask mark h = record { at = λ s all. (h (ask s) s, all) }

pub when-Steps :
    {A : Type 0} (has_broker : Bool) (c : WorkClaim) (b : Bool) (m n : Action A)
    → (b ≡ true → Steps (Adds has_broker c) m)
    → (b ≡ false → Steps (Adds has_broker c) n)
    → Steps (Adds has_broker c) (if b then m else n)
when-Steps has_broker c true m n h k = h refl
when-Steps has_broker c false m n h k = k refl
