-- ===== src/Approvals/Work/Calls.antt =====
-- adapters/moodle/approval_state.py: what the holder of a claim of work records, by `_finish_claim`:
-- `record_lab`, `mark_ready`, `mark_execution_complete`, `complete_execution`, `fail_execution`,
-- `mark_cleaned`, `retry_work` and `fail_work`.
use moodle_autotask.Base.{
  ℕ, ◌+◌, ◌*◌, String, Bool, true, false, not, ◌&&◌, ◌||◌, Option, none, some, List, ◌∷◌, leb, ◌==◌,
  if◌then◌else◌, codes, all, any, Result, ok, err,
}
use moodle_autotask.Table.{update_where, count}
use moodle_autotask.Events.{same_text}
use moodle_autotask.Approvals.{
  WorkStatus, WorkRow, ExecutionResult, ApprovalState, StateError, state_error, Outcome, ◌>>=◌,
  ◌>>◌, guard,
}
use moodle_autotask.Approvals.Submissions.Claims.{is_error_code, is_held}
use moodle_autotask.Approvals.Work.{
  WorkClaim, is_central, is_pending, is_given, has_event, is_stored,
}

-- What `_finish_claim` assigns: the status, the handle, the time from which the row may be claimed,
-- the error code, and the time from which its lab may be removed.
pub record Assignment : Type 0 where
  pub status : WorkStatus → WorkStatus
  pub lab_handle : Option String → Option String
  pub available_at : ℕ
  pub error_code : Option String
  pub cleanup_due_at : Option ℕ → Option ℕ

abbrev pub stay : {A : Type 0} → A → A
stay a = a

abbrev pub assign : Assignment → WorkRow → WorkRow
assign a w = record w {
  status = a.status w.status;
  lab_handle = a.lab_handle w.lab_handle;
  available_at = a.available_at;
  error_code = a.error_code;
  cleanup_due_at = a.cleanup_due_at w.cleanup_due_at;
  lease_owner = none;
  lease = none;
}

-- The claim's row, while its lease is in force.
abbrev pub is_owned : WorkClaim → ℕ → WorkRow → Bool
is_owned c moment w = has_event c.item.event.event_id w && is_held c.lease_token moment w.lease

abbrev pub with_work : ApprovalState → List WorkRow → ApprovalState
with_work s rows = record s { work_items = rows }

-- `_finish_claim`
unfoldable pub finish_claim : WorkClaim → Assignment → ℕ → ApprovalState → Outcome Bool
unfolding update_where count
finish_claim c a moment s = do
  let rows = update_where (is_owned c moment) (assign a) s.work_items
  guard (all is_stored rows)
  ok (not (count (is_owned c moment) s.work_items == 0), with_work s rows)

abbrev pub lab_recorded : String → ℕ → Assignment
lab_recorded handle moment = record {
  status = λ _. WorkStatus.lab_pending;
  lab_handle = λ _. some handle;
  available_at = moment;
  error_code = none;
  cleanup_due_at = stay;
}

-- `record_lab`
unfoldable pub record_lab : WorkClaim → (handle : String) → ℕ → ApprovalState → Outcome Bool
unfolding finish_claim
record_lab c handle moment s = do
  guard (is_pending c.item.status && not (is_central c.item.selected_mode))
  finish_claim c (lab_recorded handle moment) moment s

abbrev pub lab_ttl_seconds : ℕ
lab_ttl_seconds = 7200

abbrev pub is_unready : WorkStatus → Bool
is_unready WorkStatus.pending = true
is_unready WorkStatus.lab_pending = true
is_unready _ = false

-- `mark_ready`
unfoldable pub mark_ready : WorkClaim → (for_execution : Bool) → ℕ → ApprovalState → Outcome Bool
unfolding finish_claim
mark_ready c for_execution moment s = do
  guard (is_unready c.item.status)
  guard (not (is_pending c.item.status) || is_central c.item.selected_mode)
  finish_claim c
      (record {
        status = λ _. WorkStatus.ready;
        lab_handle = stay;
        available_at =
            if is_given c.item.lab_handle && not for_execution
            then moment + lab_ttl_seconds
            else moment;
        error_code = if for_execution then some "agent_ready" else none;
        cleanup_due_at = stay;
      })
      moment s

abbrev pub is_ready : WorkStatus → Bool
is_ready WorkStatus.ready = true
is_ready _ = false

abbrev pub cleaned_at : ℕ → Assignment
cleaned_at moment = record {
  status = λ _. WorkStatus.cleaned;
  lab_handle = stay;
  available_at = moment;
  error_code = none;
  cleanup_due_at = stay;
}

-- `mark_execution_complete`
unfoldable pub mark_execution_complete : WorkClaim → ℕ → ApprovalState → Outcome Bool
unfolding finish_claim
mark_execution_complete c moment s = do
  guard (is_ready c.item.status)
  finish_claim c
      (if is_given c.item.lab_handle
        then record {
          status = stay;
          lab_handle = stay;
          available_at = moment + lab_ttl_seconds;
          error_code = some "execution_complete";
          cleanup_due_at = stay;
        }
        else cleaned_at moment)
      moment s

-- The arguments of `complete_execution`: the sizes of its texts in bytes, and the payload that it
-- stores, or `none` if it refuses the execution's provenance.
pub record Completion : Type 0 where
  pub succeeded : Bool
  pub summary_bytes : ℕ
  pub report_bytes : ℕ
  pub has_provenance : Bool
  pub payload : Option String

abbrev pub completed : WorkClaim → Bool → ℕ → Assignment
completed c succeeded moment =
    if not (is_given c.item.lab_handle)
    then cleaned_at moment
    else if succeeded
    then record {
      status = stay;
      lab_handle = stay;
      available_at = moment + lab_ttl_seconds;
      error_code = some "execution_complete";
      cleanup_due_at = λ _. some (moment + lab_ttl_seconds);
    }
    else record {
      status = λ _. WorkStatus.failed;
      lab_handle = stay;
      available_at = moment;
      error_code = some "agent_failed";
      cleanup_due_at = λ _. some moment;
    }

abbrev pub has_result : WorkClaim → List ExecutionResult → Bool
has_result c rows = any (λ (o : ExecutionResult). same_text o.event_id c.item.event.event_id) rows

abbrev pub add_result : WorkClaim → ℕ → String → Bool → ApprovalState → Outcome Bool
add_result c moment payload false s = ok (false, s)
add_result c moment payload true s =
    let event_id = c.item.event.event_id in
    if has_result c s.execution_outbox
    then err state_error
    else ok (
      true,
      record s {
        execution_outbox =
            record {
              event_id = event_id;
              payload = payload;
              delivered_at = none;
              created_at = moment;
            }
            ∷ s.execution_outbox;
      },
    )

abbrev pub stored_payload : Option String → Result StateError String
stored_payload none = err state_error
stored_payload (some payload) = ok payload

-- `complete_execution`
unfoldable pub complete_execution : WorkClaim → Completion → ℕ → ApprovalState → Outcome Bool
unfolding finish_claim
complete_execution c d moment s = do
  guard (is_ready c.item.status)
  guard (leb d.summary_bytes 16384 && leb d.report_bytes (2 * 1024 * 1024))
  guard (d.has_provenance || is_central c.item.selected_mode && not d.succeeded)
  payload ← stored_payload d.payload
  (updated, s') ← finish_claim c (completed c d.succeeded moment) moment s
  add_result c moment payload updated s'

abbrev pub failed_with : String → ℕ → Assignment
failed_with error_code available_at = record {
  status = λ _. WorkStatus.failed;
  lab_handle = stay;
  available_at = available_at;
  error_code = some error_code;
  cleanup_due_at = stay;
}

-- `fail_execution`
unfoldable pub fail_execution : WorkClaim → (error_code : String) → ℕ → ApprovalState → Outcome Bool
unfolding finish_claim is_error_code
fail_execution c error_code moment s = do
  guard (is_ready c.item.status && is_error_code (codes error_code))
  finish_claim c (failed_with error_code moment) moment s

abbrev pub is_cleanable : WorkStatus → Bool
is_cleanable WorkStatus.ready = true
is_cleanable WorkStatus.failed = true
is_cleanable _ = false

-- `mark_cleaned`
unfoldable pub mark_cleaned : WorkClaim → ℕ → ApprovalState → Outcome Bool
unfolding finish_claim
mark_cleaned c moment s = do
  guard (is_cleanable c.item.status && is_given c.item.lab_handle)
  finish_claim c (cleaned_at moment) moment s

abbrev pub max_work_attempts : ℕ
max_work_attempts = 20

-- `retry_work`
unfoldable pub retry_work :
    WorkClaim
    → (error_code : String) → (delay_seconds : ℕ) → (exhaustible : Bool) → ℕ
    → ApprovalState
    → Outcome Bool
unfolding finish_claim is_error_code
retry_work c error_code delay_seconds exhaustible moment s = do
  guard (is_error_code (codes error_code))
  guard (leb 1 delay_seconds && leb delay_seconds 3600)
  finish_claim c
      (if exhaustible && leb max_work_attempts c.item.attempts
        then failed_with error_code (moment + delay_seconds)
        else record {
          status = stay;
          lab_handle = stay;
          available_at = moment + delay_seconds;
          error_code = some error_code;
          cleanup_due_at = stay;
        })
      moment s

-- `fail_work`
unfoldable pub fail_work : WorkClaim → (error_code : String) → ℕ → ApprovalState → Outcome Bool
unfolding finish_claim is_error_code
fail_work c error_code moment s = do
  guard (is_pending c.item.status && not (is_given c.item.lab_handle))
  guard (is_error_code (codes error_code))
  finish_claim c (failed_with error_code moment) moment s
