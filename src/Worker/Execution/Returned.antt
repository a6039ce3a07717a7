-- ===== src/Worker/Execution/Returned.antt =====
-- adapters/moodle/approval_state.py: the calls of a claim of work that return, and those that raise.
use moodle_autotask.Base.{
  ℕ, ◌+◌, ◌*◌, ◌≡◌, refl, ◌↔◌, true, false, not, ◌&&◌, ◌||◌, arith, leb, codes, all, All,
}
use moodle_autotask.Approvals.{ApprovalState}
use moodle_autotask.Approvals.Submissions.Claims.{is_error_code}
use moodle_autotask.Approvals.Work.{WorkClaim, is_pending, is_central, is_given, is_stored}
use moodle_autotask.Approvals.Work.Sound.{Fits}
use moodle_autotask.Approvals.Work.Calls.{
  max_work_attempts, is_ready, is_unready, has_result, record_lab, mark_ready,
  mark_execution_complete, complete_execution, fail_execution, mark_cleaned, retry_work, fail_work,
}
use moodle_autotask.Approvals.Work.World.{
  Call, call, call_record_lab, call_mark_ready, call_mark_execution_complete,
  call_complete_execution, call_fail_execution, call_mark_cleaned, call_retry_work, call_fail_work,
}
use moodle_autotask.Worker.Execution.Permitted.{is_accepted}
use moodle_autotask.Approvals.Work.Returns.{
  Returns, past, passed, given_payload, both, parts, ready_Follows, failed_IsSafe, cleaned_IsSafe,
  either_IsSafe, retry_IsSafe, lab_IsSafe, finish_returns, completes,
}

-- What a call that returned was given.
returned-is_accepted :
    (c : WorkClaim) (k : Call) (moment : ℕ) (s : ApprovalState)
    → Returns (call c k moment s)
    → is_accepted c.item k ≡ true
unfolding call is_accepted record_lab mark_ready mark_execution_complete complete_execution
    fail_execution mark_cleaned retry_work fail_work is_error_code
returned-is_accepted c (call_record_lab handle) moment s r = (passed _ _ r).0
returned-is_accepted c (call_mark_ready for_execution) moment s r =
    let (g, r1) = passed (is_unready c.item.status) _ r in
    let (h, _) = passed (not (is_pending c.item.status) || is_central c.item.selected_mode) _ r1 in
    both g h
returned-is_accepted c call_mark_execution_complete moment s r = (passed _ _ r).0
returned-is_accepted c (call_complete_execution d) moment s r =
    let (g, r1) = passed (is_ready c.item.status) _ r in
    let (sizes, r2) =
      passed (leb d.summary_bytes 16384 && leb d.report_bytes (2 * 1024 * 1024)) _ r1 in
    let (provenance, r3) =
      passed (d.has_provenance || is_central c.item.selected_mode && not d.succeeded) _ r2 in
    let payload = given_payload d.payload _ r3 in both g (rw (sizes, provenance, payload) refl)
returned-is_accepted c (call_fail_execution code) moment s r = (passed _ _ r).0
returned-is_accepted c call_mark_cleaned moment s r = (passed _ _ r).0
returned-is_accepted c (call_retry_work code delay exhaustible) moment s r =
    let (g, r1) = passed (is_error_code (codes code)) _ r in
    let (h, _) = passed (leb 1 delay && leb delay 3600) _ r1 in both g h
returned-is_accepted c (call_fail_work code) moment s r =
    let (g, r1) = passed (is_pending c.item.status && not (is_given c.item.lab_handle)) _ r in
    let (h, _) = passed (is_error_code (codes code)) _ r1 in ground (arith, g, h)

module _ (c : WorkClaim) (moment : ℕ) (s : ApprovalState)
    (stored : all is_stored s.work_items ≡ true) (fits : All (Fits c) s.work_items)
    (new : has_result c s.execution_outbox ≡ false) where
  is_accepted-Returns : (k : Call) → is_accepted c.item k ≡ true → Returns (call c k moment s)
  unfolding call is_accepted record_lab mark_ready mark_execution_complete complete_execution
      fail_execution mark_cleaned retry_work fail_work is_error_code
  is_accepted-Returns (call_record_lab handle) h =
      past _ _ h (finish_returns c moment s stored fits _ (lab_IsSafe c moment handle h))
  is_accepted-Returns (call_mark_ready for_execution) h =
      let (g, k) =
        parts (is_unready c.item.status)
          (not (is_pending c.item.status) || is_central c.item.selected_mode) h in
      past _ _ g (
        past _ _ k (
          finish_returns c moment s stored fits _ (λ w same mode u.
            ready_Follows w.status w.selected_mode w.lab_handle (rw same g) (rw (same, mode) k) u)))
  is_accepted-Returns call_mark_execution_complete h = past _ _ h (
      finish_returns c moment s stored fits _ (
        either_IsSafe c moment (is_given c.item.lab_handle) _ _ (λ w same mode u. u)
          (cleaned_IsSafe c moment)))
  is_accepted-Returns (call_complete_execution d) h =
      let sizes = leb d.summary_bytes 16384 && leb d.report_bytes (2 * 1024 * 1024) in
      let provenance = d.has_provenance || is_central c.item.selected_mode && not d.succeeded in
      let (g, told) = parts (is_ready c.item.status) _ h in
      past _ _ g (
        past sizes _ (ground (arith, told)) (
          past provenance _ (ground (arith, told))
            (completes c moment s stored fits d d.payload (ground (arith, told)) new)))
  is_accepted-Returns (call_fail_execution code) h =
      past _ _ h (finish_returns c moment s stored fits _ (failed_IsSafe c moment code moment))
  is_accepted-Returns call_mark_cleaned h =
      past _ _ h (finish_returns c moment s stored fits _ (cleaned_IsSafe c moment))
  is_accepted-Returns (call_retry_work code delay exhaustible) h =
      let (g, k) = parts (is_error_code (codes code)) (leb 1 delay && leb delay 3600) h in
      past _ _ g (
        past _ _ k (
          finish_returns c moment s stored fits _ (
            retry_IsSafe c moment code (moment + delay)
              (exhaustible && leb max_work_attempts c.item.attempts))))
  is_accepted-Returns (call_fail_work code) h =
      past (is_pending c.item.status && not (is_given c.item.lab_handle)) _ (ground arith) (
        past (is_error_code (codes code)) _ (ground arith)
          (finish_returns c moment s stored fits _ (failed_IsSafe c moment code moment)))

-- In tables whose rows pass the CHECKs, are as the claim has them while they hold its lease, and
-- where no result is stored for the claim's event, each of the eight methods of a claim returns
-- exactly if the claim's item and the arguments are what the method demands; the rows that it then
-- leaves pass the CHECKs again.
pub call_returns_iff :
    (c : WorkClaim) (k : Call) (moment : ℕ) (s : ApprovalState)
    → all is_stored s.work_items ≡ true
    → All (Fits c) s.work_items
    → has_result c s.execution_outbox ≡ false
    → Returns (call c k moment s) ↔ (is_accepted c.item k ≡ true)
call_returns_iff c k moment s stored fits new =
    (returned-is_accepted c k moment s, is_accepted-Returns c moment s stored fits new k)
