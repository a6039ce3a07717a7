-- ===== src/Approvals/Work/Keeps.antt =====
-- adapters/moodle/approval_state.py: what the writes of a claim's holder keep, its calls keep.
use moodle_autotask.Base.{
  ℕ, ◌*◌, String, ◌≡◌, refl, inl, inr, Bool, true, not, ◌&&◌, ◌||◌, Option, arith, leb, Bool-cases,
  codes, all,
}
use moodle_autotask.Table.{update_where}
use moodle_autotask.Approvals.{ApprovalState, Outcome, after, guard, ◌>>=◌}
use moodle_autotask.Approvals.Submissions.Claims.{is_error_code}
use moodle_autotask.Approvals.Work.{WorkClaim, is_pending, is_central, is_given, is_stored}
use moodle_autotask.Approvals.Work.Calls.{
  Assignment, assign, is_owned, with_work, is_ready, is_unready, is_cleanable, stored_payload,
  add_result, completed, lab_recorded, finish_claim, record_lab, mark_ready,
  mark_execution_complete, complete_execution, fail_execution, mark_cleaned, retry_work, fail_work,
}
use moodle_autotask.Approvals.Work.World.{
  Call, call, call_record_lab, call_mark_ready, call_mark_execution_complete,
  call_complete_execution, call_fail_execution, call_mark_cleaned, call_retry_work, call_fail_work,
}
use moodle_autotask.Approvals.Work.Finish.{through}

module _ (P : ApprovalState → Type 0) (c : WorkClaim) (moment : ℕ) (s : ApprovalState)
    (held : P s) where
  abbrev finished_with : Assignment → ApprovalState
  finished_with a = with_work s (update_where (is_owned c moment) (assign a) s.work_items)

  finish_then :
      {A : Type 0} (a : Assignment) (f : Bool × ApprovalState → Outcome A)
      → P (finished_with a)
      → ((b : Bool) (s' : ApprovalState) → P s' → P (after s (f (b, s'))))
      → P (after s (finish_claim c a moment s >>= f))
  unfolding finish_claim
  finish_then a f written next = elim (Bool-cases (all is_stored (finished_with a).work_items)) [
    | inl t ↦ rw t (next _ _ written)
    | inr n ↦ rw n held
  ]

  finish : (a : Assignment) → P (finished_with a) → P (after s (finish_claim c a moment s))
  unfolding finish_claim
  finish a written = elim (Bool-cases (all is_stored (finished_with a).work_items)) [
    | inl t ↦ rw t written
    | inr n ↦ rw n held
  ]

  -- The assignments keep the row's lab, but for that of `record_lab`.
  pub call_keeps :
      ((a : Assignment) → ((h : Option String) → a.lab_handle h ≡ h) → P (finished_with a))
      → ((handle : String)
          → (is_pending c.item.status && not (is_central c.item.selected_mode)) ≡ true
          → P (finished_with (lab_recorded handle moment)))
      → ((payload : String) (b : Bool) (s' : ApprovalState)
          → P s'
          → P (after s (add_result c moment payload b s')))
      → (k : Call) → P (after s (call c k moment s))
  unfolding call record_lab mark_ready mark_execution_complete complete_execution fail_execution
      mark_cleaned retry_work fail_work
  call_keeps stays lab added (call_record_lab handle) =
      through P s (guard (is_pending c.item.status && not (is_central c.item.selected_mode))) _ held
        (λ _ g. finish (lab_recorded handle moment) (lab handle (ground (arith, g))))
  call_keeps stays lab added (call_mark_ready for_execution) =
      through P s (guard (is_unready c.item.status)) _ held (λ _ _.
        through P s (guard (not (is_pending c.item.status) || is_central c.item.selected_mode)) _
          held (λ _ _. finish _ (stays _ (λ h. refl))))
  call_keeps stays lab added call_mark_execution_complete =
      through P s (guard (is_ready c.item.status)) _ held
        (λ _ _. finish _ (stays _ (λ h. ground arith)))
  call_keeps stays lab added (call_complete_execution d) =
      through P s (guard (is_ready c.item.status)) _ held (λ _ _.
        through P s (guard (leb d.summary_bytes 16384 && leb d.report_bytes (2 * 1024 * 1024))) _
          held
          (λ _ _.
            through P s
              (guard (d.has_provenance || is_central c.item.selected_mode && not d.succeeded)) _
              held
              (λ _ _. through P s (stored_payload d.payload) _ held (λ payload _.
                finish_then (completed c d.succeeded moment) _
                  (stays (completed c d.succeeded moment) (λ h. ground arith)) (added payload)))))
  call_keeps stays lab added (call_fail_execution error_code) =
      through P s (guard (is_ready c.item.status && is_error_code (codes error_code))) _ held
        (λ _ _. finish _ (stays _ (λ h. refl)))
  call_keeps stays lab added call_mark_cleaned =
      through P s (guard (is_cleanable c.item.status && is_given c.item.lab_handle)) _ held
        (λ _ _. finish _ (stays _ (λ h. refl)))
  call_keeps stays lab added (call_retry_work error_code delay_seconds exhaustible) =
      through P s (guard (is_error_code (codes error_code))) _ held (λ _ _.
        through P s (guard (leb 1 delay_seconds && leb delay_seconds 3600)) _ held
          (λ _ _. finish _ (stays _ (λ h. ground arith))))
  call_keeps stays lab added (call_fail_work error_code) =
      through P s (guard (is_pending c.item.status && not (is_given c.item.lab_handle))) _ held
        (λ _ _.
          through P s (guard (is_error_code (codes error_code))) _ held
            (λ _ _. finish _ (stays _ (λ h. refl))))
