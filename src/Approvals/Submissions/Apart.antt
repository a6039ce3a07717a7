-- ===== src/Approvals/Submissions/Apart.antt =====
-- adapters/moodle/approval_state.py: the calls that do not count towards an achievement.
use moodle_autotask.Base.{ℕ, String, ◌≡◌, Bool, false}
use moodle_autotask.Approvals.{SubmissionClaim, SubmissionStatus, ApprovalState}
use moodle_autotask.Approvals.Submissions.Claims.{
  record_submission_draft, record_submission_finalizing, complete_submission, fail_submission,
}
use moodle_autotask.Approvals.Submissions.Operations.{
  call_draft, call_finalizing, call_complete, call_fail, Achieved, drafted, finalized, finished,
  event_of, apply,
}
use moodle_autotask.Approvals.Submissions.Stages.{IsStage}
use moodle_autotask.Approvals.Submissions.Once.{Paid, IsQuiet, unpaid_given, unpaid_done, onward}

-- A call that gives a claim back, or says whether it has finished one, does not count as another
-- kind of achievement.
module _ (e : String) (q : SubmissionStatus → Bool) (stage : IsStage q) (d : Achieved → Bool)
    (quiet : IsQuiet d) where
  pub draft_apart :
      ((f : String) → d (drafted f) ≡ false)
      → (allowed : ℕ) (c : SubmissionClaim) (item moment : ℕ) (s : ApprovalState)
      → Paid q e d s (apply allowed (call_draft c item moment) s)
  unfolding apply
  draft_apart h allowed c item moment s =
      unpaid_given q e stage d quiet (drafted (event_of c)) s
        (record_submission_draft c item moment s) (h (event_of c))
        (onward q e stage d quiet 0 (call_draft c item moment) s)

  pub finalizing_apart :
      ((f : String) → d (finalized f) ≡ false)
      → (allowed : ℕ) (c : SubmissionClaim) (moment : ℕ) (s : ApprovalState)
      → Paid q e d s (apply allowed (call_finalizing c moment) s)
  unfolding apply
  finalizing_apart h allowed c moment s =
      unpaid_given q e stage d quiet (finalized (event_of c)) s
        (record_submission_finalizing c moment s) (h (event_of c))
        (onward q e stage d quiet 0 (call_finalizing c moment) s)

  pub complete_apart :
      ((f : String) → d (finished f) ≡ false)
      → (allowed : ℕ) (c : SubmissionClaim) (reference : String) (moment : ℕ) (s : ApprovalState)
      → Paid q e d s (apply allowed (call_complete c reference moment) s)
  unfolding apply
  complete_apart h allowed c reference moment s =
      unpaid_done q e stage d quiet (finished (event_of c)) s
        (complete_submission c reference moment s) (h (event_of c))
        (onward q e stage d quiet 0 (call_complete c reference moment) s)

  pub fail_apart :
      ((f : String) → d (finished f) ≡ false)
      → (allowed : ℕ) (c : SubmissionClaim) (code : String) (moment : ℕ) (s : ApprovalState)
      → Paid q e d s (apply allowed (call_fail c code moment) s)
  unfolding apply
  fail_apart h allowed c code moment s =
      unpaid_done q e stage d quiet (finished (event_of c)) s (fail_submission c code moment s)
        (h (event_of c)) (onward q e stage d quiet 0 (call_fail c code moment) s)
