-- ===== src/Approvals/Submissions/Once.antt =====
-- adapters/moodle/approval_state.py: what happens to a submission at most once.
use moodle_autotask.Base.{
  ℕ, ◌+◌, ◌≤◌, String, ◌≡◌, Bool, false, Option, none, some, List, [], ◌∷◌, arith, if◌then◌else◌,
  ok, err,
}
use moodle_autotask.Table.{count, count_mono}
use moodle_autotask.Approvals.{
  SubmissionManifest, SubmissionClaim, SubmissionStatus, ApprovalState, Outcome,
}
use moodle_autotask.Approvals.Submissions.{
  Resolution, has_event, prepare_submission, resolve_submission,
}
use moodle_autotask.Approvals.Submissions.Claims.{
  claim_submission, mark_submission_notification_delivered,
}
use moodle_autotask.Approvals.Submissions.Operations.{
  Operation, call_prepare, call_resolve, call_claim, call_draft, call_finalizing, call_complete,
  call_fail, call_delivered, Achieved, nothing, approved_by, handed_out, event_of, if_given,
  if_done, approval, handed, achieved, apply, run, tally,
}
use moodle_autotask.Approvals.Submissions.Keeps.{apply_keeps, run_keeps}
use moodle_autotask.Approvals.Submissions.Stages.{
  IsStage, at_stage, Reached, Reached-IsKept, HasKeys, HasKeys-IsKept,
}

-- What a call has achieved is paid for by a submission that has reached the stage.
abbrev pub Paid :
    (SubmissionStatus → Bool)
    → String
    → (Achieved → Bool)
    → ApprovalState
    → Achieved × ApprovalState
    → Type 0
Paid q e d s (a, s') =
    (if d a then 1 else 0) + count (at_stage q e) s.submissions
    ≤ count (at_stage q e) s'.submissions

-- The kinds of achievement that a call may have, which do not count.
pub record IsQuiet (d : Achieved → Bool) : Type 0 where
  pub at_nothing : d nothing ≡ false
  pub at_approval : (user : ℕ) (f : String) → d (approved_by user f) ≡ false
  pub at_claim : (f : String) → d (handed_out f) ≡ false

module _ (q : SubmissionStatus → Bool) (e : String) (stage : IsStage q) (d : Achieved → Bool)
    (quiet : IsQuiet d) where
  unpaid :
      {A : Type 0} (f : A → Achieved) (s : ApprovalState) (r : Outcome A)
      → ((a : A) → d (f a) ≡ false)
      → count (at_stage q e) s.submissions ≤ count (at_stage q e) (achieved f s r).1.submissions
      → Paid q e d s (achieved f s r)
  unpaid f s (ok (a, s')) none_counts k = rw (none_counts a) (omega (arith, k))
  unpaid f s (err x) none_counts k = rw quiet.at_nothing (omega arith)

  quiet_handed : (o : Option SubmissionClaim) → d (handed o) ≡ false
  quiet_handed none = quiet.at_nothing
  quiet_handed (some c) = quiet.at_claim (event_of c)

  quiet_approval :
      (user : ℕ) (r : Resolution) (m : SubmissionManifest) → d (approval user r m) ≡ false
  quiet_approval user Resolution.approved m = quiet.at_approval user m.event.event_id
  quiet_approval user Resolution.details m = quiet.at_nothing
  quiet_approval user Resolution.declined m = quiet.at_nothing
  quiet_approval user Resolution.already_approved m = quiet.at_nothing
  quiet_approval user Resolution.already_declined m = quiet.at_nothing
  quiet_approval user Resolution.conflict m = quiet.at_nothing

  quiet_given : (a : Achieved) (o : Option SubmissionClaim) → d a ≡ false → d (if_given a o) ≡ false
  quiet_given a none h = quiet.at_nothing
  quiet_given a (some c) h = h

  pub unpaid_given :
      (a : Achieved) (s : ApprovalState) (r : Outcome (Option SubmissionClaim))
      → d a ≡ false
      → count (at_stage q e) s.submissions
        ≤ count (at_stage q e) (achieved (if_given a) s r).1.submissions
      → Paid q e d s (achieved (if_given a) s r)
  unpaid_given a s r h k = unpaid (if_given a) s r (λ o. quiet_given a o h) k

  pub unpaid_done :
      (a : Achieved) (s : ApprovalState) (r : Outcome Bool)
      → d a ≡ false
      → count (at_stage q e) s.submissions
        ≤ count (at_stage q e) (achieved (if_done a) s r).1.submissions
      → Paid q e d s (achieved (if_done a) s r)
  unpaid_done a s r h k = unpaid (if_done a) s r (λ b. ground arith) k

  -- A call goes on from stage to stage.
  pub onward :
      (allowed : ℕ) (op : Operation) (s : ApprovalState)
      → count (at_stage q e) s.submissions ≤ count (at_stage q e) (apply allowed op s).1.submissions
  onward allowed op s =
      apply_keeps allowed (Reached q e (count (at_stage q e) s.submissions))
        (Reached-IsKept q e stage allowed (count (at_stage q e) s.submissions)) op s (omega arith)

  -- A sequence of calls pays if each of the calls does that may count.
  pub run-Paid :
      (allowed : ℕ)
      → ((c : SubmissionClaim) (item moment : ℕ) (s : ApprovalState)
          → Paid q e d s (apply allowed (call_draft c item moment) s))
      → ((c : SubmissionClaim) (moment : ℕ) (s : ApprovalState)
          → Paid q e d s (apply allowed (call_finalizing c moment) s))
      → ((c : SubmissionClaim) (reference : String) (moment : ℕ) (s : ApprovalState)
          → Paid q e d s (apply allowed (call_complete c reference moment) s))
      → ((c : SubmissionClaim) (code : String) (moment : ℕ) (s : ApprovalState)
          → Paid q e d s (apply allowed (call_fail c code moment) s))
      → (ops : List Operation) (s : ApprovalState)
      → tally d (run allowed ops s).0 + count (at_stage q e) s.submissions
        ≤ count (at_stage q e) (run allowed ops s).1.submissions
  unfolding run tally
  run-Paid allowed drafts finalizings completes fails [] s = omega arith
  run-Paid allowed drafts finalizings completes fails (op ∷ ops) s =
      let (a, s') = apply allowed op s in
      let rest = run-Paid allowed drafts finalizings completes fails ops (apply allowed op s).1 in
      omega (arith, one op s, rest)
    where
      one : (op : Operation) (s : ApprovalState) → Paid q e d s (apply allowed op s)
      one (call_prepare event built moment tokens) s =
          unpaid (λ _. nothing) s (prepare_submission event built moment tokens s)
            (λ _. quiet.at_nothing) (onward allowed (call_prepare event built moment tokens) s)
      one (call_resolve token user_id moment) s =
          unpaid (λ (r, m). approval user_id r m) s
            (resolve_submission token user_id allowed moment s)
            (λ (r, m). quiet_approval user_id r m)
            (onward allowed (call_resolve token user_id moment) s)
      one (call_claim owner token lease_seconds moment) s =
          unpaid handed s (claim_submission owner token lease_seconds moment s) quiet_handed
            (onward allowed (call_claim owner token lease_seconds moment) s)
      one (call_draft c item moment) s = drafts c item moment s
      one (call_finalizing c moment) s = finalizings c moment s
      one (call_complete c reference moment) s = completes c reference moment s
      one (call_fail c code moment) s = fails c code moment s
      one (call_delivered event_id moment) s =
          unpaid (λ _. nothing) s (mark_submission_notification_delivered event_id moment s)
            (λ _. quiet.at_nothing) (onward allowed (call_delivered event_id moment) s)

  -- Where an event has one submission, it has at most one of the achievements.
  pub run_once :
      (allowed : ℕ)
      → ((c : SubmissionClaim) (item moment : ℕ) (s : ApprovalState)
          → Paid q e d s (apply allowed (call_draft c item moment) s))
      → ((c : SubmissionClaim) (moment : ℕ) (s : ApprovalState)
          → Paid q e d s (apply allowed (call_finalizing c moment) s))
      → ((c : SubmissionClaim) (reference : String) (moment : ℕ) (s : ApprovalState)
          → Paid q e d s (apply allowed (call_complete c reference moment) s))
      → ((c : SubmissionClaim) (code : String) (moment : ℕ) (s : ApprovalState)
          → Paid q e d s (apply allowed (call_fail c code moment) s))
      → (ops : List Operation) (s : ApprovalState) → HasKeys s.submissions
      → tally d (run allowed ops s).0 + count (at_stage q e) s.submissions ≤ 1
  run_once allowed drafts finalizings completes fails ops s keys =
      let paid = run-Paid allowed drafts finalizings completes fails ops s in
      let later = run_keeps allowed HasKeys (HasKeys-IsKept allowed) ops s keys e in
      let fewer =
        count_mono (at_stage q e) (has_event e) (run allowed ops s).1.submissions
          (λ r h. ground arith) in
      omega (arith, paid, later, fewer)
