-- ===== src/Approvals/Submissions/Paid.antt =====
-- adapters/moodle/approval_state.py: an event's submission is stored as drafted at most once, put
-- into its finalization at most once, and finished at most once.
use moodle_autotask.Base.{
  ℕ, ◌+◌, ◌≤◌, String, ◌≡◌, refl, Bool, true, false, Option, none, some, List, arith,
  String-discrete,
}
use moodle_autotask.Table.{update_where, count, count-update_where_adds}
use moodle_autotask.Events.{same_text}
use moodle_autotask.Approvals.{Phase, SubmissionClaim, SubmissionStatus, Submission, ApprovalState}
use moodle_autotask.Approvals.Submissions.Claims.{
  is_owned_in, set_draft, set_finalizing, is_finishable, set_finished, record_submission_draft,
  record_submission_finalizing, finish_submission, complete_submission, fail_submission,
}
use moodle_autotask.Approvals.Submissions.Operations.{
  Operation, call_draft, call_finalizing, call_complete, call_fail, drafted, finalized, finished,
  event_of, if_done, achieved, apply, run, tally, is_drafted, is_finalized, is_finished,
}
use moodle_autotask.Approvals.Submissions.Stages.{IsStage, at_stage, HasKeys}
use moodle_autotask.Approvals.Submissions.Apart.{
  draft_apart, finalizing_apart, complete_apart, fail_apart,
}
use moodle_autotask.Approvals.Submissions.Once.{
  Paid, IsQuiet, unpaid_given, unpaid_done, onward, run_once,
}

-- The stages: the draft is stored, the finalization is under way, the result is known.
abbrev pub has_draft : SubmissionStatus → Bool
has_draft (SubmissionStatus.in_phase Phase.saving) = true
has_draft (SubmissionStatus.in_phase Phase.finalizing) = true
has_draft SubmissionStatus.submitted = true
has_draft SubmissionStatus.failed = true
has_draft _ = false

abbrev pub in_finalization : SubmissionStatus → Bool
in_finalization (SubmissionStatus.in_phase Phase.finalizing) = true
in_finalization SubmissionStatus.submitted = true
in_finalization SubmissionStatus.failed = true
in_finalization _ = false

abbrev pub has_result : SubmissionStatus → Bool
has_result SubmissionStatus.submitted = true
has_result SubmissionStatus.failed = true
has_result _ = false

has_draft-IsStage : IsStage has_draft
has_draft-IsStage = record {
  awaiting_approval = refl;
  approved = refl;
  uploading = refl;
  finalizing = λ h. refl;
  submitted = refl;
  failed = refl;
}

in_finalization-IsStage : IsStage in_finalization
in_finalization-IsStage = record {
  awaiting_approval = refl;
  approved = refl;
  uploading = refl;
  finalizing = λ h. cc;
  submitted = refl;
  failed = refl;
}

has_result-IsStage : IsStage has_result
has_result-IsStage = record {
  awaiting_approval = refl;
  approved = refl;
  uploading = refl;
  finalizing = λ h. cc;
  submitted = refl;
  failed = refl;
}

module _ (e : String) where
  drafted-IsQuiet : IsQuiet (is_drafted e)
  drafted-IsQuiet = record { at_nothing = refl; at_approval = λ user f. refl; at_claim = λ f. refl }

  finalized-IsQuiet : IsQuiet (is_finalized e)
  finalized-IsQuiet = record {
    at_nothing = refl;
    at_approval = λ user f. refl;
    at_claim = λ f. refl;
  }

  finished-IsQuiet : IsQuiet (is_finished e)
  finished-IsQuiet = record {
    at_nothing = refl;
    at_approval = λ user f. refl;
    at_claim = λ f. refl;
  }

  other_text : (f : String) → (f ≡ e → ⊥) → same_text f e ≡ false
  other_text f other = ground arith

  -- `record_submission_draft` takes the claim's submission into the first stage.
  module _ (c : SubmissionClaim) (item moment : ℕ) where
    draft_adds :
        (rows : List Submission)
        → event_of c ≡ e
        → count
            (at_stage has_draft e)
            (update_where (is_owned_in c Phase.uploading moment) (set_draft item) rows)
          ≡ count (at_stage has_draft e) rows + count (is_owned_in c Phase.uploading moment) rows
    draft_adds rows same =
        count-update_where_adds (at_stage has_draft e) (is_owned_in c Phase.uploading moment)
          (set_draft item) rows (λ r t. (ground arith, ground arith))

    draft_pays :
        (allowed : ℕ) (s : ApprovalState)
        → Paid has_draft e (is_drafted e) s (apply allowed (call_draft c item moment) s)
    unfolding record_submission_draft apply
    draft_pays allowed s = elim (String-discrete (event_of c) e) [
      | yes same ↦ let adds = draft_adds s.submissions same in ground (arith, adds)
      | no other ↦
          unpaid_given has_draft e has_draft-IsStage (is_drafted e) (drafted-IsQuiet)
            (drafted (event_of c)) s (record_submission_draft c item moment s)
            (other_text (event_of c) other)
            (onward has_draft e has_draft-IsStage (is_drafted e) (drafted-IsQuiet) 0
              (call_draft c item moment) s)
    ]

  -- `record_submission_finalizing` takes it into the second.
  module _ (c : SubmissionClaim) (moment : ℕ) where
    finalizing_adds :
        (rows : List Submission)
        → event_of c ≡ e
        → count
            (at_stage in_finalization e)
            (update_where (is_owned_in c Phase.saving moment) set_finalizing rows)
          ≡ count (at_stage in_finalization e) rows + count (is_owned_in c Phase.saving moment) rows
    finalizing_adds rows same =
        count-update_where_adds (at_stage in_finalization e) (is_owned_in c Phase.saving moment)
          set_finalizing rows (λ r t. (ground arith, ground arith))

    finalizing_pays :
        (allowed : ℕ) (s : ApprovalState)
        → Paid in_finalization e (is_finalized e) s (apply allowed (call_finalizing c moment) s)
    unfolding record_submission_finalizing apply
    finalizing_pays allowed s = elim (String-discrete (event_of c) e) [
      | yes same ↦ let adds = finalizing_adds s.submissions same in ground (arith, adds)
      | no other ↦
          unpaid_given in_finalization e in_finalization-IsStage (is_finalized e)
            (finalized-IsQuiet) (finalized (event_of c)) s (record_submission_finalizing c moment s)
            (other_text (event_of c) other)
            (onward in_finalization e in_finalization-IsStage (is_finalized e) (finalized-IsQuiet) 0
              (call_finalizing c moment) s)
    ]

  -- `_finish_submission` takes it into the last.
  module _ (c : SubmissionClaim) (moment : ℕ) (status : SubmissionStatus)
      (reference code : Option String) where
    finish_adds :
        (rows : List Submission)
        → has_result status ≡ true
        → event_of c ≡ e
        → count
            (at_stage has_result e)
            (update_where (is_finishable c moment) (set_finished status reference code) rows)
          ≡ count (at_stage has_result e) rows + count (is_finishable c moment) rows
    finish_adds rows given same =
        count-update_where_adds (at_stage has_result e) (is_finishable c moment)
          (set_finished status reference code) rows (λ r t. (ground arith, ground arith))

    finish_pays :
        (s : ApprovalState)
        → has_result status ≡ true
        → event_of c ≡ e
        → Paid has_result e (is_finished e) s (
            achieved
              (if_done (finished (event_of c)))
              s
              (finish_submission c status reference code moment s))
    unfolding finish_submission
    finish_pays s given same =
        let adds = finish_adds s.submissions given same in ground (arith, adds)

  complete_pays :
      (c : SubmissionClaim) (reference : String) (moment allowed : ℕ) (s : ApprovalState)
      → Paid has_result e (is_finished e) s (apply allowed (call_complete c reference moment) s)
  unfolding complete_submission apply
  complete_pays c reference moment allowed s = elim (String-discrete (event_of c) e) [
    | yes same ↦
        let rest =
          finish_pays c moment SubmissionStatus.submitted (some reference) none s refl same in
        ground (arith, rest)
    | no other ↦
        unpaid_done has_result e has_result-IsStage (is_finished e) (finished-IsQuiet)
          (finished (event_of c)) s (complete_submission c reference moment s)
          (other_text (event_of c) other)
          (onward has_result e has_result-IsStage (is_finished e) (finished-IsQuiet) 0
            (call_complete c reference moment) s)
  ]

  fail_pays :
      (c : SubmissionClaim) (error_code : String) (moment allowed : ℕ) (s : ApprovalState)
      → Paid has_result e (is_finished e) s (apply allowed (call_fail c error_code moment) s)
  unfolding fail_submission apply
  fail_pays c error_code moment allowed s = elim (String-discrete (event_of c) e) [
    | yes same ↦
        let rest =
          finish_pays c moment SubmissionStatus.failed none (some error_code) s refl same in
        ground (arith, rest)
    | no other ↦
        unpaid_done has_result e has_result-IsStage (is_finished e) (finished-IsQuiet)
          (finished (event_of c)) s (fail_submission c error_code moment s)
          (other_text (event_of c) other)
          (onward has_result e has_result-IsStage (is_finished e) (finished-IsQuiet) 0
            (call_fail c error_code moment) s)
  ]

-- Whatever the calls on submissions and their order, `record_submission_draft` gives a claim of an
-- event back at most once, and not at all where a submission of the event has its draft stored
-- already, if the table has at most one row of each event at the start.
pub drafted_once :
    (e : String) (allowed : ℕ) (ops : List Operation) (s : ApprovalState)
    → HasKeys s.submissions
    → tally (is_drafted e) (run allowed ops s).0 + count (at_stage has_draft e) s.submissions ≤ 1
drafted_once e allowed ops s keys =
    run_once has_draft e has_draft-IsStage (is_drafted e) (drafted-IsQuiet e) allowed
      (λ c item moment t. draft_pays e c item moment allowed t)
      (finalizing_apart e has_draft has_draft-IsStage (is_drafted e) (drafted-IsQuiet e) (λ f. refl)
        allowed)
      (complete_apart e has_draft has_draft-IsStage (is_drafted e) (drafted-IsQuiet e) (λ f. refl)
        allowed)
      (fail_apart e has_draft has_draft-IsStage (is_drafted e) (drafted-IsQuiet e) (λ f. refl)
        allowed)
      ops s keys

-- Whatever the calls on submissions and their order, `record_submission_finalizing` gives a claim
-- of an event back at most once, and not at all where a submission of the event is in its
-- finalization or finished already, if the table has at most one row of each event at the start.
pub finalized_once :
    (e : String) (allowed : ℕ) (ops : List Operation) (s : ApprovalState)
    → HasKeys s.submissions
    → tally (is_finalized e) (run allowed ops s).0
        + count (at_stage in_finalization e) s.submissions
      ≤ 1
finalized_once e allowed ops s keys =
    let stage = in_finalization-IsStage in
    run_once in_finalization e stage (is_finalized e) (finalized-IsQuiet e) allowed
      (draft_apart e in_finalization stage (is_finalized e) (finalized-IsQuiet e) (λ f. refl)
        allowed)
      (λ c moment t. finalizing_pays e c moment allowed t)
      (complete_apart e in_finalization stage (is_finalized e) (finalized-IsQuiet e) (λ f. refl)
        allowed)
      (fail_apart e in_finalization stage (is_finalized e) (finalized-IsQuiet e) (λ f. refl)
        allowed)
      ops s keys

-- Whatever the calls on submissions and their order, `complete_submission` and `fail_submission`
-- together finish an event's submission at most once, and not at all where it has a result already,
-- if the table has at most one row of each event at the start.
pub finished_once :
    (e : String) (allowed : ℕ) (ops : List Operation) (s : ApprovalState)
    → HasKeys s.submissions
    → tally (is_finished e) (run allowed ops s).0 + count (at_stage has_result e) s.submissions ≤ 1
finished_once e allowed ops s keys =
    run_once has_result e has_result-IsStage (is_finished e) (finished-IsQuiet e) allowed
      (draft_apart e has_result has_result-IsStage (is_finished e) (finished-IsQuiet e) (λ f. refl)
        allowed)
      (finalizing_apart e has_result has_result-IsStage (is_finished e) (finished-IsQuiet e)
        (λ f. refl) allowed)
      (λ c reference moment t. complete_pays e c reference moment allowed t)
      (λ c code moment t. fail_pays e c code moment allowed t) ops s keys
