-- ===== src/Approvals/Submissions/Stages.antt =====
-- adapters/moodle/approval_state.py: the stages of a submission only go forward, and an event has
-- one submission.
use moodle_autotask.Base.{
  ℕ, ◌≤◌, String, ◌≡◌, refl, sym, ap, ◌∙◌, Bool, true, false, ◌&&◌, none, List, [], ◌∷◌, arith,
  String-discrete,
}
use moodle_autotask.Table.{
  update_where, count, select_one, count-le-update_where, count-update_where_le,
}
use moodle_autotask.Events.{same_text}
use moodle_autotask.Approvals.{SubmissionManifest, Phase, SubmissionStatus, Submission}
use moodle_autotask.Approvals.Submissions.{has_event, new_submission}
use moodle_autotask.Approvals.Submissions.Keeps.{IsKept}

-- A set of statuses that no operation leaves: it has the results, and none of the statuses from
-- which an upload may still start.
pub record IsStage (q : SubmissionStatus → Bool) : Type 0 where
  pub awaiting_approval : q SubmissionStatus.awaiting_approval ≡ false
  pub approved : q SubmissionStatus.approved ≡ false
  pub uploading : q (SubmissionStatus.in_phase Phase.uploading) ≡ false
  pub finalizing :
      q (SubmissionStatus.in_phase Phase.saving) ≡ true
      → q (SubmissionStatus.in_phase Phase.finalizing) ≡ true
  pub submitted : q SubmissionStatus.submitted ≡ true
  pub failed : q SubmissionStatus.failed ≡ true

abbrev pub at_stage : (SubmissionStatus → Bool) → String → Submission → Bool
at_stage q e r = has_event e r && q r.status

-- At least `n` of an event's submissions have reached the stage.
abbrev pub Reached : (SubmissionStatus → Bool) → String → ℕ → List Submission → Type 0
Reached q e n rows = n ≤ count (at_stage q e) rows

module _ (q : SubmissionStatus → Bool) (e : String) (stage : IsStage q) (allowed n : ℕ) where
  Reached-later :
      (test : Submission → Bool) (set : Submission → Submission) (rows : List Submission)
      → ((r : Submission) → test r ≡ true → at_stage q e r ≡ true → at_stage q e (set r) ≡ true)
      → Reached q e n rows
      → Reached q e n (update_where test set rows)
  Reached-later test set rows h k =
      omega (arith, count-le-update_where (at_stage q e) test set rows h, k)

  Reached-insert :
      (m : SubmissionManifest) (moment : ℕ) (rows : List Submission)
      → Reached q e n rows
      → Reached q e n (new_submission m moment ∷ rows)
  unfolding count
  Reached-insert m moment rows k = ground arith

  pub Reached-IsKept : IsKept allowed (Reached q e n)
  Reached-IsKept = record {
    inserted = λ m moment rows missing k. Reached-insert m moment rows k;
    approved = λ user moment id rows same k. Reached-later _ _ rows (λ r t p. ground arith) k;
    declined = λ user moment id rows same k. Reached-later _ _ rows (λ r t p. ground arith) k;
    released = λ moment rows k. Reached-later _ _ rows (λ r t p. ground arith) k;
    taken = λ moment id token expires_at rows k. Reached-later _ _ rows (λ r t p. ground arith) k;
    drafted = λ c item moment rows h k. Reached-later _ _ rows (λ r t p. ground arith) k;
    finalized = λ c moment rows k.
        Reached-later _ _ rows (λ r t p. let later = stage.finalizing in ground arith) k;
    submitted = λ c reference moment rows k. Reached-later _ _ rows (λ r t p. ground arith) k;
    failed = λ c code moment rows k. Reached-later _ _ rows (λ r t p. ground arith) k;
  }

-- `event_id` is the table's PRIMARY KEY.
abbrev pub HasKeys : List Submission → Type 0
HasKeys rows = (e : String) → count (has_event e) rows ≤ 1

none_found :
    (e : String) (rows : List Submission)
    → select_one (has_event e) rows ≡ none
    → count (has_event e) rows ≡ 0
unfolding select_one count
none_found e [] h = refl
none_found e (r ∷ rows) h = let rest = none_found e rows in ground arith

keys_insert :
    (m : SubmissionManifest) (moment : ℕ) (rows : List Submission)
    → select_one (has_event m.event.event_id) rows ≡ none
    → HasKeys rows
    → HasKeys (new_submission m moment ∷ rows)
unfolding count
keys_insert m moment rows missing k e = elim (String-discrete m.event.event_id e) [
  | yes same ↦
      let zero_rows = none_found m.event.event_id rows missing in
      let none_here = ap (λ x. count (has_event x) rows) (sym same) ∙ zero_rows in ground arith
  | no other ↦ let old = k e in ground arith
]

keys_update :
    (test : Submission → Bool) (set : Submission → Submission) (rows : List Submission)
    → ((r : Submission) → (set r).event_id ≡ r.event_id)
    → HasKeys rows
    → HasKeys (update_where test set rows)
keys_update test set rows same k e = omega (
  arith,
  k e,
  count-update_where_le (has_event e) test set rows
      (λ r t h. ap (λ x. same_text x e) (sym (same r)) ∙ h),
)

pub HasKeys-IsKept : (allowed : ℕ) → IsKept allowed HasKeys
HasKeys-IsKept allowed = record {
  inserted = keys_insert;
  approved = λ user moment id rows same k. keys_update _ _ rows (λ r. refl) k;
  declined = λ user moment id rows same k. keys_update _ _ rows (λ r. refl) k;
  released = λ moment rows k. keys_update _ _ rows (λ r. refl) k;
  taken = λ moment id token expires_at rows k. keys_update _ _ rows (λ r. refl) k;
  drafted = λ c item moment rows h k. keys_update _ _ rows (λ r. refl) k;
  finalized = λ c moment rows k. keys_update _ _ rows (λ r. refl) k;
  submitted = λ c reference moment rows k. keys_update _ _ rows (λ r. refl) k;
  failed = λ c code moment rows k. keys_update _ _ rows (λ r. refl) k;
}
