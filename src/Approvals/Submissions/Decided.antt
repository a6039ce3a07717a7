-- ===== src/Approvals/Submissions/Decided.antt =====
-- adapters/moodle/approval_state.py: what the columns of a submission say of its status, which the
-- CHECKs of its table demand in part, and who has decided about it.
use moodle_autotask.Base.{
  ℕ, String, ◌≡◌, refl, Bool, true, false, not, ◌&&◌, Option, none, some, List, arith, ltb, ◌==◌,
  All,
}
use moodle_autotask.Table.{update_where, All-update_where}
use moodle_autotask.Approvals.{Phase, SubmissionStatus, Lease, Submission, ApprovalState}
use moodle_autotask.Approvals.Submissions.Operations.{Operation, run}
use moodle_autotask.Approvals.Submissions.Keeps.{IsKept, run_keeps}

abbrev given : {A : Type 0} → Option A → Bool
given none = false
given (some _) = true

abbrev is_positive : Option ℕ → Bool
is_positive none = false
is_positive (some n) = ltb 0 n

abbrev decided_by : ℕ → Option (ℕ × ℕ) → Bool
decided_by allowed none = false
decided_by allowed (some (user, moment)) = user == allowed

-- The columns `decided_by`, `lease_token`, `draft_item_id`, `receipt_reference` and `error_code`,
-- by the status.
abbrev pub agrees :
    ℕ
    → SubmissionStatus
    → Option (ℕ × ℕ)
    → Option Lease
    → Option ℕ
    → Option String
    → Option String
    → Bool
agrees allowed SubmissionStatus.awaiting_approval d l i r c =
    not (given d) && not (given l) && not (given i)
agrees allowed SubmissionStatus.approved d l i r c =
    decided_by allowed d && not (given l) && not (given i)
agrees allowed SubmissionStatus.declined d l i r c =
    decided_by allowed d && not (given l) && not (given i)
agrees allowed (SubmissionStatus.in_phase Phase.uploading) d l i r c =
    decided_by allowed d && given l && not (given i)
agrees allowed (SubmissionStatus.in_phase Phase.saving) d l i r c =
    decided_by allowed d && given l && is_positive i
agrees allowed (SubmissionStatus.in_phase Phase.finalizing) d l i r c =
    decided_by allowed d && given l && is_positive i
agrees allowed SubmissionStatus.submitted d l i r c =
    decided_by allowed d && not (given l) && given r && not (given c)
agrees allowed SubmissionStatus.failed d l i r c =
    decided_by allowed d && not (given l) && not (given r) && given c

abbrev pub Agrees : ℕ → Submission → Type 0
Agrees allowed r =
    agrees allowed r.status r.decided r.lease r.draft_item_id r.receipt_reference r.error_code
    ≡ true

module _ (allowed : ℕ) where
  kept_by :
      (test : Submission → Bool) (set : Submission → Submission) (rows : List Submission)
      → ((r : Submission) → test r ≡ true → Agrees allowed r → Agrees allowed (set r))
      → All (Agrees allowed) rows
      → All (Agrees allowed) (update_where test set rows)
  kept_by test set rows h k = All-update_where (Agrees allowed) test set rows h k

  Agrees-IsKept : IsKept allowed (All (Agrees allowed))
  Agrees-IsKept = record {
    inserted = λ m moment rows missing k. (refl, k);
    approved = λ user moment id rows same k. kept_by _ _ rows (λ r t p. ground (arith, same)) k;
    declined = λ user moment id rows same k. kept_by _ _ rows (λ r t p. ground (arith, same)) k;
    released = λ moment rows k. kept_by _ _ rows (λ r t p. ground arith) k;
    taken = λ moment id token expires_at rows k. kept_by _ _ rows (λ r t p. ground arith) k;
    drafted = λ c item moment rows h k. kept_by _ _ rows (λ r t p. ground (arith, h)) k;
    finalized = λ c moment rows k. kept_by _ _ rows (λ r t p. ground arith) k;
    submitted = λ c reference moment rows k. kept_by _ _ rows (λ r t p. ground arith) k;
    failed = λ c code moment rows k. kept_by _ _ rows (λ r t p. ground arith) k;
  }

-- After any calls on submissions: a submission that was approved or declined, or has gone on from
-- there, was decided by the allowed user; exactly the submissions in a phase have a lease; a draft
-- item is positive, is there in the phases `saving` and `finalizing`, and not before; a submitted
-- one has a reference and no error code, a failed one an error code and no reference. All of this
-- is presumed of the submissions at the start.
pub run-Agrees :
    (allowed : ℕ) (ops : List Operation) (s : ApprovalState)
    → All (Agrees allowed) s.submissions
    → All (Agrees allowed) (run allowed ops s).1.submissions
run-Agrees allowed ops s k =
    run_keeps allowed (All (Agrees allowed)) (Agrees-IsKept allowed) ops s k
