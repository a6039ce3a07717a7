-- ===== src/Approvals/Submissions/Claims.antt =====
-- adapters/moodle/approval_state.py: `claim_submission`, and what the holder of a claim records:
-- `record_submission_draft`, `record_submission_finalizing`, `complete_submission` and
-- `fail_submission`. The tokens of leases and of claims have the form that `secrets` gives them.
use moodle_autotask.Base.{
  ℕ, ◌+◌, String, Bool, true, false, not, ◌&&◌, ◌||◌, Option, none, some, List, [], ◌∷◌, ltb, leb,
  ◌==◌, if◌then◌else◌, codes, length, all, any, Result, ok,
}
use moodle_autotask.Table.{update_where, select_one, count, first_of, leb_codes}
use moodle_autotask.Events.{same_text}
use moodle_autotask.Approvals.{
  Phase, SubmissionClaim, SubmissionStatus, Lease, Submission, SubmissionResult, ApprovalState,
  StateError, Outcome, ◌>>=◌, ◌>>◌, guard, found,
}
use moodle_autotask.Approvals.Submissions.{
  has_event, is_expired, is_stale_upload, set_approved, is_claimable, is_late,
}

-- The arguments of a claim of a lease that are not refused.
abbrev pub is_lease_request : String → ℕ → Bool
is_lease_request owner lease_seconds =
    not (same_text owner "")
    && leb (length (codes owner)) 128
    && leb 6 lease_seconds
    && leb lease_seconds 3600

abbrev rank : SubmissionStatus → ℕ
rank (SubmissionStatus.in_phase Phase.saving) = 0
rank (SubmissionStatus.in_phase Phase.finalizing) = 1
rank _ = 2

-- The order of the SELECT of `claim_submission`.
unfoldable pub precedes : Submission → Submission → Bool
unfolding leb_codes
precedes r q =
    ltb (rank r.status) (rank q.status)
    || rank r.status == rank q.status
      && (ltb r.created_at q.created_at
          || r.created_at == q.created_at && leb_codes (codes r.event_id) (codes q.event_id))

abbrev has_manifest : Submission → Bool
has_manifest r = elim r.manifest [ none ↦ false | some _ ↦ true ]

-- The stale attempts have manifests that can be read.
abbrev is_readable : ℕ → Submission → Bool
is_readable moment r = not (is_late r.status && is_expired moment r.lease) || has_manifest r

abbrev positive_item : Option ℕ → Bool
positive_item none = false
positive_item (some n) = ltb 0 n

abbrev pub phase_of : SubmissionStatus → Phase
phase_of (SubmissionStatus.in_phase Phase.saving) = Phase.saving
phase_of (SubmissionStatus.in_phase Phase.finalizing) = Phase.finalizing
phase_of _ = Phase.uploading

abbrev taken : SubmissionStatus → SubmissionStatus
taken SubmissionStatus.approved = SubmissionStatus.in_phase Phase.uploading
taken status = status

abbrev pub set_taken : String → ℕ → Submission → Submission
set_taken token expires_at r = record r {
  status = taken r.status;
  lease = some (record { token = token; expires_at = expires_at });
}

abbrev pub is_takeable : ℕ → String → Submission → Bool
is_takeable moment event_id r = has_event event_id r && is_claimable moment r

-- The end of `claim_submission`, from the row that is found.
unfoldable pub take_submission :
    (token : String) (lease_seconds moment : ℕ)
    → ApprovalState
    → Submission
    → Result StateError (SubmissionClaim × ApprovalState)
unfolding update_where count
take_submission token lease_seconds moment s r = do
  m ← found r.manifest
  guard (not (is_late r.status) || positive_item r.draft_item_id)
  guard (count (is_takeable moment m.event.event_id) s.submissions == 1)
  ok (
    record {
      manifest = m;
      lease_token = token;
      phase = phase_of r.status;
      draft_item_id = r.draft_item_id;
    },
    record s {
      submissions =
          update_where (is_takeable moment m.event.event_id)
            (set_taken token (moment + lease_seconds)) s.submissions;
    },
  )

abbrev pub release_uploads : ℕ → ApprovalState → ApprovalState
release_uploads moment s = record s {
  submissions = update_where (is_stale_upload moment) set_approved s.submissions;
}

abbrev pub take_found :
    String → ℕ → ℕ → ApprovalState → Option Submission → Outcome (Option SubmissionClaim)
take_found token lease_seconds moment s none = ok (none, s)
take_found token lease_seconds moment s (some r) = do
  (c, s') ← take_submission token lease_seconds moment s r
  ok (some c, s')

-- `claim_submission`
unfoldable pub claim_submission :
    (owner token : String) (lease_seconds moment : ℕ)
    → ApprovalState
    → Outcome (Option SubmissionClaim)
unfolding take_submission first_of precedes
claim_submission owner token lease_seconds moment s = do
  guard (is_lease_request owner lease_seconds)
  let s' = release_uploads moment s
  guard (all (is_readable moment) s'.submissions)
  take_found token lease_seconds moment s' (first_of precedes (is_claimable moment) s'.submissions)

abbrev pub is_held : String → ℕ → Option Lease → Bool
is_held token moment none = false
is_held token moment (some l) = same_text l.token token && ltb moment l.expires_at

abbrev same_phase : Phase → Phase → Bool
same_phase Phase.uploading Phase.uploading = true
same_phase Phase.saving Phase.saving = true
same_phase Phase.finalizing Phase.finalizing = true
same_phase _ _ = false

abbrev pub is_in_phase : Phase → SubmissionStatus → Bool
is_in_phase p (SubmissionStatus.in_phase q) = same_phase q p
is_in_phase p _ = false

-- The claim's row, in a phase, while its lease is in force.
abbrev pub is_owned_in : SubmissionClaim → Phase → ℕ → Submission → Bool
is_owned_in c p moment r =
    has_event c.manifest.event.event_id r
    && is_in_phase p r.status
    && is_held c.lease_token moment r.lease

abbrev pub set_draft : ℕ → Submission → Submission
set_draft item r = record r {
  status = SubmissionStatus.in_phase Phase.saving;
  draft_item_id = some item;
}

-- `record_submission_draft`
unfoldable pub record_submission_draft :
    SubmissionClaim → (item_id moment : ℕ) → ApprovalState → Outcome (Option SubmissionClaim)
unfolding update_where count
record_submission_draft c item_id moment s = do
  guard (same_phase c.phase Phase.uploading && ltb 0 item_id)
  if count (is_owned_in c Phase.uploading moment) s.submissions == 1
      then ok (
        some (record c { phase = Phase.saving; draft_item_id = some item_id }),
        record s {
          submissions =
              update_where (is_owned_in c Phase.uploading moment) (set_draft item_id) s.submissions;
        },
      )
      else ok (none, s)

abbrev has_item : Option ℕ → Bool
has_item none = false
has_item (some _) = true

abbrev pub set_finalizing : Submission → Submission
set_finalizing r = record r { status = SubmissionStatus.in_phase Phase.finalizing }

-- `record_submission_finalizing`
unfoldable pub record_submission_finalizing :
    SubmissionClaim → (moment : ℕ) → ApprovalState → Outcome (Option SubmissionClaim)
unfolding update_where count
record_submission_finalizing c moment s = do
  guard (same_phase c.phase Phase.saving && has_item c.draft_item_id)
  if count (is_owned_in c Phase.saving moment) s.submissions == 1
      then ok (
        some (record c { phase = Phase.finalizing }),
        record s {
          submissions =
              update_where (is_owned_in c Phase.saving moment) set_finalizing s.submissions;
        },
      )
      else ok (none, s)

abbrev pub is_attempted : SubmissionStatus → Bool
is_attempted (SubmissionStatus.in_phase _) = true
is_attempted _ = false

abbrev pub is_finishable : SubmissionClaim → ℕ → Submission → Bool
is_finishable c moment r =
    has_event c.manifest.event.event_id r
    && is_attempted r.status
    && is_held c.lease_token moment r.lease

abbrev pub set_finished : SubmissionStatus → Option String → Option String → Submission → Submission
set_finished status reference error_code r = record r {
  status = status;
  lease = none;
  receipt_reference = reference;
  error_code = error_code;
}

-- `_enqueue_submission_notification`
unfoldable pub enqueue_notification :
    String → SubmissionStatus → Option String → ℕ → List SubmissionResult → List SubmissionResult
enqueue_notification event_id status reference moment rows =
    if any (λ (o : SubmissionResult). same_text o.event_id event_id) rows
    then rows
    else record {
      event_id = event_id;
      status = status;
      reference = reference;
      delivered_at = none;
      created_at = moment;
    }
      ∷ rows

abbrev is_decided : Option (ℕ × ℕ) → Bool
is_decided none = false
is_decided (some _) = true

-- `_finish_submission`, with a status and a reference that it does not refuse
unfoldable pub finish_submission :
    SubmissionClaim
    → SubmissionStatus
    → (reference error_code : Option String) → ℕ
    → ApprovalState
    → Outcome Bool
unfolding update_where count enqueue_notification select_one
finish_submission c status reference error_code moment s = do
  r ← found (select_one (has_event c.manifest.event.event_id) s.submissions)
  guard (is_decided r.decided)
  if count (is_finishable c moment) s.submissions == 0
      then ok (false, s)
      else ok (
        true,
        record s {
          submissions =
              update_where (is_finishable c moment) (set_finished status reference error_code)
                s.submissions;
          submission_outbox =
              enqueue_notification c.manifest.event.event_id status reference moment
                s.submission_outbox;
        },
      )

-- `complete_submission`
unfoldable pub complete_submission : SubmissionClaim → String → ℕ → ApprovalState → Outcome Bool
unfolding finish_submission
complete_submission c reference moment s = do
  guard (not (same_text reference ""))
  finish_submission c SubmissionStatus.submitted (some reference) none moment s

-- `[a-z][a-z0-9_]{0,63}`
abbrev is_code_letter : ℕ → Bool
is_code_letter c = leb b'a' c && leb c b'z'

abbrev is_code_part : ℕ → Bool
is_code_part c = is_code_letter c || leb b'0' c && leb c b'9' || c == b'_'

unfoldable pub is_error_code : List ℕ → Bool
is_error_code [] = false
is_error_code (c ∷ cs) = is_code_letter c && all is_code_part cs && leb (length cs) 63

-- `fail_submission`
unfoldable pub fail_submission : SubmissionClaim → String → ℕ → ApprovalState → Outcome Bool
unfolding finish_submission is_error_code
fail_submission c error_code moment s = do
  guard (is_error_code (codes error_code))
  finish_submission c SubmissionStatus.failed none (some error_code) moment s

abbrev is_undelivered : String → SubmissionResult → Bool
is_undelivered event_id o =
    same_text o.event_id event_id && (elim o.delivered_at [ none ↦ true | some _ ↦ false ])

-- `mark_submission_notification_delivered`; a CHECK refuses a time before the row's creation
unfoldable pub mark_submission_notification_delivered : String → ℕ → ApprovalState → Outcome Bool
unfolding update_where
mark_submission_notification_delivered event_id moment s = do
  guard (
      all (λ (o : SubmissionResult). not (is_undelivered event_id o) || leb o.created_at moment)
        s.submission_outbox)
  ok (
    any (is_undelivered event_id) s.submission_outbox,
    record s {
      submission_outbox =
          update_where (is_undelivered event_id) (λ o. record o { delivered_at = some moment })
            s.submission_outbox;
    },
  )
