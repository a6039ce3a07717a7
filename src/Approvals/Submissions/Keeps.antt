-- ===== src/Approvals/Submissions/Keeps.antt =====
-- adapters/moodle/approval_state.py: what every call leaves true of the table of the submissions,
-- from what its statements leave true.
use moodle_autotask.Base.{
  ℕ, ◌+◌, ◌<◌, String, ◌≡◌, refl, subst, inl, inr, ◌&&◌, Option, none, some, List, [], ◌∷◌, arith,
  dec_lt, ◌==◌, Bool-cases, Option-cases, any, Result, Result-cases, ok, err,
}
use moodle_autotask.Table.{first_of, update_where, select_one}
use moodle_autotask.Events.{NotificationEvent}
use moodle_autotask.Approvals.{
  SubmissionManifest, Phase, SubmissionClaim, SubmissionStatus, Submission, ApprovalState, Outcome,
  after, guard, ◌>>=◌, StateError, SubmissionAction, found, positive_id, insert_callbacks,
}
use moodle_autotask.Approvals.Submissions.{
  Resolution, has_event, has_token, has_assignment, is_supported, is_request_for, same_action,
  actions, buttons, is_awaited, set_decided, decide, resolve_status, resolve_submission,
  prepare_submission, store_manifest, is_stale_upload, set_approved, is_claimable, new_submission,
}
use moodle_autotask.Approvals.Submissions.Claims.{
  precedes, is_takeable, set_taken, is_owned_in, set_draft, set_finalizing, is_finishable,
  set_finished, record_submission_draft, record_submission_finalizing, finish_submission,
  claim_submission, take_submission, take_found, release_uploads, complete_submission,
  fail_submission, mark_submission_notification_delivered,
}
use moodle_autotask.Approvals.Submissions.Operations.{
  Operation, call_prepare, call_resolve, call_claim, call_draft, call_finalizing, call_complete,
  call_fail, call_delivered, Achieved, achieved, apply, run,
}

-- `P` holds after each statement that writes to the table, if it held before.
pub record IsKept (allowed : ℕ) (P : List Submission → Type 0) : Type 0 where
  pub inserted :
      (m : SubmissionManifest) (moment : ℕ) (rows : List Submission)
      → select_one (has_event m.event.event_id) rows ≡ none
      → P rows
      → P (new_submission m moment ∷ rows)
  pub approved :
      (user_id moment : ℕ) (id : String) (rows : List Submission)
      → user_id ≡ allowed
      → P rows
      → P (update_where (is_awaited id) (set_decided SubmissionStatus.approved user_id moment) rows)
  pub declined :
      (user_id moment : ℕ) (id : String) (rows : List Submission)
      → user_id ≡ allowed
      → P rows
      → P (update_where (is_awaited id) (set_decided SubmissionStatus.declined user_id moment) rows)
  pub released :
      (moment : ℕ) (rows : List Submission)
      → P rows
      → P (update_where (is_stale_upload moment) set_approved rows)
  pub taken :
      (moment : ℕ) (id token : String) (expires_at : ℕ) (rows : List Submission)
      → P rows
      → P (update_where (is_takeable moment id) (set_taken token expires_at) rows)
  pub drafted :
      (c : SubmissionClaim) (item moment : ℕ) (rows : List Submission)
      → 0 < item
      → P rows
      → P (update_where (is_owned_in c Phase.uploading moment) (set_draft item) rows)
  pub finalized :
      (c : SubmissionClaim) (moment : ℕ) (rows : List Submission)
      → P rows
      → P (update_where (is_owned_in c Phase.saving moment) set_finalizing rows)
  pub submitted :
      (c : SubmissionClaim) (reference : String) (moment : ℕ) (rows : List Submission)
      → P rows
      → P (
          update_where
            (is_finishable c moment)
            (set_finished SubmissionStatus.submitted (some reference) none)
            rows)
  pub failed :
      (c : SubmissionClaim) (code : String) (moment : ℕ) (rows : List Submission)
      → P rows
      → P (
          update_where
            (is_finishable c moment)
            (set_finished SubmissionStatus.failed none (some code))
            rows)

-- Through a step that may raise, and through a change of the result.
module _ {A B : Type 0} (P : List Submission → Type 0) (s : ApprovalState) where
  through :
      (m : Result StateError B) (f : B → Outcome A)
      → P s.submissions
      → ((b : B) → m ≡ ok b → P (after s (f b)).submissions)
      → P (after s (m >>= f)).submissions
  through (ok b) f k h = h b refl
  through (err x) f k h = k

  mapped :
      (m : Outcome B) (f : B → A)
      → P (after s m).submissions
      → P (after s (m >>= λ (b, s'). ok (f b, s'))).submissions
  mapped (ok (b, s')) f h = h
  mapped (err x) f h = h

module _ (allowed : ℕ) (P : List Submission → Type 0) (kept : IsKept allowed P) where
  draft_keeps :
      (c : SubmissionClaim) (item moment : ℕ) (s : ApprovalState)
      → P s.submissions
      → P (after s (record_submission_draft c item moment s)).submissions
  unfolding record_submission_draft
  draft_keeps c item moment s k = elim (dec_lt 0 item) [
    | yes h ↦ let step = kept.drafted c item moment s.submissions h k in ground (arith, step)
    | no h ↦ ground arith
  ]

  finalizing_keeps :
      (c : SubmissionClaim) (moment : ℕ) (s : ApprovalState)
      → P s.submissions
      → P (after s (record_submission_finalizing c moment s)).submissions
  unfolding record_submission_finalizing
  finalizing_keeps c moment s k =
      let step = kept.finalized c moment s.submissions k in ground (arith, step)

  finish_keeps :
      (c : SubmissionClaim) (status : SubmissionStatus) (reference code : Option String)
      (moment : ℕ) (s : ApprovalState)
      → P (update_where (is_finishable c moment) (set_finished status reference code) s.submissions)
      → P s.submissions
      → P (after s (finish_submission c status reference code moment s)).submissions
  unfolding finish_submission
  finish_keeps c status reference code moment s step k = ground (arith, step)

  complete_keeps :
      (c : SubmissionClaim) (reference : String) (moment : ℕ) (s : ApprovalState)
      → P s.submissions
      → P (after s (complete_submission c reference moment s)).submissions
  unfolding complete_submission
  complete_keeps c reference moment s k =
      let rest =
        finish_keeps c SubmissionStatus.submitted (some reference) none moment s
          (kept.submitted c reference moment s.submissions k) k in
      ground (arith, rest)

  fail_keeps :
      (c : SubmissionClaim) (error_code : String) (moment : ℕ) (s : ApprovalState)
      → P s.submissions
      → P (after s (fail_submission c error_code moment s)).submissions
  unfolding fail_submission
  fail_keeps c error_code moment s k =
      let rest =
        finish_keeps c SubmissionStatus.failed none (some error_code) moment s
          (kept.failed c error_code moment s.submissions k) k in
      ground (arith, rest)

  take_keeps :
      (token : String) (lease_seconds moment : ℕ) (s : ApprovalState) (o : Option Submission)
      → P s.submissions
      → P (after s (take_found token lease_seconds moment s o)).submissions
  unfolding take_submission
  take_keeps token lease_seconds moment s none k = k
  take_keeps token lease_seconds moment s (some r) k = elim (Option-cases r.manifest) [
    | inl n ↦ rw n k
    | inr (m, e) ↦
        let step =
          kept.taken moment m.event.event_id token (moment + lease_seconds) s.submissions k in
        ground (arith, step)
  ]

  claim_keeps :
      (owner token : String) (lease_seconds moment : ℕ) (s : ApprovalState)
      → P s.submissions
      → P (after s (claim_submission owner token lease_seconds moment s)).submissions
  unfolding claim_submission
  claim_keeps owner token lease_seconds moment s k =
      let s' = release_uploads moment s in
      let first = kept.released moment s.submissions k in
      let rest =
        take_keeps token lease_seconds moment s'
          (first_of {R = Submission} precedes (is_claimable moment) s'.submissions) first in
      ground (arith, rest)

  decide_keeps :
      (status : SubmissionStatus) (result : Resolution) (user_id moment : ℕ) (id : String)
      (s : ApprovalState)
      → P (update_where (is_awaited id) (set_decided status user_id moment) s.submissions)
      → P s.submissions
      → P (after s (decide status result user_id moment id s)).submissions
  unfolding decide
  decide_keeps status result user_id moment id s step k = ground (arith, step)

  status_keeps :
      (user_id moment : ℕ) (id : String) (s : ApprovalState) (a : SubmissionAction)
      (status : SubmissionStatus)
      → user_id ≡ allowed
      → P s.submissions
      → P (after s (resolve_status user_id moment id s a status)).submissions
  unfolding resolve_status
  status_keeps user_id moment id s SubmissionAction.submit SubmissionStatus.awaiting_approval same
        k =
      decide_keeps SubmissionStatus.approved Resolution.approved user_id moment id s
        (kept.approved user_id moment id s.submissions same k) k
  status_keeps user_id moment id s SubmissionAction.decline SubmissionStatus.awaiting_approval same
        k =
      decide_keeps SubmissionStatus.declined Resolution.declined user_id moment id s
        (kept.declined user_id moment id s.submissions same k) k
  status_keeps user_id moment id s SubmissionAction.details status same k = k
  status_keeps user_id moment id s SubmissionAction.submit SubmissionStatus.approved same k = k
  status_keeps user_id moment id s SubmissionAction.submit SubmissionStatus.declined same k = k
  status_keeps user_id moment id s SubmissionAction.submit (SubmissionStatus.in_phase _) same k = k
  status_keeps user_id moment id s SubmissionAction.submit SubmissionStatus.submitted same k = k
  status_keeps user_id moment id s SubmissionAction.submit SubmissionStatus.failed same k = k
  status_keeps user_id moment id s SubmissionAction.decline SubmissionStatus.declined same k = k
  status_keeps user_id moment id s SubmissionAction.decline SubmissionStatus.approved same k = k
  status_keeps user_id moment id s SubmissionAction.decline (SubmissionStatus.in_phase _) same k = k
  status_keeps user_id moment id s SubmissionAction.decline SubmissionStatus.submitted same k = k
  status_keeps user_id moment id s SubmissionAction.decline SubmissionStatus.failed same k = k

  resolve_keeps :
      (token : String) (user_id moment : ℕ) (s : ApprovalState)
      → P s.submissions
      → P (after s (resolve_submission token user_id allowed moment s)).submissions
  unfolding resolve_submission
  resolve_keeps token user_id moment s k =
      through P s (guard (positive_id user_id && positive_id allowed && user_id == allowed)) _ k
        (λ _ g.
          through P s (found (select_one (has_token token) s.submission_callbacks)) _ k (λ c _.
            through P s (found (select_one (has_event c.event_id) s.submissions)) _ k (λ r _.
              through P s (found r.manifest) _ k (λ m _.
                mapped P s (resolve_status user_id moment m.event.event_id s c.action r.status)
                  (λ result. (result, m))
                  (status_keeps user_id moment m.event.event_id s c.action r.status
                    (ground (arith, g)) k)))))

  store_keeps :
      (m : SubmissionManifest) (moment : ℕ) (tokens : ℕ → String) (s : ApprovalState)
      (o : Option Submission) {s' : ApprovalState}
      → select_one (has_event m.event.event_id) s.submissions ≡ o
      → store_manifest m moment tokens s o ≡ ok s'
      → P s.submissions
      → P s'.submissions
  unfolding store_manifest
  store_keeps m moment tokens s none {s' = s'} missing h k =
      elim (Bool-cases (any (is_request_for m.event.event_id) s.requests)) [
        | inr f ↦ absurd (ground arith)
        | inl t ↦
            elim (Result-cases (
              insert_callbacks same_action m.event.event_id actions tokens
                s.submission_callbacks)) [
                  | inr (x, e) ↦ absurd (ground arith)
                  | inl (cs, e) ↦
                      let same : record s {
                        submissions = new_submission m moment ∷ s.submissions;
                        submission_callbacks = cs;
                      }
                          ≡ s' =
                        ground arith in
                      subst (λ (u : ApprovalState). P u.submissions) same
                        (kept.inserted m moment s.submissions missing k)
                ]
      ]
  store_keeps m moment tokens s (some r) {s' = s'} missing h k =
      let same : s ≡ s' = ground arith in subst (λ (u : ApprovalState). P u.submissions) same k

  prepared :
      (m : SubmissionManifest) (s s' : ApprovalState)
      (r : Result StateError (String × String × String))
      → P s.submissions
      → P s'.submissions
      → P
          (after {A = SubmissionManifest × (String × String × String)} s
            (r >>= λ b. ok ((m, b), s'))).submissions
  prepared m s s' (ok b) k k' = k'
  prepared m s s' (err x) k k' = k

  prepare_keeps :
      (event : NotificationEvent) (built : Option SubmissionManifest) (moment : ℕ)
      (tokens : ℕ → String) (s : ApprovalState)
      → P s.submissions
      → P (after s (prepare_submission event built moment tokens s)).submissions
  unfolding prepare_submission
  prepare_keeps event built moment tokens s k =
      through P s (guard (has_assignment event)) _ k (λ _ _.
        through P s (guard (is_supported event)) _ k (λ _ _. through P s (found built) _ k (λ m _.
          let row = select_one (has_event m.event.event_id) s.submissions in
          through P s (store_manifest m moment tokens s row) _ k (λ s' h.
            prepared m s s' (buttons m.event.event_id s') k
              (store_keeps m moment tokens s row refl h k)))))

  delivered_keeps :
      (id : String) (moment : ℕ) (s : ApprovalState)
      → P s.submissions
      → P (after s (mark_submission_notification_delivered id moment s)).submissions
  unfolding mark_submission_notification_delivered
  delivered_keeps id moment s k = ground arith

  -- What is achieved does not change the tables.
  pub of_after :
      {A : Type 0} (f : A → Achieved) (s : ApprovalState) (r : Outcome A)
      → P (after s r).submissions
      → P (achieved f s r).1.submissions
  of_after f s (ok (a, s')) k = k
  of_after f s (err x) k = k

  -- Every call keeps what the statements keep.
  pub apply_keeps :
      (op : Operation) (s : ApprovalState) → P s.submissions → P (apply allowed op s).1.submissions
  unfolding apply
  apply_keeps (call_prepare event built moment tokens) s k =
      of_after _ s (prepare_submission event built moment tokens s)
        (prepare_keeps event built moment tokens s k)
  apply_keeps (call_resolve token user_id moment) s k =
      of_after _ s (resolve_submission token user_id allowed moment s)
        (resolve_keeps token user_id moment s k)
  apply_keeps (call_claim owner token lease_seconds moment) s k =
      of_after _ s (claim_submission owner token lease_seconds moment s)
        (claim_keeps owner token lease_seconds moment s k)
  apply_keeps (call_draft c item_id moment) s k =
      of_after _ s (record_submission_draft c item_id moment s) (draft_keeps c item_id moment s k)
  apply_keeps (call_finalizing c moment) s k =
      of_after _ s (record_submission_finalizing c moment s) (finalizing_keeps c moment s k)
  apply_keeps (call_complete c reference moment) s k =
      of_after _ s (complete_submission c reference moment s)
        (complete_keeps c reference moment s k)
  apply_keeps (call_fail c error_code moment) s k =
      of_after _ s (fail_submission c error_code moment s) (fail_keeps c error_code moment s k)
  apply_keeps (call_delivered event_id moment) s k =
      of_after _ s (mark_submission_notification_delivered event_id moment s)
        (delivered_keeps event_id moment s k)

  -- So does every sequence of calls.
  pub run_keeps :
      (ops : List Operation) (s : ApprovalState)
      → P s.submissions
      → P (run allowed ops s).1.submissions
  unfolding run
  run_keeps [] s k = k
  run_keeps (op ∷ ops) s k = run_keeps ops (apply allowed op s).1 (apply_keeps op s k)
