-- ===== src/Orchestrator/Submission.antt =====
-- application/orchestrator.py: what is handed in to Moodle.
use moodle_autotask.Orchestrator.Steps.{method_rules, Steps-set_state}
use moodle_autotask.Exec.Steps.{IsPreorder, Steps, Steps-raise, Steps-modify}
use moodle_autotask.Lifecycle.Runs.{transition-cases}
use moodle_autotask.Exec.{◌>>=◌, continue, modify}
use moodle_autotask.Lifecycle.{transition, TaskState, submitting, completed}
use moodle_autotask.Base.{
  ◌≡◌, refl, ◌∙◌, inl, inr, true, false, Option, none, some, List, [], ◌∷◌, arith, holds,
  Bool-cases, Result, Result-cases, ok, err,
}
use moodle_autotask.Models.{
  TaskId, WorkflowRevision, ApprovalRecord, submit, SubmissionIntent, SubmissionIntent-discrete,
}
use moodle_autotask.Orchestrator.Checks.{Matches, not_mismatch, not_foreign}
use moodle_autotask.Orchestrator.{
  Orchestrator, approve_submission, check_transition, or_refused, validate_approval, is_mismatch,
  is_foreign, Ports, submit_approved, set_state, call_submit, or_port_failed, PortError,
  SubmissionReceipt, submitted, submit_intent, OrchestratorError,
}
use moodle_autotask.Orchestrator.Spares.{submits, may_submit, Spares}

-- The approval of exactly this intent, for the task and the revision of the orchestrator.
pub record Authorizes (t : TaskId) (v : WorkflowRevision) (a : ApprovalRecord)
    (i : SubmissionIntent) : Type 0 where
  pub approved : a.approved ≡ true
  pub checkpoint : a.checkpoint ≡ submit
  pub task : a.task_id ≡ t
  pub revision : a.workflow_revision ≡ v
  pub digest : a.digest ≡ i.submission_digest
  pub intent_task : i.task_id ≡ t
  pub intent_revision : i.workflow_revision ≡ v

-- `P` holds of the approval and the intent that are stored, if both are.
abbrev pub Stored :
    (ApprovalRecord → SubmissionIntent → Type 0)
    → Option ApprovalRecord
    → Option SubmissionIntent
    → Type 0
Stored P (some a) (some i) = P a i
Stored P _ _ = Unit

-- At most one call of the submitter, and if there is one, with the intent that is stored.
abbrev pub Once : List SubmissionIntent → Option ApprovalRecord → Option SubmissionIntent → Type 0
Once [] _ _ = Unit
Once (i ∷ []) (some _) (some j) = i ≡ j
Once _ _ _ = ⊥

pub record SubmitInv (P : ApprovalRecord → SubmissionIntent → Type 0) (o : Orchestrator)
    : Type 0 where
  pub stored : Stored P o.submit_approval o.approved_submission_intent
  pub none_yet : may_submit o.state ≡ true → submits o.log ≡ []
  pub once : Once (submits o.log) o.submit_approval o.approved_submission_intent

pub Spares-SubmitInv :
    {P : ApprovalRecord → SubmissionIntent → Type 0} (o o' : Orchestrator)
    → Spares o o'
    → SubmitInv P o
    → SubmitInv P o'
Spares-SubmitInv o o' s h = record {
  stored = rw (s.approval, s.intent) h.stored;
  none_yet = λ m. s.calls ∙ h.none_yet (s.onward m);
  once = rw (s.approval, s.intent, s.calls) h.once;
}

submit_from : (s : TaskState) → transition s submitting ≡ ok submitting → may_submit s ≡ true
unfolding transition
submit_from s h = ground arith

authorizes :
    (o : Orchestrator) (a : ApprovalRecord) (i : SubmissionIntent)
    → Matches o a submit i.submission_digest
    → (i.task_id ≡ o.task_id) × (i.workflow_revision ≡ o.workflow_revision)
    → Authorizes o.task_id o.workflow_revision a i
authorizes o a i m f = record {
  approved = m.approved;
  checkpoint = m.checkpoint;
  task = m.task;
  revision = m.revision;
  digest = m.digest;
  intent_task = f.0;
  intent_revision = f.1;
}

pub approve_submission-SubmitInv :
    {P : ApprovalRecord → SubmissionIntent → Type 0} (a : ApprovalRecord) (i : SubmissionIntent)
    (o : Orchestrator)
    → (Authorizes o.task_id o.workflow_revision a i → P a i)
    → SubmitInv P o
    → SubmitInv P (approve_submission a i o).1
unfolding approve_submission check_transition or_refused validate_approval ◌>>=◌
approve_submission-SubmitInv {P} a i o vouch h = elim (transition-cases o.state submitting) [
  | inr e ↦ rw (e, continue, or_refused) h
  | inl e ↦ elim (Bool-cases (is_mismatch o a submit i.submission_digest)) [
    | inl m ↦ rw (e, m) h
    | inr m ↦ elim (Bool-cases (is_foreign o i.task_id i.workflow_revision)) [
      | inl f ↦ rw (e, m, f) h
      | inr f ↦
          rw (e, m, f)
            (record {
              stored = vouch (authorizes o a i (not_mismatch o a submit _ m) (not_foreign o _ _ f));
              none_yet = λ _. h.none_yet (submit_from o.state e);
              once = rw (h.none_yet (submit_from o.state e)) tt;
            })
    ]
  ]
]

submit_completes : transition submitting completed ≡ ok completed
unfolding transition
submit_completes = refl

module _ (ports : Ports) {P : ApprovalRecord → SubmissionIntent → Type 0} where
  after_submit :
      (a : ApprovalRecord) (i : SubmissionIntent) (o : Orchestrator) (s : TaskState)
      (r : Result PortError SubmissionReceipt)
      → may_submit s ≡ false
      → o.submit_approval ≡ some a
      → o.approved_submission_intent ≡ some i
      → submits o.log ≡ []
      → SubmitInv P o
      → SubmitInv P (record o { state = s; log = submitted i r ∷ o.log })
  after_submit a i o s r past ea ei n h = record {
    stored = h.stored;
    none_yet = λ m. cc;
    once = rw (n, ea, ei) refl;
  }

  submit_stored-SubmitInv :
      (a : ApprovalRecord) (i : SubmissionIntent) (o : Orchestrator)
      → o.submit_approval ≡ some a
      → o.approved_submission_intent ≡ some i
      → SubmitInv P o
      → SubmitInv P (submit_approved ports (some a) (some i) i o).1
  unfolding submit_approved set_state check_transition or_refused or_port_failed validate_approval
      ◌>>=◌ call_submit
  submit_stored-SubmitInv a i o ea ei h =
      elim (Bool-cases (holds (SubmissionIntent-discrete i i))) [
        | inr n ↦ rw n h
        | inl y ↦ elim (Bool-cases (is_mismatch o a submit i.submission_digest)) [
          | inl m ↦ rw (y, m) h
          | inr m ↦ elim (Bool-cases (is_foreign o i.task_id i.workflow_revision)) [
            | inl f ↦ rw (y, m, f) h
            | inr f ↦ elim (transition-cases o.state submitting) [
              | inr e ↦ rw (y, m, f, e) h
              | inl e ↦ elim (Result-cases (ports.submit o.log i)) [
                | inl (r, q) ↦
                    rw (y, m, f, e, q, submit_completes)
                      (after_submit a i o completed (ok r) refl ea ei
                        (h.none_yet (submit_from o.state e)) h)
                | inr (x, q) ↦
                    rw (y, m, f, e, q)
                      (after_submit a i o submitting (err x) refl ea ei
                        (h.none_yet (submit_from o.state e)) h)
              ]
            ]
          ]
        ]
      ]

  submit_other-SubmitInv :
      (a : ApprovalRecord) (i j : SubmissionIntent) (o : Orchestrator)
      → ¬ (i ≡ j)
      → SubmitInv P o
      → SubmitInv P (submit_approved ports (some a) (some j) i o).1
  unfolding submit_approved ◌>>=◌
  submit_other-SubmitInv a i j o n h =
      let e : holds (SubmissionIntent-discrete i j) ≡ false = ground arith in rw e h

  submit_approved-SubmitInv :
      (sa : Option ApprovalRecord) (si : Option SubmissionIntent) (i : SubmissionIntent)
      (o : Orchestrator)
      → o.submit_approval ≡ sa
      → o.approved_submission_intent ≡ si
      → SubmitInv P o
      → SubmitInv P (submit_approved ports sa si i o).1
  unfolding submit_approved ◌>>=◌
  submit_approved-SubmitInv (some a) (some j) i o ea ei h = elim (SubmissionIntent-discrete i j) [
    | no n ↦ submit_other-SubmitInv a i j o n h
    | yes e ↦ rw (← e) (submit_stored-SubmitInv a i o ea (rw e ei) h)
  ]
  submit_approved-SubmitInv (some a) none i o ea ei h = h
  submit_approved-SubmitInv none si i o ea ei h = h

-- The methods of a submission leave the identity of the task alone.
abbrev pub SameTask : Orchestrator → Orchestrator → Type 0
SameTask o o' = (o'.task_id ≡ o.task_id) × (o'.workflow_revision ≡ o.workflow_revision)

SameTask-preorder : IsPreorder SameTask
SameTask-preorder = record {
  stays = λ s. (refl, refl);
  goes_on = λ s t u h k. (k.0 ∙ h.0, k.1 ∙ h.1);
}

set_state-SameTask : (s : TaskState) → Steps SameTask (set_state s)
set_state-SameTask s = Steps-set_state s SameTask-preorder (λ o u e. (refl, refl))

store_approval-SameTask :
    (a : ApprovalRecord) (i : SubmissionIntent)
    → Steps {E = OrchestratorError} SameTask
        (modify (λ o. record o { submit_approval = some a; approved_submission_intent = some i }))
store_approval-SameTask a i = Steps-modify _ (λ o. (refl, refl))

pub approve_submission-SameTask :
    (a : ApprovalRecord) (i : SubmissionIntent) → Steps SameTask (approve_submission a i)
unfolding approve_submission
approve_submission-SameTask a i =
    search (method_rules, SameTask-preorder, store_approval-SameTask) depth 12

module _ (ports : Ports) where
  call_submit-SameTask : (i : SubmissionIntent) → Steps SameTask (call_submit ports i)
  unfolding call_submit
  call_submit-SameTask i = record { at = λ o. (refl, refl) }

  submit_approved-SameTask :
      (sa : Option ApprovalRecord) (si : Option SubmissionIntent) (i : SubmissionIntent)
      → Steps SameTask (submit_approved ports sa si i)
  unfolding submit_approved
  submit_approved-SameTask (some a) (some j) i =
      search (method_rules, SameTask-preorder, set_state-SameTask, call_submit-SameTask) depth 12
  submit_approved-SameTask (some a) none i = Steps-raise _ SameTask-preorder
  submit_approved-SameTask none si i = Steps-raise _ SameTask-preorder

  pub submit_intent-SameTask : (i : SubmissionIntent) → Steps SameTask (submit_intent ports i)
  unfolding submit_intent
  submit_intent-SameTask i = record {
    at = λ o. (submit_approved-SameTask o.submit_approval o.approved_submission_intent i).at o;
  }

  pub submit_intent-SubmitInv :
      {P : ApprovalRecord → SubmissionIntent → Type 0} (i : SubmissionIntent) (o : Orchestrator)
      → SubmitInv P o
      → SubmitInv P (submit_intent ports i o).1
  unfolding submit_intent
  submit_intent-SubmitInv i o h =
      submit_approved-SubmitInv ports o.submit_approval o.approved_submission_intent i o refl refl h
