-- ===== src/Orchestrator/Authorized.antt =====
-- application/orchestrator.py: submissions over all the calls that a caller can make.
use mathlib.Core.List.{Memᴰ}
use moodle_autotask.Base.{◌≡◌, refl, subst₂, ◌∙◌, ◌⊎◌, inl, inr, Option, none, some, List, [], ◌∷◌}
use moodle_autotask.Models.{TaskId, WorkflowRevision, ApprovalRecord, SubmissionIntent}
use moodle_autotask.Orchestrator.{Orchestrator, Ports}
use moodle_autotask.Orchestrator.Runs.{
  Op, request_start, approve, provision, run_agent, request_submit, approve_submit, hand_in, clean,
  new, apply, run,
}
use moodle_autotask.Orchestrator.Spares.{
  submits, Spares, request_start_approval-Spares, approve_start-Spares, provision_lab-Spares,
  execute-Spares, request_submit_approval-Spares, cleanup-Spares,
}
use moodle_autotask.Orchestrator.Submission.{
  Authorizes, SubmitInv, Spares-SubmitInv, Stored, Once, approve_submission-SameTask,
  approve_submission-SubmitInv, submit_intent-SameTask, submit_intent-SubmitInv,
}

-- The approval and the intent come from a call of `approve_submission`, and fit.
abbrev Vouched : List Op → TaskId → WorkflowRevision → ApprovalRecord → SubmissionIntent → Type 0
Vouched past t v a i = Memᴰ (approve_submit a i) past × Authorizes t v a i

record RunInv (past : List Op) (t : TaskId) (v : WorkflowRevision) (o : Orchestrator) : Type 0 where
  task : o.task_id ≡ t
  revision : o.workflow_revision ≡ v
  submission : SubmitInv (Vouched past t v) o

Stored-map :
    {P Q : ApprovalRecord → SubmissionIntent → Type 0}
    → ((a : ApprovalRecord) (i : SubmissionIntent) → P a i → Q a i)
    → (sa : Option ApprovalRecord) (si : Option SubmissionIntent) → Stored P sa si
    → Stored Q sa si
Stored-map f (some a) (some i) h = f a i h
Stored-map f (some a) none h = tt
Stored-map f none si h = tt

RunInv-later :
    (op : Op) (past : List Op) (t : TaskId) (v : WorkflowRevision) (o : Orchestrator)
    → RunInv past t v o
    → RunInv (op ∷ past) t v o
RunInv-later op past t v o h = record {
  task = h.task;
  revision = h.revision;
  submission = record {
    stored =
        Stored-map (λ a i p. (Memᴰ.tail p.0, p.1)) o.submit_approval o.approved_submission_intent
          h.submission.stored;
    none_yet = h.submission.none_yet;
    once = h.submission.once;
  };
}

Spares-RunInv :
    (past : List Op) (t : TaskId) (v : WorkflowRevision) (o o' : Orchestrator)
    → Spares o o'
    → RunInv past t v o
    → RunInv past t v o'
Spares-RunInv past t v o o' s h = record {
  task = s.task ∙ h.task;
  revision = s.revision ∙ h.revision;
  submission = Spares-SubmitInv o o' s h.submission;
}

module _ (ports : Ports) (past : List Op) (t : TaskId) (v : WorkflowRevision)
    (o : Orchestrator) where
  apply-RunInv : (op : Op) → RunInv past t v o → RunInv (op ∷ past) t v (apply ports op o)
  unfolding apply
  apply-RunInv request_start h =
      RunInv-later _ past t v _ (Spares-RunInv past t v o _ (request_start_approval-Spares.at o) h)
  apply-RunInv (approve a d) h =
      RunInv-later _ past t v _ (Spares-RunInv past t v o _ ((approve_start-Spares a d).at o) h)
  apply-RunInv (provision r k) h =
      RunInv-later _ past t v _
        (Spares-RunInv past t v o _ ((provision_lab-Spares ports r k).at o) h)
  apply-RunInv (run_agent r) h =
      RunInv-later _ past t v _ (Spares-RunInv past t v o _ ((execute-Spares ports r).at o) h)
  apply-RunInv request_submit h =
      RunInv-later _ past t v _ (Spares-RunInv past t v o _ (request_submit_approval-Spares.at o) h)
  apply-RunInv (clean k) h =
      RunInv-later _ past t v _ (Spares-RunInv past t v o _ ((cleanup-Spares ports k).at o) h)
  apply-RunInv (approve_submit a i) h =
      let later = RunInv-later (approve_submit a i) past t v o h in
      record {
        task = ((approve_submission-SameTask a i).at o).0 ∙ h.task;
        revision = ((approve_submission-SameTask a i).at o).1 ∙ h.revision;
        submission =
            approve_submission-SubmitInv a i o
              (λ ok_for.
                (Memᴰ.head refl, subst₂ (λ x y. Authorizes x y a i) h.task h.revision ok_for))
              later.submission;
      }
  apply-RunInv (hand_in i) h =
      let later = RunInv-later (hand_in i) past t v o h in
      record {
        task = ((submit_intent-SameTask ports i).at o).0 ∙ h.task;
        revision = ((submit_intent-SameTask ports i).at o).1 ∙ h.revision;
        submission = submit_intent-SubmitInv ports i o later.submission;
      }

run-RunInv :
    (ports : Ports) (ops : List Op) (t : TaskId) (v : WorkflowRevision)
    → RunInv ops t v (run ports ops (new t v))
unfolding run
run-RunInv ports [] t v = record {
  task = refl;
  revision = refl;
  submission = record { stored = tt; none_yet = λ _. refl; once = tt };
}
run-RunInv ports (op ∷ past) t v =
    apply-RunInv ports past t v (run ports past (new t v)) op (run-RunInv ports past t v)

-- What the invariant says of the calls of the submitter.
Once-authorized :
    {P : ApprovalRecord → SubmissionIntent → Type 0} (is : List SubmissionIntent)
    (sa : Option ApprovalRecord) (si : Option SubmissionIntent)
    → Stored P sa si
    → Once is sa si
    → (is ≡ []) ⊎ ((a : ApprovalRecord) × (i : SubmissionIntent) × (is ≡ i ∷ []) × P a i)
Once-authorized [] sa si p h = inl refl
Once-authorized (i ∷ []) (some a) (some j) p h = inr (a, j, rw h refl, p)
Once-authorized (i ∷ []) (some a) none p h = absurd h
Once-authorized (i ∷ []) none si p h = absurd h
Once-authorized (i ∷ j ∷ is) sa si p h = absurd h

-- Whatever calls a caller makes of a new orchestrator, in whatever order, and whatever the ports
-- answer: the submitter is called at most once, and if it is, then with an intent for which the
-- caller has called `approve_submission` with an approval that is positive, is for the submit
-- checkpoint, and names the task, the revision and the intent's digest; the intent names the same
-- task and revision.
pub submits_authorized :
    (ports : Ports) (ops : List Op) (t : TaskId) (v : WorkflowRevision)
    → (submits (run ports ops (new t v)).log ≡ [])
      ⊎ ((a : ApprovalRecord) × (i : SubmissionIntent) × (submits (run ports ops (new t v)).log
            ≡ i ∷ [])
          × (Memᴰ (approve_submit a i) ops × Authorizes t v a i))
submits_authorized ports ops t v =
    let h = (run-RunInv ports ops t v).submission in
    let o = run ports ops (new t v) in
    Once-authorized (submits o.log) o.submit_approval o.approved_submission_intent h.stored h.once
