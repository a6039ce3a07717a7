-- ===== src/Worker/Submit/Once.antt =====
-- adapters/aws/worker.py: how often one cycle changes a submission at Moodle.
use moodle_autotask.Base.{
  ℕ, ◌+◌, ◌≤◌, String, refl, ◌≢◌, Bool, true, false, Option, none, some, arith, Result, ok, err,
}
use moodle_autotask.Exec.{◌>>=◌}
use moodle_autotask.Worker.Submit.{
  verify, process_phase, save_if_owned, give_up, process_claimed, process_submission, recover_save,
  receipt_reference, confirm_ambiguous, finalize_if_owned, finalize_verified, finalize_unless_done,
  confirm, confirm_or_fail, finalize_draft, fail_with, after_save, try_finalize,
  after_lost_finalize, complete_with, try_save, after_finalize, finalize_submission, usable,
  recover_finalize,
}
use moodle_autotask.Worker.Types.{
  SubmissionManifest, Phase, SubmissionClaim, Receipt, Error, CycleResult, Log, Environment,
}
use moodle_autotask.Worker.Submit.Counts.{
  Adds, saves, finalizes, uploads, quiet_rules, Adds-quiet, Adds-if, Adds-then, Adds-bind,
  Adds-catch, record_submission_finalizing-Adds, verify-Adds, claim_submission-Adds,
  verify_draft-Adds, upload-Adds, finalize-Adds, save-Adds, Adds-pure, record_submission_draft-Adds,
}

module _ (env : Environment) where
  fail_with-Adds : (c : SubmissionClaim) (code : CycleResult) → Adds 0 0 0 (fail_with env c code)
  unfolding fail_with
  fail_with-Adds c code = search quiet_rules

  complete_with-Adds :
      (c : SubmissionClaim) (t : Option String) → Adds 0 0 0 (complete_with env c t)
  unfolding complete_with
  complete_with-Adds c none = search quiet_rules
  complete_with-Adds c (some t) = search quiet_rules

  confirm-Adds : (c : SubmissionClaim) (r : Receipt) → Adds 0 0 0 (confirm env c r)
  unfolding confirm
  confirm-Adds c r = complete_with-Adds c (usable r)

  confirm_or_fail-Adds :
      (c : SubmissionClaim) (code : CycleResult) (r : Option Receipt)
      → Adds 0 0 0 (confirm_or_fail env c code r)
  unfolding confirm_or_fail
  confirm_or_fail-Adds c code none = fail_with-Adds c code
  confirm_or_fail-Adds c code (some r) = confirm-Adds c r

  after_lost_finalize-Adds :
      (c : SubmissionClaim) (e : Error) (r : Option Receipt)
      → Adds 0 0 0 (after_lost_finalize env c e r)
  unfolding after_lost_finalize
  after_lost_finalize-Adds c e none = search (quiet_rules, fail_with-Adds)
  after_lost_finalize-Adds c e (some r) = confirm-Adds c r

  after_finalize-Adds :
      (c : SubmissionClaim) (r : Result Error Unit) → Adds 0 0 0 (after_finalize env c r)
  unfolding after_finalize recover_finalize
  after_finalize-Adds c (err e) = search (quiet_rules, after_lost_finalize-Adds)
  after_finalize-Adds c (ok _) = search (quiet_rules, confirm_or_fail-Adds)

  try_finalize-Adds : (m : SubmissionManifest) → Adds 0 0 1 (try_finalize env m)
  unfolding try_finalize
  try_finalize-Adds m =
      Adds-catch 0 0 1 _ _
        (Adds-then 0 0 1 0 0 0 _ _ (finalize-Adds env m) (λ _. search quiet_rules))
        (λ e. search quiet_rules)

  finalize_draft-Adds : (c : SubmissionClaim) (b : Bool) → Adds 0 0 1 (finalize_draft env c b)
  unfolding finalize_draft
  finalize_draft-Adds c false = Adds-quiet 0 0 1 (fail_with-Adds c _)
  finalize_draft-Adds c true =
      Adds-then 0 0 1 0 0 0 _ _ (try_finalize-Adds _) (after_finalize-Adds c)

  finalize_unless_done-Adds :
      (c : SubmissionClaim) (r : Option Receipt) → Adds 0 0 1 (finalize_unless_done env c r)
  unfolding finalize_unless_done
  finalize_unless_done-Adds c (some r) = Adds-quiet 0 0 1 (confirm-Adds c r)
  finalize_unless_done-Adds c none =
      Adds-bind 0 0 1 _ _ (verify_draft-Adds env _) (finalize_draft-Adds c)

  finalize_submission-Adds : (c : SubmissionClaim) → Adds 0 0 1 (finalize_submission env c)
  unfolding finalize_submission
  finalize_submission-Adds c = Adds-bind 0 0 1 _ _ (verify-Adds env _) (finalize_unless_done-Adds c)

  finalize_if_owned-Adds : (c : Option SubmissionClaim) → Adds 0 0 1 (finalize_if_owned env c)
  unfolding finalize_if_owned
  finalize_if_owned-Adds none = search quiet_rules
  finalize_if_owned-Adds (some c) = finalize_submission-Adds c

  finalize_verified-Adds :
      (c : SubmissionClaim) (code : CycleResult) (b : Bool)
      → Adds 0 0 1 (finalize_verified env c code b)
  unfolding finalize_verified
  finalize_verified-Adds c code false = Adds-quiet 0 0 1 (fail_with-Adds c code)
  finalize_verified-Adds c code true =
      Adds-bind 0 0 1 _ _ (record_submission_finalizing-Adds env c) finalize_if_owned-Adds

  confirm_ambiguous-Adds :
      (c : SubmissionClaim) (t : Option String) → Adds 0 0 0 (confirm_ambiguous env c t)
  unfolding confirm_ambiguous
  confirm_ambiguous-Adds c none = fail_with-Adds c _
  confirm_ambiguous-Adds c (some t) = complete_with-Adds c (some t)

  confirm_receipt-Adds :
      (c : SubmissionClaim)
      → Adds 0 0 1
          (verify env c.manifest >>= λ receipt. confirm_ambiguous env c (receipt_reference receipt))
  confirm_receipt-Adds c = Adds-quiet 0 0 1 (
      Adds-bind 0 0 0 _ _ (verify-Adds env _) (λ r. confirm_ambiguous-Adds c (receipt_reference r)))

  after_save-Adds : (c : SubmissionClaim) (r : Result Error Unit) → Adds 0 0 1 (after_save env c r)
  unfolding after_save recover_save
  after_save-Adds c (err e) =
      search (quiet_rules, finalize_verified-Adds, confirm_receipt-Adds) depth 6
  after_save-Adds c (ok _) =
      Adds-if 0 0 1 _ _ _
        (Adds-bind 0 0 1 _ _ (verify_draft-Adds env _) (finalize_verified-Adds c _))
        (Adds-quiet 0 0 1 (Adds-bind 0 0 0 _ _ (verify-Adds env _) (confirm_or_fail-Adds c _)))

  try_save-Adds : (m : SubmissionManifest) (i : ℕ) → Adds 0 1 0 (try_save env m i)
  unfolding try_save
  try_save-Adds m i =
      Adds-catch 0 1 0 _ _ (Adds-then 0 1 0 0 0 0 _ _ (save-Adds env m i) (λ _. search quiet_rules))
        (λ e. search quiet_rules)

  save_if_owned-Adds : (i : ℕ) (c : Option SubmissionClaim) → Adds 0 1 1 (save_if_owned env i c)
  unfolding save_if_owned
  save_if_owned-Adds i none = search quiet_rules
  save_if_owned-Adds i (some c) = Adds-then 0 1 0 0 0 1 _ _ (try_save-Adds _ i) (after_save-Adds c)

  -- A claim that recovers an earlier attempt, in `saving` or in `finalizing`, uploads and saves
  -- nothing.
  recovery-Adds :
      (p : Phase) (c : SubmissionClaim) → p ≢ Phase.uploading → Adds 0 0 1 (process_phase env p c)
  unfolding process_phase
  recovery-Adds Phase.uploading c n = absurd (n refl)
  recovery-Adds Phase.finalizing c n = finalize_submission-Adds c
  recovery-Adds Phase.saving c n =
      Adds-if 0 0 1 _ _ _
        (Adds-bind 0 0 1 _ _ (verify_draft-Adds env _) (finalize_verified-Adds c _))
        (Adds-quiet 0 0 1 (Adds-bind 0 0 0 _ _ (verify-Adds env _) (confirm_or_fail-Adds c _)))

  give_up-Adds : (c : SubmissionClaim) (e : Error) → Adds 0 0 0 (give_up env c e)
  unfolding give_up
  give_up-Adds c e = search quiet_rules

  process_phase-Adds : (p : Phase) (c : SubmissionClaim) → Adds 1 1 1 (process_phase env p c)
  process_phase-Adds Phase.saving c = record {
    at = λ log. omega (arith, (recovery-Adds Phase.saving c (λ e. cc)).at log);
  }
  process_phase-Adds Phase.finalizing c = record {
    at = λ log. omega (arith, (recovery-Adds Phase.finalizing c (λ e. cc)).at log);
  }
  process_phase-Adds Phase.uploading c =
      unfold process_phase in
      Adds-then 1 0 0 0 1 1 _ _ (upload-Adds env _)
        (λ i. Adds-bind 0 1 1 _ _ (record_submission_draft-Adds env c i) (save_if_owned-Adds i))

  process_claimed-Adds : (c : Option SubmissionClaim) → Adds 1 1 1 (process_claimed env c)
  unfolding process_claimed
  process_claimed-Adds none = search quiet_rules
  process_claimed-Adds (some c) =
      Adds-then 1 1 1 0 0 0 _ _
        (Adds-catch 1 1 1 _ _ (process_phase-Adds c.phase c) (give_up-Adds c))
        (λ _. search quiet_rules)

  -- One cycle of the worker uploads, saves and finalizes a submission at most once each, whatever
  -- the calls return or raise.
  pub cycle_mutates_once :
      (log : Log)
      → (uploads (process_submission env log).1 ≤ uploads log + 1)
        × (saves (process_submission env log).1 ≤ saves log + 1)
        × (finalizes (process_submission env log).1 ≤ finalizes log + 1)
  unfolding process_submission
  cycle_mutates_once log =
      (Adds-bind 1 1 1 _ _ (claim_submission-Adds env) process_claimed-Adds).at log

  -- A cycle that finds a claim in the phase `saving` or `finalizing`, that is one whose upload has
  -- been recorded, makes no upload and no save, and at most one finalization.
  pub recovery_repeats_nothing :
      (c : SubmissionClaim) (log : Log)
      → c.phase ≢ Phase.uploading
      → let log' = (process_claimed env (some c) log).1 in
        (uploads log' ≤ uploads log)
        × (saves log' ≤ saves log)
        × (finalizes log' ≤ finalizes log + 1)
  unfolding process_claimed
  recovery_repeats_nothing c log n = omega (
    arith,
    (Adds-then 0 0 1 0 0 0 _ _ (Adds-catch 0 0 1 _ _ (recovery-Adds c.phase c n) (give_up-Adds c))
          (λ r. Adds-pure 0 0 0 (some r))).at
        log,
  )
