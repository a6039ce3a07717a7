-- ===== src/Worker/Submit/Evidence.antt =====
-- adapters/aws/worker.py: a submission is reported confirmed only on a receipt from Moodle.
use moodle_autotask.Base.{
  ℕ, String, ◌≡◌, refl, Bool, true, false, Option, none, some, ◌∷◌, arith, if◌then◌else◌, Result,
  ok, err,
}
use moodle_autotask.Exec.{pure, raise, catch, ◌>>=◌, continue, handle}
use moodle_autotask.Worker.Submit.{
  verify, complete_submission, usable, confirm, complete_with, finalize_submission,
  finalize_verified, after_finalize, receipt_reference, finalize_draft, fail_with, after_save,
  save_if_owned, give_up, process_claimed, process_phase, confirm_or_fail, recover_save,
  recover_finalize, finalize_unless_done, confirm_ambiguous, is_caught, finalize_if_owned,
  after_lost_finalize, is_runtime_error,
}
use moodle_autotask.Worker.Types.{
  SubmissionManifest, Phase, SubmissionClaim, Receipt, Error, CycleResult, submission_confirmed,
  submission_ownership_lost, submission_unverified, verified, completed, Log, Environment, Action,
  call,
}

-- The last two calls: Moodle returned a receipt with a usable reference for the manifest of the
-- claim, and the durable state accepted the completion with this reference.
abbrev pub IsConfirmed : Log → Type 0
IsConfirmed (completed c reference (ok true) ∷ verified m (ok (some r)) ∷ _) =
    (usable r ≡ some reference) × (m ≡ c.manifest)
IsConfirmed _ = ⊥

abbrev Evidence : CycleResult → Log → Type 0
Evidence submission_confirmed log = IsConfirmed log
Evidence _ _ = Unit

abbrev EvidenceOf : Result Error CycleResult × Log → Type 0
EvidenceOf (ok a, log) = Evidence a log
EvidenceOf (err _, _) = Unit

record Sound (m : Action CycleResult) : Type 0 where
  at : (log : Log) → EvidenceOf (m log)

-- Of an action that runs after a receipt for this manifest.
record SoundAfter (m : SubmissionManifest) (r : Receipt) (k : Action CycleResult) : Type 0 where
  at : (log : Log) → EvidenceOf (k (verified m (ok (some r)) ∷ log))

Sound-bind :
    {X : Type 0} (m : Action X) (f : X → Action CycleResult)
    → ((x : X) → Sound (f x))
    → Sound (m >>= f)
unfolding ◌>>=◌
Sound-bind {X} m f h = record { at = λ log. go (m log) }
  where
    go : (rs : Result Error X × Log) → EvidenceOf (continue rs.0 f rs.1)
    go (ok x, l) = (h x).at l
    go (err e, l) = tt

Sound-raise : (e : Error) → Sound (raise e)
unfolding raise
Sound-raise e = record { at = λ log. tt }

abbrev is_confirmed : CycleResult → Bool
is_confirmed submission_confirmed = true
is_confirmed _ = false

Sound-pure : (a : CycleResult) → is_confirmed a ≡ false → Sound (pure a)
unfolding pure
Sound-pure submission_confirmed h = absurd (ground arith)
Sound-pure _ h = record { at = λ log. tt }

Sound-if : (b : Bool) (m n : Action CycleResult) → Sound m → Sound n → Sound (if b then m else n)
Sound-if true m n sm sn = sm
Sound-if false m n sm sn = sn

Sound-catch :
    (m : Action CycleResult) (h : Error → Action CycleResult)
    → Sound m
    → ((e : Error) → Sound (h e))
    → Sound (catch m h)
unfolding catch
Sound-catch m h sm sh = record { at = λ log. go (m log) (sm.at log) }
  where
    go : (rs : Result Error CycleResult × Log) → EvidenceOf rs → EvidenceOf (handle rs.0 h rs.1)
    go (ok x, l) p = p
    go (err e, l) p = (sh e).at l

module _ (env : Environment) where
  -- Moodle is asked for a receipt first.
  Sound-verify :
      (m : SubmissionManifest) (f : Option Receipt → Action CycleResult)
      → Sound (f none)
      → ((r : Receipt) → SoundAfter m r (f (some r)))
      → Sound (verify env m >>= f)
  unfolding ◌>>=◌ verify call
  Sound-verify m f n s = record { at = λ log. go log (env.verify log m) }
    where
      go :
          (log : Log) (q : Result Error (Option Receipt))
          → EvidenceOf (continue q f (verified m q ∷ log))
      go log (ok none) = n.at _
      go log (ok (some r)) = (s r).at log
      go log (err e) = tt

  fail_with-Sound :
      (c : SubmissionClaim) (code : CycleResult)
      → is_confirmed code ≡ false
      → Sound (fail_with env c code)
  unfolding fail_with
  fail_with-Sound c code h = Sound-bind _ _ (λ _. Sound-pure code h)

  complete_with-Sound :
      (c : SubmissionClaim) (r : Receipt) (t : Option String)
      → usable r ≡ t
      → SoundAfter c.manifest r (complete_with env c t)
  unfolding complete_with complete_submission call ◌>>=◌
  complete_with-Sound c r none e = record { at = λ log. tt }
  complete_with-Sound c r (some t) e = record { at = λ log. go log (env.complete_submission _ c t) }
    where
      go :
          (log : Log) (q : Result Error Bool)
          → EvidenceOf (
              continue q
                (λ done. if done then pure submission_confirmed else pure submission_ownership_lost)
                (completed c t q ∷ verified c.manifest (ok (some r)) ∷ log))
      go log (ok true) = (e, refl)
      go log (ok false) = tt
      go log (err x) = tt

  confirm-Sound : (c : SubmissionClaim) (r : Receipt) → SoundAfter c.manifest r (confirm env c r)
  unfolding confirm
  confirm-Sound c r = complete_with-Sound c r (usable r) refl

  verify_or_fail-Sound :
      (c : SubmissionClaim) (code : CycleResult)
      → is_confirmed code ≡ false
      → Sound (verify env c.manifest >>= confirm_or_fail env c code)
  unfolding confirm_or_fail
  verify_or_fail-Sound c code h =
      Sound-verify c.manifest _ (fail_with-Sound c code h) (confirm-Sound c)

  after_finalize-Sound :
      (c : SubmissionClaim) (r : Result Error Unit) → Sound (after_finalize env c r)
  unfolding after_finalize recover_finalize after_lost_finalize
  after_finalize-Sound c (ok _) = verify_or_fail-Sound c submission_unverified refl
  after_finalize-Sound c (err e) =
      Sound-if (is_runtime_error e) _ _
        (Sound-verify c.manifest _
          (Sound-bind _ _ (λ draft. Sound-if draft _ _ (fail_with-Sound c _ refl) (Sound-raise e)))
          (confirm-Sound c))
        (Sound-raise e)

  finalize_draft-Sound : (c : SubmissionClaim) (b : Bool) → Sound (finalize_draft env c b)
  unfolding finalize_draft
  finalize_draft-Sound c false = fail_with-Sound c _ refl
  finalize_draft-Sound c true = Sound-bind _ _ (after_finalize-Sound c)

  finalize_submission-Sound : (c : SubmissionClaim) → Sound (finalize_submission env c)
  unfolding finalize_submission finalize_unless_done
  finalize_submission-Sound c =
      Sound-verify c.manifest _ (Sound-bind _ _ (finalize_draft-Sound c)) (confirm-Sound c)

  finalize_verified-Sound :
      (c : SubmissionClaim) (code : CycleResult) (b : Bool)
      → is_confirmed code ≡ false
      → Sound (finalize_verified env c code b)
  unfolding finalize_verified
  finalize_verified-Sound c code false h = fail_with-Sound c code h
  finalize_verified-Sound c code true h = Sound-bind _ _ owned
    where
      owned : (d : Option SubmissionClaim) → Sound (finalize_if_owned env d)
      owned none = unfold finalize_if_owned in Sound-pure _ refl
      owned (some d) = unfold finalize_if_owned in finalize_submission-Sound d

  confirm_receipt-Sound :
      (c : SubmissionClaim)
      → Sound
          (verify env c.manifest >>= λ receipt. confirm_ambiguous env c (receipt_reference receipt))
  unfolding receipt_reference confirm_ambiguous
  confirm_receipt-Sound c =
      Sound-verify c.manifest _ (fail_with-Sound c _ refl) (λ r. with_reference r (usable r) refl)
    where
      with_reference :
          (r : Receipt) (t : Option String)
          → usable r ≡ t
          → SoundAfter c.manifest r (confirm_ambiguous env c t)
      with_reference r none e = record { at = λ log. (fail_with-Sound c _ refl).at _ }
      with_reference r (some t) e = complete_with-Sound c r (some t) e

  after_save-Sound : (c : SubmissionClaim) (r : Result Error Unit) → Sound (after_save env c r)
  unfolding after_save recover_save
  after_save-Sound c (err e) =
      Sound-if (is_runtime_error e) _ _
        (Sound-if c.manifest.event.submission_drafts _ _
          (Sound-bind _ _ (λ b. finalize_verified-Sound c _ b refl)) (confirm_receipt-Sound c))
        (Sound-raise e)
  after_save-Sound c (ok _) =
      Sound-if c.manifest.event.submission_drafts _ _
        (Sound-bind _ _ (λ b. finalize_verified-Sound c _ b refl)) (verify_or_fail-Sound c _ refl)

  save_if_owned-Sound : (i : ℕ) (c : Option SubmissionClaim) → Sound (save_if_owned env i c)
  unfolding save_if_owned
  save_if_owned-Sound i none = Sound-pure _ refl
  save_if_owned-Sound i (some c) = Sound-bind _ _ (after_save-Sound c)

  process_phase-Sound : (p : Phase) (c : SubmissionClaim) → Sound (process_phase env p c)
  unfolding process_phase
  process_phase-Sound Phase.saving c =
      Sound-if c.manifest.event.submission_drafts _ _
        (Sound-bind _ _ (λ b. finalize_verified-Sound c _ b refl)) (verify_or_fail-Sound c _ refl)
  process_phase-Sound Phase.finalizing c = finalize_submission-Sound c
  process_phase-Sound Phase.uploading c =
      Sound-bind _ _ (λ i. Sound-bind _ _ (λ d. save_if_owned-Sound i d))

  give_up-Sound : (c : SubmissionClaim) (e : Error) → Sound (give_up env c e)
  unfolding give_up
  give_up-Sound c e =
      Sound-if (is_caught e) _ _
        (Sound-bind _ _ (λ done. Sound-if done _ _ (Sound-pure _ refl) (Sound-pure _ refl)))
        (Sound-raise e)

  -- If a cycle that processes a claim reports `submission_confirmed`, then its last two calls are
  -- a verification at Moodle that returned a receipt with a usable reference, and a completion of
  -- the same manifest with this reference that the durable state accepted.
  pub IsConfirmed-has_receipt :
      (c : SubmissionClaim) (log : Log)
      → (process_claimed env (some c) log).0 ≡ ok (some submission_confirmed)
      → IsConfirmed (process_claimed env (some c) log).1
  unfolding process_claimed ◌>>=◌
  IsConfirmed-has_receipt c log =
      go (catch (process_phase env c.phase c) (give_up env c) log)
        ((Sound-catch _ _ (process_phase-Sound c.phase c) (give_up-Sound c)).at log)
    where
      go :
          (rs : Result Error CycleResult × Log)
          → EvidenceOf rs
          → (continue rs.0 (λ x. pure (some x)) rs.1).0 ≡ ok (some submission_confirmed)
          → IsConfirmed (continue rs.0 (λ x. pure {E = Error} (some x)) rs.1).1
      go (ok submission_confirmed, l) p h = p
      go (ok a, l) p h = absurd (ground arith)
      go (err e, l) p h = absurd (ground arith)
