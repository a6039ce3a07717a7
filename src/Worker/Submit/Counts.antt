-- ===== src/Worker/Submit/Counts.antt =====
-- adapters/aws/worker.py: how often one cycle changes a submission at Moodle.
use moodle_autotask.Base.{
  ℕ, suc, ◌+◌, ◌≤◌, String, Bool, true, false, [], ◌∷◌, arith, if◌then◌else◌, Result, ok, err,
}
use moodle_autotask.Exec.{
  pure, raise, catch, ◌>>=◌, continue, catch, pure, raise, pure, catch, raise, pure, catch, raise,
  pure, catch, raise, pure, catch, raise, pure, catch, raise, pure, catch, raise, pure, catch,
  raise, pure, catch, raise, pure, catch, raise, pure, catch, raise, pure, catch, raise, pure,
  catch, raise, pure, catch, raise, pure, catch, raise, pure, catch, raise, pure, catch, raise,
  pure, catch, raise, pure, catch, raise, pure, catch, raise, pure, catch, raise, pure, catch,
  raise, pure, catch, raise, pure, catch, raise, pure, catch, raise, handle,
}
use moodle_autotask.Worker.Submit.{
  claim_submission, upload, save, finalize, verify, verify_draft, record_submission_draft,
  record_submission_finalizing, complete_submission, fail_submission,
}
use moodle_autotask.Worker.Types.{
  SubmissionManifest, SubmissionClaim, Error, CycleResult, saved, finalized, uploaded, Effect, Log,
  Environment, Action, call, call, call, call, call, call, call, call, call, call, call, call, call,
  call, call, call, call, call, call, call, call, call, call, call, call, call,
}

-- The calls that change something at Moodle, counted.
abbrev pub saves : Log → ℕ
saves [] = 0
saves (saved _ _ _ ∷ log) = suc (saves log)
saves (_ ∷ log) = saves log

abbrev pub finalizes : Log → ℕ
finalizes [] = 0
finalizes (finalized _ _ ∷ log) = suc (finalizes log)
finalizes (_ ∷ log) = finalizes log

abbrev pub uploads : Log → ℕ
uploads [] = 0
uploads (uploaded _ _ ∷ log) = suc (uploads log)
uploads (_ ∷ log) = uploads log

-- `m` makes at most `u` uploads, `s` saves and `f` finalizations.
pub record Adds {A : Type 0} (u s f : ℕ) (m : Action A) : Type 0 where
  pub at :
      (log : Log)
      → (uploads (m log).1 ≤ uploads log + u)
        × (saves (m log).1 ≤ saves log + s)
        × (finalizes (m log).1 ≤ finalizes log + f)

module _ {A : Type 0} where
  pub Adds-pure : (u s f : ℕ) (a : A) → Adds u s f (pure a)
  unfolding pure
  Adds-pure u s f a = record { at = λ log. omega arith }

  pub Adds-raise : (u s f : ℕ) (e : Error) → Adds {A = A} u s f (raise e)
  unfolding raise
  Adds-raise u s f e = record { at = λ log. omega arith }

  pub Adds-if :
      (u s f : ℕ) (b : Bool) (m n : Action A)
      → Adds u s f m
      → Adds u s f n
      → Adds u s f (if b then m else n)
  Adds-if u s f true m n am an = am
  Adds-if u s f false m n am an = an

  pub Adds-call :
      (u s f : ℕ) (ask : Log → Result Error A) (mark : Result Error A → Effect)
      → ((log : Log) (r : Result Error A)
          → (uploads (mark r ∷ log) ≤ uploads log + u)
            × (saves (mark r ∷ log) ≤ saves log + s)
            × (finalizes (mark r ∷ log) ≤ finalizes log + f))
      → Adds u s f (call ask mark)
  unfolding call
  Adds-call u s f ask mark h = record { at = λ log. h log (ask log) }

module _ {A B : Type 0} where
  -- The counts of two actions add up.
  pub Adds-then :
      (u s f u' s' f' : ℕ) (m : Action A) (k : A → Action B)
      → Adds u s f m
      → ((a : A) → Adds u' s' f' (k a))
      → Adds (u + u') (s + s') (f + f') (m >>= k)
  unfolding ◌>>=◌
  Adds-then u s f u' s' f' m k am ak = record { at = λ log. go log (m log) (am.at log) }
    where
      go :
          (log : Log) (rs : Result Error A × Log)
          → (uploads rs.1 ≤ uploads log + u)
            × (saves rs.1 ≤ saves log + s)
            × (finalizes rs.1 ≤ finalizes log + f)
          → (uploads (continue rs.0 k rs.1).1 ≤ uploads log + (u + u'))
            × (saves (continue rs.0 k rs.1).1 ≤ saves log + (s + s'))
            × (finalizes (continue rs.0 k rs.1).1 ≤ finalizes log + (f + f'))
      go log (ok a, l) h = omega (arith, (ak a).at l)
      go log (err e, l) h = omega arith

  pub Adds-bind :
      (u s f : ℕ) (m : Action A) (k : A → Action B)
      → Adds 0 0 0 m
      → ((a : A) → Adds u s f (k a))
      → Adds u s f (m >>= k)
  Adds-bind u s f m k am ak = record {
    at = λ log. omega (arith, (Adds-then 0 0 0 u s f m k am ak).at log);
  }

module _ {A : Type 0} where
  pub Adds-catch :
      (u s f : ℕ) (m : Action A) (h : Error → Action A)
      → Adds u s f m
      → ((e : Error) → Adds 0 0 0 (h e))
      → Adds u s f (catch m h)
  unfolding catch
  Adds-catch u s f m h am ah = record { at = λ log. go log (m log) (am.at log) }
    where
      go :
          (log : Log) (rs : Result Error A × Log)
          → (uploads rs.1 ≤ uploads log + u)
            × (saves rs.1 ≤ saves log + s)
            × (finalizes rs.1 ≤ finalizes log + f)
          → (uploads (handle rs.0 h rs.1).1 ≤ uploads log + u)
            × (saves (handle rs.0 h rs.1).1 ≤ saves log + s)
            × (finalizes (handle rs.0 h rs.1).1 ≤ finalizes log + f)
      go log (ok a, l) p = p
      go log (err e, l) p = omega (arith, (ah e).at l)

module _ {A : Type 0} where
  pub Adds-quiet : (u s f : ℕ) {m : Action A} → Adds 0 0 0 m → Adds u s f m
  Adds-quiet u s f h = record { at = λ log. omega (arith, h.at log) }

pub ruleset adds_rules = (Adds-pure, Adds-raise, Adds-if, Adds-bind, Adds-catch)

module _ (env : Environment) where
  pub claim_submission-Adds : Adds 0 0 0 (claim_submission env)
  unfolding claim_submission
  claim_submission-Adds = Adds-call 0 0 0 _ _ (λ log r. omega arith)

  pub upload-Adds : (m : SubmissionManifest) → Adds 1 0 0 (upload env m)
  unfolding upload
  upload-Adds m = Adds-call 1 0 0 _ _ (λ log r. omega arith)

  pub save-Adds : (m : SubmissionManifest) (item : ℕ) → Adds 0 1 0 (save env m item)
  unfolding save
  save-Adds m item = Adds-call 0 1 0 _ _ (λ log r. omega arith)

  pub finalize-Adds : (m : SubmissionManifest) → Adds 0 0 1 (finalize env m)
  unfolding finalize
  finalize-Adds m = Adds-call 0 0 1 _ _ (λ log r. omega arith)

  pub verify-Adds : (m : SubmissionManifest) → Adds 0 0 0 (verify env m)
  unfolding verify
  verify-Adds m = Adds-call 0 0 0 _ _ (λ log r. omega arith)

  pub verify_draft-Adds : (m : SubmissionManifest) → Adds 0 0 0 (verify_draft env m)
  unfolding verify_draft
  verify_draft-Adds m = Adds-call 0 0 0 _ _ (λ log r. omega arith)

  pub record_submission_draft-Adds :
      (c : SubmissionClaim) (i : ℕ) → Adds 0 0 0 (record_submission_draft env c i)
  unfolding record_submission_draft
  record_submission_draft-Adds c i = Adds-call 0 0 0 _ _ (λ log r. omega arith)

  pub record_submission_finalizing-Adds :
      (c : SubmissionClaim) → Adds 0 0 0 (record_submission_finalizing env c)
  unfolding record_submission_finalizing
  record_submission_finalizing-Adds c = Adds-call 0 0 0 _ _ (λ log r. omega arith)

  pub complete_submission-Adds :
      (c : SubmissionClaim) (t : String) → Adds 0 0 0 (complete_submission env c t)
  unfolding complete_submission
  complete_submission-Adds c t = Adds-call 0 0 0 _ _ (λ log r. omega arith)

  pub fail_submission-Adds :
      (c : SubmissionClaim) (code : CycleResult) → Adds 0 0 0 (fail_submission env c code)
  unfolding fail_submission
  fail_submission-Adds c code = Adds-call 0 0 0 _ _ (λ log r. omega arith)

pub ruleset quiet_rules = (
  adds_rules, claim_submission-Adds, verify-Adds, verify_draft-Adds, record_submission_draft-Adds,
  record_submission_finalizing-Adds, complete_submission-Adds, fail_submission-Adds,
)
