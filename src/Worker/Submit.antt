-- ===== src/Worker/Submit.antt =====
-- adapters/aws/worker.py: `_process_submission` and `_finalize_submission`. A submission's error
-- code is spelled like the cycle's result, so one type serves for both.
pub mod Counts
pub mod Once
pub mod Evidence
mod Tests
use moodle_autotask.Base.{
  ℕ, String, Bool, true, false, Option, none, some, if◌then◌else◌, holds, String-discrete, Result,
  ok, err,
}
use moodle_autotask.Exec.{pure, raise, catch, ◌>>=◌, ◌>>◌}
use moodle_autotask.Worker.Types.{
  SubmissionManifest, Phase, SubmissionClaim, Receipt, Error, is_runtime_error, CycleResult,
  submission_confirmed, submission_failed, submission_ownership_lost, submission_draft_unverified,
  submission_unverified, submission_ambiguous, claimed, uploaded, saved, finalized, verified,
  verified_draft, recorded_draft, recorded_finalizing, completed, failed, Environment, Action, call,
}

-- `isinstance(reference, str) and reference`
abbrev pub usable : Receipt → Option String
usable r = elim r.reference [
  | none ↦ none
  | some t ↦ if holds (String-discrete t "") then none else some t
]

pub receipt_reference : Option Receipt → Option String
receipt_reference none = none
receipt_reference (some r) = usable r

-- The classes of `except (ApprovalStateError, RuntimeError, ValueError)`.
abbrev pub is_caught : Error → Bool
is_caught Error.value_error = true
is_caught e = is_runtime_error e

module _ (env : Environment) where
  pub claim_submission : Action (Option SubmissionClaim)
  claim_submission = call env.claim_submission claimed

  pub upload : SubmissionManifest → Action ℕ
  upload m = call (λ log. env.upload log m) (uploaded m)

  pub save : SubmissionManifest → ℕ → Action Unit
  save m item = call (λ log. env.save log m item) (saved m item)

  pub finalize : SubmissionManifest → Action Unit
  finalize m = call (λ log. env.finalize log m) (finalized m)

  pub verify : SubmissionManifest → Action (Option Receipt)
  verify m = call (λ log. env.verify log m) (verified m)

  pub verify_draft : SubmissionManifest → Action Bool
  verify_draft m = call (λ log. env.verify_draft log m) (verified_draft m)

  pub record_submission_draft : SubmissionClaim → ℕ → Action (Option SubmissionClaim)
  record_submission_draft c item =
      call (λ log. env.record_submission_draft log c item) (recorded_draft c item)

  pub record_submission_finalizing : SubmissionClaim → Action (Option SubmissionClaim)
  record_submission_finalizing c =
      call (λ log. env.record_submission_finalizing log c) (recorded_finalizing c)

  pub complete_submission : SubmissionClaim → String → Action Bool
  complete_submission c reference =
      call (λ log. env.complete_submission log c reference) (completed c reference)

  pub fail_submission : SubmissionClaim → CycleResult → Action Bool
  fail_submission c code = call (λ log. env.fail_submission log c code) (failed c code)

  -- `state.fail_submission(claim, code); return WorkerCycle(code)`
  pub fail_with : SubmissionClaim → CycleResult → Action CycleResult
  fail_with c code = do fail_submission c code; pure code

  -- What follows a receipt: an unusable reference raises, and the completion may be lost.
  pub complete_with : SubmissionClaim → Option String → Action CycleResult
  complete_with c none = raise Error.runtime_error
  complete_with c (some reference) = do
    done ← complete_submission c reference
    if done then pure submission_confirmed else pure submission_ownership_lost

  pub confirm : SubmissionClaim → Receipt → Action CycleResult
  confirm c r = complete_with c (usable r)

  -- `receipt = service.verify(...)`; no receipt fails the submission with `code`
  pub confirm_or_fail : SubmissionClaim → CycleResult → Option Receipt → Action CycleResult
  confirm_or_fail c code none = fail_with c code
  confirm_or_fail c code (some r) = confirm c r

  -- `except RuntimeError as error` round `service.finalize`
  pub after_lost_finalize : SubmissionClaim → Error → Option Receipt → Action CycleResult
  after_lost_finalize c e (some r) = confirm c r
  after_lost_finalize c e none = do
    draft ← verify_draft c.manifest
    if draft then fail_with c submission_ambiguous else raise e

  pub recover_finalize : SubmissionClaim → Error → Action CycleResult
  recover_finalize c e =
      if is_runtime_error e then verify c.manifest >>= after_lost_finalize c e else raise e

  -- What follows `service.finalize` if it returned.
  pub after_finalize : SubmissionClaim → Result Error Unit → Action CycleResult
  after_finalize c (err e) = recover_finalize c e
  after_finalize c (ok _) = verify c.manifest >>= confirm_or_fail c submission_unverified

  -- A call whose exception is handed on as a value: `try` ... `except` ... `else`.
  pub try_finalize : SubmissionManifest → Action (Result Error Unit)
  try_finalize m = catch (do finalize m; pure (ok tt)) (λ e. pure (err e))

  pub finalize_draft : SubmissionClaim → Bool → Action CycleResult
  finalize_draft c false = fail_with c submission_draft_unverified
  finalize_draft c true = try_finalize c.manifest >>= after_finalize c

  pub finalize_unless_done : SubmissionClaim → Option Receipt → Action CycleResult
  finalize_unless_done c (some r) = confirm c r
  finalize_unless_done c none = verify_draft c.manifest >>= finalize_draft c

  -- `_finalize_submission`
  pub finalize_submission : SubmissionClaim → Action CycleResult
  finalize_submission c = verify c.manifest >>= finalize_unless_done c

  pub finalize_if_owned : Option SubmissionClaim → Action CycleResult
  finalize_if_owned none = pure submission_ownership_lost
  finalize_if_owned (some c) = finalize_submission c

  -- `draft = service.verify_draft(...)` and what follows; no draft fails with `code`
  pub finalize_verified : SubmissionClaim → CycleResult → Bool → Action CycleResult
  finalize_verified c code false = fail_with c code
  finalize_verified c code true = record_submission_finalizing c >>= finalize_if_owned

  -- `except RuntimeError` round `service.save`: a receipt with no usable reference is ambiguous
  pub confirm_ambiguous : SubmissionClaim → Option String → Action CycleResult
  confirm_ambiguous c none = fail_with c submission_ambiguous
  confirm_ambiguous c (some reference) = complete_with c (some reference)

  pub recover_save : SubmissionClaim → Error → Action CycleResult
  recover_save c e =
      if is_runtime_error e
      then if c.manifest.event.submission_drafts
        then verify_draft c.manifest >>= finalize_verified c submission_ambiguous
        else (do receipt ← verify c.manifest; confirm_ambiguous c (receipt_reference receipt))
      else raise e

  pub try_save : SubmissionManifest → ℕ → Action (Result Error Unit)
  try_save m item = catch (do save m item; pure (ok tt)) (λ e. pure (err e))

  pub after_save : SubmissionClaim → Result Error Unit → Action CycleResult
  after_save c (err e) = recover_save c e
  after_save c (ok _) =
      if c.manifest.event.submission_drafts
      then verify_draft c.manifest >>= finalize_verified c submission_draft_unverified
      else verify c.manifest >>= confirm_or_fail c submission_unverified

  pub save_if_owned : ℕ → Option SubmissionClaim → Action CycleResult
  save_if_owned item none = pure submission_ownership_lost
  save_if_owned item (some persisted) = try_save persisted.manifest item >>= after_save persisted

  -- The branches on `claim.phase`.
  pub process_phase : Phase → SubmissionClaim → Action CycleResult
  process_phase Phase.saving c =
      if c.manifest.event.submission_drafts
      then verify_draft c.manifest >>= finalize_verified c submission_draft_unverified
      else verify c.manifest >>= confirm_or_fail c submission_ambiguous
  process_phase Phase.finalizing c = finalize_submission c
  process_phase Phase.uploading c = do
    draft_item_id ← upload c.manifest
    persisted ← record_submission_draft c draft_item_id
    save_if_owned draft_item_id persisted

  -- `except (ApprovalStateError, RuntimeError, ValueError)`
  pub give_up : SubmissionClaim → Error → Action CycleResult
  give_up c e =
      if is_caught e
      then (do
        done ← fail_submission c submission_failed
        if done then pure submission_failed else pure submission_ownership_lost)
      else raise e

  pub process_claimed : Option SubmissionClaim → Action (Option CycleResult)
  process_claimed none = pure none
  process_claimed (some c) = do
    result ← catch (process_phase c.phase c) (give_up c)
    pure (some result)

  -- `_process_submission`, with a service
  pub process_submission : Action (Option CycleResult)
  process_submission = claim_submission >>= process_claimed
