-- ===== src/Worker/Execution/Raised.antt =====
-- adapters/aws/worker.py: what `process_one` raises while it has a claim of work.
use moodle_autotask.Base.{
  ◌≡◌, ◌⊎◌, inl, inr, Bool, true, false, arith, if◌then◌else◌, Result, Result-cases, ok, err,
}
use moodle_autotask.Exec.{catch, handle, ◌>>=◌, raise}
use moodle_autotask.Approvals.Requests.{Runtime}
use moodle_autotask.Approvals.Work.{WorkClaim}
use moodle_autotask.Approvals.Work.World.{Call}
use moodle_autotask.Worker.Execution.Types.{
  Failure, CycleResult, Setup, Environment, Log, Action, call,
}
use moodle_autotask.Worker.Execution.{
  is_cleanup_claim, record_call, settle, recover_other, recover, process_work,
}

module _ (rt : Runtime) (setup : Setup) (env : Environment) (c : WorkClaim)
    (stored : (log : Log) (k : Call) (e : Failure)
      → env.record_call log c k ≡ err e
      → e ≡ Failure.approval_state) where
  settle_raises :
      (k : Call) (result : CycleResult) (log : Log) (e : Failure)
      → (settle rt setup env c k result log).0 ≡ err e
      → e ≡ Failure.approval_state
  unfolding settle record_call call ◌>>=◌
  settle_raises k result log e h = elim (Result-cases (env.record_call log c k)) [
    | inr (x, r) ↦ stored log k e (ground arith)
    | inl (true, r) ↦ absurd (ground arith)
    | inl (false, r) ↦ absurd (ground arith)
  ]

  if_raises :
      (b : Bool) (m n : Action CycleResult) (log : Log) (e : Failure)
      → ((m log).0 ≡ err e → e ≡ Failure.approval_state)
      → ((n log).0 ≡ err e → e ≡ Failure.approval_state)
      → ((if b then m else n) log).0 ≡ err e
      → e ≡ Failure.approval_state
  if_raises true m n log e h k r = h r
  if_raises false m n log e h k r = k r

  recover_other_raises :
      (log : Log) (e : Failure)
      → (recover_other rt setup env c log).0 ≡ err e
      → e ≡ Failure.approval_state
  unfolding recover_other
  recover_other_raises log e =
      if_raises (is_cleanup_claim c setup.has_broker) _ _ log e (settle_raises _ _ log e)
        (settle_raises _ _ log e)

  recover_raises :
      (x : Failure) (log : Log) (e : Failure)
      → (recover rt setup env c x log).0 ≡ err e
      → (e ≡ Failure.approval_state) ⊎ (e ≡ Failure.other)
  unfolding recover raise
  recover_raises Failure.approval_state log e h = inl (ground arith)
  recover_raises Failure.storage_capacity log e h = inl (settle_raises _ _ log e h)
  recover_raises Failure.os log e h = inl (recover_other_raises log e h)
  recover_raises Failure.runtime log e h = inl (recover_other_raises log e h)
  recover_raises Failure.value log e h = inl (recover_other_raises log e h)
  recover_raises Failure.other log e h = inr (ground arith)

  handled_raises :
      (r : Result Failure CycleResult) (log : Log) (e : Failure)
      → (handle r (recover rt setup env c) log).0 ≡ err e
      → (e ≡ Failure.approval_state) ⊎ (e ≡ Failure.other)
  handled_raises (ok a) log e h = absurd (ground arith)
  handled_raises (err x) log e h = recover_raises x log e h

-- Whatever the ports raise while `process_one` has a claim of work, it raises nothing but
-- `ApprovalStateError` and exceptions that are neither that nor `StorageCapacityError`, `OSError`,
-- `RuntimeError` or `ValueError`: of a durable state whose methods raise `ApprovalStateError` only.
pub process_work_raises :
    (rt : Runtime) (setup : Setup) (env : Environment) (c : WorkClaim) (log : Log) (e : Failure)
    → ((log : Log) (k : Call) (x : Failure)
        → env.record_call log c k ≡ err x
        → x ≡ Failure.approval_state)
    → (process_work rt setup env c log).0 ≡ err e
    → (e ≡ Failure.approval_state) ⊎ (e ≡ Failure.other)
unfolding process_work catch
process_work_raises rt setup env c log e stored h = handled_raises rt setup env c stored _ _ e h
