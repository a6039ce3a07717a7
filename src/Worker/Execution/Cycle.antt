-- ===== src/Worker/Execution/Cycle.antt =====
-- adapters/aws/worker.py: `process_one` with a claim of work makes proper calls only.
use moodle_autotask.Base.{
  String, ◌≡◌, refl, inl, inr, true, false, Option, none, some, [], ◌∷◌, Result-cases, ok,
}
use moodle_autotask.Exec.{◌>>=◌}
use moodle_autotask.Exec.Steps.{Steps-catch}
use moodle_autotask.Approvals.{WorkStatus}
use moodle_autotask.Approvals.Requests.{Runtime}
use moodle_autotask.Approvals.Work.{WorkClaim, is_central}
use moodle_autotask.Worker.Execution.Types.{
  Failure, Setup, Prepared, Progress, Environment, Log, torn_down, delivered, call,
}
use moodle_autotask.Worker.Execution.{
  is_cleanup_claim, teardown, clean_up, process_status, process_claim, deliver, process_work,
}
use moodle_autotask.Worker.Execution.Permitted.{
  is_told_by, AllPermitted, Adds-IsPreorder, when-Steps,
}
use moodle_autotask.Worker.Execution.Proper.{
  IsProper, execute-IsProper, start_lab-IsProper, start_central-IsProper, watch_lab-IsProper,
  recover-IsProper, torn_Proper, bind-IsProper, pure-IsProper, raise-IsProper, port-IsProper,
}

module _ (rt : Runtime) (setup : Setup) (env : Environment) (c : WorkClaim) where
  clean_up_Proper :
      (handle : String) (log : Log)
      → is_cleanup_claim c setup.has_broker ≡ true
      → c.item.lab_handle ≡ some handle
      → AllPermitted setup.has_broker c log
      → AllPermitted setup.has_broker c (clean_up rt setup env c (some handle) log).1
  unfolding clean_up teardown call ◌>>=◌
  clean_up_Proper handle log cleanup lab past = elim (Result-cases (env.teardown log handle c)) [
    | inr (x, e) ↦ rw e ((refl, lab, cleanup), past)
    | inl (u, e) ↦ rw e (
        torn_Proper rt setup env c (torn_down handle c (ok u) ∷ log) cleanup refl
          ((refl, lab, cleanup), past))
  ]

  clean_up-IsProper :
      (o : Option String)
      → is_cleanup_claim c setup.has_broker ≡ true
      → c.item.lab_handle ≡ o
      → IsProper rt setup env c (clean_up rt setup env c o)
  unfolding clean_up
  clean_up-IsProper none cleanup lab = raise-IsProper rt setup env c Failure.other
  clean_up-IsProper (some handle) cleanup lab = record {
    at = λ log past. clean_up_Proper handle log cleanup lab past;
  }

  process_status-IsProper :
      (status : WorkStatus)
      → c.item.status ≡ status
      → is_cleanup_claim c setup.has_broker ≡ false
      → (c.item.status ≡ WorkStatus.pending → c.item.lab_handle ≡ none)
      → ((log : Log) (p : Prepared) (progress : Progress)
          → env.step log c p ≡ ok progress
          → is_told_by c.item progress ≡ true)
      → IsProper rt setup env c (process_status rt setup env c status)
  unfolding process_status
  process_status-IsProper WorkStatus.pending same kept no_lab told =
      let no_handle = no_lab same in
      when-Steps setup.has_broker c (is_central c.item.selected_mode) _ _
        (λ central. start_central-IsProper rt setup env c same kept central (rw no_handle refl))
        (λ guest. start_lab-IsProper rt setup env c same kept guest (rw no_handle refl))
  process_status-IsProper WorkStatus.ready same kept no_lab told =
      when-Steps setup.has_broker c setup.has_broker _ _
        (λ _. execute-IsProper rt setup env c (rw same refl) told)
        (λ _. raise-IsProper rt setup env c Failure.approval_state)
  process_status-IsProper WorkStatus.lab_pending same kept no_lab told =
      watch_lab-IsProper rt setup env c same c.item.lab_handle
  process_status-IsProper WorkStatus.failed same kept no_lab told =
      raise-IsProper rt setup env c Failure.approval_state
  process_status-IsProper WorkStatus.cleaned same kept no_lab told =
      raise-IsProper rt setup env c Failure.approval_state

  process_claim-IsProper :
      (c.item.status ≡ WorkStatus.pending → c.item.lab_handle ≡ none)
      → ((log : Log) (p : Prepared) (progress : Progress)
          → env.step log c p ≡ ok progress
          → is_told_by c.item progress ≡ true)
      → IsProper rt setup env c (process_claim rt setup env c)
  unfolding process_claim
  process_claim-IsProper no_lab told =
      when-Steps setup.has_broker c (is_cleanup_claim c setup.has_broker) _ _
        (λ cleanup. clean_up-IsProper c.item.lab_handle cleanup refl)
        (λ kept. process_status-IsProper c.item.status refl kept no_lab told)

  process_work-IsProper :
      (c.item.status ≡ WorkStatus.pending → c.item.lab_handle ≡ none)
      → ((log : Log) (p : Prepared) (progress : Progress)
          → env.step log c p ≡ ok progress
          → is_told_by c.item progress ≡ true)
      → IsProper rt setup env c (process_work rt setup env c)
  unfolding process_work deliver
  process_work-IsProper no_lab told =
      Steps-catch _ _ (Adds-IsPreorder setup.has_broker c)
        (bind-IsProper rt setup env c _ _ (process_claim-IsProper no_lab told) (λ result.
          bind-IsProper rt setup env c _ _ (port-IsProper rt setup env c _ delivered (λ r log. tt))
            (λ _. pure-IsProper rt setup env c result)))
        (recover-IsProper rt setup env c)

-- What `process_one` does with a claim of work, whatever its calls return or raise: it calls methods
-- of the durable state with that claim only, and none for an item or with arguments that the method
-- refuses; it tears down no lab but the claim's own, and only if the claim is to be cleaned up; it
-- marks work as cleaned, and cleans up an image, only after a teardown that returned; and it
-- provisions a lab only for pending work that is not central. Two things are presumed: pending work
-- has no lab, and what the broker tells of a finished execution is of the sizes, and has the
-- provenance and the payload, that `complete_execution` demands.
pub process_work-AllPermitted :
    (rt : Runtime) (setup : Setup) (env : Environment) (c : WorkClaim)
    → (c.item.status ≡ WorkStatus.pending → c.item.lab_handle ≡ none)
    → ((log : Log) (p : Prepared) (progress : Progress)
        → env.step log c p ≡ ok progress
        → is_told_by c.item progress ≡ true)
    → AllPermitted setup.has_broker c (process_work rt setup env c []).1
process_work-AllPermitted rt setup env c no_lab told =
    (process_work-IsProper rt setup env c no_lab told).at [] tt
