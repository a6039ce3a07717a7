-- ===== src/Worker/Execution/Proper.antt =====
-- adapters/aws/worker.py: what the worker calls while it has a claim of work is proper.
use moodle_autotask.Base.{
  ℕ, ◌-◌, min, String, ◌≡◌, refl, inl, inr, Bool, true, false, not, ◌&&◌, Option, none, some, ◌∷◌,
  arith, leb, if◌then◌else◌, Bool-cases, codes, Result, Result-cases, ok,
}
use moodle_autotask.Exec.{◌>>=◌, ◌>>◌, pure, raise}
use moodle_autotask.Exec.Steps.{Steps, Steps-pure, Steps-raise, Steps-bind}
use moodle_autotask.Approvals.{WorkStatus}
use moodle_autotask.Approvals.Requests.{Runtime, requires_image}
use moodle_autotask.Approvals.Submissions.Claims.{is_error_code}
use moodle_autotask.Approvals.Work.{WorkClaim, is_central, is_given}
use moodle_autotask.Approvals.Work.Calls.{is_ready, is_cleanable}
use moodle_autotask.Approvals.Work.World.{
  Call, call_record_lab, call_mark_ready, call_complete_execution, call_mark_cleaned,
  call_retry_work, call_fail_work,
}
use moodle_autotask.Worker.Execution.Types.{
  Failure, CycleResult, ownership_lost, lab_cleaned, central_ready, central_input_envelope_invalid,
  image_import_required, image_import_pending, lab_provisioned, lab_ready, lab_pending,
  agent_pending, execution_failed, execution_complete, retry, cleanup_retry, Setup, Prepared,
  Readiness, Progress, Effect, recorded, image_cleaned, prepared, image_ensured, provisioned,
  readiness_read, inputs_ensured, stepped, Log, Environment, Action, call, delay_at,
}
use moodle_autotask.Worker.Execution.{
  is_complete, retry_delay, is_cleanup_claim, record_call, settle, cleanup_image, clean_image,
  prepare, ensure_image, provision, provision_lab, provision_imported, start_lab, start_central,
  ensure_inputs, with_guest_inputs, prepare_item, broker_step, follow, execute, readiness, transfer,
  lab_is, watch_lab, cleanup_code, recover_other, recover,
}
use moodle_autotask.Worker.Execution.Permitted.{
  is_accepted, is_told_by, has_torn, needs_teardown, Permitted, AllPermitted, Adds, Adds-IsPreorder,
  call-Steps, when-Steps,
}

delay_lem : (n : ℕ) → (leb 1 (retry_delay n) && leb (retry_delay n) 3600) ≡ true
unfolding retry_delay
delay_lem n = delay_at_lem (min (n - 1) 6)
  where
    delay_at_lem : (k : ℕ) → (leb 1 (delay_at k) && leb (delay_at k) 3600) ≡ true
    delay_at_lem k = ground arith

both : {a b : Bool} → a ≡ true → b ≡ true → (a && b) ≡ true
both h k = rw (h, k) refl

coded :
    (b : Bool) → is_error_code (codes (if b then "execution_complete" else "cleanup_failed")) ≡ true
unfolding is_error_code is_accepted
coded true = refl
coded false = refl

module _ (rt : Runtime) (setup : Setup) (env : Environment) (c : WorkClaim) where
  abbrev pub IsProper : {A : Type 0} → Action A → Type 0
  IsProper m = Steps (Adds setup.has_broker c) m

  pub bind-IsProper :
      {A B : Type 0} (m : Action A) (f : A → Action B)
      → IsProper m
      → ((a : A) → IsProper (f a))
      → IsProper (m >>= f)
  bind-IsProper m f h k = Steps-bind m f (Adds-IsPreorder setup.has_broker c) h k

  pub pure-IsProper : {A : Type 0} (a : A) → IsProper (pure a)
  pure-IsProper a = Steps-pure a (Adds-IsPreorder setup.has_broker c)

  pub raise-IsProper : {A : Type 0} (e : Failure) → IsProper {A = A} (raise e)
  raise-IsProper e = Steps-raise e (Adds-IsPreorder setup.has_broker c)

  settle-IsProper :
      (k : Call) (result : CycleResult)
      → is_accepted c.item k ≡ true
      → needs_teardown k ≡ false
      → IsProper (settle rt setup env c k result)
  unfolding settle record_call
  settle-IsProper k result accepted free =
      bind-IsProper _ _
        (call-Steps setup.has_broker c _ (recorded c k)
          (λ r log. (refl, accepted, λ h. absurd (ground arith))))
        (λ done.
          when-Steps setup.has_broker c done _ _ (λ h. pure-IsProper result)
            (λ h. pure-IsProper ownership_lost))

  -- A port that is called in every state of a claim.
  pub port-IsProper :
      {A : Type 0} (ask : Log → Result Failure A) (mark : Result Failure A → Effect)
      → ((r : Result Failure A) (log : Log) → Permitted setup.has_broker c (mark r) log)
      → IsProper (call ask mark)
  port-IsProper ask mark h = call-Steps setup.has_broker c ask mark h

  prepare_item-IsProper : IsProper (prepare_item rt setup env c)
  unfolding prepare_item prepare
  prepare_item-IsProper =
      when-Steps setup.has_broker c setup.has_preparer _ _
        (λ _. bind-IsProper _ _ (port-IsProper _ (prepared c) (λ r log. tt)) (λ p. pure-IsProper _))
        (λ _. raise-IsProper Failure.runtime)

  with_guest_inputs-IsProper : (p : Prepared) → IsProper (with_guest_inputs rt setup env c p)
  unfolding with_guest_inputs ensure_inputs
  with_guest_inputs-IsProper p =
      when-Steps setup.has_broker c setup.has_transfer _ _
        (λ _.
          bind-IsProper _ _ (port-IsProper _ (inputs_ensured c p) (λ r log. tt))
            (λ q. pure-IsProper _))
        (λ _. raise-IsProper Failure.runtime)

  -- The branches of pending work.
  module _ (pending : c.item.status ≡ WorkStatus.pending)
      (kept : is_cleanup_claim c setup.has_broker ≡ false) where
    provision_lab-IsProper :
        is_central c.item.selected_mode ≡ false
        → (image : Option String) → IsProper (provision_lab rt setup env c image)
    unfolding provision_lab provision is_accepted
    provision_lab-IsProper guest image =
        bind-IsProper _ _
          (port-IsProper _ (provisioned c image) (λ r log. (refl, kept, rw (pending, guest) refl)))
          (λ handle.
            settle-IsProper (call_record_lab handle) lab_provisioned (rw (pending, guest) refl)
              refl)

    provision_imported-IsProper :
        is_central c.item.selected_mode ≡ false
        → (o : Option (Option String)) → IsProper (provision_imported rt setup env c o)
    unfolding provision_imported is_error_code is_accepted
    provision_imported-IsProper guest none =
        settle-IsProper (call_retry_work "image_import_pending" 60 false) image_import_pending refl
          refl
    provision_imported-IsProper guest (some none) = raise-IsProper Failure.runtime
    provision_imported-IsProper guest (some (some image)) =
        provision_lab-IsProper guest (some image)

    pub start_lab-IsProper :
        is_central c.item.selected_mode ≡ false
        → is_given c.item.lab_handle ≡ false
        → IsProper (start_lab rt setup env c)
    unfolding start_lab prepare ensure_image is_error_code is_accepted
    start_lab-IsProper guest no_lab =
        when-Steps setup.has_broker c (requires_image rt c.item.event) _ _
          (λ _.
            when-Steps setup.has_broker c (not (setup.has_preparer && setup.has_importer)) _ _
              (λ _.
                settle-IsProper (call_fail_work "image_import_required") image_import_required
                  (rw (pending, no_lab) refl) refl)
              (λ _. bind-IsProper _ _ (port-IsProper _ (prepared c) (λ r log. tt)) (λ p.
                bind-IsProper _ _ (port-IsProper _ (image_ensured c p) (λ r log. tt))
                  (provision_imported-IsProper guest))))
          (λ _.
            when-Steps setup.has_broker c setup.has_preparer _ _
              (λ _.
                bind-IsProper _ _ (port-IsProper _ (prepared c) (λ r log. tt))
                  (λ p. provision_lab-IsProper guest none))
              (λ _. provision_lab-IsProper guest none))

    pub start_central-IsProper :
        is_central c.item.selected_mode ≡ true
        → is_given c.item.lab_handle ≡ false
        → IsProper (start_central rt setup env c)
    unfolding start_central is_error_code is_accepted
    start_central-IsProper central no_lab =
        when-Steps setup.has_broker c (env.is_envelope_valid c.item.event) _ _
          (λ _.
            settle-IsProper (call_mark_ready setup.has_broker) central_ready
              (rw (pending, central) refl) refl)
          (λ _.
            settle-IsProper (call_fail_work "central_input_envelope_invalid")
              central_input_envelope_invalid (rw (pending, no_lab) refl) refl)

  follow-IsProper :
      is_ready c.item.status ≡ true
      → (p : Progress) → is_told_by c.item p ≡ true
      → IsProper (follow rt setup env c p)
  unfolding follow is_error_code is_accepted
  follow-IsProper ready Progress.pending told =
      settle-IsProper (call_retry_work "agent_pending" 15 false) agent_pending refl refl
  follow-IsProper ready (Progress.failed d) told =
      settle-IsProper (call_complete_execution _) execution_failed (both ready told) refl
  follow-IsProper ready (Progress.succeeded d) told =
      settle-IsProper (call_complete_execution _) execution_complete (both ready told) refl

  -- A port that is called in every state of a claim, and what follows its answer.
  answered-IsProper :
      {A B : Type 0} (ask : Log → Result Failure A) (mark : Result Failure A → Effect)
      (f : A → Action B)
      → ((r : Result Failure A) (log : Log) → Permitted setup.has_broker c (mark r) log)
      → ((log : Log) (a : A) → ask log ≡ ok a → IsProper (f a))
      → IsProper (call ask mark >>= f)
  unfolding call ◌>>=◌
  answered-IsProper ask mark f h k = record {
    at = λ log past. elim (Result-cases (ask log)) [
      | inr (x, e) ↦ rw e (h _ log, past)
      | inl (a, e) ↦ rw e ((k log a e).at (mark (ok a) ∷ log) (h _ log, past))
    ];
  }

  pub execute-IsProper :
      is_ready c.item.status ≡ true
      → ((log : Log) (p : Prepared) (progress : Progress)
          → env.step log c p ≡ ok progress
          → is_told_by c.item progress ≡ true)
      → IsProper (execute rt setup env c)
  unfolding execute broker_step
  execute-IsProper ready told = bind-IsProper _ _ prepare_item-IsProper (λ p.
      bind-IsProper _ _
        (when-Steps setup.has_broker c (is_central c.item.selected_mode) _ _ (λ _. pure-IsProper p)
          (λ _. with_guest_inputs-IsProper p))
        (λ q.
          answered-IsProper _ (stepped c q) _ (λ r log. tt)
            (λ log progress e. follow-IsProper ready progress (told log q progress e))))

  lab_is-IsProper :
      c.item.status ≡ WorkStatus.lab_pending → (r : Readiness) → IsProper (lab_is rt setup env c r)
  unfolding lab_is transfer is_error_code is_accepted
  lab_is-IsProper waits Readiness.ready =
      let marks =
        settle-IsProper (call_mark_ready setup.has_broker) lab_ready (rw waits refl) refl in
      when-Steps setup.has_broker c (is_central c.item.selected_mode) _ _ (λ _. marks)
        (λ _.
          bind-IsProper _ _ (bind-IsProper _ _ prepare_item-IsProper with_guest_inputs-IsProper)
            (λ _. marks))
  lab_is-IsProper waits Readiness.failed =
      settle-IsProper (call_retry_work "lab_failed" (retry_delay c.item.attempts) true) retry
        (delay_lem c.item.attempts) refl
  lab_is-IsProper waits Readiness.pending =
      settle-IsProper (call_retry_work "lab_pending" 30 false) lab_pending refl refl

  pub watch_lab-IsProper :
      c.item.status ≡ WorkStatus.lab_pending
      → (o : Option String) → IsProper (watch_lab rt setup env c o)
  unfolding watch_lab readiness
  watch_lab-IsProper waits none = raise-IsProper Failure.approval_state
  watch_lab-IsProper waits (some handle) =
      bind-IsProper _ _ (port-IsProper _ (readiness_read handle c) (λ r log. tt))
        (lab_is-IsProper waits)

  recover_other-IsProper : IsProper (recover_other rt setup env c)
  unfolding recover_other cleanup_code is_error_code is_accepted
  recover_other-IsProper =
      when-Steps setup.has_broker c (is_cleanup_claim c setup.has_broker) _ _
        (λ _.
          settle-IsProper
            (call_retry_work (cleanup_code rt setup env c) (retry_delay c.item.attempts) false)
            cleanup_retry (both (coded (is_complete c.item.error_code)) (delay_lem c.item.attempts))
            refl)
        (λ _.
          settle-IsProper (call_retry_work "provider_failed" (retry_delay c.item.attempts) true)
            retry (delay_lem c.item.attempts) refl)

  pub recover-IsProper : (e : Failure) → IsProper (recover rt setup env c e)
  unfolding recover is_error_code is_accepted
  recover-IsProper Failure.approval_state = raise-IsProper Failure.approval_state
  recover-IsProper Failure.storage_capacity =
      settle-IsProper (call_retry_work "storage_capacity" (retry_delay c.item.attempts) false)
        CycleResult.storage_capacity (delay_lem c.item.attempts) refl
  recover-IsProper Failure.os = recover_other-IsProper
  recover-IsProper Failure.runtime = recover_other-IsProper
  recover-IsProper Failure.value = recover_other-IsProper
  recover-IsProper Failure.other = raise-IsProper Failure.other

  cleanable :
      is_cleanup_claim c setup.has_broker ≡ true
      → (is_cleanable c.item.status && is_given c.item.lab_handle) ≡ true
  unfolding is_cleanup_claim
  cleanable h = ground arith

  -- Once the lab is torn down.
  mark_Proper :
      (log : Log)
      → is_cleanup_claim c setup.has_broker ≡ true
      → has_torn log ≡ true
      → AllPermitted setup.has_broker c log
      → AllPermitted setup.has_broker c (settle rt setup env c call_mark_cleaned lab_cleaned log).1
  unfolding settle record_call call ◌>>=◌ is_accepted
  mark_Proper log cleanup torn past =
      elim (Result-cases (env.record_call log c call_mark_cleaned)) [
        | inr (x, e) ↦ rw e ((refl, cleanable cleanup, λ h. torn), past)
        | inl (true, e) ↦ rw e ((refl, cleanable cleanup, λ h. torn), past)
        | inl (false, e) ↦ rw e ((refl, cleanable cleanup, λ h. torn), past)
      ]

  pub torn_Proper :
      (log : Log)
      → is_cleanup_claim c setup.has_broker ≡ true
      → has_torn log ≡ true
      → AllPermitted setup.has_broker c log
      → AllPermitted setup.has_broker c
          ((clean_image rt setup env c >> settle rt setup env c call_mark_cleaned lab_cleaned)
            log).1
  unfolding clean_image cleanup_image call ◌>>=◌ settle record_call
  torn_Proper log cleanup torn past = elim (Bool-cases (requires_image rt c.item.event)) [
    | inr f ↦ rw f (mark_Proper log cleanup torn past)
    | inl t ↦ elim (Bool-cases setup.has_importer) [
      | inr f ↦ rw (t, f) past
      | inl i ↦ elim (Result-cases (env.cleanup_image log c)) [
        | inr (x, e) ↦ rw (t, i, e) ((refl, cleanup, torn), past)
        | inl (u, e) ↦
            rw (t, i, e)
              (mark_Proper (image_cleaned c (ok u) ∷ log) cleanup torn
                ((refl, cleanup, torn), past))
      ]
    ]
  ]
