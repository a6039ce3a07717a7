-- ===== src/Outbox/Tests.antt =====
-- adapters/moodle/state.py at a concrete outbox.
use moodle_autotask.Base.{
  ℕ, ◌+◌, ◌≤◌, String, ◌≡◌, refl, ◌≢◌, true, false, none, some, List, [], ◌∷◌, arith,
  String-discrete,
}
use moodle_autotask.Events.{Content, new, NotificationDraft, same_text}
use moodle_autotask.Outbox.Acknowledged.{acknowledged_final}
use moodle_autotask.Outbox.{
  is_acknowledged, status, enqueue, OutboxClaim, leased, delivered, sink_failed, Row, MoodleState,
}
use moodle_autotask.Outbox.Leases.{retry_delay}
use moodle_autotask.Outbox.Keeps.{Keeps}
use moodle_autotask.Outbox.Operations.{
  Operation, call_claim, call_complete, call_fail, call_enqueue, run, Unclaimed,
}
use moodle_autotask.Outbox.Final.{
  IsDelivered, HeldUntil, IsDelivered-final, lease_exclusive, retry_delay_bounds,
}

abbrev event_id_of : String → String → String
event_id_of task_key revision_digest = "event"

abbrev assignment : Content
assignment = record {
  course_name = "Operating systems";
  course_shortname = "OS";
  assignment_title = "Harden a server";
  allows_submissions_from = 0;
  due_date = 1700000000;
  cutoff_date = 0;
  grading_due_date = 0;
  time_modified = 1600000000;
  attachments = [];
  assignment_id = some 17;
  submission_drafts = true;
  requires_submission_statement = false;
  submission_statement = "";
  submission_statement_format = 0;
  team_submission = false;
  no_submissions = false;
  file_submission_enabled = true;
  file_submission_max_files = 1;
  file_submission_max_bytes = 2097152;
  file_submission_filetypes = ".md";
}

abbrev draft : NotificationDraft
draft = record { task_key = "task"; revision_digest = "revision"; content = assignment }

abbrev token_of : ℕ → String
token_of n = "token"

-- One assignment is enqueued, and claimed for a minute.
abbrev opening : List Operation
opening = call_enqueue draft 0 ∷ call_claim "scheduler-1" 10 60 token_of 10 ∷ []

abbrev empty : MoodleState
empty = record { outbox = []; acknowledgements = [] }

abbrev held_row : Row
held_row = record {
  event_id = "event";
  task_key = "task";
  revision_digest = "revision";
  payload = some (record {
    event_id = "event";
    status = new;
    task_key = "task";
    revision_digest = "revision";
    content = assignment;
  });
  delivery_state = leased "scheduler-1" "token" 70;
  attempts = 1;
  available_at = 0;
  created_at = 0;
  error_code = none;
}

abbrev held : MoodleState
held = record { outbox = held_row ∷ []; acknowledgements = [] }

opening_holds : (run event_id_of opening empty).1 ≡ held
unfolding run String-discrete
opening_holds = refl

abbrev done : MoodleState
done = record {
  outbox = record held_row { delivery_state = delivered 20 } ∷ [];
  acknowledgements = ("task", "revision") ∷ [];
}

-- What the holder is handed.
abbrev claim_held : OutboxClaim
claim_held = record {
  event = record {
    event_id = "event";
    status = new;
    task_key = "task";
    revision_digest = "revision";
    content = assignment;
  };
  lease_token = "token";
}

completes : (run event_id_of (call_complete claim_held 20 ∷ []) held).1 ≡ done
unfolding run String-discrete
completes = refl

-- Another scheduler, and an earlier holder whose lease has run out.
abbrev others : List Operation
others =
    call_claim "scheduler-2" 10 60 (λ n. "token-2") 30
    ∷ call_fail (record claim_held { lease_token = "token-0" }) 5 3600 sink_failed 40
    ∷ call_enqueue draft 50
    ∷ []

held-Keeps : Keeps "event" (HeldUntil "token" 70) held.outbox
unfolding String-discrete
held-Keeps = record { present = refl; kept = ((λ same. (refl, omega arith)), tt) }

done-Keeps : Keeps "event" IsDelivered done.outbox
unfolding String-discrete
done-Keeps = record { present = refl; kept = ((λ same. tt), tt) }

differ : (a b : String) → same_text a b ≡ false → a ≢ b
differ a b h e = ground arith

other_token : ◌≢◌ {A = String} "token-0" "token"
unfolding String-discrete
other_token = differ "token-0" "token" refl

lease_exclusive_example : Unclaimed "event" (HeldUntil "token" 70) (run event_id_of others held)
lease_exclusive_example =
    lease_exclusive event_id_of "event" "token" 70 others held
      (omega arith, (other_token, (tt, tt))) held-Keeps

IsDelivered-final_example : Unclaimed "event" IsDelivered (run event_id_of opening done)
IsDelivered-final_example = IsDelivered-final event_id_of "event" opening done done-Keeps

retry_delay_bounds_example :
    (5 ≤ retry_delay 5 3600 3)
    × (retry_delay 5 3600 3 ≤ 3600)
    × (retry_delay 5 3600 3 ≤ retry_delay 5 3600 (3 + 2))
retry_delay_bounds_example = retry_delay_bounds 5 3600 3 2 (omega arith) (omega arith)

is_done : is_acknowledged "task" "revision" done ≡ true
unfolding is_acknowledged String-discrete
is_done = refl

acknowledged_final_example :
    let s' = (run event_id_of opening done).1 in
    (status "task" "revision" s' ≡ none)
    × ((content : Content) (moment : ℕ)
        → enqueue event_id_of
            (record { task_key = "task"; revision_digest = "revision"; content = content })
            moment
            s'
          ≡ (none, s'))
acknowledged_final_example = acknowledged_final event_id_of "task" "revision" opening done is_done
