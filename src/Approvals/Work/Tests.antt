-- ===== src/Approvals/Work/Tests.antt =====
-- adapters/moodle/approval_state.py: two tasks that want a lab, at concrete actions.
use moodle_autotask.Base.{
  ℕ, zero, suc, ◌+◌, ◌≤◌, String, ◌≡◌, refl, sym, ap, ◌∙◌, List, [], ◌∷◌, map, String-discrete,
  codes, length, All,
}
use moodle_autotask.Table.{count}
use moodle_autotask.Events.{NotificationEvent}
use moodle_autotask.Events.Tests.{event}
use moodle_autotask.Approvals.{ApprovalState, insert_callbacks, token_of}
use moodle_autotask.Approvals.Requests.{Runtime}
use moodle_autotask.Approvals.Work.{WorkClaim, has_event, has_lab}
use moodle_autotask.Approvals.Work.World.{
  World, Action, prepares, resolves, passes, claims, records, call_record_lab, run,
}
use moodle_autotask.Approvals.Work.Exclusive.{one_lab}
use moodle_autotask.Approvals.Work.Approved.{HasApproval}
use moodle_autotask.Approvals.Work.Authorized.{work_approved}

abbrev runtime : Runtime
runtime = record {
  specification_digest = λ e. e.event_id;
  provision_key = λ id digest. id;
  lower = λ text. text;
}

-- The tokens "", "a", "aa", ...
unfoldable token : ℕ → String
token zero = String.[]
token (suc n) = String.◌∷◌ "a" (token n)

length-token : (n : ℕ) → length (codes (token n)) ≡ n
unfolding token
length-token zero = refl
length-token (suc n) = ap suc (length-token n)

token_distinct : (m n : ℕ) → token m ≡ token n → m ≡ n
token_distinct m n h = sym (length-token m) ∙ ap (λ t. length (codes t)) h ∙ length-token n

abbrev callback : String → ℕ → String
callback a zero = a
callback a (suc zero) = "ignore"
callback a (suc (suc _)) = "details"

abbrev second : NotificationEvent
second = record event { event_id = "second"; task_key = "other" }

abbrev empty : ApprovalState
empty = record {
  requests = [];
  callbacks = [];
  next_update_id = 0;
  work_items = [];
  submissions = [];
  submission_callbacks = [];
  submission_outbox = [];
  execution_outbox = [];
}

-- Both tasks are approved; the second gets no lab while the first has one.
abbrev actions : List Action
actions =
    prepares event (callback "approve")
    ∷ prepares second (λ n. token (n + 1))
    ∷ resolves "approve" 7
    ∷ passes 5
    ∷ resolves "a" 7
    ∷ claims "worker" 60
    ∷ claims "other" 60
    ∷ records 0 (call_record_lab "lab")
    ∷ passes 10
    ∷ claims "other" 60
    ∷ []

abbrev final : World
final = run runtime 7 token actions (record { state = empty; issued = []; clock = 0 })

-- The first claim is of the first task, and the second of its lab.
claims_issued :
    map (λ (c : WorkClaim). c.item.event.event_id) final.issued
    ≡ event.event_id ∷ event.event_id ∷ []
unfolding run token String-discrete insert_callbacks token_of
claims_issued = refl

one_lab_example :
    (count (has_lab final.clock) final.state.work_items ≤ 1)
    × ((e : String) → count (has_event e) final.state.work_items ≤ 1)
one_lab_example = one_lab runtime token 7 actions empty 0 token_distinct refl

work_approved_example : All (HasApproval 7 final.state.requests) final.state.work_items
work_approved_example =
    work_approved runtime token 7 actions (record { state = empty; issued = []; clock = 0 }) refl
      refl
