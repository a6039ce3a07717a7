-- ===== src/Lifecycle/Gates.antt =====
-- domain/state_machine.py: the approvals that no sequence of transitions can go round.
use mathlib.Core.List.{Memᴰ}
use moodle_autotask.Base.{
  ◌≡◌, refl, ◌⊎◌, inl, inr, Bool, true, false, List, [], ◌∷◌, arith, Result-cases, ok,
}
use moodle_autotask.Lifecycle.{
  TaskState, discovered, awaiting_start_approval, awaiting_submit_approval, submitting, completed,
  cancelled, cleaning_up, cleaned, transition,
}
use moodle_autotask.Lifecycle.Runs.{follow, transition_falls}

-- A gate: from the states before it, every accepted transition stays before it or enters it.
module _ (gate : TaskState) (before : TaskState → Bool)
    (closed : (s t u : TaskState)
      → before s ≡ true
      → transition s t ≡ ok u
      → (before t ≡ true) ⊎ (gate ≡ t)) where
  gate_passed :
      (s : TaskState) (ts : List TaskState) {u : TaskState}
      → before s ≡ true
      → before u ≡ false
      → follow s ts ≡ ok u
      → Memᴰ gate ts
  unfolding follow
  gate_passed s [] b nb h = absurd (ground arith)
  gate_passed s (t ∷ ts) {u} b nb h = elim (Result-cases (transition s t)) [
    | inl (v, e) ↦ elim (closed s t v b e) [
      | inl still ↦ Memᴰ.tail (gate_passed t ts still nb (ground (arith, transition_falls s t e)))
      | inr at_gate ↦ Memᴰ.head at_gate
    ]
    | inr (x, e) ↦ absurd (ground arith)
  ]

-- The states that a task can be in before a person has been asked to let the work start.
abbrev pub before_start : TaskState → Bool
before_start discovered = true
before_start cancelled = true
before_start cleaning_up = true
before_start cleaned = true
before_start _ = false

abbrev before_submit : TaskState → Bool
before_submit submitting = false
before_submit completed = false
before_submit awaiting_submit_approval = false
before_submit _ = true

before_start_closed :
    (s t u : TaskState)
    → before_start s ≡ true
    → transition s t ≡ ok u
    → (before_start t ≡ true) ⊎ (awaiting_start_approval ≡ t)
unfolding transition
before_start_closed s t u b h = ground arith

before_submit_closed :
    (s t u : TaskState)
    → before_submit s ≡ true
    → transition s t ≡ ok u
    → (before_submit t ≡ true) ⊎ (awaiting_submit_approval ≡ t)
unfolding transition
before_submit_closed s t u b h = ground arith

-- A run of accepted transitions from `discovered` that ends in any state but `discovered`,
-- `cancelled`, `cleaning_up` or `cleaned` has entered `awaiting_start_approval`; one that ends in
-- `completed` has entered `awaiting_submit_approval` too.
pub approvals_not_bypassed :
    (ts : List TaskState) {u : TaskState}
    → follow discovered ts ≡ ok u
    → (before_start u ≡ false → Memᴰ awaiting_start_approval ts)
      × (u ≡ completed → Memᴰ awaiting_submit_approval ts)
approvals_not_bypassed ts {u} h = (
  λ nb.
      gate_passed awaiting_start_approval before_start before_start_closed discovered ts refl nb h,
  λ e.
      gate_passed awaiting_submit_approval before_submit before_submit_closed discovered ts refl
        (rw e refl) h,
)
