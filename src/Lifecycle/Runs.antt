-- ===== src/Lifecycle/Runs.antt =====
-- domain/state_machine.py: sequences of accepted transitions.
use moodle_autotask.Base.{
  ℕ, ◌+◌, ◌≤◌, ◌<◌, ◌≡◌, refl, ◌⊎◌, inl, inr, List, [], ◌∷◌, arith, length, Result, Result-cases,
  ok, err,
}
use moodle_autotask.Lifecycle.{
  TaskState, discovered, awaiting_start_approval, planning, provisioning, running, collecting,
  review_ready, awaiting_submit_approval, submitting, completed, denied, cancelled, failed,
  cleaning_up, cleaned, TransitionError, transition, invalid_transition,
}

-- A state that is moved through the targets in order, as `self.state = transition(self.state, t)`.
unfoldable pub follow : TaskState → List TaskState → Result TransitionError TaskState
follow s [] = ok s
follow s (t ∷ ts) = elim (transition s t) [ ok u ↦ follow u ts | err e ↦ err e ]

-- The number of transitions that a state can still make at most.
abbrev pub height : TaskState → ℕ
height discovered = 11
height awaiting_start_approval = 10
height planning = 9
height provisioning = 8
height running = 7
height collecting = 6
height review_ready = 5
height awaiting_submit_approval = 4
height submitting = 3
height completed = 2
height denied = 2
height cancelled = 2
height failed = 2
height cleaning_up = 1
height cleaned = 0

pub transition_falls :
    (s t : TaskState) {u : TaskState} → transition s t ≡ ok u → (u ≡ t) × (height t < height s)
unfolding transition
transition_falls s t h = ground arith

pub transition-cases :
    (s t : TaskState) → (transition s t ≡ ok t) ⊎ (transition s t ≡ err (invalid_transition s t))
unfolding transition
transition-cases s t = ground arith

-- A run of accepted transitions is at most as long as the fall of the height from its first state
-- to its last.
pub follow_bounded :
    (s : TaskState) (ts : List TaskState) {u : TaskState}
    → follow s ts ≡ ok u
    → length ts + height u ≤ height s
unfolding follow
follow_bounded s [] h = ground arith
follow_bounded s (t ∷ ts) {u} h = elim (Result-cases (transition s t)) [
  | inl (v, e) ↦ ground (arith, transition_falls s t e, follow_bounded v ts {u = u})
  | inr (x, e) ↦ ground arith
]

-- Transitions that lead from a state to `cleaned`.
abbrev pub way_out : TaskState → List TaskState
way_out discovered = cancelled ∷ cleaning_up ∷ cleaned ∷ []
way_out awaiting_start_approval = cancelled ∷ cleaning_up ∷ cleaned ∷ []
way_out planning = cancelled ∷ cleaning_up ∷ cleaned ∷ []
way_out provisioning = cleaning_up ∷ cleaned ∷ []
way_out running = cleaning_up ∷ cleaned ∷ []
way_out collecting = cleaning_up ∷ cleaned ∷ []
way_out review_ready = cancelled ∷ cleaning_up ∷ cleaned ∷ []
way_out awaiting_submit_approval = cancelled ∷ cleaning_up ∷ cleaned ∷ []
way_out submitting = cleaning_up ∷ cleaned ∷ []
way_out completed = cleaning_up ∷ cleaned ∷ []
way_out denied = cleaning_up ∷ cleaned ∷ []
way_out cancelled = cleaning_up ∷ cleaned ∷ []
way_out failed = cleaning_up ∷ cleaned ∷ []
way_out cleaning_up = cleaned ∷ []
way_out cleaned = []

-- From every state a run of accepted transitions leads to `cleaned`, in at most three steps.
pub can_be_cleaned :
    (s : TaskState) → (follow s (way_out s) ≡ ok cleaned) × (length (way_out s) ≤ 3)
unfolding follow transition
can_be_cleaned discovered = (refl, omega arith)
can_be_cleaned _ = (refl, omega arith)
