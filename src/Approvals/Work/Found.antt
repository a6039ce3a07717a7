-- ===== src/Approvals/Work/Found.antt =====
-- adapters/moodle/approval_state.py: which row `claim_work` selects.
use moodle_autotask.Base.{
  ℕ, ◌≤◌, String, ◌≡◌, refl, ap, subst, ◌∙◌, ◌⊎◌, inl, inr, Bool, true, false, ◌&&◌, Option, none,
  some, List, [], ◌∷◌, arith, Bool-cases, All, Result, Result-cases, ok,
}
use moodle_autotask.Table.{count, none_pass, All-map, All-both}
use moodle_autotask.Events.{NotificationEvent, same_text}
use moodle_autotask.Approvals.{WorkRow, ApprovalState, StateError, guard, ◌>>◌}
use moodle_autotask.Approvals.Requests.{Runtime}
use moodle_autotask.Approvals.Work.{
  WorkItem, has_event, is_blocked, insert_row, select_rows, scan_row, scan, work_item,
}

module _ (P : WorkRow → Type 0) where
  insert_row-All :
      (w : WorkRow) (rows : List WorkRow) → P w → All P rows → All P (insert_row w rows)
  unfolding insert_row
  insert_row-All w [] p a = (p, a)
  insert_row-All w (v ∷ rows) p (q, a) =
      let rest = insert_row-All w rows p a in ground (arith, rest)

  -- The rows of a SELECT are rows of the table that pass its test.
  pub select_rows-All :
      (Q : WorkRow → Type 0) (test : WorkRow → Bool) (rows : List WorkRow)
      → ((w : WorkRow) → Q w → test w ≡ true → P w)
      → All Q rows
      → All P (select_rows test rows)
  unfolding select_rows
  select_rows-All Q test [] h a = tt
  select_rows-All Q test (w ∷ rows) h (q, a) =
      let rest = select_rows-All Q test rows h a in
      elim (Bool-cases (test w)) [
        | inl t ↦ rw t (insert_row-All w (select_rows test rows) (h w q t) rest)
        | inr f ↦ rw f rest
      ]

pub text_of : (a b : String) → same_text a b ≡ true → a ≡ b
text_of a b h = ground arith

module _ (rt : Runtime) where
  found_row :
      (moment : ℕ) (rows : List WorkRow) (w : WorkRow) (o : Option NotificationEvent)
      (rest : Result StateError (Option (WorkRow × NotificationEvent))) {v : WorkRow}
      {e : NotificationEvent}
      → scan_row rt moment rows w o rest ≡ ok (some (v, e))
      → (rest ≡ ok (some (v, e))) ⊎ ((w ≡ v) × (is_blocked moment rows w ≡ false))
  found_row moment rows w none rest h = inl h
  found_row moment rows w (some e) rest h = elim (Result-cases (work_item rt w e w.attempts)) [
    | inr (x, bad) ↦ absurd (ground arith)
    | inl (item, good) ↦ elim (Bool-cases (is_blocked moment rows w)) [
      | inl t ↦ inl (ground arith)
      | inr f ↦ inr (ground arith, f)
    ]
  ]

  -- The loop selects one of its rows, that is not blocked.
  pub scan_found :
      (P : WorkRow → Type 0) (moment : ℕ) (s : ApprovalState) (candidates : List WorkRow)
      {v : WorkRow} {e : NotificationEvent}
      → All P candidates
      → scan rt moment s candidates ≡ ok (some (v, e))
      → P v × (is_blocked moment s.work_items v ≡ false)
  unfolding scan
  scan_found P moment s [] a h = absurd (ground arith)
  scan_found P moment s (w ∷ candidates) (p, a) h =
      elim (found_row moment s.work_items w _ (scan rt moment s candidates) h) [
        | inl later ↦ scan_found P moment s candidates a later
        | inr (same, free) ↦
            (subst P same p, subst (λ v. is_blocked moment s.work_items v ≡ false) same free)
      ]

  guard_passes :
      {A : Type 0} (a b c d e f : Bool) {x y : A}
      → (guard (a && b && c && d && e && f) >> ok x) ≡ ok y
      → (a ≡ true) × (x ≡ y)
  guard_passes a b c d e f h = ground arith

  -- The item of a claim has the columns of its row.
  pub item_fields :
      (w : WorkRow) (e : NotificationEvent) (n : ℕ) {item : WorkItem}
      → work_item rt w e n ≡ ok item
      → (w.event_id ≡ item.event.event_id)
        × (w.status ≡ item.status)
        × (w.selected_mode ≡ item.selected_mode)
        × (w.lab_handle ≡ item.lab_handle)
  unfolding work_item
  item_fields w e n h =
      let (a, same) = guard_passes _ _ _ _ _ _ h in
      (
        text_of w.event_id e.event_id a ∙ ap (λ i. i.event.event_id) same,
        ap (λ i. i.status) same,
        ap (λ i. i.selected_mode) same,
        ap (λ i. i.lab_handle) same,
      )

-- Rows of one event are one row, where the table has a row for each event.
pub unique :
    (rows : List WorkRow)
    → ((e : String) → count (has_event e) rows ≤ 1)
    → All (λ v. All (λ (q : WorkRow). has_event v.event_id q ≡ true → q ≡ v) rows) rows
unfolding count
unique [] keys = tt
unique (r ∷ rows) keys =
    let own = keys r.event_id in
    let alone = none_pass (has_event r.event_id) rows (ground arith) in
    let rest = unique rows (λ e. let k = keys e in ground arith) in
    (
      (λ h. refl, All-map _ _ rows (λ q no_event h. absurd (ground arith)) alone),
      All-map _ _ rows (λ v (no_event, others). (λ h. absurd (ground arith), others))
          (All-both _ _ rows alone rest),
    )
