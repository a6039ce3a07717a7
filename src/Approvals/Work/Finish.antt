-- ===== src/Approvals/Work/Finish.antt =====
-- adapters/moodle/approval_state.py: what a claim's holder records gives a lab to no row that had
-- none, and releases the row.
use moodle_autotask.Base.{
  ℕ, zero, suc, String, ◌≡◌, refl, subst, true, Option, some, List, [], ◌∷◌, arith, length, All,
  Result, ok, err,
}
use moodle_autotask.Table.{
  update_where, count-update_where_le, count-update_where_le_All, All-update_where, All-map,
}
use moodle_autotask.Approvals.{WorkRow, ApprovalState, StateError, Outcome, ◌>>=◌, after}
use moodle_autotask.Approvals.Work.{WorkClaim, has_event, has_lab}
use moodle_autotask.Approvals.Work.Calls.{Assignment, assign, is_owned}
use moodle_autotask.Approvals.Work.World.{World, nth, claimed}
use moodle_autotask.Approvals.Work.Sound.{LeaseOlder, Fits, Sound}

-- An assignment that a claim may make: it gives no lab to a row that fits the claim.
abbrev pub AddsNoLab : WorkClaim → Assignment → ℕ → Type 0
AddsNoLab c a moment =
    (w : WorkRow)
    → Fits c w
    → is_owned c moment w ≡ true
    → has_lab moment (assign a w) ≡ true
    → has_lab moment w ≡ true

module _ (tokens : ℕ → String) (w : World) (c : WorkClaim) (a : Assignment) where
  abbrev pub finished_rows : List WorkRow
  finished_rows = update_where (is_owned c w.clock) (assign a) w.state.work_items

  pub finish-Sound :
      (s : ApprovalState)
      → s.work_items ≡ finished_rows
      → AddsNoLab c a w.clock
      → All (Fits c) w.state.work_items
      → Sound tokens w
      → Sound tokens (record w { state = s })
  finish-Sound s same none_added fitting sound = record {
    keys = λ e.
        let fewer =
          count-update_where_le (has_event e) (is_owned c w.clock) (assign a) w.state.work_items
            (λ r t h. h) in
        let before = sound.keys e in rw same (omega (arith, fewer, before));
    one_lab =
        let fewer =
          count-update_where_le_All (Fits c) (has_lab w.clock) (is_owned c w.clock) (assign a)
            w.state.work_items fitting none_added in
        let before = sound.one_lab in rw same (omega (arith, fewer, before));
    leases = rw same (
        All-update_where (λ (r : WorkRow). LeaseOlder tokens (length w.issued) r.lease)
          (is_owned c w.clock) (assign a) w.state.work_items (λ r t h. tt) sound.leases);
    fresh = sound.fresh;
    uncleaned = sound.uncleaned;
    fits = rw same (
        All-map (λ d. All (Fits d) w.state.work_items) (λ d. All (Fits d) finished_rows) w.issued
          (λ d old.
            All-update_where (Fits d) (is_owned c w.clock) (assign a) w.state.work_items
              (λ r t h own token. absurd (ground arith)) old)
          sound.fits);
  }

-- Through a step that may raise.
module _ {A B : Type 0} (P : ApprovalState → Type 0) (s : ApprovalState) where
  pub through :
      (m : Result StateError B) (f : B → Outcome A)
      → P s
      → ((b : B) → m ≡ ok b → P (after s (f b)))
      → P (after s (m >>= f))
  through (ok b) f k h = h b refl
  through (err x) f k h = k

pub through_claim :
    {B : Type 0} (P : World → Type 0) (w : World) (m : Result StateError B)
    (f : B → Outcome (Option WorkClaim))
    → P w
    → ((b : B) → m ≡ ok b → P (claimed w (f b)))
    → P (claimed w (m >>= f))
through_claim P w (ok b) f k h = h b refl
through_claim P w (err x) f k h = k

-- What a step that returned has come from.
pub bound :
    {A B : Type 0} (m : Result StateError B) (f : B → Result StateError A) {x : A}
    → (m >>= f) ≡ ok x
    → (b : B) × (f b ≡ ok x)
bound (ok b) f h = (b, h)
bound (err e) f h = absurd (ground arith)

pub nth-All :
    {A : Type 0} (P : A → Type 0) (n : ℕ) (xs : List A) {x : A} → All P xs → nth n xs ≡ some x → P x
nth-All P n [] a h = absurd (ground arith)
nth-All P zero (y ∷ xs) (p, a) h = subst P (ground arith) p
nth-All P (suc n) (y ∷ xs) (p, a) h = nth-All P n xs a h

abbrev pub SoundAt : (ℕ → String) → World → ApprovalState → Type 0
SoundAt tokens w s = Sound tokens (record w { state = s })
