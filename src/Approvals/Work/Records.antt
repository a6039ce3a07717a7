-- ===== src/Approvals/Work/Records.antt =====
-- adapters/moodle/approval_state.py: the methods by which a claim's holder records what came of its
-- work keep one lab at a time, and the claims' fit.
use moodle_autotask.Base.{
  ℕ, String, ◌≡◌, refl, inl, inr, Bool, true, false, not, ◌&&◌, Option, arith, Bool-cases, All,
}
use moodle_autotask.Approvals.{ApprovalState, after}
use moodle_autotask.Approvals.Work.{WorkClaim, is_cleaned, is_pending, is_central}
use moodle_autotask.Approvals.Work.Calls.{
  Assignment, with_work, add_result, has_result, lab_recorded,
}
use moodle_autotask.Approvals.Work.World.{World, Call, call}
use moodle_autotask.Approvals.Work.Sound.{Fits, Sound}
use moodle_autotask.Approvals.Work.Finish.{AddsNoLab, SoundAt, finish-Sound, finished_rows}
use moodle_autotask.Approvals.Work.Keeps.{call_keeps}

-- The row of a claim that is not cleaned keeps the lab that it has, under every status.
stays_AddsNoLab :
    (c : WorkClaim) (a : Assignment) (moment : ℕ)
    → is_cleaned c.item.status ≡ false
    → ((h : Option String) → a.lab_handle h ≡ h)
    → AddsNoLab c a moment
stays_AddsNoLab c a moment open_status stays w fits own k =
    let (status, mode, handle) = fits (ground arith) (ground arith) in
    let same = stays w.lab_handle in ground arith

module _ (tokens : ℕ → String) (w : World) (c : WorkClaim)
    (fitting : All (Fits c) w.state.work_items) (uncleaned : is_cleaned c.item.status ≡ false)
    (sound : Sound tokens w) where
  added-Sound :
      (moment : ℕ) (payload : String) (b : Bool) (s : ApprovalState)
      → SoundAt tokens w s
      → SoundAt tokens w (after w.state (add_result c moment payload b s))
  added-Sound moment payload true s h = elim (Bool-cases (has_result c s.execution_outbox)) [
    | inl t ↦ rw t sound
    | inr f ↦ rw f (record {
      keys = h.keys;
      one_lab = h.one_lab;
      leases = h.leases;
      fresh = h.fresh;
      uncleaned = h.uncleaned;
      fits = h.fits;
    })
  ]
  added-Sound moment payload false s h = h

  adds_no_lab :
      (handle : String)
      → (is_pending c.item.status && not (is_central c.item.selected_mode)) ≡ true
      → AddsNoLab c (lab_recorded handle w.clock) w.clock
  adds_no_lab handle g r fits own k =
      let (status, mode, handles) = fits (ground arith) (ground arith) in ground arith

  finished-Sound :
      (a : Assignment)
      → AddsNoLab c a w.clock
      → SoundAt tokens w (with_work w.state (finished_rows tokens w c a))
  finished-Sound a none_added =
      finish-Sound tokens w c a (with_work w.state (finished_rows tokens w c a)) refl none_added
        fitting sound

  pub call-Sound : (k : Call) → SoundAt tokens w (after w.state (call c k w.clock w.state))
  call-Sound k =
      call_keeps (SoundAt tokens w) c w.clock w.state sound
        (λ a h. finished-Sound a (stays_AddsNoLab c a w.clock uncleaned h))
        (λ handle g. finished-Sound (lab_recorded handle w.clock) (adds_no_lab handle g))
        (added-Sound w.clock) k
