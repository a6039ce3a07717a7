-- ===== src/Approvals/Work/Resolved.antt =====
-- adapters/moodle/approval_state.py: time that passes, and the requests that are resolved, give no
-- row a lab, and add at most a row for an event that had none.
use moodle_autotask.Base.{
  ℕ, ◌+◌, ◌≤◌, String, ◌≡◌, refl, sym, ap, subst, ◌∙◌, inl, inr, false, ◌||◌, List, [], ◌∷◌, arith,
  Bool-cases, String-discrete, any, All,
}
use moodle_autotask.Table.{count, All-map, count_mono}
use moodle_autotask.Events.{NotificationEvent, same_text}
use moodle_autotask.Approvals.{CallbackAction, Decision, WorkRow, ApprovalState}
use moodle_autotask.Approvals.Requests.{Runtime, resolve_request, enqueue_work, new_work}
use moodle_autotask.Approvals.Work.{WorkClaim, has_event, has_lab}
use moodle_autotask.Approvals.Work.World.{World}
use moodle_autotask.Approvals.Work.Sound.{Fits, Sound}
use moodle_autotask.Approvals.Work.Finish.{SoundAt}

-- The time goes on.
pub later-Sound :
    (tokens : ℕ → String) (w : World) (seconds : ℕ)
    → Sound tokens w
    → Sound tokens (record w { clock = w.clock + seconds })
later-Sound tokens w seconds sound = record {
  keys = sound.keys;
  one_lab =
      let fewer =
        count_mono (has_lab (w.clock + seconds)) (has_lab w.clock) w.state.work_items
          (λ r h. ground arith) in
      let before = sound.one_lab in omega (arith, fewer, before);
  leases = sound.leases;
  fresh = sound.fresh;
  uncleaned = sound.uncleaned;
  fits = sound.fits;
}

-- A database with the same work.
pub same-Sound :
    (tokens : ℕ → String) (w : World) (s : ApprovalState)
    → s.work_items ≡ w.state.work_items
    → Sound tokens w
    → SoundAt tokens w s
same-Sound tokens w s same sound = record {
  keys = rw same sound.keys;
  one_lab = rw same sound.one_lab;
  leases = rw same sound.leases;
  fresh = sound.fresh;
  uncleaned = sound.uncleaned;
  fits =
      subst (λ (x : List WorkRow). All (λ (d : WorkClaim). All (Fits d) x) w.issued) (sym same)
        sound.fits;
}

module _ (rt : Runtime) (tokens : ℕ → String) (w : World) (sound : Sound tokens w) where
  none_counted :
      (id key : String) (rows : List WorkRow)
      → any (λ (v : WorkRow). same_text v.event_id id || same_text v.provision_key key) rows ≡ false
      → count (has_event id) rows ≡ 0
  unfolding count
  none_counted id key [] h = refl
  none_counted id key (v ∷ rows) h = let rest = none_counted id key rows in ground arith

  keys_enqueue :
      (e : NotificationEvent) (moment : ℕ) (rows : List WorkRow)
      → count (has_event e.event_id) rows ≡ 0
      → ((x : String) → count (has_event x) rows ≤ 1)
      → (x : String) → count (has_event x) (new_work rt e moment ∷ rows) ≤ 1
  unfolding count
  keys_enqueue e moment rows zero_rows keys x = elim (String-discrete e.event_id x) [
    | yes same ↦
        let none_here = ap (λ y. count (has_event y) rows) (sym same) ∙ zero_rows in ground arith
    | no other ↦ let old = keys x in ground arith
  ]

  new-Sound :
      (e : NotificationEvent) (s : ApprovalState)
      → s.work_items ≡ new_work rt e w.clock ∷ w.state.work_items
      → count (has_event e.event_id) w.state.work_items ≡ 0
      → SoundAt tokens w s
  unfolding count
  new-Sound e s same zero_rows = record {
    keys = rw same (keys_enqueue e w.clock w.state.work_items zero_rows sound.keys);
    one_lab = let before = sound.one_lab in rw same (ground (arith, before));
    leases = rw same (tt, sound.leases);
    fresh = sound.fresh;
    uncleaned = sound.uncleaned;
    fits =
        subst (λ (x : List WorkRow). All (λ (d : WorkClaim). All (Fits d) x) w.issued) (sym same)
          (All-map (λ (d : WorkClaim). All (Fits d) w.state.work_items)
            (λ (d : WorkClaim). All (Fits d) (new_work rt e w.clock ∷ w.state.work_items)) w.issued
            (λ d h. (λ own held. absurd (ground arith), h)) sound.fits);
  }

  enqueue-Sound :
      (e : NotificationEvent) (s : ApprovalState)
      → s.work_items ≡ enqueue_work rt e w.clock w.state.work_items
      → SoundAt tokens w s
  unfolding enqueue_work
  enqueue-Sound e s same =
      let n = new_work rt e w.clock in
      elim (Bool-cases (
        any
          (λ (v : WorkRow).
            same_text v.event_id n.event_id || same_text v.provision_key n.provision_key)
          w.state.work_items)) [
            | inl t ↦ same-Sound tokens w s (ground arith) sound
            | inr f ↦
                new-Sound e s (ground arith)
                  (none_counted n.event_id n.provision_key w.state.work_items f)
          ]

  pub request-Sound :
      (user_id : ℕ) (a : CallbackAction) (e : NotificationEvent) (d : Decision)
      → SoundAt tokens w (resolve_request rt user_id w.clock w.state a e d).1
  unfolding resolve_request
  request-Sound user_id CallbackAction.details e d = sound
  request-Sound user_id CallbackAction.approve e Decision.pending = enqueue-Sound e _ refl
  request-Sound user_id CallbackAction.approve e Decision.approved = enqueue-Sound e _ refl
  request-Sound user_id CallbackAction.approve e Decision.ignored = sound
  request-Sound user_id CallbackAction.ignore e Decision.pending = same-Sound tokens w _ refl sound
  request-Sound user_id CallbackAction.ignore e Decision.ignored = sound
  request-Sound user_id CallbackAction.ignore e Decision.approved = sound
