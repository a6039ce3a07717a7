-- ===== src/Approvals/Work/Taken.antt =====
-- adapters/moodle/approval_state.py: `claim_work` keeps one lab at a time, and hands out claims that
-- fit their rows.
use moodle_autotask.Base.{
  ℕ, suc, ◌+◌, ◌≤◌, String, ◌≡◌, refl, sym, ap, subst, ◌∙◌, ◌≢◌, inl, inr, true, false, not, ◌&&◌,
  Option, none, some, List, ◌∷◌, arith, Bool-cases, length, All,
}
use moodle_autotask.Table.{
  update_where, count, count-update_where_le, count-update_where_le_All, count_mono_All,
  All-update_where_to, All-map, All-both, any_denied,
}
use moodle_autotask.Approvals.{WorkRow, Lease, ApprovalState}
use moodle_autotask.Approvals.Work.{
  WorkClaim, has_event, has_lab, is_pending, is_central, is_blocked, is_claimable, is_taken,
  set_taken,
}
use moodle_autotask.Approvals.Work.World.{World}
use moodle_autotask.Approvals.Work.Sound.{Older, LeaseOlder, has_token, Fits, Sound}
use moodle_autotask.Approvals.Work.Found.{text_of}

module _ (tokens : ℕ → String) (distinct : (m n : ℕ) → tokens m ≡ tokens n → m ≡ n) (w : World)
    (sound : Sound tokens w) (v : WorkRow) (c : WorkClaim) (owner : String)
    (lease_seconds : ℕ) where
  abbrev now : ℕ
  now = length w.issued

  abbrev rows : List WorkRow
  rows = w.state.work_items

  abbrev taken_rows : List WorkRow
  taken_rows =
      update_where (is_taken w.clock v.event_id)
        (set_taken owner (tokens now) (w.clock + lease_seconds)) rows

  abbrev IsAlone : WorkRow → Type 0
  IsAlone q = has_event v.event_id q ≡ true → q ≡ v

  later : (t : String) → Older tokens now t → Older tokens (suc now) t
  later t (k, less, same) = (k, omega (arith, less), same)

  later_lease : (l : Option Lease) → LeaseOlder tokens now l → LeaseOlder tokens (suc now) l
  later_lease none h = tt
  later_lease (some l) h = later l.token h

  newest : Older tokens (suc now) (tokens now)
  newest = (now, omega arith, refl)

  clash : (t : String) → Older tokens now t → t ≢ tokens now
  clash t (k, less, same) h = let e = distinct k now (sym same ∙ h) in omega (arith, less, e)

  no_token : (l : Option Lease) → LeaseOlder tokens now l → has_token (tokens now) l ≡ true → ⊥
  no_token none h k = ground arith
  no_token (some l) h k = clash l.token h (text_of l.token (tokens now) k)

  keys_stay : (e : String) → count (has_event e) taken_rows ≤ 1
  keys_stay e =
      let fewer =
        count-update_where_le (has_event e) (is_taken w.clock v.event_id)
          (set_taken owner (tokens now) (w.clock + lease_seconds)) rows (λ r t h. h) in
      let before = sound.keys e in omega (arith, fewer, before)

  leases_stay : All (λ (r : WorkRow). LeaseOlder tokens (suc now) r.lease) taken_rows
  leases_stay =
      All-update_where_to (λ (r : WorkRow). LeaseOlder tokens now r.lease)
        (λ (r : WorkRow). LeaseOlder tokens (suc now) r.lease) (is_taken w.clock v.event_id)
        (set_taken owner (tokens now) (w.clock + lease_seconds)) rows (λ r h t. newest)
        (λ r h t. later_lease r.lease h) sound.leases

  -- Either no other row has a lab, or the row that is claimed gets none.
  blocked_lab :
      is_blocked w.clock rows v ≡ false
      → (not (is_central v.selected_mode) && is_pending v.status) ≡ true
      → count (has_lab w.clock) taken_rows ≤ 1
  blocked_lab free starts =
      let denied =
        any_denied (λ (q : WorkRow). not (has_event v.event_id q) && has_lab w.clock q) rows
          (ground arith) in
      let only =
        All-update_where_to
          (λ (q : WorkRow). (not (has_event v.event_id q) && has_lab w.clock q) ≡ false)
          (λ (q : WorkRow). has_lab w.clock q ≡ true → has_event v.event_id q ≡ true)
          (is_taken w.clock v.event_id) (set_taken owner (tokens now) (w.clock + lease_seconds))
          rows (λ r h t lab. ground arith) (λ r h t lab. ground arith) denied in
      let fewer =
        count_mono_All (λ (q : WorkRow). has_lab w.clock q ≡ true → has_event v.event_id q ≡ true)
          (has_lab w.clock) (has_event v.event_id) taken_rows only (λ r h lab. h lab) in
      let one = keys_stay v.event_id in omega (arith, fewer, one)

  other_lab :
      All IsAlone rows
      → (not (is_central v.selected_mode) && is_pending v.status) ≡ false
      → count (has_lab w.clock) taken_rows ≤ 1
  other_lab alone starts =
      let fewer =
        count-update_where_le_All IsAlone (has_lab w.clock) (is_taken w.clock v.event_id)
          (set_taken owner (tokens now) (w.clock + lease_seconds)) rows alone
          (λ r h t lab.
            let same = h (ground arith) in
            let mode = ap (λ x. x.selected_mode) same in
            let status = ap (λ x. x.status) same in ground arith) in
      let before = sound.one_lab in omega (arith, fewer, before)

  new-Fits :
      c.lease_token ≡ tokens now
      → (v.event_id ≡ c.item.event.event_id)
      → (v.status ≡ c.item.status)
      → (v.selected_mode ≡ c.item.selected_mode)
      → (v.lab_handle ≡ c.item.lab_handle)
      → All IsAlone rows
      → All (Fits c) taken_rows
  new-Fits token id status mode handle alone =
      All-update_where_to (λ (r : WorkRow). LeaseOlder tokens now r.lease × IsAlone r) (Fits c)
        (is_taken w.clock v.event_id) (set_taken owner (tokens now) (w.clock + lease_seconds)) rows
        (λ r (_, h) t own held.
          let same = h (ground arith) in
          (
            ap (λ x. x.status) same ∙ status,
            ap (λ x. x.selected_mode) same ∙ mode,
            ap (λ x. x.lab_handle) same ∙ handle,
          ))
        (λ r (older, h) t own held.
          absurd (no_token r.lease older (subst (λ x. has_token x r.lease ≡ true) token held)))
        (All-both _ _ rows sound.leases alone)

  old-Fits :
      (d : WorkClaim) → Older tokens now d.lease_token → All (Fits d) rows → All (Fits d) taken_rows
  old-Fits d older fits =
      All-update_where_to (Fits d) (Fits d) (is_taken w.clock v.event_id)
        (set_taken owner (tokens now) (w.clock + lease_seconds)) rows
        (λ r h t own held.
          absurd (clash d.lease_token older (sym (text_of (tokens now) d.lease_token held))))
        (λ r h t. h) fits

  pub taken-Sound :
      (s : ApprovalState)
      → s.work_items ≡ taken_rows
      → is_blocked w.clock rows v ≡ false
      → is_claimable w.clock v ≡ true
      → All IsAlone rows
      → c.lease_token ≡ tokens now
      → (v.event_id ≡ c.item.event.event_id)
      → (v.status ≡ c.item.status)
      → (v.selected_mode ≡ c.item.selected_mode)
      → (v.lab_handle ≡ c.item.lab_handle)
      → Sound tokens (record w { state = s; issued = c ∷ w.issued })
  taken-Sound s same free open_row alone token id status mode handle = record {
    keys = rw same keys_stay;
    one_lab = rw same (elim (Bool-cases (not (is_central v.selected_mode) && is_pending v.status)) [
      | inl t ↦ blocked_lab free t
      | inr f ↦ other_lab alone f
    ]);
    leases = rw same leases_stay;
    fresh = (
      subst (Older tokens (suc now)) (sym token) newest,
      All-map _ _ w.issued (λ d h. later d.lease_token h) sound.fresh,
    );
    uncleaned = (ground arith, sound.uncleaned);
    fits =
        subst (λ (x : List WorkRow). All (λ (d : WorkClaim). All (Fits d) x) (c ∷ w.issued))
          (sym same)
          (
            new-Fits token id status mode handle alone,
            All-map (λ d. Older tokens now d.lease_token × All (Fits d) rows)
                (λ d. All (Fits d) taken_rows) w.issued (λ d (older, h). old-Fits d older h)
                (All-both _ _ w.issued sound.fresh sound.fits),
          );
  }
