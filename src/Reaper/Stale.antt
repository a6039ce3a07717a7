-- ===== src/Reaper/Stale.antt =====
-- infra/aws/controller/lab_reaper.py: what makes an instance eligible.
use moodle_autotask.Base.{
  ℕ, ◌+◌, ◌≤◌, String, ◌≡◌, refl, sym, ap, ◌∙◌, ◌≢◌, true, Option, none, some, List, arith,
  String-discrete,
}
use moodle_autotask.Reaper.Tags.{IsOwned, owned_lab-IsOwned}
use moodle_autotask.Reaper.{Tag, Instance, is_present, is_active, is_stale, eligible_instance}
use moodle_autotask.Reaper.Batch.{Settings, eligible}

-- `_ACTIVE_OR_RESIDUAL_STATES`, as a description.
pub data IsActive : String → Type 0 where
  pending : IsActive "pending"
  running : IsActive "running"
  stopping : IsActive "stopping"
  stopped : IsActive "stopped"

-- A lab of this project and environment that is there and has outlived its time.
pub record IsStale (x : Settings) (i : Instance) (id : String) : Type 0 where
  pub named : i.instance_id ≡ some id
  pub present : id ≢ ""
  pub active : (state : String) × (i.state ≡ some state) × IsActive state
  pub old : (launched : ℕ) × (i.launched ≡ some launched) × (launched + x.hard_ttl_seconds ≤ x.now)
  pub owned :
      (tags : List (Option Tag)) × (i.tags ≡ some tags) × IsOwned x.project x.environment tags

still-IsActive :
    (o : Option String) → is_active o ≡ true → (state : String) × (o ≡ some state) × IsActive state
still-IsActive none h = absurd (ground arith)
still-IsActive (some s) h = elim (String-discrete s "pending") [
  | yes e ↦ (s, refl, rw e pending)
  | no a ↦ elim (String-discrete s "running") [
    | yes e ↦ (s, refl, rw e running)
    | no b ↦ elim (String-discrete s "stopping") [
      | yes e ↦ (s, refl, rw e stopping)
      | no c ↦ elim (String-discrete s "stopped") [
        | yes e ↦ (s, refl, rw e stopped)
        | no d ↦ absurd (ground arith)
      ]
    ]
  ]
]

old_enough :
    (now ttl : ℕ) (launched : Option ℕ)
    → is_stale now ttl launched ≡ true
    → (l : ℕ) × (launched ≡ some l) × (l + ttl ≤ now)
old_enough now ttl none h = absurd (ground arith)
old_enough now ttl (some l) h = (l, refl, ground arith)

not_empty : (id : String) → is_present (some id) ≡ true → id ≢ ""
not_empty id h e = ground arith

pub eligible-IsStale :
    (x : Settings) (i : Instance) {id : String} → eligible x i ≡ some id → IsStale x i id
unfolding eligible_instance
eligible-IsStale x i {id = id} h =
    let named : i.instance_id ≡ some id = ground arith in
    let there : is_present i.instance_id ≡ true = ground arith in
    let stale : is_stale x.now x.hard_ttl_seconds i.launched ≡ true = ground arith in
    record {
      named = named;
      present = not_empty id (ap is_present (sym named) ∙ there);
      active = still-IsActive i.state (ground arith);
      old = old_enough x.now x.hard_ttl_seconds i.launched stale;
      owned = owned_lab-IsOwned x.project x.environment i.tags (ground arith);
    }
