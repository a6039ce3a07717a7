-- ===== src/Storage/Admission.antt =====
-- adapters/aws/storage_quota.py: what an admission guarantees.
use moodle_autotask.Base.{
  ℕ, ◌+◌, ◌-◌, ◌*◌, ◌/◌, ◌≤◌, ◌<◌, ◌≡◌, refl, ap, inl, inr, true, false, some, List, [], ◌∷◌, arith,
  ◌==◌, Result-cases, ok, err,
}
use native.Mathlib.Nat.{div-add-mod, mod-lt}
use moodle_autotask.Storage.{
  StorageDemand, StorageLimit, StorageError, FilesystemStats, RootLook, fragment,
  root_headroom_bytes, root_headroom_nodes, add_demand, admit_owner_write, filesystem_of,
  check_headroom, round_up, sum_rounded, storage_demand_for_files,
}

-- A demand stays within a limit.
pub record Fits (d : StorageDemand) (limit : StorageLimit) : Type 0 where
  pub bytes : d.allocated_bytes ≤ limit.max_allocated_bytes
  pub nodes : d.nodes ≤ limit.max_nodes

-- The file system has room for a demand and for the headroom of the root.
pub record HasHeadroom (fs : FilesystemStats) (d : StorageDemand) : Type 0 where
  pub bytes : d.allocated_bytes + root_headroom_bytes ≤ fs.f_bavail * fragment fs
  pub nodes : (n : ℕ) → fs.f_favail ≡ some n → d.nodes + root_headroom_nodes ≤ n

headroom_checked :
    (fs : FilesystemStats) (d : StorageDemand) → check_headroom fs d ≡ ok tt → HasHeadroom fs d
unfolding check_headroom
headroom_checked fs d h = record { bytes = ground arith; nodes = λ n e. ground arith }

-- An admission with the headroom test returns exactly what is there and what is asked for, added
-- up; the sum is within the limit, and the file system has room for the demand and the headroom.
pub admitted-Fits :
    (current demand : StorageDemand) (limit : StorageLimit) (look : RootLook)
    {projected : StorageDemand}
    → admit_owner_write (ok current) demand limit true look ≡ ok projected
    → (projected ≡ add_demand current demand)
      × Fits projected limit
      × ((fs : FilesystemStats) × (filesystem_of look ≡ ok fs) × HasHeadroom fs demand)
unfolding admit_owner_write
admitted-Fits current demand limit look h = elim (Result-cases (filesystem_of look)) [
  | inr (e, q) ↦ absurd (ground arith)
  | inl (fs, q) ↦ elim (Result-cases (check_headroom fs demand)) [
    | inr (e, r) ↦ absurd (ground arith)
    | inl (t, r) ↦ (
      ground arith,
      record { bytes = ground arith; nodes = ground arith },
      (fs, q, headroom_checked fs demand (ground arith)),
    )
  ]
]

-- What a file of this size is charged: the least number of whole units that holds it.
pub record IsCharge (unit size charge : ℕ) : Type 0 where
  pub blocks : ℕ
  pub whole : charge ≡ blocks * unit
  pub enough : size ≤ charge
  pub least : charge < size + unit

-- What files of these sizes are charged together.
pub data Charges (unit : ℕ) : List ℕ → ℕ → Type 0 where
  nothing : Charges unit [] 0
  one_more :
      (size charge : ℕ) {sizes : List ℕ} {rest : ℕ}
      → IsCharge unit size charge
      → Charges unit sizes rest
      → Charges unit (size ∷ sizes) (charge + rest)

round_up-IsCharge : (unit size : ℕ) → 0 < unit → IsCharge unit size (round_up unit size)
unfolding round_up
round_up-IsCharge unit size h =
    let split = div-add-mod (size + unit - 1) unit in
    let small = mod-lt (size + unit - 1) h in
    record {
      blocks = (size + unit - 1) / unit;
      whole = refl;
      enough = omega arith;
      least = omega arith;
    }

sum_rounded-Charges :
    (unit : ℕ) (sizes : List ℕ) → 0 < unit → Charges unit sizes (sum_rounded unit sizes)
unfolding sum_rounded
sum_rounded-Charges unit [] h = nothing
sum_rounded-Charges unit (size ∷ sizes) h =
    one_more size (round_up unit size) (round_up-IsCharge unit size h)
      (sum_rounded-Charges unit sizes h)

-- Where the file system can be asked and its unit is not 0, the demand of separately created files
-- is the number of nodes that was given and the sum of what the files are charged, each the least
-- number of whole units that holds it.
pub storage_demand_for_files-Charges :
    (look : RootLook) (sizes : List ℕ) (nodes : ℕ) {fs : FilesystemStats}
    → filesystem_of look ≡ ok fs
    → 0 < fragment fs
    → (charge : ℕ) × (storage_demand_for_files look sizes nodes
        ≡ ok (some (record { allocated_bytes = charge; nodes = nodes })))
      × Charges (fragment fs) sizes charge
unfolding storage_demand_for_files
storage_demand_for_files-Charges look sizes nodes {fs = fs} e h =
    let positive : (fragment fs == 0) ≡ false = ground arith in
    (
      sum_rounded (fragment fs) sizes,
      rw (e, positive) refl,
      sum_rounded-Charges (fragment fs) sizes h,
    )

-- A run of writers that each hold the admission lock: what the tree holds is measured, a demand is
-- admitted or refused, and an admitted writer adds at most what it has demanded.
pub data Writes (limit : StorageLimit) : StorageDemand → StorageDemand → Type 0 where
  none_left : (d : StorageDemand) → Writes limit d d
  refused :
      {a b : StorageDemand} (demand : StorageDemand) (look : RootLook) (e : StorageError)
      → admit_owner_write (ok a) demand limit true look ≡ err e
      → Writes limit a b
      → Writes limit a b
  admitted :
      {a b : StorageDemand} (demand written : StorageDemand) (look : RootLook)
      (projected : StorageDemand)
      → admit_owner_write (ok a) demand limit true look ≡ ok projected
      → written.allocated_bytes ≤ demand.allocated_bytes
      → written.nodes ≤ demand.nodes
      → Writes limit (add_demand a written) b
      → Writes limit a b

within :
    (a demand written projected : StorageDemand) (limit : StorageLimit) (look : RootLook)
    → admit_owner_write (ok a) demand limit true look ≡ ok projected
    → written.allocated_bytes ≤ demand.allocated_bytes
    → written.nodes ≤ demand.nodes
    → Fits (add_demand a written) limit
unfolding add_demand
within a demand written projected limit look h wb wn =
    let (same, fits, _) = admitted-Fits a demand limit look h in
    let bytes = ap (λ (d : StorageDemand). d.allocated_bytes) same in
    let nodes = ap (λ (d : StorageDemand). d.nodes) same in
    record { bytes = omega (arith, fits.bytes, bytes); nodes = omega (arith, fits.nodes, nodes) }

-- However many writers take turns under the lock, and whichever of them are refused: if each that
-- is admitted adds at most what it has demanded, a tree that is within its limit stays within it.
pub Writes-fit :
    {limit : StorageLimit} {a b : StorageDemand} → Writes limit a b → Fits a limit → Fits b limit
Writes-fit (none_left d) f = f
Writes-fit (refused demand look e h rest) f = Writes-fit rest f
Writes-fit (admitted {a = a} demand written look projected h wb wn rest) f =
    Writes-fit rest (within a demand written projected _ look h wb wn)
