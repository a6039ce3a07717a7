-- ===== src/Storage.antt =====
-- src/moodle_autotask/adapters/aws/storage_quota.py, on POSIX: what a tree of files occupies, and
-- the admission of a write. The file system is an argument: a tree whose entries carry what each
-- call of `stat`, `open` and `fstat` saw of them (`none` is an `OSError`), so that a tree which
-- changes while it is measured is among the inputs.
pub mod Nodes
pub mod Tree
pub mod Admission
mod Tests
use moodle_autotask.Base.{
  ℕ, ◌+◌, ◌-◌, ◌*◌, ◌/◌, String, Bool, true, false, not, ◌&&◌, ◌||◌, Option, none, some, List, [],
  ◌∷◌, ltb, ◌==◌, if◌then◌else◌, holds, String-discrete, any, Result, ok, err,
}

pub data FileKind : Type 0 where
  directory regular special : FileKind

-- The fields of `os.stat_result` that the module reads; `st_mode` is the kind and the permissions.
pub record Stat : Type 0 where
  pub kind : FileKind
  pub permissions : ℕ
  pub is_indirection : Bool
  pub dev : ℕ
  pub ino : ℕ
  pub nlink : ℕ
  pub uid : ℕ
  pub gid : ℕ
  pub blocks : Option ℕ
  pub size : ℕ

pub record Expected : Type 0 where
  pub uid : Option ℕ
  pub gid : Option ℕ
  pub file_mode : Option ℕ
  pub directory_mode : Option ℕ

pub record StorageDemand : Type 0 where
  pub allocated_bytes : ℕ
  pub nodes : ℕ

pub record StorageLimit : Type 0 where
  pub max_allocated_bytes : ℕ
  pub max_nodes : ℕ

-- `StorageEnvelopeError` and `StorageCapacityError`
pub data StorageError : Type 0 where
  envelope capacity : StorageError

-- `StorageDemand.__add__`
unfoldable pub add_demand : StorageDemand → StorageDemand → StorageDemand
add_demand a b = record {
  allocated_bytes = a.allocated_bytes + b.allocated_bytes;
  nodes = a.nodes + b.nodes;
}

abbrev pub is_directory : FileKind → Bool
is_directory FileKind.directory = true
is_directory _ = false

abbrev pub is_regular : FileKind → Bool
is_regular FileKind.regular = true
is_regular _ = false

-- `expected is None or value == expected`
abbrev pub agrees : Option ℕ → ℕ → Bool
agrees none value = true
agrees (some expected) value = value == expected

-- The test of `_validate_node`, negated: the node may be counted.
abbrev pub is_safe : Expected → Bool → Stat → Bool
is_safe x true s =
    not s.is_indirection
    && is_directory s.kind
    && agrees x.uid s.uid
    && agrees x.gid s.gid
    && agrees x.directory_mode s.permissions
is_safe x false s =
    not s.is_indirection
    && is_regular s.kind
    && s.nlink == 1
    && agrees x.uid s.uid
    && agrees x.gid s.gid
    && agrees x.file_mode s.permissions

unfoldable pub validate_node : Expected → Bool → Stat → Result StorageError Unit
validate_node x as_directory s = if is_safe x as_directory s then ok tt else err envelope

abbrev pub same_kind : FileKind → FileKind → Bool
same_kind FileKind.directory FileKind.directory = true
same_kind FileKind.regular FileKind.regular = true
same_kind FileKind.special FileKind.special = true
same_kind _ _ = false

-- `(st_dev, st_ino, st_mode, st_nlink)` are the same
abbrev pub is_same : Stat → Stat → Bool
is_same a b =
    a.dev == b.dev
    && a.ino == b.ino
    && same_kind a.kind b.kind
    && a.permissions == b.permissions
    && a.nlink == b.nlink

-- `_same_identity` against a later look at the node
unfoldable pub same_identity : Stat → Option Stat → Result StorageError Unit
same_identity before none = err envelope
same_identity before (some after) = if is_same before after then ok tt else err envelope

-- `_allocated_bytes`
unfoldable pub allocated_bytes : Stat → ℕ
allocated_bytes s = elim s.blocks [ none ↦ s.size | some n ↦ n * 512 ]

infixl 5 ◌>>=◌ ◌>>◌
abbrev pub ◌>>=◌ :
    {A B : Type 0} → Result StorageError A → (A → Result StorageError B) → Result StorageError B
ok a >>= f = f a
err e >>= _ = err e

abbrev pub ◌>>◌ :
    {A B : Type 0} → Result StorageError A → Result StorageError B → Result StorageError B
m >> k = m >>= λ _. k

-- An entry of a directory: its name, the first `stat`, and the two later looks at it. It is a
-- `folder` where the first `stat` says so (`S_ISDIR`), and has its own entries then.
mutual
  pub data Entry : Type 0 where
    file : (name : String) (before opened after : Option Stat) → Entry
    folder : (name : String) (before opened after : Option Stat) → Entries → Entry

  pub data Entries : Type 0 where
    no_entries : Entries
    entry : Entry → Entries → Entries

abbrev pub or_envelope : Option Stat → Result StorageError Stat
or_envelope none = err envelope
or_envelope (some s) = ok s

unfoldable pub own_demand : Stat → StorageDemand
unfolding allocated_bytes
own_demand s = record { allocated_bytes = allocated_bytes s; nodes = 1 }

-- One pass of the loop of `_measure_directory` over an entry that is no excluded one, and the
-- loop, with the total so far.
unfoldable mutual
  pub measure_entry : Expected → Entry → Result StorageError StorageDemand
  measure_entry x (file name before opened after) = do
    s ← or_envelope before
    validate_node x false s
    same_identity s opened
    same_identity s after
    ok (own_demand s)
  measure_entry x (folder name before opened after inside) = do
    s ← or_envelope before
    validate_node x true s
    same_identity s opened
    below ← measure_entries x inside
    same_identity s after
    ok (add_demand (own_demand s) below)

  pub measure_entries : Expected → Entries → Result StorageError StorageDemand
  measure_entries x no_entries = ok (record { allocated_bytes = 0; nodes = 0 })
  measure_entries x (entry e es) = do
    first ← measure_entry x e
    rest ← measure_entries x es
    ok (add_demand first rest)

abbrev name_of : Entry → String
name_of (file name _ _ _) = name
name_of (folder name _ _ _ _) = name

-- `if name in root_exclude: continue`
unfoldable pub without : List String → Entries → Entries
without excluded no_entries = no_entries
without excluded (entry e es) =
    if any (λ n. holds (String-discrete (name_of e) n)) excluded
    then without excluded es
    else entry e (without excluded es)

-- `measure_tree_no_follow` at a root with these looks at it; `exclude` holds at the root alone
unfoldable pub measure_tree_no_follow :
    Expected
    → List String
    → (before opened after : Option Stat) → Entries
    → Result StorageError StorageDemand
unfolding measure_entry without
measure_tree_no_follow x excluded before opened after inside =
    measure_entry x (folder "" before opened after (without excluded inside))

-- `_ROOT_HEADROOM_BYTES` and `_ROOT_HEADROOM_NODES`
abbrev pub root_headroom_bytes : ℕ
root_headroom_bytes = 12 * (1024 * 1024 * 1024)

abbrev pub root_headroom_nodes : ℕ
root_headroom_nodes = 100000

-- What `fstatvfs` tells; `f_favail` is `none` where it is missing or negative.
pub record FilesystemStats : Type 0 where
  pub f_frsize : ℕ
  pub f_bsize : ℕ
  pub f_bavail : ℕ
  pub f_favail : Option ℕ

-- `filesystem.f_frsize or filesystem.f_bsize`
abbrev pub fragment : FilesystemStats → ℕ
fragment fs = if fs.f_frsize == 0 then fs.f_bsize else fs.f_frsize

abbrev lacks_nodes : Option ℕ → StorageDemand → Bool
lacks_nodes none demand = false
lacks_nodes (some available) demand = ltb available (demand.nodes + root_headroom_nodes)

-- What the calls that open the root, and that ask for its file system, saw; `none` is an `OSError`.
pub record RootLook : Type 0 where
  pub before : Option Stat
  pub opened : Option Stat
  pub stats : Option FilesystemStats
  pub after : Option Stat

abbrev or_capacity : {A : Type 0} → Option A → Result StorageError A
or_capacity none = err capacity
or_capacity (some a) = ok a

-- The `try` block that `admit_owner_write` and `storage_demand_for_files` share. An `OSError`
-- becomes a `StorageCapacityError`, while an exchanged root raises a `StorageEnvelopeError`.
unfoldable pub filesystem_of : RootLook → Result StorageError FilesystemStats
unfolding same_identity
filesystem_of look = do
  before ← or_capacity look.before
  opened ← or_capacity look.opened
  same_identity before (some opened)
  stats ← or_capacity look.stats
  after ← or_capacity look.after
  same_identity before (some after)
  ok stats

-- The last test of `admit_owner_write`.
unfoldable pub check_headroom : FilesystemStats → StorageDemand → Result StorageError Unit
check_headroom fs demand =
    if ltb (fs.f_bavail * fragment fs) (demand.allocated_bytes + root_headroom_bytes)
      || lacks_nodes fs.f_favail demand
    then err capacity
    else ok tt

-- `admit_owner_write`, from what `measure_tree_no_follow` returned or raised
unfoldable pub admit_owner_write :
    Result StorageError StorageDemand
    → StorageDemand
    → StorageLimit
    → (root_headroom : Bool) → RootLook
    → Result StorageError StorageDemand
unfolding add_demand
admit_owner_write measured demand limit root_headroom look = do
  current ← measured
  let projected = add_demand current demand
  if ltb limit.max_allocated_bytes projected.allocated_bytes || ltb limit.max_nodes projected.nodes
      then err capacity
      else ok tt
  if root_headroom then filesystem_of look >>= (λ fs. check_headroom fs demand) else ok tt
  ok projected

-- `((size + unit - 1) // unit) * unit`
unfoldable pub round_up : ℕ → ℕ → ℕ
round_up unit size = ((size + unit - 1) / unit) * unit

unfoldable pub sum_rounded : ℕ → List ℕ → ℕ
unfolding round_up
sum_rounded unit [] = 0
sum_rounded unit (size ∷ sizes) = round_up unit size + sum_rounded unit sizes

-- `storage_demand_for_files`; a unit of 0 makes `//` raise, here `none`
unfoldable pub storage_demand_for_files :
    RootLook → List ℕ → ℕ → Result StorageError (Option StorageDemand)
unfolding sum_rounded
storage_demand_for_files look sizes nodes = do
  fs ← filesystem_of look
  ok (
      if fragment fs == 0
      then none
      else some (record { allocated_bytes = sum_rounded (fragment fs) sizes; nodes = nodes }))
