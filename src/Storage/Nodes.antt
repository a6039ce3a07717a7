-- ===== src/Storage/Nodes.antt =====
-- adapters/aws/storage_quota.py: which nodes may be counted, and what one occupies.
use moodle_autotask.Base.{ℕ, ◌*◌, ◌≡◌, refl, true, false, Option, none, some, arith}
use moodle_autotask.Storage.{
  Stat, FileKind, Expected, agrees, same_kind, is_directory, is_regular, is_safe, is_same,
  allocated_bytes, own_demand,
}

-- A value is the one that is asked for, if one is.
abbrev pub Matches : Option ℕ → ℕ → Type 0
Matches none value = Unit
Matches (some expected) value = value ≡ expected

-- A directory that may be counted.
pub record IsDirectory (x : Expected) (s : Stat) : Type 0 where
  pub direct : s.is_indirection ≡ false
  pub kind : s.kind ≡ FileKind.directory
  pub owner : Matches x.uid s.uid
  pub group : Matches x.gid s.gid
  pub mode : Matches x.directory_mode s.permissions

-- A file that may be counted.
pub record IsFile (x : Expected) (s : Stat) : Type 0 where
  pub direct : s.is_indirection ≡ false
  pub kind : s.kind ≡ FileKind.regular
  pub one_link : s.nlink ≡ 1
  pub owner : Matches x.uid s.uid
  pub group : Matches x.gid s.gid
  pub mode : Matches x.file_mode s.permissions

-- The same node, with the same type, permissions and links.
pub record IsSameNode (s t : Stat) : Type 0 where
  pub device : s.dev ≡ t.dev
  pub inode : s.ino ≡ t.ino
  pub kind : s.kind ≡ t.kind
  pub permissions : s.permissions ≡ t.permissions
  pub links : s.nlink ≡ t.nlink

-- The bytes of blocks of 512, or the size where there are no blocks.
abbrev pub occupied : Option ℕ → ℕ → ℕ
occupied none size = size
occupied (some blocks) size = blocks * 512

abbrev pub bytes_at : Option Stat → ℕ
bytes_at none = 0
bytes_at (some s) = occupied s.blocks s.size

own_bytes :
    (blocks : Option ℕ) (size : ℕ)
    → elim blocks [ none ↦ size | some n ↦ n * 512 ] ≡ occupied blocks size
own_bytes none size = refl
own_bytes (some n) size = refl

pub own_demand_lem :
    (s : Stat) → own_demand s ≡ record { allocated_bytes = bytes_at (some s); nodes = 1 }
unfolding own_demand allocated_bytes
own_demand_lem s = rw (own_bytes s.blocks s.size) refl

Matches-agrees : (o : Option ℕ) (n : ℕ) → Matches o n → agrees o n ≡ true
Matches-agrees none n h = refl
Matches-agrees (some m) n h = ground arith

agrees-Matches : (o : Option ℕ) (n : ℕ) → agrees o n ≡ true → Matches o n
agrees-Matches none n h = tt
agrees-Matches (some m) n h = ground arith

pub IsFile-is_safe : (x : Expected) (s : Stat) → IsFile x s → is_safe x false s ≡ true
IsFile-is_safe x s h =
    let uid = Matches-agrees x.uid s.uid h.owner in
    let gid = Matches-agrees x.gid s.gid h.group in
    let mode = Matches-agrees x.file_mode s.permissions h.mode in
    rw (h.direct, h.kind, h.one_link, uid, gid, mode) refl

pub IsDirectory-is_safe : (x : Expected) (s : Stat) → IsDirectory x s → is_safe x true s ≡ true
IsDirectory-is_safe x s h =
    let uid = Matches-agrees x.uid s.uid h.owner in
    let gid = Matches-agrees x.gid s.gid h.group in
    let mode = Matches-agrees x.directory_mode s.permissions h.mode in
    rw (h.direct, h.kind, uid, gid, mode) refl

directory : {k : FileKind} → is_directory k ≡ true → k ≡ FileKind.directory
directory {k = FileKind.directory} h = refl
directory {k = FileKind.regular} h = absurd (ground arith)
directory {k = FileKind.special} h = absurd (ground arith)

regular : {k : FileKind} → is_regular k ≡ true → k ≡ FileKind.regular
regular {k = FileKind.directory} h = absurd (ground arith)
regular {k = FileKind.regular} h = refl
regular {k = FileKind.special} h = absurd (ground arith)

kinds : (k l : FileKind) → same_kind k l ≡ true → k ≡ l
kinds FileKind.directory FileKind.directory h = refl
kinds FileKind.directory FileKind.regular h = absurd (ground arith)
kinds FileKind.directory FileKind.special h = absurd (ground arith)
kinds FileKind.regular FileKind.directory h = absurd (ground arith)
kinds FileKind.regular FileKind.regular h = refl
kinds FileKind.regular FileKind.special h = absurd (ground arith)
kinds FileKind.special FileKind.directory h = absurd (ground arith)
kinds FileKind.special FileKind.regular h = absurd (ground arith)
kinds FileKind.special FileKind.special h = refl

pub is_safe-IsFile : (x : Expected) (s : Stat) → is_safe x false s ≡ true → IsFile x s
is_safe-IsFile x s h = record {
  direct = ground arith;
  kind = regular (ground arith);
  one_link = ground arith;
  owner = agrees-Matches x.uid s.uid (ground arith);
  group = agrees-Matches x.gid s.gid (ground arith);
  mode = agrees-Matches x.file_mode s.permissions (ground arith);
}

pub is_safe-IsDirectory : (x : Expected) (s : Stat) → is_safe x true s ≡ true → IsDirectory x s
is_safe-IsDirectory x s h = record {
  direct = ground arith;
  kind = directory (ground arith);
  owner = agrees-Matches x.uid s.uid (ground arith);
  group = agrees-Matches x.gid s.gid (ground arith);
  mode = agrees-Matches x.directory_mode s.permissions (ground arith);
}

same_kind_refl : (k : FileKind) → same_kind k k ≡ true
same_kind_refl FileKind.directory = refl
same_kind_refl FileKind.regular = refl
same_kind_refl FileKind.special = refl

pub IsSameNode-is_same : (s t : Stat) → IsSameNode s t → is_same s t ≡ true
IsSameNode-is_same s t h =
    let k = same_kind_refl t.kind in
    let kinds : same_kind s.kind t.kind ≡ true = rw h.kind k in
    ground (arith, h.device, h.inode, h.permissions, h.links)

pub is_same-IsSameNode : (s t : Stat) → is_same s t ≡ true → IsSameNode s t
is_same-IsSameNode s t h = record {
  device = ground arith;
  inode = ground arith;
  kind = kinds s.kind t.kind (ground arith);
  permissions = ground arith;
  links = ground arith;
}
