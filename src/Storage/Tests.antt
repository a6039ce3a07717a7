-- ===== src/Storage/Tests.antt =====
-- adapters/aws/storage_quota.py at a small tree.
use moodle_autotask.Base.{ℕ, ◌≡◌, refl, ◌↔◌, true, false, none, some, [], ◌∷◌, arith, ok}
use moodle_autotask.Storage.{
  Stat, FileKind, Expected, StorageDemand, StorageLimit, FilesystemStats, RootLook, add_demand,
  admit_owner_write, filesystem_of, storage_demand_for_files, Entry, file, folder, no_entries,
  entry, measure_entry, check_headroom, validate_node, same_identity, own_demand,
}
use moodle_autotask.Storage.Tree.{IsStable, total, measure_entry_iff}
use moodle_autotask.Storage.Admission.{
  Fits, HasHeadroom, admitted-Fits, Charges, storage_demand_for_files-Charges, none_left, admitted,
  Writes-fit,
}

abbrev node : FileKind → ℕ → Stat
node kind ino = record {
  kind = kind;
  permissions = 0o600;
  is_indirection = false;
  dev = 1;
  ino = ino;
  nlink = 1;
  uid = 1000;
  gid = 1000;
  blocks = some 8;
  size = 100;
}

abbrev anyone : Expected
anyone = record { uid = none; gid = none; file_mode = none; directory_mode = none }

abbrev dir : Stat
dir = node FileKind.directory 2

abbrev note : Stat
note = node FileKind.regular 3

abbrev tree : Entry
tree =
    folder "" (some dir) (some dir) (some dir)
      (entry (file "note" (some note) (some note) (some note)) no_entries)

measure_entry_iff_example :
    (measure_entry anyone tree ≡ ok (record { allocated_bytes = 8192; nodes = 2 }))
    ↔ (IsStable anyone tree × (record { allocated_bytes = 8192; nodes = 2 } ≡ total tree))
measure_entry_iff_example =
    measure_entry_iff anyone tree (record { allocated_bytes = 8192; nodes = 2 })

tree_measures : measure_entry anyone tree ≡ ok (record { allocated_bytes = 8192; nodes = 2 })
unfolding measure_entry validate_node same_identity own_demand add_demand
tree_measures = refl

abbrev room : RootLook
room = record {
  before = some dir;
  opened = some dir;
  stats =
      some (record { f_frsize = 4096; f_bsize = 4096; f_bavail = 4000000; f_favail = some 200000 });
  after = some dir;
}

abbrev held : StorageDemand
held = record { allocated_bytes = 8192; nodes = 2 }

abbrev asked : StorageDemand
asked = record { allocated_bytes = 4096; nodes = 1 }

abbrev limit : StorageLimit
limit = record { max_allocated_bytes = 16384; max_nodes = 10 }

room_admits : admit_owner_write (ok held) asked limit true room ≡ ok (add_demand held asked)
unfolding admit_owner_write filesystem_of check_headroom add_demand
room_admits = refl

room_told :
    filesystem_of room
    ≡ ok (record { f_frsize = 4096; f_bsize = 4096; f_bavail = 4000000; f_favail = some 200000 })
unfolding filesystem_of same_identity
room_told = refl

admitted-Fits_example :
    (add_demand held asked ≡ add_demand held asked)
    × Fits (add_demand held asked) limit
    × ((fs : FilesystemStats) × (filesystem_of room ≡ ok fs) × HasHeadroom fs asked)
admitted-Fits_example = admitted-Fits held asked limit room room_admits

storage_demand_for_files-Charges_example :
    (charge : ℕ) × (storage_demand_for_files room (1 ∷ 5000 ∷ []) 2
      ≡ ok (some (record { allocated_bytes = charge; nodes = 2 })))
    × Charges 4096 (1 ∷ 5000 ∷ []) charge
storage_demand_for_files-Charges_example =
    storage_demand_for_files-Charges room (1 ∷ 5000 ∷ []) 2 room_told (omega arith)

held-Fits : Fits held limit
held-Fits = record { bytes = omega arith; nodes = omega arith }

Writes-fit_example : Fits (add_demand held asked) limit
Writes-fit_example =
    Writes-fit
      (admitted asked asked room (add_demand held asked) room_admits (omega arith) (omega arith)
        (none_left (add_demand held asked)))
      held-Fits
