-- ===== src/Storage/Tree.antt =====
-- adapters/aws/storage_quota.py: the measurement of a tree against a description of trees.
use moodle_autotask.Base.{
  ℕ, ◌+◌, String, ◌≡◌, refl, sym, ap, ◌∙◌, ◌↔◌, inl, inr, Bool, true, false, Option, none, some,
  arith, Bool-cases, Result, ok, err,
}
use moodle_autotask.Storage.Nodes.{
  IsDirectory, IsFile, IsSameNode, bytes_at, own_demand_lem, IsFile-is_safe, IsDirectory-is_safe,
  is_safe-IsFile, is_safe-IsDirectory, IsSameNode-is_same, is_same-IsSameNode,
}
use moodle_autotask.Storage.{
  Stat, Expected, StorageDemand, StorageError, is_safe, is_same, validate_node, same_identity,
  add_demand, or_envelope, ◌>>=◌, Entry, Entries, file, folder, no_entries, entry, measure_entry,
  measure_entries,
}

-- A tree that stood still while it was looked at, and whose nodes may all be counted.
mutual
  pub data IsStable (x : Expected) : Entry → Type 0 where
    stable_file :
        (name : String) (s t u : Stat)
        → IsFile x s
        → IsSameNode s t
        → IsSameNode s u
        → IsStable x (file name (some s) (some t) (some u))
    stable_folder :
        (name : String) (s t u : Stat) {es : Entries}
        → IsDirectory x s
        → IsSameNode s t
        → IsSameNode s u
        → AllStable x es
        → IsStable x (folder name (some s) (some t) (some u) es)

  pub data AllStable (x : Expected) : Entries → Type 0 where
    end : AllStable x no_entries
    next : {e : Entry} {es : Entries} → IsStable x e → AllStable x es → AllStable x (entry e es)

-- The nodes of a tree, each once, and the bytes of all of them.
abbrev mutual
  pub nodes : Entry → ℕ
  nodes (file _ _ _ _) = 1
  nodes (folder _ _ _ _ es) = 1 + nodes_in es

  pub nodes_in : Entries → ℕ
  nodes_in no_entries = 0
  nodes_in (entry e es) = nodes e + nodes_in es

abbrev mutual
  pub bytes : Entry → ℕ
  bytes (file _ s _ _) = bytes_at s
  bytes (folder _ s _ _ es) = bytes_at s + bytes_in es

  pub bytes_in : Entries → ℕ
  bytes_in no_entries = 0
  bytes_in (entry e es) = bytes e + bytes_in es

abbrev pub total : Entry → StorageDemand
total e = record { allocated_bytes = bytes e; nodes = nodes e }

mutual
  unfolding measure_entry measure_entries validate_node same_identity add_demand

  measure_complete : {x : Expected} {e : Entry} → IsStable x e → measure_entry x e ≡ ok (total e)
  measure_complete {x = x} (stable_file name s t u h p q) =
      let safe = IsFile-is_safe x s h in
      let same = IsSameNode-is_same s t p in
      let still = IsSameNode-is_same s u q in rw (safe, same, still, own_demand_lem s) refl
  measure_complete {x = x} (stable_folder name s t u h p q hs) =
      let safe = IsDirectory-is_safe x s h in
      let same = IsSameNode-is_same s t p in
      let still = IsSameNode-is_same s u q in
      rw (safe, same, still, measure_entries_complete hs, own_demand_lem s) refl

  measure_entries_complete :
      {x : Expected} {es : Entries}
      → AllStable x es
      → measure_entries x es ≡ ok (record { allocated_bytes = bytes_in es; nodes = nodes_in es })
  measure_entries_complete end = refl
  measure_entries_complete (next h hs) = rw (measure_complete h, measure_entries_complete hs) refl

-- What a measurement that returned has seen of a node.
record Seen (x : Expected) (as_directory : Bool) (before opened after : Option Stat) : Type 0 where
  s : Stat
  t : Stat
  u : Stat
  first : before ≡ some s
  second : opened ≡ some t
  third : after ≡ some u
  safe : is_safe x as_directory s ≡ true
  same : is_same s t ≡ true
  still : is_same s u ≡ true

validated :
    (x : Expected) (b : Bool) (s : Stat) → validate_node x b s ≡ ok tt → is_safe x b s ≡ true
unfolding validate_node
validated x b s h = elim (Bool-cases (is_safe x b s)) [ inl e ↦ e | inr e ↦ absurd (ground arith) ]

identified :
    (s : Stat) (o : Option Stat)
    → same_identity s o ≡ ok tt
    → (t : Stat) × (o ≡ some t) × (is_same s t ≡ true)
unfolding same_identity
identified s none h = absurd (ground arith)
identified s (some t) h =
    (t, refl, elim (Bool-cases (is_same s t)) [ inl e ↦ e | inr e ↦ absurd (ground arith) ])

found : (o : Option Stat) {s : Stat} → or_envelope o ≡ ok s → o ≡ some s
found none h = absurd (ground arith)
found (some s) h = ground arith

>>=-ok :
    {A B : Type 0} (m : Result StorageError A) (f : A → Result StorageError B) {b : B}
    → (m >>= f) ≡ ok b
    → (a : A) × (m ≡ ok a) × (f a ≡ ok b)
>>=-ok (ok a) f h = (a, refl, h)
>>=-ok (err e) f h = absurd (ground arith)

file-IsStable :
    (x : Expected) (name : String) (before opened after : Option Stat)
    → Seen x false before opened after
    → IsStable x (file name before opened after)
file-IsStable x name before opened after h =
    rw (h.first, h.second, h.third)
      (stable_file name h.s h.t h.u (is_safe-IsFile x h.s h.safe)
        (is_same-IsSameNode h.s h.t h.same) (is_same-IsSameNode h.s h.u h.still))

folder-IsStable :
    (x : Expected) (name : String) (before opened after : Option Stat) (es : Entries)
    → Seen x true before opened after
    → AllStable x es
    → IsStable x (folder name before opened after es)
folder-IsStable x name before opened after es h hs =
    rw (h.first, h.second, h.third)
      (stable_folder name h.s h.t h.u (is_safe-IsDirectory x h.s h.safe)
        (is_same-IsSameNode h.s h.t h.same) (is_same-IsSameNode h.s h.u h.still) hs)

mutual
  unfolding measure_entry measure_entries

  measure_sound :
      (x : Expected) (e : Entry) (d : StorageDemand) → measure_entry x e ≡ ok d → IsStable x e
  measure_sound x (file name before opened after) d h =
      let (s, hs, h1) = >>=-ok (or_envelope before) _ h in
      let (_, hv, h2) = >>=-ok (validate_node x false s) _ h1 in
      let (_, ho, h3) = >>=-ok (same_identity s opened) _ h2 in
      let (_, ha, h4) = >>=-ok (same_identity s after) _ h3 in
      let (t, ot, st) = identified s opened ho in
      let (u, au, su) = identified s after ha in
      file-IsStable x name before opened after (record {
        s = s;
        t = t;
        u = u;
        first = found before hs;
        second = ot;
        third = au;
        safe = validated x false s hv;
        same = st;
        still = su;
      })
  measure_sound x (folder name before opened after es) d h =
      let (s, hs, h1) = >>=-ok (or_envelope before) _ h in
      let (_, hv, h2) = >>=-ok (validate_node x true s) _ h1 in
      let (_, ho, h3) = >>=-ok (same_identity s opened) _ h2 in
      let (below, hb, h4) = >>=-ok (measure_entries x es) _ h3 in
      let (_, ha, h5) = >>=-ok (same_identity s after) _ h4 in
      let (t, ot, st) = identified s opened ho in
      let (u, au, su) = identified s after ha in
      folder-IsStable x name before opened after es
        (record {
          s = s;
          t = t;
          u = u;
          first = found before hs;
          second = ot;
          third = au;
          safe = validated x true s hv;
          same = st;
          still = su;
        })
        (measure_entries_sound x es below hb)

  measure_entries_sound :
      (x : Expected) (es : Entries) (d : StorageDemand)
      → measure_entries x es ≡ ok d
      → AllStable x es
  measure_entries_sound x no_entries d h = end
  measure_entries_sound x (entry e es) d h =
      let (first, hf, h1) = >>=-ok (measure_entry x e) _ h in
      let (rest, hr, h2) = >>=-ok (measure_entries x es) _ h1 in
      next (measure_sound x e first hf) (measure_entries_sound x es rest hr)

ok_injective :
    (a b : StorageDemand) → ◌≡◌ {A = Result StorageError StorageDemand} (ok a) (ok b) → a ≡ b
ok_injective a b h = cc

-- A measurement returns exactly if every node of the tree was there at each of the three looks, is
-- a directory or a regular file that is no indirection and has the owner, group and mode which are
-- asked for, a file with no other hard link, and the looks agree on its device, inode, type,
-- permissions and links; it then returns the number of the nodes and the sum of their blocks times
-- 512, or of the size where there are no blocks.
pub measure_entry_iff :
    (x : Expected) (e : Entry) (d : StorageDemand)
    → (measure_entry x e ≡ ok d) ↔ (IsStable x e × (d ≡ total e))
measure_entry_iff x e d = (
  λ h. let st = measure_sound x e d h in (st, ok_injective _ _ (sym h ∙ measure_complete st)),
  λ (st, same). measure_complete st ∙ ap ok (sym same),
)
