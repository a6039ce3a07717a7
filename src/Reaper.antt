-- ===== src/Reaper.antt =====
-- infra/aws/controller/lab_reaper.py: which labs the reaper terminates. The answers of EC2 are
-- values of Python in the shapes that the code tells apart; times are seconds since the epoch.
pub mod Reaped
pub mod Tags
pub mod Stale
pub mod Paging
pub mod Batch
mod Tests
use moodle_autotask.Base.{
  ℕ, ◌+◌, String, Bool, true, false, not, ◌&&◌, Option, none, some, List, [], ◌∷◌, leb,
  if◌then◌else◌, holds, String-discrete, any,
}

-- A tag of an instance: `key` and `value` are `none` where they are no texts.
pub record Tag : Type 0 where
  pub key : Option String
  pub value : Option String

-- An instance as `DescribeInstances` describes it. `tags` is `none` where it is no list, and an
-- element of it is `none` where it is no mapping; the other fields are `none` where they are
-- missing or of another type, `launched` also where the time has no zone.
pub record Instance : Type 0 where
  pub instance_id : Option String
  pub state : Option String
  pub launched : Option ℕ
  pub tags : Option (List (Option Tag))

abbrev pub same_text : String → String → Bool
same_text a b = holds (String-discrete a b)

abbrev pub is_member : String → List String → Bool
is_member k ks = any (same_text k) ks

-- `values.get(key)` of a dict that is kept newest first
unfoldable pub get : String → List (String × String) → Option String
get k [] = none
get k ((j, v) ∷ d) = if same_text k j then some v else get k d

abbrev pub has_key : String → List (String × String) → Bool
has_key k d = elim (get k d) [ none ↦ false | some _ ↦ true ]

-- The loop over the tags: the dict `values`, its newest entry first, and the set `duplicates`;
-- `none` is the early `return False`.
unfoldable pub read_tags :
    List (Option Tag)
    → List (String × String)
    → List String
    → Option (List (String × String) × List String)
unfolding get
read_tags [] values duplicates = some (values, duplicates)
read_tags (none ∷ _) values duplicates = none
read_tags (some t ∷ rest) values duplicates = elim t.key [
  | none ↦ none
  | some k ↦ elim t.value [
    | none ↦ none
    | some v ↦
        read_tags rest ((k, v) ∷ values) (if has_key k values then k ∷ duplicates else duplicates)
  ]
]

-- `_REQUIRED_TAGS`
abbrev pub required_tags : List String
required_tags = "Project" ∷ "Environment" ∷ "ManagedBy" ∷ "Role" ∷ "ProvisionKey" ∷ []

abbrev pub is_value : String → Option String → Bool
is_value expected none = false
is_value expected (some v) = same_text v expected

-- `bool(values.get(...))`
abbrev pub is_present : Option String → Bool
is_present none = false
is_present (some v) = not (same_text v "")

-- What `_owned_lab` tests once the tags are read.
unfoldable pub is_owned :
    (project environment : String) → List (String × String) → List String → Bool
unfolding get
is_owned project environment values duplicates =
    not (any (λ k. is_member k duplicates) required_tags)
    && is_value project (get "Project" values)
    && is_value environment (get "Environment" values)
    && is_value "moodle-autotask" (get "ManagedBy" values)
    && is_value "lab" (get "Role" values)
    && is_present (get "ProvisionKey" values)

owned_tags : (project environment : String) → Option (List (String × String) × List String) → Bool
owned_tags project environment none = false
owned_tags project environment (some (values, duplicates)) =
    is_owned project environment values duplicates

-- `_owned_lab`
unfoldable pub owned_lab : (project environment : String) → Option (List (Option Tag)) → Bool
unfolding read_tags owned_tags
owned_lab project environment none = false
owned_lab project environment (some tags) = owned_tags project environment (read_tags tags [] [])

-- `_ACTIVE_OR_RESIDUAL_STATES`
abbrev pub active_or_residual_states : List String
active_or_residual_states = "pending" ∷ "running" ∷ "stopping" ∷ "stopped" ∷ []

abbrev pub is_active : Option String → Bool
is_active none = false
is_active (some s) = is_member s active_or_residual_states

-- `now - launched < ttl`, negated; a launch in the future is younger than any `ttl`
abbrev pub is_stale : (now ttl : ℕ) → Option ℕ → Bool
is_stale now ttl none = false
is_stale now ttl (some launched) = leb (launched + ttl) now

-- `_eligible_instance`
unfoldable pub eligible_instance :
    (project environment : String) (now ttl : ℕ) → Instance → Option String
unfolding owned_lab
eligible_instance project environment now ttl i =
    if is_present i.instance_id
      && is_active i.state
      && is_stale now ttl i.launched
      && owned_lab project environment i.tags
    then i.instance_id
    else none
