-- ===== src/Reaper/Tests.antt =====
-- infra/aws/controller/lab_reaper.py at a region with one forgotten lab, told on the second page.
use moodle_autotask.Base.{
  ◌≤◌, String, ◌≡◌, refl, subst, true, Option, none, some, List, [], ◌∷◌, arith, String-discrete,
  length, All, ok,
}
use moodle_autotask.Reaper.{Tag, Instance, is_member, is_owned, eligible_instance}
use moodle_autotask.Reaper.Batch.{Page, no_token, next_token, Settings, reap_instances}
use moodle_autotask.Reaper.Reaped.{Reapable, terminates_Reapable}
use moodle_autotask.Reaper.Paging.{Ends, reap_instances-Ends}

abbrev tag : String → String → Option Tag
tag k v = some (record { key = some k; value = some v })

abbrev forgotten : Instance
forgotten = record {
  instance_id = some "i-1";
  state = some "running";
  launched = some 1000;
  tags = some (
      tag "Project" "autotask"
      ∷ tag "Environment" "prod"
      ∷ tag "ManagedBy" "moodle-autotask"
      ∷ tag "Role" "lab"
      ∷ tag "ProvisionKey" "key"
      ∷ []);
}

abbrev pages : List String → Page
pages [] = record { reservations = some []; next = next_token "a" }
pages (_ ∷ _) = record {
  reservations = some (some (some forgotten ∷ none ∷ []) ∷ []);
  next = no_token;
}

abbrev settings : Settings
settings = record {
  project = "autotask";
  environment = "prod";
  hard_ttl_seconds = 10800;
  max_terminations = 5;
  now = 20000;
}

terminates_one : reap_instances pages settings 2 ≡ some (ok ("i-1" ∷ []))
unfolding reap_instances eligible_instance is_owned String-discrete
terminates_one = refl

terminates_Reapable_example :
    (All (Reapable pages settings) ("i-1" ∷ []))
    × (length {A = String} ("i-1" ∷ []) ≤ 5)
    × (5 ≤ 20)
    × (10800 ≤ 10800)
terminates_Reapable_example = terminates_Reapable pages settings 2 terminates_one

a_is_known : is_member "a" ("a" ∷ []) ≡ true
unfolding String-discrete
a_is_known = refl

only_a :
    (seen : List String) (t : String)
    → (pages seen).next ≡ next_token t
    → is_member t ("a" ∷ []) ≡ true
only_a [] t h =
    let e : "a" ≡ t = ground arith in subst (λ u. is_member u ("a" ∷ []) ≡ true) e a_is_known
only_a (_ ∷ _) t h = absurd (ground arith)

reap_instances-Ends_example : Ends (reap_instances pages settings 2)
reap_instances-Ends_example = reap_instances-Ends pages settings ("a" ∷ []) 2 only_a (omega arith)
