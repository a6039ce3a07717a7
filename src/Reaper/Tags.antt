-- ===== src/Reaper/Tags.antt =====
-- infra/aws/controller/lab_reaper.py: what the ownership test says of the tags themselves.
use moodle_autotask.Base.{
  String, ◌≡◌, refl, sym, ap, ◌∙◌, ◌≢◌, inl, inr, true, false, Option, none, some, List, [], ◌∷◌,
  arith, if◌then◌else◌, holds, Option-cases, String-discrete,
}
use moodle_autotask.Reaper.{
  Tag, is_member, get, read_tags, has_key, is_value, is_present, is_owned, owned_tags, owned_lab,
}

abbrev pub text_tag : (key value : String) → Option Tag
text_tag key value = some (record { key = some key; value = some value })

-- Tags that are texts and none of which has this key.
pub data Lacks (k : String) : List (Option Tag) → Type 0 where
  none_left : Lacks k []
  skip : (j v : String) {ts : List (Option Tag)} → k ≢ j → Lacks k ts → Lacks k (text_tag j v ∷ ts)

-- Tags that are texts and exactly one of which has this key; that one has this value.
pub data HasOnce (k v : String) : List (Option Tag) → Type 0 where
  here : {ts : List (Option Tag)} → Lacks k ts → HasOnce k v (text_tag k v ∷ ts)
  there :
      (j w : String) {ts : List (Option Tag)}
      → k ≢ j
      → HasOnce k v ts
      → HasOnce k v (text_tag j w ∷ ts)

-- The tags of a lab of this project and environment.
pub record IsOwned (project environment : String) (tags : List (Option Tag)) : Type 0 where
  pub of_project : HasOnce "Project" project tags
  pub of_environment : HasOnce "Environment" environment tags
  pub managed : HasOnce "ManagedBy" "moodle-autotask" tags
  pub a_lab : HasOnce "Role" "lab" tags
  pub provisioned : (key : String) × (key ≢ "") × HasOnce "ProvisionKey" key tags

abbrev entered : String → List (String × String) → List String → List String
entered k values duplicates = if has_key k values then k ∷ duplicates else duplicates

unlike :
    (k j v : String) (values : List (String × String))
    → k ≢ j
    → get k ((j, v) ∷ values) ≡ get k values
unfolding get
unlike k j v values d =
    elim (String-discrete k j) as (λ z. (if holds z then some v else get k values) ≡ get k values) [
      | yes e ↦ absurd (d e)
      | no _ ↦ refl
    ]

like : (k j v : String) (values : List (String × String)) → k ≡ j → get k ((j, v) ∷ values) ≡ some v
unfolding get
like k j v values e =
    elim (String-discrete k j) as (λ z. (if holds z then some v else get k values) ≡ some v) [
      | yes _ ↦ refl
      | no d ↦ absurd (d e)
    ]

-- A tag that has been read is of texts.
read_step :
    (o : Option Tag) (ts : List (Option Tag)) (values : List (String × String))
    (duplicates : List String) {r : List (String × String) × List String}
    → read_tags (o ∷ ts) values duplicates ≡ some r
    → (k : String) × (v : String) × (o ≡ text_tag k v)
      × (read_tags ts ((k, v) ∷ values) (entered k values duplicates) ≡ some r)
unfolding read_tags
read_step none ts values duplicates h = absurd (ground arith)
read_step (some t) ts values duplicates {r = r} h = elim (Option-cases t.key) [
  | inl e ↦ absurd (ground arith)
  | inr (k, e) ↦ elim (Option-cases t.value) [
    | inl f ↦ absurd (ground arith)
    | inr (v, f) ↦ (k, v, rw (sym e, sym f) refl, ground arith)
  ]
]

-- A duplicate is not forgotten.
no_duplicate :
    (k : String) (tags : List (Option Tag)) (values : List (String × String))
    (duplicates : List String) {vs : List (String × String)} {ds : List String}
    → read_tags tags values duplicates ≡ some (vs, ds)
    → is_member k ds ≡ false
    → is_member k duplicates ≡ false
unfolding read_tags
no_duplicate k [] values duplicates h n = ground arith
no_duplicate k (o ∷ ts) values duplicates h n =
    let (j, v, _, read) = read_step o ts values duplicates h in
    let rest = no_duplicate k ts ((j, v) ∷ values) _ read n in
    elim (Option-cases (get j values)) [ inl e ↦ ground arith | inr (w, e) ↦ ground arith ]

-- A key that has been read is not read again.
kept_once :
    (k : String) (tags : List (Option Tag)) (values : List (String × String))
    (duplicates : List String) {w : String} {vs : List (String × String)} {ds : List String}
    → get k values ≡ some w
    → read_tags tags values duplicates ≡ some (vs, ds)
    → is_member k ds ≡ false
    → Lacks k tags × (get k vs ≡ some w)
unfolding read_tags
kept_once k [] values duplicates g h n = (none_left, ground arith)
kept_once k (o ∷ ts) values duplicates {w = w} g h n =
    let (j, v, same, read) = read_step o ts values duplicates h in
    elim (String-discrete k j) [
      | yes e ↦
          let again : get j values ≡ some w = sym (ap (λ z. get z values) e) ∙ g in
          let kept = no_duplicate k ts ((j, v) ∷ values) _ read n in absurd (ground arith)
      | no d ↦
          let (l, u) = kept_once k ts ((j, v) ∷ values) _ (unlike k j v values d ∙ g) read n in
          (rw same (skip j v d l), u)
    ]

-- A key that has not been read yet and has a value in the end stands in one of the tags.
read_once :
    (k : String) (tags : List (Option Tag)) (values : List (String × String))
    (duplicates : List String) {v : String} {vs : List (String × String)} {ds : List String}
    → get k values ≡ none
    → read_tags tags values duplicates ≡ some (vs, ds)
    → is_member k ds ≡ false
    → get k vs ≡ some v
    → HasOnce k v tags
unfolding read_tags
read_once k [] values duplicates g h n e = absurd (ground arith)
read_once k (o ∷ ts) values duplicates {v = v} g h n final =
    let (j, w, same, read) = read_step o ts values duplicates h in
    elim (String-discrete k j) [
      | yes e ↦
          let (l, u) = kept_once k ts ((j, w) ∷ values) _ {w = w} (like k j w values e) read n in
          let value : w ≡ v = ground arith in rw (same, sym e, value) (here l)
      | no d ↦ rw same (
          there j w d (read_once k ts ((j, w) ∷ values) _ (unlike k j w values d ∙ g) read n final))
    ]

has_value : (v : String) (o : Option String) → is_value v o ≡ true → o ≡ some v
has_value v none h = absurd (ground arith)
has_value v (some w) h = ground arith

has_text : (o : Option String) → is_present o ≡ true → (w : String) × (w ≢ "") × (o ≡ some w)
has_text none h = absurd (ground arith)
has_text (some w) h = (w, (λ e. ground arith), refl)

-- What `_owned_lab` returns true for.
pub owned_lab-IsOwned :
    (project environment : String) (o : Option (List (Option Tag)))
    → owned_lab project environment o ≡ true
    → (tags : List (Option Tag)) × (o ≡ some tags) × IsOwned project environment tags
unfolding owned_lab owned_tags is_owned
owned_lab-IsOwned project environment none h = absurd (ground arith)
owned_lab-IsOwned project environment (some tags) h = elim (Option-cases (read_tags tags [] [])) [
  | inl e ↦ absurd (ground arith)
  | inr ((values, duplicates), e) ↦
      let once : (k v : String)
          → is_member k duplicates ≡ false
          → get k values ≡ some v
          → HasOnce k v tags =
        λ k v n g. read_once k tags [] [] refl e n g in
      let (key, given, g) = has_text (get "ProvisionKey" values) (ground arith) in
      (
        tags,
        refl,
        record {
          of_project = once "Project" project (ground arith) (has_value _ _ (ground arith));
          of_environment =
              once "Environment" environment (ground arith) (has_value _ _ (ground arith));
          managed =
              once "ManagedBy" "moodle-autotask" (ground arith) (has_value _ _ (ground arith));
          a_lab = once "Role" "lab" (ground arith) (has_value _ _ (ground arith));
          provisioned = (key, given, once "ProvisionKey" key (ground arith) g);
        },
      )
]
