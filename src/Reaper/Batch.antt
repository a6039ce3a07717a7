-- ===== src/Reaper/Batch.antt =====
-- infra/aws/controller/lab_reaper.py: `reap_instances`. The answers of `describe_instances` are an
-- argument, which may depend on all the tokens it has been asked with, newest first. The loop over
-- the pages runs on fuel.
use moodle_autotask.Base.{
  ℕ, zero, suc, String, Bool, true, false, not, ◌&&◌, ◌||◌, Option, none, some, List, [], ◌∷◌, ◌++◌,
  ltb, leb, ◌==◌, if◌then◌else◌, codes, Result, ok, err,
}
use moodle_autotask.Reaper.{Instance, same_text, is_member, eligible_instance}

pub data NextToken : Type 0 where
  no_token malformed_token : NextToken
  next_token : String → NextToken

-- A response. `reservations` is `none` where it is no list, a reservation where it has no list of
-- instances, and an instance where it is no mapping.
pub record Page : Type 0 where
  pub reservations : Option (List (Option (List (Option Instance))))
  pub next : NextToken

pub data ReaperError : Type 0 where
  invalid_configuration invalid_cap malformed_response : ReaperError

pub record Settings : Type 0 where
  pub project : String
  pub environment : String
  pub hard_ttl_seconds : ℕ
  pub max_terminations : ℕ
  pub now : ℕ

abbrev pub eligible : Settings → Instance → Option String
eligible x i = eligible_instance x.project x.environment x.now x.hard_ttl_seconds i

abbrev pub and_more : Option String → List String → List String
and_more none ids = ids
and_more (some id) ids = id ∷ ids

-- The loop over the instances of a reservation.
unfoldable pub of_instances : Settings → List (Option Instance) → List String
of_instances x [] = []
of_instances x (none ∷ rest) = of_instances x rest
of_instances x (some i ∷ rest) = and_more (eligible x i) (of_instances x rest)

abbrev pub append_to :
    List String → Result ReaperError (List String) → Result ReaperError (List String)
append_to ids (ok more) = ok (ids ++ more)
append_to ids (err e) = err e

-- The loop over the reservations of a page.
unfoldable pub of_reservations :
    Settings → List (Option (List (Option Instance))) → Result ReaperError (List String)
unfolding of_instances
of_reservations x [] = ok []
of_reservations x (none ∷ rest) = err malformed_response
of_reservations x (some is ∷ rest) = append_to (of_instances x is) (of_reservations x rest)

unfoldable pub of_page : Settings → Page → Result ReaperError (List String)
unfolding of_reservations
of_page x p = elim p.reservations [ none ↦ err malformed_response | some rs ↦ of_reservations x rs ]

-- The token to go on with: `none` ends the loop.
unfoldable pub following : List String → NextToken → Result ReaperError (Option String)
following seen no_token = ok none
following seen malformed_token = err malformed_response
following seen (next_token t) =
    if same_text t "" || is_member t seen then err malformed_response else ok (some t)

abbrev pub Candidates : Type 0
Candidates = Option (Result ReaperError (List String))

abbrev pub go_on :
    Result ReaperError (Option String) → List String → (String → Candidates) → Candidates
go_on (err e) found more = some (err e)
go_on (ok none) found more = some (ok found)
go_on (ok (some t)) found more = more t

abbrev pub with_page : Result ReaperError (List String) → (List String → Candidates) → Candidates
with_page (err e) more = some (err e)
with_page (ok ids) more = more ids

-- The `while` loop, `none` when the fuel is used up; `seen` are the tokens so far, newest first.
unfoldable pub read_pages :
    (List String → Page) → Settings → ℕ → (seen found : List String) → Candidates
unfolding of_page following
read_pages describe x zero seen found = none
read_pages describe x (suc fuel) seen found = with_page (of_page x (describe seen)) (λ ids.
    go_on (following seen (describe seen).next) (found ++ ids)
      (λ t. read_pages describe x fuel (t ∷ seen) (found ++ ids)))

unfoldable pub before : List ℕ → List ℕ → Bool
before [] _ = true
before (_ ∷ _) [] = false
before (a ∷ r) (b ∷ s) = ltb a b || a == b && before r s

unfoldable pub insert_new : String → List String → List String
unfolding before
insert_new t [] = t ∷ []
insert_new t (u ∷ us) =
    if same_text t u
    then u ∷ us
    else if before (codes t) (codes u)
    then t ∷ u ∷ us
    else u ∷ insert_new t us

-- `sorted(set(ids))`
unfoldable pub sorted_set : List String → List String
unfolding insert_new
sorted_set [] = []
sorted_set (t ∷ ts) = insert_new t (sorted_set ts)

-- `ids[:n]`
unfoldable pub first : ℕ → List String → List String
first zero ids = []
first (suc n) [] = []
first (suc n) (t ∷ ts) = t ∷ first n ts

abbrev pub selected : ℕ → Candidates → Candidates
selected n none = none
selected n (some (err e)) = some (err e)
selected n (some (ok ids)) = some (ok (first n (sorted_set ids)))

-- `reap_instances`: the instances that it terminates and returns
unfoldable pub reap_instances : (List String → Page) → Settings → ℕ → Candidates
unfolding read_pages sorted_set first
reap_instances describe x fuel =
    if same_text x.project ""
      || same_text x.environment ""
      || not (leb 10800 x.hard_ttl_seconds && leb x.hard_ttl_seconds 86400)
    then some (err invalid_configuration)
    else if not (leb 1 x.max_terminations && leb x.max_terminations 20)
    then some (err invalid_cap)
    else selected x.max_terminations (read_pages describe x fuel [] [])
