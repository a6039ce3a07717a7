-- ===== src/Reaper/Paging.antt =====
-- infra/aws/controller/lab_reaper.py: the loop over the pages ends.
use moodle_autotask.Base.{
  ℕ, zero, suc, ◌+◌, ◌≤◌, ◌<◌, String, ◌≡◌, refl, sym, ap, ◌∙◌, Bool, true, false, Option, none,
  some, List, [], ◌∷◌, ◌++◌, arith, if◌then◌else◌, String-discrete, length, Result, ok, err,
}
use moodle_autotask.Reaper.{same_text, is_member}
use moodle_autotask.Reaper.Batch.{
  Page, NextToken, next_token, no_token, malformed_token, invalid_configuration, invalid_cap,
  ReaperError, Settings, of_page, following, go_on, with_page, Candidates, first, sorted_set,
  read_pages, selected, reap_instances,
}

-- How many of the known tokens have not been seen.
abbrev pub remaining : List String → List String → ℕ
remaining [] seen = 0
remaining (k ∷ known) seen = (if is_member k seen then 0 else 1) + remaining known seen

remaining_falls :
    (known seen : List String) (t : String) → remaining known (t ∷ seen) ≤ remaining known seen
remaining_falls [] seen t = omega arith
remaining_falls (k ∷ known) seen t = let rest = remaining_falls known seen t in ground arith

remaining_drops :
    (known seen : List String) (t : String)
    → is_member t known ≡ true
    → is_member t seen ≡ false
    → suc (remaining known (t ∷ seen)) ≤ remaining known seen
remaining_drops [] seen t m n = absurd (ground arith)
remaining_drops (k ∷ known) seen t m n = elim (String-discrete t k) [
  | yes e ↦
      let f : is_member k seen ≡ false = sym (ap (λ z. is_member z seen) e) ∙ n in
      let same : same_text k t ≡ true = ground arith in
      let rest = remaining_falls known seen t in rw (f, same) (omega (arith, rest))
  | no d ↦ let rest = remaining_drops known seen t (ground arith) n in ground arith
]

-- The loop has come to an end.
abbrev pub Ends : Candidates → Type 0
Ends c = (r : Result ReaperError (List String)) × (c ≡ some r)

paged-Ends :
    (r : Result ReaperError (List String)) (more : List String → Candidates)
    → ((ids : List String) → Ends (more ids))
    → Ends (with_page r more)
paged-Ends (err e) more h = (err e, refl)
paged-Ends (ok ids) more h = h ids

gone_on_Ends :
    (r : Result ReaperError (Option String)) (found : List String) (more : String → Candidates)
    → ((t : String) → r ≡ ok (some t) → Ends (more t))
    → Ends (go_on r found more)
gone_on_Ends (err e) found more h = (err e, refl)
gone_on_Ends (ok none) found more h = (ok found, refl)
gone_on_Ends (ok (some t)) found more h = h t refl

-- A token that the loop goes on with is the page's, and it is a new one.
pub followed :
    (seen : List String) (n : NextToken) (t : String)
    → following seen n ≡ ok (some t)
    → (n ≡ next_token t) × (is_member t seen ≡ false)
unfolding following
followed seen no_token t h = absurd (ground arith)
followed seen malformed_token t h = absurd (ground arith)
followed seen (next_token u) t h =
    let fresh : is_member u seen ≡ false = ground arith in
    let same : u ≡ t = ground arith in
    (ap next_token same, sym (ap (λ z. is_member z seen) same) ∙ fresh)

module _ (describe : List String → Page) (x : Settings) (known : List String)
    (given : (seen : List String) (t : String)
      → (describe seen).next ≡ next_token t
      → is_member t known ≡ true) where
  pages_end :
      (fuel : ℕ) (seen found : List String)
      → remaining known seen < fuel
      → Ends (read_pages describe x fuel seen found)
  unfolding read_pages
  pages_end zero seen found h = absurd (ground arith)
  pages_end (suc fuel) seen found h = paged-Ends (of_page x (describe seen)) _ (λ ids.
      gone_on_Ends (following seen (describe seen).next) (found ++ ids) _ (λ t e.
        let (n, fresh) = followed seen (describe seen).next t e in
        let less = remaining_drops known seen t (given seen t n) fresh in
        pages_end fuel (t ∷ seen) (found ++ ids) (omega (arith, less, h))))

either-Ends : (b : Bool) (u v : Candidates) → Ends u → Ends v → Ends (if b then u else v)
either-Ends true u v h k = h
either-Ends false u v h k = k

selected-Ends : (n : ℕ) (c : Candidates) → Ends c → Ends (selected n c)
selected-Ends n none (r, e) = absurd (ground arith)
selected-Ends n (some (err e)) h = (err e, refl)
selected-Ends n (some (ok ids)) h = (ok (first n (sorted_set ids)), refl)

remaining_le : (known seen : List String) → remaining known seen ≤ length known
remaining_le [] seen = omega arith
remaining_le (k ∷ known) seen = let rest = remaining_le known seen in ground arith

-- If every token that the service gives is one of `known`, then the reaper comes to an end, with a
-- batch or with an exception, after at most one page more than there are known tokens.
pub reap_instances-Ends :
    (describe : List String → Page) (x : Settings) (known : List String) (fuel : ℕ)
    → ((seen : List String) (t : String)
        → (describe seen).next ≡ next_token t
        → is_member t known ≡ true)
    → length known < fuel
    → Ends (reap_instances describe x fuel)
unfolding reap_instances
reap_instances-Ends describe x known fuel given h =
    let bound = remaining_le known [] in
    let pages =
      selected-Ends x.max_terminations _
        (pages_end describe x known given fuel [] [] (omega (arith, bound, h))) in
    either-Ends _ _ _ (err invalid_configuration, refl)
      (either-Ends _ _ _ (err invalid_cap, refl) pages)
