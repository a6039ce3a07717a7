-- ===== src/Reaper/Reaped.antt =====
-- infra/aws/controller/lab_reaper.py: which instances a batch terminates.
use moodle_autotask.Base.{
  ℕ, zero, suc, ◌≤◌, String, ◌≡◌, refl, subst, inl, inr, Option, none, some, List, [], ◌∷◌, ◌++◌,
  arith, Bool-cases, Option-cases, codes, length, All, Result, ok, err,
}
use mathlib.Core.List.{Memᴰ}
use moodle_autotask.Reaper.Paging.{followed}
use moodle_autotask.Reaper.{Instance, same_text}
use moodle_autotask.Reaper.Batch.{
  Page, next_token, ReaperError, Settings, eligible, and_more, of_instances, append_to,
  of_reservations, of_page, following, go_on, with_page, Candidates, read_pages, before, insert_new,
  sorted_set, first, selected, reap_instances,
}
use moodle_autotask.Reaper.Stale.{IsStale, eligible-IsStale}

module _ (describe : List String → Page) where
  -- The tokens that the service has been asked with when it is asked for one more page, newest
  -- first: each is the one that it has given on the page before.
  pub data Asked : List String → Type 0 where
    nothing_yet : Asked []
    turned :
        {seen : List String} (t : String)
        → Asked seen
        → (describe seen).next ≡ next_token t
        → Asked (t ∷ seen)

-- An instance that stands on a page.
pub record IsOn (p : Page) (i : Instance) : Type 0 where
  pub reservations : List (Option (List (Option Instance)))
  pub found : List (Option Instance)
  pub listed : p.reservations ≡ some reservations
  pub reserved : Memᴰ (some found) reservations
  pub there : Memᴰ (some i) found

module _ (describe : List String → Page) (x : Settings) where
  -- An id that stands for an instance which the service has described on a page that it was asked
  -- for, and which is stale and owned.
  abbrev pub Reapable : String → Type 0
  Reapable id =
      (i : Instance) × (seen : List String) × Asked describe seen
      × IsOn (describe seen) i
      × IsStale x i id

  abbrev ReapableAll : Result ReaperError (List String) → Type 0
  ReapableAll (ok ids) = All Reapable ids
  ReapableAll (err _) = Unit

  abbrev ReapableIf : Candidates → Type 0
  ReapableIf none = Unit
  ReapableIf (some r) = ReapableAll r

  joined : (us vs : List String) → All Reapable us → All Reapable vs → All Reapable (us ++ vs)
  joined [] vs h k = k
  joined (a ∷ us) vs (p, h) k = (p, joined us vs h k)

  with_more :
      (i : Instance) (o : Option String) (ids : List String)
      → eligible x i ≡ o
      → ((id : String) → IsStale x i id → Reapable id)
      → All Reapable ids
      → All Reapable (and_more o ids)
  with_more i none ids e on h = h
  with_more i (some id) ids e on h = (on id (eligible-IsStale x i e), h)

  module _ (seen : List String) (asked : Asked describe seen) where
    from_instances :
        (found : List (Option Instance))
        → ((i : Instance) → Memᴰ (some i) found → IsOn (describe seen) i)
        → All Reapable (of_instances x found)
    unfolding of_instances
    from_instances [] on = tt
    from_instances (none ∷ rest) on = from_instances rest (λ i m. on i (Memᴰ.tail m))
    from_instances (some i ∷ rest) on =
        with_more i (eligible x i) _ refl
          (λ id stale. (i, seen, asked, on i (Memᴰ.head refl), stale))
          (from_instances rest (λ j m. on j (Memᴰ.tail m)))

    appended :
        (ids : List String) (r : Result ReaperError (List String))
        → All Reapable ids
        → ReapableAll r
        → ReapableAll (append_to ids r)
    appended ids (ok more) h k = joined ids more h k
    appended ids (err e) h k = tt

    from_reservations :
        (rs : List (Option (List (Option Instance))))
        → ((found : List (Option Instance)) (i : Instance)
            → Memᴰ (some found) rs
            → Memᴰ (some i) found
            → IsOn (describe seen) i)
        → ReapableAll (of_reservations x rs)
    unfolding of_reservations
    from_reservations [] on = tt
    from_reservations (none ∷ rest) on = tt
    from_reservations (some found ∷ rest) on =
        appended (of_instances x found) (of_reservations x rest)
          (from_instances found (λ i m. on found i (Memᴰ.head refl) m))
          (from_reservations rest (λ is i m n. on is i (Memᴰ.tail m) n))

    from_page : ReapableAll (of_page x (describe seen))
    unfolding of_page
    from_page = elim (Option-cases (describe seen).reservations) [
      | inl e ↦ rw e tt
      | inr (rs, e) ↦ rw e (
          from_reservations rs (λ found i m n. record {
            reservations = rs;
            found = found;
            listed = e;
            reserved = m;
            there = n;
          }))
    ]

  gone_on :
      (r : Result ReaperError (Option String)) (found : List String) (more : String → Candidates)
      → All Reapable found
      → ((t : String) → r ≡ ok (some t) → ReapableIf (more t))
      → ReapableIf (go_on r found more)
  gone_on (err e) found more h k = tt
  gone_on (ok none) found more h k = h
  gone_on (ok (some t)) found more h k = k t refl

  paged :
      (r : Result ReaperError (List String)) (more : List String → Candidates)
      → ReapableAll r
      → ((ids : List String) → All Reapable ids → ReapableIf (more ids))
      → ReapableIf (with_page r more)
  paged (err e) more h k = tt
  paged (ok ids) more h k = k ids h

  from_pages :
      (fuel : ℕ) (seen found : List String)
      → Asked describe seen
      → All Reapable found
      → ReapableIf (read_pages describe x fuel seen found)
  unfolding read_pages
  from_pages zero seen found asked h = tt
  from_pages (suc fuel) seen found asked h =
      paged (of_page x (describe seen)) _ (from_page seen asked) (λ ids k.
        gone_on (following seen (describe seen).next) (found ++ ids) _ (joined found ids h k)
          (λ t e.
            let (next, _) = followed seen (describe seen).next t e in
            from_pages fuel (t ∷ seen) (found ++ ids) (turned t asked next) (joined found ids h k)))

  inserted :
      (t : String) (us : List String)
      → Reapable t
      → All Reapable us
      → All Reapable (insert_new t us)
  unfolding insert_new
  inserted t [] p h = (p, tt)
  inserted t (u ∷ us) p (q, h) = elim (Bool-cases (same_text t u)) [
    | inl s ↦ rw s (q, h)
    | inr n ↦ elim (Bool-cases (before (codes t) (codes u))) [
      | inl b ↦ rw (n, b) (p, (q, h))
      | inr a ↦ rw (n, a) (q, inserted t us p h)
    ]
  ]

  sorted : (ids : List String) → All Reapable ids → All Reapable (sorted_set ids)
  unfolding sorted_set
  sorted [] h = tt
  sorted (t ∷ ts) (p, h) = inserted t (sorted_set ts) p (sorted ts h)

  firsts :
      (n : ℕ) (ids : List String)
      → All Reapable ids
      → (All Reapable (first n ids)) × (length (first n ids) ≤ n)
  unfolding first
  firsts zero ids h = (tt, omega arith)
  firsts (suc n) [] h = (tt, omega arith)
  firsts (suc n) (t ∷ ts) (p, h) = let (a, b) = firsts n ts h in ((p, a), omega (arith, b))

  selects :
      (n : ℕ) (c : Candidates) {ids : List String}
      → ReapableIf c
      → selected n c ≡ some (ok ids)
      → (All Reapable ids) × (length ids ≤ n)
  selects n none h e = absurd (ground arith)
  selects n (some (err _)) h e = absurd (ground arith)
  selects n (some (ok found)) {ids = ids} h e =
      let same : first n (sorted_set found) ≡ ids = ground arith in
      subst (λ (us : List String). (All Reapable us) × (length us ≤ n)) same
        (firsts n (sorted_set found) (sorted found h))

-- A batch that is terminated has at most `max_terminations` instances, at most 20, and every one of
-- them stands, under this id, on a page that the service has answered with when it was asked with
-- the tokens that it had given before, in a state that is not terminal, was launched at least
-- `hard_ttl_seconds`, at least three hours, ago, and its tags, which are all texts, have each of the
-- five required keys exactly once: with the project, the environment, `moodle-autotask` and `lab`,
-- and a provision key that is not empty.
pub terminates_Reapable :
    (describe : List String → Page) (x : Settings) (fuel : ℕ) {ids : List String}
    → reap_instances describe x fuel ≡ some (ok ids)
    → (All (Reapable describe x) ids)
      × (length ids ≤ x.max_terminations)
      × (x.max_terminations ≤ 20)
      × (10800 ≤ x.hard_ttl_seconds)
unfolding reap_instances
terminates_Reapable describe x fuel {ids = ids} h =
    let c = read_pages describe x fuel [] [] in
    let e : selected x.max_terminations c ≡ some (ok ids) = ground arith in
    let (a, b) =
      selects describe x x.max_terminations c (from_pages describe x fuel [] [] nothing_yet tt) e in
    (a, b, ground arith, ground arith)
