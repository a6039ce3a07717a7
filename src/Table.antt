-- ===== src/Table.antt =====
-- A SQLite table as the list of its rows, newest first: the statements that the stores of
-- adapters/moodle use, and what they do to the number of rows that pass a test.
use moodle_autotask.Base.{
  ℕ, ◌+◌, ◌≤◌, ◌≡◌, refl, sym, subst, inl, inr, Bool, true, false, ◌&&◌, ◌||◌, Option, none, some,
  List, [], ◌∷◌, arith, ltb, ◌==◌, if◌then◌else◌, Bool-cases, Option-cases, any, All,
}

-- The order of texts by code point.
unfoldable pub leb_codes : List ℕ → List ℕ → Bool
leb_codes [] _ = true
leb_codes (_ ∷ _) [] = false
leb_codes (x ∷ xs) (y ∷ ys) = ltb x y || x == y && leb_codes xs ys

-- `ORDER BY ... LIMIT 1`: the first row, of those that pass, in an order
module _ {R : Type 0} where
  abbrev sooner : (R → R → Bool) → R → Option R → Option R
  sooner precedes r none = some r
  sooner precedes r (some q) = if precedes r q then some r else some q

  unfoldable pub first_of : (R → R → Bool) → (R → Bool) → List R → Option R
  first_of precedes test [] = none
  first_of precedes test (r ∷ rows) =
      if test r
      then sooner precedes r (first_of precedes test rows)
      else first_of precedes test rows

  pub first_of_passes :
      (precedes : R → R → Bool) (test : R → Bool) (rows : List R) {r : R}
      → first_of precedes test rows ≡ some r
      → test r ≡ true
  unfolding first_of
  first_of_passes precedes test [] h = absurd (ground arith)
  first_of_passes precedes test (q ∷ rows) {r = r} h = elim (Bool-cases (test q)) [
    | inr f ↦ first_of_passes precedes test rows (ground arith)
    | inl t ↦ elim (Option-cases (first_of precedes test rows)) [
      | inl e ↦ subst (λ x. test x ≡ true) (ground arith) t
      | inr (p, e) ↦ elim (Bool-cases (precedes q p)) [
        | inl y ↦ subst (λ x. test x ≡ true) (ground arith) t
        | inr n ↦ subst (λ x. test x ≡ true) (ground arith) (first_of_passes precedes test rows e)
      ]
    ]
  ]

module _ {R : Type 0} where
  -- `UPDATE ... SET ... WHERE ...`
  unfoldable pub update_where : (R → Bool) → (R → R) → List R → List R
  update_where test set [] = []
  update_where test set (r ∷ rows) = (if test r then set r else r) ∷ update_where test set rows

  -- `SELECT ... WHERE ...`, then `fetchone`
  unfoldable pub select_one : (R → Bool) → List R → Option R
  select_one test [] = none
  select_one test (r ∷ rows) = if test r then some r else select_one test rows

  -- The number of rows that pass a test: the `rowcount` of an UPDATE.
  unfoldable pub count : (R → Bool) → List R → ℕ
  count test [] = 0
  count test (r ∷ rows) = (if test r then 1 else 0) + count test rows

  -- An update that only lets rows pass, and lets all rows pass that it touches and that did not.
  pub count-update_where_adds :
      (p test : R → Bool) (set : R → R) (rows : List R)
      → ((r : R) → test r ≡ true → (p r ≡ false) × (p (set r) ≡ true))
      → count p (update_where test set rows) ≡ count p rows + count test rows
  unfolding count update_where
  count-update_where_adds p test set [] h = omega arith
  count-update_where_adds p test set (r ∷ rows) h =
      let rest = count-update_where_adds p test set rows h in
      elim (Bool-cases (test r)) [
        | inl t ↦ rw (t, (h r t).0, (h r t).1) (omega (arith, rest))
        | inr f ↦ rw f (omega (arith, rest))
      ]

  -- An update after which no row passes that did not.
  pub count-update_where_le :
      (p test : R → Bool) (set : R → R) (rows : List R)
      → ((r : R) → test r ≡ true → p (set r) ≡ true → p r ≡ true)
      → count p (update_where test set rows) ≤ count p rows
  unfolding count update_where
  count-update_where_le p test set [] h = omega arith
  count-update_where_le p test set (r ∷ rows) h =
      let rest = count-update_where_le p test set rows h in
      elim (Bool-cases (test r)) [
        | inl t ↦
            let k = h r t in
            elim (Bool-cases (p (set r))) [
              | inl q ↦ rw (t, q, k q) (omega (arith, rest))
              | inr q ↦ rw (t, q) (omega (arith, rest))
            ]
        | inr f ↦ rw f (omega (arith, rest))
      ]

  -- An update after which every row passes that did before.
  pub count-le-update_where :
      (p test : R → Bool) (set : R → R) (rows : List R)
      → ((r : R) → test r ≡ true → p r ≡ true → p (set r) ≡ true)
      → count p rows ≤ count p (update_where test set rows)
  unfolding count update_where
  count-le-update_where p test set [] h = omega arith
  count-le-update_where p test set (r ∷ rows) h =
      let rest = count-le-update_where p test set rows h in
      elim (Bool-cases (test r)) [
        | inl t ↦
            let k = h r t in
            elim (Bool-cases (p r)) [
              | inl q ↦ rw (t, q, k q) (omega (arith, rest))
              | inr q ↦ rw (t, q) (omega (arith, rest))
            ]
        | inr f ↦ rw f (omega (arith, rest))
      ]

  -- An update lets no more rows pass than it touches.
  pub count-update_where_le_add :
      (p test : R → Bool) (set : R → R) (rows : List R)
      → count p (update_where test set rows) ≤ count p rows + count test rows
  unfolding count update_where
  count-update_where_le_add p test set [] = omega arith
  count-update_where_le_add p test set (r ∷ rows) =
      let rest = count-update_where_le_add p test set rows in
      elim (Bool-cases (test r)) [
        | inl t ↦ rw t (ground (arith, rest))
        | inr f ↦ rw f (omega (arith, rest))
      ]

  -- A test that is stricter counts fewer rows.
  pub count_mono :
      (p q : R → Bool) (rows : List R)
      → ((r : R) → p r ≡ true → q r ≡ true)
      → count p rows ≤ count q rows
  unfolding count
  count_mono p q [] h = omega arith
  count_mono p q (r ∷ rows) h =
      let rest = count_mono p q rows h in
      let k = h r in
      elim (Bool-cases (p r)) [
        | inl t ↦ rw (t, k t) (omega (arith, rest))
        | inr f ↦ rw f (omega (arith, rest))
      ]

  -- A property of all rows that the assignment keeps where the condition holds.
  pub All-update_where :
      (P : R → Type 0) (test : R → Bool) (set : R → R) (rows : List R)
      → ((r : R) → test r ≡ true → P r → P (set r))
      → All P rows
      → All P (update_where test set rows)
  unfolding update_where
  All-update_where P test set [] h a = tt
  All-update_where P test set (r ∷ rows) h (p, a) = elim (Bool-cases (test r)) [
    | inl t ↦ rw t (h r t p, All-update_where P test set rows h a)
    | inr f ↦ rw f (p, All-update_where P test set rows h a)
  ]

  -- What is found is one of the rows, and passes the test.
  pub select_one-All :
      (P : R → Type 0) (test : R → Bool) (rows : List R) {r : R}
      → All P rows
      → select_one test rows ≡ some r
      → P r
  unfolding select_one
  select_one-All P test [] a h = absurd (ground arith)
  select_one-All P test (q ∷ rows) (p, a) h = elim (Bool-cases (test q)) [
    | inl t ↦ subst P (ground arith) p
    | inr f ↦ select_one-All P test rows a (ground arith)
  ]

  pub select_one_passes :
      (test : R → Bool) (rows : List R) {r : R} → select_one test rows ≡ some r → test r ≡ true
  unfolding select_one
  select_one_passes test [] h = absurd (ground arith)
  select_one_passes test (q ∷ rows) h = elim (Bool-cases (test q)) [
    | inl t ↦ subst (λ x. test x ≡ true) (ground arith) t
    | inr f ↦ select_one_passes test rows (ground arith)
  ]

  -- The same, for the rows of a table of which a property is known.
  pub count-update_where_le_All :
      (P : R → Type 0) (p test : R → Bool) (set : R → R) (rows : List R)
      → All P rows
      → ((r : R) → P r → test r ≡ true → p (set r) ≡ true → p r ≡ true)
      → count p (update_where test set rows) ≤ count p rows
  unfolding count update_where
  count-update_where_le_All P p test set [] a h = omega arith
  count-update_where_le_All P p test set (r ∷ rows) (k, a) h =
      let rest = count-update_where_le_All P p test set rows a h in
      elim (Bool-cases (test r)) [
        | inl t ↦
            let back = h r k t in
            elim (Bool-cases (p (set r))) [
              | inl q ↦ rw (t, q, back q) (omega (arith, rest))
              | inr q ↦ rw (t, q) (omega (arith, rest))
            ]
        | inr f ↦ rw f (omega (arith, rest))
      ]

  -- A property of the rows after an update, from properties of the rows before.
  pub All-update_where_to :
      (P Q : R → Type 0) (test : R → Bool) (set : R → R) (rows : List R)
      → ((r : R) → P r → test r ≡ true → Q (set r))
      → ((r : R) → P r → test r ≡ false → Q r)
      → All P rows
      → All Q (update_where test set rows)
  unfolding update_where
  All-update_where_to P Q test set [] h k a = tt
  All-update_where_to P Q test set (r ∷ rows) h k (p, a) = elim (Bool-cases (test r)) [
    | inl t ↦ rw t (h r p t, All-update_where_to P Q test set rows h k a)
    | inr f ↦ rw f (k r p f, All-update_where_to P Q test set rows h k a)
  ]

  pub All-map : (P Q : R → Type 0) (rows : List R) → ((r : R) → P r → Q r) → All P rows → All Q rows
  All-map P Q [] h a = tt
  All-map P Q (r ∷ rows) h (p, a) = (h r p, All-map P Q rows h a)

  pub All-both :
      (P Q : R → Type 0) (rows : List R) → All P rows → All Q rows → All (λ r. P r × Q r) rows
  All-both P Q [] a b = tt
  All-both P Q (r ∷ rows) (p, a) (q, b) = ((p, q), All-both P Q rows a b)

  pub count_mono_All :
      (P : R → Type 0) (p q : R → Bool) (rows : List R)
      → All P rows
      → ((r : R) → P r → p r ≡ true → q r ≡ true)
      → count p rows ≤ count q rows
  unfolding count
  count_mono_All P p q [] a h = omega arith
  count_mono_All P p q (r ∷ rows) (k, a) h =
      let rest = count_mono_All P p q rows a h in
      let on = h r k in
      elim (Bool-cases (p r)) [
        | inl t ↦ rw (t, on t) (omega (arith, rest))
        | inr f ↦ rw f (omega (arith, rest))
      ]

  -- No row passes a test that none is counted for, or that `any` denies.
  pub none_pass : (p : R → Bool) (rows : List R) → count p rows ≡ 0 → All (λ r. p r ≡ false) rows
  unfolding count
  none_pass p [] h = tt
  none_pass p (r ∷ rows) h = (ground arith, none_pass p rows (ground arith))

  pub any_denied : (p : R → Bool) (rows : List R) → any p rows ≡ false → All (λ r. p r ≡ false) rows
  any_denied p [] h = tt
  any_denied p (r ∷ rows) h = (ground arith, any_denied p rows (ground arith))

  -- What an update keeps or makes in some row.
  pub any-update_where :
      (p test : R → Bool) (set : R → R) (rows : List R)
      → ((r : R) → test r ≡ true → p r ≡ true → p (set r) ≡ true)
      → any p rows ≡ true
      → any p (update_where test set rows) ≡ true
  unfolding update_where
  any-update_where p test set (r ∷ rows) h k =
      let rest = any-update_where p test set rows h in
      elim (Bool-cases (p r)) [
        | inl t ↦ let step = h r in ground arith
        | inr f ↦ let more = rest (ground arith) in ground arith
      ]
  any-update_where p test set [] h k = absurd (ground arith)

  pub any-update_where_makes :
      (p test : R → Bool) (set : R → R) (rows : List R)
      → ((r : R) → test r ≡ true → p (set r) ≡ true)
      → any test rows ≡ true
      → any p (update_where test set rows) ≡ true
  unfolding update_where
  any-update_where_makes p test set (r ∷ rows) h k =
      let rest = any-update_where_makes p test set rows h in
      elim (Bool-cases (test r)) [
        | inl t ↦ let step = h r t in rw (t, step) refl
        | inr f ↦ let more = rest (ground arith) in ground arith
      ]
  any-update_where_makes p test set [] h k = absurd (ground arith)

  pub any-select_one :
      (test p : R → Bool) (rows : List R) {r : R}
      → select_one test rows ≡ some r
      → p r ≡ true
      → any p rows ≡ true
  unfolding select_one
  any-select_one test p [] h k = absurd (ground arith)
  any-select_one test p (q ∷ rows) {r = r} h k = elim (Bool-cases (test q)) [
    | inl t ↦
        let same : q ≡ r = ground arith in
        let own = subst (λ x. p x ≡ true) (sym same) k in rw own refl
    | inr f ↦ let rest = any-select_one test p rows (ground arith) k in ground arith
  ]
