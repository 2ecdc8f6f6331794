-- ===== src/Store/Postgres/Rows.antt =====
-- Statements on one table.
use mathlib.Core.Option
use mathlib.Core.Path.{subst}
use g_pay.Base.{
  ◌≡◌, refl, inl, inr, Bool, true, Option, none, some, List, [], ◌∷◌, ◌++◌, map, arith,
  if◌then◌else◌, Bool-cases, take, some-injective,
}
use g_pay.Store.Postgres.Sql.{rows_where, update_where, first_row, select_one, returning}

module _ {A : Type 0} where
  -- The first row that a query finds, or that a statement returns.
  abbrev pub found : (A → Bool) → List A → Option A
  found test rs = first_row (rows_where test rs)

  pub select_one-found : (test : A → Bool) (rs : List A) → select_one test rs ≡ found test rs
  select_one-found test rs =
      elim (rows_where test rs) as (λ xs. first_row (take 1 xs) ≡ first_row xs) [
        | [] ↦ refl
        | r ∷ xs ↦ refl
      ]

  pub found-returning :
      (test : A → Bool) (f : A → A) (rs : List A)
      → first_row (returning test f rs) ≡ Option.map f (found test rs)
  found-returning test f rs =
      elim (rows_where test rs) as (λ xs. first_row (map f xs) ≡ Option.map f (first_row xs)) [
        | [] ↦ refl
        | r ∷ xs ↦ refl
      ]

  pub found-append :
      (test : A → Bool) (rs : List A) (r : A)
      → found test rs ≡ none
      → found test (rs ++ r ∷ []) ≡ (if test r then some r else none)
  unfolding rows_where
  found-append test [] r h = ground arith
  found-append test (x ∷ rs) r h = ground (arith, found-append test rs r)

  pub found-append_some :
      (test : A → Bool) (rs : List A) (r x : A)
      → found test rs ≡ some x
      → found test (rs ++ r ∷ []) ≡ some x
  unfolding rows_where
  found-append_some test [] r x h = cc
  found-append_some test (y ∷ rs) r x h = ground (arith, found-append_some test rs r x)

  pub found-test : (test : A → Bool) (rs : List A) (x : A) → found test rs ≡ some x → test x ≡ true
  unfolding rows_where
  found-test test [] x h = cc
  found-test test (y ∷ rs) x h = elim (Bool-cases (test y)) [
    | inl hit ↦
        let same : y ≡ x = some-injective (rw (hit, rows_where) at h) in
        subst (λ r. test r ≡ true) same hit
    | inr skipped ↦ found-test test rs x (rw (skipped, rows_where) at h)
  ]

  pub found-update_where :
      (test other : A → Bool) (f : A → A) (rs : List A)
      → ((r : A) → other (f r) ≡ other r)
      → found other (update_where test f rs)
        ≡ Option.map (λ r. if test r then f r else r) (found other rs)
  unfolding rows_where update_where
  found-update_where test other f [] keeps = refl
  found-update_where test other f (r ∷ rs) keeps =
      let ih = found-update_where test other f rs keeps in
      let same = keeps r in
      elim (Bool-cases (test r)) [
        | inl hit ↦ elim (Bool-cases (other r)) [
          | inl here ↦ rw (hit, same, here, hit) refl
          | inr later ↦ rw (hit, same, later) ih
        ]
        | inr miss ↦ elim (Bool-cases (other r)) [
          | inl here ↦ rw (miss, here, miss) refl
          | inr later ↦ rw (miss, later) ih
        ]
      ]
