-- ===== src/Routes/Public/Limits.antt =====
-- The limit of `GET /v1/treasury/deposits/list`: which ones the gateway takes on Postgres.
use mathlib.Core.Path.{subst}
use g_pay.Base.{
  ℕ, ◌≡◌, ◌≤◌, refl, sym, inl, inr, false, ltb, Option, none, some, List, map, length, arith,
  Bool-cases, Outcome, returned, threw, ◌>>=◌, store_failure,
}
use g_pay.Store.Types.{
  Institution, DepositRecord, Num, nan, infinity, neg_infinity, nonneg, neg, above, below, min_num,
}
use g_pay.Store.Memory.{MemoryStore, memory_store}
use g_pay.Store.Postgres
use g_pay.Store.Postgres.{postgres_store}
use g_pay.Store.Postgres.Sql.{Tables, limited}
use g_pay.Http.Reply.{Response, ok, listing}
use g_pay.Routes.Public.{get_treasury_list, list_limit, deposit_item}

-- The values of `Number(limit)` that the list takes on Postgres, none for a missing limit: the
-- natural numbers, and whatever exceeds the bound of 500.
abbrev pub IsAdmitted : Option Num → Type 0
IsAdmitted none = Unit {0}
IsAdmitted (some (nonneg n)) = Unit {0}
IsAdmitted (some infinity) = Unit {0}
IsAdmitted (some (above n)) = 500 ≤ n
IsAdmitted (some _) = ⊥

module _ (inst : Institution) (t : Tables) where
  list_answers :
      (limit : Option Num) (n : ℕ)
      → list_limit limit ≡ nonneg n
      → (resp : Response) × (get_treasury_list postgres_store limit inst t ≡ returned (resp, t))
  unfolding get_treasury_list Postgres.list_institution_deposits limited
  list_answers limit n e =
      let answer : List DepositRecord → Outcome (Response × Tables) =
        λ ds. returned (ok (listing (length ds) (map deposit_item ds)), t) in
      subst
        (λ (l : Num).
          (resp : Response) × ((Postgres.list_institution_deposits inst.id (some l) t >>= answer)
            ≡ returned (resp, t)))
        (sym e) (_, refl)

  admitted_answers :
      (limit : Option Num)
      → IsAdmitted limit
      → (resp : Response) × (get_treasury_list postgres_store limit inst t ≡ returned (resp, t))
  unfolding min_num
  admitted_answers none h = list_answers none 100 refl
  admitted_answers (some nan) h = absurd h
  admitted_answers (some infinity) h = list_answers (some infinity) 500 refl
  admitted_answers (some neg_infinity) h = absurd h
  admitted_answers (some (nonneg n)) h = list_answers (some (nonneg n)) _ refl
  admitted_answers (some (neg n)) h = absurd h
  admitted_answers (some (above n)) h =
      let large : ltb n 500 ≡ false = ground arith in
      list_answers (some (above n)) 500 (rw large refl)
  admitted_answers (some (below n)) h = absurd h

  list_throws :
      (limit : Option Num)
      → ¬ IsAdmitted limit
      → get_treasury_list postgres_store limit inst t ≡ threw store_failure
  unfolding min_num get_treasury_list Postgres.list_institution_deposits limited
  list_throws none h = absurd (h tt)
  list_throws (some nan) h = refl
  list_throws (some infinity) h = absurd (h tt)
  list_throws (some neg_infinity) h = refl
  list_throws (some (nonneg n)) h = absurd (h tt)
  list_throws (some (neg n)) h = refl
  list_throws (some (above n)) h = elim (Bool-cases (ltb n 500)) [
    | inl small ↦ rw small refl
    | inr large ↦ absurd (h (ground arith))
  ]
  list_throws (some (below n)) h = refl

  -- On Postgres a list is answered when no limit is given or its number is a natural number or
  -- exceeds 500, Infinity and fractions included; with any other number (a negative one, a smaller
  -- fraction, NaN) the gateway throws there, where on the store in memory it answers.
  pub get_treasury_list-IsAdmitted :
      (limit : Option Num) (s : MemoryStore)
      → (IsAdmitted limit
          → (resp : Response) × (get_treasury_list postgres_store limit inst t
              ≡ returned (resp, t)))
        × (¬ IsAdmitted limit
            → (get_treasury_list postgres_store limit inst t ≡ threw store_failure)
              × ((resp : Response) × (get_treasury_list memory_store limit inst s
                    ≡ returned (resp, s))))
  unfolding get_treasury_list
  get_treasury_list-IsAdmitted limit s =
      (admitted_answers limit, λ refused. (list_throws limit refused, (_, refl)))
