-- ===== src/Routes/Public/Treasury.antt =====
-- `GET /v1/treasury/deposits` and its list.
use g_pay.Base.{
  ℕ, suc, ◌+◌, ◌≡◌, inl, inr, refl, sym, ap, none, List, [], ◌∷◌, arith, text_eq, length,
  Bool-cases, Outcome, returned, threw, ◌>>=◌, returned-injective, if◌then◌else◌,
}
use g_pay.Store.Types.{
  Institution, DepositState, pending, approved, rejected, released, refunded, expired,
  DepositRecord, state_name, state_eq,
}
use g_pay.Store.Interface.{Store}
use g_pay.Store.JsMap.{JsMap, get, set, get-set}
use g_pay.Http.Reply.{Response, ok, summary}
use g_pay.Routes.Public.Settle.{state_eq_of}
use g_pay.Routes.Public.{or_zero, by_state, get_treasury_deposits}

-- How many of the deposits are in a state.
unfoldable pub count_in : DepositState → List DepositRecord → ℕ
count_in st [] = 0
count_in st (d ∷ ds) = if state_eq d.state st then suc (count_in st ds) else count_in st ds

state_name-eq : (a b : DepositState) → text_eq (state_name a) (state_name b) ≡ state_eq a b
unfolding text_eq
state_name-eq a b = ground arith

bump :
    (a b : DepositState) (acc : JsMap ℕ)
    → or_zero (get (state_name b) (set (state_name a) (or_zero (get (state_name a) acc) + 1) acc))
      ≡ or_zero (get (state_name b) acc) + (if state_eq a b then 1 else 0)
bump a b acc = elim (Bool-cases (state_eq a b)) [
  | inl same ↦
      rw
        (
          get-set (state_name b) (state_name a) (or_zero (get (state_name a) acc) + 1) acc,
          state_name-eq a b,
          same,
        )
        (ap (λ x. or_zero (get (state_name x) acc) + 1) (state_eq_of a b same))
  | inr other ↦
      rw
        (
          get-set (state_name b) (state_name a) (or_zero (get (state_name a) acc) + 1) acc,
          state_name-eq a b,
          other,
        )
        (omega arith)
]

by_state_from :
    (st : DepositState) (ds : List DepositRecord) (acc : JsMap ℕ)
    → or_zero (get (state_name st) (by_state acc ds))
      ≡ or_zero (get (state_name st) acc) + count_in st ds
unfolding by_state count_in
by_state_from st [] acc = omega arith
by_state_from st (d ∷ ds) acc =
    let acc' = set (state_name d.state) (or_zero (get (state_name d.state) acc) + 1) acc in
    let rest = by_state_from st ds acc' in let here = bump d.state st acc in ground arith

all_counts :
    (ds : List DepositRecord)
    → count_in pending ds
        + count_in approved ds
        + count_in rejected ds
        + count_in released ds
        + count_in refunded ds
        + count_in expired ds
      ≡ length ds
unfolding count_in
all_counts [] = refl
all_counts (d ∷ ds) = let rest = all_counts ds in ground arith

-- What the summary says of the deposits that were listed.
abbrev pub IsSummaryOf : List DepositRecord → Response → Type 0
IsSummaryOf ds resp =
    (counts : JsMap ℕ) × (resp ≡ ok (summary (length ds) counts))
    × ((st : DepositState) → or_zero (get (state_name st) counts) ≡ count_in st ds)
    × (count_in pending ds
          + count_in approved ds
          + count_in rejected ds
          + count_in released ds
          + count_in refunded ds
          + count_in expired ds
        ≡ length ds)

summarised :
    {S : Type 0} (listed : Outcome (List DepositRecord)) (s s' : S) (resp : Response)
    → ◌>>=◌ {B = Response × S} listed
        (λ ds. returned (ok (summary (length ds) (by_state [] ds)), s))
      ≡ returned (resp, s')
    → (ds : List DepositRecord) × (listed ≡ returned ds) × IsSummaryOf ds resp × (s' ≡ s)
summarised (returned ds) s s' resp h =
    let same = returned-injective h in
    (
      ds,
      refl,
      (
        by_state [] ds,
        sym (ap (λ p. p.0) same),
        λ st. let counted = by_state_from st ds [] in unfold get in omega arith,
        all_counts ds,
      ),
      sym (ap (λ p. p.1) same),
    )
summarised (threw e) s s' resp h = cc

module _ (I : Store) where
  -- A treasury summary that answers reports, of the deposits that the store lists without a limit,
  -- how many there are, and under each state's name how many are in that state, 0 standing for no
  -- entry; the six numbers add up to the total, and the store is left as it was.
  pub get_treasury_deposits_lem :
      (inst : Institution) (s s' : I.S) (resp : Response)
      → get_treasury_deposits I inst s ≡ returned (resp, s')
      → (ds : List DepositRecord) × (I.list_institution_deposits inst.id none s ≡ returned ds)
        × IsSummaryOf ds resp
        × (s' ≡ s)
  unfolding get_treasury_deposits
  get_treasury_deposits_lem inst s s' resp h =
      summarised (I.list_institution_deposits inst.id none s) s s' resp h
