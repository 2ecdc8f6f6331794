-- ===== src/Routes/Public/Stores.antt =====
-- The public handlers over the two stores: the same request to both.
use g_pay.Base.{
  ◌≡◌, inl, inr, refl, Bool, true, false, ℕ, Option, none, some, Text, Option-cases, Outcome,
  returned, threw, bad_json, if◌then◌else◌, Failure,
}
use g_pay.Stealth.Primitives.{Curve}
use g_pay.Store.Types.{
  Institution, DepositState, approved, released, refunded, state_eq, Num, nonneg, HasDistinctTimes,
}
use g_pay.Store.JsMap.{values}
use g_pay.Store.Memory.{MemoryStore, memory_store, owned_by}
use g_pay.Store.Memory
use g_pay.Store.Memory.Invariant.{IsValid, set_deposit_state-IsValid}
use g_pay.Store.Postgres
use g_pay.Store.Postgres.{postgres_store}
use g_pay.Store.Postgres.Sql.{Tables}
use g_pay.Store.Postgres.Refinement.{
  Represents, get_deposit-Represents, list_default-Represents, list-Represents,
}
use g_pay.Store.Postgres.Writes.{set_deposit_state-Represents}
use g_pay.Http.{Env}
use g_pay.Http.Zod.{Zod}
use g_pay.Http.Reply.{Response, when_valid, invalid_body}
use g_pay.Routes.Schemas.{ReleaseBody, RefundBody, release_body, refund_body}
use g_pay.Routes.Public.{
  own_deposit, settle, get_payment_status, release_deposit, refund_deposit, refundable,
  get_treasury_deposits, get_treasury_list, list_limit, post_release, post_refund,
}
use g_pay.Routes.Public.Calls.{
  Call, receiving_address, release, refund, payment_status, treasury, treasury_list, serve,
}

-- The two stores answer alike, and their contents still correspond.
pub data Agree : Outcome (Response × Tables) → Outcome (Response × MemoryStore) → Type 0 where
  both_answer :
      (resp : Response) (t : Tables) (s : MemoryStore)
      → Represents t s
      → IsValid s
      → Agree (returned (resp, t)) (returned (resp, s))
  both_throw : (e : Failure) → Agree (threw e) (threw e)

own_deposit-Represents :
    (inst : Institution) (id : Text) (t : Tables) (s : MemoryStore)
    → Represents t s
    → IsValid s
    → own_deposit postgres_store inst id t ≡ own_deposit memory_store inst id s
unfolding own_deposit
own_deposit-Represents inst id t s same v =
    rw (get_deposit-Represents id t s same v, own_deposit) refl

module _ (inst : Institution) (t : Tables) (s : MemoryStore) (same : Represents t s)
    (v : IsValid s) where
  unchanged : (resp : Response) → Agree (returned (resp, t)) (returned (resp, s))
  unchanged resp = both_answer resp t s same v

  settle-Agree :
      (id : Text) (st : DepositState) (answer : Response)
      → Agree (settle postgres_store id st answer t) (settle memory_store id st answer s)
  settle-Agree id st answer =
      both_answer answer (Postgres.set_deposit_state id st t).1 (Memory.set_deposit_state id st s).1
        (set_deposit_state-Represents id st t s same v).1 (set_deposit_state-IsValid id st s v)

  if-Agree :
      (b : Bool) {x y : Outcome (Response × Tables)} {x' y' : Outcome (Response × MemoryStore)}
      → Agree x x'
      → Agree y y'
      → Agree (if b then x else y) (if b then x' else y')
  if-Agree true hx hy = hx
  if-Agree false hx hy = hy

  get_payment_status-Agree :
      (id : Text)
      → Agree
          (get_payment_status postgres_store id inst t)
          (get_payment_status memory_store id inst s)
  unfolding get_payment_status
  get_payment_status-Agree id =
      rw (own_deposit-Represents inst id t s same v, get_payment_status)
        (elim (Option-cases (own_deposit memory_store inst id s)) [
          | inl missing ↦ rw (missing, get_payment_status) (unchanged _)
          | inr (dep, own) ↦ rw (own, get_payment_status) (unchanged _)
        ])

  release_deposit-Agree :
      (body : ReleaseBody)
      → Agree
          (release_deposit postgres_store body inst t)
          (release_deposit memory_store body inst s)
  unfolding release_deposit
  release_deposit-Agree body =
      rw (own_deposit-Represents inst body.deposit_id t s same v, release_deposit)
        (elim (Option-cases (own_deposit memory_store inst body.deposit_id s)) [
          | inl missing ↦ rw (missing, release_deposit) (unchanged _)
          | inr (dep, own) ↦
              rw (own, release_deposit)
                (if-Agree (state_eq dep.state approved) (settle-Agree dep.id released _)
                  (unchanged _))
        ])

  refund_deposit-Agree :
      (now : ℕ) (body : RefundBody)
      → Agree
          (refund_deposit postgres_store now body inst t)
          (refund_deposit memory_store now body inst s)
  unfolding refund_deposit
  refund_deposit-Agree now body =
      rw (own_deposit-Represents inst body.deposit_id t s same v, refund_deposit)
        (elim (Option-cases (own_deposit memory_store inst body.deposit_id s)) [
          | inl missing ↦ rw (missing, refund_deposit) (unchanged _)
          | inr (dep, own) ↦
              rw (own, refund_deposit)
                (if-Agree (refundable now dep) (settle-Agree dep.id refunded _) (unchanged _))
        ])

  get_treasury_deposits-Agree :
      HasDistinctTimes (owned_by inst.id (values s.deposits))
      → Agree
          (get_treasury_deposits postgres_store inst t)
          (get_treasury_deposits memory_store inst s)
  unfolding get_treasury_deposits
  get_treasury_deposits-Agree apart =
      rw (list_default-Represents inst.id t s same apart, get_treasury_deposits) (unchanged _)

  get_treasury_list-Agree :
      (limit : Option Num) (n : ℕ)
      → list_limit limit ≡ nonneg n
      → HasDistinctTimes (owned_by inst.id (values s.deposits))
      → Agree
          (get_treasury_list postgres_store limit inst t)
          (get_treasury_list memory_store limit inst s)
  unfolding get_treasury_list
  get_treasury_list-Agree limit n e apart =
      rw (e, list-Represents inst.id n t s same apart, get_treasury_list) (unchanged _)

-- The calls that both stores answer alike: not the creation of an address, for which each store
-- draws its own id; a list and a summary if the institution has no two deposits of one millisecond,
-- whose order the database is free to choose; and a list if its limit is a natural number.
abbrev pub IsShared : Call → Institution → MemoryStore → Type 0
IsShared (receiving_address body) inst s = ⊥
IsShared treasury inst s = HasDistinctTimes (owned_by inst.id (values s.deposits))
IsShared (treasury_list limit) inst s =
    ((n : ℕ) × (list_limit limit ≡ nonneg n))
    × HasDistinctTimes (owned_by inst.id (values s.deposits))
IsShared _ inst s = Unit {0}

module _ (z : Zod) (c : Curve) where
  -- When the rows of the database are the records of a valid store in memory, a public call of any
  -- kind but the creation of an address is answered by the gateway on Postgres exactly as on the
  -- store in memory, errors included, and afterwards the rows are still the records; for a summary
  -- or a list if no two deposits of the institution were created in one millisecond, and for a list
  -- if its limit is a natural number, after the bound of 500.
  pub serve-Agree :
      (env : Env) (call : Call) (inst : Institution) (t : Tables) (s : MemoryStore)
      → Represents t s
      → IsValid s
      → IsShared call inst s
      → Agree (serve postgres_store z c env call inst t) (serve memory_store z c env call inst s)
  unfolding serve post_release post_refund
  serve-Agree env (receiving_address body) inst t s same v never = absurd never
  serve-Agree env (release none) inst t s same v shared = both_throw bad_json
  serve-Agree env (release (some b)) inst t s same v shared =
      elim (release_body z b)
        as (λ o.
          Agree (when_valid o (λ accepted. release_deposit postgres_store accepted inst) t)
            (when_valid o (λ accepted. release_deposit memory_store accepted inst) s)) [
              | none ↦ unchanged inst t s same v invalid_body
              | some body ↦ release_deposit-Agree inst t s same v body
            ]
  serve-Agree env (refund none) inst t s same v shared = both_throw bad_json
  serve-Agree env (refund (some b)) inst t s same v shared =
      elim (refund_body z b)
        as (λ o.
          Agree (when_valid o (λ accepted. refund_deposit postgres_store env.now accepted inst) t)
            (when_valid o (λ accepted. refund_deposit memory_store env.now accepted inst) s)) [
              | none ↦ unchanged inst t s same v invalid_body
              | some body ↦ refund_deposit-Agree inst t s same v env.now body
            ]
  serve-Agree env (payment_status id) inst t s same v shared =
      get_payment_status-Agree inst t s same v id
  serve-Agree env treasury inst t s same v apart = get_treasury_deposits-Agree inst t s same v apart
  serve-Agree env (treasury_list limit) inst t s same v ((n, e), apart) =
      get_treasury_list-Agree inst t s same v limit n e apart
