-- ===== src/Routes/Public/Runs.antt =====
-- Sequences of public calls, by any institutions, in the order the server handles them.
use g_pay.Base.{◌≡◌, ◌≢◌, ◌⊎◌, inl, inr, some, arith, Text, returned}
use g_pay.Stealth.Primitives.{Curve}
use g_pay.Store.Types.{Institution, DepositRecord, released, refunded}
use g_pay.Store.Interface.{Store}
use g_pay.Store.Contract.{StoreLaws}
use g_pay.Http.{Env}
use g_pay.Http.Zod.{Zod}
use g_pay.Http.Reply.{Response}
use g_pay.Routes.Public.Calls.{Call, serve}
use g_pay.Routes.Public.Isolation.{serve_cases, serve-IsValid}

-- A released or refunded deposit.
abbrev pub IsSettled : DepositRecord → Type 0
IsSettled d = (d.state ≡ released) ⊎ (d.state ≡ refunded)

module _ (I : Store) (z : Zod) (c : Curve) where
  -- The calls that were answered between two states of the store. One that threw has changed
  -- nothing, and needs no step.
  pub data Run : I.S → I.S → Type 0 where
    done : (s : I.S) → Run s s
    then_call :
        (env : Env) (call : Call) (inst : Institution) (s t u : I.S) (resp : Response)
        → serve I z c env call inst s ≡ returned (resp, t)
        → Run t u
        → Run s u

  -- Every call of the sequence is another institution's.
  abbrev pub OnlyOthers : (owner : Text) (s u : I.S) → Run s u → Type 0
  OnlyOthers owner s u (done _) = Unit {0}
  OnlyOthers owner s u (then_call env call inst _ t _ resp h rest) =
      (owner ≢ inst.id) × OnlyOthers owner t u rest

module _ (I : Store) (laws : StoreLaws I) (z : Zod) (c : Curve) where
  serve-foreign :
      (env : Env) (call : Call) (inst : Institution) (s s' : I.S) (resp : Response) (j : Text)
      (d : DepositRecord)
      → laws.IsValid s
      → serve I z c env call inst s ≡ returned (resp, s')
      → I.get_deposit j s ≡ some d
      → d.institution_id ≢ inst.id
      → I.get_deposit j s' ≡ some d
  serve-foreign env call inst s s' resp j d v h f differs =
      elim (serve_cases I laws z c env call inst s s' resp j d v h f) [
        | inl same ↦ same
        | inr (own, _) ↦ absurd (differs own)
      ]

  serve-settled :
      (env : Env) (call : Call) (inst : Institution) (s s' : I.S) (resp : Response) (j : Text)
      (d : DepositRecord)
      → laws.IsValid s
      → serve I z c env call inst s ≡ returned (resp, s')
      → I.get_deposit j s ≡ some d
      → IsSettled d
      → I.get_deposit j s' ≡ some d
  serve-settled env call inst s s' resp j d v h f settled =
      elim (serve_cases I laws z c env call inst s s' resp j d v h f) [
        | inl same ↦ same
        | inr (own, inl (was, _)) ↦ ground arith
        | inr (own, inr (was, _)) ↦ ground arith
      ]

  -- Over a store that meets the contract, along any sequence of answered public calls a valid store
  -- stays valid, and a deposit that was released or refunded stays exactly as it was.
  pub settled_stays_settled :
      (s u : I.S) (run : Run I z c s u) (j : Text) (d : DepositRecord)
      → laws.IsValid s
      → I.get_deposit j s ≡ some d
      → IsSettled d
      → laws.IsValid u × (I.get_deposit j u ≡ some d)
  settled_stays_settled s u (done _) j d v f settled = (v, f)
  settled_stays_settled s u (then_call env call inst _ t _ resp h rest) j d v f settled =
      settled_stays_settled t u rest j d (serve-IsValid I laws z c env call inst s t resp v h)
        (serve-settled env call inst s t resp j d v h f settled) settled

  -- Over a store that meets the contract and is valid, a deposit is not changed by any sequence of
  -- answered public calls that are all made as institutions other than its own.
  pub isolation :
      (s u : I.S) (run : Run I z c s u) (j : Text) (d : DepositRecord)
      → laws.IsValid s
      → I.get_deposit j s ≡ some d
      → OnlyOthers I z c d.institution_id s u run
      → I.get_deposit j u ≡ some d
  isolation s u (done _) j d v f others = f
  isolation s u (then_call env call inst _ t _ resp h rest) j d v f (differs, others) =
      isolation t u rest j d (serve-IsValid I laws z c env call inst s t resp v h)
        (serve-foreign env call inst s t resp j d v h f differs) others
