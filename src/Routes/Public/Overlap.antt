-- ===== src/Routes/Public/Overlap.antt =====
-- Releases and refunds that overlap: on a database each reads the deposit and writes its state in two
-- statements, and other requests come between the two.
pub mod Isolation
pub mod Twice
use mathlib.Core.Option
use g_pay.Base.{
  ℕ, ◌≡◌, inl, inr, refl, none, some, List, ◌∷◌, ◌++◌, Text, codes, if◌then◌else◌, Bool-cases,
  Option-cases, Outcome, returned,
}
use g_pay.Hex.{bytes_to_hex}
use g_pay.Store.Types.{
  Institution, DepositState, DepositRecord, DepositCreate, approved, released, refunded, state_eq,
}
use g_pay.Store.Interface.{Draw, Store}
use g_pay.Http.Reply.{Response, ok, not_found, error_in_state, released_to, refunded_to}
use g_pay.Routes.Schemas.{ReleaseBody, RefundBody}
use g_pay.Routes.Public.{own_deposit, settle, release_deposit, refund_deposit, refundable}

-- What a request goes on to do after it has read: answer, or write a state and answer.
pub data Plan : Type 0 where
  answers : Response → Plan
  writes : (id : Text) (st : DepositState) (answer : Response) → Plan

-- A request that has read and not yet written.
pub record InFlight : Type 0 where
  pub inst : Institution
  pub plan : Plan

module _ (I : Store) where
  -- The handlers up to their write.
  unfoldable pub release_plan : ReleaseBody → Institution → I.S → Plan
  release_plan body inst s = elim (own_deposit I inst body.deposit_id s) [
    | none ↦ answers not_found
    | some dep ↦
        if state_eq dep.state approved
        then writes dep.id released (ok (released_to dep.id body.target_addr_hex))
        else answers
            (record { status = 409; reply = error_in_state (codes "not_approved") dep.state })
  ]

  unfoldable pub refund_plan : ℕ → RefundBody → Institution → I.S → Plan
  refund_plan now body inst s = elim (own_deposit I inst body.deposit_id s) [
    | none ↦ answers not_found
    | some dep ↦
        if refundable now dep
        then writes dep.id refunded (ok (refunded_to dep.id (bytes_to_hex dep.refund_addr)))
        else answers
            (record { status = 409; reply = error_in_state (codes "not_refundable") dep.state })
  ]

  abbrev pub perform : Plan → I.S → Outcome (Response × I.S)
  perform (answers r) s = returned (r, s)
  perform (writes id st r) s = settle I id st r s

  -- Without a request in between, the two halves are the handler.
  pub perform-release_plan :
      (body : ReleaseBody) (inst : Institution) (s : I.S)
      → perform (release_plan body inst s) s ≡ release_deposit I body inst s
  unfolding release_plan release_deposit
  perform-release_plan body inst s = elim (Option-cases (own_deposit I inst body.deposit_id s)) [
    | inl missing ↦ rw (missing, release_plan, release_deposit) refl
    | inr (dep, own) ↦ elim (Bool-cases (state_eq dep.state approved)) [
      | inl is ↦ rw (own, release_plan, release_deposit, is) refl
      | inr other ↦ rw (own, release_plan, release_deposit, other) refl
    ]
  ]

  pub perform-refund_plan :
      (now : ℕ) (body : RefundBody) (inst : Institution) (s : I.S)
      → perform (refund_plan now body inst s) s ≡ refund_deposit I now body inst s
  unfolding refund_plan refund_deposit
  perform-refund_plan now body inst s = elim (Option-cases (own_deposit I inst body.deposit_id s)) [
    | inl missing ↦ rw (missing, refund_plan, refund_deposit) refl
    | inr (dep, own) ↦ elim (Bool-cases (refundable now dep)) [
      | inl is ↦ rw (own, refund_plan, refund_deposit, is) refl
      | inr other ↦ rw (own, refund_plan, refund_deposit, other) refl
    ]
  ]

  -- The store and the requests in flight, changed by the requests of institutions that satisfy
  -- `Acts`, and by the creation of deposits, which is one statement.
  pub data Overlaps (Acts : Institution → Type 0)
      : I.S → List InFlight → I.S → List InFlight → Type 0 where
    done : (s : I.S) (fs : List InFlight) → Overlaps Acts s fs s fs
    reads_release :
        (body : ReleaseBody) (inst : Institution) (s u : I.S) (fs gs : List InFlight)
        → Acts inst
        → Overlaps Acts s (record { inst = inst; plan = release_plan body inst s } ∷ fs) u gs
        → Overlaps Acts s fs u gs
    reads_refund :
        (now : ℕ) (body : RefundBody) (inst : Institution) (s u : I.S) (fs gs : List InFlight)
        → Acts inst
        → Overlaps Acts s (record { inst = inst; plan = refund_plan now body inst s } ∷ fs) u gs
        → Overlaps Acts s fs u gs
    writes_back :
        (f : InFlight) (resp : Response) (s t u : I.S) (xs ys gs : List InFlight)
        → perform f.plan s ≡ returned (resp, t)
        → Overlaps Acts t (xs ++ ys) u gs
        → Overlaps Acts s (xs ++ f ∷ ys) u gs
    creates :
        (draw : Draw) (r : DepositCreate) (d : DepositRecord) (s t u : I.S) (fs gs : List InFlight)
        → I.create_deposit draw r s ≡ returned (d, t)
        → Overlaps Acts t fs u gs
        → Overlaps Acts s fs u gs
