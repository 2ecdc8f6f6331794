-- ===== src/Playground/Runs.antt =====
-- The playground over time: the actions in flight beside the page's state, and the events that
-- change them.
use g_pay.Base.{ℕ, ◌≡◌, Bool, true, Option, some, List, [], ◌∷◌, ◌++◌, Text}
use g_pay.Http.Reply.{PaymentStatusReply}
use g_pay.Playground.Texts.{Wallet}
use g_pay.Playground.Actions.{
  Page, initial, Action, issue, pay, attest, release, refund, Verdict, Fetched, begin, present,
  poll_status, poll_balance,
}
use g_pay.Playground.Finish.{
  Payment, Paid, Issued, finish_issue, finish_pay, finish_attest, finish_release, finish_refund,
}

-- What an action in flight has waited for.
pub data Result : Type 0 where
  issue_result : Fetched Issued → Result
  pay_result : Payment → Result
  attest_result : Verdict → Fetched (Option (List Text)) → Result
  release_result refund_result : Fetched Paid → Result

abbrev pub action_of : Result → Action
action_of (issue_result r) = issue
action_of (pay_result r) = pay
action_of (attest_result v r) = attest v
action_of (release_result r) = release
action_of (refund_result r) = refund

unfoldable pub finish : ℕ → Result → Page → Page
finish now (issue_result r) p = finish_issue now r p
finish now (pay_result r) p = finish_pay now r p
finish now (attest_result v r) p = finish_attest now v r p
finish now (release_result r) p = finish_release now r p
finish now (refund_result r) p = finish_refund now r p

pub record Session : Type 0 where
  pub page : Page
  pub in_flight : List Action

-- An event: a click, an answer to one of the actions in flight, or a poll's answer. A poll writes
-- other states than an action's entries in the log, so that these stand together here.
pub data Step : Session → Session → Type 0 where
  clicked :
      (now : ℕ) (wallet : Option Wallet) (a : Action) (p q : Page) (fs : List Action)
      → begin now wallet a p ≡ some q
      → Step (record { page = p; in_flight = fs }) (record { page = q; in_flight = a ∷ fs })
  replied :
      (now : ℕ) (r : Result) (p : Page) (fs xs ys : List Action)
      → fs ≡ xs ++ action_of r ∷ ys
      → Step
          (record { page = p; in_flight = fs })
          (record { page = finish now r p; in_flight = xs ++ ys })
  polled :
      (live : Bool) (r : Fetched PaymentStatusReply) (p : Page) (fs : List Action)
      → present p.address ≡ true
      → Step
          (record { page = p; in_flight = fs })
          (record { page = poll_status live r p; in_flight = fs })
  balanced :
      (live : Bool) (wallet : Option Wallet) (lamports : Option ℕ) (p : Page) (fs : List Action)
      → Step
          (record { page = p; in_flight = fs })
          (record { page = poll_balance live wallet lamports p; in_flight = fs })

-- The sessions that come up, from the page's first rendering on.
pub data Reachable : Session → Type 0 where
  first : Reachable (record { page = initial; in_flight = [] })
  next : (s t : Session) → Reachable s → Step s t → Reachable t
