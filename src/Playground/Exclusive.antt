-- ===== src/Playground/Exclusive.antt =====
-- What holds of every session of the playground.
pub mod Entries
pub mod Begun
use g_pay.Http.Reply.{PaymentStatusReply}
use g_pay.Base.{
  ℕ, ◌+◌, ◌&&◌, sym, ◌∙◌, ◌≢◌, ◌≡◌, ◌⊎◌, inl, inr, refl, arith, Bool, true, false, Option, none,
  some, List, [], ◌∷◌, ◌++◌, Bool-cases,
}
use g_pay.Playground.Texts.{Wallet}
use g_pay.Playground.Actions.{
  Page, Action, Fetched, failed, answered, present, poll_status, poll_balance, busy_name, is_ok,
}
use g_pay.Playground.Runs.{
  Result, action_of, finish, Session, Step, clicked, replied, polled, balanced, Reachable, first,
  next,
}
use g_pay.Playground.Exclusive.Entries.{LogFits, finish-Ended, if_both}
use g_pay.Playground.Exclusive.Begun.{needs_address, Began, begin-Began}

-- `a` alone is in flight, and `busy` names it.
pub record IsOnly (a : Action) (fs : List Action) (p : Page) : Type 0 where
  pub alone : fs ≡ a ∷ []
  pub named : p.busy ≡ some (busy_name a)
  pub addressed : needs_address a ≡ true → present p.address ≡ true

-- Nothing is in flight, or one action is.
abbrev pub IsExclusive : List Action → Page → Type 0
IsExclusive fs p = ((fs ≡ []) × (p.busy ≡ none)) ⊎ ((a : Action) × IsOnly a fs p)

pub record Invariant (fs : List Action) (p : Page) : Type 0 where
  pub exclusive : IsExclusive fs p
  pub fits : LogFits p
  pub unasked : present p.address ≡ false → p.status ≡ none

-- A click that starts an action finds none in flight.
clicked-Invariant :
    (a : Action) (p q : Page) (fs : List Action)
    → Began a p q
    → Invariant fs p
    → Invariant (a ∷ fs) q
clicked-Invariant a p q fs b inv = record {
  exclusive = elim inv.exclusive [
    | inl (nothing, idle) ↦ inr (
      a,
      record {
        alone = cc nothing;
        named = b.named;
        addressed = λ e. cc (b.address, b.addressed e);
      },
    )
    | inr (c, only) ↦ cc (only.named, b.was_idle)
  ];
  fits = b.fits inv.fits;
  unasked = λ e. cc (b.status, inv.unasked (cc (b.address, e)));
}

-- Taking one action out of one leaves none.
none_left : (a b : Action) (xs ys : List Action) → xs ++ b ∷ ys ≡ a ∷ [] → xs ++ ys ≡ []
none_left a b [] ys h = cc
none_left a b (x ∷ []) ys h = cc
none_left a b (x ∷ y ∷ xs) ys h = cc

none_in : (b : Action) (xs ys : List Action) → xs ++ b ∷ ys ≢ []
none_in b [] ys h = cc
none_in b (x ∷ xs) ys h = cc

replied-Invariant :
    (now : ℕ) (r : Result) (p : Page) (fs xs ys : List Action)
    → fs ≡ xs ++ action_of r ∷ ys
    → Invariant fs p
    → Invariant (xs ++ ys) (finish now r p)
replied-Invariant now r p fs xs ys e inv =
    let done = finish-Ended now r p in
    record {
      exclusive = elim inv.exclusive [
        | inl (nothing, idle) ↦ absurd (none_in (action_of r) xs ys (sym e ∙ nothing))
        | inr (c, only) ↦ inl (none_left c (action_of r) xs ys (sym e ∙ only.alone), done.idle)
      ];
      fits = done.fits inv.fits;
      unasked = λ a. elim (Bool-cases (present p.address)) [
        | inl here ↦ cc (a, done.address here)
        | inr gone ↦ done.status ∙ inv.unasked gone
      ];
    }

kept :
    (fs : List Action) {p q : Page}
    → q.busy ≡ p.busy
    → q.address ≡ p.address
    → IsExclusive fs p
    → IsExclusive fs q
kept fs b a (inl (nothing, idle)) = inl (nothing, b ∙ idle)
kept fs b a (inr (c, only)) = inr (
  c,
  record { alone = only.alone; named = b ∙ only.named; addressed = λ e. cc (a, only.addressed e) },
)

polled-Invariant :
    (live : Bool) (r : Fetched PaymentStatusReply) (p : Page) (fs : List Action)
    → present p.address ≡ true
    → Invariant fs p
    → Invariant fs (poll_status live r p)
unfolding poll_status
polled-Invariant live (failed e) p fs here inv = inv
polled-Invariant live (answered r) p fs here inv =
    if_both (Invariant fs) (is_ok r.status && live)
      (record {
        exclusive = kept fs refl refl inv.exclusive;
        fits = inv.fits;
        unasked = λ e. cc (e, here);
      })
      inv

with_balance-Invariant :
    (b : Option ℕ) (p : Page) (fs : List Action)
    → Invariant fs p
    → Invariant fs (record p { wallet_balance = b })
with_balance-Invariant b p fs inv = record {
  exclusive = kept fs refl refl inv.exclusive;
  fits = inv.fits;
  unasked = inv.unasked;
}

balanced-Invariant :
    (live : Bool) (wallet : Option Wallet) (lamports : Option ℕ) (p : Page) (fs : List Action)
    → Invariant fs p
    → Invariant fs (poll_balance live wallet lamports p)
unfolding poll_balance
balanced-Invariant live none lamports p fs inv = with_balance-Invariant none p fs inv
balanced-Invariant live (some w) none p fs inv = inv
balanced-Invariant live (some w) (some n) p fs inv =
    if_both (Invariant fs) live (with_balance-Invariant (some n) p fs inv) inv

Step-Invariant :
    {s t : Session} → Step s t → Invariant s.in_flight s.page → Invariant t.in_flight t.page
Step-Invariant (clicked now wallet a p q fs h) inv =
    clicked-Invariant a p q fs (begin-Began now wallet a p q h) inv
Step-Invariant (replied now r p fs xs ys e) inv = replied-Invariant now r p fs xs ys e inv
Step-Invariant (polled live r p fs here) inv = polled-Invariant live r p fs here inv
Step-Invariant (balanced live wallet lamports p fs) inv =
    balanced-Invariant live wallet lamports p fs inv

-- In every session of the playground, however clicks, answers, failures and polls follow each
-- other, at most one action is in flight and `busy` names exactly that one, an action other than
-- the issue has an address, the log holds at most 60 entries, and there is no status without an
-- address.
pub one_action_at_a_time : (s : Session) → Reachable s → Invariant s.in_flight s.page
one_action_at_a_time _ first = record {
  exclusive = inl (refl, refl);
  fits = (omega arith, omega arith);
  unasked = λ e. refl;
}
one_action_at_a_time _ (next s t before h) = Step-Invariant h (one_action_at_a_time s before)
