-- ===== src/Playground/Exclusive/Begun.antt =====
-- How an action starts.
use mathlib.Core.Path.{subst}
use g_pay.Base.{ℕ, some-injective, ◌≡◌, refl, Bool, true, false, Option, none, some, Text}
use g_pay.Playground.Texts.{Wallet}
use g_pay.Playground.Actions.{
  Page, emit, Action, issue, pay, attest, release, refund, begin, when_idle, when_present, present,
  busy_with, busy_name,
}
use g_pay.Playground.Exclusive.Entries.{LogFits, emit-LogFits}

abbrev pub needs_address : Action → Bool
needs_address issue = false
needs_address _ = true

-- How an action starts.
pub record Began (a : Action) (p q : Page) : Type 0 where
  pub was_idle : p.busy ≡ none
  pub named : q.busy ≡ some (busy_name a)
  pub address : q.address ≡ p.address
  pub addressed : needs_address a ≡ true → present p.address ≡ true
  pub status : q.status ≡ p.status
  pub fits : LogFits p → LogFits q

when_idle-some :
    {A : Type 0} (b : Option Text) (o : Option A) {x : A}
    → when_idle b o ≡ some x
    → (b ≡ none) × (o ≡ some x)
unfolding when_idle
when_idle-some none o h = (refl, h)
when_idle-some (some b) o h = cc

when_present-some :
    {A B : Type 0} (a : Option A) (o : Option B) {x : B}
    → when_present a o ≡ some x
    → (present a ≡ true) × (o ≡ some x)
unfolding when_present
when_present-some none o h = cc
when_present-some (some a) o h = (refl, h)

begin_addressed :
    (a : Action) {p q : Page}
    → when_idle p.busy (when_present p.address (some (busy_with a p))) ≡ some q
    → Began a p q
begin_addressed a {p} {q} h =
    let (idle, h1) = when_idle-some _ _ h in
    let (there, h2) = when_present-some _ _ h1 in
    subst (λ r. Began a p r) (some-injective h2)
      (record {
        was_idle = idle;
        named = refl;
        address = refl;
        addressed = λ e. there;
        status = refl;
        fits = λ f. f;
      })

pub begin-Began :
    (now : ℕ) (wallet : Option Wallet) (a : Action) (p q : Page)
    → begin now wallet a p ≡ some q
    → Began a p q
unfolding begin
begin-Began now wallet issue p q h =
    let (idle, h1) = when_idle-some _ _ h in
    subst (λ r. Began issue p r) (some-injective h1)
      (record {
        was_idle = idle;
        named = unfold emit in refl;
        address = unfold emit in refl;
        addressed = λ e. cc;
        status = unfold emit in refl;
        fits = λ f. emit-LogFits now _ _ f;
      })
begin-Began now wallet pay p q h =
    let (idle, h1) = when_idle-some _ _ h in
    let (there, h2) = when_present-some _ _ h1 in
    let (connected, h3) = when_present-some _ _ h2 in
    subst (λ r. Began pay p r) (some-injective h3)
      (record {
        was_idle = idle;
        named = refl;
        address = refl;
        addressed = λ e. there;
        status = refl;
        fits = λ f. f;
      })
begin-Began now wallet release p q h = begin_addressed release h
begin-Began now wallet refund p q h = begin_addressed refund h
begin-Began now wallet (attest v) p q h = begin_addressed (attest v) h
