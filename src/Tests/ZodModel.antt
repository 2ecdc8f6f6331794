-- ===== src/Tests/ZodModel.antt =====
-- A `Zod` that does what the package documents.
use mathlib.Core.Path.{subst}
use g_pay.Base.{
  ℕ, ◌≤◌, ◌≡◌, ◌↔◌, inl, inr, refl, sym, Bool, true, false, ◌&&◌, Option, none, some, arith, Text,
  leb, length, Bool-cases, some-injective, if◌then◌else◌,
}
use g_pay.Store.JsMap.{JsMap, get}
use g_pay.Http.{Value, fraction, natural, negative, text, Body, object, not_object}
use g_pay.Http.Zod.{Zod, ZodLaws, listed}

abbrev pub only : {A : Type 0} → (A → Bool) → A → Option A
only p a = if p a then some a else none

abbrev pub as_text : Value → Option Text
as_text (text s) = some s
as_text _ = none

abbrev pub as_natural : Value → Option ℕ
as_natural (natural n) = some n
as_natural _ = none

abbrev pub then_only : {A : Type 0} → (A → Bool) → Option A → Option A
then_only p none = none
then_only p (some a) = only p a

abbrev pub model_property : Text → Body → Option Value
model_property k (object m) = get k m
model_property k not_object = none

abbrev pub is_numeric : Value → Bool
is_numeric (natural n) = true
is_numeric (negative n) = true
is_numeric fraction = true
is_numeric _ = false

abbrev pub zod : Zod
zod = record {
  property = model_property;
  string_min = λ n v. then_only (λ s. leb n (length s)) (as_text v);
  string_regex = λ r v. then_only r (as_text v);
  int_between = λ a b v. then_only (λ n. leb a n && leb n b) (as_natural v);
  int_nonnegative = as_natural;
  is_number = is_numeric;
  one_of = λ ts v. then_only (λ s. listed s ts) (as_text v);
}

then_only_iff :
    {A : Type 0} (p : A → Bool) (m : Option A) (a : A)
    → (then_only p m ≡ some a) ↔ ((m ≡ some a) × (p a ≡ true))
then_only_iff p none a = (λ e. cc, λ (e, _). cc)
then_only_iff p (some b) a = elim (Bool-cases (p b)) [
  | inl is ↦ (
    λ e.
        let same : some b ≡ some a = rw is at e in
        (same, subst (λ x. p x ≡ true) (some-injective same) is),
    λ (e, _). rw is e,
  )
  | inr isnt ↦ (
    λ e. absurd (cc (rw isnt at e)),
    λ (e, y).
        let same : p b ≡ true = subst (λ x. p x ≡ true) (sym (some-injective e)) y in absurd cc,
  )
]

as_text_iff : (v : Value) (s : Text) → (as_text v ≡ some s) ↔ (v ≡ text s)
as_text_iff v s = ground arith

as_natural_iff : (v : Value) (n : ℕ) → (as_natural v ≡ some n) ↔ (v ≡ natural n)
as_natural_iff v n = ground arith

property_iff :
    (k : Text) (b : Body) (v : Value)
    → (model_property k b ≡ some v) ↔ ((m : JsMap Value) × (b ≡ object m) × (get k m ≡ some v))
property_iff k (object m) v = (λ e. (m, refl, e), λ (n, same, e). cc)
property_iff k not_object v = (λ e. absurd cc, λ (n, same, e). absurd cc)

-- Both halves of a check: the value's kind, and the test.
kind_then :
    {A : Type 0} (p : A → Bool) (m : Option A) (a : A) (K T : Type 0)
    → (m ≡ some a) ↔ K
    → (p a ≡ true) ↔ T
    → (then_only p m ≡ some a) ↔ (K × T)
kind_then p m a K T kind test =
    let both = then_only_iff p m a in
    (λ e. let (k, t) = both.0 e in (kind.0 k, test.0 t), λ (k, t). both.1 (kind.1 k, test.1 t))

leb_iff : (n m : ℕ) → (leb n m ≡ true) ↔ (n ≤ m)
leb_iff n m = ground arith

between_iff : (a b n : ℕ) → ((leb a n && leb n b) ≡ true) ↔ ((a ≤ n) × (n ≤ b))
between_iff a b n = ground arith

pub zod_laws : ZodLaws zod
zod_laws = record {
  property_iff = property_iff;
  string_min_iff = λ n v s.
      kind_then (λ t. leb n (length t)) (as_text v) s (v ≡ text s) (n ≤ length s) (as_text_iff v s)
        (leb_iff n (length s));
  string_regex_iff = λ r v s.
      kind_then r (as_text v) s (v ≡ text s) (r s ≡ true) (as_text_iff v s) (λ e. e, λ e. e);
  int_between_iff = λ a b v n.
      let both =
        kind_then (λ m. leb a m && leb m b) (as_natural v) n (v ≡ natural n) ((a ≤ n) × (n ≤ b))
          (as_natural_iff v n) (between_iff a b n) in
      (
        λ e. let (k, (low, high)) = both.0 e in (k, low, high),
        λ (k, low, high). both.1 (k, (low, high)),
      );
  int_nonnegative_iff = as_natural_iff;
  one_of_iff = λ ts v s.
      kind_then (λ t. listed t ts) (as_text v) s (v ≡ text s) (listed s ts ≡ true) (as_text_iff v s)
        (λ e. e, λ e. e);
}
