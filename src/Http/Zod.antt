-- ===== src/Http/Zod.antt =====
-- The checks of `zod` (version 3) that the schemas of routes.ts and routes/demo.ts are built from,
-- with their documented behaviour.
use g_pay.Base.{ℕ, ◌≤◌, ◌≡◌, ◌↔◌, Bool, true, Option, some, List, Text, length, text_eq}
use g_pay.Store.JsMap.{JsMap, get}
use g_pay.Http.{Value, natural, text, Body, object}

pub record Zod : Type 0 where
  -- The property of a body that `z.object` hands to the property's check.
  pub property : Text → Body → Option Value
  -- `z.string().min(n)`; `z.string()` is at 0.
  pub string_min : ℕ → Value → Option Text
  -- `z.string().regex(r)`
  pub string_regex : (Text → Bool) → Value → Option Text
  -- `z.number().int().min(a).max(b)`
  pub int_between : ℕ → ℕ → Value → Option ℕ
  -- `z.number().int().nonnegative()`
  pub int_nonnegative : Value → Option ℕ
  -- `z.number()`
  pub is_number : Value → Bool
  -- `z.enum([…])`
  pub one_of : List Text → Value → Option Text

-- Is `s` among the literals?
unfoldable pub listed : Text → List Text → Bool
listed s List.[] = Bool.false
listed s (List.◌∷◌ t ts) = elim (text_eq s t) [ Bool.true ↦ true | Bool.false ↦ listed s ts ]

pub record ZodLaws (z : Zod) : Type 0 where
  pub property_iff :
      (k : Text) (b : Body) (v : Value)
      → (z.property k b ≡ some v) ↔ ((m : JsMap Value) × (b ≡ object m) × (get k m ≡ some v))
  pub string_min_iff :
      (n : ℕ) (v : Value) (s : Text) → (z.string_min n v ≡ some s) ↔ ((v ≡ text s) × (n ≤ length s))
  pub string_regex_iff :
      (r : Text → Bool) (v : Value) (s : Text)
      → (z.string_regex r v ≡ some s) ↔ ((v ≡ text s) × (r s ≡ true))
  pub int_between_iff :
      (a b : ℕ) (v : Value) (n : ℕ)
      → (z.int_between a b v ≡ some n) ↔ ((v ≡ natural n) × (a ≤ n) × (n ≤ b))
  pub int_nonnegative_iff : (v : Value) (n : ℕ) → (z.int_nonnegative v ≡ some n) ↔ (v ≡ natural n)
  pub one_of_iff :
      (ts : List Text) (v : Value) (s : Text)
      → (z.one_of ts v ≡ some s) ↔ ((v ≡ text s) × (listed s ts ≡ true))
