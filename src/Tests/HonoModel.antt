-- ===== src/Tests/HonoModel.antt =====
-- A `Hono` that matches patterns as documented.
use g_pay.Base.{
  ℕ, ◌≡◌, ◌≢◌, refl, Bool, true, false, ◌&&◌, ◌||◌, [], ◌∷◌, ◌++◌, arith, Text, codes, text_eq,
  ◌==◌, if◌then◌else◌, ==_iff,
}
use g_pay.Http.Hono.{Hono, HonoLaws, IsLiteral, starts_with}

-- The last segment `/*` matches nothing or anything below, a segment `:name` anything.
unfoldable pub model_matches : Text → Text → Bool
model_matches [] path = text_eq [] path
model_matches (c ∷ p) [] = if text_eq (c ∷ p) (codes "/*") then true else c == b':'
model_matches (c ∷ p) (d ∷ path) =
    let rest = model_matches p path in
    if text_eq (c ∷ p) (codes "/*") then d == b'/' else if c == b':' then true else (c == d) && rest

abbrev pub hono : Hono
hono = record { matches = model_matches; param = λ p path. path }

not_star : (c : ℕ) (p : Text) → IsLiteral (c ∷ p) → text_eq (c ∷ p) (codes "/*") ≡ false
unfolding text_eq
not_star c [] (h, _) = ground arith
not_star c (x ∷ p) (h, ((star, _), _)) = ground (arith, ==_iff x b'*')

not_star_append :
    (c : ℕ) (p : Text) → IsLiteral (c ∷ p) → text_eq (c ∷ p ++ codes "/*") (codes "/*") ≡ false
unfolding text_eq
not_star_append c [] h = ground arith
not_star_append c (x ∷ p) (h, ((star, _), _)) = ground (arith, ==_iff x b'*')

not_star_param :
    (c : ℕ) (p name : Text)
    → IsLiteral (c ∷ p)
    → text_eq (c ∷ p ++ codes ":" ++ name) (codes "/*") ≡ false
unfolding text_eq
not_star_param c [] name h = ground arith
not_star_param c (x ∷ p) name (h, ((star, _), _)) = ground (arith, ==_iff x b'*')

not_colon : (c : ℕ) → c ≢ b':' → (c == b':') ≡ false
not_colon c h = ground arith

matches-literal : (p path : Text) → IsLiteral p → model_matches p path ≡ text_eq p path
unfolding model_matches text_eq
matches-literal [] path h = refl
matches-literal (c ∷ p) [] h = rw (not_star c p h, model_matches) (not_colon c h.0.1)
matches-literal (c ∷ p) (d ∷ path) h =
    let rest = matches-literal p path h.1 in
    rw (not_star c p h, model_matches, not_colon c h.0.1, rest) refl

matches-prefix :
    (p path : Text)
    → IsLiteral p
    → model_matches (p ++ codes "/*") path ≡ (text_eq p path || starts_with path (p ++ codes "/"))
unfolding model_matches text_eq starts_with
matches-prefix [] [] h = refl
matches-prefix [] (d ∷ path) h = ground arith
matches-prefix (c ∷ p) [] h = rw (not_star_append c p h, model_matches) (not_colon c h.0.1)
matches-prefix (c ∷ p) (d ∷ path) h =
    let rest = matches-prefix p path h.1 in
    rw (not_star_append c p h, model_matches, not_colon c h.0.1, rest) (ground arith)

matches-param :
    (p name path : Text)
    → IsLiteral p
    → model_matches (p ++ codes ":" ++ name) path ≡ true
    → starts_with path p ≡ true
unfolding model_matches starts_with text_eq
matches-param [] name path h is = refl
matches-param (c ∷ p) name [] h is =
    absurd (cc (rw (not_star_param c p name h, model_matches, not_colon c h.0.1) at is))
matches-param (c ∷ p) name (d ∷ path) h is =
    let rest = matches-param p name path h.1 in
    let both = rw (not_star_param c p name h, model_matches, not_colon c h.0.1) at is in
    let ends = ==_iff c d in let starts = ==_iff d c in ground arith

pub hono_laws : HonoLaws hono
hono_laws = record {
  matches-literal = matches-literal;
  matches-prefix = matches-prefix;
  matches-param = matches-param;
}
