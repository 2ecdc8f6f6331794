-- ===== src/Http/Hono.antt =====
-- How `hono` matches the patterns that the gateway registers, as documented.
use g_pay.Base.{
  ◌≡◌, ◌≢◌, Bool, true, false, ◌&&◌, ◌||◌, [], ◌∷◌, ◌++◌, Text, codes, text_eq, All, ◌==◌,
}

-- `s.startsWith(p)`
unfoldable pub starts_with : Text → Text → Bool
starts_with s [] = true
starts_with [] (d ∷ p) = false
starts_with (c ∷ s) (d ∷ p) = (c == d) && starts_with s p

pub record Hono : Type 0 where
  -- Does a pattern match a path?
  pub matches : Text → Text → Bool
  -- The value of the pattern's one parameter at a path.
  pub param : Text → Text → Text

abbrev pub IsLiteral : Text → Type 0
IsLiteral = All (λ c. (c ≢ b'*') × (c ≢ b':'))

pub record HonoLaws (h : Hono) : Type 0 where
  -- A pattern without `*` and `:` matches itself.
  pub matches-literal : (p path : Text) → IsLiteral p → h.matches p path ≡ text_eq p path
  -- `p/*` matches `p` and all below it.
  pub matches-prefix :
      (p path : Text)
      → IsLiteral p
      → h.matches (p ++ codes "/*") path ≡ (text_eq p path || starts_with path (p ++ codes "/"))
  -- `p:name` matches what lies one level below `p`.
  pub matches-param :
      (p name path : Text)
      → IsLiteral p
      → h.matches (p ++ codes ":" ++ name) path ≡ true
      → starts_with path p ≡ true
