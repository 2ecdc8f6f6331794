-- ===== src/App/Paths.antt =====
-- Which of the registered patterns a path matches.
use g_pay.Base.{
  ◌≡◌, inl, inr, refl, sym, ◌∙◌, Bool, true, false, ◌&&◌, ◌||◌, not, [], ◌∷◌, ◌++◌, arith, Text,
  codes, text_eq, text_eq_iff, text_eq_ne, Bool-cases, ◌==◌, ==_iff,
}
use g_pay.Http.{Request}
use g_pay.Http.Hono.{Hono, HonoLaws, IsLiteral, starts_with}
use g_pay.App.{takes}

-- A test for patterns without a wildcard and a parameter.
unfoldable pub is_literal : Text → Bool
is_literal [] = true
is_literal (c ∷ s) = not (c == b'*') && not (c == b':') && is_literal s

pub is_literal-IsLiteral : (s : Text) → is_literal s ≡ true → IsLiteral s
unfolding is_literal
is_literal-IsLiteral [] h = tt
is_literal-IsLiteral (c ∷ s) h =
    let rest = is_literal-IsLiteral s in
    let star = ==_iff c b'*' in let colon = ==_iff c b':' in ground arith

-- Two prefixes of one path agree as far as both go.
unfoldable pub clash : Text → Text → Bool
clash [] q = false
clash (c ∷ p) [] = false
clash (c ∷ p) (d ∷ q) = not (c == d) || clash p q

pub starts_with-clash :
    (path p q : Text) → clash p q ≡ true → starts_with path p ≡ true → starts_with path q ≡ false
unfolding clash starts_with
starts_with-clash path [] q c h = cc
starts_with-clash path (a ∷ p) [] c h = cc
starts_with-clash [] (a ∷ p) (b ∷ q) c h = refl
starts_with-clash (x ∷ path) (a ∷ p) (b ∷ q) c h =
    let rest = starts_with-clash path p q in ground (arith, ==_iff x a, ==_iff x b, ==_iff a b)

-- A prefix of a prefix is one.
pub starts_with-append :
    (path p q : Text) → starts_with path (p ++ q) ≡ true → starts_with path p ≡ true
unfolding starts_with
starts_with-append path [] q h = refl
starts_with-append [] (a ∷ p) q h = cc
starts_with-append (x ∷ path) (a ∷ p) q h = let rest = starts_with-append path p q in ground arith

pub no_and : (b : Bool) → (b && false) ≡ false
no_and true = refl
no_and false = refl

or_true : (b : Bool) → (b || true) ≡ true
or_true true = refl
or_true false = refl

other_start : (p q path : Text) → starts_with p q ≡ false → starts_with path q ≡ true → p ≡ path → ⊥
other_start p q path differs starts same = cc

module _ (h : Hono) (laws : HonoLaws h) where
  -- A pattern without a parameter takes no request whose path starts otherwise.
  pub takes-other :
      (method p q : Text) (req : Request)
      → is_literal p ≡ true
      → starts_with p q ≡ false
      → starts_with req.path q ≡ true
      → takes h method p req ≡ false
  takes-other method p q req lit differs starts =
      let unlike : text_eq p req.path ≡ false =
        text_eq_ne p req.path (other_start p q req.path differs starts) in
      rw (laws.matches-literal p req.path (is_literal-IsLiteral p lit), unlike)
        (no_and (text_eq req.method method))

  -- A pattern with a parameter takes no request whose path starts otherwise than its literal part.
  pub takes-other_param :
      (method p name q : Text) (req : Request)
      → is_literal p ≡ true
      → clash p q ≡ true
      → starts_with req.path q ≡ true
      → takes h method (p ++ codes ":" ++ name) req ≡ false
  takes-other_param method p name q req lit differs starts =
      elim (Bool-cases (h.matches (p ++ codes ":" ++ name) req.path)) [
        | inl is ↦
            let here = laws.matches-param p name req.path (is_literal-IsLiteral p lit) is in
            let not_q = starts_with-clash req.path p q differs here in absurd cc
        | inr other ↦ rw other (no_and (text_eq req.method method))
      ]

  -- `p/*` matches every path that starts with `p/`.
  pub matches-below :
      (p path : Text)
      → is_literal p ≡ true
      → starts_with path (p ++ codes "/") ≡ true
      → h.matches (p ++ codes "/*") path ≡ true
  matches-below p path lit starts =
      rw (laws.matches-prefix p path (is_literal-IsLiteral p lit), starts)
        (or_true (text_eq p path))

  pub matches-exact : (p path : Text) → is_literal p ≡ true → h.matches p path ≡ true → path ≡ p
  matches-exact p path lit is =
      sym (
        (text_eq_iff p path).0
          (sym (laws.matches-literal p path (is_literal-IsLiteral p lit)) ∙ is))
