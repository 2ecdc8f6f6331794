-- ===== src/Store/JsMap.antt =====
-- A JavaScript `Map` with string keys: its entries in insertion order.
use mathlib.Core.Path.{subst}
use g_pay.Base.{
  ◌≡◌, refl, Option, none, some, List, [], ◌∷◌, ◌++◌, arith, Text, text_eq, text_eq_iff,
  text_eq_refl, if◌then◌else◌, All, Bool-cases, inl, inr,
}

abbrev pub JsMap {ℓ} : Type ℓ → Type ℓ
JsMap V = List (Text × V)

module _ {ℓ} {V : Type ℓ} where
  -- `m.get(k)`.
  unfoldable pub get : Text → JsMap V → Option V
  get k [] = none
  get k ((j, v) ∷ m) = if text_eq j k then some v else get k m

  -- `m.set(k, v)`: in place, or behind all others.
  unfoldable pub set : Text → V → JsMap V → JsMap V
  set k v [] = (k, v) ∷ []
  set k v ((j, w) ∷ m) = if text_eq j k then (j, v) ∷ m else (j, w) ∷ set k v m

  -- `m.values()`.
  unfoldable pub values : JsMap V → List V
  values [] = []
  values ((j, v) ∷ m) = v ∷ values m

  -- A lookup after a write.
  pub get-set :
      (j k : Text) (v : V) (m : JsMap V)
      → get j (set k v m) ≡ (if text_eq k j then some v else get j m)
  unfolding get set
  get-set j k v [] = refl
  get-set j k v ((i, w) ∷ m) =
      ground (arith, text_eq_iff k j, text_eq_iff i k, text_eq_iff i j, get-set j k v m)

  pub get-set_self : (k : Text) (v : V) (m : JsMap V) → get k (set k v m) ≡ some v
  get-set_self k v m = simp (get-set, text_eq_refl)

  -- A new key goes behind all others.
  pub set_new : (k : Text) (v : V) (m : JsMap V) → get k m ≡ none → set k v m ≡ m ++ (k, v) ∷ []
  unfolding get set
  set_new k v [] h = refl
  set_new k v ((j, w) ∷ m) h = ground (arith, set_new k v m)

  -- The value under a key is one of the entries.
  pub All-get {κ} :
      (P : Text → V → Type κ) (k : Text) (v : V) (m : JsMap V)
      → All (λ e. P e.0 e.1) m
      → get k m ≡ some v
      → P k v
  unfolding get
  All-get P k v [] h e = cc
  All-get P k v ((j, w) ∷ m) (p, h) e = elim (Bool-cases (text_eq j k)) [
    | inl same ↦
        let found : w ≡ v = ground arith in
        subst (P k) found (subst (λ i. P i w) ((text_eq_iff j k).0 same) p)
    | inr other ↦ All-get P k v m h (rw other at e)
  ]

  pub All-set {κ} :
      (P : Text × V → Type κ) (k : Text) (v : V) (m : JsMap V)
      → All P m
      → ((j : Text) → j ≡ k → P (j, v))
      → All P (set k v m)
  unfolding set
  All-set P k v [] h p = (p k refl, tt)
  All-set P k v ((j, w) ∷ m) (q, h) p = elim (Bool-cases (text_eq j k)) [
    | inl same ↦ rw same (p j ((text_eq_iff j k).0 same), h)
    | inr other ↦ rw other (q, All-set P k v m h p)
  ]

  -- No key stands twice.
  abbrev pub HasDistinctKeys : JsMap V → Type ℓ
  HasDistinctKeys [] = Unit
  HasDistinctKeys ((k, v) ∷ m) = (get k m ≡ none) × HasDistinctKeys m

  pub HasDistinctKeys-set :
      (k : Text) (v : V) (m : JsMap V) → HasDistinctKeys m → HasDistinctKeys (set k v m)
  unfolding set
  HasDistinctKeys-set k v [] h = unfold get in (refl, tt)
  HasDistinctKeys-set k v ((j, w) ∷ m) (new, h) =
      let ih = HasDistinctKeys-set k v m h in
      elim (Bool-cases (text_eq j k)) [
        | inl same ↦ rw same (new, h)
        | inr other ↦
            rw other (ground (arith, get-set j k v m, text_eq_iff j k, text_eq_iff k j), ih)
      ]
