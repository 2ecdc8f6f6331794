-- ===== src/Dashboard/Runs.antt =====
-- Visits to the dashboard: signing in, signing out and opening a page, in any order.
use g_pay.Base.{
  ◌≡◌, ◌≢◌, ap, text_eq_ne, inl, inr, refl, ◌∙◌, false, Option, none, some, List, [], ◌∷◌, Text,
  codes, text_eq, Bool-cases, Option-cases, if◌then◌else◌,
}
use g_pay.Store.JsMap.{JsMap, get, get-set_self}
use g_pay.Client.{Place, browser}
use g_pay.Dashboard.{
  Browser, storage_key, remove_item, get_api_key, set_api_key, clear_api_key, go, loading, opened,
  gate, trim, submit, sign_out, login_effect,
}

-- What a visitor does: the form with a value, the sign-out, the login page, and a page behind the gate.
pub data Visit : Type 0 where
  signs_in : (value : Text) → Visit
  signs_out opens_login opens_page : Visit

unfoldable pub visit : Place → Visit → Browser → Browser
visit place (signs_in value) b = submit place (record { value = value; show_hint = false }) b
visit place signs_out b = sign_out place b
visit place opens_login b = login_effect place b
visit place opens_page b = (gate place b).1

unfoldable pub visits : Place → List Visit → Browser → Browser
unfolding visit
visits place [] b = b
visits place (v ∷ vs) b = visits place vs (visit place v b)

-- The key that a visitor is signed in with: the last one given since the last sign-out.
abbrev pub signed_in : Option Text → List Visit → Option Text
signed_in key [] = key
signed_in key (signs_in value ∷ vs) =
    signed_in (if text_eq (trim value) [] then key else some (trim value)) vs
signed_in key (signs_out ∷ vs) = signed_in none vs
signed_in key (opens_login ∷ vs) = signed_in key vs
signed_in key (opens_page ∷ vs) = signed_in key vs

get-remove_item : (k : Text) (m : JsMap Text) → get k (remove_item k m) ≡ none
unfolding get remove_item
get-remove_item k [] = refl
get-remove_item k ((j, v) ∷ m) = elim (Bool-cases (text_eq j k)) [
  | inl hit ↦ rw hit (get-remove_item k m)
  | inr miss ↦ rw miss (rw (miss, get) (get-remove_item k m))
]

signed_in-cons :
    (key : Option Text) (v : Visit) (vs : List Visit)
    → signed_in (signed_in key (v ∷ [])) vs ≡ signed_in key (v ∷ vs)
signed_in-cons key (signs_in value) vs = refl
signed_in-cons key signs_out vs = refl
signed_in-cons key opens_login vs = refl
signed_in-cons key opens_page vs = refl

login_effect-storage : (place : Place) (b : Browser) → (login_effect place b).storage ≡ b.storage
unfolding login_effect
login_effect-storage place b = elim (Option-cases (get_api_key place b)) [
  | inl missing ↦ rw (missing, login_effect) refl
  | inr (k, there) ↦ elim (Bool-cases (text_eq k [])) [
    | inl blank ↦ rw (there, login_effect, blank) refl
    | inr given ↦ rw (there, login_effect, given) refl
  ]
]

gate-storage : (place : Place) (b : Browser) → (gate place b).1.storage ≡ b.storage
unfolding gate
gate-storage place b = elim (Option-cases (get_api_key place b)) [
  | inl missing ↦ rw (missing, gate) refl
  | inr (k, there) ↦ elim (Bool-cases (text_eq k [])) [
    | inl blank ↦ rw (there, gate, blank) refl
    | inr given ↦ rw (there, gate, given) refl
  ]
]

-- What the storage holds after a visit.
stored-visit :
    (host : Text) (v : Visit) (b : Browser)
    → get storage_key (visit (browser host) v b).storage
      ≡ signed_in (get storage_key b.storage) (v ∷ [])
unfolding visit submit sign_out login_effect gate set_api_key clear_api_key get_api_key
stored-visit host (signs_in value) b = elim (Bool-cases (text_eq (trim value) [])) [
  | inl blank ↦ rw blank refl
  | inr given ↦ rw given (get-set_self storage_key (trim value) b.storage)
]
stored-visit host signs_out b = get-remove_item storage_key b.storage
stored-visit host opens_login b = ap (get storage_key) (login_effect-storage (browser host) b)
stored-visit host opens_page b = ap (get storage_key) (gate-storage (browser host) b)

stored-visits :
    (host : Text) (vs : List Visit) (b : Browser)
    → get storage_key (visits (browser host) vs b).storage
      ≡ signed_in (get storage_key b.storage) vs
unfolding visits
stored-visits host [] b = refl
stored-visits host (v ∷ vs) b =
    stored-visits host vs (visit (browser host) v b)
    ∙ ap (λ k. signed_in k vs) (stored-visit host v b)
    ∙ signed_in-cons (get storage_key b.storage) v vs

gate_of_key :
    (place : Place) (b : Browser)
    → ((k : Text) → k ≢ [] → get_api_key place b ≡ some k → gate place b ≡ (opened k, b))
      × (get_api_key place b ≡ none → gate place b ≡ (loading, go (codes "/") b))
unfolding gate
gate_of_key place b =
    (λ k given e. rw (e, gate, text_eq_ne k [] given) refl, λ e. rw (e, gate) refl)

-- In a browser, after any sequence of sign-ins, sign-outs and visits, the stored key is the last
-- one that was given since the last sign-out, without the white space around it; the pages open
-- with exactly that key, and a visitor who has none is sent back to the login page.
pub gate-visits :
    (host : Text) (vs : List Visit) (b : Browser)
    → let b' = visits (browser host) vs b in
      let key = signed_in (get_api_key (browser host) b) vs in
      (get_api_key (browser host) b' ≡ key)
      × ((k : Text) → k ≢ [] → key ≡ some k → gate (browser host) b' ≡ (opened k, b'))
      × (key ≡ none → gate (browser host) b' ≡ (loading, go (codes "/") b'))
unfolding get_api_key
gate-visits host vs b =
    let stored = stored-visits host vs b in
    let shown = gate_of_key (browser host) (visits (browser host) vs b) in
    (stored, λ k given e. shown.0 k given (stored ∙ e), λ e. shown.1 (stored ∙ e))
