-- ===== src/Dashboard.antt =====
-- The dashboard around the playground, apps/dashboard/src: the key in the browser's local storage
-- (lib/auth.ts), the gate before the pages (components/ApiKeyGate.tsx), the login page (app/page.tsx),
-- and signing out (components/AppHeader.tsx).
pub mod Navigation
pub mod Runs
use g_pay.Base.{
  Bool, false, not, Option, none, some, [], ◌∷◌, ◌++◌, reverse, Text, codes, text_eq, take,
  if◌then◌else◌,
}
use g_pay.Hex.{is_white}
use g_pay.Store.JsMap.{JsMap, get, set}
use g_pay.Client.{Place, server, browser}
use g_pay.Playground.Texts.{slice_last}

-- `window.localStorage`, and the path that the router shows.
pub record Browser : Type 0 where
  pub storage : JsMap Text
  pub path : Text

abbrev pub storage_key : Text
storage_key = codes "gpay.apiKey"

-- `localStorage.removeItem(k)`
unfoldable pub remove_item : Text → JsMap Text → JsMap Text
remove_item k [] = []
remove_item k ((j, v) ∷ m) = if text_eq j k then remove_item k m else (j, v) ∷ remove_item k m

-- Where there is no window, nothing is read or written.
unfoldable pub get_api_key : Place → Browser → Option Text
get_api_key server b = none
get_api_key (browser host) b = get storage_key b.storage

unfoldable pub set_api_key : Place → Text → Browser → Browser
set_api_key server value b = b
set_api_key (browser host) value b = record b { storage = set storage_key value b.storage }

unfoldable pub clear_api_key : Place → Browser → Browser
clear_api_key server b = b
clear_api_key (browser host) b = record b { storage = remove_item storage_key b.storage }

-- `router.push(path)` and `router.replace(path)`; they differ in the history only.
abbrev pub go : Text → Browser → Browser
go path b = record b { path = path }

-- What `ApiKeyGate` renders: its first rendering, which stays when it sends the visitor away; or the
-- page with the key.
pub data Gate : Type 0 where
  loading : Gate
  opened : (api_key : Text) → Gate

-- The gate's effect, run where there is a window.
unfoldable pub gate : Place → Browser → Gate × Browser
gate place b = elim (get_api_key place b) [
  | none ↦ (loading, go (codes "/") b)
  | some k ↦ if text_eq k [] then (loading, go (codes "/") b) else (opened k, b)
]

-- `s.trim()`
unfoldable pub trim_start : Text → Text
trim_start [] = []
trim_start (c ∷ s) = if is_white c then trim_start s else c ∷ s

unfoldable pub trim : Text → Text
trim s = reverse (trim_start (reverse (trim_start s)))

-- The login page: its two states.
pub record Login : Type 0 where
  pub value : Text
  pub show_hint : Bool

abbrev pub login_start : Login
login_start = record { value = []; show_hint = false }

abbrev pub demo_key : Text
demo_key = codes "g-p_demo_h6kj9d8s7g6f5d4"

-- The effect of the page: a visitor who has a key is sent on.
unfoldable pub login_effect : Place → Browser → Browser
login_effect place b = elim (get_api_key place b) [
  | none ↦ b
  | some k ↦ if text_eq k [] then b else go (codes "/dashboard") b
]

unfoldable pub submit : Place → Login → Browser → Browser
submit place l b =
    let k = trim l.value in
    if text_eq k [] then b else go (codes "/dashboard") (set_api_key place k b)

-- `disabled={!value.trim()}` of the form's button.
unfoldable pub submit_disabled : Login → Bool
submit_disabled l = text_eq (trim l.value) []

abbrev pub change : Text → Login → Login
change value l = record l { value = value }

-- The hint's button also copies the key to the clipboard.
abbrev pub copy_demo_key : Login → Login
copy_demo_key l = record l { value = demo_key }

abbrev pub toggle_hint : Login → Login
toggle_hint l = record l { show_hint = not l.show_hint }

-- `PROGRAM_ID.slice(0, 10)…PROGRAM_ID.slice(-6)`, the label of the footer's link.
unfoldable pub program_label : Text → Text
program_label id = take 10 id ++ codes "…" ++ slice_last 6 id

-- The header's button "Sign out".
unfoldable pub sign_out : Place → Browser → Browser
sign_out place b = go (codes "/") (clear_api_key place b)
