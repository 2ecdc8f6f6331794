-- ===== src/Dashboard/Navigation.antt =====
-- The links of the dashboard's headers and side bar, and the proxy of next.config.ts.
use g_pay.Base.{
  Bool, Option, none, some, List, [], ◌∷◌, ◌++◌, Text, codes, text_eq, ◌==◌, if◌then◌else◌,
}
use g_pay.Playground.Texts.{address_link, short_addr}
use g_pay.Playground.View.{Connection}
use g_pay.Playground.View.Parts.{Link}

-- A link with whether it is the page that is shown.
pub record NavLink : Type 0 where
  pub href : Text
  pub label : Text
  pub active : Bool

abbrev pub nav : List (Text × Text)
nav = (codes "/dashboard", codes "Playground") ∷ []

abbrev pub secondary : List (Text × Text)
secondary = (codes "/docs", codes "Docs") ∷ (codes "/api", codes "API reference") ∷ []

abbrev pub tabs : List (Text × Text)
tabs = (codes "/", codes "Demo") ∷ (codes "/docs", codes "Docs") ∷ (codes "/api", codes "API") ∷ []

-- `const active = pathname === href`, for each of the links.
unfoldable pub nav_links : (pathname : Text) → List (Text × Text) → List NavLink
nav_links pathname [] = []
nav_links pathname ((href, label) ∷ items) =
    record { href = href; label = label; active = text_eq pathname href } ∷ nav_links pathname items

-- `AppSidebar`: the two groups. The links of the second are never shown as active.
unfoldable pub app_sidebar : (pathname : Text) → List NavLink × List (Text × Text)
app_sidebar pathname = (nav_links pathname nav, secondary)

unfoldable pub public_header : (pathname : Text) → List NavLink
public_header pathname = nav_links pathname tabs

-- The wallet's link in `AppHeader`.
unfoldable pub header_wallet : Connection → Option Link
header_wallet c = elim c.public_key [
  | none ↦ none
  | some w ↦
      if c.connected
      then some (record {
        href = address_link w.to_base58;
        label = short_addr 4 w.to_base58 ++ codes " ↗";
      })
      else none
]

pub record Rewrite : Type 0 where
  pub source : Text
  pub destination : Text

-- `s.replace(/\/$/, "")`: one slash at the end is dropped.
unfoldable pub drop_slash : Text → Text
drop_slash [] = []
drop_slash (c ∷ []) = if c == b'/' then [] else c ∷ []
drop_slash (c ∷ d ∷ s) = c ∷ drop_slash (d ∷ s)

-- `target` is `process.env.GPAY_GATEWAY_URL`.
unfoldable pub rewrites : (target : Option Text) → List Rewrite
rewrites none = []
rewrites (some []) = []
rewrites (some (c ∷ target)) =
    record {
      source = codes "/api/:path*";
      destination = drop_slash (c ∷ target) ++ codes "/:path*";
    }
    ∷ []
