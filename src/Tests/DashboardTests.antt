-- ===== src/Tests/DashboardTests.antt =====
-- A visitor who signs in with a key between spaces, signs out, and signs in again.
use g_pay.Base.{◌≡◌, ◌≢◌, refl, text_eq, none, some, List, [], ◌∷◌, Text, codes}
use g_pay.Hex.{is_white}
use g_pay.Client.{browser}
use g_pay.Dashboard.{Browser, get_api_key, go, loading, opened, gate, trim, trim_start}
use g_pay.Dashboard.Runs.{
  Visit, signs_in, signs_out, opens_login, opens_page, visits, signed_in, gate-visits,
}

abbrev visitor : Browser
visitor = record { storage = []; path = codes "/" }

abbrev tour : List Visit
tour = opens_login ∷ signs_in (codes " k1 ") ∷ opens_page ∷ signs_out ∷ signs_in (codes "k2") ∷ []

gate-visits_example :
    let b' = visits (browser (codes "localhost")) tour visitor in
    let key = signed_in (get_api_key (browser (codes "localhost")) visitor) tour in
    (get_api_key (browser (codes "localhost")) b' ≡ key)
    × ((k : Text) → k ≢ [] → key ≡ some k → gate (browser (codes "localhost")) b' ≡ (opened k, b'))
    × (key ≡ none → gate (browser (codes "localhost")) b' ≡ (loading, go (codes "/") b'))
gate-visits_example = gate-visits (codes "localhost") tour visitor

-- The second key is the one that the gate opens with.
key_of_tour : signed_in none tour ≡ some (codes "k2")
unfolding trim trim_start text_eq is_white
key_of_tour = refl
