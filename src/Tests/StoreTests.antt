-- ===== src/Tests/StoreTests.antt =====
-- The store in memory, at the sample store.
use g_pay.Base.{
  All, ◌≢◌, ◌++◌, List, ℕ, ◌≡◌, ◌≢◌, ◌⊎◌, none, some, Text, codes, text_eq, length, take, replicate,
  if◌then◌else◌, min,
}
use g_pay.Hex.{bytes_to_hex}
use g_pay.Store.Types.{approved, refunded, DepositRecord, with_state, nonneg, infinity}
use g_pay.Store.JsMap.{values}
use g_pay.Store.Memory.{
  get_deposit, apply_on_chain_match, observed, list_institution_deposits, owned_by,
}
use g_pay.Store.Memory.Laws.{apply_on_chain_match_lem}
use g_pay.Store.Memory.Listing.{
  IsNewestFirst, list_institution_deposits_complete, length-list_institution_deposits,
}
use g_pay.Store.Memory.Observed.{observed-state_name}
use g_pay.Tests.Samples.{foreign_deposit_2, sample, sample-IsValid}
use mathlib.Core.List.{Perm}

abbrev key_3 : Text
key_3 = bytes_to_hex (replicate 32 3)

apply_on_chain_match_lem_example :
    let (r, s') = apply_on_chain_match 4000 key_3 (codes "acc") 50 (codes "refunded") sample in
    (((r ≡ none)
        × (s' ≡ sample)
        × ((id : Text) (d : DepositRecord)
            → get_deposit id sample ≡ some d
            → bytes_to_hex d.stealth_pubkey ≢ key_3))
      ⊎ ((d : DepositRecord) × (get_deposit d.id sample ≡ some d)
          × (bytes_to_hex d.stealth_pubkey ≡ key_3)
          × (r ≡ some (observed 4000 (codes "acc") 50 (codes "refunded") d))
          × ((j : Text)
              → get_deposit j s' ≡ (
                  if text_eq d.id j
                  then some (observed 4000 (codes "acc") 50 (codes "refunded") d)
                  else get_deposit j sample))))
    × (s'.institutions ≡ sample.institutions)
apply_on_chain_match_lem_example =
    apply_on_chain_match_lem 4000 key_3 (codes "acc") 50 (codes "refunded") sample sample-IsValid

list_institution_deposits_complete_example :
    let full = list_institution_deposits (codes "bank") (some infinity) sample in
    ((others : List DepositRecord) × Perm (values sample.deposits) (full ++ others)
      × All (λ d. d.institution_id ≢ codes "bank") others)
    × All (λ d. d.institution_id ≡ codes "bank") full
    × IsNewestFirst full
    × ((n : ℕ) → list_institution_deposits (codes "bank") (some (nonneg n)) sample ≡ take n full)
    × (list_institution_deposits (codes "bank") none sample ≡ take 200 full)
list_institution_deposits_complete_example =
    list_institution_deposits_complete (codes "bank") sample

length-list_institution_deposits_example :
    length (list_institution_deposits (codes "bank") (some (nonneg 500)) sample)
    ≡ min 500 (length (owned_by (codes "bank") (values sample.deposits)))
length-list_institution_deposits_example =
    length-list_institution_deposits (codes "bank") 500 sample

-- A deposit that was refunded is reported as approved.
observed-state_name_example :
    (observed 4000
      (codes "acc")
      50
      (codes "approved")
      (with_state refunded foreign_deposit_2)).state
    ≡ approved
observed-state_name_example =
    observed-state_name 4000 (codes "acc") 50 approved (with_state refunded foreign_deposit_2)
