-- ===== src/Store/Postgres/Observed.antt =====
-- `applyOnChainMatch` of the two stores beside each other.
use mathlib.Core.Option
use g_pay.Base.{
  ℕ, ◌≡◌, ◌<◌, ◌^◌, inl, inr, refl, sym, ap, ◌∙◌, Bool, true, false, Option, none, some, List, [],
  ◌∷◌, map, arith, Text, all, text_eq, text_eq_iff, text_eq_ne, ltb, if◌then◌else◌, Bool-cases, All,
  returned,
}
use g_pay.Hex.{Bytes, is_hex_digit, hex_to_bytes, bytes_to_hex}
use g_pay.Hex.Digits.{IsByte}
use g_pay.Hex.Print.{all-is_hex_digit-bytes_to_hex}
use g_pay.Hex.RoundTrip.{bytes_to_hex-injective, hex_to_bytes-cons, hex_to_bytes-bytes_to_hex}
use g_pay.Radix.Decimal.{big_int-to_string}
use g_pay.Store.Types.{DepositRecord}
use g_pay.Store.Interface.{Draw}
use g_pay.Store.JsMap.{JsMap, values}
use g_pay.Store.Memory
use g_pay.Store.Memory.{MemoryStore, match_first, observed}
use g_pay.Store.Postgres
use g_pay.Store.Postgres.{row_to_deposit, observe, buffer_from_hex}
use g_pay.Store.Postgres.Sql.{DepositRow, Tables, rows_where, update_where, returning, first_row}
use g_pay.Store.Postgres.Rows.{found, found-returning}
use g_pay.Store.Postgres.Refinement.{Represents}
use g_pay.Store.Postgres.Writes.{updated, map-update_where, updated_none}

-- On hexadecimal digits, `Buffer.from` reads what `hexToBytes` reads.
pub buffer_from_hex-hex_to_bytes :
    (s : Text) → all is_hex_digit s ≡ true → buffer_from_hex s ≡ hex_to_bytes s
unfolding buffer_from_hex
buffer_from_hex-hex_to_bytes [] h = unfold hex_to_bytes in refl
buffer_from_hex-hex_to_bytes (c ∷ []) h = unfold hex_to_bytes in refl
buffer_from_hex-hex_to_bytes (c ∷ d ∷ s) h =
    let hc : is_hex_digit c ≡ true = ground arith in
    let hd : is_hex_digit d ≡ true = ground arith in
    let hs : all is_hex_digit s ≡ true = ground arith in
    rw (hex_to_bytes-cons c d s, hc, hd, buffer_from_hex-hex_to_bytes s hs) refl

buffer_from_hex-bytes_to_hex :
    (key : Bytes) → All IsByte key → buffer_from_hex (bytes_to_hex key) ≡ key
buffer_from_hex-bytes_to_hex key h =
    buffer_from_hex-hex_to_bytes (bytes_to_hex key) (all-is_hex_digit-bytes_to_hex key h)
    ∙ hex_to_bytes-bytes_to_hex key h

row_to_deposit-observe :
    (now : ℕ) (address : Text) (amount : ℕ) (state : Text) (r : DepositRow)
    → row_to_deposit (observe now address amount state r)
      ≡ observed now address amount state (row_to_deposit r)
unfolding row_to_deposit observe observed
row_to_deposit-observe now address amount state r = rw (big_int-to_string amount) refl

abbrev pub has_key : Bytes → DepositRecord → Bool
has_key key d = text_eq d.stealth_pubkey key

-- At most one of the deposits has the stealth key.
abbrev pub AtMostOne : Bytes → List DepositRecord → Type 0
AtMostOne key [] = Unit {0}
AtMostOne key (d ∷ ds) =
    (has_key key d ≡ true → All (λ e. has_key key e ≡ false) ds) × AtMostOne key ds

first_with : Bytes → List DepositRecord → Option DepositRecord
first_with key [] = none
first_with key (d ∷ ds) = if has_key key d then some d else first_with key ds

found-first_with :
    (key : Bytes) (rs : List DepositRow)
    → Option.map row_to_deposit (found (λ (r : DepositRow). text_eq r.stealth_pubkey key) rs)
      ≡ first_with key (map row_to_deposit rs)
unfolding first_with rows_where row_to_deposit
found-first_with key [] = refl
found-first_with key (r ∷ rs) = elim (Bool-cases (text_eq r.stealth_pubkey key)) [
  | inl hit ↦ rw (hit, rows_where) refl
  | inr miss ↦ rw (miss, rows_where, first_with) (found-first_with key rs)
]

-- The prints are equal when the keys are.
text_eq-bytes_to_hex :
    (a b : Bytes)
    → All IsByte a
    → All IsByte b
    → text_eq (bytes_to_hex a) (bytes_to_hex b) ≡ text_eq a b
text_eq-bytes_to_hex a b ha hb = elim (Bool-cases (text_eq a b)) [
  | inl same ↦
      (text_eq_iff (bytes_to_hex a) (bytes_to_hex b)).1 (ap bytes_to_hex ((text_eq_iff a b).0 same))
      ∙ sym same
  | inr differ ↦
      text_eq_ne (bytes_to_hex a) (bytes_to_hex b)
        (λ e. cc (differ, (text_eq_iff a b).1 (bytes_to_hex-injective a b ha hb e)))
      ∙ sym differ
]

module _ (key : Bytes) (bytes : All IsByte key) (f : DepositRecord → DepositRecord) where
  match_first_lem :
      (m : JsMap DepositRecord)
      → All (λ d. All IsByte d.stealth_pubkey) (values m)
      → AtMostOne key (values m)
      → ((match_first (bytes_to_hex key) f m).0 ≡ Option.map f (first_with key (values m)))
        × (values (match_first (bytes_to_hex key) f m).1 ≡ updated (has_key key) f (values m))
  unfolding match_first values first_with
  match_first_lem [] h one = (refl, refl)
  match_first_lem ((k, d) ∷ m) (hd, h) (alone, one) =
      let prints = text_eq-bytes_to_hex d.stealth_pubkey key hd bytes in
      elim (Bool-cases (text_eq d.stealth_pubkey key)) [
        | inl hit ↦
            let kept = updated_none (has_key key) f (values m) (alone hit) in
            rw (prints, hit) (refl, ap (λ ds. f d ∷ ds) (sym kept))
        | inr miss ↦
            let (result, written) = match_first_lem m h one in
            rw (prints, miss) (result, ap (λ ds. d ∷ ds) written)
      ]

map-observe :
    (now : ℕ) (address : Text) (amount : ℕ) (state : Text) (o : Option DepositRow)
    → Option.map row_to_deposit (Option.map (observe now address amount state) o)
      ≡ Option.map (observed now address amount state) (Option.map row_to_deposit o)
map-observe now address amount state none = refl
map-observe now address amount state (some r) =
    ap some (row_to_deposit-observe now address amount state r)

-- When the rows are the records of a store in memory, at most one of its deposits has the stealth
-- key, all keys are bytes and the amount is below 10^40, recording an observation for the key's
-- hexadecimal print returns the same deposit on Postgres as in memory, and the rows are still the
-- records.
pub apply_on_chain_match-Represents :
    (draw : Draw) (key : Bytes) (address : Text) (amount : ℕ) (state : Text) (t : Tables)
    (s : MemoryStore)
    → Represents t s
    → All IsByte key
    → All (λ d. All IsByte d.stealth_pubkey) (values s.deposits)
    → AtMostOne key (values s.deposits)
    → amount < 10 ^ 40
    → let (r, s') =
        Memory.apply_on_chain_match draw.now (bytes_to_hex key) address amount state s in
      (t' : Tables) × (Postgres.apply_on_chain_match draw (bytes_to_hex key) address amount state t
        ≡ returned (r, t'))
      × Represents t' s'
unfolding Postgres.apply_on_chain_match Memory.apply_on_chain_match
apply_on_chain_match-Represents draw key address amount state t s same bytes stored one small =
    let g = observe draw.now address amount state in
    let f = observed draw.now address amount state in
    let row : DepositRow → Bool = (λ (r : DepositRow). text_eq r.stealth_pubkey key) in
    let (result, written) = match_first_lem key bytes f s.deposits stored one in
    let t' = record t { deposits = update_where row g t.deposits } in
    let fits : ltb amount (10 ^ 40) ≡ true = ground arith in
    let answer : Option.map row_to_deposit (first_row (returning row g t.deposits))
        ≡ (match_first (bytes_to_hex key) f s.deposits).0 =
      ap (Option.map row_to_deposit) (found-returning row g t.deposits)
      ∙ map-observe draw.now address amount state (found row t.deposits)
      ∙ ap (Option.map f) (found-first_with key t.deposits ∙ ap (first_with key) same.deposits)
      ∙ sym result in
    (
      t',
      rw (buffer_from_hex-bytes_to_hex key bytes, fits) (ap (λ o. returned (o, t')) answer),
      record {
        deposits =
            unfold row_to_deposit in
            map-update_where (has_key key) f g
              (row_to_deposit-observe draw.now address amount state) t.deposits
            ∙ ap (updated (has_key key) f) same.deposits
            ∙ sym written;
        institutions = same.institutions;
      },
    )
