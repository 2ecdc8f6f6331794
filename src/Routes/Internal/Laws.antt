-- ===== src/Routes/Internal/Laws.antt =====
-- `POST /v1/internal/deposit-detected`, over the store in memory.
use mathlib.Core.Path.{subst}
use g_pay.Base.{
  ◌≡◌, ◌⊎◌, inl, inr, refl, sym, ap, ◌∙◌, true, Option, none, some, arith, Text, text_eq,
  Option-cases, returned, returned-injective, >>=-eq-returned, if◌then◌else◌, length, All,
}
use g_pay.Hex.{Bytes, bytes_to_hex, hex_to_bytes, is_hex_32}
use g_pay.Hex.Digits.{IsByte}
use g_pay.Base58.{base58_or_hex_to_hex}
use g_pay.Base58.Encode.{base58_encode}
use g_pay.Base58.Keys.{base58_or_hex_to_hex-base58, base58_or_hex_to_hex-hex}
use g_pay.Store.Types.{DepositRecord, DepositState, pending, state_name, state_eq, terminal}
use g_pay.Store.Memory.Observed.{observed-state_name}
use g_pay.Store.Memory.{MemoryStore, memory_store, observed, apply_on_chain_match, get_deposit}
use g_pay.Store.Memory.Invariant.{IsValid}
use g_pay.Store.Memory.Laws.{apply_on_chain_match_lem}
use g_pay.Http.{Body, Env}
use g_pay.Http.Zod.{Zod}
use g_pay.Http.Reply.{Response, ok, observation}
use g_pay.Routes.Schemas.{InternalMatchBody, internal_match_body}
use g_pay.Routes.Internal.{match_answer, report_match, post_deposit_detected}
use g_pay.Routes.Public.Settle.{Refused, refused}

-- The deposit as the report leaves it.
abbrev pub reported : Env → InternalMatchBody → DepositRecord → DepositRecord
reported env r d = record {
  id = d.id;
  institution_id = d.institution_id;
  customer_id = d.customer_id;
  amount_hint = d.amount_hint;
  mint = d.mint;
  stealth_pubkey = d.stealth_pubkey;
  ephemeral_r = d.ephemeral_r;
  view_tag = d.view_tag;
  refund_addr = d.refund_addr;
  created_at = d.created_at;
  expires_at = d.expires_at;
  state = elim (terminal r.state) [ some t ↦ t | none ↦ d.state ];
  on_chain_address = some r.deposit_pubkey;
  on_chain_amount = some r.amount;
  on_chain_state = some r.state;
  on_chain_observed_at = some env.draw.now;
}

observed-reported :
    (env : Env) (r : InternalMatchBody) (d : DepositRecord)
    → observed env.draw.now r.deposit_pubkey r.amount r.state d ≡ reported env r d
unfolding observed
observed-reported env r d = refl

-- The state is the reported one, unless that is pending.
reported-state_name :
    (env : Env) (r : InternalMatchBody) (d : DepositRecord) (st : DepositState)
    → r.state ≡ state_name st
    → (reported env r d).state ≡ (if state_eq st pending then d.state else st)
reported-state_name env r d st named =
    ap (λ (x : DepositRecord). x.state) (sym (observed-reported env r d))
    ∙ ap (λ t. (observed env.draw.now r.deposit_pubkey r.amount t d).state) named
    ∙ observed-state_name env.draw.now r.deposit_pubkey r.amount st d

-- What has happened when a report was recorded.
pub record IsRecorded (env : Env) (r : InternalMatchBody) (s : MemoryStore) (resp : Response)
    (s' : MemoryStore) : Type 0 where
  pub deposit : DepositRecord
  pub found : get_deposit deposit.id s ≡ some deposit
  pub key : base58_or_hex_to_hex r.stealth_pubkey ≡ returned (bytes_to_hex deposit.stealth_pubkey)
  pub answer :
      resp ≡ ok (observation deposit.id deposit.institution_id (reported env r deposit).state)
  pub state :
      (st : DepositState)
      → r.state ≡ state_name st
      → (reported env r deposit).state ≡ (if state_eq st pending then deposit.state else st)
  pub changed :
      (j : Text)
      → get_deposit j s'
        ≡ (if text_eq deposit.id j then some (reported env r deposit) else get_deposit j s)
  pub keys : s'.institutions ≡ s.institutions

applied_cases :
    (env : Env) (r : InternalMatchBody) (hex : Text) (s s' : MemoryStore) (resp : Response)
    → IsValid s
    → base58_or_hex_to_hex r.stealth_pubkey ≡ returned hex
    → (let (updated, t) =
          apply_on_chain_match env.draw.now hex r.deposit_pubkey r.amount r.state s in
        ◌≡◌ {A = Response × MemoryStore} (match_answer hex updated, t) (resp, s'))
    → Refused memory_store s resp s' ⊎ IsRecorded env r s resp s'
unfolding observed
applied_cases env r hex s s' resp v read h =
    let (updated, t) = apply_on_chain_match env.draw.now hex r.deposit_pubkey r.amount r.state s in
    let (what, keys) =
      apply_on_chain_match_lem env.draw.now hex r.deposit_pubkey r.amount r.state s v in
    subst
      (λ (p : Response × MemoryStore). Refused memory_store s p.0 p.1 ⊎ IsRecorded env r s p.0 p.1)
      h
      (elim what [
        | inl (missing, same, _) ↦ inl (rw missing (omega arith), same)
        | inr (d, found, key, is, changed) ↦ inr (record {
          deposit = d;
          found = found;
          key = read ∙ ap returned (sym key);
          answer = ap (match_answer hex) is;
          state = reported-state_name env r d;
          changed = changed;
          keys = keys;
        })
      ])

report_match_cases :
    (env : Env) (r : InternalMatchBody) (s s' : MemoryStore) (resp : Response)
    → IsValid s
    → report_match memory_store env r s ≡ returned (resp, s')
    → Refused memory_store s resp s' ⊎ IsRecorded env r s resp s'
unfolding report_match
report_match_cases env r s s' resp v h =
    let (hex, read, answered) = >>=-eq-returned (base58_or_hex_to_hex r.stealth_pubkey) _ h in
    applied_cases env r hex s s' resp v read (returned-injective answered)

-- Over the valid memory store, a report that is answered is no success and leaves the store as it
-- was, or else the key that it names is the stealth key of a deposit that the store holds; that
-- deposit gets the account's address, the amount, the chain's state and the time of the report, and
-- its own state becomes the reported one unless that is pending, and nothing else changes.
pub post_deposit_detected_cases :
    (z : Zod) (env : Env) (body : Option Body) (s s' : MemoryStore) (resp : Response)
    → IsValid s
    → post_deposit_detected memory_store z env body s ≡ returned (resp, s')
    → Refused memory_store s resp s'
      ⊎ ((b : Body) × (r : InternalMatchBody) × (body ≡ some b)
          × (internal_match_body z b ≡ some r)
          × IsRecorded env r s resp s')
unfolding post_deposit_detected
post_deposit_detected_cases z env none s s' resp v h = cc
post_deposit_detected_cases z env (some b) s s' resp v h =
    elim (Option-cases (internal_match_body z b)) [
      | inl bad ↦
          inl
            (refused memory_store s s' _ resp (omega arith) (rw (bad, post_deposit_detected) at h))
      | inr (r, good) ↦
          elim (report_match_cases env r s s' resp v (rw (good, post_deposit_detected) at h)) [
            | inl no_change ↦ inl no_change
            | inr done ↦ inr (b, r, refl, good, done)
          ]
    ]

-- The ways to write a key that the report may use.
abbrev pub Writes : Text → Bytes → Type 0
Writes t key = (t ≡ base58_encode key) ⊎ ((is_hex_32 t ≡ true) × (hex_to_bytes t ≡ key))

reads_key :
    (t : Text) (key : Bytes)
    → All IsByte key
    → length key ≡ 32
    → Writes t key
    → base58_or_hex_to_hex t ≡ returned (bytes_to_hex key)
reads_key t key bytes n (inl is) =
    ap base58_or_hex_to_hex is ∙ base58_or_hex_to_hex-base58 key bytes n
reads_key t key bytes n (inr (hex, is)) =
    base58_or_hex_to_hex-hex t hex ∙ ap (λ k. returned (bytes_to_hex k)) is

-- Over the valid memory store, an accepted report that writes the 32-byte stealth key of a stored
-- deposit, in base58 or in hexadecimal, is recorded on that deposit if no other deposit has that
-- key.
pub post_deposit_detected_granted :
    (z : Zod) (env : Env) (b : Body) (r : InternalMatchBody) (s : MemoryStore) (d : DepositRecord)
    → IsValid s
    → internal_match_body z b ≡ some r
    → get_deposit d.id s ≡ some d
    → All IsByte d.stealth_pubkey
    → length d.stealth_pubkey ≡ 32
    → Writes r.stealth_pubkey d.stealth_pubkey
    → ((e : DepositRecord)
        → get_deposit e.id s ≡ some e
        → bytes_to_hex e.stealth_pubkey ≡ bytes_to_hex d.stealth_pubkey
        → e ≡ d)
    → (s' : MemoryStore) × (post_deposit_detected memory_store z env (some b) s
        ≡ returned (ok (observation d.id d.institution_id (reported env r d).state), s'))
      × ((j : Text)
          → get_deposit j s'
            ≡ (if text_eq d.id j then some (reported env r d) else get_deposit j s))
unfolding post_deposit_detected report_match observed
post_deposit_detected_granted z env b r s d v good found bytes n writes only =
    let hex = bytes_to_hex d.stealth_pubkey in
    let read = reads_key r.stealth_pubkey d.stealth_pubkey bytes n writes in
    let (updated, t) = apply_on_chain_match env.draw.now hex r.deposit_pubkey r.amount r.state s in
    let (what, _) =
      apply_on_chain_match_lem env.draw.now hex r.deposit_pubkey r.amount r.state s v in
    elim what [
      | inl (_, _, others) ↦ absurd (others d.id d found refl)
      | inr (e, held, key, is, changed) ↦
          subst
            (λ (x : DepositRecord).
              (s' : MemoryStore) × (post_deposit_detected memory_store z env (some b) s
                ≡ returned (match_answer hex (some (reported env r x)), s'))
              × ((j : Text)
                  → get_deposit j s'
                    ≡ (if text_eq x.id j then some (reported env r x) else get_deposit j s)))
            (only e held key)
            (
              t,
              rw (good, read, report_match) (ap (λ u. returned (match_answer hex u, t)) is),
              changed,
            )
    ]
