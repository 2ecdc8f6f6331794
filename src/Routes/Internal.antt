-- ===== src/Routes/Internal.antt =====
-- The handlers of `buildInternalRouter`: the indexer's report of a deposit on the chain.
pub mod Laws
use g_pay.Base.{
  ℕ, Bool, true, false, Option, none, some, [], ◌∷◌, Text, codes, text_eq, if◌then◌else◌, Outcome,
  returned, ◌>>=◌,
}
use g_pay.Base58.{base58_or_hex_to_hex}
use g_pay.Store.Types.{DepositRecord}
use g_pay.Store.Interface.{Store}
use g_pay.Http.{Body, Env, json}
use g_pay.Http.Zod.{Zod}
use g_pay.Http.Reply.{error_at_key, observation, Response, ok, failure, when_valid}
use g_pay.Auth.{present}
use g_pay.Routes.Schemas.{InternalMatchBody, internal_match_body}

abbrev pub forbidden : Response
forbidden = failure 403 (codes "forbidden")

-- The middleware: may the request with this header pass? `!secret || secret !== expectedSecret`
-- refuses it.
unfoldable pub secret_matches : Text → Option Text → Bool
secret_matches expected header = elim (present header) [
  | none ↦ false
  | some secret ↦ text_eq secret expected
]

-- The answer, from what `applyOnChainMatch` returned.
abbrev pub match_answer : Text → Option DepositRecord → Response
match_answer hex none = record {
  status = 404;
  reply = error_at_key (codes "no_matching_record") hex;
}
match_answer hex (some dep) = ok (observation dep.id dep.institution_id dep.state)

module _ (I : Store) where
  unfoldable pub report_match : Env → InternalMatchBody → I.S → Outcome (Response × I.S)
  report_match env body s = do
    stealth_hex ← base58_or_hex_to_hex body.stealth_pubkey
    (updated, s') ←
        I.apply_on_chain_match env.draw stealth_hex body.deposit_pubkey body.amount body.state s
    returned (match_answer stealth_hex updated, s')

  unfoldable pub post_deposit_detected : Zod → Env → Option Body → I.S → Outcome (Response × I.S)
  post_deposit_detected z env body s = do
    b ← json body
    when_valid (internal_match_body z b) (report_match env) s
