-- ===== src/Playground/View/Prose.antt =====
-- The prose of the steps: the tooltips, and what a finished step says has happened, its markup for
-- emphasis left out.
use g_pay.Base.{◌++◌, Text, codes}

abbrev pub issue_tooltip : Text
issue_tooltip =
    codes "Calls POST /v1/receiving-address. The gateway derives a fresh stealth "
    ++ codes "address from the institution's spend_pub + view_pub, and stores a "
    ++ codes "'pending' deposit row in Postgres."

abbrev pub pay_tooltip : Text
pay_tooltip =
    codes "Builds the program's deposit instruction with your wallet as depositor + "
    ++ codes "refund_addr, the institution's demo wallet as release_authority. You sign "
    ++ codes "the tx in your wallet — your wallet pays the lamports."

abbrev pub detection_tooltip : Text
detection_tooltip =
    codes "The off-chain indexer runs getProgramAccounts every ~5s and scans each "
    ++ codes "Deposit account against the institution's view_priv. When it matches, it "
    ++ codes "POSTs to the gateway's internal /v1/internal/deposit-detected webhook."

abbrev pub attest_tooltip : Text
attest_tooltip =
    codes "Calls POST /v1/demo/attest. Two oracle keys (server-side, threshold = "
    ++ codes "2-of-3) sign the program's attest instruction with the chosen verdict. On "
    ++ codes "the second signature the on-chain state moves to Approved (clean) or "
    ++ codes "Rejected (dirty). In V2 the verdict source is real Chainalysis / TRM "
    ++ codes "scoring instead of demo keys."

abbrev pub settle_tooltip : Text
settle_tooltip =
    codes "Approved → calls /v1/demo/release which submits the program's release "
    ++ codes "instruction. The release target is a freshly generated pubkey (no "
    ++ codes "consolidation). Rejected/Expired → calls /v1/demo/refund and sends back "
    ++ codes "to your refund_addr."

abbrev pub issued_summary : Text
issued_summary =
    codes "The institution (Bank\u{a0}X) asked g-pay for a one-time receiving "
    ++ codes "address for this customer. The gateway derived it from Bank\u{a0}X's "
    ++ codes "public spend + view keys; nothing on chain yet. The customer (you) hasn't "
    ++ codes "paid anything."

abbrev pub paid_summary : Text
paid_summary =
    codes "You paid 0.01 SOL from your own Phantom/Solflare wallet to the stealth "
    ++ codes "address. On-chain, observers see your wallet → that stealth pubkey — not "
    ++ codes "your wallet → Bank\u{a0}X. The institution's real treasury wallet has not "
    ++ codes "appeared anywhere yet."

abbrev pub detected_summary : Text
detected_summary =
    codes "g-pay's indexer scanned every Deposit account on the program with "
    ++ codes "Bank\u{a0}X's view-private key, matched yours, and told the gateway. The "
    ++ codes "deposit row now reflects on-chain reality. No human in the loop."

abbrev pub approved_summary : Text
approved_summary =
    codes "Two of Bank\u{a0}X's three AML oracles attested clean. The program "
    ++ codes "flipped state to Approved. In V2 these signatures come from Chainalysis / "
    ++ codes "TRM / Range adapters scoring the depositor wallet; in V1 they're keypairs "
    ++ codes "that voted what you told them to."

abbrev pub rejected_summary : Text
rejected_summary =
    codes "Two oracles attested dirty. The on-chain deposit is Rejected — "
    ++ codes "Bank\u{a0}X's treasury never receives this money. Step 5 below refunds it "
    ++ codes "to you."

abbrev pub released_summary : Text
released_summary =
    codes "Bank\u{a0}X released the funds to a brand-new pubkey they had never used "
    ++ codes "before. There is no on-chain link between this slice and any prior "
    ++ codes "payment they accepted. The bank's \"treasury\" is the off-chain sum "
    ++ codes "across all such slices — chain analysis cannot cluster it."

abbrev pub refunded_summary : Text
refunded_summary =
    codes "Funds returned to your wallet (the original depositor). Bank\u{a0}X's "
    ++ codes "treasury never received anything from this payment. From the public "
    ++ codes "chain's perspective, Bank\u{a0}X wasn't even involved."
