-- ===== src/Lib.antt =====
-- The API gateway of G-Pay, apps/api-gateway/src: institutions ask it for one-time (stealth) receiving
-- addresses, watch the deposits made to them, and release or refund them; an indexer reports what it
-- sees on the chain.
--
-- How the program is put together. `buildApp` (index.ts) mounts three routers over one store. The
-- public router (routes.ts) is guarded by an API key (auth.ts), which picks the institution; its
-- handlers read and change deposits through the interface `Store` (store/types.ts), and a new
-- deposit's address is derived from the institution's public keys (stealth.ts). The internal router
-- (routes.ts) is guarded by a secret; its one handler takes the indexer's reports. The demo router
-- (routes/demo.ts) creates deposits too, and otherwise drives the payment program's command-line tool.
--
-- Which file models which part.
--   Base             names of the libraries, strings as lists of code units, lists over native numbers,
--                    and `Outcome`: code that returns or throws.
--   Hex, Radix,      `hexToBytes`, `bytesToHex`, `HEX_32`; `toString`, `BigInt`; `base58Decode` and
--   Base58           `base58OrHexToHex` of apps/api-gateway/src/routes.ts. Base58.Encode is an encoder
--                    that the program does not have, written to state what the decoder inverts.
--   Stealth          apps/api-gateway/src/stealth.ts, function by function. Stealth.Scan also models
--                    `scan_deposit` and `reconstruct_spend_scalar` of crates/stealth-core/src.
--   Store            Store.Types: the records of store/types.ts. Store.Interface: its interface, as a
--                    record of operations. Store.Contract: the laws that a store owes the handlers.
--                    Store.JsMap: a `Map` in insertion order. Store.Memory: `class MemoryStore` of
--                    store/memory.ts, method by method, and its proof of the contract. Store.Factory:
--                    `createStore` of store/index.ts, and the demo institution of index.ts. Store.Postgres:
--                    `class PostgresStore` of store/postgres.ts, over tables as lists of rows
--                    (Store.Postgres.Sql) with the schema of deploy/migrations/001_init.sql, its proof of
--                    the contract, and its records beside those of a `MemoryStore`.
--   Http             requests, replies, and the packages `zod` and `hono` as parameters.
--   Auth             `apiKeyAuth` of auth.ts.
--   Routes           routes.ts. Routes.Schemas: the bodies. Routes.Public: a function per public handler
--                    (`post_release` for `POST /v1/release`, and so on), over any store;
--                    Routes.Public.Calls: the public handlers as one function, `serve`;
--                    Routes.Public.Stores: `serve` over the two stores; Routes.Public.Limits: the
--                    limits that a list takes; Routes.Public.Overlap:
--                    releases and refunds that overlap.
--                    Routes.Internal: the secret and the indexer's report.
--   Demo             routes/demo.ts. Demo.Steps: the command lines and the answers; Demo.Handlers: the
--                    handlers.
--   App              `buildApp`: the routers' patterns and middlewares in their order. App.Start: the start
--                    from the environment variables on.
--   Client           the dashboard's client, apps/dashboard/src/lib/api.ts: what each call sends.
--   Playground       apps/dashboard/src/app/dashboard/page.tsx: the state of `Playground` with the starts of
--                    its actions (Playground.Actions, `begin` of an action) and their ends
--                    (Playground.Finish, `finish_release` for `runRelease`, and so on), the requests
--                    (Playground.Sent) and their routes (Playground.Reach), its sessions as a step relation (Playground.Runs), and what it
--                    shows (Playground.View: a function per component).
--   Dashboard        apps/dashboard/src: lib/auth.ts, ApiKeyGate.tsx, the login page, the headers and the
--                    side bar, and next.config.ts.
--   Tests            runs and examples, over stand-ins for the packages.
--
-- How state is modelled. A handler is a function from the store to an `Outcome` of the reply and the
-- store after it. A handler that throws has not written, since each writes once and last, so `answered`
-- keeps the old store and sends 500. Requests are handled one after the other; in the memory store no
-- handler can be interrupted between its read and its write, as no other event is awaited there, while
-- on Postgres requests can overlap there. Routes.Public.Overlap models that for releases and refunds:
-- what a request has read is a `Plan`, and plans are performed in any order. In the playground an action
-- has a start and an end, and clicks and answers come between the two in any order; what it waits for
-- (the wallet, the chain, an answer) is an argument of its end, the exceptions included.
--
-- What is a parameter. `Curve` is what stealth.ts takes from `@noble/curves` and `@noble/hashes`, and
-- `CurveLaws` the group laws and sizes that it relies on. `Zod` is what the schemas use of `zod`, and
-- `ZodLaws` what that package documents. `Hono` is how `hono` matches a path with a pattern, and
-- `HonoLaws` what it documents of that; a request's method is the one it is dispatched by. `Tools` is
-- the command-line tool, the wallet's file, `bs58` and `@solana/web3.js`. `Env` is what a request reads
-- of the clock and of the random numbers. Each of them has an instance in Tests.
--
-- Numbers. Times, amounts and byte values are naturals: amounts come from digits or from a checked body
-- and times from the clock, so none is negative. Amounts are `bigint`s in the source and have no bound;
-- the nonce is written modulo 2^64. The limit of a list is a JavaScript number, `Num`, with its special
-- values and fractions. What SQL leaves open of the order of a list is a choice that the tables hold. The digits of a number are printed with one round more than its value, and a round divides
-- by the radix, so the rounds suffice: `value-to_string` reads every number back.
--
-- What is not modelled. A lost connection to the database, and texts that it cannot encode; what the
-- pool finds behind an address and what the file of migrations does are the parameter `Database`. The
-- documentation pages of the dashboard, its styling, icons and closing notes, and the browser's clipboard
-- and history. The Rust crates but for the two functions named; the port and the signals; the `detail` of
-- an invalid body, which is zod's, and that of `demo_wallet_unavailable`, the text of an exception; the
-- constant `note` of a release; and answers of a success to the playground that are no JSON object.
pub mod Base
pub mod Hex
pub mod Radix
pub mod Base58
pub mod Stealth
pub mod Store
pub mod Http
pub mod Auth
pub mod Routes
pub mod Demo
pub mod App
pub mod Client
pub mod Playground
pub mod Dashboard
pub mod Tests
