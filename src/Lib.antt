-- ===== src/Lib.antt =====
-- A verification library for the Foreseer server (server/src), a provably fair game server: it
-- commits to a random seed for each epoch, derives and signs the outcome of each play, and at the
-- close of an epoch reveals the seed and anchors the Merkle root of the receipts.
--
-- The parts and their files, by the source that they model:
-- - Db, Db/Tables: server/src/db.ts, the SQLite tables as lists of rows, newest first, with the
--   statements of the server on them. Db/Epochs and Db/Receipts hold the invariants of two tables.
-- - Engine: the class Engine of server/src/engine.ts. Its state is the tables, the cache of Merkle
--   trees and the counter of hits; ensure_epoch, play, close_open, tick, cached_tree and proof_for
--   are its methods. Engine/Sound states the invariant, Engine/Frame, Open, Stored with Play, Close,
--   Tick, Cache and Proofs with Answers are about one method each.
-- - Wallet: server/src/wallet.ts, the class WalletSessions (issue_nonce, login, wallet_for) with its
--   table of sessions; Wallet/Text has the addresses, the login message and its digest.
-- - Guards: server/src/guards.ts, the four guards before a handler.
-- - Funds: playCharges and operatorFunds of server/src/controllers.ts.
-- - Api/Rules, Api/Play, Api/Verify, Api/Topup: the handlers of server/src/controllers.ts that write
--   a table or decide on a receipt.
-- - Api/Auth: the handlers of a wallet's nonce and login. Api/Operators: the handlers that write the
--   table of operators. Api/Params, Api/Pages and Api/Billing: what the server shows. Api/Filter: server/src/filters.ts, the answer to an error.
-- - Api/Run: the server as server/src/main.ts starts it, and the calls that reach the
--   engine or its tables, in any order.
-- - Start: the settings that server/src/main.ts refuses to start with.
-- - Sdk: the package foreseer-sdk, a git submodule, as a parameter: its functions are the record Sdk,
--   and what the server relies on is the record SdkLaws. Sdk/Toy is a package that meets the laws.
-- - Web: the pure logic of the demo games, web/lib/dice.ts, roulette.ts and coinflip.ts,
--   and the engine of the demo pages, web/lib/demo-tee.ts. Web/DemoEpoch: web/lib/use-demo-epoch.ts, the
--   hook between a page and that engine, whose handlers are cut where they wait. Web/Widget:
--   web/widget/widget-core.mjs and widget-entry.mjs, the verification page. Web/Dashboard:
--   web/app/dashboard/page.tsx, the sign-in of a wallet and its services; what waits is a task of the
--   page, and the server's handlers answer it.
-- - Demo: the clients of the server, which call its modelled handlers. Demo/Client has what they
--   share; Demo/Casino (whose calls pass the server's guards) and Demo/Evidence are spin and proofFor of
--   demo/server.mjs, Demo/Table is demo/static/roulette.js, Demo/Recompute is demo/recompute.mjs, and Demo/Anchor is
--   server/scripts/anchor.mjs with the contract as a parameter. Demo/Setup and Demo/Topup are
--   demo/setup.mjs and demo/topup.mjs, with demo/config.mjs and the chain as a parameter.
-- - Json: parsed request bodies. Base: shared names, lists, maps, integers, texts and Exec, the state
--   and error monad of a handler, in which what was written before a throw stays written.
--
-- A handler runs without interruption, as in Node: the interleavings are the orders of calls. The
-- one handler that waits, topup, is cut where it waits: other calls may come between topup_hash and
-- credit. A call reads the clock once. Random seeds, nonces and tokens are arguments.
--
-- Numbers are exact. Number may round a number in a path that is beyond 2 ^ 53; ids are counted up from
-- 0 or 1, so neither number is that of a row. Columns that hold JSON or a decimal number as text hold
-- the value itself. SHA-256, HMAC and keccak are parameters. toLowerCase is the one of ASCII. The loop
-- of prune that evicts entries runs on fuel, one round for each entry: each round removes one, so the map
-- is below the cap before the rounds end. The rejection loop of a draw runs on fuel too: no number of rounds is enough
-- for every digest, and Demo/Recompute/Words says which number is enough for the digests at hand.
--
-- Not modelled: HTTP routing and the wiring of NestJS, the foreign keys (an operator is never
-- deleted, and the guards pass existing ones only), the column migrations of openDb, the HTTP
-- requests of rpcChain (Api/Topup/Chain has what it makes of the answers), process start and stop,
-- logging; of the pages and scripts, markup, drawing, static files, the smoke tests and the backup.
pub mod Base
pub mod Json
pub mod Sdk
pub mod Db
pub mod Engine
pub mod Wallet
pub mod Guards
pub mod Funds
pub mod Api
pub mod Start
pub mod Web
pub mod Demo
pub mod Tests
