-- ===== src/Lib.antt =====
-- PIFP on Stellar: a Soroban contract through which donors fund projects in several tokens, an oracle
-- releases the money against a proof, and donors of a project that expires or is cancelled take
-- their money back. An indexer polls the contract's events into a database and serves them. This
-- library models the contract, contracts/pifp_protocol/src, the core of the indexer,
-- backend/indexer/src, and that of the oracle, backend/oracle/src, which fetches a proof, hashes it and
-- asks the contract for the release.
--
-- The parts and their files
-- - Base: Boolean tests on the native numbers, integers over them with the checked operations of
--   i128, function maps with point updates, sums over distinct keys, strings with
--   their parts (Base/Parts) and decimal numbers (Base/Decimal), results (Base/Result), and Rust's `as` between words.
-- - Contract/Errors, Types, Events: errors.rs, types.rs, events.rs. Addresses and hashes are
--   numbers, of which the contract only uses equality; a URI is its list of bytes.
-- - Contract/Env: what the contract uses of the Soroban host. A call gets the ledger's time, the
--   addresses that have authorised it and its own address (Ctx), and works on the storage, the
--   published events and the state of the token contracts (Env). An Action returns a value or panics;
--   `invoke` undoes what a panicking call has written.
-- - Contract/Emit, Storage: the emit functions of events.rs and rbac.rs, the accessors of storage.rs.
-- - Contract/Rbac, Admin: rbac.rs, and the entry points of lib.rs for roles, pausing and the fee.
-- - Contract/Projects (register_project, extend_deadline, whitelists, queries), Contract/Funding
--   (deposit, refund), Contract/Release (verify_and_release, reclaim_expired_funds),
--   Contract/Lifecycle (cancel_project, expire_project): the other entry points of lib.rs. deposit,
--   refund, verify_and_release and reclaim_expired_funds are cut in two, the checks and the rest.
--   `Call` lists the entry points that change state, `perform` runs one and `step` is a transaction.
-- - Contract/Invariants: invariants_checker.rs, each check as a test.
-- - Contract/Change: the specification, a relation with one constructor for each way to change the
--   projects, and its consequences for other projects (Others), project numbers (Fresh), statuses
--   (Status), configurations (Config), solvency (Solvency), and for calls that meet their
--   conditions (Ready).
-- - Contract/History: sequences of transactions by anyone, at times that do not fall, and what they
--   keep. Contract/Emergency: pausing. Contract/Access: the roles over histories.
-- - Contract/Custody: the contract's holdings in the token contracts against its records, under laws
--   of the token contracts (TokenLaws) that SEP-41 documents.
-- - Indexer/Kinds, Json, Decode: events.rs and the decoding of rpc.rs, against the events of
--   Decode/Published. Indexer/Fetch: build_params and
--   fetch_events of rpc.rs against the list of the node's replies; the model returns the requests,
--   the waits and the answer, or no answer while the replies do not suffice.
-- - Indexer/Store: the tables that events change and the cursor, with their functions in db.rs;
--   Store/Counts has the tables that a list of events makes, with which Store/Insert compares them.
-- - Indexer/Config: from_env of config.rs, on an environment (Base/Environment). Indexer/Reads: the reads of
--   events in db.rs, whose ORDER BY and LIMIT are Base/Order and Base/Pages, and the paged history of api.rs.
-- - Indexer/Poll: poll_once and run of indexer.rs, which compose Fetch, Decode and Store.
-- - Indexer/Quorum, Profiles, Webhooks: votes, profiles and webhooks, their tables in db.rs and
--   profiles.rs and their handlers in api.rs; Webhooks/Delivery: webhook.rs.
-- - Indexer/Cache: cache.rs and its handlers in api.rs, as actions on the tables, Redis, the requests
--   that wait for their query and the results that wait for their write.
-- - Oracle/Errors, Config, Batch, Proof, Chain, Process: errors.rs, config.rs, build_task_list of main.rs,
--   verifier.rs, chain.rs, and process_single_proof of main.rs. Chain keeps the requests that are sent to the node;
--   Process/Verified puts it before a node that runs the contract of Contract/Release.
-- - Oracle/Pin: ipfs.rs, with the uploads, answers, clients and sleeps of its attempts.
-- - Contract/Tests, Indexer/Tests, Oracle/Tests: a small world with runs and examples.
--
-- Bounds. u64 sums are checked against 2^64 and u32 sums against 2^32, a carry out being a trap (the
-- release profile has overflow-checks); balances go through i128's checked_add and the fee through
-- checked_mul, checked_div and checked_sub. All loops of the contract run over the accepted tokens
-- and are structural recursion, so nothing needs fuel.
--
-- The indexer's words keep their wrap-around (Base/Words), and the sum of donations aborts past i128,
-- as overflow-checks and panic = "abort" of the release profile make it. The loops over replies and
-- polls recurse on their lists, the four delivery attempts and the three of a pin on their number. The
-- decimal text of a u64 has at most 20 digits, the fuel of Base/Decimal.
--
-- Parameters. `Host` has what lies outside the repository: transfer and balance of the token
-- contracts, over an arbitrary state, and the verdict of rbac::require_super_admin, which
-- update_protocol_config calls and no file declares. `Parsers` has serde_json's and chrono's parsers
-- and number printing, `World` the HTTP client with the clock, HMAC-SHA256 and the serialiser, and
-- `Crypto` the key and base64 decoders and the Ed25519 check. Of the oracle, `Gateway` has the answers of
-- the IPFS gateway and SHA-256, `Rpc` the RPC node over a state of any type, with hex and the text of a
-- JSON value, and `Services` the pinning services.
--
-- Not modelled. The extension of storage entries' time to live, which changes no value; event topics;
-- moves of the token contracts that do not go through a call of this contract. Of the indexer:
-- failing queries (a handler then answers 500 and a poll ends in an error), columns of the clock,
-- the lists of projects and their counts for the API, metrics. Of the oracle: process_batch,
-- which runs process_single_proof for each task, five at a time, and logs what comes back, main, health
-- and metrics. The keeper, a script. The contract does not compile as committed (two enum discriminants per value
-- in errors.rs, a dangling import list in lib.rs, repeated items in events.rs and lib.rs); the model
-- takes each item's complete version.

pub mod Base
pub mod Contract
pub mod Indexer
pub mod Oracle
