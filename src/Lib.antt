-- ===== src/Lib.antt =====
-- A relay between block builders and proposers (bin/relay, crates/*): builders submit bids over HTTP
-- or gRPC, proposers register, ask for the header of the best bid, and return it signed for the
-- payload; a service follows the beacon node. All parts work on one storage.
--
-- Parts, and the files that model them:
-- - Prelude: Boolean tests, `Result` with the bind of `?`, `HashMap` as an association list.
-- - Primitives (crates/primitives/src): byte types and checked conversions (Bytes: types.rs), keys and
--   signatures (Keys: blst/public_key.rs, blst/signature.rs), payloads (Payload), bids (Bids:
--   storage/bid_traces.rs, storage/bid_submission.rs), head slot and payload attributes (Chain),
--   registrations and duties (Registrations), validators known to the beacon node (Known), signing
--   domains (Domains: blst/signer.rs), blocks and unblinding (Blocks: beacon/blinded_block.rs,
--   beacon/beacon_block.rs), headers (Headers, Signing: beacon/header.rs),
--   names and versions of forks (Forks: beacon/fork.rs; Versions: blst/signer.rs), events (Events:
--   beacon/events.rs), gauges and counters (Metrics: metrics/mod.rs), the SSZ encodings, tree hashes
--   and texts of the wrapped types (Encoding: types.rs, blst/mod.rs, beacon/kzg_commitments.rs).
-- - Primitives/External: the functions that the relay calls and does not implement (the curve library
--   blst, tree hashes, parsing of U256, bounded lists of ssz_types), as a record of parameters.
-- - Storage (crates/storage/src/in_memory/mod.rs): the state as a record, an operation as a function
--   on it. Storage/Ops: sequences of writes; Storage/View: the abstract storage.
-- - Builder (crates/http/src/server/builder_api): `admit` is the checks of `handler` in post_bids.rs,
--   `accept` its writes, `post_bids` the handler.
-- - Proposer (crates/http/src/server/proposer_api): GetHeader, BlindedBlocks, Validators, each the
--   handler of the file of that name.
-- - Data (crates/http/src/server/data_api/get_bids.rs).
-- - Grpc (crates/grpc/src): Messages (gen/mevrelay.rs), Convert (gen/mod.rs), Service
--   (service/mod.rs, where `decide` is what `submit_block` comes to before it writes).
-- - Http (crates/http/src/server): Errors (errors.rs), Auth (crates/auth/src/lib.rs and the check of
--   the API key), Registering (the filters of the route for registrations), Server (mod.rs: all routes
--   with their filters, handlers and answers).
-- - Beacon (crates/beacon/src): Stream (events/stream.rs, two streams merged), Subscribe
--   (events/mod.rs), Service (service/mod.rs and, in Service/Handle, service/handle.rs), Api
--   (api/mod.rs), Types (the trait of lib.rs, and what the node answers with).
-- - Service (bin/relay/src/service.rs): events of the beacon node and the refresh of duties;
--   Service/Poll: the service as the state machine that the runtime polls; Service/Refreshing: the
--   spawned refresh with the requests that it makes of the beacon node.
-- - Cli (bin/relay/src/cli.rs).
-- - Relay (bin/relay/src/main.rs): requests and events of all kinds, and sequences of them.
--   Relay/Startup: `setup_storage`, over the list of the events that the beacon node sends;
--   Relay/Main: `main` up to the running service, and in Main/Started and Main/Genuine what holds from
--   then on; Relay/Following: the polls of the service as such
--   sequences; Relay/System: the servers and the service at work on one storage; Relay/Locks: the
--   handlers as programs of single accesses of the storage, and any number of them at a time.
-- - Tests: a small relay with computable foreign functions, and the theorems applied to it.
--
-- State is passed explicitly: a handler takes the storage and returns it with its reply. The answers
-- of the beacon node and elapsed times are inputs. A handler is one step, while in the source each
-- hold of the lock and each gauge is an access of its own. Relay/Locks takes every handler apart at
-- these accesses (Accesses: the operations of the storage that are several; Bids, Proposals and
-- Duties: each `_steps` is the handler of that name, with `get` for a read and `put` for a write),
-- lets requests arrive and take their accesses in any order (Routes), and has the rules by which a
-- property is kept at every access (Ensures, Kept, Interleaved; Owes and Grows for delivered blocks;
-- Reading and Refusals for what comes before the first write). The task that publishes a block has
-- no access of the storage, and is in the outcome of the handler that spawns it. Relay/Interleavings
-- has only the checks and the writes of a submission apart. Panics of conversions are outcomes. u64
-- fields are numbers, with wrap-around at 2 ^ 64 written out where the source adds. Loops are over
-- lists; only the digits of a number take fuel, one more than the number, which is enough.
--
-- What is polled is a list of the answers that its polls get, in turn, after which it is pending
-- (Prelude/Polls): streams of events, and connections in the making. Attempts to subscribe are a list
-- of their outcomes. The channels between the beacon handle and its service are a queue of commands
-- and a table of answers, each answer in a channel with a number of its own. HTTP clients, readers of
-- JSON and `hex::decode` are functions in records of parameters (Beacon/Api, Http/Auth, Relay/Main).
--
-- Not modelled: the matching of paths and the CORS filter (crates/http/src/server/mod.rs), which are
-- the crate warp's: the answers that the filter gives by itself are an input; the metrics server
-- (crates/http/src/server/metrics.rs), the start of the gRPC server (crates/grpc/src/server.rs), the
-- parsing of arguments by clap (bin/relay/src/cli.rs), the spawning of tasks, logging and derived
-- serialization, which are I/O, glue or calls of other libraries;
-- crates/primitives/src/blst/macros.rs and secret_key.rs, which are taken over from another project;
-- crates/primitives/src/beacon/versioned_bid.rs, which no module includes.
pub mod Prelude
pub mod Primitives
pub mod Storage
pub mod Builder
pub mod Grpc
pub mod Proposer
pub mod Beacon
pub mod Cli
pub mod Http
pub mod Data
pub mod Service
pub mod Relay
pub mod Tests
