-- ===== src/Relay/Main.antt =====
-- `main` of bin/relay/src/main.rs, up to the running service: the fork data, the whitelist and the
-- storage that the servers and the service start with.
pub mod Started
pub mod Genuine
use Prim.Native.String.{String}
use rs_mev_relay.Prelude.{
  ℕ, suc, Option, none, some, List, [], ◌∷◌, is_empty, not, Result, ok, err, ◌>>=◌, ◌>>◌, guard,
  map_err, ok_or, codes,
}
use rs_mev_relay.Primitives.Bytes.{Bytes, B256}
use rs_mev_relay.Primitives.Keys.{BlsPublicKey}
use rs_mev_relay.Primitives.Domains.{ForkDatas, from_genesis_and_current_version}
use rs_mev_relay.Primitives.Versions.{ForkVersion, from_str}
use rs_mev_relay.Primitives.Events.{BeaconEvent}
use rs_mev_relay.Primitives.External.{External}
use rs_mev_relay.Primitives.Signing.{BlsSigner}
use rs_mev_relay.Primitives.Metrics.{RelayMetrics}
use rs_mev_relay.Storage.{InMemoryStorage}
use rs_mev_relay.Beacon.Types.{Report, GetForkResponse}
use rs_mev_relay.Service.Poll.{RelayService, Connection, new}
use rs_mev_relay.Cli.{
  CliArgs, SocketAddr, grpc_addr, http_addr, secret_key_of, genesis_fork_version, fork_data,
  enabled_builders,
}
use rs_mev_relay.Http.Auth.{AuthError}
use rs_mev_relay.Relay.Startup.{setup_storage}

-- What `main` calls of libraries: `hex::decode`, `Hash256::from_str`, and the making of an HTTP client.
pub record Libraries : Type 0 where
  pub hex_decode : List ℕ → Result String Bytes
  pub hash_from_str : String → Result String B256
  pub build_client : Result AuthError (Unit {0})

pub data StartUpErrors : Type 0 where
  empty_builders : StartUpErrors
  unauthorized : AuthError → StartUpErrors
  invalid_chain : List ℕ → StartUpErrors

-- How far `main` comes: an error, a panic, or a wait for the beacon node.
pub data Stop : Type 0 where
  error : StartUpErrors → Stop
  panic : String → Stop
  waits : Stop

-- The answer of the beacon node, read; the errors are only logged.
unfoldable pub setup_fork_data :
    Libraries → Result Report GetForkResponse → ForkVersion → Option ForkDatas
setup_fork_data l (err e) genesis_fork_version = none
setup_fork_data l (ok response) genesis_fork_version =
    elim (from_str l.hex_decode (codes response.fork_data.fork.current_version)) [
      | err e ↦ none
      | ok current_version ↦ elim (l.hash_from_str response.fork_data.genesis_validators_root) [
        | err e ↦ none
        | ok root ↦
            some (
              from_genesis_and_current_version genesis_fork_version.bytes current_version.bytes
                root)
      ]
    ]

-- `unwrap_or_else`: the fork data of the arguments where the node gave none.
abbrev pub or_default : Option ForkDatas → ForkDatas → ForkDatas
or_default none default = default
or_default (some forks) default = forks

-- What the servers and the service are started with.
pub record Running : Type 0 where
  pub grpc_addr : SocketAddr
  pub http_addr : SocketAddr
  pub grpc_forks : ForkDatas
  pub signer : BlsSigner
  pub service : RelayService

-- `answer` is the beacon node's to the request for fork data, `events` those that the first
-- connection gave so far, and `connect` the connections after it.
unfoldable pub main :
    External
    → Libraries
    → CliArgs
    → RelayMetrics
    → Result Report GetForkResponse
    → List BeaconEvent
    → (ℕ → Connection)
    → Result Stop Running
main x l args metrics answer events connect = do
  fork_version ← map_err (λ e. error (invalid_chain e)) (genesis_fork_version l.hex_decode args)
  builders ← map_err panic (enabled_builders x args)
  guard (not (is_empty builders)) (error empty_builders)
  let forks = or_default (setup_fork_data l answer fork_version) (fork_data args)
  storage ← ok_or (setup_storage metrics builders forks events) waits
  client ← map_err (λ e. error (unauthorized e)) l.build_client
  service ← ok_or (new connect storage args.slots_per_epoch) waits
  ok (record {
    grpc_addr = grpc_addr args;
    http_addr = http_addr args;
    grpc_forks = forks;
    signer = record { secret_key = secret_key_of args; fork_data = forks };
    service = service;
  })
