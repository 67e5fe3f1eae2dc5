-- ===== src/Cli.antt =====
-- bin/relay/src/cli.rs: the arguments, as the library clap hands them over, and what is made of them.
use Prim.Native.String.{String}
use rs_mev_relay.Prelude.{
  ℕ, List, ◌++◌, replicate, length, Result, ok, err, ◌>>=◌, map_err, ok_or, collect, codes, ◌==◌,
  if◌then◌else◌,
}
use rs_mev_relay.Primitives.Bytes.{Bytes, B256, hash_size}
use rs_mev_relay.Primitives.Keys.{BlsPublicKey}
use rs_mev_relay.Primitives.Domains.{ForkData, ForkDatas, zero_hash}
use rs_mev_relay.Primitives.Versions.{
  ForkVersion, NamedChain, trim_prefix, from_str, try_from_chain,
}
use rs_mev_relay.Primitives.External.{External}

abbrev pub default_grpc_port : String
default_grpc_port = "50051"

abbrev pub default_http_port : String
default_http_port = "9063"

abbrev pub default_metrics_port : String
default_metrics_port = "9090"

abbrev pub default_fork_version : String
default_fork_version = "0x00000000"

abbrev pub default_current_version : String
default_current_version = "0x20000093"

abbrev pub default_validators_root : String
default_validators_root = "0x4b363db94e286120d76eb905340fdd4e54bfe9f06bf33ff6cf5ad27f511bfe95"

pub record CliArgs : Type 0 where
  pub mbs_auth_url : List ℕ
  pub beacon_url : List ℕ
  pub grpc_port : ℕ
  pub http_port : ℕ
  pub metrics_port : ℕ
  pub slots_per_epoch : ℕ
  pub white_listed_builders : List Bytes
  pub genesis_fork_version : ForkVersion
  pub current_fork_version : ForkVersion
  pub genesis_validators_root : B256
  pub chain : NamedChain
  pub bls_secret_key : Bytes

-- `SocketAddr`
pub record SocketAddr : Type 0 where
  pub ip : Bytes
  pub port : ℕ

-- The addresses of the servers: 0.0.0.0 and the port.
unfoldable pub grpc_addr : CliArgs → SocketAddr
grpc_addr args = record { ip = replicate 4 0; port = args.grpc_port }

unfoldable pub metrics_port_of : CliArgs → ℕ
metrics_port_of args = args.metrics_port

unfoldable pub http_addr : CliArgs → SocketAddr
http_addr args = record { ip = replicate 4 0; port = args.http_port }

unfoldable pub secret_key_of : CliArgs → Bytes
secret_key_of args = args.bls_secret_key

-- `StartUpErrors::InvalidChain` is the only error of this.
unfoldable pub genesis_fork_version :
    (List ℕ → Result String Bytes) → CliArgs → Result (List ℕ) ForkVersion
genesis_fork_version hex_decode args = try_from_chain hex_decode args.chain

unfoldable pub fork_data_builder : CliArgs → ForkData
fork_data_builder args = record {
  current_version = args.genesis_fork_version.bytes;
  genesis_validators_root = zero_hash;
}

unfoldable pub fork_data_proposer : CliArgs → ForkData
fork_data_proposer args = record {
  current_version = args.current_fork_version.bytes;
  genesis_validators_root = args.genesis_validators_root;
}

unfoldable pub fork_data : CliArgs → ForkDatas
fork_data args = record { builder = fork_data_builder args; proposer = fork_data_proposer args }

-- Bytes that are no key make the conversion panic.
unfoldable pub enabled_key : External → Bytes → Result String BlsPublicKey
enabled_key x bytes = do
  point ← ok_or (x.read_public_key bytes) "Failed to parse public key from fixed bytes"
  ok (record { point = point })

unfoldable pub enabled_builders : External → CliArgs → Result String (List BlsPublicKey)
enabled_builders x args = collect (enabled_key x) args.white_listed_builders

unfoldable pub parse_fork_version :
    (List ℕ → Result String Bytes) → List ℕ → Result (List ℕ) ForkVersion
parse_fork_version hex_decode s = from_str hex_decode s

unfoldable pub parse_genesis_root : (List ℕ → Result String Bytes) → List ℕ → Result (List ℕ) B256
parse_genesis_root hex_decode s = do
  bytes ← map_err (λ e. codes "Invalid genesis root: " ++ codes e) (hex_decode (trim_prefix s))
  if length bytes == hash_size
      then ok (record { bytes = bytes })
      else err (codes "Invalid genesis root length")
