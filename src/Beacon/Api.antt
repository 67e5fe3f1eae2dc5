-- ===== src/Beacon/Api.antt =====
-- crates/beacon/src/api/mod.rs: the API of the beacon node over HTTP.
pub mod Requests
use Prim.Native.String.{String}
use rs_mev_relay.Prelude.{
  ℕ, Bool, ltb, ◌&&◌, List, [], ◌∷◌, ◌++◌, Result, ok, err, ◌>>=◌, map_err, codes, decimal,
  if◌then◌else◌,
}
use rs_mev_relay.Primitives.Bytes.{Bytes}
use rs_mev_relay.Primitives.Keys.{BlsPublicKey}
use rs_mev_relay.Primitives.Registrations.{ProposerDutiesResponse}
use rs_mev_relay.Primitives.Known.{KnownValidatorResponse}
use rs_mev_relay.Primitives.Blocks.{SignedBeaconBlockContent}
use rs_mev_relay.Primitives.Headers.{deneb}
use rs_mev_relay.Primitives.Forks.{display}
use rs_mev_relay.Beacon.Types.{
  BeaconApi, Report, library_error, api_error, BeaconSyncStatusResponse, GetForkResponse,
  SubmissionType, json, ssz,
}

pub record ApiErrorResponse : Type 0 where
  pub code : ℕ
  pub message : String
  pub stacktraces : List String

-- What the library reqwest sends and gets, as far as it is read.
pub record Response : Type 0 where
  pub status : ℕ
  pub body : String

pub data Body : Type 0 where
  json_of : SignedBeaconBlockContent → Body
  raw : Bytes → Body

pub record PostRequest : Type 0 where
  pub url : List ℕ
  pub headers : List (String × String)
  pub body : Body

-- The libraries: requests of reqwest, readers of serde, the encoding of ssz, and keys as text.
pub record Libraries : Type 0 where
  pub get : List ℕ → Result String Response
  pub post : PostRequest → Result String Response
  pub read_sync_status : String → Result String BeaconSyncStatusResponse
  pub read_duties : String → Result String ProposerDutiesResponse
  pub read_fork : String → Result String GetForkResponse
  pub read_validator : String → Result String KnownValidatorResponse
  pub read_error : String → Result String ApiErrorResponse
  pub as_ssz_bytes : SignedBeaconBlockContent → Bytes
  pub display_key : BlsPublicKey → List ℕ

-- `StatusCode::is_success`
abbrev pub is_success : ℕ → Bool
is_success status = ltb 199 status && ltb status 300

abbrev pub sync_status_path : List ℕ
sync_status_path = codes "eth/v1/node/syncing"

abbrev pub proposer_duties_path : List ℕ
proposer_duties_path = codes "eth/v1/validator/duties/proposer/"

abbrev pub publish_block_path : List ℕ
publish_block_path = codes "eth/v1/beacon/blocks"

abbrev pub get_fork_data_path : List ℕ
get_fork_data_path = codes "eth/v2/debug/beacon/states/head"

abbrev pub get_validator_path : List ℕ
get_validator_path = codes "eth/v1/beacon/states/head/validators/"

module _ (l : Libraries) (url : List ℕ) where
  -- The error response, read.
  unfoldable pub error_response : {T : Type 0} → Response → Result Report T
  error_response resp = do
    error_resp ← map_err library_error (l.read_error resp.body)
    err (api_error error_resp.code error_resp.message)

  unfoldable pub get_api_response :
      {T : Type 0} → (String → Result String T) → List ℕ → Result Report T
  get_api_response read path = do
    resp ← map_err library_error (l.get (url ++ path))
    if is_success resp.status then map_err library_error (read resp.body) else error_response resp

  -- The request that is sent. Its headers name the fork, and the type of a body of bytes.
  unfoldable pub post_request : List ℕ → SignedBeaconBlockContent → SubmissionType → PostRequest
  post_request path block json = record {
    url = url ++ path;
    headers = ("Eth-Consensus-Version", display deneb) ∷ [];
    body = json_of block;
  }
  post_request path block ssz = record {
    url = url ++ path;
    headers =
        ("Eth-Consensus-Version", display deneb)
        ∷ ("Content-Type", "application/octet-stream")
        ∷ [];
    body = raw (l.as_ssz_bytes block);
  }

  unfoldable pub post_api_response :
      List ℕ → SignedBeaconBlockContent → SubmissionType → Result Report (Unit {0})
  post_api_response path body submission_type = do
    resp ← map_err library_error (l.post (post_request path body submission_type))
    ok tt

  unfoldable pub sync_status : Result Report BeaconSyncStatusResponse
  sync_status = get_api_response l.read_sync_status sync_status_path

  unfoldable pub proposer_duties : ℕ → Result Report ProposerDutiesResponse
  proposer_duties epoch = get_api_response l.read_duties (proposer_duties_path ++ decimal epoch)

  unfoldable pub publish_block :
      SignedBeaconBlockContent → SubmissionType → Result Report (Unit {0})
  publish_block block submission_type = do
    done ← post_api_response publish_block_path block submission_type
    ok tt

  unfoldable pub get_fork_data : Result Report GetForkResponse
  get_fork_data = do fork_data ← get_api_response l.read_fork get_fork_data_path; ok fork_data

  unfoldable pub get_known_validator : BlsPublicKey → Result Report KnownValidatorResponse
  get_known_validator pubkey = do
    validator ← get_api_response l.read_validator (get_validator_path ++ l.display_key pubkey)
    ok validator

  -- `BeaconNodeApi`, with the trait's methods.
  unfoldable pub beacon_node_api : BeaconApi
  beacon_node_api = record {
    sync_status = sync_status;
    proposer_duties = proposer_duties;
    publish_block = publish_block;
    get_fork_data = get_fork_data;
    get_known_validator = get_known_validator;
  }
