-- ===== src/Beacon/Types.antt =====
-- What the beacon node answers with (crates/primitives/src/beacon/sync_status.rs, fork.rs), and the
-- trait `BeaconApi` (crates/beacon/src/lib.rs).
use Prim.Native.String.{String}
use rs_mev_relay.Prelude.{ℕ, Bool, Result}
use rs_mev_relay.Primitives.Keys.{BlsPublicKey}
use rs_mev_relay.Primitives.Registrations.{ProposerDutiesResponse}
use rs_mev_relay.Primitives.Known.{KnownValidatorResponse}
use rs_mev_relay.Primitives.Blocks.{SignedBeaconBlockContent}

pub record BeaconSyncStatus : Type 0 where
  pub head_slot : ℕ
  pub is_syncing : Bool

pub record BeaconSyncStatusResponse : Type 0 where
  pub status : BeaconSyncStatus

pub record CurrentFork : Type 0 where
  pub current_version : String

pub record ForkDataResp : Type 0 where
  pub genesis_time : String
  pub genesis_validators_root : String
  pub fork : CurrentFork

pub record GetForkResponse : Type 0 where
  pub fork_data : ForkDataResp

pub data SubmissionType : Type 0 where
  json ssz : SubmissionType

-- `eyre::Report`: the error of a library, or the one that the client makes of what the node says.
pub data Report : Type 0 where
  library_error : String → Report
  api_error : (code : ℕ) (message : String) → Report

-- An implementation of the trait, by what its calls answer.
pub record BeaconApi : Type 0 where
  pub sync_status : Result Report BeaconSyncStatusResponse
  pub proposer_duties : ℕ → Result Report ProposerDutiesResponse
  pub publish_block : SignedBeaconBlockContent → SubmissionType → Result Report (Unit {0})
  pub get_fork_data : Result Report GetForkResponse
  pub get_known_validator : BlsPublicKey → Result Report KnownValidatorResponse
