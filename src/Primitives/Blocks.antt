-- ===== src/Primitives/Blocks.antt =====
-- crates/primitives/src/beacon/beacon_block.rs and blinded_block.rs: blinded blocks, and the full
-- blocks that are published for them. The parts that the relay only copies keep their fields.
pub mod Unblind
use rs_mev_relay.Prelude.{ℕ, Bool, List}
use rs_mev_relay.Primitives.Bytes.{Bytes, B256, Address, KzgCommitment}
use rs_mev_relay.Primitives.Keys.{BlsPublicKey, BlsSignature}
use rs_mev_relay.Primitives.Payload.{ExecutionPayload, ExecutionPayloadHeader}

pub record Eth1Data : Type 0 where
  pub deposit_root : B256
  pub deposit_count : ℕ
  pub block_hash : B256

pub record BeaconBlockHeader : Type 0 where
  pub slot : ℕ
  pub proposer_index : ℕ
  pub parent_root : B256
  pub state_root : B256
  pub body_root : B256

pub record SignedBeaconBlockHeader : Type 0 where
  pub message : BeaconBlockHeader
  pub signature : BlsSignature

pub record ProposerSlashing : Type 0 where
  pub signed_header_1 : SignedBeaconBlockHeader
  pub signed_header_2 : SignedBeaconBlockHeader

pub record Checkpoint : Type 0 where
  pub epoch : ℕ
  pub root : B256

pub record AttestationData : Type 0 where
  pub slot : ℕ
  pub index : ℕ
  pub beacon_block_root : B256
  pub source : Checkpoint
  pub target : Checkpoint

pub record IndexedAttestation : Type 0 where
  pub attesting_indices : List ℕ
  pub attestation_data : AttestationData
  pub signature : BlsSignature

pub record AttesterSlashing : Type 0 where
  pub attestation_1 : IndexedAttestation
  pub attestation_2 : IndexedAttestation

pub record Attestation : Type 0 where
  pub aggregation_bits : List Bool
  pub attestation_data : AttestationData
  pub signature : BlsSignature

pub record DepositData : Type 0 where
  pub pubkey : BlsPublicKey
  pub withdrawal_credentials : B256
  pub amount : ℕ
  pub signature : BlsSignature

pub record Deposit : Type 0 where
  pub proof : List B256
  pub deposit_data : DepositData

pub record VoluntaryExit : Type 0 where
  pub epoch : ℕ
  pub validator_index : ℕ

pub record SignedVoluntaryExit : Type 0 where
  pub message : VoluntaryExit
  pub signature : BlsSignature

pub record SyncAggregate : Type 0 where
  pub sync_committee_bits : List Bool
  pub sync_committee_signature : BlsSignature

pub record BlsToExecutionChange : Type 0 where
  pub validator_index : ℕ
  pub from_bls_pubkey : BlsPublicKey
  pub to_execution_address : Address

pub record SignedBlsToExecutionChange : Type 0 where
  pub message : BlsToExecutionChange
  pub signature : BlsSignature

pub record BlindedBlockBody : Type 0 where
  pub randao_reveal : BlsSignature
  pub eth1_data : Eth1Data
  pub graffiti : B256
  pub proposer_slashings : List ProposerSlashing
  pub attester_slashings : List AttesterSlashing
  pub attestations : List Attestation
  pub deposits : List Deposit
  pub voluntary_exits : List SignedVoluntaryExit
  pub sync_aggregate : SyncAggregate
  pub execution_payload_header : ExecutionPayloadHeader
  pub bls_to_execution_changes : List SignedBlsToExecutionChange
  pub blob_kzg_commitments : List KzgCommitment

pub record BlindedBlock : Type 0 where
  pub slot : ℕ
  pub proposer_index : ℕ
  pub parent_root : B256
  pub state_root : B256
  pub body : BlindedBlockBody

pub record SignedBlindedBlock : Type 0 where
  pub message : BlindedBlock
  pub signature : BlsSignature

unfoldable pub block_hash : SignedBlindedBlock → B256
block_hash b = b.message.body.execution_payload_header.block_hash

pub record BeaconBlockBody : Type 0 where
  pub randao_reveal : BlsSignature
  pub eth1_data : Eth1Data
  pub graffiti : B256
  pub proposer_slashings : List ProposerSlashing
  pub attester_slashings : List AttesterSlashing
  pub attestations : List Attestation
  pub deposits : List Deposit
  pub voluntary_exits : List SignedVoluntaryExit
  pub sync_aggregate : SyncAggregate
  pub execution_payload : ExecutionPayload
  pub bls_to_execution_changes : List SignedBlsToExecutionChange
  pub blob_kzg_commitments : List KzgCommitment

pub record BeaconBlock : Type 0 where
  pub slot : ℕ
  pub proposer_index : ℕ
  pub parent_root : B256
  pub state_root : B256
  pub body : BeaconBlockBody

pub record SignedBeaconBlock : Type 0 where
  pub message : BeaconBlock
  pub signature : BlsSignature

pub record SignedBeaconBlockContent : Type 0 where
  pub signed_block : SignedBeaconBlock
  pub kzg_proofs : List KzgCommitment
  pub blobs : List Bytes
