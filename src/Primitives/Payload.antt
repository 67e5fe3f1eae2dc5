-- ===== src/Primitives/Payload.antt =====
-- crates/primitives/src/types.rs: execution payloads, their headers and blobs bundles, and
-- crates/primitives/src/beacon/mod.rs: the response to a blinded block. `Arc<T>` is `T`: no part of
-- the source writes through one. Fields of type u64 are numbers below 2 ^ 64.
use rs_mev_relay.Prelude.{ℕ, List}
use rs_mev_relay.Primitives.Bytes.{Bytes, B256, U256, Address, Bytes48, KzgCommitment}

pub record Withdrawal : Type 0 where
  pub index : ℕ
  pub validator_index : ℕ
  pub address : Address
  pub amount : ℕ

pub record ExecutionPayload : Type 0 where
  pub parent_hash : B256
  pub fee_recipient : Address
  pub state_root : B256
  pub receipts_root : B256
  pub logs_bloom : Bytes
  pub prev_randao : B256
  pub block_number : ℕ
  pub gas_limit : ℕ
  pub gas_used : ℕ
  pub timestamp : ℕ
  pub extra_data : Bytes
  pub base_fee_per_gas : U256
  pub block_hash : B256
  pub transactions : List Bytes
  pub withdrawals : List Withdrawal
  pub blob_gas_used : ℕ
  pub excess_blob_gas : ℕ

pub record ExecutionPayloadHeader : Type 0 where
  pub parent_hash : B256
  pub fee_recipient : Address
  pub state_root : B256
  pub receipts_root : B256
  pub logs_bloom : Bytes
  pub prev_randao : B256
  pub block_number : ℕ
  pub gas_limit : ℕ
  pub gas_used : ℕ
  pub timestamp : ℕ
  pub extra_data : Bytes
  pub base_fee_per_gas : U256
  pub block_hash : B256
  pub transactions_root : B256
  pub withdrawals_root : B256
  pub blob_gas_used : ℕ
  pub excess_blob_gas : ℕ

pub record BlobsBundle : Type 0 where
  pub commitments : List Bytes48
  pub proofs : List KzgCommitment
  pub blobs : List Bytes

pub record BlindedBlockResponse : Type 0 where
  pub execution_payload : ExecutionPayload
  pub blobs_bundle : BlobsBundle
