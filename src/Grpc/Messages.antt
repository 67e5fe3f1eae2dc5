-- ===== src/Grpc/Messages.antt =====
-- crates/grpc/src/gen/mevrelay.rs: the messages of the gRPC interface (crates/grpc/proto/relay.proto).
use Prim.Native.String.{String}
use rs_mev_relay.Prelude.{ℕ, Option, List}
use rs_mev_relay.Primitives.Bytes.{Bytes}

pub record BidTrace : Type 0 where
  pub slot : ℕ
  pub parent_hash : Bytes
  pub block_hash : Bytes
  pub builder_pubkey : Bytes
  pub proposer_pubkey : Bytes
  pub proposer_fee_recipient : Bytes
  pub gas_limit : ℕ
  pub gas_used : ℕ
  pub value : String

pub record Withdrawal : Type 0 where
  pub index : ℕ
  pub validator_index : ℕ
  pub address : Bytes
  pub amount : ℕ

pub record BlobsBundle : Type 0 where
  pub commitments : List Bytes
  pub proofs : List Bytes
  pub blobs : List Bytes

pub record CompressTx : Type 0 where
  pub raw_data : Bytes

pub record ExecutionPayload : Type 0 where
  pub parent_hash : Bytes
  pub state_root : Bytes
  pub receipts_root : Bytes
  pub logs_bloom : Bytes
  pub prev_randao : Bytes
  pub extra_data : Bytes
  pub base_fee_per_gas : Bytes
  pub fee_recipient : Bytes
  pub block_hash : Bytes
  pub transactions : List CompressTx
  pub withdrawals : List Withdrawal
  pub block_number : ℕ
  pub gas_limit : ℕ
  pub timestamp : ℕ
  pub gas_used : ℕ
  pub blob_gas_used : ℕ
  pub excess_blob_gas : ℕ

pub record SubmitBlockRequest : Type 0 where
  pub bid_trace : Option BidTrace
  pub execution_payload : Option ExecutionPayload
  pub signature : Bytes
  pub blobs_bundle : Option BlobsBundle

pub record SubmitBlockResponse : Type 0 where
  pub code : ℕ
  pub message : String
