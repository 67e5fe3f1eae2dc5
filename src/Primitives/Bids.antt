-- ===== src/Primitives/Bids.antt =====
-- crates/primitives/src/storage/bid_traces.rs and bid_submission.rs.
use rs_mev_relay.Prelude.{ℕ, Bool, true, false, compare, Ordering}
use rs_mev_relay.Primitives.Bytes.{B256, U256, Address}
use rs_mev_relay.Primitives.Keys.{BlsPublicKey, BlsSignature}
use rs_mev_relay.Primitives.Payload.{ExecutionPayload, BlobsBundle, BlindedBlockResponse}

pub record BidTrace : Type 0 where
  pub slot : ℕ
  pub parent_hash : B256
  pub block_hash : B256
  pub builder_pubkey : BlsPublicKey
  pub proposer_pubkey : BlsPublicKey
  pub proposer_fee_recipient : Address
  pub gas_limit : ℕ
  pub gas_used : ℕ
  pub value : U256

-- `Ord`: bids compare by their values alone.
unfoldable pub cmp : BidTrace → BidTrace → Ordering
cmp a b = compare a.value.value b.value.value

-- `a > b`, which is `partial_cmp` at `Greater`.
unfoldable pub gt : BidTrace → BidTrace → Bool
unfolding cmp
gt a b = elim (cmp a b) [ Ordering.gt ↦ true | _ ↦ false ]

pub record BidSubmission : Type 0 where
  pub message : BidTrace
  pub execution_payload : ExecutionPayload
  pub blobs_bundle : BlobsBundle
  pub signature : BlsSignature

unfoldable pub to_blinded_block_response : BidSubmission → BlindedBlockResponse
to_blinded_block_response s = record {
  execution_payload = s.execution_payload;
  blobs_bundle = s.blobs_bundle;
}
