-- ===== src/Primitives/Signing.antt =====
-- crates/primitives/src/blst/signer.rs, the signer, and crates/primitives/src/beacon/header.rs, the
-- signed header of a bid.
use rs_mev_relay.Prelude.{Result, ok, ◌>>=◌, ok_or, map, false}
use rs_mev_relay.Primitives.Bytes.{Bytes, B256, ConversionError, ssz_types, as_kzg_commitment}
use rs_mev_relay.Primitives.Keys.{BlsPublicKey, BlsSignature, from_point}
use rs_mev_relay.Primitives.Payload.{ExecutionPayload, ExecutionPayloadHeader}
use rs_mev_relay.Primitives.Bids.{BidSubmission}
use rs_mev_relay.Primitives.Domains.{ForkDatas, compute_builder_domain, compute_proposer_domain}
use rs_mev_relay.Primitives.Headers.{Header, SignedHeader}
use rs_mev_relay.Primitives.External.{External, signing_root}

pub record BlsSigner : Type 0 where
  pub secret_key : Bytes
  pub fork_data : ForkDatas

module _ (x : External) where
  unfoldable pub public_key : BlsSigner → BlsPublicKey
  public_key s = record { point = x.public_point s.secret_key }

  -- `BlsSigner::sign` and `BlsSigner::proposer_sign`, over the tree hash root of the message.
  unfoldable pub sign : BlsSigner → B256 → BlsSignature
  unfolding from_point signing_root compute_builder_domain
  sign s object_root =
      let domain = compute_builder_domain x.fork_data_root s.fork_data in
      from_point (x.sign_point s.secret_key (signing_root x object_root domain)) false

  unfoldable pub proposer_sign : BlsSigner → B256 → BlsSignature
  unfolding from_point signing_root compute_proposer_domain
  proposer_sign s object_root =
      let domain = compute_proposer_domain x.fork_data_root s.fork_data in
      from_point (x.sign_point s.secret_key (signing_root x object_root domain)) false

  -- `From<ExecutionPayload> for ExecutionPayloadHeader`
  unfoldable pub payload_header : ExecutionPayload → ExecutionPayloadHeader
  payload_header p = record {
    parent_hash = p.parent_hash;
    fee_recipient = p.fee_recipient;
    state_root = p.state_root;
    receipts_root = p.receipts_root;
    logs_bloom = p.logs_bloom;
    prev_randao = p.prev_randao;
    block_number = p.block_number;
    gas_limit = p.gas_limit;
    gas_used = p.gas_used;
    timestamp = p.timestamp;
    extra_data = p.extra_data;
    base_fee_per_gas = p.base_fee_per_gas;
    block_hash = p.block_hash;
    transactions_root = x.transactions_root p.transactions;
    withdrawals_root = x.withdrawals_root p.withdrawals;
    blob_gas_used = p.blob_gas_used;
    excess_blob_gas = p.excess_blob_gas;
  }

  -- `TryFrom<(BidSubmission, BlsSigner)> for SignedHeader`
  unfoldable pub try_signed_header : BidSubmission → BlsSigner → Result ConversionError SignedHeader
  unfolding payload_header public_key sign
  try_signed_header submission signer = do
    blob_kzg_commitments ←
        ok_or (x.new_commitments (map as_kzg_commitment submission.blobs_bundle.commitments))
          ssz_types
    let msg : Header = record {
      header = payload_header submission.execution_payload;
      blob_kzg_commitments = blob_kzg_commitments;
      value = submission.message.value;
      pubkey = public_key signer;
    }
    ok (record { message = msg; signature = sign signer (x.header_root msg) })
