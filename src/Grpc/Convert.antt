-- ===== src/Grpc/Convert.antt =====
-- crates/grpc/src/gen/mod.rs: from messages to the relay's types. A key that is no point of the curve
-- makes `From<Vec<u8>>` panic (crates/primitives/src/blst/public_key.rs), which is a case of its own.
use Prim.Native.String.{String}
use rs_mev_relay.Prelude.{
  Result, ok, err, ◌>>=◌, ok_or, map_err, collect, map, length, if◌then◌else◌, ◌==◌,
}
use rs_mev_relay.Primitives.Bytes.{
  Bytes, ConversionError, incorrect_length, parse_error, ssz_types, KzgCommitment, try_b256,
  try_address, try_bytes48, try_u256,
}
use rs_mev_relay.Primitives.Keys.{BlsPublicKey}
use rs_mev_relay.Primitives.Payload
use rs_mev_relay.Primitives.Bids
use rs_mev_relay.Primitives.External.{External}
use rs_mev_relay.Grpc.Messages

pub data ConvertStop : Type 0 where
  failed : ConversionError → ConvertStop
  panicked : String → ConvertStop

module _ (x : External) where
  -- `From<Vec<u8>> for BlsPublicKey`
  unfoldable pub key_from : Bytes → Result ConvertStop BlsPublicKey
  key_from bytes = do
    point ← ok_or (x.read_public_key bytes) (panicked "Failed to parse public key")
    ok (record { point = point })

  unfoldable pub try_bid_trace : Messages.BidTrace → Result ConvertStop Bids.BidTrace
  unfolding key_from
  try_bid_trace b = do
    value ← ok_or (x.u256_from_str b.value) (failed (parse_error "U256" b.value))
    parent_hash ← map_err failed (try_b256 b.parent_hash)
    block_hash ← map_err failed (try_b256 b.block_hash)
    builder_pubkey ← key_from b.builder_pubkey
    proposer_pubkey ← key_from b.proposer_pubkey
    proposer_fee_recipient ← map_err failed (try_address b.proposer_fee_recipient)
    ok (record {
      slot = b.slot;
      parent_hash = parent_hash;
      block_hash = block_hash;
      builder_pubkey = builder_pubkey;
      proposer_pubkey = proposer_pubkey;
      proposer_fee_recipient = proposer_fee_recipient;
      gas_limit = b.gas_limit;
      gas_used = b.gas_used;
      value = record { value = value };
    })

-- The source fills the validator's index from the amount.
unfoldable pub try_withdrawal : Messages.Withdrawal → Result ConversionError Payload.Withdrawal
try_withdrawal w = do
  address ← try_address w.address
  ok (record { index = w.index; validator_index = w.amount; address = address; amount = w.amount })

-- `<[u8; 48]>::try_from`
unfoldable pub try_proof : Bytes → Result ConversionError KzgCommitment
try_proof p = if length p == 48 then ok (record { bytes = p }) else err ssz_types

module _ (x : External) where
  unfoldable pub try_blobs_bundle :
      Messages.BlobsBundle → Result ConversionError Payload.BlobsBundle
  unfolding try_proof
  try_blobs_bundle b = do
    commitments ← collect try_bytes48 b.commitments
    proofs ← collect try_proof b.proofs
    blobs ← collect (λ v. ok_or (x.new_blob v) ssz_types) b.blobs
    proof_list ← ok_or (x.new_commitments proofs) ssz_types
    blob_list ← ok_or (x.new_blobs blobs) ssz_types
    ok (record { commitments = commitments; proofs = proof_list; blobs = blob_list })

  unfoldable pub try_execution_payload :
      Messages.ExecutionPayload → Result ConversionError Payload.ExecutionPayload
  unfolding try_withdrawal
  try_execution_payload p = do
    withdrawals ← collect try_withdrawal p.withdrawals
    parent_hash ← try_b256 p.parent_hash
    fee_recipient ←
        map_err (λ _. incorrect_length "Address" 20 (length p.fee_recipient))
          (try_address p.fee_recipient)
    state_root ← try_b256 p.state_root
    receipts_root ← try_b256 p.receipts_root
    prev_randao ← try_b256 p.prev_randao
    base_fee_per_gas ← try_u256 x.u256_from_be_slice p.base_fee_per_gas
    block_hash ← try_b256 p.block_hash
    transactions ←
        ok_or
          (x.new_transactions
            (map (λ (t : Messages.CompressTx). x.transaction_from t.raw_data) p.transactions))
          ssz_types
    withdrawal_list ← ok_or (x.new_withdrawals withdrawals) ssz_types
    ok (record {
      parent_hash = parent_hash;
      fee_recipient = fee_recipient;
      state_root = state_root;
      receipts_root = receipts_root;
      logs_bloom = x.logs_bloom_from p.logs_bloom;
      prev_randao = prev_randao;
      block_number = p.block_number;
      gas_limit = p.gas_limit;
      gas_used = p.gas_used;
      timestamp = p.timestamp;
      extra_data = x.extra_data_from p.extra_data;
      base_fee_per_gas = base_fee_per_gas;
      block_hash = block_hash;
      transactions = transactions;
      withdrawals = withdrawal_list;
      blob_gas_used = p.blob_gas_used;
      excess_blob_gas = p.excess_blob_gas;
    })
