-- ===== src/Primitives/Blocks/Unblind.antt =====
-- crates/primitives/src/beacon/beacon_block.rs: the full block of a blinded block and a payload,
-- and what the relay reads of it.
use rs_mev_relay.Prelude.{ℕ, length}
use rs_mev_relay.Primitives.Bytes.{B256}
use rs_mev_relay.Primitives.Keys.{BlsSignature}
use rs_mev_relay.Primitives.Payload.{ExecutionPayload, BlobsBundle}
use rs_mev_relay.Primitives.Blocks.{
  BlindedBlock, BlindedBlockBody, BeaconBlock, BeaconBlockBody, SignedBeaconBlock,
  SignedBeaconBlockContent,
}

unfoldable pub new_block_body : ExecutionPayload → BlindedBlockBody → BeaconBlockBody
new_block_body execution_payload b = record {
  randao_reveal = b.randao_reveal;
  eth1_data = b.eth1_data;
  graffiti = b.graffiti;
  proposer_slashings = b.proposer_slashings;
  attester_slashings = b.attester_slashings;
  attestations = b.attestations;
  deposits = b.deposits;
  voluntary_exits = b.voluntary_exits;
  sync_aggregate = b.sync_aggregate;
  execution_payload = execution_payload;
  bls_to_execution_changes = b.bls_to_execution_changes;
  blob_kzg_commitments = b.blob_kzg_commitments;
}

unfoldable pub new_block : ExecutionPayload → BlindedBlock → BeaconBlock
unfolding new_block_body
new_block execution_payload b = record {
  slot = b.slot;
  proposer_index = b.proposer_index;
  parent_root = b.parent_root;
  state_root = b.state_root;
  body = new_block_body execution_payload b.body;
}

unfoldable pub new_signed_block : ExecutionPayload → BlindedBlock → BlsSignature → SignedBeaconBlock
unfolding new_block
new_signed_block execution_payload b sig = record {
  message = new_block execution_payload b;
  signature = sig;
}

unfoldable pub new_block_content :
    ExecutionPayload → BlindedBlock → BlsSignature → BlobsBundle → SignedBeaconBlockContent
unfolding new_signed_block
new_block_content execution_payload b sig blobs_data = record {
  signed_block = new_signed_block execution_payload b sig;
  kzg_proofs = blobs_data.proofs;
  blobs = blobs_data.blobs;
}

unfoldable pub block_hash : SignedBeaconBlockContent → B256
block_hash c = c.signed_block.message.body.execution_payload.block_hash

unfoldable pub slot : SignedBeaconBlockContent → ℕ
slot c = c.signed_block.message.slot

unfoldable pub block_number : SignedBeaconBlockContent → ℕ
block_number c = c.signed_block.message.body.execution_payload.block_number

unfoldable pub num_txs : SignedBeaconBlockContent → ℕ
num_txs c = length c.signed_block.message.body.execution_payload.transactions

unfoldable pub execution_payload : SignedBeaconBlockContent → ExecutionPayload
execution_payload c = c.signed_block.message.body.execution_payload
