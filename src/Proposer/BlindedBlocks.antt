-- ===== src/Proposer/BlindedBlocks.antt =====
-- crates/http/src/server/proposer_api/blinded_blocks.rs. The block that is handed to the spawned
-- publishing task is part of the outcome; the task's own result reaches nobody.
use rs_mev_relay.Prelude.{ℕ, is_none, not, Result, ok, err, ◌>>=◌, ◌>>◌, guard, ok_or, ◌==◌}
use rs_mev_relay.Primitives.Payload.{BlindedBlockResponse}
use rs_mev_relay.Primitives.Domains.{compute_proposer_domain}
use rs_mev_relay.Primitives.Blocks.{SignedBlindedBlock, SignedBeaconBlockContent}
use rs_mev_relay.Primitives.Blocks.Unblind.{new_block_content, block_hash}
use rs_mev_relay.Primitives.Headers.{Versioned, deneb}
use rs_mev_relay.Primitives.External.{External, signing_root, verify}
use rs_mev_relay.Primitives.Metrics.{on_relay, set_blinded_block_latency}
use rs_mev_relay.Storage.{
  InMemoryStorage, set_metrics, fork_data, find_duty_by_slot, read_validator_registration,
  read_blinded_block_response, set_delivered_blocks,
}

pub data PostBlindedBlockErr : Type 0 where
  no_duty_found invalid_signature no_block_from_block_hash : PostBlindedBlockErr
  publish_block unauthorized_submission : PostBlindedBlockErr
  proposer_index_mismatch : (expected actual : ℕ) → PostBlindedBlockErr

-- The reply, and the block sent to the beacon node as SSZ.
pub record Delivery : Type 0 where
  pub reply : Versioned BlindedBlockResponse
  pub published : SignedBeaconBlockContent

module _ (x : External) where
  -- The checks in the handler's order, and the response stored for the proposer on duty.
  unfoldable pub find_response :
      InMemoryStorage → SignedBlindedBlock → Result PostBlindedBlockErr BlindedBlockResponse
  find_response s b = do
    duty ← ok_or (find_duty_by_slot s b.message.slot) no_duty_found
    guard (duty.validator_index == b.message.proposer_index)
        (proposer_index_mismatch duty.validator_index b.message.proposer_index)
    let proposer_pubkey = duty.entry.message.pubkey
    guard (not (is_none (read_validator_registration s proposer_pubkey))) unauthorized_submission
    guard
        (verify x b.signature proposer_pubkey (
          signing_root x (x.blinded_block_root b.message)
            (compute_proposer_domain x.fork_data_root (fork_data s))))
        invalid_signature
    ok_or (read_blinded_block_response s proposer_pubkey) no_block_from_block_hash

-- The full block, from the stored payload and the block that the proposer signed.
unfoldable pub deliver : SignedBlindedBlock → BlindedBlockResponse → Delivery
deliver b resp = record {
  reply = record { version = deneb; inner = resp };
  published = new_block_content resp.execution_payload b.message b.signature resp.blobs_bundle;
}

-- POST /eth/v1/builder/blinded_blocks
unfoldable pub post_blinded_blocks :
    External
    → ℕ
    → SignedBlindedBlock
    → InMemoryStorage
    → InMemoryStorage × Result PostBlindedBlockErr Delivery
unfolding deliver
post_blinded_blocks x elapsed b s = elim (find_response x s b) [
  | err e ↦ (s, err e)
  | ok resp ↦
      let delivery = deliver b resp in
      let timed = set_metrics s (on_relay (set_blinded_block_latency elapsed) s.metrics) in
      (set_delivered_blocks (block_hash delivery.published) timed, ok delivery)
]
