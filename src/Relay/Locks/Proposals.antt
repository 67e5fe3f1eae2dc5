-- ===== src/Relay/Locks/Proposals.antt =====
-- The routes of the proposers (crates/http/src/server/proposer_api) as programs of accesses.
use rs_mev_relay.Prelude.{
  ◌≡◌, refl, ℕ, ◌==◌, ◌∙◌, ltb, not, is_none, if◌then◌else◌, ok_or, map_err, ok, arith, length,
  List, [],
}
use rs_mev_relay.Primitives.Bytes.{B256}
use rs_mev_relay.Primitives.Keys.{BlsPublicKey}
use rs_mev_relay.Primitives.Bids.{BidSubmission}
use rs_mev_relay.Primitives.Payload.{BlindedBlockResponse}
use rs_mev_relay.Primitives.Chain.{is_next_slot, u64_mod}
use rs_mev_relay.Primitives.Domains.{compute_builder_domain, compute_proposer_domain}
use rs_mev_relay.Primitives.Blocks.{SignedBlindedBlock}
use rs_mev_relay.Primitives.Blocks.Unblind.{block_hash}
use rs_mev_relay.Primitives.Headers.{SignedHeader, Versioned, deneb}
use rs_mev_relay.Primitives.External.{External, signing_root, verify}
use rs_mev_relay.Primitives.Signing.{BlsSigner, try_signed_header}
use rs_mev_relay.Primitives.Metrics.{
  RelayMetrics, on_relay, inc_headers, set_header_values, set_tx_count, set_header_latency,
  set_blinded_block_latency,
}
use rs_mev_relay.Storage.{
  InMemoryStorage, fork_data, read_head_slot, read_best_bid, read_validator_registration,
  find_duty_by_slot, read_blinded_block_response, set_delivered_blocks, set_validator_registrations,
}
use rs_mev_relay.Proposer.GetHeader
use rs_mev_relay.Proposer.GetHeader.{Rejection, find_header, count_header, get_header}
use rs_mev_relay.Proposer.BlindedBlocks
use rs_mev_relay.Proposer.BlindedBlocks.{
  PostBlindedBlockErr, Delivery, find_response, deliver, post_blinded_blocks,
}
use rs_mev_relay.Proposer.Validators.{Answered, register, post_validators}
use rs_mev_relay.Relay.Locks.Accesses.{
  meter, set_delivered_blocks_steps, set_validator_registrations_steps,
}
use rs_mev_relay.Relay.Locks.{
  Handler, Program, returns, ◌>>=◌, ◌>>◌, get, put, check, alone, alone-after, reads,
}

-- One gauge or counter.
abbrev pub gauge {ℓ} : {E : Type ℓ} → (RelayMetrics → RelayMetrics) → Handler E (Unit {0})
gauge f = put (meter f)

module _ (x : External) (signer : BlsSigner) (elapsed slot : ℕ) (parent_hash : B256)
    (pubkey : BlsPublicKey) where
  unfoldable pub find_header_steps : Handler Rejection (BidSubmission × Versioned SignedHeader)
  find_header_steps = do
    registration ← get (λ s. read_validator_registration s pubkey)
    check (not (is_none registration))
        (GetHeader.get_header_error GetHeader.unauthorized_get_header)
    current_slot ← get read_head_slot
    check (is_next_slot current_slot slot) (GetHeader.get_header_error GetHeader.invalid_slot)
    best ← get (λ s. read_best_bid s slot parent_hash pubkey)
    bid ← returns (ok_or best (GetHeader.get_header_error GetHeader.no_bid_found))
    header ← returns (map_err GetHeader.conversion (try_signed_header x bid signer))
    returns (ok (bid, record { version = deneb; inner = header }))

  alone-find_header_steps :
      (s : InMemoryStorage)
      → alone find_header_steps s ≡ (s, find_header x signer s slot parent_hash pubkey)
  unfolding ◌>>=◌ alone find_header_steps find_header
  alone-find_header_steps s = ground arith

  unfoldable pub count_header_steps : BidSubmission → Handler Rejection (Unit {0})
  count_header_steps bid = do
    let value = bid.message.value.value
    gauge (on_relay inc_headers)
    gauge (on_relay (λ r. if ltb value u64_mod then set_header_values value r else r))
    gauge (on_relay (set_tx_count (length bid.execution_payload.transactions)))
    gauge (on_relay (set_header_latency elapsed))

  unfoldable pub get_header_steps : Handler Rejection (Versioned SignedHeader)
  get_header_steps = do found ← find_header_steps; count_header_steps found.0; returns (ok found.1)

  pub alone-get_header_steps :
      (s : InMemoryStorage)
      → alone get_header_steps s ≡ get_header x signer elapsed slot parent_hash pubkey s
  unfolding ◌>>=◌ alone get_header_steps count_header_steps get_header count_header
  alone-get_header_steps s =
      alone-after find_header_steps _ s s (find_header x signer s slot parent_hash pubkey)
        (alone-find_header_steps s)
      ∙ ground arith

module _ (x : External) (elapsed : ℕ) (b : SignedBlindedBlock) where
  unfoldable pub find_response_steps : Handler PostBlindedBlockErr BlindedBlockResponse
  find_response_steps = do
    found ← get (λ s. find_duty_by_slot s b.message.slot)
    duty ← returns (ok_or found BlindedBlocks.no_duty_found)
    check (duty.validator_index == b.message.proposer_index)
        (BlindedBlocks.proposer_index_mismatch duty.validator_index b.message.proposer_index)
    forks ← get fork_data
    let proposer_pubkey = duty.entry.message.pubkey
    registration ← get (λ s. read_validator_registration s proposer_pubkey)
    check (not (is_none registration)) BlindedBlocks.unauthorized_submission
    check
        (verify x b.signature proposer_pubkey (
          signing_root x (x.blinded_block_root b.message)
            (compute_proposer_domain x.fork_data_root forks)))
        BlindedBlocks.invalid_signature
    resp ← get (λ s. read_blinded_block_response s proposer_pubkey)
    returns (ok_or resp BlindedBlocks.no_block_from_block_hash)

  alone-find_response_steps :
      (s : InMemoryStorage) → alone find_response_steps s ≡ (s, find_response x s b)
  unfolding ◌>>=◌ alone find_response_steps find_response
  alone-find_response_steps s = ground arith

  -- Before its writes the handler spawns the task that publishes the block, which has no access.
  unfoldable pub post_blinded_blocks_steps : Handler PostBlindedBlockErr Delivery
  post_blinded_blocks_steps = do
    resp ← find_response_steps
    let delivery = deliver b resp
    gauge (on_relay (set_blinded_block_latency elapsed))
    set_delivered_blocks_steps (block_hash delivery.published) (returns (ok delivery))

  pub alone-post_blinded_blocks_steps :
      (s : InMemoryStorage) → alone post_blinded_blocks_steps s ≡ post_blinded_blocks x elapsed b s
  unfolding ◌>>=◌ alone post_blinded_blocks_steps post_blinded_blocks set_delivered_blocks
  alone-post_blinded_blocks_steps s =
      alone-after find_response_steps _ s s (find_response x s b) (alone-find_response_steps s)
      ∙ ground arith

-- The beacon node is asked between the two accesses.
unfoldable pub post_validators_steps : External → List Answered → Program (Unit {0})
post_validators_steps x registrations = reads (λ s.
    let domain = compute_builder_domain x.fork_data_root (fork_data s) in
    set_validator_registrations_steps (register x domain registrations []) (returns tt))

pub alone-post_validators_steps :
    (x : External) (registrations : List Answered) (s : InMemoryStorage)
    → alone (post_validators_steps x registrations) s ≡ (post_validators x registrations s, tt)
unfolding ◌>>=◌ alone post_validators_steps post_validators set_validator_registrations
alone-post_validators_steps x registrations s = refl
