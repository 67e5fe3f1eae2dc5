-- ===== src/Proposer/Unblinding.antt =====
-- What crates/http/src/server/proposer_api/blinded_blocks.rs releases, and to whom.
use rs_mev_relay.Prelude.{
  ℕ, ◌≡◌, ◌↔◌, ok, err, some, true, refl, arith, Result-cases, inl, inr, Option-cases, sym,
}
use rs_mev_relay.Primitives.Payload.{BlindedBlockResponse}
use rs_mev_relay.Primitives.Bids.{BidSubmission, to_blinded_block_response}
use rs_mev_relay.Primitives.Registrations.{Validator, ValidatorRegistration}
use rs_mev_relay.Primitives.Domains.{compute_proposer_domain}
use rs_mev_relay.Primitives.Blocks.{BlindedBlock, SignedBlindedBlock, BeaconBlock}
use rs_mev_relay.Primitives.Blocks.Unblind.{
  new_block, new_block_body, new_block_content, new_signed_block,
}
use rs_mev_relay.Primitives.External.{External, signing_root, verify}
use rs_mev_relay.Primitives.Signing.{payload_header}
use rs_mev_relay.Storage.{
  InMemoryStorage, find_duty_by_slot, read_validator_registration, read_blinded_block_response,
  set_best_bid, set_blinded_block_response,
}
use rs_mev_relay.Builder.{post_bids, accept}
use rs_mev_relay.Builder.Admission.{Admissible}
use rs_mev_relay.Builder.Effects.{post_bids-accepted, read_response-accept_self}
use rs_mev_relay.Proposer.BlindedBlocks.{Delivery, find_response, deliver, post_blinded_blocks}

-- Who may have a payload: the validator on duty at the block's slot, registered, named by its index
-- in the block, and having signed the block.
pub record Entitled (x : External) (s : InMemoryStorage) (b : SignedBlindedBlock) (duty : Validator)
    : Type 0 where
  pub on_duty : find_duty_by_slot s b.message.slot ≡ some duty
  pub index : duty.validator_index ≡ b.message.proposer_index
  pub registration : ValidatorRegistration
  pub registered : read_validator_registration s duty.entry.message.pubkey ≡ some registration
  pub signed :
      verify x b.signature duty.entry.message.pubkey (
        signing_root x
          (x.blinded_block_root b.message)
          (compute_proposer_domain x.fork_data_root s.inner.fork_data))
      ≡ true

abbrev pub Released :
    External → InMemoryStorage → SignedBlindedBlock → BlindedBlockResponse → Type 0
Released x s b resp =
    (duty : Validator) × Entitled x s b duty
    × (read_blinded_block_response s duty.entry.message.pubkey ≡ some resp)

module _ (x : External) (s : InMemoryStorage) (b : SignedBlindedBlock)
    (resp : BlindedBlockResponse) where
  find_response-Released : find_response x s b ≡ ok resp → Released x s b resp
  unfolding find_response
  find_response-Released h = elim (Option-cases (find_duty_by_slot s b.message.slot)) [
    | inl e ↦ absurd (ground arith)
    | inr (duty, e) ↦
        elim (Option-cases (read_validator_registration s duty.entry.message.pubkey)) [
          | inl er ↦ absurd (ground arith)
          | inr (reg, er) ↦ (
            duty,
            record {
              on_duty = e;
              index = ground arith;
              registration = reg;
              registered = er;
              signed = ground arith;
            },
            ground arith,
          )
        ]
  ]

  find_response_of_Released : Released x s b resp → find_response x s b ≡ ok resp
  unfolding find_response
  find_response_of_Released (duty, e, stored) =
      let h0 = e.on_duty in
      let h1 = e.index in let h2 = e.registered in let h3 = e.signed in ground arith

module _ (x : External) (elapsed : ℕ) (s : InMemoryStorage) (b : SignedBlindedBlock) where
  -- A payload leaves the relay exactly when the signed blinded block is from the registered
  -- validator on duty at its slot, and a payload is stored for that validator; the reply and the
  -- block to publish are made of that payload.
  pub post_blinded_blocks-eq-ok_iff :
      (d : Delivery)
      → ((post_blinded_blocks x elapsed b s).1 ≡ ok d)
        ↔ ((resp : BlindedBlockResponse) × Released x s b resp × (d ≡ deliver b resp))
  unfolding post_blinded_blocks
  post_blinded_blocks-eq-ok_iff d = (
    λ h. elim (Result-cases (find_response x s b)) [
      | inl (resp, e) ↦ (resp, find_response-Released x s b resp e, ground arith)
      | inr (_, e) ↦ absurd (ground arith)
    ],
    λ (resp, released, e). let h = find_response_of_Released x s b resp released in ground arith,
  )

  -- A refused block leaves the storage as it was.
  pub post_blinded_blocks-rejected :
      {e : _}
      → (post_blinded_blocks x elapsed b s).1 ≡ err e
      → (post_blinded_blocks x elapsed b s).0 ≡ s
  unfolding post_blinded_blocks
  post_blinded_blocks-rejected h = ground arith

-- Putting the header back in place of the payload.
abbrev pub blind : External → BeaconBlock → BlindedBlock
blind x b = record {
  slot = b.slot;
  proposer_index = b.proposer_index;
  parent_root = b.parent_root;
  state_root = b.state_root;
  body = record {
    randao_reveal = b.body.randao_reveal;
    eth1_data = b.body.eth1_data;
    graffiti = b.body.graffiti;
    proposer_slashings = b.body.proposer_slashings;
    attester_slashings = b.body.attester_slashings;
    attestations = b.body.attestations;
    deposits = b.body.deposits;
    voluntary_exits = b.body.voluntary_exits;
    sync_aggregate = b.body.sync_aggregate;
    execution_payload_header = payload_header x b.body.execution_payload;
    bls_to_execution_changes = b.body.bls_to_execution_changes;
    blob_kzg_commitments = b.body.blob_kzg_commitments;
  };
}

-- The published block, with its payload replaced by the payload's header, is the block that the
-- proposer signed, if that block names the header of the stored payload.
pub blind-deliver :
    (x : External) (b : SignedBlindedBlock) (resp : BlindedBlockResponse)
    → b.message.body.execution_payload_header ≡ payload_header x resp.execution_payload
    → (blind x (deliver b resp).published.signed_block.message ≡ b.message)
      × ((deliver b resp).published.signed_block.signature ≡ b.signature)
unfolding deliver new_block_content new_signed_block new_block new_block_body
blind-deliver x b resp e = (
  λ i. record (b.message) { body = record (b.message.body) { execution_payload_header = sym e i } },
  refl,
)

module _ (x : External) (bid : BidSubmission) (duty : Validator) (s : InMemoryStorage) where
  -- The payload of an admissible bid is what the proposer on duty gets next: after the submission,
  -- a signed blinded block that entitles the duty that the bid was admitted for is answered with
  -- the bid's own payload and blobs.
  pub post_blinded_blocks-post_bids :
      (elapsed : ℕ) (b : SignedBlindedBlock)
      → Admissible x s bid duty
      → Entitled x s b duty
      → (post_blinded_blocks x elapsed b (post_bids x bid s).0).1
        ≡ ok (deliver b (to_blinded_block_response bid))
  unfolding accept set_best_bid set_blinded_block_response find_duty_by_slot
      read_validator_registration
  post_blinded_blocks-post_bids elapsed b a e =
      let t = accept bid duty s in
      let entitled : Entitled x t b duty = record {
        on_duty = e.on_duty;
        index = e.index;
        registration = e.registration;
        registered = e.registered;
        signed = e.signed;
      } in
      let resp = to_blinded_block_response bid in
      rw (post_bids-accepted x bid s duty a) (
        (post_blinded_blocks-eq-ok_iff x elapsed t b (deliver b resp)).1
          (resp, (duty, entitled, read_response-accept_self bid duty s), refl))
