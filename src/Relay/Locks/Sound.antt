-- ===== src/Relay/Locks/Sound.antt =====
-- Soundness of the storage when handlers overlap at every access.
use mathlib.Core.List.{Mem}
use rs_mev_relay.Prelude.{
  ◌≡◌, refl, ◌<◌, not, true, sym, arith, ok, List, [], contains_iff, guard-ok,
}
use rs_mev_relay.Primitives.Keys.{BlsPublicKey, BlsPublicKey-discrete}
use rs_mev_relay.Primitives.Payload.{ExecutionPayload}
use rs_mev_relay.Primitives.Bids.{BidTrace, BidSubmission, to_blinded_block_response}
use rs_mev_relay.Primitives.Registrations.{Validator}
use rs_mev_relay.Primitives.Domains.{ForkDatas}
use rs_mev_relay.Primitives.External.{External}
use rs_mev_relay.Primitives.Signing.{BlsSigner}
use rs_mev_relay.Storage.{
  InMemoryStorage, set_best_bid, set_blinded_block_response, is_whitelisted_builder, read_best_bid,
  read_best_bid_by_block_number, read_blinded_block_response, set_metrics, set_delivered_blocks,
  set_head_slot, set_payload_attributes, record_relayed_block, set_proposer_duties,
  set_validator_registrations,
}
use rs_mev_relay.Builder.{accept}
use rs_mev_relay.Grpc.Messages
use rs_mev_relay.Grpc.Service
use rs_mev_relay.Grpc.Messages.{SubmitBlockRequest}
use rs_mev_relay.Grpc.Service.{Decision, below_best, update, verify_signature}
use rs_mev_relay.Proposer.Validators.{Answered}
use rs_mev_relay.Relay.Writes.{SameBids}
use rs_mev_relay.Relay.Locks.Accesses.{push_delivered, put_attributes}
use rs_mev_relay.Relay.Locks.Proposals.{post_validators_steps}
use rs_mev_relay.Relay.Locks.Kept.{
  Kept, refresh_steps-Ensures, get_header_steps-Ensures, post_blinded_blocks_steps-Ensures,
  on_event_steps-Ensures,
}
use rs_mev_relay.Relay.Sound.{
  Accepted, IsSound, IsSound-of_SameBids, bids-accept, by_block-accept, responses-accept,
}
use rs_mev_relay.Relay.Locks.{◌>>=◌, returns}
use rs_mev_relay.Relay.Locks.Ensures.{
  Ensures, OnOk, Any, Ensures-bind, Ensures-get, Ensures-returns, Ensures-if,
}
use rs_mev_relay.Relay.Locks.Bids.{
  admit_steps, accept_steps, post_bids_steps, validate_steps, update_steps, decide_steps,
  reply_steps, submit_block_steps,
}
use rs_mev_relay.Relay.Locks.Interleaved.{Routes, Reach-keeps}
use rs_mev_relay.Relay.Locks.Routes.{Config, Reach}

module _ (x : External) (builders : List BlsPublicKey) (forks : ForkDatas) where
  abbrev pub Sound : InMemoryStorage → Type 0
  Sound = IsSound x builders forks

  -- The two writes of a submission, one without the other.
  module _ (b : BidSubmission) (duty : Validator) (good : Accepted x builders forks b)
      (s : InMemoryStorage) where
    set_best_bid-IsSound : Sound s → Sound (set_best_bid b.message.slot b s)
    unfolding accept set_best_bid set_blinded_block_response read_best_bid
        read_best_bid_by_block_number read_blinded_block_response
    set_best_bid-IsSound sound = record {
      same_builders = sound.same_builders;
      same_forks = sound.same_forks;
      bids = bids-accept x builders forks s b duty sound good;
      by_block = by_block-accept x builders forks s b duty sound good;
      responses = sound.responses;
    }

    set_response-IsSound :
        Sound s
        → Sound
            (set_blinded_block_response duty.entry.message.pubkey (to_blinded_block_response b) s)
    unfolding accept set_best_bid set_blinded_block_response read_best_bid
        read_best_bid_by_block_number read_blinded_block_response
    set_response-IsSound sound = record {
      same_builders = sound.same_builders;
      same_forks = sound.same_forks;
      bids = sound.bids;
      by_block = sound.by_block;
      responses = responses-accept x builders forks s b duty sound good;
    }

  allowed-Mem :
      (s : InMemoryStorage) (builder : BlsPublicKey)
      → Sound s
      → is_whitelisted_builder s builder ≡ true
      → Mem builder builders
  unfolding is_whitelisted_builder
  allowed-Mem s builder sound e =
      rw (sym sound.same_builders)
        ((contains_iff BlsPublicKey-discrete s.inner.wlist_builders builder).0 e)

  admit_steps-Accepted :
      (b : BidSubmission)
      → Ensures Sound (OnOk (λ (duty : Validator). Accepted x builders forks b)) (admit_steps x b)
  unfolding admit_steps
  admit_steps-Accepted b =
      let Q = λ (duty : Validator). Accepted x builders forks b in
      Ensures-get Sound _ _ (OnOk Q) λ s1 h1. Ensures-returns Sound _ _ Q λ _ higher.
        Ensures-returns Sound _ _ Q λ _ positive. Ensures-get Sound _ _ (OnOk Q) λ s2 h2.
          Ensures-returns Sound _ _ Q λ _ allowed. Ensures-get Sound _ _ (OnOk Q) λ s3 h3.
            Ensures-returns Sound _ _ Q λ _ in_time. Ensures-get Sound _ _ (OnOk Q) λ s4 h4.
              Ensures-returns Sound _ _ Q λ valid of_attrs. Ensures-get Sound _ _ (OnOk Q) λ s5 h5.
                Ensures-returns Sound _ _ Q λ duty found. Ensures-get Sound _ _ (OnOk Q) λ s6 h6.
                  Ensures-returns Sound _ _ Q λ _ signed. record {
                    positive = ground arith;
                    allowed = allowed-Mem s2 b.message.builder_pubkey h2 (guard-ok _ _ allowed);
                    signed = rw (sym h6.same_forks) (guard-ok _ _ signed);
                  }

  pub post_bids_steps-Ensures : (b : BidSubmission) → Ensures Sound Any (post_bids_steps x b)
  unfolding post_bids_steps accept_steps ◌>>=◌
  post_bids_steps-Ensures b =
      Ensures-bind Sound (admit_steps x b) (accept_steps x b)
        (λ (duty : Validator). Accepted x builders forks b) Any (λ e. tt) (admit_steps-Accepted b)
        (λ duty good. (set_best_bid-IsSound b duty good, (set_response-IsSound b duty good, tt)))

  -- What a decision of the gRPC route updates with is accepted, and is for a validator on duty.
  abbrev DecisionAccepted : Decision → Type 0
  DecisionAccepted below_best = Unit
  DecisionAccepted (update bid payload blobs signature key) =
      Accepted x builders forks (record {
        message = bid;
        execution_payload = payload;
        blobs_bundle = blobs;
        signature = signature;
      })
      × (duty : Validator) × (key ≡ duty.entry.message.pubkey)

  abbrev Validated : BidTrace → Validator → Type 0
  Validated bid duty = (0 < bid.value.value) × Mem bid.builder_pubkey builders

  validate_steps-Validated :
      (req : SubmitBlockRequest) (bid : BidTrace) (payload : ExecutionPayload)
      → Ensures Sound (OnOk (Validated bid)) (validate_steps x forks req bid payload)
  unfolding validate_steps
  validate_steps-Validated req bid payload =
      let Q = Validated bid in
      Ensures-returns Sound _ _ Q λ _ positive. Ensures-get Sound _ _ (OnOk Q) λ s2 h2.
        Ensures-returns Sound _ _ Q λ _ allowed. Ensures-get Sound _ _ (OnOk Q) λ s3 h3.
          Ensures-returns Sound _ _ Q λ _ in_time. Ensures-get Sound _ _ (OnOk Q) λ s4 h4.
            Ensures-returns Sound _ _ Q λ valid of_attrs. Ensures-get Sound _ _ (OnOk Q) λ s5 h5.
              Ensures-returns Sound _ _ Q λ duty found.
                (ground arith, allowed-Mem s2 bid.builder_pubkey h2 (guard-ok _ _ allowed))

  update_steps-Accepted :
      (req : SubmitBlockRequest) (bid : BidTrace) (payload_msg : Messages.ExecutionPayload)
      (blobs_msg : Messages.BlobsBundle)
      → Ensures Sound (OnOk DecisionAccepted) (update_steps x forks req bid payload_msg blobs_msg)
  unfolding update_steps verify_signature
  update_steps-Accepted req bid payload_msg blobs_msg =
      let Q = DecisionAccepted in
      Ensures-returns Sound _ _ Q λ payload read_payload.
        Ensures-bind Sound (validate_steps x forks req bid payload) _ (Validated bid) (OnOk Q)
          (λ e. tt) (validate_steps-Validated req bid payload)
          λ duty (positive, allowed). Ensures-returns Sound _ _ Q λ signature read_signature.
            Ensures-returns Sound _ _ Q λ _ signed. Ensures-returns Sound _ _ Q λ blobs read_blobs.
              let good : Accepted x builders forks (record {
                message = bid;
                execution_payload = payload;
                blobs_bundle = blobs;
                signature = signature;
              }) =
                record { positive = positive; allowed = allowed; signed = guard-ok _ _ signed } in
              (good, duty, refl)

  decide_steps-Accepted :
      (req : SubmitBlockRequest) → Ensures Sound (OnOk DecisionAccepted) (decide_steps x forks req)
  unfolding decide_steps
  decide_steps-Accepted req =
      let Q = DecisionAccepted in
      Ensures-returns Sound _ _ Q λ bid_msg of_bid.
        Ensures-returns Sound _ _ Q λ payload_msg of_payload.
          Ensures-returns Sound _ _ Q λ blobs_msg of_blobs.
            Ensures-returns Sound _ _ Q λ bid read_bid. Ensures-get Sound _ _ (OnOk Q) λ s h.
              Ensures-if Sound (not (Service.is_bid_higher s bid)) (returns (ok below_best))
                (update_steps x forks req bid payload_msg blobs_msg) (OnOk Q) tt
                (update_steps-Accepted req bid payload_msg blobs_msg)

  reply_steps-Ensures :
      (req : SubmitBlockRequest) (decision : Decision)
      → DecisionAccepted decision
      → Ensures Sound Any (reply_steps x forks req decision)
  unfolding reply_steps ◌>>=◌
  reply_steps-Ensures req below_best good = tt
  reply_steps-Ensures req (update bid payload blobs signature key) (good, duty, of_duty) =
      let b : BidSubmission = record {
        message = bid;
        execution_payload = payload;
        blobs_bundle = blobs;
        signature = signature;
      } in
      (
        set_best_bid-IsSound b duty good,
        (λ s sound. rw of_duty (set_response-IsSound b duty good s sound), tt),
      )

  pub submit_block_steps-Ensures :
      (req : SubmitBlockRequest) → Ensures Sound Any (submit_block_steps x forks req)
  unfolding submit_block_steps
  submit_block_steps-Ensures req =
      Ensures-bind Sound (decide_steps x forks req) (reply_steps x forks req) DecisionAccepted Any
        (λ e. tt) (decide_steps-Accepted req) (reply_steps-Ensures req)

  same : (s t : InMemoryStorage) → SameBids s t → Sound s → Sound t
  same s t e sound = IsSound-of_SameBids x builders forks s t sound e

  pub Sound-Kept : Kept Sound
  unfolding set_delivered_blocks set_head_slot set_payload_attributes record_relayed_block
  Sound-Kept = record {
    gauges = λ f s. same s (set_metrics s (f s.metrics)) (refl, refl, refl, refl, refl);
    delivered = λ hash s. same s (push_delivered hash s) (refl, refl, refl, refl, refl);
    head_slot = λ slot s. same s (set_head_slot slot s) (refl, refl, refl, refl, refl);
    attributes = λ attr s. same s (put_attributes attr s) (refl, refl, refl, refl, refl);
  }

  duties-Sound :
      (vs : List Validator) (s : InMemoryStorage) → Sound s → Sound (set_proposer_duties vs s)
  unfolding set_proposer_duties
  duties-Sound vs s = same s (set_proposer_duties vs s) (refl, refl, refl, refl, refl)

  validators-Sound : (regs : List Answered) → Ensures Sound Any (post_validators_steps x regs)
  unfolding post_validators_steps set_validator_registrations
  validators-Sound regs s h = (
    λ t. same t _ (refl, refl, refl, refl, refl),
    (λ t. same t _ (refl, refl, refl, refl, refl), tt),
  )

  pub routes : (signer : BlsSigner) → Routes Sound x signer forks Any
  routes signer = record {
    headers = get_header_steps-Ensures Sound Sound-Kept x signer;
    deliveries = post_blinded_blocks_steps-Ensures Sound Sound-Kept x;
    events = on_event_steps-Ensures Sound Sound-Kept;
    bids = post_bids_steps-Ensures;
    blocks = submit_block_steps-Ensures;
    validators = validators-Sound;
    duties = refresh_steps-Ensures Sound x Any (λ s d key reg h e. tt) (λ vs all. duties-Sound vs);
  }

  -- However the accesses of requests and events overlap, the storage stays sound: from a sound
  -- storage in which nothing runs, every storage that is reached, also in the middle of requests,
  -- is sound.
  pub interleaved-IsSound :
      (signer : BlsSigner) {c d : Config}
      → Reach x signer forks c d
      → c.running ≡ []
      → IsSound x builders forks c.storage
      → IsSound x builders forks d.storage
  interleaved-IsSound signer = Reach-keeps Sound x signer forks (routes signer)
