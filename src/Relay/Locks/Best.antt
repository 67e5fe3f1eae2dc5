-- ===== src/Relay/Locks/Best.antt =====
-- The best bid when handlers overlap at every access (crates/http/src/server/builder_api/post_bids.rs,
-- crates/grpc/src/service/mod.rs): between the check of a submission and its write others may write.
use rs_mev_relay.Prelude.{
  ℕ, ◌≤◌, List, [], some, ok, Bool, true, false, if◌then◌else◌, not, ◌≡◌, refl, ap, ◌∙◌, arith,
  lookup, subst, guard-ok,
}
use rs_mev_relay.Primitives.Bytes.{B256}
use rs_mev_relay.Primitives.Keys.{BlsPublicKey}
use rs_mev_relay.Primitives.Payload.{ExecutionPayload, BlindedBlockResponse}
use rs_mev_relay.Primitives.Bids.{BidTrace, BidSubmission}
use rs_mev_relay.Primitives.Registrations.{Validator}
use rs_mev_relay.Primitives.Domains.{ForkDatas}
use rs_mev_relay.Primitives.External.{External}
use rs_mev_relay.Primitives.Signing.{BlsSigner}
use rs_mev_relay.Storage.{
  InMemoryStorage, SlotHashKey, SlotHashKey-discrete, read_best_bid, set_best_bid,
  set_blinded_block_response, set_metrics, set_head_slot, set_proposer_duties,
}
use rs_mev_relay.Builder.{is_bid_higher, accept}
use rs_mev_relay.Builder.Admission.{is_bid_higher-lt}
use rs_mev_relay.Builder.Effects.{
  key, bid_key, read_best_bid-accept_self, read_best_bid-accept_other,
}
use rs_mev_relay.Grpc.Messages
use rs_mev_relay.Grpc.Messages.{SubmitBlockRequest}
use rs_mev_relay.Grpc.Service
use rs_mev_relay.Grpc.Service.{Decision, below_best, update}
use rs_mev_relay.Proposer.Validators.{Answered}
use rs_mev_relay.Relay.Best.{HasBid}
use rs_mev_relay.Relay.Locks.{◌>>=◌, returns}
use rs_mev_relay.Relay.Locks.Accesses.{push_delivered, put_attributes}
use rs_mev_relay.Relay.Locks.Bids.{
  admit_steps, accept_steps, post_bids_steps, validate_steps, update_steps, decide_steps,
  reply_steps, submit_block_steps,
}
use rs_mev_relay.Relay.Locks.Proposals.{post_validators_steps}
use rs_mev_relay.Relay.Locks.Ensures.{
  Ensures, OnOk, Any, Ensures-bind, Ensures-get, Ensures-returns,
}
use rs_mev_relay.Relay.Locks.Kept.{
  Kept, refresh_steps-Ensures, get_header_steps-Ensures, post_blinded_blocks_steps-Ensures,
  on_event_steps-Ensures,
}
use rs_mev_relay.Relay.Locks.Interleaved.{Routes, Reach-keeps}
use rs_mev_relay.Relay.Locks.Routes.{Config, Reach}

module _ (slot : ℕ) (hash : B256) (validator : BlsPublicKey) (v : ℕ) where
  abbrev Has : InMemoryStorage → Type 0
  Has s = HasBid s slot hash validator v

  same :
      (s t : InMemoryStorage)
      → t.inner.best_bid_per_slot ≡ s.inner.best_bid_per_slot
      → Has s
      → Has t
  unfolding read_best_bid
  same s t e (b, is, le) =
      (b, ap (lookup SlotHashKey-discrete (key slot hash validator)) e ∙ is, le)

  -- A bid that may replace the best one.
  abbrev High : BidTrace → Type 0
  High b =
      Path SlotHashKey (key slot hash validator)
        (record { slot = b.slot; hash = b.parent_hash; validator = b.proposer_pubkey })
      → v ≤ b.value.value

  checked-High : (s : InMemoryStorage) (b : BidTrace) → Has s → is_bid_higher s b ≡ true → High b
  checked-High s b (best, is, le) higher same_key =
      let at =
        subst (λ (k : SlotHashKey). read_best_bid s k.slot k.hash k.validator ≡ some best) same_key
          is in
      let below = is_bid_higher-lt s b higher best at in omega arith

  set_best_bid-Has :
      (b : BidSubmission) (duty : Validator)
      → High b.message
      → (s : InMemoryStorage) → Has s
      → Has (set_best_bid b.message.slot b s)
  unfolding accept set_best_bid set_blinded_block_response read_best_bid
  set_best_bid-Has b duty high s (best, is, le) =
      elim (SlotHashKey-discrete (key slot hash validator) (bid_key b)) [
        | yes p ↦ (b, read_best_bid-accept_self b duty s (key slot hash validator) p, high p)
        | no n ↦ (best, read_best_bid-accept_other b duty s (key slot hash validator) n ∙ is, le)
      ]

  set_response-Has :
      (proposer : BlsPublicKey) (resp : BlindedBlockResponse) (s : InMemoryStorage)
      → Has s
      → Has (set_blinded_block_response proposer resp s)
  unfolding set_blinded_block_response
  set_response-Has proposer resp s = same s _ refl

  module _ (x : External) where
    admit_steps-High :
        (b : BidSubmission)
        → Ensures Has (OnOk (λ (duty : Validator). High b.message)) (admit_steps x b)
    unfolding admit_steps
    admit_steps-High b =
        let Q = λ (duty : Validator). High b.message in
        Ensures-get Has _ _ (OnOk Q) λ s1 h1. Ensures-returns Has _ _ Q λ _ higher.
          Ensures-returns Has _ _ Q λ _ positive. Ensures-get Has _ _ (OnOk Q) λ s2 h2.
            Ensures-returns Has _ _ Q λ _ allowed. Ensures-get Has _ _ (OnOk Q) λ s3 h3.
              Ensures-returns Has _ _ Q λ _ in_time. Ensures-get Has _ _ (OnOk Q) λ s4 h4.
                Ensures-returns Has _ _ Q λ valid of_attrs. Ensures-get Has _ _ (OnOk Q) λ s5 h5.
                  Ensures-returns Has _ _ Q λ duty found. Ensures-get Has _ _ (OnOk Q) λ s6 h6.
                    Ensures-returns Has _ _ Q
                      λ _ signed. checked-High s1 b.message h1 (guard-ok _ _ higher)

    post_bids_steps-Has : (b : BidSubmission) → Ensures Has Any (post_bids_steps x b)
    unfolding post_bids_steps accept_steps ◌>>=◌
    post_bids_steps-Has b =
        Ensures-bind Has (admit_steps x b) (accept_steps x b) (λ duty. High b.message) Any (λ e. tt)
          (admit_steps-High b)
          (λ duty high. (set_best_bid-Has b duty high, (set_response-Has _ _, tt)))

    module _ (forks : ForkDatas) (req : SubmitBlockRequest) where
      -- A decision to write is for such a bid.
      abbrev HighDecision : Decision → Type 0
      HighDecision below_best = Unit
      HighDecision (update bid payload blobs signature proposer) =
          High bid × (duty : Validator) × (proposer ≡ duty.entry.message.pubkey)

      validate_steps-Any :
          (bid : BidTrace) (payload : ExecutionPayload)
          → Ensures Has (OnOk Any) (validate_steps x forks req bid payload)
      unfolding validate_steps
      validate_steps-Any bid payload = Ensures-returns Has _ _ Any λ _ positive.
          Ensures-get Has _ _ (OnOk Any) λ s2 h2. Ensures-returns Has _ _ Any λ _ allowed.
            Ensures-get Has _ _ (OnOk Any) λ s3 h3. Ensures-returns Has _ _ Any λ _ in_time.
              Ensures-get Has _ _ (OnOk Any) λ s4 h4. Ensures-returns Has _ _ Any λ _ valid.
                Ensures-get Has _ _ (OnOk Any) λ s5 h5. Ensures-returns Has _ _ Any λ duty found. tt

      update_steps-High :
          (bid : BidTrace) (payload_msg : Messages.ExecutionPayload)
          (blobs_msg : Messages.BlobsBundle)
          → High bid
          → Ensures Has (OnOk HighDecision) (update_steps x forks req bid payload_msg blobs_msg)
      unfolding update_steps
      update_steps-High bid payload_msg blobs_msg high =
          let Q = HighDecision in
          Ensures-returns Has _ _ Q λ payload read_payload.
            Ensures-bind Has (validate_steps x forks req bid payload) _ Any (OnOk Q) (λ e. tt)
              (validate_steps-Any bid payload)
              λ duty validated. Ensures-returns Has _ _ Q λ signature read_signature.
                Ensures-returns Has _ _ Q
                  λ _ signed. Ensures-returns Has _ _ Q λ blobs read_blobs. (high, duty, refl)

      decided :
          (s : InMemoryStorage) (bid : BidTrace) (payload_msg : Messages.ExecutionPayload)
          (blobs_msg : Messages.BlobsBundle)
          → Has s
          → (higher : Bool) → Service.is_bid_higher s bid ≡ higher
          → Ensures Has (OnOk HighDecision) (
              if not higher
              then returns (ok below_best)
              else update_steps x forks req bid payload_msg blobs_msg)
      unfolding Service.is_bid_higher is_bid_higher
      decided s bid payload_msg blobs_msg h true e =
          update_steps-High bid payload_msg blobs_msg (checked-High s bid h e)
      decided s bid payload_msg blobs_msg h false e = tt

      decide_steps-High : Ensures Has (OnOk HighDecision) (decide_steps x forks req)
      unfolding decide_steps
      decide_steps-High =
          let Q = HighDecision in
          Ensures-returns Has _ _ Q λ bid_msg of_bid.
            Ensures-returns Has _ _ Q λ payload_msg of_payload.
              Ensures-returns Has _ _ Q λ blobs_msg of_blobs.
                Ensures-returns Has _ _ Q λ bid read_bid.
                  Ensures-get Has _ _ (OnOk Q)
                    λ s h. decided s bid payload_msg blobs_msg h (Service.is_bid_higher s bid) refl

      reply_steps-Has :
          (decision : Decision)
          → HighDecision decision
          → Ensures Has Any (reply_steps x forks req decision)
      unfolding reply_steps ◌>>=◌
      reply_steps-Has below_best high = tt
      reply_steps-Has (update bid payload blobs signature proposer) (high, duty, of_duty) =
          let b : BidSubmission = record {
            message = bid;
            execution_payload = payload;
            blobs_bundle = blobs;
            signature = signature;
          } in
          (set_best_bid-Has b duty high, (set_response-Has _ _, tt))

      submit_block_steps-Has : Ensures Has Any (submit_block_steps x forks req)
      unfolding submit_block_steps
      submit_block_steps-Has =
          Ensures-bind Has (decide_steps x forks req) (reply_steps x forks req) HighDecision Any
            (λ e. tt) decide_steps-High reply_steps-Has

    Has-Kept : Kept Has
    unfolding set_head_slot
    Has-Kept = record {
      gauges = λ f s. same s (set_metrics s (f s.metrics)) refl;
      delivered = λ block s. same s (push_delivered block s) refl;
      head_slot = λ head s. same s (set_head_slot head s) refl;
      attributes = λ attr s. same s (put_attributes attr s) refl;
    }

    duties-Has :
        (vs : List Validator) (s : InMemoryStorage) → Has s → Has (set_proposer_duties vs s)
    unfolding set_proposer_duties
    duties-Has vs s = same s _ refl

    validators-Has : (regs : List Answered) → Ensures Has Any (post_validators_steps x regs)
    unfolding post_validators_steps
    validators-Has regs s h = (λ t. same t _ refl, (λ t. same t _ refl, tt))

    routes : (signer : BlsSigner) (forks : ForkDatas) → Routes Has x signer forks Any
    routes signer forks = record {
      headers = get_header_steps-Ensures Has Has-Kept x signer;
      deliveries = post_blinded_blocks_steps-Ensures Has Has-Kept x;
      events = on_event_steps-Ensures Has Has-Kept;
      bids = post_bids_steps-Has;
      blocks = submit_block_steps-Has forks;
      validators = validators-Has;
      duties = refresh_steps-Ensures Has x Any (λ s d k reg h e. tt) (λ vs all. duties-Has vs);
    }

    -- The best bid never falls below one that was there when nothing ran, however the accesses of
    -- requests and events overlap from then on: if in that storage there is a best bid of at least
    -- some value for a slot, parent and proposer, there is one in every storage that is reached,
    -- also in the middle of requests.
    pub interleaved-HasBid :
        (signer : BlsSigner) (forks : ForkDatas) {c d : Config}
        → Reach x signer forks c d
        → c.running ≡ []
        → HasBid c.storage slot hash validator v
        → HasBid d.storage slot hash validator v
    interleaved-HasBid signer forks = Reach-keeps Has x signer forks (routes signer forks)
