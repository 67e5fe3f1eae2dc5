-- ===== src/Relay/Locks/Signed.antt =====
-- Registrations and duties when handlers overlap at every access.
use rs_mev_relay.Prelude.{◌≡◌, refl, List, [], All, some, not, ok}
use rs_mev_relay.Primitives.Bytes.{Bytes}
use rs_mev_relay.Primitives.Bids.{BidTrace, BidSubmission}
use rs_mev_relay.Primitives.Registrations.{ValidatorRegistration, Validator, ProposerDutiesData}
use rs_mev_relay.Primitives.Domains.{ForkDatas}
use rs_mev_relay.Primitives.External.{External}
use rs_mev_relay.Primitives.Signing.{BlsSigner}
use rs_mev_relay.Storage.{
  InMemoryStorage, set_metrics, set_delivered_blocks, set_head_slot, set_payload_attributes,
  record_relayed_block, set_proposer_duties, set_validator_registrations, set_best_bid,
  set_blinded_block_response, read_validator_registration,
}
use rs_mev_relay.Grpc.Messages
use rs_mev_relay.Grpc.Service
use rs_mev_relay.Builder.{PostBidsError}
use rs_mev_relay.Grpc.Messages.{SubmitBlockRequest}
use rs_mev_relay.Grpc.Service.{Decision, below_best, update}
use rs_mev_relay.Proposer.Validators.{Answered, post_validators}
use rs_mev_relay.Relay.Registrations.{
  AllSigned, DutySigned, self_signed, SameDuties, AllSigned-of_SameDuties,
  post_validators-AllSigned,
}
use rs_mev_relay.Relay.Locks.{◌>>=◌, returns}
use rs_mev_relay.Relay.Locks.Bids.{
  admit_steps, accept_steps, post_bids_steps, validate_steps, update_steps, decide_steps,
  reply_steps, submit_block_steps,
}
use rs_mev_relay.Relay.Locks.Accesses.{push_delivered, put_attributes}
use rs_mev_relay.Relay.Locks.Proposals.{post_validators_steps}
use rs_mev_relay.Relay.Locks.Ensures.{
  Ensures, OnOk, Any, Ensures-bind, Ensures-get, Ensures-returns, Ensures-if,
}
use rs_mev_relay.Relay.Locks.Kept.{
  Kept, refresh_steps-Ensures, get_header_steps-Ensures, post_blinded_blocks_steps-Ensures,
  on_event_steps-Ensures,
}
use rs_mev_relay.Relay.Locks.Interleaved.{Routes, Reach-keeps}
use rs_mev_relay.Relay.Locks.Routes.{Config, Reach}

module _ (x : External) (forks : ForkDatas) where
  abbrev Signed : InMemoryStorage → Type 0
  Signed = AllSigned x forks

  same : (s t : InMemoryStorage) → SameDuties x forks s t → Signed s → Signed t
  same s t e signed = AllSigned-of_SameDuties x forks s t signed e

  admit_steps-Any : (b : BidSubmission) → Ensures Signed (OnOk Any) (admit_steps x b)
  unfolding admit_steps
  admit_steps-Any b = Ensures-get Signed _ _ (OnOk Any) λ s1 h1.
      Ensures-returns Signed _ _ Any λ _ higher. Ensures-returns Signed _ _ Any λ _ positive.
        Ensures-get Signed _ _ (OnOk Any) λ s2 h2. Ensures-returns Signed _ _ Any λ _ allowed.
          Ensures-get Signed _ _ (OnOk Any) λ s3 h3. Ensures-returns Signed _ _ Any λ _ in_time.
            Ensures-get Signed _ _ (OnOk Any) λ s4 h4. Ensures-returns Signed _ _ Any λ _ valid.
              Ensures-get Signed _ _ (OnOk Any) λ s5 h5.
                Ensures-returns Signed _ _ Any λ duty found.
                  Ensures-get Signed _ _ (OnOk Any)
                    λ s6 h6. Ensures-returns Signed _ _ Any λ _ signed. tt

  module _ (req : SubmitBlockRequest) where
    update_steps-Any :
        (bid : BidTrace) (payload_msg : Messages.ExecutionPayload)
        (blobs_msg : Messages.BlobsBundle)
        → Ensures Signed (OnOk Any) (update_steps x forks req bid payload_msg blobs_msg)
    unfolding update_steps validate_steps
    update_steps-Any bid payload_msg blobs_msg =
        Ensures-returns Signed _ _ Any λ payload read_payload.
          Ensures-bind Signed (validate_steps x forks req bid payload) _ Any (OnOk Any) (λ e. tt)
            (Ensures-returns Signed _ _ Any λ _ positive. Ensures-get Signed _ _ (OnOk Any) λ s2 h2.
              Ensures-returns Signed _ _ Any λ _ allowed. Ensures-get Signed _ _ (OnOk Any) λ s3 h3.
                Ensures-returns Signed _ _ Any λ _ in_time.
                  Ensures-get Signed _ _ (OnOk Any) λ s4 h4.
                    Ensures-returns Signed _ _ Any λ _ valid.
                      Ensures-get Signed _ _ (OnOk Any)
                        λ s5 h5. Ensures-returns Signed _ _ Any λ duty found. tt)
            λ duty validated. Ensures-returns Signed _ _ Any λ signature read_signature.
              Ensures-returns Signed _ _ Any
                λ _ signed. Ensures-returns Signed _ _ Any λ blobs read_blobs. tt

    decide_steps-Any : Ensures Signed (OnOk Any) (decide_steps x forks req)
    unfolding decide_steps
    decide_steps-Any = Ensures-returns Signed _ _ Any λ bid_msg of_bid.
        Ensures-returns Signed _ _ Any λ payload_msg of_payload.
          Ensures-returns Signed _ _ Any λ blobs_msg of_blobs.
            Ensures-returns Signed _ _ Any λ bid read_bid. Ensures-get Signed _ _ (OnOk Any) λ s h.
              Ensures-if Signed (not (Service.is_bid_higher s bid)) (returns (ok below_best))
                (update_steps x forks req bid payload_msg blobs_msg) (OnOk Any) tt
                (update_steps-Any bid payload_msg blobs_msg)

    reply_steps-Any : (decision : Decision) → Ensures Signed Any (reply_steps x forks req decision)
    unfolding reply_steps ◌>>=◌ set_best_bid set_blinded_block_response
    reply_steps-Any below_best = tt
    reply_steps-Any (update bid payload blobs signature key) =
        (λ s. same s _ (refl, refl, refl), (λ s. same s _ (refl, refl, refl), tt))

  accept_steps-Any :
      (b : BidSubmission) (duty : Validator)
      → Ensures Signed Any (accept_steps x b {E = PostBidsError} duty)
  unfolding accept_steps ◌>>=◌ set_best_bid set_blinded_block_response
  accept_steps-Any b duty =
      (λ s. same s _ (refl, refl, refl), (λ s. same s _ (refl, refl, refl), tt))

  Signed-Kept : Kept Signed
  unfolding set_delivered_blocks set_head_slot set_payload_attributes record_relayed_block
  Signed-Kept = record {
    gauges = λ f s. same s (set_metrics s (f s.metrics)) (refl, refl, refl);
    delivered = λ hash s. same s (push_delivered hash s) (refl, refl, refl);
    head_slot = λ slot s. same s (set_head_slot slot s) (refl, refl, refl);
    attributes = λ attr s. same s (put_attributes attr s) (refl, refl, refl);
  }

  -- The registrations are made for the fork data that was read, and written to a later storage.
  validators-Signed : (regs : List Answered) → Ensures Signed Any (post_validators_steps x regs)
  unfolding post_validators_steps post_validators set_validator_registrations
      read_validator_registration
  validators-Signed regs s h = (
    λ t signed. record {
      same_forks = signed.same_forks;
      registrations = (post_validators-AllSigned x forks regs s h).registrations;
      duties = signed.duties;
    },
    (λ t. same t _ (refl, refl, refl), tt),
  )

  duties-Signed :
      (vs : List Validator)
      → All (DutySigned x forks) vs
      → (s : InMemoryStorage) → Signed s
      → Signed (set_proposer_duties vs s)
  unfolding set_proposer_duties read_validator_registration
  duties-Signed vs all s signed = record {
    same_forks = signed.same_forks;
    registrations = signed.registrations;
    duties = all;
  }

  duty-Signed :
      (s : InMemoryStorage) (d : ProposerDutiesData) (key : Bytes) (reg : ValidatorRegistration)
      → Signed s
      → read_validator_registration s (record { point = key }) ≡ some reg
      → DutySigned x forks
          (record { slot = d.slot; validator_index = d.validator_index; entry = reg })
  duty-Signed s d key reg signed e =
      self_signed x forks (record { point = key }) reg (signed.registrations _ reg e)

  routes : (signer : BlsSigner) → Routes Signed x signer forks Any
  unfolding post_bids_steps submit_block_steps
  routes signer = record {
    headers = get_header_steps-Ensures Signed Signed-Kept x signer;
    deliveries = post_blinded_blocks_steps-Ensures Signed Signed-Kept x;
    events = on_event_steps-Ensures Signed Signed-Kept;
    bids = λ b.
        Ensures-bind Signed (admit_steps x b) (accept_steps x b) Any Any (λ e. tt)
          (admit_steps-Any b) (λ duty _. accept_steps-Any b duty);
    blocks = λ req.
        Ensures-bind Signed (decide_steps x forks req) (reply_steps x forks req) Any Any (λ e. tt)
          (decide_steps-Any req) (λ decision _. reply_steps-Any req decision);
    validators = validators-Signed;
    duties = refresh_steps-Ensures Signed x (DutySigned x forks) duty-Signed duties-Signed;
  }

  -- However the accesses of requests and events overlap, every registration in the storage stands
  -- under its own key with that key's signature, and so does that of every duty, if it was so in
  -- a storage in which nothing ran: also where registrations are replaced while the duties are
  -- made of them.
  pub interleaved-AllSigned :
      (signer : BlsSigner) {c d : Config}
      → Reach x signer forks c d
      → c.running ≡ []
      → AllSigned x forks c.storage
      → AllSigned x forks d.storage
  interleaved-AllSigned signer = Reach-keeps Signed x signer forks (routes signer)
