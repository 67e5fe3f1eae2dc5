-- ===== src/Relay/Locks/Grows.antt =====
-- No access of a handler takes back a delivered block (crates/storage/src/in_memory/mod.rs), route by
-- route. That of crates/http/src/server/proposer_api/blinded_blocks.rs, which delivers, is without
-- its writes here.
use rs_mev_relay.Prelude.{ℕ, List, ok, arith, Option, none, some, is_empty}
use rs_mev_relay.Primitives.Bytes.{B256}
use rs_mev_relay.Primitives.Keys.{BlsPublicKey}
use rs_mev_relay.Primitives.Bids.{BidSubmission}
use rs_mev_relay.Primitives.Payload.{BlindedBlockResponse}
use rs_mev_relay.Primitives.Events.{BeaconEvent, payload_attribute, head}
use rs_mev_relay.Primitives.Registrations.{ProposerDutiesResponse, merge_with}
use rs_mev_relay.Primitives.Domains.{ForkDatas}
use rs_mev_relay.Primitives.External.{External}
use rs_mev_relay.Primitives.Signing.{BlsSigner}
use rs_mev_relay.Storage
use rs_mev_relay.Storage.{
  InMemoryStorage, set_delivered_blocks, empty_validator_regs, set_proposer_duties,
}
use rs_mev_relay.Grpc.Messages.{SubmitBlockRequest}
use rs_mev_relay.Grpc.Service.{Decision, below_best, update}
use rs_mev_relay.Proposer.Validators.{Answered}
use rs_mev_relay.Relay.Locks.{returns, ◌>>=◌, put}
use rs_mev_relay.Relay.Locks.Bids.{
  admit_steps, accept_steps, post_bids_steps, decide_steps, reply_steps, submit_block_steps,
}
use rs_mev_relay.Relay.Locks.Proposals.{
  find_header_steps, count_header_steps, get_header_steps, post_validators_steps,
}
use rs_mev_relay.Relay.Locks.Duties.{on_event_steps, into_duties_steps, refresh_steps}
use rs_mev_relay.Relay.Locks.Owes.{Later, Grows, Grows-if, Grows-bind, ReadsOnly-Grows}
use rs_mev_relay.Relay.Locks.Reading.{
  admit_steps-ReadsOnly, decide_steps-ReadsOnly, find_header_steps-ReadsOnly,
  into_duties_steps-ReadsOnly,
}

-- The writes of a submission and of an event.
set_best_bid-Later :
    (slot : ℕ) (b : BidSubmission) (s : InMemoryStorage) → Later s (Storage.set_best_bid slot b s)
unfolding Storage.set_best_bid
set_best_bid-Later slot b s hash h = ground arith

set_response-Later :
    (key : BlsPublicKey) (resp : BlindedBlockResponse) (s : InMemoryStorage)
    → Later s (Storage.set_blinded_block_response key resp s)
unfolding Storage.set_blinded_block_response
set_response-Later key resp s hash h = ground arith

module _ (x : External) where
  pub post_bids_steps-Grows : (b : BidSubmission) → Grows (post_bids_steps x b)
  unfolding post_bids_steps accept_steps ◌>>=◌
  post_bids_steps-Grows b =
      Grows-bind (admit_steps x b) _ (ReadsOnly-Grows _ (admit_steps-ReadsOnly x b))
        λ duty. (set_best_bid-Later _ _, (set_response-Later _ _, tt))

  module _ (forks : ForkDatas) (req : SubmitBlockRequest) where
    reply_steps-Grows : (decision : Decision) → Grows (reply_steps x forks req decision)
    unfolding reply_steps ◌>>=◌
    reply_steps-Grows below_best = tt
    reply_steps-Grows (update bid payload blobs signature key) =
        (set_best_bid-Later _ _, (set_response-Later _ _, tt))

    pub submit_block_steps-Grows : Grows (submit_block_steps x forks req)
    unfolding submit_block_steps
    submit_block_steps-Grows =
        Grows-bind (decide_steps x forks req) (reply_steps x forks req)
          (ReadsOnly-Grows _ (decide_steps-ReadsOnly x forks req)) reply_steps-Grows

module _ (x : External) (signer : BlsSigner) (elapsed slot : ℕ) (hash : B256)
    (key : BlsPublicKey) where
  pub get_header_steps-Grows : Grows (get_header_steps x signer elapsed slot hash key)
  unfolding get_header_steps count_header_steps ◌>>=◌
  get_header_steps-Grows =
      Grows-bind (find_header_steps x signer elapsed slot hash key) _
        (ReadsOnly-Grows _ (find_header_steps-ReadsOnly x signer elapsed slot hash key))
        λ found. (λ s h d. d, (λ s h d. d, (λ s h d. d, (λ s h d. d, tt))))

module _ (x : External) where
  pub post_validators_steps-Grows : (regs : List Answered) → Grows (post_validators_steps x regs)
  unfolding post_validators_steps Storage.set_validator_registrations
  post_validators_steps-Grows regs s = (λ t h d. d, (λ t h d. d, tt))

  pub on_event_steps-Grows : (e : BeaconEvent) → Grows (on_event_steps e)
  unfolding on_event_steps Storage.set_head_slot
  on_event_steps-Grows (payload_attribute attr) =
      (λ s h d. d, (λ s h d. d, λ seen. (λ s h d. d, (λ s h d. d, tt))))
  on_event_steps-Grows (head slot) = (λ s h d. d, tt)

  pub refresh_steps-Grows :
      (this after : Option ProposerDutiesResponse) → Grows (refresh_steps x this after)
  unfolding refresh_steps set_proposer_duties
  refresh_steps-Grows none after = tt
  refresh_steps-Grows (some this) none = tt
  refresh_steps-Grows (some this) (some after) =
      Grows-bind (into_duties_steps x (merge_with this after)) _
        (ReadsOnly-Grows _ (into_duties_steps-ReadsOnly x (merge_with this after)))
        λ vs.
          Grows-if (is_empty vs) (returns (ok tt)) (put (set_proposer_duties vs)) tt
            (λ s h d. d, tt)
