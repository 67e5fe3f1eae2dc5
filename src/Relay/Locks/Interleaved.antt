-- ===== src/Relay/Locks/Interleaved.antt =====
-- What all routes keep, from what those that write bids, registrations or duties keep.
use rs_mev_relay.Prelude.{◌≡◌, List, [], ◌∷◌, All, Option, ℕ}
use rs_mev_relay.Primitives.Bytes.{B256}
use rs_mev_relay.Primitives.Keys.{BlsPublicKey}
use rs_mev_relay.Primitives.Blocks.{SignedBlindedBlock}
use rs_mev_relay.Primitives.Events.{BeaconEvent}
use rs_mev_relay.Primitives.Bids.{BidSubmission}
use rs_mev_relay.Primitives.Registrations.{ProposerDutiesResponse}
use rs_mev_relay.Primitives.Domains.{ForkDatas}
use rs_mev_relay.Primitives.External.{External}
use rs_mev_relay.Primitives.Signing.{BlsSigner}
use rs_mev_relay.Storage.{InMemoryStorage}
use rs_mev_relay.Grpc.Messages.{SubmitBlockRequest}
use rs_mev_relay.Proposer.Validators.{Answered}
use rs_mev_relay.Relay.{Request}
use rs_mev_relay.Relay.Locks.Bids.{post_bids_steps, submit_block_steps}
use rs_mev_relay.Relay.Locks.Proposals.{
  get_header_steps, post_blinded_blocks_steps, post_validators_steps,
}
use rs_mev_relay.Relay.Locks.Duties.{on_event_steps, refresh_steps}
use rs_mev_relay.Relay.Locks.Ensures.{
  Ensures, Any, Ensures-map_reply, Reach-promises, Reach-keeps_storage,
}
use rs_mev_relay.Relay.Locks.Routes.{Config, Reply, Reach, route}

module _ (P : InMemoryStorage → Type 0) (x : External) (signer : BlsSigner)
    (forks : ForkDatas) where
  -- Each route keeps P, and promises Q of its reply.
  pub record Routes (Q : Reply → Type 0) : Type 0 where
    pub bids : (b : BidSubmission) → Ensures P (λ a. Q (Reply.post_bids a)) (post_bids_steps x b)
    pub blocks :
        (req : SubmitBlockRequest)
        → Ensures P (λ a. Q (Reply.submit_block a)) (submit_block_steps x forks req)
    pub headers :
        (elapsed slot : ℕ) (hash : B256) (key : BlsPublicKey)
        → Ensures P (λ a. Q (Reply.get_header a)) (get_header_steps x signer elapsed slot hash key)
    pub deliveries :
        (elapsed : ℕ) (b : SignedBlindedBlock)
        → Ensures P (λ a. Q (Reply.post_blinded_blocks a)) (post_blinded_blocks_steps x elapsed b)
    pub validators :
        (regs : List Answered)
        → Ensures P (λ a. Q (Reply.post_validators a)) (post_validators_steps x regs)
    pub events : (e : BeaconEvent) → Ensures P (λ a. Q (Reply.event a)) (on_event_steps e)
    pub duties :
        (this next : Option ProposerDutiesResponse)
        → Ensures P (λ a. Q (Reply.refresh a)) (refresh_steps x this next)

  module _ (Q : Reply → Type 0) (routes : Routes Q) where
    route-Ensures : (r : Request) → Ensures P Q (route x signer forks r)
    unfolding route
    route-Ensures (Request.post_bids b) =
        Ensures-map_reply P _ (post_bids_steps x b) _ Q (λ a h. h) (routes.bids b)
    route-Ensures (Request.submit_block req) =
        Ensures-map_reply P _ (submit_block_steps x forks req) _ Q (λ a h. h) (routes.blocks req)
    route-Ensures (Request.get_header elapsed slot hash key) =
        Ensures-map_reply P _ (get_header_steps x signer elapsed slot hash key) _ Q (λ a h. h)
          (routes.headers elapsed slot hash key)
    route-Ensures (Request.post_blinded_blocks elapsed b) =
        Ensures-map_reply P _ (post_blinded_blocks_steps x elapsed b) _ Q (λ a h. h)
          (routes.deliveries elapsed b)
    route-Ensures (Request.post_validators regs) =
        Ensures-map_reply P _ (post_validators_steps x regs) _ Q (λ a h. h) (routes.validators regs)
    route-Ensures (Request.event e) =
        Ensures-map_reply P _ (on_event_steps e) _ Q (λ a h. h) (routes.events e)
    route-Ensures (Request.refresh this next) =
        Ensures-map_reply P _ (refresh_steps x this next) _ Q (λ a h. h) (routes.duties this next)

    -- From a storage in which nothing runs, P holds at every access, and Q of every reply.
    pub interleaved-promises :
        {c d : Config}
        → Reach x signer forks c d
        → c.running ≡ []
        → c.replies ≡ []
        → P c.storage
        → P d.storage × All Q d.replies
    interleaved-promises = Reach-promises P x signer forks Q route-Ensures

All-Any : {A : Type 0} (xs : List A) → All Any xs
All-Any [] = tt
All-Any (a ∷ xs) = (tt, All-Any xs)

-- Where nothing is promised of the replies, earlier ones do not matter.
pub Reach-keeps :
    (P : InMemoryStorage → Type 0) (x : External) (signer : BlsSigner) (forks : ForkDatas)
    → Routes P x signer forks Any
    → {c d : Config} → Reach x signer forks c d
    → c.running ≡ []
    → P c.storage
    → P d.storage
Reach-keeps P x signer forks routes {c = c} r idle h =
    Reach-keeps_storage P x signer forks Any (route-Ensures P x signer forks Any routes) r idle h
      (All-Any c.replies)
