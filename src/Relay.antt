-- ===== src/Relay.antt =====
-- bin/relay/src/main.rs starts the servers of crates/http and crates/grpc and the service of
-- bin/relay/src/service.rs over one storage. A request or an event is one step here: the handlers
-- of the routes (crates/http/src/server), of gRPC, and of the beacon node's events.
pub mod Writes
pub mod Sound
pub mod Best
pub mod Delivered
pub mod Registrations
pub mod Queries
pub mod Interleavings
pub mod Locks
pub mod Startup
pub mod Following
pub mod Refused
pub mod Main
pub mod System
use rs_mev_relay.Prelude.{ℕ, Option, List, [], ◌∷◌}
use rs_mev_relay.Primitives.Bytes.{B256}
use rs_mev_relay.Primitives.Keys.{BlsPublicKey}
use rs_mev_relay.Primitives.Bids.{BidSubmission}
use rs_mev_relay.Primitives.Chain.{HeadSlot}
use rs_mev_relay.Primitives.Registrations.{ProposerDutiesResponse}
use rs_mev_relay.Primitives.Domains.{ForkDatas}
use rs_mev_relay.Primitives.Blocks.{SignedBlindedBlock}
use rs_mev_relay.Primitives.External.{External}
use rs_mev_relay.Primitives.Signing.{BlsSigner}
use rs_mev_relay.Storage.{InMemoryStorage}
use rs_mev_relay.Builder
use rs_mev_relay.Grpc.Messages.{SubmitBlockRequest}
use rs_mev_relay.Grpc.Service
use rs_mev_relay.Proposer.GetHeader
use rs_mev_relay.Proposer.BlindedBlocks
use rs_mev_relay.Proposer.Validators
use rs_mev_relay.Proposer.Validators.{Answered}
use rs_mev_relay.Service as Events
use rs_mev_relay.Primitives.Events.{BeaconEvent}

-- What reaches the relay, with what the beacon node answered meanwhile and the time that passed.
pub data Request : Type 0 where
  post_bids : BidSubmission → Request
  submit_block : SubmitBlockRequest → Request
  get_header : (elapsed slot : ℕ) → B256 → BlsPublicKey → Request
  post_blinded_blocks : (elapsed : ℕ) → SignedBlindedBlock → Request
  post_validators : List Answered → Request
  event : BeaconEvent → Request
  refresh : Option ProposerDutiesResponse → Option ProposerDutiesResponse → Request

-- The three copies of the fork data (the storage's, the signer's and the gRPC service's) are made
-- from the same arguments; `forks` is the gRPC service's.
module _ (x : External) (signer : BlsSigner) (forks : ForkDatas) where
  unfoldable pub handle : Request → InMemoryStorage → InMemoryStorage
  handle (post_bids b) s = (Builder.post_bids x b s).0
  handle (submit_block req) s = (Service.submit_block x forks req s).0
  handle (get_header elapsed slot hash key) s =
      (GetHeader.get_header x signer elapsed slot hash key s).0
  handle (post_blinded_blocks elapsed b) s = (BlindedBlocks.post_blinded_blocks x elapsed b s).0
  handle (post_validators regs) s = Validators.post_validators x regs s
  handle (event e) s = (Events.on_event e s).0
  handle (refresh this next) s = Events.refresh x this next s

  unfoldable pub run : List Request → InMemoryStorage → InMemoryStorage
  run [] s = s
  run (r ∷ rs) s = run rs (handle r s)
