-- ===== src/Relay/Queries.antt =====
-- What crates/http/src/server/data_api/get_bids.rs can find.
use rs_mev_relay.Prelude.{
  ℕ, Option, List, [], ◌∷◌, some, none, ◌≡◌, refl, ap, ◌∙◌, arith, lookup, ℕ_discrete,
}
use rs_mev_relay.Primitives.Keys.{BlsPublicKey}
use rs_mev_relay.Primitives.Bids.{BidSubmission}
use rs_mev_relay.Primitives.Chain.{HeadSlot, PayloadAttributes}
use rs_mev_relay.Primitives.Registrations.{Validator}
use rs_mev_relay.Primitives.Domains.{ForkDatas}
use rs_mev_relay.Primitives.External.{External}
use rs_mev_relay.Primitives.Signing.{BlsSigner}
use rs_mev_relay.Primitives.Metrics.{RelayMetrics}
use rs_mev_relay.Storage
use rs_mev_relay.Storage.{
  InMemoryStorage, ValidatorRegistrations, new, read_best_bid_by_slot,
  read_best_bid_by_block_number,
}
use rs_mev_relay.Builder
use rs_mev_relay.Builder.{accept}
use rs_mev_relay.Grpc.Service
use rs_mev_relay.Proposer.GetHeader
use rs_mev_relay.Proposer.BlindedBlocks
use rs_mev_relay.Proposer.Validators
use rs_mev_relay.Service as Events
use rs_mev_relay.Data.{QueryParams, found_by, get_bids}
use rs_mev_relay.Relay.{Request, handle, run}

module _ (x : External) (signer : BlsSigner) (forks : ForkDatas) where
  by_slot-handle :
      (r : Request) (s : InMemoryStorage)
      → (handle x signer forks r s).inner.best_bid_by_slot ≡ s.inner.best_bid_by_slot
  unfolding handle Builder.post_bids accept Service.submit_block Service.update_best
      Storage.set_best_bid Storage.set_blinded_block_response GetHeader.get_header
      GetHeader.count_header BlindedBlocks.post_blinded_blocks Storage.set_delivered_blocks
      Validators.post_validators Storage.set_validator_registrations Events.on_event
      Storage.set_payload_attributes Storage.set_head_slot Storage.record_relayed_block
      Events.refresh Storage.set_proposer_duties
  by_slot-handle r s = ground arith

  by_slot-run :
      (rs : List Request) (s : InMemoryStorage)
      → (run x signer forks rs s).inner.best_bid_by_slot ≡ s.inner.best_bid_by_slot
  unfolding run
  by_slot-run [] s = refl
  by_slot-run (r ∷ rs) s = by_slot-run rs (handle x signer forks r s) ∙ by_slot-handle r s

-- The bids found by a block number alone.
abbrev pub found_by_block : InMemoryStorage → Option ℕ → List BidSubmission
found_by_block s number = elim (found_by number (read_best_bid_by_block_number s)) [
  | none ↦ []
  | some bid ↦ bid ∷ []
]

by_slot_of_empty :
    (s : InMemoryStorage) (slot : ℕ)
    → s.inner.best_bid_by_slot ≡ []
    → read_best_bid_by_slot s slot ≡ none
unfolding read_best_bid_by_slot lookup
by_slot_of_empty s slot e = ap (lookup ℕ_discrete slot) e

get_bids_of_empty :
    (s : InMemoryStorage) (slot block_number : Option ℕ)
    → s.inner.best_bid_by_slot ≡ []
    → get_bids s (record { slot = slot; block_number = block_number })
      ≡ found_by_block s block_number
unfolding get_bids
get_bids_of_empty s none number e = ground arith
get_bids_of_empty s (some slot) number e = ground (arith, by_slot_of_empty s slot e)

-- Whatever reached the relay since it started, a query's slot makes no difference: the bids found
-- are those of its block number alone, and none without one.
pub get_bids-run :
    (x : External) (signer : BlsSigner) (forks : ForkDatas) (metrics : RelayMetrics)
    (head : HeadSlot) (attr : PayloadAttributes) (builders : List BlsPublicKey)
    (regs : ValidatorRegistrations) (duties : List Validator) (rs : List Request)
    (params : QueryParams)
    → let s = run x signer forks rs (new metrics head attr builders forks regs duties) in
      get_bids s params ≡ found_by_block s params.block_number
unfolding new
get_bids-run x signer forks metrics head attr builders regs duties rs params =
    let s0 = new metrics head attr builders forks regs duties in
    get_bids_of_empty (run x signer forks rs s0) params.slot params.block_number
      (by_slot-run x signer forks rs s0)
