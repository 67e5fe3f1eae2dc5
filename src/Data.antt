-- ===== src/Data.antt =====
-- crates/http/src/server/data_api/get_bids.rs.
use rs_mev_relay.Prelude.{ℕ, Option, none, some, List, [], ◌∷◌}
use rs_mev_relay.Primitives.Bids.{BidSubmission}
use rs_mev_relay.Storage.{InMemoryStorage, read_best_bid_by_slot, read_best_bid_by_block_number}

pub record QueryParams : Type 0 where
  pub slot : Option ℕ
  pub block_number : Option ℕ

abbrev pub found_by {ℓ} : {A : Type ℓ} → Option ℕ → (ℕ → Option A) → Option A
found_by none read = none
found_by (some k) read = read k

-- GET /relay/v1/data/bidtraces/builder_blocks_received: by the slot, if it is given and finds a bid,
-- else by the block number, else nothing.
unfoldable pub get_bids : InMemoryStorage → QueryParams → List BidSubmission
get_bids s params = elim (found_by params.slot (read_best_bid_by_slot s)) [
  | some bid ↦ bid ∷ []
  | none ↦ elim (found_by params.block_number (read_best_bid_by_block_number s)) [
    | some bid ↦ bid ∷ []
    | none ↦ []
  ]
]
