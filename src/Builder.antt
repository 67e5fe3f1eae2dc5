-- ===== src/Builder.antt =====
-- crates/http/src/server/builder_api: the routes of the builders. A handler returns the storage and
-- its reply or rejection.
pub mod Admission
pub mod Effects
pub mod Rejection
use Prim.Native.String.{String}
use rs_mev_relay.Prelude.{
  Bool, true, not, none, some, List, Result, ok, err, ◌>>=◌, ◌>>◌, guard, ok_or, map_err, ◌==◌,
}
use rs_mev_relay.Primitives.Bids.{BidTrace, BidSubmission, gt, to_blinded_block_response}
use rs_mev_relay.Primitives.Chain.{ValidationErrors, slot, prev_randao, is_next_slot, validate_bid}
use rs_mev_relay.Primitives.Registrations.{Validator}
use rs_mev_relay.Primitives.Domains.{compute_builder_domain}
use rs_mev_relay.Primitives.External.{External, verify_bid_signature}
use rs_mev_relay.Storage.{
  InMemoryStorage, fork_data, read_head_slot, read_payload_attributes, read_proposer_duties,
  read_best_bid, is_whitelisted_builder, find_duty_by_slot, set_best_bid,
  set_blinded_block_response,
}

pub data PostBidsError : Type 0 where
  below_floor zero_bid unauthorized_builder past_slot_submission duty_not_found : PostBidsError
  invalid_signature : PostBidsError
  invalid_payload_attrs : String → PostBidsError

-- `ValidationErrors::to_string`
unfoldable pub describe : ValidationErrors → String
describe slot = "Payload attributes: Invalid slot."
describe prev_randao = "Payload attributes: Invalid prev_randao."

unfoldable pub is_bid_higher : InMemoryStorage → BidTrace → Bool
is_bid_higher s bid = elim (read_best_bid s bid.slot bid.parent_hash bid.proposer_pubkey) [
  | none ↦ true
  | some current_best ↦ gt bid current_best.message
]

module _ (x : External) where
  -- The checks of the handler, in its order: the first that fails rejects the submission.
  unfoldable pub admit : InMemoryStorage → BidSubmission → Result PostBidsError Validator
  admit s submission = do
    let bid = submission.message
    guard (is_bid_higher s bid) below_floor
    guard (not (bid.value.value == 0)) zero_bid
    guard (is_whitelisted_builder s bid.builder_pubkey) unauthorized_builder
    guard (is_next_slot (read_head_slot s) bid.slot) past_slot_submission
    map_err (λ e. invalid_payload_attrs (describe e))
        (validate_bid (read_payload_attributes s) bid.slot submission.execution_payload.prev_randao)
    duty ← ok_or (find_duty_by_slot s bid.slot) duty_not_found
    guard
        (verify_bid_signature x bid submission.signature
          (compute_builder_domain x.fork_data_root (fork_data s)))
        invalid_signature
    ok duty

-- The writes of the handler. `BidSubmission::new` builds the submission again from its parts.
unfoldable pub accept : BidSubmission → Validator → InMemoryStorage → InMemoryStorage
accept submission duty s =
    let rebuilt : BidSubmission = record {
      message = submission.message;
      execution_payload = submission.execution_payload;
      blobs_bundle = submission.blobs_bundle;
      signature = submission.signature;
    } in
    set_blinded_block_response duty.entry.message.pubkey (to_blinded_block_response rebuilt)
      (set_best_bid submission.message.slot rebuilt s)

-- POST /relay/v1/builder/blocks
unfoldable pub post_bids :
    External → BidSubmission → InMemoryStorage → InMemoryStorage × Result PostBidsError (Unit {0})
post_bids x submission s = elim (admit x s submission) [
  | err e ↦ (s, err e)
  | ok duty ↦ (accept submission duty s, ok tt)
]

-- GET /relay/v1/builder/validators
unfoldable pub get_validators : InMemoryStorage → List Validator
get_validators s = read_proposer_duties s
