-- ===== src/Http/Errors.antt =====
-- crates/http/src/server/errors.rs: the answers to requests that a route rejected. Texts are code points.
pub mod Statuses
use Prim.Native.String.{String}
use rs_mev_relay.Prelude.{ℕ, Option, none, some, List, [], ◌∷◌, ◌++◌, filter_map, codes, decimal}
use rs_mev_relay.Builder.{
  PostBidsError, below_floor, zero_bid, unauthorized_builder, past_slot_submission, duty_not_found,
  invalid_signature, invalid_payload_attrs,
}
use rs_mev_relay.Proposer.GetHeader.{GetHeaderError}
use rs_mev_relay.Proposer.BlindedBlocks.{PostBlindedBlockErr}

-- `GetBidsError` of crates/http/src/server/data_api/get_bids.rs
pub data GetBidsError : Type 0 where
  missing_query_param : GetBidsError

pub data ApiError : Type 0 where
  get_header : GetHeaderError → ApiError
  post_blinded_block : PostBlindedBlockErr → ApiError
  post_bids : PostBidsError → ApiError
  get_bids : GetBidsError → ApiError

-- The texts of the errors.
unfoldable pub get_header_text : GetHeaderError → List ℕ
get_header_text GetHeaderError.invalid_slot = codes "slot is too old"
get_header_text GetHeaderError.no_bid_found = codes "No bid found"
get_header_text GetHeaderError.unauthorized_get_header = codes "Not authorized to get the header."

unfoldable pub post_blinded_block_text : PostBlindedBlockErr → List ℕ
post_blinded_block_text PostBlindedBlockErr.no_duty_found = codes "No duty found from slot."
post_blinded_block_text (PostBlindedBlockErr.proposer_index_mismatch expected actual) =
    codes "Proposer index mismatch: expected "
    ++ decimal expected
    ++ codes ", got "
    ++ decimal actual
    ++ codes "."
post_blinded_block_text PostBlindedBlockErr.invalid_signature = codes "Invalid signature."
post_blinded_block_text PostBlindedBlockErr.no_block_from_block_hash =
    codes "Could not find blinded block response for block hash."
post_blinded_block_text PostBlindedBlockErr.publish_block = codes "Could not publish block."
post_blinded_block_text PostBlindedBlockErr.unauthorized_submission =
    codes "Not authorized to submit the blinded block."

unfoldable pub post_bids_text : PostBidsError → List ℕ
post_bids_text below_floor = codes "Bid value is below floor."
post_bids_text zero_bid = codes "Bid value 0."
post_bids_text unauthorized_builder = codes "Builder is not allowed to submit bids."
post_bids_text past_slot_submission = codes "Submission is for past slot."
post_bids_text duty_not_found = codes "No duty found from slot."
post_bids_text invalid_signature = codes "Invalid signature."
post_bids_text (invalid_payload_attrs e) =
    codes "Invalid payload attributes: " ++ codes e ++ codes "."

unfoldable pub get_bids_text : GetBidsError → List ℕ
get_bids_text missing_query_param = codes "One of slot or block_number must be provided."

-- `ApiError::to_string`
unfoldable pub text : ApiError → List ℕ
text (ApiError.get_header e) = get_header_text e
text (ApiError.post_blinded_block e) = post_blinded_block_text e
text (ApiError.post_bids e) = post_bids_text e
text (ApiError.get_bids e) = get_bids_text e

-- A rejection of warp: the causes that it holds, in order. A cause that is no error of the relay's
-- routes (a path or a body that fits no route, a refused API key, a failed conversion) is `none`.
abbrev pub Rejection : Type 0
Rejection = List (Option ApiError)

pub record Reply : Type 0 where
  pub status : ℕ
  pub message : List ℕ

-- `err.find::<T>()`: the first cause of the kind that a test picks.
abbrev pub find_cause : (ApiError → Option ApiError) → Rejection → Option ApiError
find_cause pick [] = none
find_cause pick (none ∷ causes) = find_cause pick causes
find_cause pick (some e ∷ causes) = elim (pick e) [
  | none ↦ find_cause pick causes
  | some f ↦ some f
]

abbrev pub is_get_header : ApiError → Option ApiError
is_get_header (ApiError.get_header e) = some (ApiError.get_header e)
is_get_header (ApiError.post_blinded_block e) = none
is_get_header (ApiError.post_bids e) = none
is_get_header (ApiError.get_bids e) = none

abbrev pub is_post_blinded_block : ApiError → Option ApiError
is_post_blinded_block (ApiError.get_header e) = none
is_post_blinded_block (ApiError.post_blinded_block e) = some (ApiError.post_blinded_block e)
is_post_blinded_block (ApiError.post_bids e) = none
is_post_blinded_block (ApiError.get_bids e) = none

abbrev pub is_post_bids : ApiError → Option ApiError
is_post_bids (ApiError.get_header e) = none
is_post_bids (ApiError.post_blinded_block e) = none
is_post_bids (ApiError.post_bids e) = some (ApiError.post_bids e)
is_post_bids (ApiError.get_bids e) = none

abbrev pub is_get_bids : ApiError → Option ApiError
is_get_bids (ApiError.get_header e) = none
is_get_bids (ApiError.post_blinded_block e) = none
is_get_bids (ApiError.post_bids e) = none
is_get_bids (ApiError.get_bids e) = some (ApiError.get_bids e)

abbrev pub bad_request : ApiError → Reply
bad_request e = record { status = 400; message = text e }

-- `debug` is the rejection as warp prints it.
unfoldable pub handle_rejection : (debug : List ℕ) → Rejection → Reply
handle_rejection debug causes = elim (find_cause is_get_header causes) [
  | some e ↦ bad_request e
  | none ↦ elim (find_cause is_post_blinded_block causes) [
    | some e ↦ bad_request e
    | none ↦ elim (find_cause is_post_bids causes) [
      | some e ↦ bad_request e
      | none ↦ elim (find_cause is_get_bids causes) [
        | some e ↦ bad_request e
        | none ↦ record { status = 500; message = codes "Error: " ++ debug }
      ]
    ]
  ]
]
