-- ===== src/Grpc/Service.antt =====
-- crates/grpc/src/service/mod.rs: `RelayService`, the gRPC twin of the bid route.
use Prim.Native.String.{String}
use rs_mev_relay.Prelude.{
  Bool, true, false, not, none, some, Result, ok, err, ◌>>=◌, ◌>>◌, guard, ok_or, map_err, ◌==◌,
  if◌then◌else◌,
}
use rs_mev_relay.Primitives.Bytes.{Bytes, ConversionError}
use rs_mev_relay.Primitives.Keys.{BlsPublicKey, BlsSignature, from_point}
use rs_mev_relay.Primitives.Payload.{ExecutionPayload, BlobsBundle}
use rs_mev_relay.Primitives.Bids.{BidTrace, BidSubmission, gt, to_blinded_block_response}
use rs_mev_relay.Primitives.Chain.{is_next_slot, validate_bid}
use rs_mev_relay.Primitives.Registrations.{Validator}
use rs_mev_relay.Primitives.Domains.{ForkDatas, compute_builder_domain}
use rs_mev_relay.Primitives.External.{External, verify_bid_signature}
use rs_mev_relay.Storage.{
  InMemoryStorage, read_head_slot, read_payload_attributes, read_best_bid, is_whitelisted_builder,
  find_duty_by_slot, set_best_bid, set_blinded_block_response,
}
use rs_mev_relay.Builder.{describe}
use rs_mev_relay.Grpc.Messages.{SubmitBlockRequest, SubmitBlockResponse}
use rs_mev_relay.Grpc.Convert.{
  ConvertStop, failed, panicked, try_bid_trace, try_blobs_bundle, try_execution_payload,
}

-- `tonic::Status::invalid_argument`, with a text or with the text of a conversion error, or a panic.
pub data Stop : Type 0 where
  invalid_argument : String → Stop
  invalid_conversion : ConversionError → Stop
  panic : String → Stop

unfoldable pub stop_of : ConvertStop → Stop
stop_of (failed e) = invalid_conversion e
stop_of (panicked msg) = panic msg

unfoldable pub is_bid_higher : InMemoryStorage → BidTrace → Bool
is_bid_higher s bid = elim (read_best_bid s bid.slot bid.parent_hash bid.proposer_pubkey) [
  | none ↦ true
  | some current_best ↦ gt bid current_best.message
]

unfoldable pub validate_bid_and_payload :
    InMemoryStorage → BidTrace → ExecutionPayload → Result Stop Validator
validate_bid_and_payload s bid execution_payload = do
  guard (not (bid.value.value == 0)) (invalid_argument "Block value 0.")
  guard (is_whitelisted_builder s bid.builder_pubkey) (invalid_argument "Invalid builder address.")
  guard (is_next_slot (read_head_slot s) bid.slot) (invalid_argument "Submission for past slot.")
  map_err (λ e. invalid_argument (describe e))
      (validate_bid (read_payload_attributes s) bid.slot execution_payload.prev_randao)
  duty ← ok_or (find_duty_by_slot s bid.slot) (invalid_argument "No duty found.")
  ok duty

unfoldable pub update_best :
    BidTrace
    → ExecutionPayload
    → BlobsBundle
    → BlsSignature
    → BlsPublicKey
    → InMemoryStorage
    → InMemoryStorage
update_best bid exec_payload blobs_bundle signature proposer_key s =
    let submission : BidSubmission = record {
      message = bid;
      execution_payload = exec_payload;
      blobs_bundle = blobs_bundle;
      signature = signature;
    } in
    set_blinded_block_response proposer_key (to_blinded_block_response submission)
      (set_best_bid bid.slot submission s)

-- What `submit_block` comes to: the early reply, or the update.
pub data Decision : Type 0 where
  below_best : Decision
  update : BidTrace → ExecutionPayload → BlobsBundle → BlsSignature → BlsPublicKey → Decision

module _ (x : External) where
  -- `From<Vec<u8>> for BlsSignature` panics on bytes that are no signature.
  unfoldable pub signature_from : Bytes → Result Stop BlsSignature
  unfolding from_point
  signature_from bytes = do
    point ← ok_or (x.read_signature bytes) (panic "Failed to parse signature")
    ok (from_point point false)

-- `fork_data` is the service's own copy.
module _ (x : External) (fork_data : ForkDatas) where
  unfoldable pub verify_signature : BidTrace → BlsSignature → Result Stop (Unit {0})
  verify_signature bid signature =
      guard
        (verify_bid_signature x bid signature (compute_builder_domain x.fork_data_root fork_data))
        (invalid_argument "Invalid signature")

  unfoldable pub decide : InMemoryStorage → SubmitBlockRequest → Result Stop Decision
  decide s req = do
    bid_msg ← ok_or req.bid_trace (invalid_argument "Missing bid")
    payload_msg ← ok_or req.execution_payload (invalid_argument "Missing Execution Payload")
    blobs_msg ← ok_or req.blobs_bundle (invalid_argument "Missing Blobs Bundle")
    bid ← map_err stop_of (try_bid_trace x bid_msg)
    let rest : Result Stop Decision = do
      exec_payload ← map_err invalid_conversion (try_execution_payload x payload_msg)
      duty ← validate_bid_and_payload s bid exec_payload
      signature ← signature_from x req.signature
      verify_signature bid signature
      blobs ← map_err invalid_conversion (try_blobs_bundle x blobs_msg)
      ok (update bid exec_payload blobs signature duty.entry.message.pubkey)
    if not (is_bid_higher s bid) then ok below_best else rest

  unfoldable pub submit_block :
      SubmitBlockRequest → InMemoryStorage → InMemoryStorage × Result Stop SubmitBlockResponse
  submit_block req s = elim (decide s req) [
    | err e ↦ (s, err e)
    | ok below_best ↦ (s, ok (record { code = 400; message = "Bid below best." }))
    | ok (update bid exec_payload blobs signature key) ↦ (
      update_best bid exec_payload blobs signature key s,
      ok (record { code = 200; message = "Success" }),
    )
  ]
