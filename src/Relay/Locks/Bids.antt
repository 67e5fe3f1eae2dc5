-- ===== src/Relay/Locks/Bids.antt =====
-- The routes of the builders, by HTTP (crates/http/src/server/builder_api/post_bids.rs) and by gRPC
-- (crates/grpc/src/service/mod.rs), as programs of accesses.
use rs_mev_relay.Prelude.{◌≡◌, not, ◌==◌, ok_or, map_err, ok, arith, ◌∙◌, if◌then◌else◌}
use rs_mev_relay.Primitives.Bids.{BidTrace, BidSubmission, to_blinded_block_response}
use rs_mev_relay.Primitives.Chain.{is_next_slot, validate_bid}
use rs_mev_relay.Primitives.Registrations.{Validator}
use rs_mev_relay.Primitives.Domains.{compute_builder_domain}
use rs_mev_relay.Primitives.External.{External, verify_bid_signature}
use rs_mev_relay.Storage.{
  InMemoryStorage, fork_data, read_head_slot, read_payload_attributes, is_whitelisted_builder,
  find_duty_by_slot, set_best_bid, set_blinded_block_response,
}
use rs_mev_relay.Builder
use rs_mev_relay.Builder.{PostBidsError, describe, is_bid_higher, admit, accept}
use rs_mev_relay.Primitives.Payload.{ExecutionPayload}
use rs_mev_relay.Primitives.Domains.{ForkDatas}
use rs_mev_relay.Grpc.Messages
use rs_mev_relay.Grpc.Messages.{SubmitBlockRequest, SubmitBlockResponse}
use rs_mev_relay.Grpc.Convert.{try_bid_trace, try_execution_payload, try_blobs_bundle}
use rs_mev_relay.Grpc.Service
use rs_mev_relay.Grpc.Service.{
  Stop, stop_of, Decision, below_best, validate_bid_and_payload, signature_from, verify_signature,
  decide, update_best, submit_block,
}
use rs_mev_relay.Relay.Locks.{Handler, returns, ◌>>=◌, ◌>>◌, get, put, check, alone, alone-after}

module _ (x : External) (submission : BidSubmission) where
  unfoldable pub admit_steps : Handler PostBidsError Validator
  admit_steps = do
    let bid = submission.message
    higher ← get (λ s. is_bid_higher s bid)
    check higher Builder.below_floor
    check (not (bid.value.value == 0)) Builder.zero_bid
    allowed ← get (λ s. is_whitelisted_builder s bid.builder_pubkey)
    check allowed Builder.unauthorized_builder
    head_slot ← get read_head_slot
    check (is_next_slot head_slot bid.slot) Builder.past_slot_submission
    attrs ← get read_payload_attributes
    returns (
        map_err (λ e. Builder.invalid_payload_attrs (describe e))
          (validate_bid attrs bid.slot submission.execution_payload.prev_randao))
    found ← get (λ s. find_duty_by_slot s bid.slot)
    duty ← returns (ok_or found Builder.duty_not_found)
    forks ← get fork_data
    check
        (verify_bid_signature x bid submission.signature
          (compute_builder_domain x.fork_data_root forks))
        Builder.invalid_signature
    returns (ok duty)

  pub alone-admit_steps : (s : InMemoryStorage) → alone admit_steps s ≡ (s, admit x s submission)
  unfolding ◌>>=◌ alone admit_steps admit
  alone-admit_steps s = ground arith

  -- The two writes take the lock one after the other.
  unfoldable pub accept_steps {ℓ} : {E : Type ℓ} → Validator → Handler E (Unit {0})
  accept_steps duty = do
    let rebuilt : BidSubmission = record {
      message = submission.message;
      execution_payload = submission.execution_payload;
      blobs_bundle = submission.blobs_bundle;
      signature = submission.signature;
    }
    put (set_best_bid submission.message.slot rebuilt)
    put (set_blinded_block_response duty.entry.message.pubkey (to_blinded_block_response rebuilt))

  unfoldable pub post_bids_steps : Handler PostBidsError (Unit {0})
  post_bids_steps = do duty ← admit_steps; accept_steps duty

  -- A submission that nobody disturbs does what the handler does in one piece.
  pub alone-post_bids_steps :
      (s : InMemoryStorage) → alone post_bids_steps s ≡ Builder.post_bids x submission s
  unfolding ◌>>=◌ alone post_bids_steps accept_steps accept Builder.post_bids
  alone-post_bids_steps s =
      alone-after admit_steps accept_steps s s (admit x s submission) (alone-admit_steps s)
      ∙ ground arith

module _ (x : External) (forks : ForkDatas) (req : SubmitBlockRequest) where
  unfoldable pub validate_steps : BidTrace → ExecutionPayload → Handler Stop Validator
  validate_steps bid execution_payload = do
    check (not (bid.value.value == 0)) (Service.invalid_argument "Block value 0.")
    allowed ← get (λ s. is_whitelisted_builder s bid.builder_pubkey)
    check allowed (Service.invalid_argument "Invalid builder address.")
    head_slot ← get read_head_slot
    check (is_next_slot head_slot bid.slot) (Service.invalid_argument "Submission for past slot.")
    attrs ← get read_payload_attributes
    returns (
        map_err (λ e. Service.invalid_argument (describe e))
          (validate_bid attrs bid.slot execution_payload.prev_randao))
    found ← get (λ s. find_duty_by_slot s bid.slot)
    duty ← returns (ok_or found (Service.invalid_argument "No duty found."))
    returns (ok duty)

  alone-validate_steps :
      (bid : BidTrace) (payload : ExecutionPayload) (s : InMemoryStorage)
      → alone (validate_steps bid payload) s ≡ (s, validate_bid_and_payload s bid payload)
  unfolding ◌>>=◌ alone validate_steps validate_bid_and_payload
  alone-validate_steps bid payload s = ground arith

  -- The steps after the comparison with the best bid.
  unfoldable pub update_steps :
      BidTrace → Messages.ExecutionPayload → Messages.BlobsBundle → Handler Stop Decision
  update_steps bid payload_msg blobs_msg = do
    exec_payload ←
        returns (map_err Service.invalid_conversion (try_execution_payload x payload_msg))
    duty ← validate_steps bid exec_payload
    signature ← returns (signature_from x req.signature)
    returns (verify_signature x forks bid signature)
    blobs ← returns (map_err Service.invalid_conversion (try_blobs_bundle x blobs_msg))
    returns (ok (Service.update bid exec_payload blobs signature duty.entry.message.pubkey))

  unfoldable pub decide_steps : Handler Stop Decision
  decide_steps = do
    bid_msg ← returns (ok_or req.bid_trace (Service.invalid_argument "Missing bid"))
    payload_msg ←
        returns (ok_or req.execution_payload (Service.invalid_argument "Missing Execution Payload"))
    blobs_msg ← returns (ok_or req.blobs_bundle (Service.invalid_argument "Missing Blobs Bundle"))
    bid ← returns (map_err stop_of (try_bid_trace x bid_msg))
    higher ← get (λ s. Service.is_bid_higher s bid)
    if not higher then returns (ok below_best) else update_steps bid payload_msg blobs_msg

  alone-decide_steps : (s : InMemoryStorage) → alone decide_steps s ≡ (s, decide x forks s req)
  unfolding ◌>>=◌ alone decide_steps update_steps decide validate_steps validate_bid_and_payload
  alone-decide_steps s = ground arith

  unfoldable pub reply_steps : Decision → Handler Stop SubmitBlockResponse
  reply_steps below_best = returns (ok (record { code = 400; message = "Bid below best." }))
  reply_steps (Service.update bid exec_payload blobs_bundle signature proposer_key) = do
    let submission : BidSubmission = record {
      message = bid;
      execution_payload = exec_payload;
      blobs_bundle = blobs_bundle;
      signature = signature;
    }
    put (set_best_bid bid.slot submission)
    put (set_blinded_block_response proposer_key (to_blinded_block_response submission))
    returns (ok (record { code = 200; message = "Success" }))

  unfoldable pub submit_block_steps : Handler Stop SubmitBlockResponse
  submit_block_steps = do decision ← decide_steps; reply_steps decision

  pub alone-submit_block_steps :
      (s : InMemoryStorage) → alone submit_block_steps s ≡ submit_block x forks req s
  unfolding ◌>>=◌ alone submit_block_steps reply_steps submit_block update_best
  alone-submit_block_steps s =
      alone-after decide_steps reply_steps s s (decide x forks s req) (alone-decide_steps s)
      ∙ ground arith
