-- ===== src/Grpc/Agreement.antt =====
-- The gRPC route of crates/grpc/src/service/mod.rs and the HTTP route of
-- crates/http/src/server/builder_api/post_bids.rs decide and write the same.
use rs_mev_relay.Prelude.{◌≢◌, Result-cases, inl, inr, ◌≡◌, ◌↔◌, ok, some, arith}
use rs_mev_relay.Primitives.Bids.{BidSubmission}
use rs_mev_relay.Primitives.Domains.{ForkDatas}
use rs_mev_relay.Primitives.External.{External}
use rs_mev_relay.Storage.{InMemoryStorage}
use rs_mev_relay.Builder
use rs_mev_relay.Builder.{admit, accept, post_bids}
use rs_mev_relay.Grpc.Messages
use rs_mev_relay.Grpc.Messages.{SubmitBlockRequest}
use rs_mev_relay.Grpc.Convert.{try_bid_trace, try_blobs_bundle, try_execution_payload}
use rs_mev_relay.Grpc.Service.{
  below_best, update, decide, submit_block, is_bid_higher, validate_bid_and_payload,
  verify_signature, update_best, signature_from,
}

-- The request is of this submission: every part is there, and its conversion gives the part.
pub record Decodes (x : External) (req : SubmitBlockRequest) (b : BidSubmission) : Type 0 where
  pub trace : Messages.BidTrace
  pub has_trace : req.bid_trace ≡ some trace
  pub to_message : try_bid_trace x trace ≡ ok b.message
  pub payload : Messages.ExecutionPayload
  pub has_payload : req.execution_payload ≡ some payload
  pub to_payload : try_execution_payload x payload ≡ ok b.execution_payload
  pub bundle : Messages.BlobsBundle
  pub has_bundle : req.blobs_bundle ≡ some bundle
  pub to_bundle : try_blobs_bundle x bundle ≡ ok b.blobs_bundle
  pub to_signature : signature_from x req.signature ≡ ok b.signature

module _ (x : External) (s : InMemoryStorage) (req : SubmitBlockRequest) (b : BidSubmission)
    (d : Decodes x req b) where
  -- On a request that decodes, the gRPC route writes what the HTTP route writes.
  submit_block-post_bids : (submit_block x s.inner.fork_data req s).0 ≡ (post_bids x b s).0
  unfolding submit_block decide post_bids admit accept is_bid_higher Builder.is_bid_higher
      validate_bid_and_payload verify_signature update_best
  submit_block-post_bids =
      let h0 = d.has_trace in
      let h1 = d.to_message in
      let h2 = d.has_payload in
      let h3 = d.to_payload in
      let h4 = d.has_bundle in let h5 = d.to_bundle in let h6 = d.to_signature in ground arith

  -- It replies success exactly when the HTTP route accepts.
  submit_block-success_iff :
      ((submit_block x s.inner.fork_data req s).1 ≡ ok (record { code = 200; message = "Success" }))
      ↔ ((post_bids x b s).1 ≡ ok tt)
  unfolding submit_block decide post_bids admit is_bid_higher Builder.is_bid_higher
      validate_bid_and_payload verify_signature
  submit_block-success_iff =
      let h0 = d.has_trace in
      let h1 = d.to_message in
      let h2 = d.has_payload in
      let h3 = d.to_payload in
      let h4 = d.has_bundle in let h5 = d.to_bundle in let h6 = d.to_signature in ground arith

  -- The two routes for bids agree: on a request that decodes to a submission, the gRPC route leaves
  -- the storage that the HTTP route leaves for it, and replies success exactly when that accepts.
  pub submit_block-agrees :
      ((submit_block x s.inner.fork_data req s).0 ≡ (post_bids x b s).0)
      × (((submit_block x s.inner.fork_data req s).1
            ≡ ok (record { code = 200; message = "Success" }))
          ↔ ((post_bids x b s).1 ≡ ok tt))
  submit_block-agrees = (submit_block-post_bids, submit_block-success_iff)

-- A request that is not answered with success leaves the storage as it was: a malformed message, a
-- failed check, a bid below the best, a panic of a conversion.
pub submit_block-rejected :
    (x : External) (forks : ForkDatas) (req : SubmitBlockRequest) (s : InMemoryStorage)
    → (submit_block x forks req s).1 ≢ ok (record { code = 200; message = "Success" })
    → (submit_block x forks req s).0 ≡ s
unfolding submit_block
submit_block-rejected x forks req s failed = elim (Result-cases (decide x forks s req)) [
  | inr (_, e) ↦ ground arith
  | inl (below_best, e) ↦ ground arith
  | inl (update bid payload blobs signature k, e) ↦ absurd (failed (ground arith))
]
