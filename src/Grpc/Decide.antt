-- ===== src/Grpc/Decide.antt =====
-- When crates/grpc/src/service/mod.rs updates the best bid.
use rs_mev_relay.Prelude.{ok, ◌≡◌, arith, Option-cases, inl, inr}
use rs_mev_relay.Primitives.Keys.{BlsPublicKey}
use rs_mev_relay.Primitives.Bids.{BidSubmission}
use rs_mev_relay.Primitives.Registrations.{Validator}
use rs_mev_relay.Primitives.External.{External}
use rs_mev_relay.Storage.{InMemoryStorage, find_duty_by_slot}
use rs_mev_relay.Builder
use rs_mev_relay.Builder.{admit, accept}
use rs_mev_relay.Grpc.Messages.{SubmitBlockRequest}
use rs_mev_relay.Grpc.Service.{
  decide, update, is_bid_higher, validate_bid_and_payload, verify_signature,
}

-- An update is of a submission that the bid route admits in the same storage.
pub decide-admit :
    (x : External) (s : InMemoryStorage) (req : SubmitBlockRequest) (b : BidSubmission)
    {k : BlsPublicKey}
    → decide x s.inner.fork_data s req
      ≡ ok (update b.message b.execution_payload b.blobs_bundle b.signature k)
    → (duty : Validator) × (admit x s b ≡ ok duty) × (k ≡ duty.entry.message.pubkey)
unfolding decide admit is_bid_higher Builder.is_bid_higher validate_bid_and_payload verify_signature
decide-admit x s req b h = elim (Option-cases (find_duty_by_slot s b.message.slot)) [
  | inl e ↦ ground arith
  | inr (duty, e) ↦ (duty, ground arith, ground arith)
]
