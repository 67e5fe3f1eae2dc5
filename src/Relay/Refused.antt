-- ===== src/Relay/Refused.antt =====
-- What a refusal by one of the routes (crates/http/src/server, crates/grpc/src/service/mod.rs) leaves.
use rs_mev_relay.Prelude.{arith, ◌≡◌, ◌≢◌, ok, err, Result-cases, inl, inr}
use rs_mev_relay.Primitives.Domains.{ForkDatas}
use rs_mev_relay.Primitives.External.{External}
use rs_mev_relay.Primitives.Signing.{BlsSigner}
use rs_mev_relay.Storage.{InMemoryStorage}
use rs_mev_relay.Builder.{PostBidsError}
use rs_mev_relay.Builder
use rs_mev_relay.Builder.Effects.{post_bids-rejected}
use rs_mev_relay.Grpc.Service
use rs_mev_relay.Grpc.Agreement.{submit_block-rejected}
use rs_mev_relay.Proposer.GetHeader
use rs_mev_relay.Proposer.GetHeader.{find_header}
use rs_mev_relay.Proposer.BlindedBlocks
use rs_mev_relay.Proposer.BlindedBlocks.{PostBlindedBlockErr}
use rs_mev_relay.Proposer.Unblinding.{post_blinded_blocks-rejected}
use rs_mev_relay.Relay.{
  Request, handle, post_bids, submit_block, get_header, post_blinded_blocks, post_validators, event,
  refresh,
}

module _ (x : External) (signer : BlsSigner) (forks : ForkDatas) (s : InMemoryStorage) where
  -- A request is refused by its route: with an error over HTTP, with anything but success over gRPC.
  abbrev pub Refused : Request → Type 0
  Refused (post_bids b) = (e : PostBidsError) × ((Builder.post_bids x b s).1 ≡ err e)
  Refused (submit_block req) =
      (Service.submit_block x forks req s).1 ≢ ok (record { code = 200; message = "Success" })
  Refused (get_header elapsed slot hash key) =
      (e : GetHeader.Rejection) × ((GetHeader.get_header x signer elapsed slot hash key s).1
        ≡ err e)
  Refused (post_blinded_blocks elapsed b) =
      (e : PostBlindedBlockErr) × ((BlindedBlocks.post_blinded_blocks x elapsed b s).1 ≡ err e)
  Refused (post_validators regs) = ⊥
  Refused (event e) = ⊥
  Refused (refresh this next) = ⊥

  -- A refusal has no effect: a bid that fails a check or is below the best, over HTTP or gRPC, a
  -- malformed message, a header that is not to be had or fails to convert, and a signed blinded
  -- block that entitles to nothing all leave the storage as it was, the metrics included.
  pub handle-Refused : (r : Request) → Refused r → handle x signer forks r s ≡ s
  unfolding handle GetHeader.get_header
  handle-Refused (post_bids b) (e, refused) = post_bids-rejected x b s refused
  handle-Refused (submit_block req) refused = submit_block-rejected x forks req s refused
  handle-Refused (get_header elapsed slot hash key) (e, refused) =
      elim (Result-cases (find_header x signer s slot hash key)) [
        | inl (found, is) ↦ ground arith
        | inr (why, is) ↦ ground arith
      ]
  handle-Refused (post_blinded_blocks elapsed b) (e, refused) =
      post_blinded_blocks-rejected x elapsed s b refused
  handle-Refused (post_validators regs) refused = absurd refused
  handle-Refused (event e) refused = absurd refused
  handle-Refused (refresh this next) refused = absurd refused
