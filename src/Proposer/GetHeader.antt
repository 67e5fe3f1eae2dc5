-- ===== src/Proposer/GetHeader.antt =====
-- crates/http/src/server/proposer_api/get_header.rs. The elapsed time is an input; it only reaches a
-- gauge.
use rs_mev_relay.Prelude.{
  ℕ, ltb, is_none, if◌then◌else◌, not, Result, ok, err, ◌>>=◌, ◌>>◌, guard, ok_or, map_err, length,
}
use rs_mev_relay.Primitives.Bytes.{B256, ConversionError}
use rs_mev_relay.Primitives.Keys.{BlsPublicKey}
use rs_mev_relay.Primitives.Bids.{BidSubmission}
use rs_mev_relay.Primitives.Chain.{is_next_slot, u64_mod}
use rs_mev_relay.Primitives.Headers.{SignedHeader, Versioned, deneb}
use rs_mev_relay.Primitives.External.{External}
use rs_mev_relay.Primitives.Signing.{BlsSigner, try_signed_header}
use rs_mev_relay.Primitives.Metrics.{
  on_relay, inc_headers, set_header_values, set_tx_count, set_header_latency,
}
use rs_mev_relay.Storage.{
  InMemoryStorage, set_metrics, read_head_slot, read_best_bid, read_validator_registration,
}

pub data GetHeaderError : Type 0 where
  invalid_slot no_bid_found unauthorized_get_header : GetHeaderError

-- A rejection of the route: its own error, or that of the conversion.
pub data Rejection : Type 0 where
  get_header_error : GetHeaderError → Rejection
  conversion : ConversionError → Rejection

-- `header_values` is set only if the value fits a u64.
unfoldable pub count_header : ℕ → BidSubmission → InMemoryStorage → InMemoryStorage
count_header elapsed bid s =
    let value = bid.message.value.value in
    let counted = inc_headers s.metrics.relay in
    let valued = if ltb value u64_mod then set_header_values value counted else counted in
    let sized = set_tx_count (length bid.execution_payload.transactions) valued in
    set_metrics s (on_relay (λ _. set_header_latency elapsed sized) s.metrics)

module _ (x : External) (signer : BlsSigner) where
  -- The checks and the signed header, with the bid that it is of.
  unfoldable pub find_header :
      InMemoryStorage
      → ℕ
      → B256
      → BlsPublicKey
      → Result Rejection (BidSubmission × Versioned SignedHeader)
  find_header s slot parent_hash pubkey = do
    guard (not (is_none (read_validator_registration s pubkey)))
        (get_header_error unauthorized_get_header)
    guard (is_next_slot (read_head_slot s) slot) (get_header_error invalid_slot)
    bid ← ok_or (read_best_bid s slot parent_hash pubkey) (get_header_error no_bid_found)
    header ← map_err conversion (try_signed_header x bid signer)
    ok (bid, record { version = deneb; inner = header })

  -- GET /eth/v1/builder/header/{slot}/{parent_hash}/{pubkey}
  unfoldable pub get_header :
      ℕ
      → ℕ
      → B256
      → BlsPublicKey
      → InMemoryStorage
      → InMemoryStorage × Result Rejection (Versioned SignedHeader)
  get_header elapsed slot parent_hash pubkey s = elim (find_header s slot parent_hash pubkey) [
    | err e ↦ (s, err e)
    | ok (bid, header) ↦ (count_header elapsed bid s, ok header)
  ]
