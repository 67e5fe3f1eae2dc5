-- ===== src/Tests/Submissions.antt =====
-- Submissions of builders.
use rs_mev_relay.Prelude.{
  ℕ, ok, err, some, [], ◌∷◌, ◌≡◌, ◌↔◌, refl, lookup, ℕ_discrete, ite, map, collect, replicate,
}
use rs_mev_relay.Primitives.Keys
use rs_mev_relay.Primitives.Keys.{BlsPublicKey, BlsPublicKey-discrete, serialize}
use rs_mev_relay.Primitives.Payload
use rs_mev_relay.Primitives.Bytes.{B256, B256-discrete, try_b256, try_address, try_u256}
use rs_mev_relay.Primitives.Bids.{to_blinded_block_response, BidSubmission}
use rs_mev_relay.Primitives.Chain.{is_next_slot, validate_bid}
use rs_mev_relay.Primitives.Domains.{compute_builder_domain}
use rs_mev_relay.Primitives.External.{verify_bid_signature}
use rs_mev_relay.Storage.{
  SlotHashKey-discrete, read_best_bid_by_block_number, read_blinded_block_response, new,
  read_best_bid, is_whitelisted_builder, find_duty_by_slot,
}
use rs_mev_relay.Builder.Effects.{key, bid_key, post_bids-reads, with_tables_of}
use rs_mev_relay.Builder.Rejection.{Violates, admit-Violates}
use rs_mev_relay.Grpc.Messages
use rs_mev_relay.Grpc.Convert.{
  try_bid_trace, try_blobs_bundle, try_execution_payload, try_withdrawal,
}
use rs_mev_relay.Grpc.Service.{submit_block, signature_from}
use rs_mev_relay.Grpc.Agreement.{Decodes, submit_block-agrees}
use rs_mev_relay.Grpc.Converted.{
  IsTraceOf, try_bid_trace-eq-ok_iff, kept, sent, collect-try_withdrawal,
}
use rs_mev_relay.Builder.{post_bids, admit, is_bid_higher, zero_bid}
use rs_mev_relay.Builder.Admission.{Admissible, admit-eq-ok_iff}
use rs_mev_relay.Tests.Fixtures.{
  x, start, bid, bid_message, sign_with, builder_domain, duty, builder, proposer, address, pair,
}

pub bid-admitted : admit x start bid ≡ ok duty
unfolding admit is_bid_higher read_best_bid lookup is_whitelisted_builder is_next_slot validate_bid
    find_duty_by_slot verify_bid_signature compute_builder_domain new pair BlsPublicKey-discrete
    ℕ_discrete B256-discrete Keys.Bytes-discrete
bid-admitted = refl

pub bid-Admissible : Admissible x start bid duty
bid-Admissible = (admit-eq-ok_iff x start bid duty).0 bid-admitted

admit-eq-ok_iff_example : (admit x start bid ≡ ok duty) ↔ Admissible x start bid duty
admit-eq-ok_iff_example = admit-eq-ok_iff x start bid duty

abbrev pub higher_bid : BidSubmission
higher_bid = record {
  message = record bid_message { value = record { value = 200 } };
  execution_payload = bid.execution_payload;
  blobs_bundle = bid.blobs_bundle;
  signature = sign_with (5 ∷ []) (record { bytes = 11 ∷ 200 ∷ [] }) builder_domain;
}

pub higher_bid-admitted : admit x start higher_bid ≡ ok duty
unfolding admit is_bid_higher read_best_bid lookup is_whitelisted_builder is_next_slot validate_bid
    find_duty_by_slot verify_bid_signature compute_builder_domain new pair BlsPublicKey-discrete
    ℕ_discrete B256-discrete Keys.Bytes-discrete
higher_bid-admitted = refl

abbrev pub free : BidSubmission
free = record bid { message = record (bid.message) { value = record { value = 0 } } }

free-rejected : admit x start free ≡ err zero_bid
unfolding admit is_bid_higher read_best_bid lookup new
free-rejected = refl

admit-Violates_example : Violates x start free zero_bid
admit-Violates_example = admit-Violates x start free zero_bid free-rejected

pub free-reply : (post_bids x free start).1 ≡ err zero_bid
unfolding post_bids admit is_bid_higher read_best_bid lookup new
free-reply = refl

post_bids-reads_example :
    let t = (post_bids x bid start).0 in
    ((slot : ℕ) (hash : B256) (validator : BlsPublicKey)
      → read_best_bid t slot hash validator
        ≡ ite
            (SlotHashKey-discrete (key slot hash validator) (bid_key bid))
            (some bid)
            (read_best_bid start slot hash validator))
    × ((number : ℕ)
        → read_best_bid_by_block_number t number
          ≡ ite (ℕ_discrete number 71) (some bid) (read_best_bid_by_block_number start number))
    × ((who : BlsPublicKey)
        → read_blinded_block_response t who
          ≡ ite
              (BlsPublicKey-discrete who proposer)
              (some (to_blinded_block_response bid))
              (read_blinded_block_response start who))
    × (with_tables_of start t ≡ start)
post_bids-reads_example = post_bids-reads x bid start duty bid-Admissible

abbrev trace_message : Messages.BidTrace
trace_message = record {
  slot = 11;
  parent_hash = replicate 32 2;
  block_hash = replicate 32 4;
  builder_pubkey = builder.point;
  proposer_pubkey = proposer.point;
  proposer_fee_recipient = replicate 20 2;
  gas_limit = 30;
  gas_used = 21;
  value = "100";
}

abbrev payload_message : Messages.ExecutionPayload
payload_message = record {
  parent_hash = replicate 32 2;
  state_root = replicate 32 5;
  receipts_root = replicate 32 6;
  logs_bloom = [];
  prev_randao = replicate 32 3;
  extra_data = [];
  base_fee_per_gas = replicate 32 0;
  fee_recipient = replicate 20 2;
  block_hash = replicate 32 4;
  transactions = record { raw_data = 1 ∷ 2 ∷ [] } ∷ [];
  withdrawals = [];
  block_number = 71;
  gas_limit = 30;
  timestamp = 5;
  gas_used = 21;
  blob_gas_used = 0;
  excess_blob_gas = 0;
}

abbrev bundle_message : Messages.BlobsBundle
bundle_message = record { commitments = []; proofs = []; blobs = [] }

abbrev request : Messages.SubmitBlockRequest
request = record {
  bid_trace = some trace_message;
  execution_payload = some payload_message;
  signature = serialize bid.signature;
  blobs_bundle = some bundle_message;
}

request-Decodes : Decodes x request bid
unfolding try_bid_trace try_execution_payload try_blobs_bundle signature_from try_b256 try_address
    try_u256 serialize pair
request-Decodes = record {
  trace = trace_message;
  has_trace = refl;
  to_message = refl;
  payload = payload_message;
  has_payload = refl;
  to_payload = refl;
  bundle = bundle_message;
  has_bundle = refl;
  to_bundle = refl;
  to_signature = refl;
}

try_bid_trace-eq-ok_iff_example :
    (try_bid_trace x trace_message ≡ ok bid.message) ↔ IsTraceOf x trace_message bid.message
try_bid_trace-eq-ok_iff_example = try_bid_trace-eq-ok_iff x trace_message bid.message

submit_block-agrees_example :
    ((submit_block x start.inner.fork_data request start).0 ≡ (post_bids x bid start).0)
    × (((submit_block x start.inner.fork_data request start).1
          ≡ ok (record { code = 200; message = "Success" }))
        ↔ ((post_bids x bid start).1 ≡ ok tt))
submit_block-agrees_example = submit_block-agrees x start request bid request-Decodes

abbrev withdrawal_message : Messages.Withdrawal
withdrawal_message = record {
  index = 1;
  validator_index = 77;
  address = replicate 20 2;
  amount = 500;
}

abbrev withdrawal : Payload.Withdrawal
withdrawal = record { index = 1; validator_index = 500; address = address; amount = 500 }

withdrawal-collected : collect try_withdrawal (withdrawal_message ∷ []) ≡ ok (withdrawal ∷ [])
unfolding try_withdrawal try_address
withdrawal-collected = refl

collect-try_withdrawal_example :
    (map kept (withdrawal ∷ []) ≡ map sent (withdrawal_message ∷ []))
    × (map (λ (p : Payload.Withdrawal). p.validator_index) (withdrawal ∷ [])
        ≡ map (λ (w : Messages.Withdrawal). w.amount) (withdrawal_message ∷ []))
collect-try_withdrawal_example =
    collect-try_withdrawal (withdrawal_message ∷ []) (withdrawal ∷ []) withdrawal-collected
