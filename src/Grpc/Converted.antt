-- ===== src/Grpc/Converted.antt =====
-- What the conversions of crates/grpc/src/gen/mod.rs accept, and what they keep.
use rs_mev_relay.Prelude.{
  ℕ, ◌≡◌, ◌↔◌, ok, some, arith, length, collect, List, [], ◌∷◌, refl, >>=-eq-ok, ok-inj, sym, map,
}
use rs_mev_relay.Primitives.Bytes.{Bytes, try_b256, try_address}
use rs_mev_relay.Primitives.Payload
use rs_mev_relay.Primitives.Bids
use rs_mev_relay.Primitives.External.{External}
use rs_mev_relay.Grpc.Messages
use rs_mev_relay.Grpc.Convert.{key_from, try_bid_trace, try_withdrawal}

-- The bid trace of the message: hashes of 32 bytes and an address of 20, keys that are points, and
-- a value that is read as a number.
pub record IsTraceOf (x : External) (m : Messages.BidTrace) (b : Bids.BidTrace) : Type 0 where
  pub slot : b.slot ≡ m.slot
  pub parent_hash : (length m.parent_hash ≡ 32) × (b.parent_hash.bytes ≡ m.parent_hash)
  pub block_hash : (length m.block_hash ≡ 32) × (b.block_hash.bytes ≡ m.block_hash)
  pub builder : x.read_public_key m.builder_pubkey ≡ some b.builder_pubkey.point
  pub proposer : x.read_public_key m.proposer_pubkey ≡ some b.proposer_pubkey.point
  pub fee_recipient :
      (length m.proposer_fee_recipient ≡ 20)
      × (b.proposer_fee_recipient.bytes ≡ m.proposer_fee_recipient)
  pub gas : (b.gas_limit ≡ m.gas_limit) × (b.gas_used ≡ m.gas_used)
  pub value : x.u256_from_str m.value ≡ some b.value.value

module _ (x : External) (m : Messages.BidTrace) (b : Bids.BidTrace) where
  -- A message is converted exactly to the bid trace that it spells, and to no other.
  pub try_bid_trace-eq-ok_iff : (try_bid_trace x m ≡ ok b) ↔ IsTraceOf x m b
  unfolding try_bid_trace key_from try_b256 try_address
  try_bid_trace-eq-ok_iff = (
    λ h. record {
      slot = ground arith;
      parent_hash = ground arith;
      block_hash = ground arith;
      builder = ground arith;
      proposer = ground arith;
      fee_recipient = ground arith;
      gas = ground arith;
      value = ground arith;
    },
    λ i.
        let h0 = i.slot in
        let h1 = i.parent_hash in
        let h2 = i.block_hash in
        let h3 = i.builder in
        let h4 = i.proposer in
        let h5 = i.fee_recipient in let h6 = i.gas in let h7 = i.value in ground arith,
  )

abbrev pub kept : Payload.Withdrawal → ℕ × Bytes × ℕ
kept p = (p.index, p.address.bytes, p.amount)

abbrev pub sent : Messages.Withdrawal → ℕ × Bytes × ℕ
sent w = (w.index, w.address, w.amount)

try_withdrawal-fields :
    (w : Messages.Withdrawal) (p : Payload.Withdrawal)
    → try_withdrawal w ≡ ok p
    → (kept p ≡ sent w) × (p.validator_index ≡ w.amount)
unfolding try_withdrawal try_address
try_withdrawal-fields w p h = ground arith

-- Each withdrawal of a list keeps its index, address and amount, but its validator's index is the
-- amount, whatever index was sent.
pub collect-try_withdrawal :
    (ws : List Messages.Withdrawal) (ps : List Payload.Withdrawal)
    → collect try_withdrawal ws ≡ ok ps
    → (map kept ps ≡ map sent ws)
      × (map (λ (p : Payload.Withdrawal). p.validator_index) ps
          ≡ map (λ (w : Messages.Withdrawal). w.amount) ws)
collect-try_withdrawal [] ps h = rw (sym (ok-inj h)) (refl, refl)
collect-try_withdrawal (w ∷ ws) ps h =
    let (p, hp, more) = >>=-eq-ok (try_withdrawal w) _ h in
    let (qs, hqs, done) = >>=-eq-ok (collect try_withdrawal ws) _ more in
    let (kept_rest, index_rest) = collect-try_withdrawal ws qs hqs in
    let (kept_first, index_first) = try_withdrawal-fields w p hp in
    rw (sym (ok-inj done)) (λ i. kept_first i ∷ kept_rest i, λ i. index_first i ∷ index_rest i)
