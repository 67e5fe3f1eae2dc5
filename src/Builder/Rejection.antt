-- ===== src/Builder/Rejection.antt =====
-- Why a submission of crates/http/src/server/builder_api/post_bids.rs is rejected.
use Prim.Native.String.{String}
use mathlib.Core.List.{Mem}
use rs_mev_relay.Prelude.{
  ◌+◌, ◌%◌, ◌≤◌, false, some, none, err, ◌≡◌, ◌≢◌, ◌⊎◌, arith, contains_iff, Option-cases, inl, inr,
}
use rs_mev_relay.Primitives.Keys.{BlsPublicKey-discrete}
use rs_mev_relay.Primitives.Bids.{BidTrace, BidSubmission, gt}
use rs_mev_relay.Primitives.Chain.{
  ValidationErrors, slot, prev_randao, is_next_slot, validate_bid, u64_mod,
}
use rs_mev_relay.Primitives.Domains.{compute_builder_domain}
use rs_mev_relay.Primitives.External.{External, verify_bid_signature}
use rs_mev_relay.Storage.{InMemoryStorage, read_best_bid, is_whitelisted_builder, find_duty_by_slot}
use rs_mev_relay.Builder.{
  admit, describe, is_bid_higher, PostBidsError, below_floor, zero_bid, unauthorized_builder,
  past_slot_submission, duty_not_found, invalid_signature, invalid_payload_attrs,
}

-- What is wrong with a submission that is rejected with an error.
unfoldable pub Violates : External → InMemoryStorage → BidSubmission → PostBidsError → Type 0
Violates x s b below_floor =
    (best : BidSubmission) × (read_best_bid s b.message.slot b.message.parent_hash
        b.message.proposer_pubkey
      ≡ some best)
    × (b.message.value.value ≤ best.message.value.value)
Violates x s b zero_bid = b.message.value.value ≡ 0
Violates x s b unauthorized_builder = ¬ (Mem b.message.builder_pubkey s.inner.wlist_builders)
Violates x s b past_slot_submission = (s.inner.slot.slot + 1) % u64_mod ≢ b.message.slot
Violates x s b (invalid_payload_attrs text) =
    let attr = s.inner.payload_attributes in
    (text ≡ "Payload attributes: Invalid slot.") × (attr.proposal_slot ≢ b.message.slot)
    ⊎ (text ≡ "Payload attributes: Invalid prev_randao.")
      × (attr.proposal_slot ≡ b.message.slot)
      × (attr.payload_attributes.prev_randao ≢ b.execution_payload.prev_randao)
Violates x s b duty_not_found = find_duty_by_slot s b.message.slot ≡ none
Violates x s b invalid_signature =
    verify_bid_signature x b.message b.signature
      (compute_builder_domain x.fork_data_root s.inner.fork_data)
    ≡ false

not_higher :
    (s : InMemoryStorage) (b : BidTrace)
    → is_bid_higher s b ≡ false
    → (best : BidSubmission) × (read_best_bid s b.slot b.parent_hash b.proposer_pubkey ≡ some best)
      × (b.value.value ≤ best.message.value.value)
unfolding is_bid_higher gt
not_higher s b h = elim (Option-cases (read_best_bid s b.slot b.parent_hash b.proposer_pubkey)) [
  | inl e ↦ absurd (ground arith)
  | inr (best, e) ↦ (best, e, ground arith)
]

module _ (x : External) (s : InMemoryStorage) (b : BidSubmission) where
  higher_false : admit x s b ≡ err below_floor → is_bid_higher s b.message ≡ false
  unfolding admit
  higher_false h = ground arith

  whitelisted_false :
      admit x s b ≡ err unauthorized_builder
      → is_whitelisted_builder s b.message.builder_pubkey ≡ false
  unfolding admit
  whitelisted_false h = ground arith

  invalid_attributes :
      (text : String)
      → admit x s b ≡ err (invalid_payload_attrs text)
      → (why : ValidationErrors) × (validate_bid s.inner.payload_attributes b.message.slot
            b.execution_payload.prev_randao
          ≡ err why)
        × (text ≡ describe why)
  unfolding admit
  invalid_attributes text h = ground arith

  attributes_violated :
      (text : String) (why : ValidationErrors)
      → validate_bid s.inner.payload_attributes b.message.slot b.execution_payload.prev_randao
        ≡ err why
      → text ≡ describe why
      → Violates x s b (invalid_payload_attrs text)
  unfolding Violates validate_bid describe
  attributes_violated text slot failed told = inl (told, ground arith)
  attributes_violated text prev_randao failed told = inr (told, ground arith, ground arith)

  -- A rejection tells what is wrong: a bid below the floor is not above the best bid for its slot,
  -- parent and proposer, of which there is one; a zero bid has the value 0; the builder of an
  -- unauthorized one is not whitelisted; a past slot is not the one after the head; a text on the
  -- payload attributes that names the slot is of another slot than theirs, and one that names the
  -- randao is of their slot and another randao; where no duty is found, there is none for the slot;
  -- and an invalid signature is not verified.
  pub admit-Violates : (e : PostBidsError) → admit x s b ≡ err e → Violates x s b e
  unfolding Violates admit is_next_slot validate_bid is_whitelisted_builder
  admit-Violates below_floor h = not_higher s b.message (higher_false h)
  admit-Violates zero_bid h = ground arith
  admit-Violates unauthorized_builder h = λ m.
      let there =
        (contains_iff BlsPublicKey-discrete s.inner.wlist_builders b.message.builder_pubkey).1 m in
      let missing = whitelisted_false h in ground arith
  admit-Violates past_slot_submission h = λ e. ground arith
  admit-Violates (invalid_payload_attrs text) h =
      let (why, failed, told) = invalid_attributes text h in
      attributes_violated text why failed told
  admit-Violates duty_not_found h = ground arith
  admit-Violates invalid_signature h = ground arith
