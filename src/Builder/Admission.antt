-- ===== src/Builder/Admission.antt =====
-- When a submission of crates/http/src/server/builder_api/post_bids.rs is admitted.
use mathlib.Core.List.{Mem}
use rs_mev_relay.Prelude.{
  ◌+◌, ◌%◌, ◌<◌, true, false, some, ok, ◌≡◌, ◌↔◌, arith, contains_iff, ◌==◌, Option-cases, inl, inr,
}
use rs_mev_relay.Primitives.Keys.{BlsPublicKey-discrete}
use rs_mev_relay.Primitives.Bids.{BidTrace, BidSubmission, gt}
use rs_mev_relay.Primitives.Chain.{is_next_slot, validate_bid, u64_mod}
use rs_mev_relay.Primitives.Registrations.{Validator}
use rs_mev_relay.Primitives.Domains.{compute_builder_domain}
use rs_mev_relay.Primitives.External.{External, verify_bid_signature}
use rs_mev_relay.Storage.{InMemoryStorage, read_best_bid, is_whitelisted_builder, find_duty_by_slot}
use rs_mev_relay.Builder.{admit, is_bid_higher}

-- What the relay requires of a submission, and the duty that it serves.
pub record Admissible (x : External) (s : InMemoryStorage) (b : BidSubmission) (duty : Validator)
    : Type 0 where
  -- strictly above the best bid for the same slot, parent and proposer
  pub higher :
      (best : BidSubmission)
      → read_best_bid s b.message.slot b.message.parent_hash b.message.proposer_pubkey ≡ some best
      → best.message.value.value < b.message.value.value
  pub positive : 0 < b.message.value.value
  pub allowed : Mem b.message.builder_pubkey s.inner.wlist_builders
  pub next : (s.inner.slot.slot + 1) % u64_mod ≡ b.message.slot
  pub proposal : s.inner.payload_attributes.proposal_slot ≡ b.message.slot
  pub randao :
      s.inner.payload_attributes.payload_attributes.prev_randao ≡ b.execution_payload.prev_randao
  pub on_duty : find_duty_by_slot s b.message.slot ≡ some duty
  pub signed :
      verify_bid_signature x b.message b.signature
        (compute_builder_domain x.fork_data_root s.inner.fork_data)
      ≡ true

-- The same, by the tests that the code makes.
abbrev Passes : External → InMemoryStorage → BidSubmission → Validator → Type 0
Passes x s b duty =
    (is_bid_higher s b.message ≡ true)
    × (b.message.value.value == 0 ≡ false)
    × (is_whitelisted_builder s b.message.builder_pubkey ≡ true)
    × (is_next_slot s.inner.slot b.message.slot ≡ true)
    × (validate_bid s.inner.payload_attributes b.message.slot b.execution_payload.prev_randao
        ≡ ok tt)
    × (find_duty_by_slot s b.message.slot ≡ some duty)
    × (verify_bid_signature x b.message b.signature
          (compute_builder_domain x.fork_data_root s.inner.fork_data)
        ≡ true)

admit-Passes :
    (x : External) (s : InMemoryStorage) (b : BidSubmission) (duty : Validator)
    → admit x s b ≡ ok duty
    → Passes x s b duty
unfolding admit
admit-Passes x s b duty h = ground arith

admit_of_Passes :
    (x : External) (s : InMemoryStorage) (b : BidSubmission) (duty : Validator)
    → Passes x s b duty
    → admit x s b ≡ ok duty
unfolding admit
admit_of_Passes x s b duty p = ground arith

pub is_bid_higher-lt :
    (s : InMemoryStorage) (b : BidTrace)
    → is_bid_higher s b ≡ true
    → (best : BidSubmission) → read_best_bid s b.slot b.parent_hash b.proposer_pubkey ≡ some best
    → best.message.value.value < b.value.value
unfolding is_bid_higher gt
is_bid_higher-lt s b h best e = ground arith

is_bid_higher_of_lt :
    (s : InMemoryStorage) (b : BidTrace)
    → ((best : BidSubmission)
        → read_best_bid s b.slot b.parent_hash b.proposer_pubkey ≡ some best
        → best.message.value.value < b.value.value)
    → is_bid_higher s b ≡ true
unfolding is_bid_higher gt
is_bid_higher_of_lt s b h =
    elim (Option-cases (read_best_bid s b.slot b.parent_hash b.proposer_pubkey)) [
      | inl e ↦ rw (e, is_bid_higher)
      | inr (best, e) ↦ let below = h best e in ground arith
    ]

Admissible-of_Passes :
    (x : External) (s : InMemoryStorage) (b : BidSubmission) (duty : Validator)
    → Passes x s b duty
    → Admissible x s b duty
unfolding is_whitelisted_builder is_next_slot validate_bid
Admissible-of_Passes x s b duty p = record {
  higher = is_bid_higher-lt s b.message p.0;
  positive = ground arith;
  allowed =
      (contains_iff BlsPublicKey-discrete s.inner.wlist_builders b.message.builder_pubkey).0 p.2;
  next = ground arith;
  proposal = ground arith;
  randao = ground arith;
  on_duty = p.5;
  signed = p.6;
}

Passes-of_Admissible :
    (x : External) (s : InMemoryStorage) (b : BidSubmission) (duty : Validator)
    → Admissible x s b duty
    → Passes x s b duty
unfolding is_whitelisted_builder is_next_slot validate_bid
Passes-of_Admissible x s b duty a = (
  is_bid_higher_of_lt s b.message a.higher,
  ground arith,
  (contains_iff BlsPublicKey-discrete s.inner.wlist_builders b.message.builder_pubkey).1 a.allowed,
  ground arith,
  ground arith,
  a.on_duty,
  a.signed,
)

-- The checks of a submission pass for a duty exactly when the submission is admissible: it
-- outbids the best bid for its slot, parent and proposer, its value is positive, its builder is
-- whitelisted, its slot is the one after the head and the one of the latest payload attributes,
-- it has their randao, the duty is the one found for its slot, and its signature is verified.
pub admit-eq-ok_iff :
    (x : External) (s : InMemoryStorage) (b : BidSubmission) (duty : Validator)
    → (admit x s b ≡ ok duty) ↔ Admissible x s b duty
admit-eq-ok_iff x s b duty = (
  λ h. Admissible-of_Passes x s b duty (admit-Passes x s b duty h),
  λ a. admit_of_Passes x s b duty (Passes-of_Admissible x s b duty a),
)
