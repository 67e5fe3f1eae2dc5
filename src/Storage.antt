-- ===== src/Storage.antt =====
-- crates/storage/src/in_memory/mod.rs: the in-memory storage, its state and every operation of the
-- trait `Storage` (crates/storage/src/lib.rs), each as one function on the state. Those that are
-- several accesses (gauges and counters are set outside the lock, and payload attributes take it
-- twice) are taken apart in Relay/Locks/Accesses.
pub mod Ops
pub mod View
use rs_mev_relay.Prelude.{
  ℕ, ◌+◌, Bool, Option, List, [], ◌∷◌, ◌++◌, HashMap, insert, lookup, find, contains, is_empty,
  length, ◌==◌, if◌then◌else◌, ℕ_discrete,
}
use rs_mev_relay.Primitives.Bytes.{B256, B256-discrete}
use rs_mev_relay.Primitives.Keys.{BlsPublicKey, BlsPublicKey-discrete}
use rs_mev_relay.Primitives.Payload.{BlindedBlockResponse}
use rs_mev_relay.Primitives.Bids.{BidSubmission}
use rs_mev_relay.Primitives.Chain.{HeadSlot, PayloadAttributes}
use rs_mev_relay.Primitives.Registrations.{ValidatorRegistration, Validator}
use rs_mev_relay.Primitives.Domains.{ForkDatas}
use rs_mev_relay.Primitives.Metrics.{
  RelayMetrics, on_chain, on_relay, set_proposal_slot, set_block, set_registered_validators,
  inc_blinded_blocks, inc_relayed_blocks, inc_non_relayed_blocks,
}

pub record SlotHashKey : Type 0 where
  pub slot : ℕ
  pub hash : B256
  pub validator : BlsPublicKey

unfoldable pub SlotHashKey-discrete : Discrete SlotHashKey
SlotHashKey-discrete = hlevel ℕ_discrete

abbrev pub ValidatorRegistrations : Type 0
ValidatorRegistrations = HashMap BlsPublicKey ValidatorRegistration

pub record InMemoryStorageInner : Type 0 where
  pub slot : HeadSlot
  pub payload_attributes : PayloadAttributes
  pub proposer_duties : List Validator
  pub validator_registrations : ValidatorRegistrations
  pub wlist_builders : List BlsPublicKey
  pub best_bid_per_slot : HashMap SlotHashKey BidSubmission
  pub best_bid_by_slot : HashMap ℕ BidSubmission
  pub best_bid_by_block_number : HashMap ℕ BidSubmission
  pub fork_data : ForkDatas
  pub blinded_block_resp : HashMap BlsPublicKey BlindedBlockResponse
  pub delivered_blocks : List B256

pub record InMemoryStorage : Type 0 where
  pub inner : InMemoryStorageInner
  pub metrics : RelayMetrics

unfoldable pub new :
    RelayMetrics
    → HeadSlot
    → PayloadAttributes
    → List BlsPublicKey
    → ForkDatas
    → ValidatorRegistrations
    → List Validator
    → InMemoryStorage
new metrics slot payload_attributes wlist_builders fork_data registrations duties = record {
  inner = record {
    slot = slot;
    payload_attributes = payload_attributes;
    proposer_duties = duties;
    validator_registrations = registrations;
    wlist_builders = wlist_builders;
    best_bid_per_slot = [];
    best_bid_by_slot = [];
    best_bid_by_block_number = [];
    fork_data = fork_data;
    blinded_block_resp = [];
    delivered_blocks = [];
  };
  metrics =
      on_chain
        (λ c.
          set_block payload_attributes.parent_block_number
            (set_proposal_slot payload_attributes.proposal_slot c))
        metrics;
}

-- Writes under the lock and to the metrics.
abbrev pub set_inner : InMemoryStorage → InMemoryStorageInner → InMemoryStorage
set_inner s inner = record s { inner = inner }

abbrev pub set_metrics : InMemoryStorage → RelayMetrics → InMemoryStorage
set_metrics s metrics = record s { metrics = metrics }

unfoldable pub record_relayed_block : B256 → InMemoryStorage → InMemoryStorage
record_relayed_block block_hash s =
    if contains B256-discrete s.inner.delivered_blocks block_hash
    then set_metrics s (on_relay inc_relayed_blocks s.metrics)
    else set_metrics s (on_relay inc_non_relayed_blocks s.metrics)

unfoldable pub set_delivered_blocks : B256 → InMemoryStorage → InMemoryStorage
set_delivered_blocks block_hash s = record {
  inner = record (s.inner) { delivered_blocks = s.inner.delivered_blocks ++ block_hash ∷ [] };
  metrics = on_relay inc_blinded_blocks s.metrics;
}

abbrev pub fork_data : InMemoryStorage → ForkDatas
fork_data s = s.inner.fork_data

abbrev pub read_head_slot : InMemoryStorage → HeadSlot
read_head_slot s = s.inner.slot

abbrev pub read_payload_attributes : InMemoryStorage → PayloadAttributes
read_payload_attributes s = s.inner.payload_attributes

abbrev pub read_proposer_duties : InMemoryStorage → List Validator
read_proposer_duties s = s.inner.proposer_duties

unfoldable pub set_head_slot : HeadSlot → InMemoryStorage → InMemoryStorage
set_head_slot slot s = set_inner s (record (s.inner) { slot = slot })

unfoldable pub set_payload_attributes : PayloadAttributes → InMemoryStorage → InMemoryStorage
unfolding record_relayed_block
set_payload_attributes attr s =
    let m =
      on_chain (λ c. set_proposal_slot attr.proposal_slot (set_block attr.parent_block_number c))
        s.metrics in
    let recorded = record_relayed_block attr.parent_block_hash (set_metrics s m) in
    set_inner recorded (record (recorded.inner) { payload_attributes = attr })

unfoldable pub empty_validator_regs : InMemoryStorage → Bool
empty_validator_regs s = is_empty s.inner.validator_registrations

unfoldable pub set_validator_registration :
    BlsPublicKey → ValidatorRegistration → InMemoryStorage → InMemoryStorage
set_validator_registration key registration s = set_inner s (record (s.inner) {
  validator_registrations =
      insert BlsPublicKey-discrete key registration s.inner.validator_registrations;
})

unfoldable pub set_validator_registrations :
    ValidatorRegistrations → InMemoryStorage → InMemoryStorage
set_validator_registrations registrations s = record {
  inner = record (s.inner) { validator_registrations = registrations };
  metrics = on_relay (set_registered_validators (length registrations)) s.metrics;
}

unfoldable pub read_validator_registration :
    InMemoryStorage → BlsPublicKey → Option ValidatorRegistration
read_validator_registration s key = lookup BlsPublicKey-discrete key s.inner.validator_registrations

unfoldable pub set_proposer_duties : List Validator → InMemoryStorage → InMemoryStorage
set_proposer_duties duties s = set_inner s (record (s.inner) { proposer_duties = duties })

unfoldable pub find_duty_by_slot : InMemoryStorage → ℕ → Option Validator
find_duty_by_slot s slot = find (λ duty. duty.slot == slot) s.inner.proposer_duties

unfoldable pub is_whitelisted_builder : InMemoryStorage → BlsPublicKey → Bool
is_whitelisted_builder s key = contains BlsPublicKey-discrete s.inner.wlist_builders key

unfoldable pub set_best_bid : ℕ → BidSubmission → InMemoryStorage → InMemoryStorage
set_best_bid slot bid s =
    let key : SlotHashKey = record {
      slot = slot;
      hash = bid.message.parent_hash;
      validator = bid.message.proposer_pubkey;
    } in
    set_inner s (record (s.inner) {
      best_bid_per_slot = insert SlotHashKey-discrete key bid s.inner.best_bid_per_slot;
      best_bid_by_block_number =
          insert ℕ_discrete bid.execution_payload.block_number bid s.inner.best_bid_by_block_number;
    })

unfoldable pub read_best_bid_by_block_number : InMemoryStorage → ℕ → Option BidSubmission
read_best_bid_by_block_number s block_number =
    lookup ℕ_discrete block_number s.inner.best_bid_by_block_number

unfoldable pub read_best_bid_by_slot : InMemoryStorage → ℕ → Option BidSubmission
read_best_bid_by_slot s slot = lookup ℕ_discrete slot s.inner.best_bid_by_slot

unfoldable pub set_blinded_block_response :
    BlsPublicKey → BlindedBlockResponse → InMemoryStorage → InMemoryStorage
set_blinded_block_response proposer resp s = set_inner s (record (s.inner) {
  blinded_block_resp = insert BlsPublicKey-discrete proposer resp s.inner.blinded_block_resp;
})

unfoldable pub read_blinded_block_response :
    InMemoryStorage → BlsPublicKey → Option BlindedBlockResponse
read_blinded_block_response s proposer =
    lookup BlsPublicKey-discrete proposer s.inner.blinded_block_resp

unfoldable pub read_best_bid : InMemoryStorage → ℕ → B256 → BlsPublicKey → Option BidSubmission
read_best_bid s slot parent_hash validator =
    lookup SlotHashKey-discrete (record { slot = slot; hash = parent_hash; validator = validator })
      s.inner.best_bid_per_slot
