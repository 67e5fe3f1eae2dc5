-- ===== src/Storage/View.antt =====
-- The abstract storage: finite maps as functions, delivered blocks as a set. The operations of
-- crates/storage/src/in_memory/mod.rs implement it.
use mathlib.Core.Path.{fun_ext}
use rs_mev_relay.Prelude.{
  ℕ, ◌+◌, Bool, true, false, Option, none, some, List, [], ◌∷◌, ◌++◌, lookup, lookup-insert,
  contains, if◌then◌else◌, ite, ℕ_discrete, ◌≡◌, refl, ap, ◌∙◌, arith, ◌||◌,
}
use rs_mev_relay.Primitives.Bytes.{B256, B256-discrete}
use rs_mev_relay.Primitives.Keys.{BlsPublicKey, BlsPublicKey-discrete}
use rs_mev_relay.Primitives.Payload.{BlindedBlockResponse}
use rs_mev_relay.Primitives.Bids.{BidSubmission}
use rs_mev_relay.Primitives.Chain.{HeadSlot, PayloadAttributes}
use rs_mev_relay.Primitives.Registrations.{ValidatorRegistration, Validator}
use rs_mev_relay.Primitives.Domains.{ForkDatas}
use rs_mev_relay.Primitives.Metrics.{RelayMetrics}
use rs_mev_relay.Storage
use rs_mev_relay.Storage.{
  InMemoryStorage, ValidatorRegistrations, new, read_best_bid_by_slot, SlotHashKey,
  SlotHashKey-discrete,
}
use rs_mev_relay.Storage.Ops.{Op, apply, run}

pub record View : Type 0 where
  pub slot : HeadSlot
  pub payload_attributes : PayloadAttributes
  pub duties : List Validator
  pub registration : BlsPublicKey → Option ValidatorRegistration
  pub builders : List BlsPublicKey
  pub best_bid : SlotHashKey → Option BidSubmission
  pub by_slot : ℕ → Option BidSubmission
  pub by_block : ℕ → Option BidSubmission
  pub fork_data : ForkDatas
  pub response : BlsPublicKey → Option BlindedBlockResponse
  pub delivered : B256 → Bool
  pub relayed : ℕ
  pub non_relayed : ℕ
  pub blinded : ℕ

unfoldable pub view : InMemoryStorage → View
view s = record {
  slot = s.inner.slot;
  payload_attributes = s.inner.payload_attributes;
  duties = s.inner.proposer_duties;
  registration = λ k. lookup BlsPublicKey-discrete k s.inner.validator_registrations;
  builders = s.inner.wlist_builders;
  best_bid = λ k. lookup SlotHashKey-discrete k s.inner.best_bid_per_slot;
  by_slot = λ k. lookup ℕ_discrete k s.inner.best_bid_by_slot;
  by_block = λ k. lookup ℕ_discrete k s.inner.best_bid_by_block_number;
  fork_data = s.inner.fork_data;
  response = λ k. lookup BlsPublicKey-discrete k s.inner.blinded_block_resp;
  delivered = contains B256-discrete s.inner.delivered_blocks;
  relayed = s.metrics.relay.relayed_blocks;
  non_relayed = s.metrics.relay.non_relayed_blocks;
  blinded = s.metrics.relay.blinded_blocks;
}

-- A function changed at one key.
abbrev update {ℓ κ} : {K : Type ℓ} {V : Type κ} → Discrete K → K → V → (K → Option V) → K → Option V
update dec k v f j = ite (dec j k) (some v) (f j)

-- A block is counted as relayed exactly when it was delivered before.
abbrev count : B256 → View → View
count hash v =
    if v.delivered hash
    then record v { relayed = v.relayed + 1 }
    else record v { non_relayed = v.non_relayed + 1 }

abbrev key_of : ℕ → BidSubmission → SlotHashKey
key_of slot bid = record {
  slot = slot;
  hash = bid.message.parent_hash;
  validator = bid.message.proposer_pubkey;
}

unfoldable pub step : Op → View → View
step (Op.record_relayed_block hash) v = count hash v
step (Op.set_delivered_blocks hash) v = record v {
  delivered = λ b. v.delivered b || ite (B256-discrete hash b) true false;
  blinded = v.blinded + 1;
}
step (Op.set_head_slot slot) v = record v { slot = slot }
step (Op.set_payload_attributes attr) v = record (count attr.parent_block_hash v) {
  payload_attributes = attr;
}
step (Op.set_validator_registration key reg) v = record v {
  registration = update BlsPublicKey-discrete key reg v.registration;
}
step (Op.set_validator_registrations regs) v = record v {
  registration = λ k. lookup BlsPublicKey-discrete k regs;
}
step (Op.set_proposer_duties duties) v = record v { duties = duties }
step (Op.set_best_bid slot bid) v = record v {
  best_bid = update SlotHashKey-discrete (key_of slot bid) bid v.best_bid;
  by_block = update ℕ_discrete bid.execution_payload.block_number bid v.by_block;
}
step (Op.set_blinded_block_response key resp) v = record v {
  response = update BlsPublicKey-discrete key resp v.response;
}

pub run_view : List Op → View → View
run_view [] v = v
run_view (op ∷ ops) v = run_view ops (step op v)

contains-append :
    (xs : List B256) (a b : B256)
    → contains B256-discrete (xs ++ a ∷ []) b
      ≡ (contains B256-discrete xs b || ite (B256-discrete a b) true false)
contains-append [] a b = ground arith
contains-append (x ∷ xs) a b = ground (arith, contains-append xs a b)

view-apply : (op : Op) (s : InMemoryStorage) → view (apply op s) ≡ step op (view s)
unfolding view apply step Storage.record_relayed_block Storage.set_delivered_blocks
    Storage.set_head_slot Storage.set_payload_attributes Storage.set_validator_registration
    Storage.set_validator_registrations Storage.set_proposer_duties Storage.set_best_bid
    Storage.set_blinded_block_response
view-apply (Op.record_relayed_block hash) s = ground arith
view-apply (Op.set_delivered_blocks hash) s = λ i. record (view s) {
  delivered = fun_ext (contains-append s.inner.delivered_blocks hash) i;
  blinded = s.metrics.relay.blinded_blocks + 1;
}
view-apply (Op.set_head_slot slot) s = refl
view-apply (Op.set_payload_attributes attr) s = ground arith
view-apply (Op.set_validator_registration key reg) s = λ i. record (view s) {
  registration =
      λ k. lookup-insert BlsPublicKey-discrete key k reg s.inner.validator_registrations i;
}
view-apply (Op.set_validator_registrations regs) s = refl
view-apply (Op.set_proposer_duties duties) s = refl
view-apply (Op.set_best_bid slot bid) s =
    let m = s.inner.best_bid_by_block_number in
    let number = bid.execution_payload.block_number in
    λ i. record (view s) {
      best_bid = λ k.
          lookup-insert SlotHashKey-discrete (key_of slot bid) k bid s.inner.best_bid_per_slot i;
      by_block = λ k. lookup-insert ℕ_discrete number k bid m i;
    }
view-apply (Op.set_blinded_block_response key resp) s = λ i. record (view s) {
  response = λ k. lookup-insert BlsPublicKey-discrete key k resp s.inner.blinded_block_resp i;
}

-- Any sequence of storage operations acts on the abstract storage exactly as the abstract
-- operations do: the tables are finite maps that change at the written key only, and a block is
-- counted as relayed exactly when it was delivered before.
pub view-run : (ops : List Op) (s : InMemoryStorage) → view (run ops s) ≡ run_view ops (view s)
unfolding run run_view
view-run [] s = refl
view-run (op ∷ ops) s = view-run ops (apply op s) ∙ ap (run_view ops) (view-apply op s)

by_slot-step : (op : Op) (v : View) → (step op v).by_slot ≡ v.by_slot
unfolding step
by_slot-step (Op.record_relayed_block hash) v = ground arith
by_slot-step (Op.set_payload_attributes attr) v = ground arith
by_slot-step _ v = refl

by_slot-run_view : (ops : List Op) (v : View) → (run_view ops v).by_slot ≡ v.by_slot
unfolding run_view
by_slot-run_view [] v = refl
by_slot-run_view (op ∷ ops) v = by_slot-run_view ops (step op v) ∙ by_slot-step op v

-- No operation writes the table of best bids by slot: whatever a storage goes through after it is
-- created, a read of the best bid by slot finds nothing, for every slot.
pub read_best_bid_by_slot-run-new :
    (metrics : RelayMetrics) (head : HeadSlot) (attr : PayloadAttributes)
    (builders : List BlsPublicKey) (fork_data : ForkDatas) (regs : ValidatorRegistrations)
    (duties : List Validator) (ops : List Op) (slot : ℕ)
    → read_best_bid_by_slot (run ops (new metrics head attr builders fork_data regs duties)) slot
      ≡ none
unfolding read_best_bid_by_slot view new lookup
read_best_bid_by_slot-run-new metrics head attr builders fork_data regs duties ops slot =
    let s = new metrics head attr builders fork_data regs duties in
    ap (λ (v : View). v.by_slot slot) (view-run ops s)
    ∙ ap (λ (f : ℕ → Option BidSubmission). f slot) (by_slot-run_view ops (view s))
