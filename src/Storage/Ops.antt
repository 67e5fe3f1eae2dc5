-- ===== src/Storage/Ops.antt =====
-- The writing operations of crates/storage/src/in_memory/mod.rs as data, and sequences of them: what
-- the lock lets through, one at a time.
use rs_mev_relay.Prelude.{ℕ, List, [], ◌∷◌}
use rs_mev_relay.Primitives.Bytes.{B256}
use rs_mev_relay.Primitives.Keys.{BlsPublicKey}
use rs_mev_relay.Primitives.Payload.{BlindedBlockResponse}
use rs_mev_relay.Primitives.Bids.{BidSubmission}
use rs_mev_relay.Primitives.Chain.{HeadSlot, PayloadAttributes}
use rs_mev_relay.Primitives.Registrations.{ValidatorRegistration, Validator}
use rs_mev_relay.Storage
use rs_mev_relay.Storage.{InMemoryStorage, ValidatorRegistrations}

pub data Op : Type 0 where
  record_relayed_block set_delivered_blocks : B256 → Op
  set_head_slot : HeadSlot → Op
  set_payload_attributes : PayloadAttributes → Op
  set_validator_registration : BlsPublicKey → ValidatorRegistration → Op
  set_validator_registrations : ValidatorRegistrations → Op
  set_proposer_duties : List Validator → Op
  set_best_bid : ℕ → BidSubmission → Op
  set_blinded_block_response : BlsPublicKey → BlindedBlockResponse → Op

unfoldable pub apply : Op → InMemoryStorage → InMemoryStorage
apply (record_relayed_block hash) = Storage.record_relayed_block hash
apply (set_delivered_blocks hash) = Storage.set_delivered_blocks hash
apply (set_head_slot slot) = Storage.set_head_slot slot
apply (set_payload_attributes attr) = Storage.set_payload_attributes attr
apply (set_validator_registration key reg) = Storage.set_validator_registration key reg
apply (set_validator_registrations regs) = Storage.set_validator_registrations regs
apply (set_proposer_duties duties) = Storage.set_proposer_duties duties
apply (set_best_bid slot bid) = Storage.set_best_bid slot bid
apply (set_blinded_block_response key resp) = Storage.set_blinded_block_response key resp

unfoldable pub run : List Op → InMemoryStorage → InMemoryStorage
run [] s = s
run (op ∷ ops) s = run ops (apply op s)
