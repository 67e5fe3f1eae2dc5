-- ===== src/Relay/Locks/Accesses.antt =====
-- The operations of crates/storage/src/in_memory/mod.rs that take more than one access: gauges and
-- counters are set outside the lock, and payload attributes take the lock twice.
use rs_mev_relay.Prelude.{[], ◌∷◌, ◌++◌, contains, length, if◌then◌else◌}
use rs_mev_relay.Primitives.Bytes.{B256, B256-discrete}
use rs_mev_relay.Primitives.Chain.{PayloadAttributes}
use rs_mev_relay.Primitives.Metrics.{
  RelayMetrics, on_chain, on_relay, set_proposal_slot, set_block, set_registered_validators,
  inc_blinded_blocks, inc_relayed_blocks, inc_non_relayed_blocks,
}
use rs_mev_relay.Storage.{InMemoryStorage, ValidatorRegistrations, set_inner, set_metrics}
use rs_mev_relay.Relay.Locks.{Program, reads, writes}

-- One gauge or counter.
abbrev pub meter : (RelayMetrics → RelayMetrics) → InMemoryStorage → InMemoryStorage
meter f s = set_metrics s (f s.metrics)

-- The writes under the lock.
abbrev pub push_delivered : B256 → InMemoryStorage → InMemoryStorage
push_delivered hash s =
    set_inner s (record (s.inner) { delivered_blocks = s.inner.delivered_blocks ++ hash ∷ [] })

abbrev pub put_attributes : PayloadAttributes → InMemoryStorage → InMemoryStorage
put_attributes attr s = set_inner s (record (s.inner) { payload_attributes = attr })

abbrev pub put_registrations : ValidatorRegistrations → InMemoryStorage → InMemoryStorage
put_registrations regs s = set_inner s (record (s.inner) { validator_registrations = regs })

-- The counter that a look at the delivered blocks selects.
abbrev pub count_relayed : B256 → InMemoryStorage → InMemoryStorage → InMemoryStorage
count_relayed hash seen = meter (
    on_relay (
      if contains B256-discrete seen.inner.delivered_blocks hash
      then inc_relayed_blocks
      else inc_non_relayed_blocks))

-- Each operation, and what comes after it.
abbrev pub record_relayed_block_steps {ℓ} : {A : Type ℓ} → B256 → Program A → Program A
record_relayed_block_steps hash rest = reads (λ seen. writes (count_relayed hash seen) rest)

abbrev pub set_payload_attributes_steps {ℓ} :
    {A : Type ℓ} → PayloadAttributes → Program A → Program A
set_payload_attributes_steps attr rest =
    writes (meter (on_chain (set_block attr.parent_block_number))) (
      writes (meter (on_chain (set_proposal_slot attr.proposal_slot)))
        (record_relayed_block_steps attr.parent_block_hash (writes (put_attributes attr) rest)))

abbrev pub set_delivered_blocks_steps {ℓ} : {A : Type ℓ} → B256 → Program A → Program A
set_delivered_blocks_steps hash rest =
    writes (meter (on_relay inc_blinded_blocks)) (writes (push_delivered hash) rest)

abbrev pub set_validator_registrations_steps {ℓ} :
    {A : Type ℓ} → ValidatorRegistrations → Program A → Program A
set_validator_registrations_steps regs rest =
    writes (put_registrations regs)
      (writes (meter (on_relay (set_registered_validators (length regs)))) rest)
