-- ===== src/Primitives/Metrics.antt =====
-- crates/primitives/src/metrics/mod.rs: the gauges and counters of the relay. The handles all stand
-- for the same global recorder; a gauge is kept as the integer that it is set to.
use rs_mev_relay.Prelude.{ℕ, ◌+◌}

pub record Chain : Type 0 where
  pub proposal_slot : ℕ
  pub block : ℕ

abbrev pub set_proposal_slot : ℕ → Chain → Chain
set_proposal_slot slot c = record c { proposal_slot = slot }

abbrev pub set_block : ℕ → Chain → Chain
set_block block c = record c { block = block }

pub record Relay : Type 0 where
  pub registered_validators : ℕ
  pub known_validators : ℕ
  pub headers : ℕ
  pub blinded_blocks : ℕ
  pub header_values : ℕ
  pub relayed_blocks : ℕ
  pub non_relayed_blocks : ℕ
  pub tx_count : ℕ
  pub blinded_block_latency : ℕ
  pub header_latency : ℕ

abbrev pub set_blinded_block_latency : ℕ → Relay → Relay
set_blinded_block_latency latency r = record r { blinded_block_latency = latency }

abbrev pub set_header_latency : ℕ → Relay → Relay
set_header_latency latency r = record r { header_latency = latency }

abbrev pub set_registered_validators : ℕ → Relay → Relay
set_registered_validators count r = record r { registered_validators = count }

abbrev set_known_validators : ℕ → Relay → Relay
set_known_validators count r = record r { known_validators = count }

abbrev pub inc_headers : Relay → Relay
inc_headers r = record r { headers = r.headers + 1 }

abbrev pub set_header_values : ℕ → Relay → Relay
set_header_values value r = record r { header_values = value }

abbrev pub set_tx_count : ℕ → Relay → Relay
set_tx_count count r = record r { tx_count = count }

abbrev pub inc_blinded_blocks : Relay → Relay
inc_blinded_blocks r = record r { blinded_blocks = r.blinded_blocks + 1 }

abbrev pub inc_relayed_blocks : Relay → Relay
inc_relayed_blocks r = record r { relayed_blocks = r.relayed_blocks + 1 }

abbrev pub inc_non_relayed_blocks : Relay → Relay
inc_non_relayed_blocks r = record r { non_relayed_blocks = r.non_relayed_blocks + 1 }

pub record RelayMetrics : Type 0 where
  pub chain : Chain
  pub relay : Relay

-- A change of one part.
abbrev pub on_chain : (Chain → Chain) → RelayMetrics → RelayMetrics
on_chain f m = record m { chain = f m.chain }

abbrev pub on_relay : (Relay → Relay) → RelayMetrics → RelayMetrics
on_relay f m = record m { relay = f m.relay }
