-- ===== src/Primitives/Events.antt =====
-- crates/primitives/src/beacon/events.rs: the events of the beacon node, with the parts that are read.
use Prim.Native.String.{String}
use rs_mev_relay.Prelude.{ℕ, Option, List, Result, Poll}
use rs_mev_relay.Primitives.Chain.{PayloadAttributes}

-- A stream of events, by the answers to its polls.
abbrev pub EventStream : Type 0 → Type 0
EventStream T = List (Poll (Option (Result String T)))

pub data BeaconEvent : Type 0 where
  payload_attribute : PayloadAttributes → BeaconEvent
  head : ℕ → BeaconEvent

pub data BeaconEventTopic : Type 0 where
  payload_attributes : BeaconEventTopic
  new_head : BeaconEventTopic
  new_block : BeaconEventTopic

unfoldable pub as_str : BeaconEventTopic → String
as_str payload_attributes = "payload_attributes"
as_str new_head = "head"
as_str new_block = "block"
