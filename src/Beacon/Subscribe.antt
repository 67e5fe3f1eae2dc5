-- ===== src/Beacon/Subscribe.antt =====
-- crates/beacon/src/events/mod.rs: subscriptions to the events of the beacon node, retried until
-- they succeed.
pub mod Retries
use Prim.Native.String.{String}
use rs_mev_relay.Prelude.{ℕ, ◌+◌, Option, none, some, List, [], ◌∷◌, ◌++◌, Result, ok, err, codes}
use mathlib.Core.Option
use rs_mev_relay.Primitives.Chain.{PayloadAttributes}
use rs_mev_relay.Primitives.Events.{
  EventStream, BeaconEventTopic, payload_attributes, new_head, as_str,
}
use rs_mev_relay.Beacon.Stream.{BeaconEventsStream}

abbrev pub retry_delay_secs : ℕ
retry_delay_secs = 5

-- What the attempts of `EventClient::subscribe` at an address come to, in turn.
abbrev pub Attempts : Type 0 → Type 0
Attempts T = List (Result String (EventStream T))

-- A subscription, the seconds slept before it, and the attempts that are left.
pub record Subscribed (T : Type 0) : Type 0 where
  pub subscription : EventStream T
  pub slept : ℕ
  pub left : Attempts T

-- The loop, over the attempts: none if all of them fail.
unfoldable pub retry : {T : Type 0} → ℕ → Attempts T → Option (Subscribed T)
retry slept [] = none
retry slept (ok subscription ∷ left) =
    some (record { subscription = subscription; slept = slept; left = left })
retry slept (err e ∷ left) = retry (slept + retry_delay_secs) left

abbrev pub events_url : List ℕ → BeaconEventTopic → List ℕ
events_url url topic = url ++ codes "eth/v1/events?topics=" ++ codes (as_str topic)

-- `BeaconEventsClient`: the node's address, and the attempts at an address, for each type of events.
pub record BeaconEventsClient : Type 0 where
  pub url : List ℕ
  pub attributes_at : List ℕ → Attempts PayloadAttributes
  pub heads_at : List ℕ → Attempts ℕ

unfoldable pub payload_attributes_stream :
    BeaconEventsClient → Option (Subscribed PayloadAttributes)
payload_attributes_stream client =
    retry 0 (client.attributes_at (events_url client.url payload_attributes))

unfoldable pub new_head_stream : BeaconEventsClient → Option (Subscribed ℕ)
new_head_stream client = retry 0 (client.heads_at (events_url client.url new_head))

-- `stream`: both subscriptions, one after the other, and their merged stream.
abbrev pub merge_streams :
    Option (Subscribed PayloadAttributes) → Option (Subscribed ℕ) → Option BeaconEventsStream
merge_streams none heads = none
merge_streams (some attributes) none = none
merge_streams (some attributes) (some heads) =
    some (record { payload_attributes = attributes.subscription; new_head = heads.subscription })

unfoldable pub stream : BeaconEventsClient → Option BeaconEventsStream
stream client = merge_streams (payload_attributes_stream client) (new_head_stream client)
