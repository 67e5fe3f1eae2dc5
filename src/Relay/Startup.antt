-- ===== src/Relay/Startup.antt =====
-- `setup_storage` of bin/relay/src/main.rs, over the events that the beacon node sends. The events
-- never end for a running node; where they do, the source asks on for ever, which is `none` here.
use mathlib.Core.Option
use rs_mev_relay.Prelude.{ℕ, Option, none, some, List, [], ◌∷◌, ◌≡◌, refl}
use rs_mev_relay.Primitives.Keys.{BlsPublicKey}
use rs_mev_relay.Primitives.Chain.{PayloadAttributes}
use rs_mev_relay.Primitives.Domains.{ForkDatas}
use rs_mev_relay.Primitives.Metrics.{RelayMetrics}
use rs_mev_relay.Storage.{InMemoryStorage, new}
use rs_mev_relay.Primitives.Events.{BeaconEvent, payload_attribute, head}

-- The arms of the loop's `match`: an event is kept if none of its kind was.
unfoldable pub keep_attributes : Option PayloadAttributes → BeaconEvent → Option PayloadAttributes
keep_attributes none (payload_attribute attr) = some attr
keep_attributes none (head slot) = none
keep_attributes (some kept) event = some kept

unfoldable pub keep_head : Option ℕ → BeaconEvent → Option ℕ
keep_head none (head slot) = some slot
keep_head none (payload_attribute attr) = none
keep_head (some kept) event = some kept

unfoldable pub await_events :
    Option PayloadAttributes → Option ℕ → List BeaconEvent → Option (PayloadAttributes × ℕ)
await_events (some attr) (some slot) events = some (attr, slot)
await_events (some attr) none [] = none
await_events none slot [] = none
await_events (some attr) none (e ∷ events) = await_events (some attr) (keep_head none e) events
await_events none slot (e ∷ events) =
    await_events (keep_attributes none e) (keep_head slot e) events

abbrev pub started :
    RelayMetrics → List BlsPublicKey → ForkDatas → PayloadAttributes × ℕ → InMemoryStorage
started metrics builders forks (attr, slot) =
    new metrics (record { slot = slot }) attr builders forks [] []

unfoldable pub setup_storage :
    RelayMetrics → List BlsPublicKey → ForkDatas → List BeaconEvent → Option InMemoryStorage
setup_storage metrics builders forks events =
    Option.map (started metrics builders forks) (await_events none none events)

-- The first payload attributes and the first head of a sequence of events.
unfoldable pub first_attributes : List BeaconEvent → Option PayloadAttributes
first_attributes [] = none
first_attributes (payload_attribute attr ∷ events) = some attr
first_attributes (head slot ∷ events) = first_attributes events

unfoldable pub first_head : List BeaconEvent → Option ℕ
first_head [] = none
first_head (head slot ∷ events) = some slot
first_head (payload_attribute attr ∷ events) = first_head events

-- The kept event, or else the first to come.
abbrev or_first {ℓ} : {A : Type ℓ} → Option A → Option A → Option A
or_first none o = o
or_first (some a) o = some a

-- A pair once both are there.
abbrev pub both {ℓ κ} : {A : Type ℓ} {B : Type κ} → Option A → Option B → Option (A × B)
both (some a) (some b) = some (a, b)
both (some a) none = none
both none o = none

await_events-first :
    (attr : Option PayloadAttributes) (slot : Option ℕ) (events : List BeaconEvent)
    → await_events attr slot events
      ≡ both (or_first attr (first_attributes events)) (or_first slot (first_head events))
unfolding await_events keep_attributes keep_head first_attributes first_head
await_events-first (some a) (some h) events = refl
await_events-first (some a) none [] = refl
await_events-first none none [] = refl
await_events-first none (some h) [] = refl
await_events-first (some a) none (payload_attribute b ∷ events) =
    await_events-first (some a) none events
await_events-first (some a) none (head k ∷ events) = await_events-first (some a) (some k) events
await_events-first none none (payload_attribute b ∷ events) =
    await_events-first (some b) none events
await_events-first none none (head k ∷ events) = await_events-first none (some k) events
await_events-first none (some h) (payload_attribute b ∷ events) =
    await_events-first (some b) (some h) events
await_events-first none (some h) (head k ∷ events) = await_events-first none (some h) events

-- The relay starts with the first payload attributes and the first head that the beacon node sends,
-- in whichever order they come and whatever comes between, and does not start before it has both.
pub setup_storage-first :
    (metrics : RelayMetrics) (builders : List BlsPublicKey) (forks : ForkDatas)
    (events : List BeaconEvent)
    → setup_storage metrics builders forks events
      ≡ Option.map
          (started metrics builders forks)
          (both (first_attributes events) (first_head events))
unfolding setup_storage
setup_storage-first metrics builders forks events = rw (await_events-first none none events) refl
