-- ===== src/Service/Poll.antt =====
-- bin/relay/src/service.rs: the service itself, which the runtime polls.
pub mod Progress
use rs_mev_relay.Prelude.{
  ℕ, zero, suc, Bool, true, false, Option, none, some, List, [], ◌∷◌, Poll, ready, pending,
  next_poll,
}
use mathlib.Core.Option
use rs_mev_relay.Primitives.Events.{BeaconEvent}
use rs_mev_relay.Storage.{InMemoryStorage}
use rs_mev_relay.Beacon.Stream.{BeaconEventsStream, poll_next}
use rs_mev_relay.Service.{on_event, refresh_epochs}

-- The future of a connection in the making, by the answers to its polls.
abbrev pub Connection : Type 0
Connection = List (Poll BeaconEventsStream)

pub data Inner : Type 0 where
  beacon_events : BeaconEventsStream → Inner
  pending_connection : Connection → Inner

-- `beacon_events.stream()` is a new connection at each call; `connections` is the number of calls.
pub record RelayService : Type 0 where
  pub inner : Inner
  pub storage : InMemoryStorage
  pub connect : ℕ → Connection
  pub connections : ℕ
  pub slots_per_epoch : ℕ

-- `await`: the first answer that is ready. There is none if the future never is.
abbrev pub await {ℓ} : {A : Type ℓ} → List (Poll A) → Option A
await [] = none
await (ready a ∷ answers) = some a
await (pending ∷ answers) = await answers

unfoldable pub new : (ℕ → Connection) → InMemoryStorage → ℕ → Option RelayService
new connect storage slots_per_epoch =
    Option.map
      (λ (stream : BeaconEventsStream). record {
        inner = beacon_events stream;
        storage = storage;
        connect = connect;
        connections = 1;
        slots_per_epoch = slots_per_epoch;
      })
      (await (connect 0))

-- What a poll does: its answer, whether it woke the task again, the event that it took, the epochs
-- of the refresh that it spawned, and the service after it.
pub record Polled : Type 0 where
  pub answer : Poll (Unit {0})
  pub woken : Bool
  pub event : Option BeaconEvent
  pub spawned : Option (ℕ × ℕ)
  pub service : RelayService

abbrev pub with_inner : Inner → RelayService → RelayService
with_inner inner s = record s { inner = inner }

-- The arms under `Inner::BeaconEvents`, for a service whose stream was polled.
unfoldable pub on_beacon_events : Poll (Option BeaconEvent) → RelayService → Polled
on_beacon_events (ready (some event)) s =
    let (storage, refreshed) = on_event event s.storage in
    record {
      answer = pending;
      woken = true;
      event = some event;
      spawned = Option.map (refresh_epochs s.slots_per_epoch) refreshed;
      service = record s { storage = storage };
    }
on_beacon_events (ready none) s = record {
  answer = pending;
  woken = true;
  event = none;
  spawned = none;
  service = record s {
    inner = pending_connection (s.connect s.connections);
    connections = suc s.connections;
  };
}
on_beacon_events pending s = record {
  answer = pending;
  woken = false;
  event = none;
  spawned = none;
  service = s;
}

-- The arms under `Inner::PendingConnection`.
unfoldable pub on_pending_connection : Poll BeaconEventsStream → RelayService → Polled
on_pending_connection (ready stream) s = record {
  answer = pending;
  woken = true;
  event = none;
  spawned = none;
  service = with_inner (beacon_events stream) s;
}
on_pending_connection pending s = record {
  answer = pending;
  woken = false;
  event = none;
  spawned = none;
  service = s;
}

unfoldable pub poll : RelayService → Polled
poll s = elim s.inner [
  | beacon_events stream ↦
      let (answer, rest) = poll_next stream in
      on_beacon_events answer (with_inner (beacon_events rest) s)
  | pending_connection c ↦
      let (answer, rest) = next_poll c in
      on_pending_connection answer (with_inner (pending_connection rest) s)
]

abbrev pub with_event : Option BeaconEvent → List BeaconEvent → List BeaconEvent
with_event none events = events
with_event (some event) events = event ∷ events

-- The service after a number of polls, and the events that it took.
unfoldable pub polls : ℕ → RelayService → List BeaconEvent × RelayService
polls zero s = ([], s)
polls (suc n) s =
    let polled = poll s in
    let (events, last) = polls n polled.service in (with_event polled.event events, last)
