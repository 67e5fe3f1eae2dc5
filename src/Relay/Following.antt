-- ===== src/Relay/Following.antt =====
-- The service of bin/relay/src/service.rs as a part of the relay: its polls are steps of it.
use rs_mev_relay.Prelude.{
  ℕ, zero, suc, Option, none, some, List, map, Poll, ready, pending, ◌≡◌, refl, ap, ◌∙◌,
}
use rs_mev_relay.Primitives.Domains.{ForkDatas}
use rs_mev_relay.Primitives.Events.{BeaconEvent}
use rs_mev_relay.Primitives.External.{External}
use rs_mev_relay.Primitives.Signing.{BlsSigner}
use rs_mev_relay.Storage.{InMemoryStorage}
use rs_mev_relay.Beacon.Stream.{BeaconEventsStream}
use rs_mev_relay.Service.{on_event}
use rs_mev_relay.Service.Poll.{
  RelayService, Inner, beacon_events, pending_connection, on_beacon_events, on_pending_connection,
  poll, polls, with_event,
}
use rs_mev_relay.Relay.{Request, handle, run}

abbrev after : Option BeaconEvent → InMemoryStorage → InMemoryStorage
after none s = s
after (some event) s = (on_event event s).0

on_beacon_events-storage :
    (answer : Poll (Option BeaconEvent)) (s : RelayService)
    → let polled = on_beacon_events answer s in
      polled.service.storage ≡ after polled.event s.storage
unfolding on_beacon_events
on_beacon_events-storage (ready (some event)) s = refl
on_beacon_events-storage (ready none) s = refl
on_beacon_events-storage pending s = refl

on_pending_connection-storage :
    (answer : Poll BeaconEventsStream) (s : RelayService)
    → let polled = on_pending_connection answer s in
      polled.service.storage ≡ after polled.event s.storage
unfolding on_pending_connection
on_pending_connection-storage (ready stream) s = refl
on_pending_connection-storage pending s = refl

poll-storage :
    (s : RelayService) (inner : Inner)
    → s.inner ≡ inner
    → (poll s).service.storage ≡ after (poll s).event s.storage
unfolding poll
poll-storage s (beacon_events stream) same = rw same (on_beacon_events-storage _ _)
poll-storage s (pending_connection c) same = rw same (on_pending_connection-storage _ _)

module _ (x : External) (signer : BlsSigner) (forks : ForkDatas) where
  run-after :
      (event : Option BeaconEvent) (rest : List BeaconEvent) (s : InMemoryStorage)
      → run x signer forks (map Request.event rest) (after event s)
        ≡ run x signer forks (map Request.event (with_event event rest)) s
  unfolding run handle
  run-after none rest s = refl
  run-after (some event) rest s = refl

  -- The polls of the service are steps of the relay: after any number of them, over streams that
  -- end and connections that are made anew, the storage is the one after the events that the
  -- service took, each handled once and in order.
  pub polls-run :
      (n : ℕ) (s : RelayService)
      → let (taken, t) = polls n s in
        t.storage ≡ run x signer forks (map Request.event taken) s.storage
  unfolding polls run
  polls-run zero s = refl
  polls-run (suc n) s =
      let polled = poll s in
      let taken = (polls n polled.service).0 in
      polls-run n polled.service
      ∙ ap (run x signer forks (map Request.event taken)) (poll-storage s s.inner refl)
      ∙ run-after polled.event taken s.storage
