-- ===== src/Service/Poll/Progress.antt =====
-- What the polls of the service of bin/relay/src/service.rs come to.
use Prim.Native.String.{String}
use rs_mev_relay.Prelude.{
  ℕ, zero, suc, ◌+◌, ◌≤◌, false, Option, none, some, List, [], ◌∷◌, ◌++◌, All, length, replicate,
  Result, Poll, ready, pending, next_poll, All-next_poll, Option-cases, ◌≡◌, ◌≢◌, ◌⊎◌, inl, inr,
  refl, ap, ◌∙◌,
}
use rs_mev_relay.Primitives.Chain.{PayloadAttributes}
use rs_mev_relay.Primitives.Events.{BeaconEvent}
use rs_mev_relay.Beacon.Stream.{BeaconEventsStream, payload_answer, poll_next}
use rs_mev_relay.Beacon.Stream
use rs_mev_relay.Beacon.Stream.Merge.{
  Fails, events, payloads, heads, oks, polls-all, poll_next-end_iff,
}
use rs_mev_relay.Service.Poll.{
  with_inner, with_event, Polled, RelayService, Inner, beacon_events, pending_connection,
  Connection, poll, polls, on_beacon_events, on_pending_connection,
}

-- What the service waits for has nothing for it now, and will wake it.
abbrev pub IsWaiting : Inner → Type 0
IsWaiting (beacon_events stream) = (poll_next stream).0 ≡ pending
IsWaiting (pending_connection c) = (next_poll c).0 ≡ pending

on_beacon_events-woken :
    (answer : Poll (Option BeaconEvent)) (s : RelayService)
    → ((on_beacon_events answer s).answer ≡ pending)
      × ((on_beacon_events answer s).woken ≡ false → answer ≡ pending)
unfolding on_beacon_events
on_beacon_events-woken (ready (some event)) s = (refl, λ asleep. cc)
on_beacon_events-woken (ready none) s = (refl, λ asleep. cc)
on_beacon_events-woken pending s = (refl, λ asleep. refl)

on_pending_connection-woken :
    (answer : Poll BeaconEventsStream) (s : RelayService)
    → ((on_pending_connection answer s).answer ≡ pending)
      × ((on_pending_connection answer s).woken ≡ false → answer ≡ pending)
unfolding on_pending_connection
on_pending_connection-woken (ready stream) s = (refl, λ asleep. cc)
on_pending_connection-woken pending s = (refl, λ asleep. refl)

poll-woken :
    (s : RelayService) (inner : Inner)
    → s.inner ≡ inner
    → ((poll s).answer ≡ pending) × ((poll s).woken ≡ false → IsWaiting inner)
unfolding poll
poll-woken s (beacon_events stream) same = rw same (on_beacon_events-woken _ _)
poll-woken s (pending_connection c) same = rw same (on_pending_connection-woken _ _)

-- The service never completes, and never goes to sleep unheard: a poll that does not wake the task
-- again is one where the stream or the connection, which it polled, had nothing to give.
pub poll-IsWaiting :
    (s : RelayService) → ((poll s).answer ≡ pending) × ((poll s).woken ≡ false → IsWaiting s.inner)
poll-IsWaiting s = poll-woken s s.inner refl

-- A stream that goes on: neither of the two fails, and the heads do not end.
abbrev pub PayloadGoesOn : Poll (Option (Result String PayloadAttributes)) → Type 0
PayloadGoesOn a = ¬ Fails a

abbrev pub HeadGoesOn : Poll (Option (Result String ℕ)) → Type 0
HeadGoesOn a = ¬ (Fails a ⊎ (a ≡ ready none))

abbrev pub GoesOn : BeaconEventsStream → Type 0
GoesOn stream = All PayloadGoesOn stream.payload_attributes × All HeadGoesOn stream.new_head

poll_next-rest :
    (stream : BeaconEventsStream)
    → let (answer, t) = poll_next stream in
      (t.payload_attributes ≡ (next_poll stream.payload_attributes).1)
      × ((t.new_head ≡ stream.new_head) ⊎ (t.new_head ≡ (next_poll stream.new_head).1))
unfolding poll_next
poll_next-rest stream =
    elim (Option-cases (payload_answer (next_poll stream.payload_attributes).0)) [
      | inl e ↦ rw (e, poll_next) (refl, inr refl)
      | inr (returned, e) ↦ rw (e, poll_next) (refl, inl refl)
    ]

poll_next-GoesOn :
    (stream : BeaconEventsStream)
    → GoesOn stream
    → ((poll_next stream).0 ≢ ready none) × GoesOn (poll_next stream).1
poll_next-GoesOn stream (ps, hs) =
    let (p, ps_rest) = All-next_poll PayloadGoesOn stream.payload_attributes (λ (e, h). cc) ps in
    let (h, hs_rest) =
      All-next_poll HeadGoesOn stream.new_head (λ bad. elim bad [ inl (e, h) ↦ cc | inr h ↦ cc ])
        hs in
    let (p_tail, h_tail) = poll_next-rest stream in
    (
      λ ended. elim ((poll_next-end_iff stream).0 ended) [
        | inl fails ↦ p fails
        | inr (nothing, over) ↦ h over
      ],
      (rw p_tail ps_rest, elim h_tail [ inl same ↦ rw same hs | inr tail ↦ rw tail hs_rest ]),
    )

on_beacon_events-stays :
    (answer : Poll (Option BeaconEvent)) (rest : List (Poll (Option BeaconEvent)))
    (s : RelayService)
    → answer ≢ ready none
    → let polled = on_beacon_events answer s in
      (with_event polled.event (events rest) ≡ events (answer ∷ rest))
      × (polled.service.inner ≡ s.inner)
unfolding on_beacon_events events
on_beacon_events-stays (ready (some event)) rest s lasts = (refl, refl)
on_beacon_events-stays (ready none) rest s lasts = absurd (lasts refl)
on_beacon_events-stays pending rest s lasts = (refl, refl)

poll-listening :
    (s : RelayService) (stream : BeaconEventsStream)
    → s.inner ≡ beacon_events stream
    → poll s
      ≡ on_beacon_events (poll_next stream).0 (with_inner (beacon_events (poll_next stream).1) s)
unfolding poll
poll-listening s stream same = rw same refl

-- While its stream goes on, the service takes the events of the stream and stays with it.
polls-GoesOn :
    (n : ℕ) (s : RelayService) (stream : BeaconEventsStream)
    → s.inner ≡ beacon_events stream
    → GoesOn stream
    → ((polls n s).0 ≡ events (Stream.polls n stream).0)
      × ((polls n s).1.inner ≡ beacon_events (Stream.polls n stream).1)
unfolding polls Stream.polls events
polls-GoesOn zero s stream same on = (refl, same)
polls-GoesOn (suc n) s stream same on =
    let (lasts, on_rest) = poll_next-GoesOn stream on in
    let (answer, rest) = poll_next stream in
    let next = with_inner (beacon_events rest) s in
    let (event, stays) = on_beacon_events-stays answer (Stream.polls n rest).0 next lasts in
    let (taken, there) = polls-GoesOn n (on_beacon_events answer next).service rest stays on_rest in
    let step = poll-listening s stream same in
    (
      ap (λ (p : Polled). with_event p.event (polls n p.service).0) step
          ∙ ap (with_event (on_beacon_events answer next).event) taken
          ∙ event,
      ap (λ (p : Polled). (polls n p.service).1.inner) step ∙ there,
    )

-- The service gets every event: as long as its stream goes on, then after as many polls as the
-- stream has answers, the payload attributes that the service took are all that the beacon node
-- sent, in order, and so are the heads.
pub polls-all_events :
    (n : ℕ) (s : RelayService) (stream : BeaconEventsStream)
    → s.inner ≡ beacon_events stream
    → GoesOn stream
    → length stream.payload_attributes + length stream.new_head ≤ n
    → (payloads (polls n s).0 ≡ oks stream.payload_attributes)
      × (heads (polls n s).0 ≡ oks stream.new_head)
polls-all_events n s stream same on enough =
    let (taken, stays) = polls-GoesOn n s stream same on in rw taken (polls-all n stream enough)

-- A service that connects, and the same after a poll of its connection.
poll-connecting :
    (s : RelayService) (c : Connection)
    → s.inner ≡ pending_connection c
    → poll s
      ≡ on_pending_connection (next_poll c).0 (with_inner (pending_connection (next_poll c).1) s)
unfolding poll
poll-connecting s c same = rw same refl

polls-connecting :
    (waits : ℕ) (s : RelayService) (later : BeaconEventsStream) (rest : Connection)
    → s.inner ≡ pending_connection (replicate waits pending ++ ready later ∷ rest)
    → let (taken, t) = polls (suc waits) s in
      (t.inner ≡ beacon_events later) × (taken ≡ []) × (t.storage ≡ s.storage)
unfolding polls on_pending_connection
polls-connecting zero s later rest same = rw (poll-connecting s _ same) (refl, refl, refl)
polls-connecting (suc waits) s later rest same =
    let c : Connection = replicate waits pending ++ ready later ∷ rest in
    let (listens, taken, kept) =
      polls-connecting waits (with_inner (pending_connection c) s) later rest refl in
    rw (poll-connecting s _ same) (listens, taken, kept)

poll-ended :
    (s : RelayService) (stream : BeaconEventsStream)
    → s.inner ≡ beacon_events stream
    → (poll_next stream).0 ≡ ready none
    → poll s ≡ on_beacon_events (ready none) (with_inner (beacon_events (poll_next stream).1) s)
poll-ended s stream same ended =
    poll-listening s stream same
    ∙ ap (λ answer. on_beacon_events answer (with_inner (beacon_events (poll_next stream).1) s))
        ended

-- The service reconnects: when its stream ends, and the next connection is made after some waiting,
-- then after two polls more than those that wait, the service listens to the new stream; it took no
-- event meanwhile, and its storage is as it was.
pub polls-reconnect :
    (s : RelayService) (stream : BeaconEventsStream) (waits : ℕ) (later : BeaconEventsStream)
    (rest : Connection)
    → s.inner ≡ beacon_events stream
    → (poll_next stream).0 ≡ ready none
    → s.connect s.connections ≡ replicate waits pending ++ ready later ∷ rest
    → let (taken, t) = polls (suc (suc waits)) s in
      (t.inner ≡ beacon_events later) × (taken ≡ []) × (t.storage ≡ s.storage)
unfolding polls on_beacon_events
polls-reconnect s stream waits later rest same ended made =
    let lost = on_beacon_events (ready none) (with_inner (beacon_events (poll_next stream).1) s) in
    let again = polls-connecting waits lost.service later rest (ap pending_connection made) in
    rw (poll-ended s stream same ended) again
