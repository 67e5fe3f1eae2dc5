-- ===== src/Beacon/Stream.antt =====
-- crates/beacon/src/events/stream.rs: two streams of events, merged into one.
pub mod Merge
use Prim.Native.String.{String}
use rs_mev_relay.Prelude.{
  ℕ, zero, suc, Option, none, some, List, [], ◌∷◌, Result, ok, err, Poll, ready, pending, next_poll,
}
use rs_mev_relay.Primitives.Chain.{PayloadAttributes}
use rs_mev_relay.Primitives.Events.{EventStream, BeaconEvent, payload_attribute, head}

pub record BeaconEventsStream : Type 0 where
  pub payload_attributes : EventStream PayloadAttributes
  pub new_head : EventStream ℕ

-- What the first `match` returns, or none where it goes on to the second.
unfoldable pub payload_answer :
    Poll (Option (Result String PayloadAttributes)) → Option (Poll (Option BeaconEvent))
payload_answer (ready (some (ok event))) = some (ready (some (payload_attribute event)))
payload_answer (ready (some (err e))) = some (ready none)
payload_answer (ready none) = none
payload_answer pending = none

unfoldable pub head_answer : Poll (Option (Result String ℕ)) → Poll (Option BeaconEvent)
head_answer (ready (some (ok slot))) = ready (some (head slot))
head_answer (ready (some (err e))) = ready none
head_answer (ready none) = ready none
head_answer pending = pending

unfoldable pub poll_next : BeaconEventsStream → Poll (Option BeaconEvent) × BeaconEventsStream
poll_next s =
    let (payload, payloads) = next_poll s.payload_attributes in
    elim (payload_answer payload) [
      | some returned ↦ (returned, record { payload_attributes = payloads; new_head = s.new_head })
      | none ↦
          let (new, heads) = next_poll s.new_head in
          (head_answer new, record { payload_attributes = payloads; new_head = heads })
    ]

-- The answers to a number of polls, and the stream after them.
unfoldable pub polls :
    ℕ → BeaconEventsStream → List (Poll (Option BeaconEvent)) × BeaconEventsStream
polls zero s = ([], s)
polls (suc n) s =
    let (answer, t) = poll_next s in let (answers, last) = polls n t in (answer ∷ answers, last)
