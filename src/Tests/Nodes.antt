-- ===== src/Tests/Nodes.antt =====
-- A beacon node with a few events and answers, and the relay that follows it.
use mathlib.Core.Option
use rs_mev_relay.Prelude.{
  ℕ, none, some, [], ◌∷◌, ◌++◌, map, ok, err, ready, pending, next_poll, codes, ◌≡◌, ◌⊎◌, ◌↔◌, inl,
  inr, refl, arith, false,
}
use rs_mev_relay.Primitives.Chain.{PayloadAttributes}
use rs_mev_relay.Primitives.Events.{BeaconEvent, payload_attribute, payload_attributes, new_head}
use rs_mev_relay.Beacon.Api as Api
use rs_mev_relay.Beacon.Types.{BeaconApi, library_error}
use rs_mev_relay.Beacon.Stream.{BeaconEventsStream, poll_next, payload_answer, head_answer}
use rs_mev_relay.Beacon.Stream
use rs_mev_relay.Beacon.Stream.Merge.{
  events, payloads, heads, oks, Fails, GivesNothing, polls-oks, poll_next-end_iff,
}
use rs_mev_relay.Beacon.Subscribe.{
  BeaconEventsClient, Subscribed, stream, events_url, payload_attributes_stream, new_head_stream,
}
use rs_mev_relay.Beacon.Subscribe.Retries.{IsFirst, stream-eq-some_iff}
use rs_mev_relay.Beacon.Service.{
  BoxedFuture, await_future, receive, broken_send_channel, broken_recv_channel,
}
use rs_mev_relay.Beacon.Service as Commands
use rs_mev_relay.Beacon.Service.Handle
use rs_mev_relay.Beacon.Service.Handle.{ask}
use rs_mev_relay.Beacon.Service.Ops.{apply, call, poll_service, drop, apply_all}
use rs_mev_relay.Beacon.Service.Answers.{receive-call}
use rs_mev_relay.Service.Poll.{RelayService, beacon_events, polls}
use rs_mev_relay.Service.Poll.Progress.{polls-all_events, polls-reconnect}
use rs_mev_relay.Relay.{Request, run}
use rs_mev_relay.Relay.Following.{polls-run}
use rs_mev_relay.Relay.Startup.{setup_storage, started, both}
use rs_mev_relay.Relay.Main.Started.{first, setup_storage-polls}
use rs_mev_relay.Tests.Fixtures.{x, builder, signer, forks, metrics, attributes, proposer, start}

-- A head, then attributes, then the end of the attributes, then a head.
abbrev pub node : BeaconEventsStream
node = record {
  payload_attributes = pending ∷ ready (some (ok attributes)) ∷ ready none ∷ [];
  new_head = ready (some (ok 10)) ∷ ready (some (ok 11)) ∷ pending ∷ [];
}

node-events :
    events (Stream.polls 6 node).0
    ≡ BeaconEvent.head 10 ∷ payload_attribute attributes ∷ BeaconEvent.head 11 ∷ []
unfolding Stream.polls poll_next payload_answer head_answer events
node-events = refl

polls-oks_example :
    (payloads (events (Stream.polls 2 node).0) ++ oks (Stream.polls 2 node).1.payload_attributes
      ≡ oks node.payload_attributes)
    × (heads (events (Stream.polls 2 node).0) ++ oks (Stream.polls 2 node).1.new_head
        ≡ oks node.new_head)
polls-oks_example = polls-oks 2 node

abbrev ended : BeaconEventsStream
ended = record { payload_attributes = ready none ∷ []; new_head = ready (some (err "eof")) ∷ [] }

poll_next-end_iff_example :
    let payload = (next_poll ended.payload_attributes).0 in
    let new = (next_poll ended.new_head).0 in
    ((poll_next ended).0 ≡ ready none)
    ↔ (Fails payload ⊎ GivesNothing payload × (Fails new ⊎ (new ≡ ready none)))
poll_next-end_iff_example = poll_next-end_iff ended

abbrev service : RelayService
service = record {
  inner = beacon_events node;
  storage = start;
  connect = λ _. pending ∷ pending ∷ ready node ∷ [];
  connections = 1;
  slots_per_epoch = 32;
}

polls-all_events_example :
    (payloads (polls 6 service).0 ≡ oks node.payload_attributes)
    × (heads (polls 6 service).0 ≡ oks node.new_head)
polls-all_events_example =
    polls-all_events 6 service node refl
      (
        (λ (e, h). cc, (λ (e, h). cc, (λ (e, h). cc, tt))),
        (
          λ bad. elim bad [ inl (e, h) ↦ cc | inr h ↦ cc ],
          (
            λ bad. elim bad [ inl (e, h) ↦ cc | inr h ↦ cc ],
            (λ bad. elim bad [ inl (e, h) ↦ cc | inr h ↦ cc ], tt),
          ),
        ),
      )
      (omega arith)

abbrev losing : RelayService
losing = record service { inner = beacon_events ended }

polls-reconnect_example :
    let (taken, t) = polls 4 losing in
    (t.inner ≡ beacon_events node) × (taken ≡ []) × (t.storage ≡ start)
unfolding poll_next payload_answer head_answer
polls-reconnect_example = polls-reconnect losing ended 2 node [] refl refl refl

polls-run_example :
    let (taken, t) = polls 9 service in
    t.storage ≡ run x signer forks (map Request.event taken) start
polls-run_example = polls-run x signer forks 9 service

setup_storage-polls_example :
    setup_storage metrics (builder ∷ []) forks (events (Stream.polls 6 node).0)
    ≡ Option.map
        (started metrics (builder ∷ []) forks)
        (both (first (oks node.payload_attributes)) (first (oks node.new_head)))
setup_storage-polls_example = setup_storage-polls metrics (builder ∷ []) forks 6 node (omega arith)

-- A client whose second attempt to get the heads succeeds.
abbrev client : BeaconEventsClient
client = record {
  url = codes "http://node/";
  attributes_at = λ _. ok node.payload_attributes ∷ [];
  heads_at = λ _. err "refused" ∷ ok node.new_head ∷ [];
}

stream-eq-some_iff_example :
    ((stream client ≡ some node) ↔ (
      ((a : Subscribed PayloadAttributes) × (payload_attributes_stream client ≡ some a)
        × (a.subscription ≡ node.payload_attributes))
      × ((h : Subscribed ℕ) × (new_head_stream client ≡ some h)
          × (h.subscription ≡ node.new_head))))
    × ((a : Subscribed PayloadAttributes)
        → (payload_attributes_stream client ≡ some a)
          ↔ IsFirst (client.attributes_at (events_url client.url payload_attributes)) 0 a)
    × ((h : Subscribed ℕ)
        → (new_head_stream client ≡ some h)
          ↔ IsFirst (client.heads_at (events_url client.url new_head)) 0 h)
stream-eq-some_iff_example = stream-eq-some_iff client node

-- An API that publishes and knows no validator.
abbrev pub api : BeaconApi
api = record {
  sync_status = ok (record { status = record { head_slot = 10; is_syncing = false } });
  proposer_duties = λ epoch. ok (record {
    duties = record { slot = epoch; pubkey = proposer.point; validator_index = 3 } ∷ [];
  });
  publish_block = λ block submission_type. ok tt;
  get_fork_data = err (library_error "no debug namespace");
  get_known_validator = λ key. err (library_error "unknown");
}

receive-call_example :
    let c = apply_all (call BoxedFuture.sync_status ∷ []) Commands.new in
    receive api c.next (
      apply_all
        (poll_service ∷ drop ∷ [])
        (apply_all (call (BoxedFuture.proposer_duties 2) ∷ call BoxedFuture.get_fork_data ∷ []) c))
    ≡ ready (ok (BoxedFuture.proposer_duties 2, await_future api (BoxedFuture.proposer_duties 2)))
unfolding apply_all apply ask Handle.get_fork_data Handle.proposer_duties Handle.sync_status
receive-call_example =
    receive-call api (BoxedFuture.proposer_duties 2) (call BoxedFuture.sync_status ∷ [])
      (call BoxedFuture.get_fork_data ∷ []) (drop ∷ []) refl

-- A beacon node that answers every request with an internal error.
abbrev pub broken : Api.Libraries
broken = record {
  get = λ url. err "unused";
  post = λ request. ok (record { status = 500; body = "{}" });
  read_sync_status = λ body. err "no JSON";
  read_duties = λ body. err "no JSON";
  read_fork = λ body. err "no JSON";
  read_validator = λ body. err "no JSON";
  read_error = λ body. err "no JSON";
  as_ssz_bytes = λ block. 1 ∷ [];
  display_key = λ key. key.point;
}
