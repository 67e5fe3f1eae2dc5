-- ===== src/Relay/Main/Started.antt =====
-- What `main` of bin/relay/src/main.rs starts the relay with.
use mathlib.Core.Option
use rs_mev_relay.Prelude.{
  ℕ, ◌+◌, ◌≤◌, Option, none, some, some-inj, List, [], ◌∷◌, is_empty, length, map, Result, ok,
  ok-inj, >>=-eq-ok, map_err-eq-ok, ok_or-eq-ok, guard-eq-ok, ok_or, map_err, not, ◌≡◌, ◌≢◌, refl,
  sym, ap, ◌∙◌, arith, subst,
}
use rs_mev_relay.Primitives.Keys.{BlsPublicKey}
use rs_mev_relay.Primitives.Domains.{ForkDatas}
use rs_mev_relay.Primitives.Versions.{ForkVersion}
use rs_mev_relay.Primitives.Events.{BeaconEvent, payload_attribute, head}
use rs_mev_relay.Primitives.External.{External}
use rs_mev_relay.Primitives.Metrics.{RelayMetrics}
use rs_mev_relay.Storage.{InMemoryStorage}
use rs_mev_relay.Beacon.Types.{Report, GetForkResponse}
use rs_mev_relay.Beacon.Stream.{BeaconEventsStream}
use rs_mev_relay.Beacon.Stream
use rs_mev_relay.Beacon.Stream.Merge.{events, payloads, heads, oks, polls-all}
use rs_mev_relay.Service.Poll.{RelayService, Connection, new, polls}
use rs_mev_relay.Cli.{CliArgs, genesis_fork_version, fork_data, enabled_builders}
use rs_mev_relay.Relay.{Request, run}
use rs_mev_relay.Relay.Sound.{IsSound, new-IsSound, run-IsSound}
use rs_mev_relay.Relay.Following.{polls-run}
use rs_mev_relay.Relay.Startup.{
  setup_storage, await_events, started, first_attributes, first_head, both, setup_storage-first,
}
use rs_mev_relay.Relay.Main.{
  Libraries, error, panic, waits, empty_builders, setup_fork_data, or_default, Running, main,
}

-- The first of a list.
abbrev pub first {ℓ} : {A : Type ℓ} → List A → Option A
first [] = none
first (a ∷ rest) = some a

first_attributes-payloads : (es : List BeaconEvent) → first_attributes es ≡ first (payloads es)
unfolding first_attributes payloads
first_attributes-payloads [] = refl
first_attributes-payloads (payload_attribute attr ∷ es) = refl
first_attributes-payloads (head slot ∷ es) = first_attributes-payloads es

first_head-heads : (es : List BeaconEvent) → first_head es ≡ first (heads es)
unfolding first_head heads
first_head-heads [] = refl
first_head-heads (payload_attribute attr ∷ es) = first_head-heads es
first_head-heads (head slot ∷ es) = refl

-- The relay gets its storage from a connection that gives both kinds of events: after as many polls
-- as its two streams have answers, whatever else they answer and in whatever order, the storage is
-- made of the first payload attributes and of the first head that the beacon node sent.
pub setup_storage-polls :
    (metrics : RelayMetrics) (builders : List BlsPublicKey) (forks : ForkDatas) (n : ℕ)
    (stream : BeaconEventsStream)
    → length stream.payload_attributes + length stream.new_head ≤ n
    → setup_storage metrics builders forks (events (Stream.polls n stream).0)
      ≡ Option.map
          (started metrics builders forks)
          (both (first (oks stream.payload_attributes)) (first (oks stream.new_head)))
setup_storage-polls metrics builders forks n stream enough =
    let es = events (Stream.polls n stream).0 in
    let (ps, hs) = polls-all n stream enough in
    let attributes = first_attributes-payloads es ∙ ap first ps in
    let slot = first_head-heads es ∙ ap first hs in
    setup_storage-first metrics builders forks es
    ∙ ap (λ a. Option.map (started metrics builders forks) (both a (first_head es))) attributes
    ∙ ap
        (λ h.
          Option.map (started metrics builders forks)
            (both (first (oks stream.payload_attributes)) h))
        slot

pub map-eq-some {ℓ κ} :
    {A : Type ℓ} {B : Type κ} (f : A → B) (o : Option A) {b : B}
    → Option.map f o ≡ some b
    → (a : A) × (o ≡ some a) × (f a ≡ b)
map-eq-some f none e = cc
map-eq-some f (some a) e = (a, refl, some-inj e)

new-storage :
    (connect : ℕ → Connection) (storage : InMemoryStorage) (slots : ℕ) (service : RelayService)
    → new connect storage slots ≡ some service
    → service.storage ≡ storage
unfolding new
new-storage connect storage slots service e = ground arith

-- A relay that has started: what `main` gives to the servers and to the service.
pub main-eq-ok :
    (x : External) (l : Libraries) (args : CliArgs) (metrics : RelayMetrics)
    (answer : Result Report GetForkResponse) (es : List BeaconEvent) (connect : ℕ → Connection)
    (r : Running)
    → main x l args metrics answer es connect ≡ ok r
    → (version : ForkVersion) × (genesis_fork_version l.hex_decode args ≡ ok version)
      × ((builders : List BlsPublicKey) × (enabled_builders x args ≡ ok builders)
          × (builders ≢ [])
          × (let forks = or_default (setup_fork_data l answer version) (fork_data args) in
              (r.grpc_forks ≡ forks)
              × (r.signer.fork_data ≡ forks)
              × (setup_storage metrics builders forks es ≡ some r.service.storage)))
unfolding main
main-eq-ok x l args metrics answer es connect r e =
    let (version, version_ok, e1) =
      >>=-eq-ok (map_err _ (genesis_fork_version l.hex_decode args)) _ e in
    let (builders, builders_ok, e2) = >>=-eq-ok (map_err panic (enabled_builders x args)) _ e1 in
    let (some_builder, e3) = guard-eq-ok (not (is_empty builders)) (error empty_builders) _ e2 in
    let forks = or_default (setup_fork_data l answer version) (fork_data args) in
    let (storage, storage_ok, e4) =
      >>=-eq-ok (ok_or (setup_storage metrics builders forks es) waits) _ e3 in
    let (client, client_ok, e5) = >>=-eq-ok (map_err _ l.build_client) _ e4 in
    let (service, service_ok, e6) =
      >>=-eq-ok (ok_or (new connect storage args.slots_per_epoch) waits) _ e5 in
    let is = ok-inj e6 in
    let kept =
      new-storage connect storage args.slots_per_epoch service (ok_or-eq-ok _ waits service_ok) in
    (
      version,
      map_err-eq-ok _ (genesis_fork_version l.hex_decode args) version_ok,
      (
        builders,
        map_err-eq-ok panic (enabled_builders x args) builders_ok,
        λ none_there. ground (arith, some_builder),
        (
          sym (ap (λ (run : Running). run.grpc_forks) is),
          sym (ap (λ (run : Running). run.signer.fork_data) is),
          ok_or-eq-ok _ waits storage_ok
              ∙ ap some (sym kept ∙ ap (λ (run : Running). run.service.storage) is),
        ),
      ),
    )

pub setup_storage-IsSound :
    (x : External) (metrics : RelayMetrics) (builders : List BlsPublicKey) (forks : ForkDatas)
    (es : List BeaconEvent) (s : InMemoryStorage)
    → setup_storage metrics builders forks es ≡ some s
    → IsSound x builders forks s
unfolding setup_storage
setup_storage-IsSound x metrics builders forks es s e =
    let ((attr, slot), seen, is) =
      map-eq-some (started metrics builders forks) (await_events none none es) e in
    subst (IsSound x builders forks) is
      (new-IsSound x builders forks metrics (record { slot = slot }) attr [] [])

-- A relay that has started is sound for good: its whitelist is the keys of the arguments and not
-- empty, the gRPC server and the signer have one fork data, and after any number of polls of the
-- service, and any requests and events after them, the storage is sound for that whitelist and that
-- fork data.
pub main-IsSound :
    (x : External) (l : Libraries) (args : CliArgs) (metrics : RelayMetrics)
    (answer : Result Report GetForkResponse) (es : List BeaconEvent) (connect : ℕ → Connection)
    (r : Running) (n : ℕ) (rs : List Request)
    → main x l args metrics answer es connect ≡ ok r
    → (builders : List BlsPublicKey) × (enabled_builders x args ≡ ok builders)
      × (builders ≢ [])
      × (r.signer.fork_data ≡ r.grpc_forks)
      × IsSound x builders r.grpc_forks
          (run x r.signer r.grpc_forks rs (polls n r.service).1.storage)
main-IsSound x l args metrics answer es connect r n rs e =
    let (version, version_ok, (builders, builders_ok, some_builder, (grpc, signer, storage))) =
      main-eq-ok x l args metrics answer es connect r e in
    let at_first =
      setup_storage-IsSound x metrics builders r.grpc_forks es r.service.storage
        (ap (λ forks. setup_storage metrics builders forks es) grpc ∙ storage) in
    let followed =
      run-IsSound x builders r.grpc_forks r.signer (map Request.event (polls n r.service).0)
        r.service.storage at_first in
    let polled =
      subst (IsSound x builders r.grpc_forks) (sym (polls-run x r.signer r.grpc_forks n r.service))
        followed in
    (
      builders,
      builders_ok,
      some_builder,
      signer ∙ sym grpc,
      run-IsSound x builders r.grpc_forks r.signer rs _ polled,
    )
