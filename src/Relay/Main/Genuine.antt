-- ===== src/Relay/Main/Genuine.antt =====
-- A relay that bin/relay/src/main.rs started, its requests overlapping at every access.
use rs_mev_relay.Prelude.{
  ◌≡◌, ◌≢◌, refl, ap, ◌∙◌, sym, ℕ, List, [], All, ok, some, none, Result, subst,
}
use rs_mev_relay.Primitives.Events.{BeaconEvent}
use rs_mev_relay.Primitives.Keys.{BlsPublicKey}
use rs_mev_relay.Primitives.Domains.{ForkDatas}
use rs_mev_relay.Primitives.External.{External}
use rs_mev_relay.Primitives.Metrics.{RelayMetrics}
use rs_mev_relay.Storage.{InMemoryStorage}
use rs_mev_relay.Beacon.Types.{Report, GetForkResponse}
use rs_mev_relay.Service.Poll.{Connection}
use rs_mev_relay.Cli.{CliArgs, enabled_builders}
use rs_mev_relay.Relay.Sound.{IsSound}
use rs_mev_relay.Relay.Registrations.{AllSigned, new-AllSigned}
use rs_mev_relay.Relay.Startup.{await_events, setup_storage, started}
use rs_mev_relay.Relay.Main.{Libraries, Running, main}
use rs_mev_relay.Relay.Main.Started.{main-eq-ok, setup_storage-IsSound, map-eq-some}
use rs_mev_relay.Relay.Locks.Routes.{Config, Reach}
use rs_mev_relay.Relay.Locks.Genuine.{Genuine, interleaved-AllGenuine}
use rs_mev_relay.Relay.Locks.Signed.{interleaved-AllSigned}

setup_storage-AllSigned :
    (x : External) (metrics : RelayMetrics) (builders : List BlsPublicKey) (forks : ForkDatas)
    (es : List BeaconEvent) (s : InMemoryStorage)
    → setup_storage metrics builders forks es ≡ some s
    → AllSigned x forks s
unfolding setup_storage
setup_storage-AllSigned x metrics builders forks es s e =
    let ((attr, slot), seen, is) =
      map-eq-some (started metrics builders forks) (await_events none none es) e in
    subst (AllSigned x forks) is
      (new-AllSigned x forks metrics (record { slot = slot }) attr builders)

-- A relay that `main` has started hands out nothing but accepted bids: its whitelist is the keys of
-- the arguments and not empty, the gRPC server and the signer have one fork data, and however the
-- accesses of requests and events overlap from then on, at each of them the storage is sound for
-- that whitelist and that fork data, registrations and duties are signed by their keys, and every
-- header and payload in a reply is of a bid of positive value, from a builder of the whitelist, with
-- a signature that was verified.
pub main-AllGenuine :
    (x : External) (l : Libraries) (args : CliArgs) (metrics : RelayMetrics)
    (answer : Result Report GetForkResponse) (es : List BeaconEvent) (connect : ℕ → Connection)
    (r : Running) (d : Config)
    → main x l args metrics answer es connect ≡ ok r
    → Reach x r.signer r.grpc_forks
        (record { storage = r.service.storage; running = []; replies = [] })
        d
    → (builders : List BlsPublicKey) × (enabled_builders x args ≡ ok builders)
      × (builders ≢ [])
      × (r.signer.fork_data ≡ r.grpc_forks)
      × IsSound x builders r.grpc_forks d.storage
      × AllSigned x r.grpc_forks d.storage
      × All (Genuine x builders r.grpc_forks r.signer) d.replies
main-AllGenuine x l args metrics answer es connect r d e reached =
    let (_, _, (builders, are, not_empty, (grpc, signer, storage))) =
      main-eq-ok x l args metrics answer es connect r e in
    let made = ap (λ forks. setup_storage metrics builders forks es) grpc ∙ storage in
    let sound = setup_storage-IsSound x metrics builders r.grpc_forks es r.service.storage made in
    let signed =
      setup_storage-AllSigned x metrics builders r.grpc_forks es r.service.storage made in
    let (still_sound, genuine) =
      interleaved-AllGenuine x builders r.grpc_forks r.signer reached refl refl sound in
    (
      builders,
      are,
      not_empty,
      signer ∙ sym grpc,
      still_sound,
      interleaved-AllSigned x r.grpc_forks r.signer reached refl signed,
      genuine,
    )
