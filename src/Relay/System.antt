-- ===== src/Relay/System.antt =====
-- The running relay (bin/relay/src/main.rs): the HTTP server, the gRPC server, the service and its
-- spawned refreshes work on one storage, in any order.
use rs_mev_relay.Prelude.{
  ℕ, Option, List, [], ◌∷◌, map, Result, ok, ◌≡◌, ◌≢◌, inl, inr, refl, sym, subst,
}
use rs_mev_relay.Primitives.Keys.{BlsPublicKey}
use rs_mev_relay.Primitives.Registrations.{ProposerDutiesResponse}
use rs_mev_relay.Primitives.Domains.{ForkDatas}
use rs_mev_relay.Primitives.Events.{BeaconEvent}
use rs_mev_relay.Primitives.External.{External}
use rs_mev_relay.Primitives.Signing.{BlsSigner}
use rs_mev_relay.Primitives.Metrics.{RelayMetrics}
use rs_mev_relay.Storage.{InMemoryStorage}
use rs_mev_relay.Grpc.Messages.{SubmitBlockRequest}
use rs_mev_relay.Beacon.Types.{BeaconApi, Report, GetForkResponse}
use rs_mev_relay.Http.Auth.{MbsAuth}
use rs_mev_relay.Http.Server.{HttpRequest, serve}
use rs_mev_relay.Http.Server.Steps.{serve-cases}
use rs_mev_relay.Service.Poll as Service
use rs_mev_relay.Service.Poll.{RelayService, Connection, polls}
use rs_mev_relay.Cli.{CliArgs, enabled_builders}
use rs_mev_relay.Relay.{Request, handle, run}
use rs_mev_relay.Relay.Sound.{IsSound, run-IsSound}
use rs_mev_relay.Relay.Following.{polls-run}
use rs_mev_relay.Relay.Main.{Libraries, Running, main}
use rs_mev_relay.Relay.Main.Started.{main-IsSound}

-- The service, whose storage is the one that all share.
abbrev with_storage : InMemoryStorage → RelayService → RelayService
with_storage storage s = record (s) { storage = storage }

module _ (x : External) (signer : BlsSigner) (forks : ForkDatas) where
  -- A step: an HTTP request, with what the auth service and the beacon node answer meanwhile and the
  -- time that passes; a gRPC request; a poll of the service; the end of a refresh.
  pub data Step (s : RelayService) : RelayService → Type 0 where
    http :
        (auth : MbsAuth) (api : BeaconApi) (elapsed : ℕ) (debug : List ℕ) (request : HttpRequest)
        → Step s (with_storage (serve x signer auth api elapsed debug request s.storage).0 s)
    grpc :
        (request : SubmitBlockRequest)
        → Step s (with_storage (handle x signer forks (Request.submit_block request) s.storage) s)
    poll : Step s (Service.poll s).service
    refresh :
        (this next : Option ProposerDutiesResponse)
        → Step s (with_storage (handle x signer forks (Request.refresh this next) s.storage) s)

  pub data Runs (s : RelayService) : RelayService → Type 0 where
    start : Runs s s
    then : {t u : RelayService} → Runs s t → Step t u → Runs s u

  run-one :
      (r : Request) (s : InMemoryStorage)
      → run x signer forks (r ∷ []) s ≡ handle x signer forks r s
  unfolding run
  run-one r s = refl

  module _ (builders : List BlsPublicKey) where
    handle-IsSound :
        (r : Request) (s : InMemoryStorage)
        → IsSound x builders forks s
        → IsSound x builders forks (handle x signer forks r s)
    handle-IsSound r s sound =
        subst (IsSound x builders forks) (run-one r s)
          (run-IsSound x builders forks signer (r ∷ []) s sound)

    Step-IsSound :
        {s t : RelayService}
        → Step s t
        → IsSound x builders forks s.storage
        → IsSound x builders forks t.storage
    unfolding polls
    Step-IsSound {s} (http auth api elapsed debug request) sound =
        elim (serve-cases x signer auth api elapsed forks debug request s.storage) [
          | inl (okay, inl same) ↦ subst (IsSound x builders forks) (sym same) sound
          | inl (okay, inr (r, is)) ↦
              subst (IsSound x builders forks) (sym is) (handle-IsSound r s.storage sound)
          | inr (refused, same) ↦ subst (IsSound x builders forks) (sym same) sound
        ]
    Step-IsSound {s} (grpc request) sound =
        handle-IsSound (Request.submit_block request) s.storage sound
    Step-IsSound {s} poll sound =
        subst (IsSound x builders forks) (sym (polls-run x signer forks 1 s))
          (run-IsSound x builders forks signer (map Request.event (polls 1 s).0) s.storage sound)
    Step-IsSound {s} (refresh this next) sound =
        handle-IsSound (Request.refresh this next) s.storage sound

    kept-IsSound :
        {s t : RelayService}
        → Runs s t
        → IsSound x builders forks s.storage
        → IsSound x builders forks t.storage
    kept-IsSound start sound = sound
    kept-IsSound (then runs step) sound = Step-IsSound step (kept-IsSound runs sound)

-- A relay that `main` has started is sound for good: its whitelist is the keys of the arguments and
-- not empty, the gRPC server and the signer have one fork data, and however HTTP requests, gRPC
-- requests, polls of the service, with its reconnections, and refreshes follow each other, the
-- storage is sound for that whitelist and that fork data.
pub Runs-IsSound :
    (x : External) (l : Libraries) (args : CliArgs) (metrics : RelayMetrics)
    (answer : Result Report GetForkResponse) (es : List BeaconEvent) (connect : ℕ → Connection)
    (r : Running) (t : RelayService)
    → main x l args metrics answer es connect ≡ ok r
    → Runs x r.signer r.grpc_forks r.service t
    → (builders : List BlsPublicKey) × (enabled_builders x args ≡ ok builders)
      × (builders ≢ [])
      × (r.signer.fork_data ≡ r.grpc_forks)
      × IsSound x builders r.grpc_forks t.storage
unfolding run polls
Runs-IsSound x l args metrics answer es connect r t e runs =
    let (builders, are, not_empty, same, sound) =
      main-IsSound x l args metrics answer es connect r 0 [] e in
    (builders, are, not_empty, same, kept-IsSound x r.signer r.grpc_forks builders runs sound)
