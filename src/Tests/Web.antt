-- ===== src/Tests/Web.antt =====
-- Requests over HTTP, and a relay that starts.
use rs_mev_relay.Prelude.{
  All, none, some, List, [], ◌∷◌, ◌++◌, map, replicate, Result, ok, err, ready, codes, ◌≡◌, ◌≢◌,
  ◌⊎◌, ◌↔◌, refl, Option,
}
use rs_mev_relay.Primitives.Keys.{BlsPublicKey}
use rs_mev_relay.Primitives.Bids.{BidSubmission, to_blinded_block_response}
use rs_mev_relay.Primitives.Blocks.{SignedBeaconBlockContent}
use rs_mev_relay.Primitives.Registrations.{ValidatorRegistration}
use rs_mev_relay.Primitives.Versions.{mainnet, from_str, try_from_chain}
use rs_mev_relay.Primitives.Events.{BeaconEvent, payload_attribute}
use rs_mev_relay.Primitives.Domains.{ForkDatas}
use rs_mev_relay.Storage.{new}
use rs_mev_relay.Builder.{zero_bid}
use rs_mev_relay.Proposer.BlindedBlocks.{deliver}
use rs_mev_relay.Proposer.Validators.{post_validators}
use rs_mev_relay.Beacon.Types.{Report, library_error, GetForkResponse, ssz}
use rs_mev_relay.Beacon.Api.{Response, publish_block, post_request, publish_block_path}
use rs_mev_relay.Beacon.Api.Requests.{publish_block-eq-ok_iff}
use rs_mev_relay.Http.Errors.{ApiError, Rejection, handle_rejection, text, post_bids_text}
use rs_mev_relay.Http.Errors.Statuses.{Holds, handle_rejection-cases}
use rs_mev_relay.Http.Auth.{MbsAuth}
use rs_mev_relay.Http.Registering.{Request, IsLetThrough, ask_known}
use rs_mev_relay.Http.Server.{HttpRequest, status_of, serve}
use rs_mev_relay.Http.Server.Guarded.{serve-post_validators}
use rs_mev_relay.Http.Server
use rs_mev_relay.Http.Server.{HttpReply}
use rs_mev_relay.Http.Server.Answers.{Does, start-cases}
use rs_mev_relay.Cli.{
  grpc_addr, http_addr, secret_key_of, CliArgs, fork_data, enabled_builders, enabled_key,
  genesis_fork_version,
}
use rs_mev_relay.Service.Poll
use rs_mev_relay.Service.Poll.{RelayService, polls, beacon_events}
use rs_mev_relay.Relay
use rs_mev_relay.Relay.{run}
use rs_mev_relay.Relay.Sound.{IsSound}
use rs_mev_relay.Relay.Registrations.{AllSigned}
use rs_mev_relay.Relay.Locks.Routes
use rs_mev_relay.Relay.Locks.Routes.{Reach-run}
use rs_mev_relay.Relay.Locks.Genuine.{Genuine}
use rs_mev_relay.Relay.Main.Genuine.{main-AllGenuine}
use rs_mev_relay.Relay.Startup.{setup_storage, await_events, keep_attributes, keep_head}
use rs_mev_relay.Relay.Main.{Libraries, Running, main, setup_fork_data}
use rs_mev_relay.Relay.System.{Step, Runs, then, http, Runs-IsSound}
use rs_mev_relay.Tests.Fixtures.{
  signer, forks, x, start, bid, metrics, attributes, builder, registration, hash, proposer,
}
use rs_mev_relay.Tests.Proposals.{blinded}
use rs_mev_relay.Tests.Nodes.{node, api, broken}

abbrev content : SignedBeaconBlockContent
content = (deliver blinded (to_blinded_block_response bid)).published

publish_block-eq-ok_iff_example :
    (publish_block broken (codes "http://node/") content ssz ≡ ok tt) ↔ (
      (resp : Response) × (broken.post
          (post_request broken (codes "http://node/") publish_block_path content ssz)
        ≡ ok resp))
publish_block-eq-ok_iff_example = publish_block-eq-ok_iff broken (codes "http://node/") content ssz

abbrev causes : Rejection
causes = none ∷ some (ApiError.post_bids zero_bid) ∷ []

bad_request_run :
    handle_rejection [] causes ≡ record { status = 400; message = codes "Bid value 0." }
unfolding handle_rejection text post_bids_text
bad_request_run = refl

handle_rejection-cases_example :
    ((e : ApiError) × Holds e causes
      × (handle_rejection [] causes ≡ record { status = 400; message = text e }))
    ⊎ (((e : ApiError) → ¬ Holds e causes)
        × (handle_rejection [] causes ≡ record { status = 500; message = codes "Error: " ++ [] }))
handle_rejection-cases_example = handle_rejection-cases [] causes

abbrev auth : MbsAuth
auth = record {
  url = codes "https://auth/";
  post = λ url body. ok (record { status = 200; body = ok body.secret });
  read_user = λ text. ok (record { team_id = "team"; id = text });
}

abbrev request : Request (List ValidatorRegistration)
request = record {
  query = some (record { api_key = "key" });
  content_length = some 700;
  body = some (registration ∷ []);
}

serve-post_validators_example :
    let (t, reply) = serve x signer auth api 5 [] (HttpRequest.post_validators request) start in
    ((regs : List ValidatorRegistration) × IsLetThrough auth request regs
      × (t ≡ post_validators x (map (ask_known api) regs) start)
      × (status_of reply ≡ 200))
    ⊎ (t ≡ start) × (status_of reply ≡ 500)
serve-post_validators_example = serve-post_validators x signer auth api 5 [] request start

abbrev bid_request : Request BidSubmission
bid_request = record { query = none; content_length = some 900; body = some bid }

start-cases_example :
    let (t, reply) =
      Server.start x signer auth api 5 none [] (HttpRequest.post_bids bid_request) start in
    ((answer : HttpReply) × (Path (Option HttpReply) none (some answer))
      × (reply ≡ answer)
      × (t ≡ start))
    ⊎ (Path (Option HttpReply) none none)
      × ((status_of reply ≡ 200)
            × Does x signer auth api 5 forks (HttpRequest.post_bids bid_request) start t
          ⊎ ((status_of reply ≡ 400) ⊎ (status_of reply ≡ 500)) × (t ≡ start))
start-cases_example =
    start-cases x signer auth api 5 forks none [] (HttpRequest.post_bids bid_request) start

abbrev libraries : Libraries
libraries = record {
  hex_decode = λ digits. ok (replicate 4 0);
  hash_from_str = λ text. ok (hash 9);
  build_client = ok tt;
}

abbrev args : CliArgs
args = record {
  mbs_auth_url = codes "https://auth/";
  beacon_url = codes "http://node/";
  grpc_port = 50051;
  http_port = 9063;
  metrics_port = 9090;
  slots_per_epoch = 32;
  white_listed_builders = builder.point ∷ [];
  genesis_fork_version = record { bytes = replicate 4 0 };
  current_fork_version = record { bytes = replicate 4 4 };
  genesis_validators_root = hash 9;
  chain = mainnet;
  bls_secret_key = 8 ∷ [];
}

abbrev no_fork : Result Report GetForkResponse
no_fork = err (library_error "no debug namespace")

abbrev seen : List BeaconEvent
seen = BeaconEvent.head 10 ∷ payload_attribute attributes ∷ []

abbrev forks_of_args : ForkDatas
forks_of_args = fork_data args

abbrev running : Running
running = record {
  grpc_addr = record { ip = replicate 4 0; port = 50051 };
  http_addr = record { ip = replicate 4 0; port = 9063 };
  grpc_forks = forks_of_args;
  signer = record { secret_key = 8 ∷ []; fork_data = forks_of_args };
  service = record {
    inner = beacon_events node;
    storage = new metrics (record { slot = 10 }) attributes (builder ∷ []) forks_of_args [] [];
    connect = λ _. ready node ∷ [];
    connections = 1;
    slots_per_epoch = 32;
  };
}

main-running : main x libraries args metrics no_fork seen (λ _. ready node ∷ []) ≡ ok running
unfolding main grpc_addr http_addr secret_key_of genesis_fork_version try_from_chain from_str
    enabled_builders enabled_key setup_fork_data setup_storage await_events keep_attributes
    keep_head Poll.new
main-running = refl

-- A bid comes in over HTTP, then the service is polled.
abbrev runs :
    Runs x
      (running.signer)
      (running.grpc_forks)
      (running.service)
      (Poll.poll (record (running.service) {
        storage =
            (serve x
              (running.signer)
              auth
              api
              5
              []
              (HttpRequest.post_bids bid_request)
              running.service.storage).0;
      })).service
runs = then (then Runs.start (http auth api 5 [] (HttpRequest.post_bids bid_request))) Step.poll

Runs-IsSound_example :
    (builders : List BlsPublicKey) × (enabled_builders x args ≡ ok builders)
    × (builders ≢ [])
    × (running.signer.fork_data ≡ running.grpc_forks)
    × IsSound x builders running.grpc_forks
        (Poll.poll (record (running.service) {
          storage =
              (serve x
                (running.signer)
                auth
                api
                5
                []
                (HttpRequest.post_bids bid_request)
                running.service.storage).0;
        })).service.storage
Runs-IsSound_example =
    Runs-IsSound x libraries args metrics no_fork seen (λ _. ready node ∷ []) running _ main-running
      runs

-- The requests of a round, at their accesses, in the relay that has just started.
abbrev round : List Relay.Request
round =
    Relay.Request.post_bids bid
    ∷ Relay.Request.get_header 5 11 (hash 2) proposer
    ∷ Relay.Request.post_blinded_blocks 5 blinded
    ∷ []

main-AllGenuine_example :
    let (replies, reached) =
      Reach-run x running.signer running.grpc_forks round running.service.storage [] Routes.here in
    let served = run x running.signer running.grpc_forks round running.service.storage in
    (builders : List BlsPublicKey) × (enabled_builders x args ≡ ok builders)
    × (builders ≢ [])
    × (running.signer.fork_data ≡ running.grpc_forks)
    × IsSound x builders running.grpc_forks served
    × AllSigned x running.grpc_forks served
    × All (Genuine x builders running.grpc_forks running.signer) replies
main-AllGenuine_example =
    main-AllGenuine x libraries args metrics no_fork seen (λ _. ready node ∷ []) running _
      main-running
      (Reach-run x running.signer running.grpc_forks round running.service.storage [] Routes.here).1
