-- ===== src/Http/Server.antt =====
-- crates/http/src/server: all routes of the server, each with its filters, its handler and the answer
-- to a rejection. How warp takes a request apart by its path comes in with the request.
pub mod Steps
pub mod Guarded
pub mod Answers
use rs_mev_relay.Prelude.{
  ℕ, ◌*◌, Option, none, some, List, [], ◌∷◌, map, Result, ok, err, ◌>>=◌, codes,
}
use rs_mev_relay.Primitives.Bytes.{B256}
use rs_mev_relay.Primitives.Keys.{BlsPublicKey}
use rs_mev_relay.Primitives.Payload.{BlindedBlockResponse}
use rs_mev_relay.Primitives.Bids.{BidSubmission}
use rs_mev_relay.Primitives.Registrations.{ValidatorRegistration, Validator}
use rs_mev_relay.Primitives.Blocks.{SignedBlindedBlock}
use rs_mev_relay.Primitives.Headers.{SignedHeader, Versioned}
use rs_mev_relay.Primitives.External.{External}
use rs_mev_relay.Primitives.Signing.{BlsSigner}
use rs_mev_relay.Storage.{InMemoryStorage}
use rs_mev_relay.Builder
use rs_mev_relay.Builder.{PostBidsError}
use rs_mev_relay.Data as Bids
use rs_mev_relay.Data.{QueryParams}
use rs_mev_relay.Proposer.GetHeader
use rs_mev_relay.Proposer.BlindedBlocks
use rs_mev_relay.Proposer.BlindedBlocks.{PostBlindedBlockErr, Delivery}
use rs_mev_relay.Proposer.Validators
use rs_mev_relay.Beacon.Types.{BeaconApi}
use rs_mev_relay.Http.Errors.{ApiError, Rejection, Reply, handle_rejection}
use rs_mev_relay.Http.Auth.{MbsAuth}
use rs_mev_relay.Http.Registering.{Request, reject, with_json_body, ask_known, filters}

-- A request by the route whose path it has, with the parts of it that the route reads.
pub data HttpRequest : Type 0 where
  status : HttpRequest
  post_blinded_blocks : Request SignedBlindedBlock → HttpRequest
  get_header : ℕ → B256 → BlsPublicKey → HttpRequest
  post_validators : Request (List ValidatorRegistration) → HttpRequest
  get_validators : HttpRequest
  post_bids : Request BidSubmission → HttpRequest
  get_bids : QueryParams → HttpRequest
  unknown : HttpRequest

-- The content of a reply with status 200.
pub data Content : Type 0 where
  text : List ℕ → Content
  payload : Versioned BlindedBlockResponse → Content
  header : Versioned SignedHeader → Content
  validators : List Validator → Content
  bids : List BidSubmission → Content

pub data HttpReply : Type 0 where
  okay : Content → HttpReply
  rejected : Reply → HttpReply

abbrev pub status_of : HttpReply → ℕ
status_of (okay content) = 200
status_of (rejected reply) = reply.status

abbrev pub blinded_block_limit : ℕ
blinded_block_limit = 1024 * 1024 * 8

abbrev pub bid_limit : ℕ
bid_limit = 1024 * 1024 * 8

-- `reject::custom`, and the conversion error, which is no error of the routes.
abbrev pub header_rejection : GetHeader.Rejection → Rejection
header_rejection (GetHeader.get_header_error e) = some (ApiError.get_header e) ∷ []
header_rejection (GetHeader.conversion e) = none ∷ []

-- `and_then`: a handler runs behind the filters of its route.
abbrev pub behind :
    {A : Type 0}
    → InMemoryStorage
    → Result Rejection A
    → (A → InMemoryStorage × Result Rejection Content)
    → InMemoryStorage × Result Rejection Content
behind s (err rejection) run = (s, err rejection)
behind s (ok a) run = run a

-- What a handler comes to: its error as a rejection, or the content of its reply.
abbrev pub respond :
    {E A : Type 0}
    → (E → Rejection)
    → (A → Content)
    → InMemoryStorage × Result E A
    → InMemoryStorage × Result Rejection Content
respond custom reply (s, err e) = (s, err (custom e))
respond custom reply (s, ok a) = (s, ok (reply a))

-- `recover(handle_rejection)`
abbrev pub recover : List ℕ → Result Rejection Content → HttpReply
recover debug (err rejection) = rejected (handle_rejection debug rejection)
recover debug (ok content) = okay content

-- The route for the health check.
unfoldable pub status_route : Result Rejection Content
status_route = ok (text (codes "OK"))

module _ (x : External) (signer : BlsSigner) (auth : MbsAuth) (api : BeaconApi) (elapsed : ℕ) where
  -- The other routes: the handler of each, behind its filters.
  unfoldable pub post_blinded_blocks_route :
      Request SignedBlindedBlock → InMemoryStorage → InMemoryStorage × Result Rejection Content
  post_blinded_blocks_route request s =
      behind s (with_json_body blinded_block_limit request) (λ (block : SignedBlindedBlock).
        respond (λ (e : PostBlindedBlockErr). some (ApiError.post_blinded_block e) ∷ [])
          (λ (delivery : Delivery). payload delivery.reply)
          (BlindedBlocks.post_blinded_blocks x elapsed block s))

  unfoldable pub get_header_route :
      ℕ → B256 → BlsPublicKey → InMemoryStorage → InMemoryStorage × Result Rejection Content
  get_header_route slot hash key s =
      respond header_rejection header (GetHeader.get_header x signer elapsed slot hash key s)

  unfoldable pub post_validators_route :
      Request (List ValidatorRegistration)
      → InMemoryStorage
      → InMemoryStorage × Result Rejection Content
  post_validators_route request s =
      behind s (filters auth request) (λ (regs : List ValidatorRegistration).
        (Validators.post_validators x (map (ask_known api) regs) s, ok (text (codes "OK"))))

  unfoldable pub post_bids_route :
      Request BidSubmission → InMemoryStorage → InMemoryStorage × Result Rejection Content
  post_bids_route request s =
      behind s (with_json_body bid_limit request) (λ (submission : BidSubmission).
        respond (λ (e : PostBidsError). some (ApiError.post_bids e) ∷ [])
          (λ (done : Unit {0}). text (codes "OK")) (Builder.post_bids x submission s))

  -- The routes of the server. A path that none has is rejected.
  unfoldable pub handler :
      HttpRequest → InMemoryStorage → InMemoryStorage × Result Rejection Content
  handler status s = (s, status_route)
  handler (post_blinded_blocks request) s = post_blinded_blocks_route request s
  handler (get_header slot hash key) s = get_header_route slot hash key s
  handler (post_validators request) s = post_validators_route request s
  handler get_validators s = (s, ok (validators (Builder.get_validators s)))
  handler (post_bids request) s = post_bids_route request s
  handler (get_bids params) s = (s, ok (bids (Bids.get_bids s params)))
  handler unknown s = (s, err reject)

  -- All routes, with the answers to rejections.
  unfoldable pub serve :
      (debug : List ℕ) → HttpRequest → InMemoryStorage → InMemoryStorage × HttpReply
  serve debug request s = let (t, result) = handler request s in (t, recover debug result)

  -- `RelayHttpServer::start`: the routes behind the filter `cors` of warp, by the answer that it gives
  -- to the request by itself, if it does.
  unfoldable pub start :
      (cors : Option HttpReply)
      → (debug : List ℕ) → HttpRequest
      → InMemoryStorage
      → InMemoryStorage × HttpReply
  start (some reply) debug request s = (s, reply)
  start none debug request s = serve debug request s
