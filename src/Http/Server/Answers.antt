-- ===== src/Http/Server/Answers.antt =====
-- What each request does that the HTTP server (crates/http/src/server/mod.rs) answers with 200.
use rs_mev_relay.Prelude.{
  ℕ, List, Option, none, some, Result, ok, err, ◌≡◌, ◌⊎◌, inl, inr, refl, map,
}
use rs_mev_relay.Primitives.Domains.{ForkDatas}
use rs_mev_relay.Primitives.External.{External}
use rs_mev_relay.Primitives.Signing.{BlsSigner}
use rs_mev_relay.Primitives.Bids.{BidSubmission}
use rs_mev_relay.Primitives.Blocks.{SignedBlindedBlock}
use rs_mev_relay.Primitives.Registrations.{ValidatorRegistration}
use rs_mev_relay.Storage.{InMemoryStorage}
use rs_mev_relay.Beacon.Types.{BeaconApi}
use rs_mev_relay.Http.Errors.{Rejection}
use rs_mev_relay.Http.Auth.{MbsAuth}
use rs_mev_relay.Http.Registering.{
  IsLetThrough, HasBody, ask_known, with_json_body-cases, filters-cases,
}
use rs_mev_relay.Builder
use rs_mev_relay.Builder.Effects.{post_bids-rejected}
use rs_mev_relay.Proposer.GetHeader
use rs_mev_relay.Proposer.BlindedBlocks
use rs_mev_relay.Proposer.Unblinding.{post_blinded_blocks-rejected}
use rs_mev_relay.Relay.Refused.{handle-Refused}
use rs_mev_relay.Relay as Relays
use rs_mev_relay.Relay.{handle}
use rs_mev_relay.Http.Server.{
  HttpRequest, HttpReply, status_of, Content, respond, recover, blinded_block_limit, bid_limit,
  status_route, post_blinded_blocks_route, get_header_route, post_validators_route, post_bids_route,
  handler, serve, start,
}
use rs_mev_relay.Http.Server.Steps.{handle_rejection-status}

module _ (x : External) (signer : BlsSigner) (auth : MbsAuth) (api : BeaconApi) (elapsed : ℕ)
    (forks : ForkDatas) where
  -- What a request that is answered with 200 has done, by its route: bodies are of a stated length
  -- within 8 MB, and registrations are behind the API key.
  abbrev pub Does : HttpRequest → InMemoryStorage → InMemoryStorage → Type 0
  Does (HttpRequest.post_blinded_blocks request) s t =
      (block : SignedBlindedBlock) × HasBody 8388608 request block
      × (t ≡ handle x signer forks (Relays.Request.post_blinded_blocks elapsed block) s)
  Does (HttpRequest.get_header slot hash key) s t =
      t ≡ handle x signer forks (Relays.Request.get_header elapsed slot hash key) s
  Does (HttpRequest.post_validators request) s t =
      (regs : List ValidatorRegistration) × IsLetThrough auth request regs
      × (t ≡ handle x signer forks (Relays.Request.post_validators (map (ask_known api) regs)) s)
  Does (HttpRequest.post_bids request) s t =
      (submission : BidSubmission) × HasBody 8388608 request submission
      × (t ≡ handle x signer forks (Relays.Request.post_bids submission) s)
  Does HttpRequest.unknown s t = ⊥
  Does request s t = t ≡ s

  abbrev Outcome :
      HttpRequest → InMemoryStorage → InMemoryStorage × Result Rejection Content → Type 0
  Outcome request s (t, err causes) = t ≡ s
  Outcome request s (t, ok content) = Does request s t

  -- A handler that changes nothing when it fails.
  respond-Outcome :
      {E A : Type 0} (request : HttpRequest) (s : InMemoryStorage)
      (p : InMemoryStorage × Result E A) (f : E → Rejection) (g : A → Content)
      → ((e : E) → p.1 ≡ err e → p.0 ≡ s)
      → Does request s p.0
      → Outcome request s (respond f g p)
  respond-Outcome request s (t, err e) f g same done = same e refl
  respond-Outcome request s (t, ok a) f g same done = done

  handler-Outcome :
      (request : HttpRequest) (s : InMemoryStorage)
      → Outcome request s (handler x signer auth api elapsed request s)
  unfolding handler handle status_route post_blinded_blocks_route get_header_route
      post_validators_route post_bids_route
  handler-Outcome HttpRequest.status s = refl
  handler-Outcome (HttpRequest.post_blinded_blocks request) s =
      elim (with_json_body-cases blinded_block_limit request) [
        | inr refused ↦ rw refused refl
        | inl (block, read, has) ↦ rw read (
            respond-Outcome (HttpRequest.post_blinded_blocks request) s
              (BlindedBlocks.post_blinded_blocks x elapsed block s) _ _
              (λ e refused. post_blinded_blocks-rejected x elapsed s block refused)
              (block, has, refl))
      ]
  handler-Outcome (HttpRequest.get_header slot hash key) s =
      let r = Relays.Request.get_header elapsed slot hash key in
      respond-Outcome (HttpRequest.get_header slot hash key) s
        (GetHeader.get_header x signer elapsed slot hash key s) _ _
        (λ e refused. handle-Refused x signer forks s r (e, refused)) refl
  handler-Outcome (HttpRequest.post_validators request) s = elim (filters-cases auth request) [
    | inr refused ↦ rw refused refl
    | inl (regs, read, through) ↦ rw read (regs, through, refl)
  ]
  handler-Outcome HttpRequest.get_validators s = refl
  handler-Outcome (HttpRequest.post_bids request) s =
      elim (with_json_body-cases bid_limit request) [
        | inr refused ↦ rw refused refl
        | inl (submission, read, has) ↦ rw read (
            respond-Outcome (HttpRequest.post_bids request) s (Builder.post_bids x submission s) _ _
              (λ e refused. post_bids-rejected x submission s refused) (submission, has, refl))
      ]
  handler-Outcome (HttpRequest.get_bids params) s = refl
  handler-Outcome HttpRequest.unknown s = refl

  recover-Outcome :
      (debug : List ℕ) (request : HttpRequest) (s : InMemoryStorage)
      (p : InMemoryStorage × Result Rejection Content)
      → Outcome request s p
      → (status_of (recover debug p.1) ≡ 200) × Does request s p.0
        ⊎ ((status_of (recover debug p.1) ≡ 400) ⊎ (status_of (recover debug p.1) ≡ 500))
          × (p.0 ≡ s)
  recover-Outcome debug request s (t, err causes) same =
      inr (handle_rejection-status debug causes, same)
  recover-Outcome debug request s (t, ok content) done = inl (refl, done)

  -- A request that the CORS filter answers by itself leaves the storage as it was. Any other is
  -- answered with 200, 400 or 500. One that is answered with 200 has done what its route is for: a
  -- bid, a signed blinded block or registrations were in its body, which was readable and of a
  -- stated length within the limit of its route, registrations had an API key that the auth
  -- service accepts, and the storage is what the handler for them, or for headers, leaves; the
  -- health check and the routes that list duties and bids leave it as it was, and no path without a
  -- route is answered with 200. One that is answered with 400 or 500 leaves the storage as it was.
  pub start-cases :
      (cors : Option HttpReply) (debug : List ℕ) (request : HttpRequest) (s : InMemoryStorage)
      → let (t, reply) = start x signer auth api elapsed cors debug request s in
        ((answer : HttpReply) × (cors ≡ some answer) × (reply ≡ answer) × (t ≡ s))
        ⊎ (cors ≡ none)
          × ((status_of reply ≡ 200) × Does request s t
              ⊎ ((status_of reply ≡ 400) ⊎ (status_of reply ≡ 500)) × (t ≡ s))
  unfolding start serve
  start-cases (some answer) debug request s = inl (answer, refl, refl, refl)
  start-cases none debug request s = inr (
    refl,
    recover-Outcome debug request s (handler x signer auth api elapsed request s)
        (handler-Outcome request s),
  )
