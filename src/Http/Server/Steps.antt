-- ===== src/Http/Server/Steps.antt =====
-- The HTTP server (crates/http/src/server/mod.rs) as a part of the relay.
use rs_mev_relay.Prelude.{ℕ, List, Result, ok, err, ◌≡◌, ◌⊎◌, inl, inr, refl, ap, map, codes}
use rs_mev_relay.Primitives.Domains.{ForkDatas}
use rs_mev_relay.Primitives.External.{External}
use rs_mev_relay.Primitives.Signing.{BlsSigner}
use rs_mev_relay.Storage.{InMemoryStorage}
use rs_mev_relay.Beacon.Types.{BeaconApi}
use rs_mev_relay.Http.Errors.{Rejection, Reply, handle_rejection}
use rs_mev_relay.Http.Errors.Statuses.{handle_rejection-cases}
use rs_mev_relay.Http.Registering.{ask_known, filters}
use rs_mev_relay.Proposer.Validators
use rs_mev_relay.Primitives.Registrations.{ValidatorRegistration}
use rs_mev_relay.Proposer.BlindedBlocks
use rs_mev_relay.Proposer.GetHeader
use rs_mev_relay.Builder
use rs_mev_relay.Builder.Effects.{post_bids-rejected}
use rs_mev_relay.Relay.Refused.{handle-Refused}
use rs_mev_relay.Proposer.Unblinding.{post_blinded_blocks-rejected}
use rs_mev_relay.Http.Auth.{MbsAuth}
use rs_mev_relay.Http.Server.{
  status_route, post_blinded_blocks_route, get_header_route, post_validators_route, post_bids_route,
  HttpRequest, status_of, Content, text, behind, respond, recover, handler, serve,
}
use rs_mev_relay.Relay as Relays
use rs_mev_relay.Relay.{handle}

-- A rejection is answered with 400 or 500.
pub handle_rejection-status :
    (debug : List ℕ) (causes : Rejection)
    → ((handle_rejection debug causes).status ≡ 400)
      ⊎ ((handle_rejection debug causes).status ≡ 500)
handle_rejection-status debug causes = elim (handle_rejection-cases debug causes) [
  | inl (e, there, is) ↦ inl (ap (λ (r : Reply). r.status) is)
  | inr (no_cause, is) ↦ inr (ap (λ (r : Reply). r.status) is)
]

module _ (x : External) (signer : BlsSigner) (auth : MbsAuth) (api : BeaconApi) (elapsed : ℕ)
    (forks : ForkDatas) where
  -- What a request that is served does to the storage: nothing, or a step of the relay.
  abbrev pub IsStep : InMemoryStorage → InMemoryStorage → Type 0
  IsStep s t = (t ≡ s) ⊎ ((r : Relays.Request) × (t ≡ handle x signer forks r s))

  abbrev Outcome : InMemoryStorage → InMemoryStorage × Result Rejection Content → Type 0
  Outcome s (t, err causes) = t ≡ s
  Outcome s (t, ok content) = IsStep s t

  behind-Outcome :
      {A : Type 0} (s : InMemoryStorage) (filtered : Result Rejection A)
      (run : A → InMemoryStorage × Result Rejection Content)
      → ((a : A) → Outcome s (run a))
      → Outcome s (behind s filtered run)
  behind-Outcome s (err causes) run outcome = refl
  behind-Outcome s (ok a) run outcome = outcome a

  respond-Outcome :
      {E A : Type 0} (s : InMemoryStorage) (p : InMemoryStorage × Result E A) (f : E → Rejection)
      (g : A → Content) (r : Relays.Request)
      → ((e : E) → p.1 ≡ err e → p.0 ≡ s)
      → p.0 ≡ handle x signer forks r s
      → Outcome s (respond f g p)
  respond-Outcome s (t, err e) f g r same step = same e refl
  respond-Outcome s (t, ok a) f g r same step = inr (r, step)

  handler-Outcome :
      (request : HttpRequest) (s : InMemoryStorage)
      → Outcome s (handler x signer auth api elapsed request s)
  unfolding handler handle status_route post_blinded_blocks_route get_header_route
      post_validators_route post_bids_route
  handler-Outcome HttpRequest.status s = inl refl
  handler-Outcome (HttpRequest.post_blinded_blocks request) s = behind-Outcome s _ _ (λ block.
      respond-Outcome s (BlindedBlocks.post_blinded_blocks x elapsed block s) _ _
        (Relays.Request.post_blinded_blocks elapsed block)
        (λ e refused. post_blinded_blocks-rejected x elapsed s block refused) refl)
  handler-Outcome (HttpRequest.get_header slot hash key) s =
      let r = Relays.Request.get_header elapsed slot hash key in
      respond-Outcome s (GetHeader.get_header x signer elapsed slot hash key s) _ _ r
        (λ e refused. handle-Refused x signer forks s r (e, refused)) refl
  handler-Outcome (HttpRequest.post_validators request) s =
      behind-Outcome s (filters auth request)
        (λ (regs : List ValidatorRegistration).
          (Validators.post_validators x (map (ask_known api) regs) s, ok (text (codes "OK"))))
        (λ regs. inr (Relays.Request.post_validators (map (ask_known api) regs), refl))
  handler-Outcome HttpRequest.get_validators s = inl refl
  handler-Outcome (HttpRequest.post_bids request) s = behind-Outcome s _ _ (λ submission.
      respond-Outcome s (Builder.post_bids x submission s) _ _ (Relays.Request.post_bids submission)
        (λ e refused. post_bids-rejected x submission s refused) refl)
  handler-Outcome (HttpRequest.get_bids params) s = inl refl
  handler-Outcome HttpRequest.unknown s = refl

  recover-cases :
      (debug : List ℕ) (s : InMemoryStorage) (p : InMemoryStorage × Result Rejection Content)
      → Outcome s p
      → (status_of (recover debug p.1) ≡ 200) × IsStep s p.0
        ⊎ ((status_of (recover debug p.1) ≡ 400) ⊎ (status_of (recover debug p.1) ≡ 500))
          × (p.0 ≡ s)
  recover-cases debug s (t, err causes) same = inr (handle_rejection-status debug causes, same)
  recover-cases debug s (t, ok content) step = inl (refl, step)

  -- A request that reaches the routes is answered with 200, 400 or 500. One that is answered with 200 is a step
  -- of the relay, or leaves the storage as it was; any other leaves it as it was.
  pub serve-cases :
      (debug : List ℕ) (request : HttpRequest) (s : InMemoryStorage)
      → let (t, reply) = serve x signer auth api elapsed debug request s in
        (status_of reply ≡ 200) × IsStep s t
        ⊎ ((status_of reply ≡ 400) ⊎ (status_of reply ≡ 500)) × (t ≡ s)
  unfolding serve
  serve-cases debug request s =
      recover-cases debug s (handler x signer auth api elapsed request s)
        (handler-Outcome request s)
