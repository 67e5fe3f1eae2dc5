-- ===== src/Http/Server/Guarded.antt =====
-- The route for registrations behind its filters (crates/http/src/server/proposer_api/post_validators.rs).
use rs_mev_relay.Prelude.{ℕ, List, map, ◌≡◌, ◌⊎◌, inl, inr, refl}
use rs_mev_relay.Primitives.Registrations.{ValidatorRegistration}
use rs_mev_relay.Primitives.External.{External}
use rs_mev_relay.Primitives.Signing.{BlsSigner}
use rs_mev_relay.Storage.{InMemoryStorage}
use rs_mev_relay.Beacon.Types.{BeaconApi}
use rs_mev_relay.Proposer.Validators.{post_validators}
use rs_mev_relay.Http.Errors.{handle_rejection}
use rs_mev_relay.Http.Auth.{MbsAuth}
use rs_mev_relay.Http.Registering.{Request, IsLetThrough, ask_known, filters-cases}
use rs_mev_relay.Http.Server.{HttpRequest, status_of, post_validators_route, handler, serve}

-- Registrations come in behind the API key only: the server either answers 200 to a request whose key
-- the auth service answers with a user, whose length is stated and within 80 MB, and whose body
-- holds the registrations, and then the storage is that of the handler for registrations; or it
-- answers 500, whatever was wrong with the request, and leaves the storage as it was.
pub serve-post_validators :
    (x : External) (signer : BlsSigner) (auth : MbsAuth) (api : BeaconApi) (elapsed : ℕ)
    (debug : List ℕ) (request : Request (List ValidatorRegistration)) (s : InMemoryStorage)
    → let (t, reply) =
        serve x signer auth api elapsed debug (HttpRequest.post_validators request) s in
      ((regs : List ValidatorRegistration) × IsLetThrough auth request regs
        × (t ≡ post_validators x (map (ask_known api) regs) s)
        × (status_of reply ≡ 200))
      ⊎ (t ≡ s) × (status_of reply ≡ 500)
unfolding serve handler post_validators_route handle_rejection
serve-post_validators x signer auth api elapsed debug request s =
    elim (filters-cases auth request) [
      | inl (regs, passes, let_through) ↦ inl (
        regs,
        let_through,
        rw (passes, handler, post_validators_route) refl,
        rw (passes, handler, post_validators_route) refl,
      )
      | inr refused ↦ inr (
        rw (refused, handler, post_validators_route) refl,
        rw (refused, handler, post_validators_route) refl,
      )
    ]
