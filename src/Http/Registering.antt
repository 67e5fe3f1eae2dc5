-- ===== src/Http/Registering.antt =====
-- The filters of the route POST /eth/v1/builder/validators (crates/http/src/server/mod.rs and
-- proposer_api/post_validators.rs).
use rs_mev_relay.Prelude.{
  ℕ, ◌*◌, ◌≤◌, not, ltb, Option, none, some, List, [], ◌∷◌, Result, ok, err, ◌>>=◌, ◌>>◌, guard,
  ok_or, Option-cases, ◌≡◌, ◌⊎◌, inl, inr, refl, arith,
}
use rs_mev_relay.Primitives.Registrations.{ValidatorRegistration}
use rs_mev_relay.Beacon.Types.{BeaconApi}
use rs_mev_relay.Proposer.Validators.{Answered}
use rs_mev_relay.Http.Errors.{Rejection}
use rs_mev_relay.Http.Auth.{MbsAuth, MbsUser, ApiKeyQuery, validate, validate_api_key}

-- A request, by what the filters read of it: the query, if it has a key, the length that its header
-- states, and the body, if it is a JSON of the type.
pub record Request {ℓ} (T : Type ℓ) : Type ℓ where
  pub query : Option ApiKeyQuery
  pub content_length : Option ℕ
  pub body : Option T

-- A rejection by a filter of warp.
abbrev pub reject : Rejection
reject = none ∷ []

unfoldable pub with_json_body {ℓ} : {T : Type ℓ} → ℕ → Request T → Result Rejection T
with_json_body size_limit request = do
  length ← ok_or request.content_length reject
  guard (not (ltb size_limit length)) reject
  ok_or request.body reject

abbrev pub payload_limit : ℕ
payload_limit = 1024 * 1024 * 80

-- The handler's question to the beacon node for each registration.
abbrev pub ask_known : BeaconApi → ValidatorRegistration → Answered
ask_known api reg = (
  reg,
  elim (api.get_known_validator reg.message.pubkey) [ ok known ↦ some known | err e ↦ none ],
)

unfoldable pub filters :
    MbsAuth → Request (List ValidatorRegistration) → Result Rejection (List ValidatorRegistration)
filters auth request = do
  query ← ok_or request.query reject
  api_key ← validate_api_key auth query
  with_json_body payload_limit request

-- A request whose length is stated and within the limit, and whose body is readable.
abbrev pub HasBody {ℓ} : {T : Type ℓ} → ℕ → Request T → T → Type ℓ
HasBody limit request a =
    ((size : ℕ) × (request.content_length ≡ some size) × (size ≤ limit)) × (request.body ≡ some a)

-- A request that the filters let through: the auth service knows its key, its length is stated and
-- within the limit, and its body holds the registrations.
abbrev pub IsLetThrough :
    MbsAuth → Request (List ValidatorRegistration) → List ValidatorRegistration → Type 0
IsLetThrough auth request regs =
    ((key : ApiKeyQuery) × (request.query ≡ some key)
      × ((user : MbsUser) × (validate auth key.api_key ≡ ok user)))
    × ((size : ℕ) × (request.content_length ≡ some size) × (size ≤ payload_limit))
    × (request.body ≡ some regs)

validate_api_key-cases :
    (auth : MbsAuth) (key : ApiKeyQuery)
    → ((user : MbsUser) × (validate auth key.api_key ≡ ok user)
        × (validate_api_key auth key ≡ ok key.api_key))
      ⊎ (validate_api_key auth key ≡ err reject)
unfolding validate_api_key
validate_api_key-cases auth key = ground arith

pub with_json_body-cases {ℓ} :
    {T : Type ℓ} (limit : ℕ) (request : Request T)
    → ((a : T) × (with_json_body limit request ≡ ok a) × HasBody limit request a)
      ⊎ (with_json_body limit request ≡ err reject)
unfolding with_json_body
with_json_body-cases limit request = ground arith

pub filters-cases :
    (auth : MbsAuth) (request : Request (List ValidatorRegistration))
    → ((regs : List ValidatorRegistration) × (filters auth request ≡ ok regs)
        × IsLetThrough auth request regs)
      ⊎ (filters auth request ≡ err reject)
unfolding filters with_json_body
filters-cases auth request = elim (Option-cases request.query) [
  | inl no_key ↦ inr (rw no_key refl)
  | inr (key, has_key) ↦ elim (validate_api_key-cases auth key) [
    | inr refused ↦ inr (rw has_key (rw refused refl))
    | inl (user, is_user, valid) ↦ elim (with_json_body-cases payload_limit request) [
      | inr bad ↦ inr (rw has_key (rw valid bad))
      | inl (regs, read, (size, body)) ↦
          inl (regs, rw has_key (rw valid read), ((key, has_key, (user, is_user)), size, body))
    ]
  ]
]
