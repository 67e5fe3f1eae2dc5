-- ===== src/Http/Auth.antt =====
-- crates/auth/src/lib.rs, and the check of the API key before the route for registrations
-- (crates/http/src/server/proposer_api/post_validators.rs).
use Prim.Native.String.{String}
use rs_mev_relay.Prelude.{
  ℕ, none, List, [], ◌∷◌, ◌++◌, Result, ok, err, ◌>>=◌, map_err, codes, ◌==◌, if◌then◌else◌,
}
use rs_mev_relay.Http.Errors.{Rejection}

pub data AuthError : Type 0 where
  request_error : String → AuthError
  invalid_secret : AuthError

pub record SecretBody : Type 0 where
  pub secret : String

pub record MbsUser : Type 0 where
  pub team_id : String
  pub id : String

-- What the library reqwest gets: the status, and the body, whose bytes may fail to come.
pub record Response : Type 0 where
  pub status : ℕ
  pub body : Result String String

-- `MbsAuth`: the service's address, and the client, by what a POST of a secret gets and how serde
-- reads a user.
pub record MbsAuth : Type 0 where
  pub url : List ℕ
  pub post : List ℕ → SecretBody → Result String Response
  pub read_user : String → Result String MbsUser

unfoldable pub validate : MbsAuth → String → Result AuthError MbsUser
validate auth secret = do
  resp ←
      map_err request_error (auth.post (auth.url ++ codes "get-key") (record { secret = secret }))
  text ← map_err request_error resp.body
  if resp.status == 200 then map_err request_error (auth.read_user text) else err invalid_secret

pub record ApiKeyQuery : Type 0 where
  pub api_key : String

-- `validate_api_key`: any error is a rejection without a cause of the relay's.
unfoldable pub validate_api_key : MbsAuth → ApiKeyQuery → Result Rejection String
validate_api_key auth query = do
  user ← map_err (λ e. none ∷ []) (validate auth query.api_key)
  ok query.api_key
