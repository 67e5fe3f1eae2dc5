-- ===== src/Proposer/Validators.antt =====
-- crates/http/src/server/proposer_api/post_validators.rs. Each registration comes with the answer of
-- the beacon node for its key, `none` for an error.
use rs_mev_relay.Prelude.{
  Bool, false, Option, none, some, List, [], ◌∷◌, insert, if◌then◌else◌, ◌&&◌,
}
use rs_mev_relay.Primitives.Bytes.{Bytes}
use rs_mev_relay.Primitives.Keys.{BlsPublicKey-discrete}
use rs_mev_relay.Primitives.Registrations.{ValidatorRegistration}
use rs_mev_relay.Primitives.Known.{KnownValidatorResponse, is_active}
use rs_mev_relay.Primitives.Domains.{compute_builder_domain}
use rs_mev_relay.Primitives.External.{External, signing_root, verify}
use rs_mev_relay.Storage.{
  InMemoryStorage, ValidatorRegistrations, fork_data, set_validator_registrations,
}

abbrev pub Answered : Type 0
Answered = ValidatorRegistration × Option KnownValidatorResponse

module _ (x : External) (domain : Bytes) where
  -- Active by the beacon node, and signed by the key that it registers.
  unfoldable pub is_registrable : Answered → Bool
  is_registrable (reg, none) = false
  is_registrable (reg, some known) =
      is_active known
      && verify x reg.signature reg.message.pubkey
          (signing_root x (x.registration_root reg.message) domain)

  -- The loop over the registrations.
  unfoldable pub register : List Answered → ValidatorRegistrations → ValidatorRegistrations
  register [] to_register = to_register
  register (a ∷ rest) to_register = register rest (
      if is_registrable a
      then insert BlsPublicKey-discrete a.0.message.pubkey a.0 to_register
      else to_register)

-- POST /eth/v1/builder/validators, behind the check of the API key. The reply is always OK.
unfoldable pub post_validators : External → List Answered → InMemoryStorage → InMemoryStorage
post_validators x registrations s =
    let domain = compute_builder_domain x.fork_data_root (fork_data s) in
    set_validator_registrations (register x domain registrations []) s
