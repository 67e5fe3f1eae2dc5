-- ===== src/Primitives/Registrations.antt =====
-- crates/primitives/src/beacon/registrations.rs and proposer_duties.rs, and
-- crates/primitives/src/storage/validator.rs.
use rs_mev_relay.Prelude.{ℕ, Bool, true, false, List, ◌++◌, ite}
use rs_mev_relay.Primitives.Bytes.{Bytes, Address, Address-discrete}
use rs_mev_relay.Primitives.Keys.{BlsPublicKey, BlsSignature}

pub record ValidatorRegistrationMessage : Type 0 where
  pub fee_recipient : Address
  pub gas_limit : ℕ
  pub timestamp : ℕ
  pub pubkey : BlsPublicKey

pub record ValidatorRegistration : Type 0 where
  pub message : ValidatorRegistrationMessage
  pub signature : BlsSignature

pub record Validator : Type 0 where
  pub slot : ℕ
  pub validator_index : ℕ
  pub entry : ValidatorRegistration

unfoldable pub invalid_fee_recipient : Validator → Address → Bool
invalid_fee_recipient v fee_recipient =
    ite (Address-discrete v.entry.message.fee_recipient fee_recipient) false true

-- The key is the 48 bytes that the beacon node sent.
pub record ProposerDutiesData : Type 0 where
  pub slot : ℕ
  pub pubkey : Bytes
  pub validator_index : ℕ

pub record ProposerDutiesResponse : Type 0 where
  pub duties : List ProposerDutiesData

unfoldable pub merge_with :
    ProposerDutiesResponse → ProposerDutiesResponse → List ProposerDutiesData
merge_with self other = self.duties ++ other.duties
