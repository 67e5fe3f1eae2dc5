-- ===== src/Primitives/Known.antt =====
-- crates/primitives/src/beacon/known_validator.rs: what the beacon node says of a validator.
use Prim.Native.String.{String}
use rs_mev_relay.Prelude.{codes, ℕ, Bool, true, false, List, [], ◌∷◌, ◌==◌, ◌&&◌, ◌||◌}
use rs_mev_relay.Primitives.Keys.{BlsPublicKey}

abbrev pub starts_with : List ℕ → List ℕ → Bool
starts_with s [] = true
starts_with [] (p ∷ ps) = false
starts_with (c ∷ s) (p ∷ ps) = c == p && starts_with s ps

-- `str::contains`
abbrev pub contains_text : List ℕ → List ℕ → Bool
contains_text [] p = starts_with [] p
contains_text (c ∷ s) p = starts_with (c ∷ s) p || contains_text s p

pub record ConsensusValidator : Type 0 where
  pub pubkey : BlsPublicKey
  pub withdrawal_credentials : String
  pub effective_balance : String
  pub slashed : Bool
  pub activation_eligibility_epoch : ℕ
  pub activation_epoch : ℕ
  pub exit_epoch : ℕ
  pub withdrawable_epoch : ℕ

pub record ValidatorEntry : Type 0 where
  pub index : ℕ
  pub balance : String
  pub status : String
  pub validator : ConsensusValidator

pub record KnownValidatorResponse : Type 0 where
  pub execution_optimistic : Bool
  pub finalized : Bool
  pub entry : ValidatorEntry

unfoldable pub is_active : KnownValidatorResponse → Bool
is_active r = contains_text (codes r.entry.status) (codes "active")
