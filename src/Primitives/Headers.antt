-- ===== src/Primitives/Headers.antt =====
-- crates/primitives/src/beacon/header.rs, and `Versioned` of crates/primitives/src/beacon/mod.rs.
use rs_mev_relay.Prelude.{List}
use rs_mev_relay.Primitives.Bytes.{B256, U256, KzgCommitment}
use rs_mev_relay.Primitives.Keys.{BlsPublicKey, BlsSignature}
use rs_mev_relay.Primitives.Payload.{ExecutionPayloadHeader}

-- `ForkName` of crates/primitives/src/beacon/fork.rs
pub data ForkName : Type 0 where
  base altair merge capella deneb : ForkName

pub record Versioned {ℓ} (T : Type ℓ) : Type ℓ where
  pub version : ForkName
  pub inner : T

pub record Header : Type 0 where
  pub header : ExecutionPayloadHeader
  pub blob_kzg_commitments : List KzgCommitment
  pub value : U256
  pub pubkey : BlsPublicKey

pub record SignedHeader : Type 0 where
  pub message : Header
  pub signature : BlsSignature

-- `SigningData` of crates/primitives/src/blst/mod.rs
pub record SigningData : Type 0 where
  pub object_root : B256
  pub domain : B256
