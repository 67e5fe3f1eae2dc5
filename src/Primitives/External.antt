-- ===== src/Primitives/External.antt =====
-- What the relay calls and does not implement: the curve library, the derived tree hashes, and the
-- bounded lists of the crate ssz_types. The laws that the theorems need of them are named
-- hypotheses of those theorems.
use Prim.Native.String.{String}
use rs_mev_relay.Prelude.{ℕ, Bool, Option, List}
use rs_mev_relay.Primitives.Bytes.{Bytes, B256, KzgCommitment}
use rs_mev_relay.Primitives.Keys.{BlsPublicKey, BlsSignature}
use rs_mev_relay.Primitives.Keys
use rs_mev_relay.Primitives.Payload.{Withdrawal}
use rs_mev_relay.Primitives.Bids.{BidTrace}
use rs_mev_relay.Primitives.Registrations.{ValidatorRegistrationMessage}
use rs_mev_relay.Primitives.Domains.{ForkData}
use rs_mev_relay.Primitives.Blocks.{BlindedBlock}
use rs_mev_relay.Primitives.Headers.{Header, SigningData}

pub record External : Type 0 where
  -- blst: `PublicKey::from_bytes` and `Signature::from_bytes`, as the compressed bytes of the
  -- point that was read; the pairing check; a secret key's public key and signature.
  pub read_public_key : Bytes → Option Bytes
  pub read_signature : Bytes → Option Bytes
  pub point_verify : Bytes → Bytes → B256 → Bool
  pub public_point : Bytes → Bytes
  pub sign_point : Bytes → B256 → Bytes
  -- tree_hash
  pub fork_data_root : ForkData → B256
  pub signing_data_root : SigningData → B256
  pub bid_trace_root : BidTrace → B256
  pub registration_root : ValidatorRegistrationMessage → B256
  pub header_root : Header → B256
  pub blinded_block_root : BlindedBlock → B256
  pub transactions_root : List Bytes → B256
  pub withdrawals_root : List Withdrawal → B256
  -- ruint: `U256::from_str` and `U256::from_be_slice`
  pub u256_from_str : String → Option ℕ
  pub u256_from_be_slice : Bytes → ℕ
  -- ssz_types: `VariableList::new`, which refuses a list over its bound, `FixedVector::new`, and
  -- the conversions from `Vec` that cut or pad.
  pub new_commitments : List KzgCommitment → Option (List KzgCommitment)
  pub new_transactions : List Bytes → Option (List Bytes)
  pub new_withdrawals : List Withdrawal → Option (List Withdrawal)
  pub new_blob : Bytes → Option Bytes
  pub new_blobs : List Bytes → Option (List Bytes)
  pub logs_bloom_from : Bytes → Bytes
  pub extra_data_from : Bytes → Bytes
  pub transaction_from : Bytes → Bytes

module _ (x : External) where
  -- `SignedRoot::signing_root`, from the object's root; the domain's 32 bytes become a `Hash256`.
  unfoldable pub signing_root : B256 → Bytes → B256
  signing_root object_root domain =
      x.signing_data_root (record { object_root = object_root; domain = record { bytes = domain } })

  -- `BlsSignature::verify`
  unfoldable pub verify : BlsSignature → BlsPublicKey → B256 → Bool
  unfolding Keys.verify
  verify = Keys.verify x.point_verify

  -- `BidTrace::verify_signature`
  unfoldable pub verify_bid_signature : BidTrace → BlsSignature → Bytes → Bool
  unfolding signing_root verify
  verify_bid_signature bid signature domain =
      verify signature bid.builder_pubkey (signing_root (x.bid_trace_root bid) domain)
