-- ===== src/Primitives/Encoding.antt =====
-- The encodings of the wrapped types: their `Encode` (SSZ) in crates/primitives/src/types.rs, and
-- their `TreeHash` in crates/primitives/src/blst/mod.rs. The bytes of a number
-- (`U256::as_le_slice`), the hash of bytes (`keccak256`) and the encodings of the wrapped 32 bytes
-- are foreign.
pub mod Fixed
pub mod Roots
pub mod Sizes
pub mod Texts
use rs_mev_relay.Prelude.{ℕ, Bool, true, List, [], ◌∷◌, ◌++◌, replicate}
use rs_mev_relay.Primitives.Bytes.{Bytes, B256, U256, Address, Bloom}

-- The trait `ssz::Encode`.
pub record Encode (T : Type 0) : Type 0 where
  pub is_ssz_fixed_len : Bool
  pub ssz_fixed_len : ℕ
  pub ssz_bytes_len : T → ℕ
  pub ssz_append : T → Bytes → Bytes

-- The type's own numbers are those of `Hash256`, the value's those of the wrapped one.
unfoldable pub b256_encode : Encode B256 → Encode B256 → Encode B256
b256_encode hash256 wrapped = record {
  is_ssz_fixed_len = hash256.is_ssz_fixed_len;
  ssz_fixed_len = hash256.ssz_fixed_len;
  ssz_bytes_len = wrapped.ssz_bytes_len;
  ssz_append = wrapped.ssz_append;
}

unfoldable pub u256_encode : (ℕ → Bytes) → Encode U256
u256_encode as_le_slice = record {
  is_ssz_fixed_len = true;
  ssz_fixed_len = 32;
  ssz_bytes_len = λ v. 32;
  ssz_append = λ v buf. buf ++ as_le_slice v.value;
}

unfoldable pub address_encode : Encode Address
address_encode = record {
  is_ssz_fixed_len = true;
  ssz_fixed_len = 20;
  ssz_bytes_len = λ a. 20;
  ssz_append = λ a buf. buf ++ a.bytes;
}

-- A sequence of values, as the derived encodings of structs and lists append them.
unfoldable pub append_all : {T : Type 0} → Encode T → List T → Bytes → Bytes
append_all e [] buf = buf
append_all e (v ∷ vs) buf = append_all e vs (e.ssz_append v buf)

pub data TreeHashType : Type 0 where
  basic container list vector : TreeHashType

-- The trait `tree_hash::TreeHash`. A packed encoding is its bytes.
pub record TreeHash (T : Type 0) : Type 0 where
  pub tree_hash_type : TreeHashType
  pub tree_hash_packed_encoding : T → Bytes
  pub tree_hash_packing_factor : ℕ
  pub tree_hash_root : T → B256

unfoldable pub b256_tree_hash : TreeHash B256
b256_tree_hash = record {
  tree_hash_type = vector;
  tree_hash_packed_encoding = λ h. h.bytes;
  tree_hash_packing_factor = 1;
  tree_hash_root = λ h. h;
}

unfoldable pub bloom_tree_hash : (Bytes → B256) → TreeHash Bloom
bloom_tree_hash keccak256 = record {
  tree_hash_type = vector;
  tree_hash_packed_encoding = λ b. b.bytes;
  tree_hash_packing_factor = 1;
  tree_hash_root = λ b. keccak256 b.bytes;
}

unfoldable pub bytes_tree_hash : (Bytes → B256) → TreeHash Bytes
bytes_tree_hash keccak256 = record {
  tree_hash_type = vector;
  tree_hash_packed_encoding = λ b. b;
  tree_hash_packing_factor = 1;
  tree_hash_root = keccak256;
}

unfoldable pub u256_tree_hash : (ℕ → Bytes) → TreeHash U256
u256_tree_hash as_le_slice = record {
  tree_hash_type = basic;
  tree_hash_packed_encoding = λ v. as_le_slice v.value;
  tree_hash_packing_factor = 1;
  tree_hash_root = λ v. record { bytes = as_le_slice v.value };
}

-- The 20 bytes in the first part of 32.
abbrev padded : Address → Bytes
padded a = a.bytes ++ replicate 12 0

unfoldable pub address_tree_hash : TreeHash Address
address_tree_hash = record {
  tree_hash_type = vector;
  tree_hash_packed_encoding = padded;
  tree_hash_packing_factor = 1;
  tree_hash_root = λ a. record { bytes = padded a };
}
