-- ===== src/Primitives/Bytes.antt =====
-- crates/primitives/src/types.rs: the fixed-size byte types and their checked conversions.
-- A fixed array of n bytes is a list of bytes; the conversions are what checks its length.
use Prim.Native.String.{String}
use rs_mev_relay.Prelude.{
  ℕ, Result, ok, err, List, length, replicate, if◌then◌else◌, ◌==◌, ℕ_discrete,
}

-- `Vec<u8>`
abbrev pub Bytes : Type 0
Bytes = List ℕ

-- `Hash256` of the crate tree_hash is the same 32 bytes.
pub record B256 : Type 0 where
  pub bytes : Bytes

pub record U256 : Type 0 where
  pub value : ℕ

pub record Address : Type 0 where
  pub bytes : Bytes

pub record Bytes48 : Type 0 where
  pub bytes : Bytes

pub record KzgCommitment : Type 0 where
  pub bytes : Bytes

pub data ConversionError : Type 0 where
  incorrect_length : (data_type : String) (expected actual : ℕ) → ConversionError
  parse_error : (data_type value : String) → ConversionError
  alloy_rlp : String → ConversionError
  ssz_types : ConversionError

abbrev pub hash_size : ℕ
hash_size = 32

-- `TryFrom<Vec<u8>>` of each type.
unfoldable pub try_b256 : Bytes → Result ConversionError B256
try_b256 bytes =
    if length bytes == hash_size
    then ok (record { bytes = bytes })
    else err (incorrect_length "HASH" hash_size (length bytes))

unfoldable pub try_address : Bytes → Result ConversionError Address
try_address bytes =
    if length bytes == 20
    then ok (record { bytes = bytes })
    else err (incorrect_length "Address" 20 (length bytes))

unfoldable pub try_bytes48 : Bytes → Result ConversionError Bytes48
try_bytes48 bytes =
    if length bytes == 48
    then ok (record { bytes = bytes })
    else err (incorrect_length "Bytes48" 48 (length bytes))

-- `U256::from_be_slice` is foreign.
unfoldable pub try_u256 : (Bytes → ℕ) → Bytes → Result ConversionError U256
try_u256 from_be_slice bytes =
    if length bytes == hash_size
    then ok (record { value = from_be_slice bytes })
    else err (incorrect_length "U256" hash_size (length bytes))

unfoldable pub as_kzg_commitment : Bytes48 → KzgCommitment
as_kzg_commitment b = record { bytes = b.bytes }

unfoldable pub from_kzg_commitment : KzgCommitment → Bytes48
from_kzg_commitment c = record { bytes = c.bytes }

unfoldable pub B256-discrete : Discrete B256
B256-discrete = hlevel ℕ_discrete

unfoldable pub Address-discrete : Discrete Address
Address-discrete = hlevel ℕ_discrete

pub record Bloom : Type 0 where
  pub bytes : Bytes

pub record Blob : Type 0 where
  pub bytes : Bytes

abbrev pub bloom_size : ℕ
bloom_size = 256

abbrev pub bytes_per_blob : ℕ
bytes_per_blob = 131072

unfoldable pub try_bloom : Bytes → Result ConversionError Bloom
try_bloom bytes =
    if length bytes == bloom_size
    then ok (record { bytes = bytes })
    else err (incorrect_length "Bloom" bloom_size (length bytes))

unfoldable pub try_blob : Bytes → Result ConversionError Blob
try_blob bytes =
    if length bytes == bytes_per_blob
    then ok (record { bytes = bytes })
    else err (incorrect_length "Blob" bytes_per_blob (length bytes))

-- `zero` and `to_vec`.
abbrev pub zero_b256 : B256
zero_b256 = record { bytes = replicate 32 0 }

abbrev pub zero_address : Address
zero_address = record { bytes = replicate 20 0 }
