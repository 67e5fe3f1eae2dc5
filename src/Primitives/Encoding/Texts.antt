-- ===== src/Primitives/Encoding/Texts.antt =====
-- The wrapped types of crates/primitives/src/types.rs and the commitments of
-- crates/primitives/src/beacon/kzg_commitments.rs as texts. What is handed to a serializer is the
-- result of `serialize`, what a deserializer hands over the argument of `deserialize`.
use rs_mev_relay.Prelude.{
  ◌≡◌, refl, ℕ, List, [], ◌∷◌, ◌++◌, map, length, Result, ok, err, ◌>>=◌, map_err, codes, decimal,
  ◌==◌, if◌then◌else◌, arith,
}
use rs_mev_relay.Primitives.Bytes.{Bytes, B256, U256, Address, KzgCommitment}
use rs_mev_relay.Primitives.Versions.{trim_prefix}

-- The libraries: `hex` without a prefix, the hex text and the visitors of serde_utils, the bounded
-- lists of ssz_types, and the parsers of the wrapped types; errors as their texts.
pub record Libraries : Type 0 where
  pub encode : Bytes → List ℕ
  pub decode : List ℕ → Result (List ℕ) Bytes
  pub encode_prefixed : Bytes → List ℕ
  pub decode_prefixed : List ℕ → Result (List ℕ) Bytes
  pub visit_hex : List ℕ → Result (List ℕ) Bytes
  pub visit_quoted : List (List ℕ) → Result (List ℕ) (List ℕ)
  pub quoted : ℕ → List ℕ
  pub new_fixed : (size : ℕ) → Bytes → Result (List ℕ) Bytes
  pub new_variable : (bound : ℕ) → List ℕ → Result (List ℕ) (List ℕ)
  pub parse_b256 : List ℕ → Result (List ℕ) B256
  pub parse_u256 : List ℕ → Result (List ℕ) U256

abbrev pub bytes_per_commitment : ℕ
bytes_per_commitment = 48

module _ (l : Libraries) where
  -- `FromStr`
  unfoldable pub b256_from_str : List ℕ → Result (List ℕ) B256
  b256_from_str s = map_err (λ e. codes "Failed to parse B256: " ++ e) (l.parse_b256 s)

  unfoldable pub u256_from_str : List ℕ → Result (List ℕ) U256
  u256_from_str s = map_err (λ e. codes "Failed to parse U256: " ++ e) (l.parse_u256 s)

  unfoldable pub bytes_from_str : List ℕ → Result (List ℕ) Bytes
  bytes_from_str s = map_err (λ e. codes "Failed to parse Bytes: " ++ e) (l.decode (trim_prefix s))

  unfoldable pub commitment_from_str : List ℕ → Result (List ℕ) KzgCommitment
  commitment_from_str s = do
    bytes ← l.decode_prefixed s
    if length bytes == bytes_per_commitment
        then ok (record { bytes = bytes })
        else err (
            codes "InvalidByteLength: got "
            ++ decimal (length bytes)
            ++ codes ", expected "
            ++ decimal bytes_per_commitment)

  -- `Debug`, which `Serialize` goes through.
  unfoldable pub serialize_commitment : KzgCommitment → List ℕ
  serialize_commitment c = l.encode_prefixed c.bytes

  unfoldable pub deserialize_commitment : List ℕ → Result (List ℕ) KzgCommitment
  unfolding commitment_from_str
  deserialize_commitment s = commitment_from_str s

  -- `Display`
  unfoldable pub display_b256 : B256 → List ℕ
  display_b256 h = l.encode h.bytes

  unfoldable pub display_address : Address → List ℕ
  display_address a = l.encode a.bytes

  -- `serde_logs_bloom`, for the vectors of one size.
  unfoldable pub serialize_logs_bloom : Bytes → List ℕ
  serialize_logs_bloom bytes = codes "0x" ++ l.encode bytes

  unfoldable pub deserialize_logs_bloom : ℕ → List ℕ → Result (List ℕ) Bytes
  deserialize_logs_bloom size s = do
    vec ← l.visit_hex s
    map_err (λ e. codes "invalid logs bloom: " ++ e) (l.new_fixed size vec)

  -- `quoted_variable_list_u64`, for the lists of one bound.
  unfoldable pub serialize_quoted : List ℕ → List (List ℕ)
  serialize_quoted value = map l.quoted value

  unfoldable pub deserialize_quoted : ℕ → List (List ℕ) → Result (List ℕ) (List ℕ)
  deserialize_quoted bound seq = do
    vec ← l.visit_quoted seq
    map_err (λ e. codes "invalid length: " ++ e) (l.new_variable bound vec)

  -- A commitment of the right size comes back from its text, if hex texts do.
  pub deserialize-serialize_commitment :
      (c : KzgCommitment)
      → l.decode_prefixed (l.encode_prefixed c.bytes) ≡ ok c.bytes
      → length c.bytes ≡ bytes_per_commitment
      → deserialize_commitment (serialize_commitment c) ≡ ok c
  unfolding deserialize_commitment serialize_commitment commitment_from_str
  deserialize-serialize_commitment c back size = ground arith

  -- Text with any number of prefixes `0x` is read as the text without them.
  pub bytes_from_str-prefix : (s : List ℕ) → bytes_from_str (codes "0x" ++ s) ≡ bytes_from_str s
  unfolding bytes_from_str trim_prefix
  bytes_from_str-prefix [] = refl
  bytes_from_str-prefix (c ∷ []) = refl
  bytes_from_str-prefix (c ∷ d ∷ s) = refl
