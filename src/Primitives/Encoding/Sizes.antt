-- ===== src/Primitives/Encoding/Sizes.antt =====
-- The checked conversions from bytes (`TryFrom<Vec<u8>>`) of crates/primitives/src/types.rs.
use Prim.Native.String.{String}
use rs_mev_relay.Prelude.{
  ◌≡◌, ◌≢◌, ◌↔◌, refl, ap, sym, ℕ, Result, ok, err, length, arith, ◌==◌, ◌∙◌, if◌then◌else◌,
}
use rs_mev_relay.Primitives.Bytes.{
  Bytes, B256, Address, Bytes48, Bloom, Blob, ConversionError, incorrect_length, try_b256,
  try_address, try_bytes48, try_bloom, try_blob, hash_size, bloom_size, bytes_per_blob,
}

-- A conversion that takes the arrays of one size as they are, and names the size of any other.
pub record IsExact {T : Type 0} (name : String) (size : ℕ) (to_vec : T → Bytes)
    (convert : Bytes → Result ConversionError T) : Type 0 where
  pub accepts :
      (bytes : Bytes) (t : T)
      → (convert bytes ≡ ok t) ↔ ((length bytes ≡ size) × (to_vec t ≡ bytes))
  pub rejects :
      (bytes : Bytes)
      → length bytes ≢ size
      → convert bytes ≡ err (incorrect_length name size (length bytes))

module _ {T : Type 0} (name : String) (size : ℕ) (wrap : Bytes → T) (to_vec : T → Bytes)
    (unwrap : (bytes : Bytes) → to_vec (wrap bytes) ≡ bytes)
    (rewrap : (t : T) → wrap (to_vec t) ≡ t) where
  sized-IsExact : IsExact name size to_vec (λ bytes.
      if length bytes == size
      then ok (wrap bytes)
      else err (incorrect_length name size (length bytes)))
  sized-IsExact = record {
    accepts = λ bytes t. (
      λ e.
          let same = unwrap bytes in
          (
            ground arith,
            let wrapped : wrap bytes ≡ t = ground arith in ap to_vec (sym wrapped) ∙ same,
          ),
      λ (len, same). let wrapped = ap wrap (sym same) ∙ rewrap t in ground arith,
    );
    rejects = λ bytes n. ground arith;
  }

-- Each conversion of bytes takes just the arrays of its type's size, and takes them as they are;
-- of any other it gives the length that was expected and the one that it got: hashes of 32 bytes,
-- addresses of 20, commitments of 48, blooms of 256 and blobs of 131072.
pub conversions-IsExact :
    IsExact "HASH" hash_size (λ (h : B256). h.bytes) try_b256
    × IsExact "Address" 20 (λ (a : Address). a.bytes) try_address
    × IsExact "Bytes48" 48 (λ (c : Bytes48). c.bytes) try_bytes48
    × IsExact "Bloom" bloom_size (λ (b : Bloom). b.bytes) try_bloom
    × IsExact "Blob" bytes_per_blob (λ (b : Blob). b.bytes) try_blob
unfolding try_b256 try_address try_bytes48 try_bloom try_blob
conversions-IsExact = (
  sized-IsExact _ _ (λ b. record { bytes = b }) _ (λ b. refl) (λ t. refl),
  sized-IsExact _ _ (λ b. record { bytes = b }) _ (λ b. refl) (λ t. refl),
  sized-IsExact _ _ (λ b. record { bytes = b }) _ (λ b. refl) (λ t. refl),
  sized-IsExact _ _ (λ b. record { bytes = b }) _ (λ b. refl) (λ t. refl),
  sized-IsExact _ _ (λ b. record { bytes = b }) _ (λ b. refl) (λ t. refl),
)
