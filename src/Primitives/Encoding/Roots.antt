-- ===== src/Primitives/Encoding/Roots.antt =====
-- The tree hash roots of the wrapped types (crates/primitives/src/blst/mod.rs).
use rs_mev_relay.Prelude.{◌≡◌, refl, ap, ◌∙◌, sym, ℕ, ◌<◌, ◌^◌, length, length-append, arith}
use rs_mev_relay.Primitives.Bytes.{Bytes, B256}
use rs_mev_relay.Primitives.Encoding.{TreeHash, b256_tree_hash, u256_tree_hash, address_tree_hash}
use rs_mev_relay.Primitives.Encoding.Fixed.{Is20, Fits, append_cancel}

-- A root is the one chunk of 32 bytes that is packed, and different for different values.
pub record IsLeaf {T : Type 0} (IsValid : T → Type 0) (h : TreeHash T) : Type 0 where
  pub packed : (v : T) → h.tree_hash_packed_encoding v ≡ (h.tree_hash_root v).bytes
  pub chunk : (v : T) → IsValid v → length (h.tree_hash_root v).bytes ≡ 32
  pub root_inj : (v w : T) → IsValid v → IsValid w → h.tree_hash_root v ≡ h.tree_hash_root w → v ≡ w

pub b256_tree_hash-IsLeaf : IsLeaf (λ (h : B256). length h.bytes ≡ 32) b256_tree_hash
unfolding b256_tree_hash
b256_tree_hash-IsLeaf = record { packed = λ h. refl; chunk = λ h e. e; root_inj = λ g h _ _ e. e }

pub u256_tree_hash-IsLeaf :
    (as_le_slice : ℕ → Bytes)
    → ((n : ℕ) → length (as_le_slice n) ≡ 32)
    → ((m n : ℕ) → m < 2 ^ 256 → n < 2 ^ 256 → as_le_slice m ≡ as_le_slice n → m ≡ n)
    → IsLeaf Fits (u256_tree_hash as_le_slice)
unfolding u256_tree_hash
u256_tree_hash-IsLeaf as_le_slice len inj = record {
  packed = λ v. refl;
  chunk = λ v h. len v.value;
  root_inj = λ v w hv hw e.
      let same = inj v.value w.value hv hw (ap (λ (h : B256). h.bytes) e) in
      λ i. record { value = same i };
}

-- The padding of an address takes nothing away from it.
pub address_tree_hash-IsLeaf : IsLeaf Is20 address_tree_hash
unfolding address_tree_hash
address_tree_hash-IsLeaf = record {
  packed = λ a. refl;
  chunk = λ a h. length-append a.bytes _ ∙ omega arith;
  root_inj = λ a b ha hb e.
      let bytes = ap (λ (h : B256). h.bytes) e in
      let (same, _) = append_cancel a.bytes b.bytes _ _ (ha ∙ sym hb) bytes in
      λ i. record { bytes = same i };
}
