-- ===== src/Primitives/Roundtrip.antt =====
-- Signatures of crates/primitives/src/blst/signature.rs as bytes and back.
use rs_mev_relay.Prelude.{
  ◌≡◌, ◌≢◌, ok, some, true, false, Result, arith, ite, Option-cases, Result-cases, inl, inr,
}
use rs_mev_relay.Primitives.Bytes.{Bytes}
use rs_mev_relay.Primitives.Keys.{
  BlsSignature, Bytes-discrete, none_signature, infinity_signature, serialize, deserialize,
}

-- A point is read as itself and is not the none signature, and the flag tells infinity.
abbrev pub IsCanonical {ℓ} : {E : Type ℓ} → (Bytes → Result E Bytes) → BlsSignature → Type ℓ
IsCanonical read s =
    ((p : Bytes) → s.point ≡ some p → (read p ≡ ok p) × (p ≢ none_signature))
    × (s.is_infinity ≡ ite (Bytes-discrete (serialize s) infinity_signature) true false)

module _ {ℓ} {E : Type ℓ} (read : Bytes → Result E Bytes) where
  -- A canonical signature comes back from its bytes.
  pub deserialize-serialize :
      (s : BlsSignature) → IsCanonical read s → deserialize read (serialize s) ≡ ok s
  unfolding deserialize serialize
  deserialize-serialize s (canonical, flag) = elim (Option-cases s.point) [
    | inl e ↦ ground arith
    | inr (p, e) ↦ let (reads, differs) = canonical p e in ground arith
  ]

  -- Bytes that are read as a signature are its bytes, if the curve library reads a point only from
  -- the point's own bytes.
  pub serialize-deserialize :
      (bytes : Bytes) (s : BlsSignature)
      → ((p : Bytes) → read bytes ≡ ok p → p ≡ bytes)
      → deserialize read bytes ≡ ok s
      → serialize s ≡ bytes
  unfolding deserialize serialize
  serialize-deserialize bytes s own h = elim (Bytes-discrete bytes none_signature) [
    | yes e ↦ ground arith
    | no n ↦ elim (Result-cases (read bytes)) [
      | inl (p, e) ↦ let same = own p e in ground arith
      | inr (_, e) ↦ absurd (ground arith)
    ]
  ]
