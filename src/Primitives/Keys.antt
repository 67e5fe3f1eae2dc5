-- ===== src/Primitives/Keys.antt =====
-- crates/primitives/src/blst: public keys and signatures. A point of the curve is kept as its
-- compressed bytes: the source compares, hashes and prints keys by these alone.
use rs_mev_relay.Prelude.{
  ℕ, Bool, true, false, Option, none, some, Result, ok, ◌>>=◌, ite, replicate, ◌∷◌, ℕ_discrete,
}
use rs_mev_relay.Primitives.Bytes.{Bytes, B256}

pub record BlsPublicKey : Type 0 where
  pub point : Bytes

unfoldable pub BlsPublicKey-discrete : Discrete BlsPublicKey
BlsPublicKey-discrete = hlevel ℕ_discrete

unfoldable pub Bytes-discrete : Discrete Bytes
Bytes-discrete = hlevel ℕ_discrete

-- `GenericSignature`: no point stands for the empty signature.
pub record BlsSignature : Type 0 where
  pub point : Option Bytes
  pub is_infinity : Bool

abbrev pub signature_bytes_len : ℕ
signature_bytes_len = 96

abbrev pub none_signature : Bytes
none_signature = replicate signature_bytes_len 0

abbrev pub infinity_signature : Bytes
infinity_signature = 0xc0 ∷ replicate 95 0

unfoldable pub empty : BlsSignature
empty = record { point = none; is_infinity = false }

unfoldable pub from_point : Bytes → Bool → BlsSignature
from_point point is_infinity = record { point = some point; is_infinity = is_infinity }

unfoldable pub serialize : BlsSignature → Bytes
serialize s = elim s.point [ none ↦ none_signature | some point ↦ point ]

-- `Sig::deserialize` is foreign: the compressed bytes of the point that it reads.
unfoldable pub deserialize {ℓ} :
    {E : Type ℓ} → (Bytes → Result E Bytes) → Bytes → Result E BlsSignature
deserialize read_point bytes = do
  point ← ite (Bytes-discrete bytes none_signature) (ok none) (do p ← read_point bytes; ok (some p))
  ok (record {
    point = point;
    is_infinity = ite (Bytes-discrete bytes infinity_signature) true false;
  })

-- `point_verify` is the foreign pairing check; the empty signature verifies nothing.
unfoldable pub verify : (Bytes → Bytes → B256 → Bool) → BlsSignature → BlsPublicKey → B256 → Bool
verify point_verify s pubkey msg = elim s.point [
  | none ↦ false
  | some point ↦ point_verify point pubkey.point msg
]
