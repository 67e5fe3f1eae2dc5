-- ===== src/Primitives/Versions.antt =====
-- crates/primitives/src/blst/signer.rs: fork versions, as four bytes and as text. The library hex's
-- `decode` comes in as a function.
pub mod Roundtrip
use Prim.Native.String.{String}
use rs_mev_relay.Prelude.{
  ℕ, List, [], ◌∷◌, ◌++◌, length, Result, ok, err, ◌>>=◌, map_err, codes, ◌==◌, if◌then◌else◌,
}
use rs_mev_relay.Primitives.Bytes.{Bytes}

pub record ForkVersion : Type 0 where
  pub bytes : Bytes

-- `NamedChain` of the library alloy-chains: the chains that are matched on, and any other by its name.
pub data NamedChain : Type 0 where
  mainnet goerli holesky sepolia dev : NamedChain
  other : (debug : List ℕ) → NamedChain

-- `trim_start_matches("0x")`, which takes the prefix off as often as it stands there.
unfoldable pub trim_prefix : List ℕ → List ℕ
trim_prefix [] = []
trim_prefix (c ∷ []) = c ∷ []
trim_prefix (c ∷ d ∷ s) =
    let rest = trim_prefix s in
    if c == 48 then (if d == 120 then rest else c ∷ d ∷ s) else c ∷ d ∷ s

module _ (hex_decode : List ℕ → Result String Bytes) where
  unfoldable pub from_str : List ℕ → Result (List ℕ) ForkVersion
  from_str s = do
    bytes ← map_err (λ e. codes "Invalid fork version: " ++ codes e) (hex_decode (trim_prefix s))
    if length bytes == 4
        then ok (record { bytes = bytes })
        else err (codes "Invalid fork version length")

  -- The genesis version of a chain; the match's last arm is an error.
  unfoldable pub try_from_chain : NamedChain → Result (List ℕ) ForkVersion
  try_from_chain mainnet = from_str (codes "0x00000000")
  try_from_chain goerli = from_str (codes "0x00001020")
  try_from_chain holesky = from_str (codes "0x01017000")
  try_from_chain sepolia = from_str (codes "0x90000069")
  try_from_chain dev = from_str (codes "0x20000089")
  try_from_chain (other debug) = err (codes "Unsupported chain: " ++ debug)
