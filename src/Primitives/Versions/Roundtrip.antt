-- ===== src/Primitives/Versions/Roundtrip.antt =====
-- Fork versions (crates/primitives/src/blst/signer.rs), read from their digits.
use Prim.Native.String.{String}
use rs_mev_relay.Prelude.{
  ℕ, ◌+◌, ◌/◌, ◌%◌, ltb, List, [], ◌∷◌, ◌++◌, length, Result, ok, codes, ◌≡◌, refl, ap, ◌∙◌, arith,
  if◌then◌else◌,
}
use rs_mev_relay.Primitives.Bytes.{Bytes}
use rs_mev_relay.Primitives.Versions.{ForkVersion, trim_prefix, from_str}

-- Bytes as hexadecimal digits in lower case.
unfoldable pub hex_digit : ℕ → ℕ
hex_digit n = if ltb n 10 then 48 + n else 87 + n

unfoldable pub hex_encode : Bytes → List ℕ
hex_encode [] = []
hex_encode (b ∷ bytes) = hex_digit (b / 16 % 16) ∷ hex_digit (b % 16) ∷ hex_encode bytes

trim_prefix-hex_encode : (bytes : Bytes) → trim_prefix (hex_encode bytes) ≡ hex_encode bytes
unfolding trim_prefix hex_encode hex_digit
trim_prefix-hex_encode [] = refl
trim_prefix-hex_encode (b ∷ bytes) = ground arith

from_str_of_trim :
    (hex_decode : List ℕ → Result String Bytes) (text : List ℕ) (version : ForkVersion)
    → hex_decode (trim_prefix text) ≡ ok version.bytes
    → length version.bytes ≡ 4
    → from_str hex_decode text ≡ ok version
unfolding from_str
from_str_of_trim hex_decode text version decoded four = rw (decoded, from_str) (rw four refl)

-- A fork version is read from its four bytes in hexadecimal digits, with and without the prefix 0x,
-- if the library decodes what is so encoded.
pub from_str-hex_encode :
    (hex_decode : List ℕ → Result String Bytes)
    → ((bytes : Bytes) → hex_decode (hex_encode bytes) ≡ ok bytes)
    → (version : ForkVersion) → length version.bytes ≡ 4
    → (from_str hex_decode (hex_encode version.bytes) ≡ ok version)
      × (from_str hex_decode (codes "0x" ++ hex_encode version.bytes) ≡ ok version)
unfolding trim_prefix
from_str-hex_encode hex_decode decodes version four =
    let trimmed = ap hex_decode (trim_prefix-hex_encode version.bytes) ∙ decodes version.bytes in
    (
      from_str_of_trim hex_decode (hex_encode version.bytes) version trimmed four,
      from_str_of_trim hex_decode (codes "0x" ++ hex_encode version.bytes) version trimmed four,
    )
