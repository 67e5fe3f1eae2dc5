-- ===== src/Primitives/Encoding/Fixed.antt =====
-- The wrapped types of crates/primitives/src/types.rs have encodings of fixed length, which can be
-- taken apart again.
use rs_mev_relay.Prelude.{
  ◌≡◌, refl, ap, sym, ◌∙◌, ℕ, ◌+◌, ◌*◌, ◌^◌, ◌<◌, true, List, [], ◌∷◌, ◌++◌, length, length-append,
  All, arith,
}
use rs_mev_relay.Primitives.Bytes.{Bytes, U256, Address}
use rs_mev_relay.Primitives.Encoding.{Encode, u256_encode, address_encode, append_all}

-- What an encoding of fixed length promises for the values that are valid: it appends a text of
-- just that length, different for different values.
pub record IsFixed {T : Type 0} (IsValid : T → Type 0) (e : Encode T) : Type 0 where
  pub fixed : e.is_ssz_fixed_len ≡ true
  pub bytes_len : (v : T) → IsValid v → e.ssz_bytes_len v ≡ e.ssz_fixed_len
  pub own : T → Bytes
  pub append : (v : T) (buf : Bytes) → e.ssz_append v buf ≡ buf ++ own v
  pub own_len : (v : T) → IsValid v → length (own v) ≡ e.ssz_fixed_len
  pub own_inj : (v w : T) → IsValid v → IsValid w → own v ≡ own w → v ≡ w

abbrev pub Is20 : Address → Type 0
Is20 a = length a.bytes ≡ 20

abbrev pub Fits : U256 → Type 0
Fits v = v.value < 2 ^ 256

pub address_encode-IsFixed : IsFixed Is20 address_encode
unfolding address_encode
address_encode-IsFixed = record {
  fixed = refl;
  bytes_len = λ a h. refl;
  own = λ a. a.bytes;
  append = λ a buf. refl;
  own_len = λ a h. h;
  own_inj = λ a b _ _ e i. record { bytes = e i };
}

pub u256_encode-IsFixed :
    (as_le_slice : ℕ → Bytes)
    → ((n : ℕ) → length (as_le_slice n) ≡ 32)
    → ((m n : ℕ) → m < 2 ^ 256 → n < 2 ^ 256 → as_le_slice m ≡ as_le_slice n → m ≡ n)
    → IsFixed Fits (u256_encode as_le_slice)
unfolding u256_encode
u256_encode-IsFixed as_le_slice len inj = record {
  fixed = refl;
  bytes_len = λ v h. refl;
  own = λ v. as_le_slice v.value;
  append = λ v buf. refl;
  own_len = λ v h. len v.value;
  own_inj = λ v w hv hw e. let same = inj v.value w.value hv hw e in λ i. record { value = same i };
}

pub append_cancel :
    {A : Type 0} (xs ys us vs : List A)
    → length xs ≡ length ys
    → xs ++ us ≡ ys ++ vs
    → (xs ≡ ys) × (us ≡ vs)
append_cancel [] [] us vs len e = (refl, e)
append_cancel [] (y ∷ ys) us vs len e = absurd (omega arith)
append_cancel (x ∷ xs) [] us vs len e = absurd (omega arith)
append_cancel (x ∷ xs) (y ∷ ys) us vs len e =
    let (tails, rest) = append_cancel xs ys us vs (omega arith) cc in
    let heads : x ≡ y = cc in (λ i. heads i ∷ tails i, rest)

mul_cancel : (k m n : ℕ) → 0 < k → m * k ≡ n * k → m ≡ n
mul_cancel k m n pos e = grind arith

module _ {T : Type 0} (IsValid : T → Type 0) (e : Encode T) (fixed : IsFixed IsValid e) where
  length-ssz_append :
      (v : T) (buf : Bytes) → IsValid v → length (e.ssz_append v buf) ≡ length buf + e.ssz_fixed_len
  length-ssz_append v buf valid =
      rw (fixed.append v buf)
        (length-append buf (fixed.own v) ∙ ap (λ n. length buf + n) (fixed.own_len v valid))

  -- A sequence of values takes its number of values times the fixed length.
  pub length-append_all :
      (vs : List T) (buf : Bytes)
      → All IsValid vs
      → length (append_all e vs buf) ≡ length buf + length vs * e.ssz_fixed_len
  unfolding append_all
  length-append_all [] buf valid = omega arith
  length-append_all (v ∷ vs) buf (one, valid) =
      let step = length-ssz_append v buf one in
      let rest = length-append_all vs (e.ssz_append v buf) valid in grind arith

  own_length :
      (v w : T) (b c : Bytes)
      → IsValid v
      → IsValid w
      → length b ≡ length c
      → length (e.ssz_append v b) ≡ length (e.ssz_append w c)
  own_length v w b c hv hw len =
      let one = length-ssz_append v b hv in let other = length-ssz_append w c hw in omega arith

  own_append :
      (v w : T) (b c : Bytes)
      → IsValid v
      → IsValid w
      → length b ≡ length c
      → e.ssz_append v b ≡ e.ssz_append w c
      → (b ≡ c) × (v ≡ w)
  own_append v w b c hv hw len same =
      let both = sym (fixed.append v b) ∙ same ∙ fixed.append w c in
      let (bufs, owns) = append_cancel b c (fixed.own v) (fixed.own w) len both in
      (bufs, fixed.own_inj v w hv hw owns)

  append_all-same_length :
      (vs ws : List T) (b c : Bytes)
      → All IsValid vs
      → All IsValid ws
      → length vs ≡ length ws
      → length b ≡ length c
      → append_all e vs b ≡ append_all e ws c
      → (b ≡ c) × (vs ≡ ws)
  unfolding append_all
  append_all-same_length [] [] b c _ _ many len same = (same, refl)
  append_all-same_length [] (w ∷ ws) b c _ _ many len same = absurd (omega arith)
  append_all-same_length (v ∷ vs) [] b c _ _ many len same = absurd (omega arith)
  append_all-same_length (v ∷ vs) (w ∷ ws) b c (hv, hvs) (hw, hws) many len same =
      let longer = own_length v w b c hv hw len in
      let (bufs, rest) =
        append_all-same_length vs ws (e.ssz_append v b) (e.ssz_append w c) hvs hws (omega arith)
          longer same in
      let (before, heads) = own_append v w b c hv hw len bufs in (before, λ i. heads i ∷ rest i)

  -- Nothing is lost in a sequence: two sequences of valid values that are appended to the same
  -- bytes with the same result are the same, if the fixed length is not zero.
  pub append_all-inj :
      (vs ws : List T) (buf : Bytes)
      → All IsValid vs
      → All IsValid ws
      → 0 < e.ssz_fixed_len
      → append_all e vs buf ≡ append_all e ws buf
      → vs ≡ ws
  append_all-inj vs ws buf hvs hws pos same =
      let lens =
        sym (length-append_all vs buf hvs) ∙ ap length same ∙ length-append_all ws buf hws in
      let many = mul_cancel e.ssz_fixed_len (length vs) (length ws) pos (omega arith) in
      (append_all-same_length vs ws buf buf hvs hws many refl same).1
