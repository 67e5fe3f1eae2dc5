-- ===== src/Prelude/Texts.antt =====
-- Text as the code points of its characters, and `Display` of numbers.
use Prim.Native.Char.{code}
use Prim.Native.Nat.{ℕ, zero, suc, ◌+◌, ◌-◌, ◌*◌, ◌/◌, ◌%◌, ◌<◌}
use Prim.Native.String.{String}
use mathlib.Core.Bool.{Bool, true, false, ◌&&◌}
use mathlib.Core.Path.{◌≡◌, refl, sym, ap, ◌∙◌}
use mathlib.Core.List.{List, [], ◌∷◌}
use native.Mathlib.Omega.{arith}
use native.Mathlib.Decide.{dec_lt}
use rs_mev_relay.Prelude.Tests.{ltb, lt→ltb, not_lt→ltb, ◌==◌, if◌then◌else◌}

abbrev pub codes : String → List ℕ
codes String.[] = []
codes (String.◌∷◌ c s) = code c ∷ codes s

-- The digits of a number before those that are there. The fuel is at least the number of digits.
unfoldable pub decimal_from : ℕ → ℕ → List ℕ → List ℕ
decimal_from zero n digits = digits
decimal_from (suc fuel) n digits =
    let more = decimal_from fuel (n / 10) ((48 + n % 10) ∷ digits) in
    if ltb n 10 then (48 + n) ∷ digits else more

unfoldable pub decimal : ℕ → List ℕ
decimal n = decimal_from (suc n) n []

-- The number that digits spell, after those that are read.
abbrev value_from : ℕ → List ℕ → ℕ
value_from n [] = n
value_from n (c ∷ digits) = value_from (n * 10 + (c - 48)) digits

value_from-decimal_from :
    (fuel n : ℕ) (digits : List ℕ)
    → n < fuel
    → value_from 0 (decimal_from fuel n digits) ≡ value_from n digits
unfolding decimal_from
value_from-decimal_from zero n digits lt = absurd (omega arith)
value_from-decimal_from (suc fuel) n digits lt =
    let whole : n / 10 * 10 + (48 + n % 10 - 48) ≡ n = omega arith in
    let small : 0 * 10 + (48 + n - 48) ≡ n = omega arith in
    elim (dec_lt n 10) [
      | yes last ↦ rw (lt→ltb n 10 last) (ap (λ m. value_from m digits) small)
      | no more ↦ rw (not_lt→ltb n 10 more) (
          value_from-decimal_from fuel (n / 10) ((48 + n % 10) ∷ digits) (omega arith)
          ∙ ap (λ m. value_from m digits) whole)
    ]

-- Different numbers have different digits.
pub decimal-inj : (m n : ℕ) → decimal m ≡ decimal n → m ≡ n
unfolding decimal
decimal-inj m n same =
    sym (value_from-decimal_from (suc m) m [] (omega arith))
    ∙ ap (value_from 0) same
    ∙ value_from-decimal_from (suc n) n [] (omega arith)

-- `==` on texts.
abbrev pub same_text : List ℕ → List ℕ → Bool
same_text [] [] = true
same_text [] (d ∷ t) = false
same_text (c ∷ s) [] = false
same_text (c ∷ s) (d ∷ t) = c == d && same_text s t

pub same_text_refl : (s : List ℕ) → same_text s s ≡ true
same_text_refl [] = refl
same_text_refl (c ∷ s) = ground (arith, same_text_refl s)
