-- ===== src/Prelude/Lists.antt =====
-- Lists over the native numbers, under the library's names, and the tests of `Vec` and `Option`.
use Prim.Native.Nat.{ℕ, zero, suc, ◌+◌}
use mathlib.Core.Path.{◌≡◌, sym}
use mathlib.Core.Logic.{ite, ◌↔◌, if_pos, if_neg}
use mathlib.Core.Bool.{Bool, true, false, Bool-set}
use mathlib.Core.List.{
  List, [], ◌∷◌, ◌++◌, Mem, mem-cons_self, mem-cons_of_mem, eq-or-mem_of_mem-cons, not-mem-nil,
}
use mathlib.Core.Logic.Or
use mathlib.Core.Option.{Option, none, some}
use native.Mathlib.Omega.{arith}

module _ {ℓ} {A : Type ℓ} where
  abbrev pub length : List A → ℕ
  length [] = 0
  length (x ∷ xs) = suc (length xs)

  abbrev pub take : ℕ → List A → List A
  take zero xs = []
  take (suc n) [] = []
  take (suc n) (x ∷ xs) = x ∷ take n xs

  abbrev pub replicate : ℕ → A → List A
  replicate zero a = []
  replicate (suc n) a = a ∷ replicate n a

  abbrev pub is_empty : List A → Bool
  is_empty [] = true
  is_empty (x ∷ xs) = false

  abbrev pub is_none : Option A → Bool
  is_none none = true
  is_none (some a) = false

  pub length-append : (xs ys : List A) → length (xs ++ ys) ≡ length xs + length ys
  length-append [] ys = omega arith
  length-append (x ∷ xs) ys = omega (arith, length-append xs ys)

  -- `iter().find(p)`.
  abbrev pub find : (A → Bool) → List A → Option A
  find p [] = none
  find p (x ∷ xs) = elim (p x) [ true ↦ some x | false ↦ find p xs ]

module _ {ℓ} {A : Type ℓ} (dec : Discrete A) where
  -- `contains`.
  abbrev pub contains : List A → A → Bool
  contains [] a = false
  contains (x ∷ xs) a = ite (dec x a) true (contains xs a)

  mem_of_contains : (xs : List A) (a : A) → contains xs a ≡ true → Mem a xs
  mem_of_contains [] a h = cc
  mem_of_contains (x ∷ xs) a h = elim (dec x a) [
    | yes p ↦ rw p mem-cons_self
    | no p ↦ mem-cons_of_mem x (mem_of_contains xs a (ground arith))
  ]

  contains_of_mem : (xs : List A) (a : A) → Mem a xs → contains xs a ≡ true
  contains_of_mem [] a m = absurd (not-mem-nil m)
  contains_of_mem (x ∷ xs) a m = elim (dec x a) [
    | yes p ↦ rw (if_pos _ p)
    | no p ↦ rw (if_neg _ p) (
        Or.elim (Bool-set _ _) (eq-or-mem_of_mem-cons m) (λ e. absurd (p (sym e)))
          (contains_of_mem xs a))
  ]

  pub contains_iff : (xs : List A) (a : A) → (contains xs a ≡ true) ↔ Mem a xs
  contains_iff xs a = (mem_of_contains xs a, contains_of_mem xs a)

-- Each element has the property.
abbrev pub All {ℓ κ} : {A : Type ℓ} → (A → Type κ) → List A → Type κ
All P [] = Unit
All P (x ∷ xs) = P x × All P xs

module _ {ℓ κ} {A : Type ℓ} (P : A → Type κ) where
  pub All-append : (xs ys : List A) → All P xs → All P ys → All P (xs ++ ys)
  All-append [] ys all more = more
  All-append (x ∷ xs) ys (p, all) more = (p, All-append xs ys all more)

  pub All_left : (xs ys : List A) → All P (xs ++ ys) → All P xs
  All_left [] ys all = tt
  All_left (x ∷ xs) ys (p, all) = (p, All_left xs ys all)

  pub All_right : (xs ys : List A) → All P (xs ++ ys) → All P ys
  All_right [] ys all = all
  All_right (x ∷ xs) ys (p, all) = All_right xs ys all
