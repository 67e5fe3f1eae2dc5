-- ===== src/Prelude/Maps.antt =====
-- `HashMap`: an association list with the library's `lookup`. An insert under a key that is there
-- writes its value in place, so that no key stands twice.
use mathlib.Core.Path.{◌≡◌, refl}
use mathlib.Core.Logic.{ite, ◌⊎◌, inl, inr}
use mathlib.Core.List.{List, [], ◌∷◌, lookup}
use mathlib.Core.Option.{Option, some}
use native.Mathlib.Omega.{arith}

abbrev pub HashMap {ℓ} : Type ℓ → Type ℓ → Type ℓ
HashMap K V = List (K × V)

module _ {ℓ} {K V : Type ℓ} (dec : Discrete K) where
  unfoldable pub insert : K → V → HashMap K V → HashMap K V
  insert k v [] = (k, v) ∷ []
  insert k v ((j, w) ∷ m) = ite (dec k j) ((k, v) ∷ m) ((j, w) ∷ insert k v m)

  -- Reading after a write: the new value under the written key, the old one elsewhere.
  pub lookup-insert :
      (k j : K) (v : V) (m : HashMap K V)
      → lookup dec j (insert k v m) ≡ ite (dec j k) (some v) (lookup dec j m)
  unfolding insert lookup
  lookup-insert k j v [] = refl
  lookup-insert k j v ((i, w) ∷ m) = ground (arith, lookup-insert k j v m)

-- A value read after a write is the written one, or was there before.
pub ite-eq-some {ℓ κ} :
    {P : Type ℓ} {A : Type κ} (d : Dec P) (a : A) (o : Option A) {b : A}
    → ite d (some a) o ≡ some b
    → (P × (a ≡ b)) ⊎ (o ≡ some b)
ite-eq-some (yes p) a o h = inl (p, cc)
ite-eq-some (no p) a o h = inr h
