-- ===== src/Relay/Locks.antt =====
-- Handlers that overlap at every access of the storage: an access is one hold of the lock of
-- crates/storage/src/in_memory/mod.rs, or one gauge or counter of
-- crates/primitives/src/metrics/mod.rs, and between any two accesses of a handler the accesses of
-- others may come. A handler is a program of accesses here.
pub mod Accesses
pub mod Bids
pub mod Proposals
pub mod Duties
pub mod Routes
pub mod Ensures
pub mod Kept
pub mod Interleaved
pub mod Sound
pub mod Signed
pub mod Genuine
pub mod Window
pub mod Mixed
pub mod Reading
pub mod Refusals
pub mod Owes
pub mod Grows
pub mod Released
pub mod Best
use rs_mev_relay.Prelude.{◌≡◌, refl, Bool, List, [], ◌∷◌, Result, ok, err, guard, arith}
use rs_mev_relay.Storage.{InMemoryStorage}

-- A handler that returns, reads the storage once and goes on, or writes it once and goes on.
pub data Program {ℓ} (A : Type ℓ) : Type ℓ where
  returns : A → Program A
  reads : (InMemoryStorage → Program A) → Program A
  writes : (InMemoryStorage → InMemoryStorage) → Program A → Program A

abbrev pub Handler {ℓ κ} : Type ℓ → Type κ → Type (ℓ ⊔ κ)
Handler E A = Program (Result E A)

infixl 5 ◌>>=◌ ◌>>◌
-- `?` in a handler: an error ends it.
unfoldable pub ◌>>=◌ {ℓ κ μ} :
    {E : Type ℓ} {A : Type κ} {B : Type μ} → Handler E A → (A → Handler E B) → Handler E B
returns (err e) >>= next = returns (err e)
returns (ok a) >>= next = next a
reads k >>= next = reads (λ s. k s >>= next)
writes f p >>= next = writes f (p >>= next)

abbrev pub ◌>>◌ {ℓ κ} : {E : Type ℓ} {B : Type κ} → Handler E (Unit {0}) → Handler E B → Handler E B
first >> rest = first >>= λ done. rest

abbrev pub get {ℓ κ} : {E : Type ℓ} {A : Type κ} → (InMemoryStorage → A) → Handler E A
get f = reads (λ s. returns (ok (f s)))

abbrev pub put {ℓ} : {E : Type ℓ} → (InMemoryStorage → InMemoryStorage) → Handler E (Unit {0})
put f = writes f (returns (ok tt))

abbrev pub check {ℓ} : {E : Type ℓ} → Bool → E → Handler E (Unit {0})
check test stop = returns (guard test stop)

abbrev pub map_reply {ℓ κ} : {A : Type ℓ} {B : Type κ} → (A → B) → Program A → Program B
map_reply g (returns a) = returns (g a)
map_reply g (reads k) = reads (λ s. map_reply g (k s))
map_reply g (writes f p) = writes f (map_reply g p)

-- The program when nothing comes between its accesses.
unfoldable pub alone {ℓ} : {A : Type ℓ} → Program A → InMemoryStorage → InMemoryStorage × A
alone (returns a) s = (s, a)
alone (reads k) s = alone (k s) s
alone (writes f p) s = alone p (f s)

pub alone-map_reply {ℓ κ} :
    {A : Type ℓ} {B : Type κ} (g : A → B) (p : Program A) (s : InMemoryStorage)
    → alone (map_reply g p) s ≡ ((alone p s).0, g (alone p s).1)
unfolding alone
alone-map_reply g (returns a) s = refl
alone-map_reply g (reads k) s = alone-map_reply g (k s) s
alone-map_reply g (writes f p) s = alone-map_reply g p (f s)

module _ {ℓ κ} {E : Type ℓ} {A : Type κ} where
  -- A step that only computes, before steps that only read, is the step of the result.
  pub alone-returns {μ} :
      {B : Type μ} (r : Result E A) (next : A → Handler E B) (result : A → Result E B)
      (s : InMemoryStorage)
      → ((a : A) → alone (next a) s ≡ (s, result a))
      → alone (returns r >>= next) s ≡ (s, elim r [ err e ↦ err e | ok a ↦ result a ])
  unfolding alone ◌>>=◌
  alone-returns (err e) next result s h = refl
  alone-returns (ok a) next result s h = h a

  -- What follows a program that only read.
  pub alone-after {μ} :
      {B : Type μ} (p : Handler E A) (next : A → Handler E B) (s t : InMemoryStorage)
      (r : Result E A)
      → alone p s ≡ (t, r)
      → alone (p >>= next) s ≡ elim r [ err e ↦ (t, err e) | ok a ↦ alone (next a) t ]
  unfolding alone ◌>>=◌
  alone-after (returns (err e)) next s t r h = ground arith
  alone-after (returns (ok a)) next s t r h = ground arith
  alone-after (reads k) next s t r h = alone-after (k s) next s t r h
  alone-after (writes f p) next s t r h = alone-after p next (f s) t r h
