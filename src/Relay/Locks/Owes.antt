-- ===== src/Relay/Locks/Owes.antt =====
-- Delivered blocks stay delivered at every access of the handlers: what a program of accesses of
-- crates/storage/src/in_memory/mod.rs owes of its reply to the blocks that are delivered by then.
use rs_mev_relay.Prelude.{Bool, true, false, if◌then◌else◌, Result, ok, err}
use rs_mev_relay.Primitives.Bytes.{B256}
use rs_mev_relay.Storage.{InMemoryStorage}
use rs_mev_relay.Relay.Delivered.{IsDelivered}
use rs_mev_relay.Relay.Locks.Reading.{ReadsOnly}
use rs_mev_relay.Relay.Locks.{Program, returns, reads, writes, Handler, ◌>>=◌, map_reply}

-- What is delivered in the one storage is delivered in the other.
abbrev pub Later : InMemoryStorage → InMemoryStorage → Type 0
Later s t = (hash : B256) → IsDelivered s hash → IsDelivered t hash

-- No write takes a delivered block away.
abbrev pub Grows {ℓ} : {A : Type ℓ} → Program A → Type 0
Grows (returns a) = Unit
Grows (reads k) = (s : InMemoryStorage) → Grows (k s)
Grows (writes f p) = ((s : InMemoryStorage) → Later s (f s)) × Grows p

-- From a storage, whatever blocks others deliver between the accesses: no write takes one away, and
-- of what is returned H holds in the storage of that moment.
abbrev pub Owes {ℓ} :
    {A : Type ℓ} → (InMemoryStorage → A → Type 0) → InMemoryStorage → Program A → Type 0
Owes H s (returns a) = (t : InMemoryStorage) → Later s t → H t a
Owes H s (reads k) = (t : InMemoryStorage) → Later s t → Owes H t (k t)
Owes H s (writes f p) = (t : InMemoryStorage) → Later s t → Later t (f t) × Owes H (f t) p

pub Later-refl : (s : InMemoryStorage) → Later s s
Later-refl s hash h = h

Later-trans : (s t u : InMemoryStorage) → Later s t → Later t u → Later s u
Later-trans s t u first then_more hash h = then_more hash (first hash h)

pub Owes-Later {ℓ} :
    {A : Type ℓ} (H : InMemoryStorage → A → Type 0) (p : Program A) (s t : InMemoryStorage)
    → Later s t
    → Owes H s p
    → Owes H t p
Owes-Later H (returns a) s t later owes = λ u more. owes u (Later-trans s t u later more)
Owes-Later H (reads k) s t later owes = λ u more. owes u (Later-trans s t u later more)
Owes-Later H (writes f p) s t later owes = λ u more. owes u (Later-trans s t u later more)

pub Grows-Owes {ℓ} :
    {A : Type ℓ} (H : InMemoryStorage → A → Type 0) (p : Program A)
    → ((s : InMemoryStorage) (a : A) → H s a)
    → Grows p
    → (s : InMemoryStorage) → Owes H s p
Grows-Owes H (returns a) all grows s = λ t later. all t a
Grows-Owes H (reads k) all grows s = λ t later. Grows-Owes H (k t) all (grows t) t
Grows-Owes H (writes f p) all (keeps, grows) s =
    λ t later. (keeps t, Grows-Owes H p all grows (f t))

pub Owes-map_reply {ℓ κ} :
    {A : Type ℓ} {B : Type κ} (g : A → B) (p : Program A) (H : InMemoryStorage → B → Type 0)
    (s : InMemoryStorage)
    → Owes (λ t a. H t (g a)) s p
    → Owes H s (map_reply g p)
Owes-map_reply g (returns a) H s owes = owes
Owes-map_reply g (reads k) H s owes = λ t later. Owes-map_reply g (k t) H t (owes t later)
Owes-map_reply g (writes f p) H s owes =
    λ t later. ((owes t later).0, Owes-map_reply g p H (f t) (owes t later).1)

pub Grows-map_reply {ℓ κ} :
    {A : Type ℓ} {B : Type κ} (g : A → B) (p : Program A) → Grows p → Grows (map_reply g p)
Grows-map_reply g (returns a) grows = tt
Grows-map_reply g (reads k) grows = λ s. Grows-map_reply g (k s) (grows s)
Grows-map_reply g (writes f p) (keeps, grows) = (keeps, Grows-map_reply g p grows)

pub Grows-if {ℓ} :
    {A : Type ℓ} (test : Bool) (p q : Program A) → Grows p → Grows q → Grows (if test then p else q)
Grows-if true p q yes_too no_too = yes_too
Grows-if false p q yes_too no_too = no_too

pub ReadsOnly-Grows {ℓ} : {A : Type ℓ} (p : Program A) → ReadsOnly p → Grows p
ReadsOnly-Grows (returns a) only = tt
ReadsOnly-Grows (reads k) only = λ s. ReadsOnly-Grows (k s) (only s)
ReadsOnly-Grows (writes f p) only = absurd only

module _ {ℓ κ μ} {E : Type ℓ} {A : Type κ} {B : Type μ} where
  pub Grows-bind :
      (p : Handler E A) (more : A → Handler E B)
      → Grows p
      → ((a : A) → Grows (more a))
      → Grows (p >>= more)
  unfolding ◌>>=◌
  Grows-bind (returns (err e)) more grows rest = tt
  Grows-bind (returns (ok a)) more grows rest = rest a
  Grows-bind (reads k) more grows rest = λ s. Grows-bind (k s) more (grows s) rest
  Grows-bind (writes f p) more (keeps, grows) rest = (keeps, Grows-bind p more grows rest)

  pub Owes-bind :
      (H : InMemoryStorage → Result E B → Type 0) (p : Handler E A) (more : A → Handler E B)
      → ((s : InMemoryStorage) (e : E) → H s (err e))
      → Grows p
      → ((s : InMemoryStorage) (a : A) → Owes H s (more a))
      → (s : InMemoryStorage) → Owes H s (p >>= more)
  unfolding ◌>>=◌
  Owes-bind H (returns (err e)) more stop grows rest s = λ t later. stop t e
  Owes-bind H (returns (ok a)) more stop grows rest s = rest s a
  Owes-bind H (reads k) more stop grows rest s =
      λ t later. Owes-bind H (k t) more stop (grows t) rest t
  Owes-bind H (writes f p) more stop (keeps, grows) rest s =
      λ t later. (keeps t, Owes-bind H p more stop grows rest (f t))
