-- ===== src/Relay/Locks/Ensures.antt =====
-- What a program of accesses keeps of the storage, and what it returns, whatever others do between
-- its accesses as long as they keep the same.
use rs_mev_relay.Prelude.{
  [], ◌≡◌, refl, Bool, true, false, if◌then◌else◌, Result, ok, err, Option, none, some, ok_or, ◌∷◌,
  All, All-append, All_left, All_right,
}
use rs_mev_relay.Storage.{InMemoryStorage}
use rs_mev_relay.Primitives.Domains.{ForkDatas}
use rs_mev_relay.Primitives.External.{External}
use rs_mev_relay.Primitives.Signing.{BlsSigner}
use rs_mev_relay.Relay.{Request}
use rs_mev_relay.Relay.Locks.{Program, returns, reads, writes, Handler, ◌>>=◌, get, map_reply}
use rs_mev_relay.Relay.Locks.Routes.{
  Config, Reply, Step, Reach, arrive, read, write, reply, here, next, route,
}

abbrev pub OnOk {ℓ κ} : {E : Type ℓ} {A : Type κ} → (A → Type 0) → Result E A → Type 0
OnOk Q (err e) = Unit
OnOk Q (ok a) = Q a

abbrev pub Any {ℓ} : {A : Type ℓ} → A → Type 0
Any a = Unit

pub OnOk-Any {ℓ κ} : {E : Type ℓ} {A : Type κ} (r : Result E A) → OnOk Any r
OnOk-Any (err e) = tt
OnOk-Any (ok a) = tt

pub OnOk-ok_or {ℓ κ} :
    {E : Type ℓ} {A : Type κ} (Q : A → Type 0) (found : Option A) (e : E)
    → ((a : A) → found ≡ some a → Q a)
    → OnOk Q (ok_or found e)
OnOk-ok_or Q none e h = tt
OnOk-ok_or Q (some a) e h = h a refl

module _ (P : InMemoryStorage → Type 0) where
  -- Each write keeps P; each read is of a storage where P holds; Q holds of what is returned.
  abbrev pub Ensures {ℓ} : {A : Type ℓ} → (A → Type 0) → Program A → Type 0
  Ensures Q (returns a) = Q a
  Ensures Q (reads k) = (s : InMemoryStorage) → P s → Ensures Q (k s)
  Ensures Q (writes f p) = ((s : InMemoryStorage) → P s → P (f s)) × Ensures Q p

  module _ {ℓ κ} {E : Type ℓ} {A : Type κ} where
    pub Ensures-get {μ} :
        {B : Type μ} (f : InMemoryStorage → A) (then_do : A → Handler E B) (R : Result E B → Type 0)
        → ((s : InMemoryStorage) → P s → Ensures R (then_do (f s)))
        → Ensures R (get f >>= then_do)
    unfolding ◌>>=◌
    Ensures-get f then_do R rest = rest

    pub Ensures-bind {μ} :
        {B : Type μ} (p : Handler E A) (then_do : A → Handler E B) (Q : A → Type 0)
        (R : Result E B → Type 0)
        → ((e : E) → R (err e))
        → Ensures (OnOk Q) p
        → ((a : A) → Q a → Ensures R (then_do a))
        → Ensures R (p >>= then_do)
    unfolding ◌>>=◌
    Ensures-bind (returns (err e)) then_do Q R on_err first rest = on_err e
    Ensures-bind (returns (ok a)) then_do Q R on_err first rest = rest a first
    Ensures-bind (reads k) then_do Q R on_err first rest =
        λ s h. Ensures-bind (k s) then_do Q R on_err (first s h) rest
    Ensures-bind (writes f p) then_do Q R on_err (keeps, first) rest =
        (keeps, Ensures-bind p then_do Q R on_err first rest)

    -- A step that only computes: what follows may use its result.
    pub Ensures-returns {μ} :
        {B : Type μ} (r : Result E A) (then_do : A → Handler E B) (Q : B → Type 0)
        → ((a : A) → r ≡ ok a → Ensures (OnOk Q) (then_do a))
        → Ensures (OnOk Q) (returns r >>= then_do)
    unfolding ◌>>=◌
    Ensures-returns (err e) then_do Q rest = tt
    Ensures-returns (ok a) then_do Q rest = rest a refl

  pub Ensures-if {ℓ} :
      {A : Type ℓ} (test : Bool) (p q : Program A) (Q : A → Type 0)
      → Ensures Q p
      → Ensures Q q
      → Ensures Q (if test then p else q)
  Ensures-if true p q Q yes_too no_too = yes_too
  Ensures-if false p q Q yes_too no_too = no_too

  pub Ensures-weaken {ℓ} :
      {A : Type ℓ} (p : Program A) (Q R : A → Type 0)
      → ((a : A) → Q a → R a)
      → Ensures Q p
      → Ensures R p
  Ensures-weaken (returns a) Q R f h = f a h
  Ensures-weaken (reads k) Q R f h = λ s hs. Ensures-weaken (k s) Q R f (h s hs)
  Ensures-weaken (writes g p) Q R f (keeps, h) = (keeps, Ensures-weaken p Q R f h)

  pub Ensures-map_reply {ℓ κ} :
      {A : Type ℓ} {B : Type κ} (g : A → B) (p : Program A) (Q : A → Type 0) (R : B → Type 0)
      → ((a : A) → Q a → R (g a))
      → Ensures Q p
      → Ensures R (map_reply g p)
  Ensures-map_reply g (returns a) Q R f h = f a h
  Ensures-map_reply g (reads k) Q R f h = λ s hs. Ensures-map_reply g (k s) Q R f (h s hs)
  Ensures-map_reply g (writes w p) Q R f (keeps, h) = (keeps, Ensures-map_reply g p Q R f h)

  module _ (x : External) (signer : BlsSigner) (forks : ForkDatas) (Q : Reply → Type 0)
      (routes : (r : Request) → Ensures Q (route x signer forks r)) where
    abbrev GoodRun : Program Reply → Type 0
    GoodRun p = Ensures Q p

    abbrev Good : Config → Type 0
    Good c = P c.storage × All GoodRun c.running × All Q c.replies

    Step-Good : {c d : Config} → Step x signer forks c d → Good c → Good d
    Step-Good (arrive s ps rs r) (h, all, replied) = (h, (routes r, all), replied)
    Step-Good (read s ps qs rs k) (h, all, replied) =
        let (now, later) = All_right GoodRun ps (reads k ∷ qs) all in
        let before = All_left GoodRun ps (reads k ∷ qs) all in
        (h, All-append GoodRun ps (k s ∷ qs) before (now s h, later), replied)
    Step-Good (write s ps qs rs f p) (h, all, replied) =
        let (now, later) = All_right GoodRun ps (writes f p ∷ qs) all in
        let before = All_left GoodRun ps (writes f p ∷ qs) all in
        (now.0 s h, All-append GoodRun ps (p ∷ qs) before (now.1, later), replied)
    Step-Good (reply s ps qs rs a) (h, all, replied) =
        let (now, later) = All_right GoodRun ps (returns a ∷ qs) all in
        let before = All_left GoodRun ps (returns a ∷ qs) all in
        (h, All-append GoodRun ps qs before later, (now, replied))

    Reach-Good : {c d : Config} → Reach x signer forks c d → Good c → Good d
    Reach-Good here good = good
    Reach-Good (next r s) good = Step-Good s (Reach-Good r good)

    -- What every route keeps at each access is kept however the accesses come, and what every
    -- route promises of its reply holds of all replies.
    pub Reach-promises :
        {c d : Config}
        → Reach x signer forks c d
        → c.running ≡ []
        → c.replies ≡ []
        → P c.storage
        → P d.storage × All Q d.replies
    Reach-promises r idle silent h =
        let good = Reach-Good r (h, rw idle tt, rw silent tt) in (good.0, good.2)

    pub Reach-keeps_storage :
        {c d : Config}
        → Reach x signer forks c d
        → c.running ≡ []
        → P c.storage
        → All Q c.replies
        → P d.storage
    Reach-keeps_storage r idle h replied = (Reach-Good r (h, rw idle tt, replied)).0
