-- ===== src/Relay/Locks/Refusals.antt =====
-- Requests that are refused, at their accesses (crates/http/src/server, crates/grpc/src/service/mod.rs,
-- bin/relay/src/service.rs): whatever others do in between, they write nothing.
use Prim.Native.String.{String}
use rs_mev_relay.Prelude.{
  ℕ, ◌+◌, Bool, true, false, if◌then◌else◌, Result, ok, err, Option, none, some, is_empty, ◌≡◌,
  refl, arith,
}
use rs_mev_relay.Primitives.Events.{payload_attribute, head}
use rs_mev_relay.Primitives.Registrations.{ProposerDutiesResponse, merge_with}
use rs_mev_relay.Primitives.Domains.{ForkDatas}
use rs_mev_relay.Primitives.External.{External}
use rs_mev_relay.Primitives.Signing.{BlsSigner}
use rs_mev_relay.Storage.{InMemoryStorage, set_proposer_duties}
use rs_mev_relay.Grpc.Messages.{SubmitBlockRequest}
use rs_mev_relay.Grpc.Service.{Decision, below_best, update}
use rs_mev_relay.Relay.{Request}
use rs_mev_relay.Relay.Locks.{Program, Handler, returns, reads, writes, put, map_reply, ◌>>=◌}
use rs_mev_relay.Relay.Locks.Bids.{
  admit_steps, accept_steps, post_bids_steps, decide_steps, reply_steps, submit_block_steps,
}
use rs_mev_relay.Relay.Locks.Proposals.{
  find_header_steps, count_header_steps, get_header_steps, find_response_steps,
  post_blinded_blocks_steps, post_validators_steps,
}
use rs_mev_relay.Relay.Locks.Duties.{on_event_steps, into_duties_steps, refresh_steps}
use rs_mev_relay.Relay.Locks.Reading.{
  ReadsOnly, admit_steps-ReadsOnly, decide_steps-ReadsOnly, find_header_steps-ReadsOnly,
  find_response_steps-ReadsOnly, into_duties_steps-ReadsOnly,
}
use rs_mev_relay.Relay.Locks.Routes.{Reply, route}

-- A program when its reads see these storages in turn: how often it writes, and what it returns.
unfoldable pub against {ℓ} : {A : Type ℓ} → (ℕ → InMemoryStorage) → Program A → ℕ × A
against seen (returns a) = (0, a)
against seen (reads k) = against (λ n. seen (n + 1)) (k (seen 0))
against seen (writes f p) = let (n, a) = against seen p in (n + 1, a)

-- An error, over gRPC also the reply that a bid is below the best.
abbrev pub IsRefusal : Reply → Type 0
IsRefusal (Reply.post_bids (err e)) = Unit
IsRefusal (Reply.submit_block (err e)) = Unit
IsRefusal (Reply.submit_block (ok response)) = response.code ≡ 400
IsRefusal (Reply.get_header (err e)) = Unit
IsRefusal (Reply.post_blinded_blocks (err e)) = Unit
IsRefusal (Reply.refresh (err e)) = Unit
IsRefusal r = ⊥

module _ {ℓ} {A : Type ℓ} (Q : A → Type 0) where
  -- Q never holds of what is returned.
  abbrev Never : Program A → Type 0
  Never (returns a) = ¬ (Q a)
  Never (reads k) = (s : InMemoryStorage) → Never (k s)
  Never (writes f p) = Never p

  -- After a write Q never holds of what is returned.
  abbrev Quiet : Program A → Type 0
  Quiet (returns a) = Unit
  Quiet (reads k) = (s : InMemoryStorage) → Quiet (k s)
  Quiet (writes f p) = Never p

  against-Never : (p : Program A) (seen : ℕ → InMemoryStorage) → Never p → ¬ (Q (against seen p).1)
  unfolding against
  against-Never (returns a) seen never = never
  against-Never (reads k) seen never = against-Never (k (seen 0)) _ (never (seen 0))
  against-Never (writes f p) seen never = against-Never p seen never

  against-Quiet :
      (p : Program A) (seen : ℕ → InMemoryStorage)
      → Quiet p
      → Q (against seen p).1
      → (against seen p).0 ≡ 0
  unfolding against
  against-Quiet (returns a) seen quiet q = refl
  against-Quiet (reads k) seen quiet q = against-Quiet (k (seen 0)) _ (quiet (seen 0)) q
  against-Quiet (writes f p) seen quiet q = absurd (against-Never p seen quiet q)

  Quiet-if : (test : Bool) (p q : Program A) → Quiet p → Quiet q → Quiet (if test then p else q)
  Quiet-if true p q yes_too no_too = yes_too
  Quiet-if false p q yes_too no_too = no_too

module _ {ℓ κ} {A : Type ℓ} {B : Type κ} (Q : B → Type 0) (g : A → B) where
  Never-map_reply : (p : Program A) → Never (λ a. Q (g a)) p → Never Q (map_reply g p)
  Never-map_reply (returns a) never = never
  Never-map_reply (reads k) never = λ s. Never-map_reply (k s) (never s)
  Never-map_reply (writes f p) never = Never-map_reply p never

  Quiet-map_reply : (p : Program A) → Quiet (λ a. Q (g a)) p → Quiet Q (map_reply g p)
  Quiet-map_reply (returns a) quiet = tt
  Quiet-map_reply (reads k) quiet = λ s. Quiet-map_reply (k s) (quiet s)
  Quiet-map_reply (writes f p) never = Never-map_reply p never

-- First reads, and then what is quiet.
Quiet-bind {ℓ κ μ} :
    {E : Type ℓ} {A : Type κ} {B : Type μ} (Q : Result E B → Type 0) (p : Handler E A)
    (more : A → Handler E B)
    → ReadsOnly p
    → ((a : A) → Quiet Q (more a))
    → Quiet Q (p >>= more)
unfolding ◌>>=◌
Quiet-bind Q (returns (err e)) more only rest = tt
Quiet-bind Q (returns (ok a)) more only rest = rest a
Quiet-bind Q (reads k) more only rest = λ s. Quiet-bind Q (k s) more (only s) rest
Quiet-bind Q (writes f p) more only rest = absurd only

module _ (x : External) (signer : BlsSigner) (forks : ForkDatas) where
  reply_steps-Quiet :
      (req : SubmitBlockRequest) (decision : Decision)
      → Quiet (λ a. IsRefusal (Reply.submit_block a)) (reply_steps x forks req decision)
  unfolding reply_steps ◌>>=◌
  reply_steps-Quiet req below_best = tt
  reply_steps-Quiet req (update bid payload blobs signature key) = λ e. omega arith

  refresh_steps-Quiet :
      (this after : Option ProposerDutiesResponse)
      → Quiet (λ a. IsRefusal (Reply.refresh a)) (refresh_steps x this after)
  unfolding refresh_steps
  refresh_steps-Quiet none after = tt
  refresh_steps-Quiet (some this) none = tt
  refresh_steps-Quiet (some this) (some after) =
      let Q = λ (a : Result String (Unit {0})). IsRefusal (Reply.refresh a) in
      Quiet-bind Q (into_duties_steps x (merge_with this after)) _
        (into_duties_steps-ReadsOnly x (merge_with this after))
        λ vs. Quiet-if Q (is_empty vs) (returns (ok tt)) (put (set_proposer_duties vs)) tt (λ h. h)

  route-Quiet : (r : Request) → Quiet IsRefusal (route x signer forks r)
  unfolding route post_bids_steps accept_steps submit_block_steps get_header_steps
      count_header_steps post_blinded_blocks_steps post_validators_steps on_event_steps ◌>>=◌
  route-Quiet (Request.post_bids b) =
      Quiet-map_reply IsRefusal Reply.post_bids (post_bids_steps x b)
        (Quiet-bind _ (admit_steps x b) _ (admit_steps-ReadsOnly x b) (λ duty h. h))
  route-Quiet (Request.submit_block req) =
      Quiet-map_reply IsRefusal Reply.submit_block (submit_block_steps x forks req) (
        Quiet-bind _ (decide_steps x forks req) _ (decide_steps-ReadsOnly x forks req)
          (reply_steps-Quiet req))
  route-Quiet (Request.get_header elapsed slot hash key) =
      Quiet-map_reply IsRefusal Reply.get_header (get_header_steps x signer elapsed slot hash key) (
        Quiet-bind _ (find_header_steps x signer elapsed slot hash key) _
          (find_header_steps-ReadsOnly x signer elapsed slot hash key) (λ found h. h))
  route-Quiet (Request.post_blinded_blocks elapsed b) =
      Quiet-map_reply IsRefusal Reply.post_blinded_blocks (post_blinded_blocks_steps x elapsed b) (
        Quiet-bind _ (find_response_steps x elapsed b) _ (find_response_steps-ReadsOnly x elapsed b)
          (λ resp h. h))
  route-Quiet (Request.post_validators regs) = λ s h. h
  route-Quiet (Request.event (payload_attribute attr)) = λ seen h. h
  route-Quiet (Request.event (head slot)) = λ h. h
  route-Quiet (Request.refresh this after) =
      Quiet-map_reply IsRefusal Reply.refresh (refresh_steps x this after)
        (refresh_steps-Quiet this after)

  -- A refused request has written nothing, whatever others do between its accesses: for every
  -- request and every sequence of storages that its reads may see, if the reply is an error, or over
  -- gRPC that the bid is below the best, then the request has made no write, not to the metrics
  -- either.
  pub against-refused :
      (r : Request) (seen : ℕ → InMemoryStorage)
      → IsRefusal (against seen (route x signer forks r)).1
      → (against seen (route x signer forks r)).0 ≡ 0
  against-refused r seen = against-Quiet IsRefusal (route x signer forks r) seen (route-Quiet r)
