-- ===== src/Relay/Locks/Routes.antt =====
-- The relay at the accesses of its storage: the requests of crates/http, crates/grpc and
-- bin/relay/src/service.rs that run at a time, each at some access, in any order.
use Prim.Native.String.{String}
use rs_mev_relay.Prelude.{◌≡◌, ap, ◌∙◌, sym, List, [], ◌∷◌, ◌++◌, Result}
use rs_mev_relay.Primitives.Headers.{SignedHeader, Versioned}
use rs_mev_relay.Primitives.Domains.{ForkDatas}
use rs_mev_relay.Primitives.External.{External}
use rs_mev_relay.Primitives.Signing.{BlsSigner}
use rs_mev_relay.Storage.{InMemoryStorage}
use rs_mev_relay.Builder.{PostBidsError}
use rs_mev_relay.Grpc.Messages.{SubmitBlockResponse}
use rs_mev_relay.Grpc.Service.{Stop}
use rs_mev_relay.Proposer.GetHeader.{Rejection}
use rs_mev_relay.Proposer.BlindedBlocks.{PostBlindedBlockErr, Delivery}
use rs_mev_relay.Relay.{Request, handle, run}
use rs_mev_relay.Relay.Locks.{Program, returns, reads, writes, map_reply, alone, alone-map_reply}
use rs_mev_relay.Relay.Locks.Bids.{
  post_bids_steps, submit_block_steps, alone-post_bids_steps, alone-submit_block_steps,
}
use rs_mev_relay.Relay.Locks.Proposals.{
  get_header_steps, post_blinded_blocks_steps, post_validators_steps, alone-get_header_steps,
  alone-post_blinded_blocks_steps, alone-post_validators_steps,
}
use rs_mev_relay.Relay.Locks.Duties.{
  on_event_steps, refresh_steps, alone-on_event_steps, alone-refresh_steps,
}

pub data Reply : Type 0 where
  post_bids : Result PostBidsError (Unit {0}) → Reply
  submit_block : Result Stop SubmitBlockResponse → Reply
  get_header : Result Rejection (Versioned SignedHeader) → Reply
  post_blinded_blocks : Result PostBlindedBlockErr Delivery → Reply
  post_validators event : Unit {0} → Reply
  refresh : Result String (Unit {0}) → Reply

-- The requests that run, each with what it still has to do, and the replies, the last first.
pub record Config : Type 0 where
  pub storage : InMemoryStorage
  pub running : List (Program Reply)
  pub replies : List Reply

module _ (x : External) (signer : BlsSigner) (forks : ForkDatas) where
  unfoldable pub route : Request → Program Reply
  route (Request.post_bids b) = map_reply post_bids (post_bids_steps x b)
  route (Request.submit_block req) = map_reply submit_block (submit_block_steps x forks req)
  route (Request.get_header elapsed slot hash key) =
      map_reply get_header (get_header_steps x signer elapsed slot hash key)
  route (Request.post_blinded_blocks elapsed b) =
      map_reply post_blinded_blocks (post_blinded_blocks_steps x elapsed b)
  route (Request.post_validators regs) = map_reply post_validators (post_validators_steps x regs)
  route (Request.event e) = map_reply event (on_event_steps e)
  route (Request.refresh this next) = map_reply refresh (refresh_steps x this next)

  module _ (s : InMemoryStorage) where
    after_reply :
        {A : Type 0} (g : A → Reply) (p : Program A) (t : InMemoryStorage)
        → (alone p s).0 ≡ t
        → (alone (map_reply g p) s).0 ≡ t
    after_reply g p t e =
        ap (λ (both : InMemoryStorage × Reply). both.0) (alone-map_reply g p s) ∙ e

    first : {A : Type 0} {p q : InMemoryStorage × A} → p ≡ q → p.0 ≡ q.0
    first e = λ i. (e i).0

    -- The accesses of a request, when nothing comes between them, leave the storage that its
    -- handler leaves in one step.
    pub alone-route : (r : Request) → (alone (route r) s).0 ≡ handle x signer forks r s
    unfolding route handle
    alone-route (Request.post_bids b) =
        after_reply post_bids (post_bids_steps x b) _ (first (alone-post_bids_steps x b s))
    alone-route (Request.submit_block req) =
        after_reply submit_block (submit_block_steps x forks req) _
          (first (alone-submit_block_steps x forks req s))
    alone-route (Request.get_header elapsed slot hash key) =
        after_reply get_header (get_header_steps x signer elapsed slot hash key) _
          (first (alone-get_header_steps x signer elapsed slot hash key s))
    alone-route (Request.post_blinded_blocks elapsed b) =
        after_reply post_blinded_blocks (post_blinded_blocks_steps x elapsed b) _
          (first (alone-post_blinded_blocks_steps x elapsed b s))
    alone-route (Request.post_validators regs) =
        after_reply post_validators (post_validators_steps x regs) _
          (first (alone-post_validators_steps x regs s))
    alone-route (Request.event e) =
        after_reply event (on_event_steps e) _ (first (alone-on_event_steps e s))
    alone-route (Request.refresh this next) =
        after_reply refresh (refresh_steps x this next) _ (alone-refresh_steps x this next s)

  pub data Step : Config → Config → Type 0 where
    arrive :
        (s : InMemoryStorage) (ps : List (Program Reply)) (rs : List Reply) (r : Request)
        → Step
            (record { storage = s; running = ps; replies = rs })
            (record { storage = s; running = route r ∷ ps; replies = rs })
    read :
        (s : InMemoryStorage) (ps qs : List (Program Reply)) (rs : List Reply)
        (k : InMemoryStorage → Program Reply)
        → Step
            (record { storage = s; running = ps ++ reads k ∷ qs; replies = rs })
            (record { storage = s; running = ps ++ k s ∷ qs; replies = rs })
    write :
        (s : InMemoryStorage) (ps qs : List (Program Reply)) (rs : List Reply)
        (f : InMemoryStorage → InMemoryStorage) (p : Program Reply)
        → Step
            (record { storage = s; running = ps ++ writes f p ∷ qs; replies = rs })
            (record { storage = f s; running = ps ++ p ∷ qs; replies = rs })
    reply :
        (s : InMemoryStorage) (ps qs : List (Program Reply)) (rs : List Reply) (a : Reply)
        → Step
            (record { storage = s; running = ps ++ returns a ∷ qs; replies = rs })
            (record { storage = s; running = ps ++ qs; replies = a ∷ rs })

  pub data Reach (c : Config) : Config → Type 0 where
    here : Reach c c
    next : {d e : Config} → Reach c d → Step d e → Reach c e

  -- Whatever else runs, a request that is let run comes to its end and to its reply.
  pub Reach-alone :
      {c : Config} (ps qs : List (Program Reply)) (rs : List Reply) (p : Program Reply)
      (s : InMemoryStorage)
      → Reach c (record { storage = s; running = ps ++ p ∷ qs; replies = rs })
      → Reach c
          (record { storage = (alone p s).0; running = ps ++ qs; replies = (alone p s).1 ∷ rs })
  unfolding alone
  Reach-alone ps qs rs (returns a) s r = next r (reply s ps qs rs a)
  Reach-alone ps qs rs (reads k) s r = Reach-alone ps qs rs (k s) s (next r (read s ps qs rs k))
  Reach-alone ps qs rs (writes f p) s r =
      Reach-alone ps qs rs p (f s) (next r (write s ps qs rs f p))

  -- What requests in one piece, one after the other, leave is among what their accesses may leave:
  -- the storage after any sequence of requests is reached, with every request replied to.
  pub Reach-run :
      (requests : List Request) (s : InMemoryStorage) (rs : List Reply) {c : Config}
      → Reach c (record { storage = s; running = []; replies = rs })
      → (replies : List Reply) × Reach c
          (record { storage = run x signer forks requests s; running = []; replies = replies })
  unfolding run
  Reach-run [] s rs r = (rs, r)
  Reach-run (request ∷ requests) s rs r =
      let p = route request in
      let one = Reach-alone [] [] rs p s (next r (arrive s [] rs request)) in
      Reach-run requests (handle x signer forks request s) ((alone p s).1 ∷ rs)
        (rw (sym (alone-route s request)) one)
