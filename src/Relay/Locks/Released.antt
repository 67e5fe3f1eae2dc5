-- ===== src/Relay/Locks/Released.antt =====
-- The blocks that the relay releases (crates/http/src/server/proposer_api/blinded_blocks.rs) are
-- delivered and counted (crates/storage/src/in_memory/mod.rs) when handlers overlap at every access.
use rs_mev_relay.Prelude.{
  refl, arith, ◌≡◌, ℕ, ◌+◌, List, [], ◌∷◌, ◌++◌, ok, err, subst, sym, All, All-append, All_left,
  All_right,
}
use rs_mev_relay.Primitives.Bytes.{B256}
use rs_mev_relay.Primitives.Blocks.{SignedBlindedBlock}
use rs_mev_relay.Primitives.Blocks.Unblind.{block_hash}
use rs_mev_relay.Primitives.Chain.{PayloadAttributes}
use rs_mev_relay.Primitives.Events.{payload_attribute}
use rs_mev_relay.Primitives.Domains.{ForkDatas}
use rs_mev_relay.Primitives.External.{External}
use rs_mev_relay.Primitives.Signing.{BlsSigner}
use rs_mev_relay.Storage.{InMemoryStorage}
use rs_mev_relay.Proposer.BlindedBlocks.{Delivery}
use rs_mev_relay.Relay.{Request}
use rs_mev_relay.Relay.Delivered.{IsDelivered, contains-append_left, contains-append_last}
use rs_mev_relay.Relay.Locks.Accesses.{push_delivered, count_relayed}
use rs_mev_relay.Relay.Locks.{Program, returns, reads, writes, ◌>>=◌}
use rs_mev_relay.Relay.Locks.Bids.{post_bids_steps, submit_block_steps}
use rs_mev_relay.Relay.Locks.Proposals.{
  get_header_steps, find_response_steps, post_blinded_blocks_steps, post_validators_steps,
}
use rs_mev_relay.Relay.Locks.Duties.{on_event_steps, refresh_steps}
use rs_mev_relay.Relay.Locks.Reading.{find_response_steps-ReadsOnly}
use rs_mev_relay.Relay.Locks.Owes.{
  ReadsOnly-Grows, Later, Grows, Owes, Later-refl, Owes-Later, Grows-Owes, Owes-map_reply,
  Owes-bind,
}
use rs_mev_relay.Relay.Locks.Grows.{
  post_bids_steps-Grows, submit_block_steps-Grows, get_header_steps-Grows,
  post_validators_steps-Grows, on_event_steps-Grows, refresh_steps-Grows,
}
use rs_mev_relay.Relay.Locks.Routes.{
  Config, Reply, Step, Reach, arrive, read, write, reply, here, next, route,
}

push_delivered-Later : (block : B256) (s : InMemoryStorage) → Later s (push_delivered block s)
push_delivered-Later block s hash h =
    contains-append_left s.inner.delivered_blocks (block ∷ []) hash h

push_delivered-IsDelivered :
    (block : B256) (s : InMemoryStorage) → IsDelivered (push_delivered block s) block
push_delivered-IsDelivered block s = contains-append_last s.inner.delivered_blocks block

-- A program from its next read on.
abbrev pub to_look : Program Reply → Program Reply
to_look (returns a) = returns a
to_look (reads k) = reads k
to_look (writes f p) = to_look p

-- What a program that reads next goes on with, after it has read this storage.
abbrev pub after_look : InMemoryStorage → Program Reply → Program Reply
after_look s (returns a) = returns a
after_look s (reads k) = k s
after_look s (writes f p) = writes f p

-- A block in a reply is delivered.
abbrev Released : InMemoryStorage → Reply → Type 0
Released s (Reply.post_blinded_blocks (ok d)) = IsDelivered s (block_hash d.published)
Released s r = Unit

Released-Later : (s t : InMemoryStorage) (r : Reply) → Later s t → Released s r → Released t r
Released-Later s t (Reply.post_blinded_blocks (ok d)) later h = later (block_hash d.published) h
Released-Later s t (Reply.post_blinded_blocks (err e)) later h = tt
Released-Later s t (Reply.post_bids a) later h = tt
Released-Later s t (Reply.submit_block a) later h = tt
Released-Later s t (Reply.get_header a) later h = tt
Released-Later s t (Reply.post_validators a) later h = tt
Released-Later s t (Reply.event a) later h = tt
Released-Later s t (Reply.refresh a) later h = tt

module _ (x : External) (signer : BlsSigner) (forks : ForkDatas) where
  post_blinded_blocks_steps-Owes :
      (elapsed : ℕ) (b : SignedBlindedBlock) (s : InMemoryStorage)
      → Owes
          (λ t a. Released t (Reply.post_blinded_blocks a))
          s
          (post_blinded_blocks_steps x elapsed b)
  unfolding post_blinded_blocks_steps ◌>>=◌
  post_blinded_blocks_steps-Owes elapsed b s =
      Owes-bind (λ t a. Released t (Reply.post_blinded_blocks a)) (find_response_steps x elapsed b)
        _ (λ t e. tt) (ReadsOnly-Grows _ (find_response_steps-ReadsOnly x elapsed b))
        (λ t resp u timed. (
          λ hash h. h,
          λ v more. (
            λ hash h. h,
            λ w counted.
                (push_delivered-Later _ w, λ y last. last _ (push_delivered-IsDelivered _ w)),
          ),
        ))
        s

  plain :
      {A : Type 0} (g : A → Reply) (p : Program A)
      → ((t : InMemoryStorage) (a : A) → Released t (g a))
      → Grows p
      → (s : InMemoryStorage) → Owes (λ t a. Released t (g a)) s p
  plain g p = Grows-Owes (λ t a. Released t (g a)) p

  route-Owes : (r : Request) (s : InMemoryStorage) → Owes Released s (route x signer forks r)
  unfolding route
  route-Owes (Request.post_bids b) s =
      Owes-map_reply _ (post_bids_steps x b) Released s
        (plain Reply.post_bids (post_bids_steps x b) (λ t a. tt) (post_bids_steps-Grows x b) s)
  route-Owes (Request.submit_block req) s =
      Owes-map_reply _ (submit_block_steps x forks req) Released s (
        plain Reply.submit_block (submit_block_steps x forks req) (λ t a. tt)
          (submit_block_steps-Grows x forks req) s)
  route-Owes (Request.get_header elapsed slot hash key) s =
      Owes-map_reply _ (get_header_steps x signer elapsed slot hash key) Released s (
        plain Reply.get_header (get_header_steps x signer elapsed slot hash key) (λ t a. tt)
          (get_header_steps-Grows x signer elapsed slot hash key) s)
  route-Owes (Request.post_blinded_blocks elapsed b) s =
      Owes-map_reply _ (post_blinded_blocks_steps x elapsed b) Released s
        (post_blinded_blocks_steps-Owes elapsed b s)
  route-Owes (Request.post_validators regs) s =
      Owes-map_reply _ (post_validators_steps x regs) Released s (
        plain Reply.post_validators (post_validators_steps x regs) (λ t a. tt)
          (post_validators_steps-Grows x regs) s)
  route-Owes (Request.event e) s =
      Owes-map_reply _ (on_event_steps e) Released s
        (plain Reply.event (on_event_steps e) (λ t a. tt) (on_event_steps-Grows x e) s)
  route-Owes (Request.refresh this after) s =
      Owes-map_reply _ (refresh_steps x this after) Released s (
        plain Reply.refresh (refresh_steps x this after) (λ t a. tt)
          (refresh_steps-Grows x this after) s)

  abbrev Pending : InMemoryStorage → Program Reply → Type 0
  Pending s p = Owes Released s p

  abbrev Kept : InMemoryStorage → Reply → Type 0
  Kept s r = Released s r

  -- Every reply is kept, and everything that runs will come to replies that are.
  abbrev Good : Config → Type 0
  Good c = All (Pending c.storage) c.running × All (Kept c.storage) c.replies

  All-Pending :
      (s t : InMemoryStorage) (ps : List (Program Reply))
      → Later s t
      → All (Pending s) ps
      → All (Pending t) ps
  All-Pending s t [] later all = tt
  All-Pending s t (p ∷ ps) later (owes, all) =
      (Owes-Later Released p s t later owes, All-Pending s t ps later all)

  All-Kept :
      (s t : InMemoryStorage) (rs : List Reply) → Later s t → All (Kept s) rs → All (Kept t) rs
  All-Kept s t [] later all = tt
  All-Kept s t (r ∷ rs) later (h, all) = (Released-Later s t r later h, All-Kept s t rs later all)

  Step-Good : {c d : Config} → Step x signer forks c d → Good c → Good d
  Step-Good (arrive s ps rs r) (all, replied) = ((route-Owes r s, all), replied)
  Step-Good (read s ps qs rs k) (all, replied) =
      let (now, after) = All_right (Pending s) ps (reads k ∷ qs) all in
      let before = All_left (Pending s) ps (reads k ∷ qs) all in
      (All-append (Pending s) ps (k s ∷ qs) before (now s (Later-refl s), after), replied)
  Step-Good (write s ps qs rs f p) (all, replied) =
      let (now, after) = All_right (Pending s) ps (writes f p ∷ qs) all in
      let before = All_left (Pending s) ps (writes f p ∷ qs) all in
      let (grown, owes) = now s (Later-refl s) in
      (
        All-append (Pending (f s)) ps (p ∷ qs) (All-Pending s (f s) ps grown before)
            (owes, All-Pending s (f s) qs grown after),
        All-Kept s (f s) rs grown replied,
      )
  Step-Good (reply s ps qs rs a) (all, replied) =
      let (now, after) = All_right (Pending s) ps (returns a ∷ qs) all in
      let before = All_left (Pending s) ps (returns a ∷ qs) all in
      (All-append (Pending s) ps qs before after, (now s (Later-refl s), replied))

  Reach-Good : {c d : Config} → Reach x signer forks c d → Good c → Good d
  Reach-Good here good = good
  Reach-Good (next r s) good = Step-Good s (Reach-Good r good)

  counted_relayed :
      (hash : B256) (seen t : InMemoryStorage)
      → IsDelivered seen hash
      → let after = count_relayed hash seen t in
        (after.metrics.relay.relayed_blocks ≡ t.metrics.relay.relayed_blocks + 1)
        × (after.metrics.relay.non_relayed_blocks ≡ t.metrics.relay.non_relayed_blocks)
  counted_relayed hash seen t h = ground arith

  -- A block that the relay has replied with is counted as relayed by payload attributes that come to
  -- look for it later, however the accesses of requests and events overlap: in every storage that
  -- is reached from one in which nothing ran and nothing was replied, also in the middle of
  -- requests, the event of payload attributes whose parent is the block of a reply given until then,
  -- when it looks through the delivered blocks, goes on with a write that, in whatever storage it
  -- comes to be done, raises the count of relayed blocks by one and not the other count.
  pub interleaved-counted :
      {c d : Config} (delivery : Delivery) (attr : PayloadAttributes) (newer older : List Reply)
      → Reach x signer forks c d
      → c.running ≡ []
      → c.replies ≡ []
      → d.replies ≡ newer ++ Reply.post_blinded_blocks (ok delivery) ∷ older
      → attr.parent_block_hash ≡ block_hash delivery.published
      → let event = route x signer forks (Request.event (payload_attribute attr)) in
        (rest : Program Reply) × (count : InMemoryStorage → InMemoryStorage) × (after_look d.storage
            (to_look event)
          ≡ writes count rest)
        × ((t : InMemoryStorage)
            → ((count t).metrics.relay.relayed_blocks ≡ t.metrics.relay.relayed_blocks + 1)
              × ((count t).metrics.relay.non_relayed_blocks ≡ t.metrics.relay.non_relayed_blocks))
  unfolding route on_event_steps
  interleaved-counted {d = d} delivery attr newer older reached idle silent given same =
      let good = Reach-Good reached (rw idle tt, rw silent tt) in
      let replies = newer ++ Reply.post_blinded_blocks (ok delivery) ∷ older in
      let all : All (Kept d.storage) replies = subst (All (Kept d.storage)) given good.1 in
      let delivered =
        (All_right (Kept d.storage) newer (Reply.post_blinded_blocks (ok delivery) ∷ older)
          all).0 in
      let hash = attr.parent_block_hash in
      let found = subst (IsDelivered d.storage) (sym same) delivered in
      (_, count_relayed hash d.storage, refl, λ t. counted_relayed hash d.storage t found)
