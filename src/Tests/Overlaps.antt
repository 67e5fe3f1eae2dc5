-- ===== src/Tests/Overlaps.antt =====
-- Requests that overlap at every access of the storage.
use rs_mev_relay.Prelude.{
  All, ◌≡◌, refl, [], ◌∷◌, some, none, ok, lookup, ℕ, ◌+◌, ap, ◌∙◌, Result, ℕ_discrete,
}
use rs_mev_relay.Primitives.Keys.{BlsPublicKey-discrete}
use rs_mev_relay.Primitives.Headers.{SignedHeader, Versioned}
use rs_mev_relay.Primitives.Blocks.{SignedBlindedBlock}
use rs_mev_relay.Storage.{
  read_best_bid, InMemoryStorage, new, read_validator_registration, read_blinded_block_response,
}
use rs_mev_relay.Proposer.GetHeader.{get_header}
use rs_mev_relay.Proposer.BlindedBlocks.{
  Delivery, PostBlindedBlockErr, deliver, post_blinded_blocks,
}
use rs_mev_relay.Primitives.Events.{BeaconEvent}
use rs_mev_relay.Primitives.Blocks.Unblind.{block_hash, new_block_content}
use rs_mev_relay.Builder.{post_bids}
use rs_mev_relay.Relay.Locks.Proposals.{post_blinded_blocks_steps, alone-post_blinded_blocks_steps}
use rs_mev_relay.Relay.Best.{HasBid}
use rs_mev_relay.Relay.Locks.Best.{interleaved-HasBid}
use rs_mev_relay.Relay.Locks.Refusals.{against, IsRefusal, against-refused}
use rs_mev_relay.Relay.Locks.Bids.{post_bids_steps, admit_steps}
use rs_mev_relay.Builder.{is_bid_higher}
use rs_mev_relay.Relay.Locks.Released.{to_look, after_look, interleaved-counted}
use rs_mev_relay.Tests.Proposals.{bidding, blinded, blinded-Entitled}
use rs_mev_relay.Proposer.Header.{IsHeaderOf}
use rs_mev_relay.Relay.{Request, run}
use rs_mev_relay.Relay.Sound.{IsSound}
use rs_mev_relay.Relay.Registrations.{AllSigned, new-AllSigned}
use rs_mev_relay.Relay.Locks.{◌>>=◌, Program, writes, alone, alone-map_reply}
use rs_mev_relay.Relay.Locks.Routes.{
  Config, Reply, Reach, here, next, arrive, route, Reach-alone, Reach-run,
}
use rs_mev_relay.Relay.Locks.Genuine.{Genuine, interleaved-AllGenuine}
use rs_mev_relay.Relay.Locks.Signed.{interleaved-AllSigned}
use rs_mev_relay.Relay.Locks.Mixed.{overlap-mixed}
use rs_mev_relay.Proposer.Unblinding.{Entitled, post_blinded_blocks-post_bids}
use rs_mev_relay.Primitives.Bids.{to_blinded_block_response}
use rs_mev_relay.Relay.Locks.Window.{offered-not-released}
use rs_mev_relay.Tests.Fixtures.{
  x, start, bid, duty, proposer, builder, signer, registration, forks, hash, metrics, head,
  attributes,
}
use rs_mev_relay.Tests.Submissions.{
  free, bid-admitted, bid-Admissible, higher_bid, higher_bid-admitted,
}
use rs_mev_relay.Tests.Systems.{requests, start-IsSound, empty_start, next_attributes, bid_100}

abbrev idle : InMemoryStorage → Config
idle s = record { storage = s; running = []; replies = [] }

-- A bid arrives, and a higher one is served from its first access to its last before it goes on.
abbrev first : Request
first = Request.post_bids bid

abbrev second : Request
second = Request.post_bids higher_bid

abbrev between : InMemoryStorage → InMemoryStorage
between s = (alone (route x signer forks second) s).0

overtaken :
    (s : InMemoryStorage)
    → Reach x signer forks (idle s) (record {
      storage = between s;
      running = route x signer forks first ∷ [];
      replies = (alone (route x signer forks second) s).1 ∷ [];
    })
overtaken s =
    let both =
      next (next here (arrive s [] [] first))
        (arrive s (route x signer forks first ∷ []) [] second) in
    Reach-alone x signer forks [] (route x signer forks first ∷ []) [] (route x signer forks second)
      s both

-- A bid, its header and its payload, among other requests.
interleaved-AllGenuine_example :
    let (replies, reached) = Reach-run x signer forks requests start [] here in
    IsSound x (builder ∷ []) forks (run x signer forks requests start)
    × All (Genuine x (builder ∷ []) forks signer) replies
interleaved-AllGenuine_example =
    interleaved-AllGenuine x (builder ∷ []) forks signer
      (Reach-run x signer forks requests start [] here).1 refl refl start-IsSound

interleaved-AllSigned_example : AllSigned x forks (between empty_start)
interleaved-AllSigned_example =
    interleaved-AllSigned x forks signer (overtaken empty_start) refl
      (new-AllSigned x forks metrics head attributes (builder ∷ []))

registered : read_validator_registration start proposer ≡ some registration
unfolding read_validator_registration new lookup BlsPublicKey-discrete ℕ_discrete
registered = refl

no_payload : read_blinded_block_response start proposer ≡ none
unfolding read_blinded_block_response new lookup
no_payload = refl

offered-not-released_example :
    (d : Config) × Reach x signer forks (idle start) d
    × ((elapsed : ℕ)
        → (h : Versioned SignedHeader) × ((get_header x signer elapsed 11
              (hash 2)
              proposer
              d.storage).1
            ≡ ok h)
          × IsHeaderOf x signer bid h)
    × ((elapsed : ℕ) (block : SignedBlindedBlock) (delivery : Delivery)
        → block.message.slot ≡ 11
        → ¬ ((post_blinded_blocks x elapsed block d.storage).1 ≡ ok delivery))
offered-not-released_example =
    offered-not-released x signer start bid duty forks [] registration bid-admitted registered refl
      no_payload

overlap-mixed_example :
    (d : Config) × Reach x signer forks (idle start) d
    × (d.running ≡ [])
    × (read_best_bid d.storage 11 (hash 2) proposer ≡ some bid)
    × ((elapsed : ℕ) (block : SignedBlindedBlock)
        → Entitled x start block duty
        → (post_blinded_blocks x elapsed block d.storage).1
          ≡ ok (deliver block (to_blinded_block_response higher_bid)))
overlap-mixed_example =
    overlap-mixed x signer forks start bid higher_bid duty refl bid-admitted higher_bid-admitted

-- The block of an admitted bid is released, and the chain builds on it.
abbrev delivering : InMemoryStorage
delivering = (post_bids x bid start).0

abbrev releasing : Request
releasing = Request.post_blinded_blocks 5 blinded

abbrev released : Delivery
released = deliver blinded (to_blinded_block_response bid)

reply-releasing :
    (alone (route x signer forks releasing) delivering).1 ≡ Reply.post_blinded_blocks (ok released)
unfolding route
reply-releasing =
    ap (λ (both : InMemoryStorage × Reply). both.1)
      (alone-map_reply Reply.post_blinded_blocks (post_blinded_blocks_steps x 5 blinded) delivering)
    ∙ ap
        (λ (both : InMemoryStorage × Result PostBlindedBlockErr Delivery).
          Reply.post_blinded_blocks both.1)
        (alone-post_blinded_blocks_steps x 5 blinded delivering)
    ∙ ap Reply.post_blinded_blocks
        (post_blinded_blocks-post_bids x bid duty start 5 blinded bid-Admissible blinded-Entitled)

interleaved-counted_example :
    let after = (alone (route x signer forks releasing) delivering).0 in
    let event =
      route x signer forks (Request.event (BeaconEvent.payload_attribute next_attributes)) in
    (rest : Program Reply) × (count : InMemoryStorage → InMemoryStorage) × (after_look after
        (to_look event)
      ≡ writes count rest)
    × ((t : InMemoryStorage)
        → ((count t).metrics.relay.relayed_blocks ≡ t.metrics.relay.relayed_blocks + 1)
          × ((count t).metrics.relay.non_relayed_blocks ≡ t.metrics.relay.non_relayed_blocks))
unfolding block_hash deliver new_block_content to_blinded_block_response
interleaved-counted_example =
    interleaved-counted x signer forks released next_attributes [] []
      (Reach-alone x signer forks [] [] [] (route x signer forks releasing) delivering
        (next here (arrive delivering [] [] releasing)))
      refl refl (ap (λ r. r ∷ []) reply-releasing) refl

-- A bid of 100 stays while another submission is overtaken.
interleaved-HasBid_example : HasBid (between bidding) 11 (hash 2) proposer 100
interleaved-HasBid_example =
    interleaved-HasBid 11 (hash 2) proposer 100 x signer forks (overtaken bidding) refl bid_100

-- A bid of no value.
refused : IsRefusal (against (λ n. start) (route x signer forks (Request.post_bids free))).1
unfolding against route post_bids_steps admit_steps ◌>>=◌ is_bid_higher read_best_bid lookup new
refused = tt

against-refused_example :
    (against (λ n. start) (route x signer forks (Request.post_bids free))).0 ≡ 0
against-refused_example =
    against-refused x signer forks (Request.post_bids free) (λ n. start) refused
