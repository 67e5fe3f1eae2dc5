-- ===== src/Relay/Delivered.antt =====
-- Delivered blocks stay delivered, and are counted when the chain takes them up.
use rs_mev_relay.Prelude.{
  ℕ, ◌+◌, List, [], ◌∷◌, ◌++◌, true, ok, ◌≡◌, inl, inr, sym, arith, subst, contains, Result-cases,
}
use rs_mev_relay.Primitives.Bytes.{B256, B256-discrete}
use rs_mev_relay.Primitives.Blocks.{SignedBlindedBlock}
use rs_mev_relay.Primitives.Blocks.Unblind.{block_hash}
use rs_mev_relay.Primitives.Chain.{PayloadAttributes}
use rs_mev_relay.Primitives.Domains.{ForkDatas}
use rs_mev_relay.Primitives.External.{External}
use rs_mev_relay.Primitives.Signing.{BlsSigner}
use rs_mev_relay.Storage
use rs_mev_relay.Storage.{InMemoryStorage}
use rs_mev_relay.Builder
use rs_mev_relay.Builder.{accept}
use rs_mev_relay.Grpc.Service
use rs_mev_relay.Proposer.GetHeader
use rs_mev_relay.Proposer.BlindedBlocks
use rs_mev_relay.Proposer.BlindedBlocks.{Delivery, post_blinded_blocks}
use rs_mev_relay.Proposer.Validators
use rs_mev_relay.Service as Events
use rs_mev_relay.Primitives.Events.{payload_attribute}
use rs_mev_relay.Service.{on_event}
use rs_mev_relay.Relay.{Request, handle, run}

abbrev pub IsDelivered : InMemoryStorage → B256 → Type 0
IsDelivered s hash = contains B256-discrete s.inner.delivered_blocks hash ≡ true

pub contains-append_left :
    (xs ys : List B256) (h : B256)
    → contains B256-discrete xs h ≡ true
    → contains B256-discrete (xs ++ ys) h ≡ true
contains-append_left [] ys h e = cc
contains-append_left (a ∷ xs) ys h e = ground (arith, contains-append_left xs ys h)

pub contains-append_last :
    (xs : List B256) (h : B256) → contains B256-discrete (xs ++ h ∷ []) h ≡ true
contains-append_last [] h = ground arith
contains-append_last (a ∷ xs) h = ground (arith, contains-append_last xs h)

module _ (x : External) (signer : BlsSigner) (forks : ForkDatas) (hash : B256) where
  handle-IsDelivered :
      (r : Request) (s : InMemoryStorage)
      → IsDelivered s hash
      → IsDelivered (handle x signer forks r s) hash
  unfolding handle Builder.post_bids accept Service.submit_block Service.update_best
      Storage.set_best_bid Storage.set_blinded_block_response GetHeader.get_header
      GetHeader.count_header post_blinded_blocks Storage.set_delivered_blocks
      Validators.post_validators Storage.set_validator_registrations Events.on_event
      Storage.set_payload_attributes Storage.set_head_slot Storage.record_relayed_block
      Events.refresh Storage.set_proposer_duties
  handle-IsDelivered (Request.post_blinded_blocks elapsed b) s h =
      elim (Result-cases (BlindedBlocks.find_response x s b)) [
        | inl (resp, e) ↦
            let published = (BlindedBlocks.deliver b resp).published in
            let kept =
              contains-append_left s.inner.delivered_blocks (block_hash published ∷ []) hash h in
            ground arith
        | inr (_, e) ↦ ground arith
      ]
  handle-IsDelivered r s h = ground arith

  run-IsDelivered :
      (rs : List Request) (s : InMemoryStorage)
      → IsDelivered s hash
      → IsDelivered (run x signer forks rs s) hash
  unfolding run
  run-IsDelivered [] s h = h
  run-IsDelivered (r ∷ rs) s h =
      run-IsDelivered rs (handle x signer forks r s) (handle-IsDelivered r s h)

post_blinded_blocks-IsDelivered :
    (x : External) (elapsed : ℕ) (b : SignedBlindedBlock) (s : InMemoryStorage) (d : Delivery)
    → (post_blinded_blocks x elapsed b s).1 ≡ ok d
    → IsDelivered (post_blinded_blocks x elapsed b s).0 (block_hash d.published)
unfolding post_blinded_blocks Storage.set_delivered_blocks
post_blinded_blocks-IsDelivered x elapsed b s d h =
    elim (Result-cases (BlindedBlocks.find_response x s b)) [
      | inl (resp, e) ↦
          let published = (BlindedBlocks.deliver b resp).published in
          let last = contains-append_last s.inner.delivered_blocks (block_hash published) in
          ground arith
      | inr (_, e) ↦ absurd (ground arith)
    ]

counted :
    (s : InMemoryStorage) (attr : PayloadAttributes)
    → IsDelivered s attr.parent_block_hash
    → let t = (on_event (payload_attribute attr) s).0 in
      (t.metrics.relay.relayed_blocks ≡ s.metrics.relay.relayed_blocks + 1)
      × (t.metrics.relay.non_relayed_blocks ≡ s.metrics.relay.non_relayed_blocks)
unfolding on_event Storage.set_payload_attributes Storage.record_relayed_block
counted s attr h = ground arith

-- A block that the relay released is counted as relayed when the chain builds on it: whatever
-- requests and events come between, each in one piece, payload attributes whose parent is the
-- released block raise the count of relayed blocks by one, and not the other count.
released-counted :
    (x : External) (signer : BlsSigner) (forks : ForkDatas) (elapsed : ℕ) (b : SignedBlindedBlock)
    (s : InMemoryStorage) (d : Delivery) (rs : List Request) (attr : PayloadAttributes)
    → (post_blinded_blocks x elapsed b s).1 ≡ ok d
    → attr.parent_block_hash ≡ block_hash d.published
    → let before = run x signer forks rs (post_blinded_blocks x elapsed b s).0 in
      let after = (on_event (payload_attribute attr) before).0 in
      (after.metrics.relay.relayed_blocks ≡ before.metrics.relay.relayed_blocks + 1)
      × (after.metrics.relay.non_relayed_blocks ≡ before.metrics.relay.non_relayed_blocks)
released-counted x signer forks elapsed b s d rs attr h same =
    let first = post_blinded_blocks-IsDelivered x elapsed b s d h in
    let t = (post_blinded_blocks x elapsed b s).0 in
    let still = run-IsDelivered x signer forks (block_hash d.published) rs t first in
    let before = run x signer forks rs t in
    counted before attr (subst (IsDelivered before) (sym same) still)
