-- ===== src/Builder/Effects.antt =====
-- What a submission of crates/http/src/server/builder_api/post_bids.rs does to the storage.
use rs_mev_relay.Prelude.{
  refl, ◌∙◌, if_pos, if_neg, ℕ, some, ok, err, ◌≡◌, arith, ite, lookup-insert, ℕ_discrete,
}
use rs_mev_relay.Primitives.Bytes.{B256}
use rs_mev_relay.Primitives.Keys.{BlsPublicKey, BlsPublicKey-discrete}
use rs_mev_relay.Primitives.Bids.{BidSubmission, to_blinded_block_response}
use rs_mev_relay.Primitives.Registrations.{Validator}
use rs_mev_relay.Primitives.External.{External}
use rs_mev_relay.Storage.{
  InMemoryStorage, SlotHashKey, SlotHashKey-discrete, read_best_bid, read_best_bid_by_block_number,
  read_blinded_block_response, set_best_bid, set_blinded_block_response,
}
use rs_mev_relay.Builder.{accept, post_bids}
use rs_mev_relay.Builder.Admission.{Admissible, admit-eq-ok_iff}

abbrev pub bid_key : BidSubmission → SlotHashKey
bid_key b = record {
  slot = b.message.slot;
  hash = b.message.parent_hash;
  validator = b.message.proposer_pubkey;
}

abbrev pub key : ℕ → B256 → BlsPublicKey → SlotHashKey
key slot hash validator = record { slot = slot; hash = hash; validator = validator }

module _ (b : BidSubmission) (duty : Validator) (s : InMemoryStorage) where
  pub read_best_bid-accept :
      (slot : ℕ) (hash : B256) (validator : BlsPublicKey)
      → read_best_bid (accept b duty s) slot hash validator
        ≡ ite
            (SlotHashKey-discrete (key slot hash validator) (bid_key b))
            (some b)
            (read_best_bid s slot hash validator)
  unfolding read_best_bid accept set_best_bid set_blinded_block_response
  read_best_bid-accept slot hash validator =
      lookup-insert SlotHashKey-discrete (bid_key b) (key slot hash validator) b
        s.inner.best_bid_per_slot

  pub read_by_block_number-accept :
      (number : ℕ)
      → read_best_bid_by_block_number (accept b duty s) number
        ≡ ite
            (ℕ_discrete number b.execution_payload.block_number)
            (some b)
            (read_best_bid_by_block_number s number)
  unfolding read_best_bid_by_block_number accept set_best_bid set_blinded_block_response
  read_by_block_number-accept number =
      lookup-insert ℕ_discrete b.execution_payload.block_number number b
        s.inner.best_bid_by_block_number

  pub read_response-accept :
      (proposer : BlsPublicKey)
      → read_blinded_block_response (accept b duty s) proposer
        ≡ ite
            (BlsPublicKey-discrete proposer duty.entry.message.pubkey)
            (some (to_blinded_block_response b))
            (read_blinded_block_response s proposer)
  unfolding read_blinded_block_response accept set_best_bid set_blinded_block_response
  read_response-accept proposer =
      lookup-insert BlsPublicKey-discrete duty.entry.message.pubkey proposer
        (to_blinded_block_response b) s.inner.blinded_block_resp

  pub read_best_bid-accept_self :
      (k : SlotHashKey)
      → k ≡ bid_key b
      → read_best_bid (accept b duty s) k.slot k.hash k.validator ≡ some b
  read_best_bid-accept_self k e =
      read_best_bid-accept k.slot k.hash k.validator
      ∙ if_pos (SlotHashKey-discrete k (bid_key b)) e (some b)
          (read_best_bid s k.slot k.hash k.validator)

  pub read_best_bid-accept_other :
      (k : SlotHashKey)
      → ¬ (k ≡ bid_key b)
      → read_best_bid (accept b duty s) k.slot k.hash k.validator
        ≡ read_best_bid s k.slot k.hash k.validator
  read_best_bid-accept_other k n =
      read_best_bid-accept k.slot k.hash k.validator
      ∙ if_neg (SlotHashKey-discrete k (bid_key b)) n (some b)
          (read_best_bid s k.slot k.hash k.validator)

  pub read_response-accept_self :
      read_blinded_block_response (accept b duty s) duty.entry.message.pubkey
      ≡ some (to_blinded_block_response b)
  read_response-accept_self =
      let k = duty.entry.message.pubkey in
      read_response-accept k
      ∙ if_pos (BlsPublicKey-discrete k k) refl (some (to_blinded_block_response b))
          (read_blinded_block_response s k)

-- A storage with the three tables of another.
abbrev pub with_tables_of : InMemoryStorage → InMemoryStorage → InMemoryStorage
with_tables_of s t = record t {
  inner = record (t.inner) {
    best_bid_per_slot = s.inner.best_bid_per_slot;
    best_bid_by_block_number = s.inner.best_bid_by_block_number;
    blinded_block_resp = s.inner.blinded_block_resp;
  };
}

module _ (x : External) (b : BidSubmission) (s : InMemoryStorage) where
  -- A rejected submission leaves the storage as it was.
  pub post_bids-rejected : {e : _} → (post_bids x b s).1 ≡ err e → (post_bids x b s).0 ≡ s
  unfolding post_bids
  post_bids-rejected h = ground arith

  pub post_bids-accepted :
      (duty : Validator) → Admissible x s b duty → post_bids x b s ≡ (accept b duty s, ok tt)
  unfolding post_bids
  post_bids-accepted duty a = ground (arith, (admit-eq-ok_iff x s b duty).1 a)

  -- An admissible submission changes three tables, each at one key, and nothing else of the storage
  -- and the metrics: it is the best bid for its slot, parent and proposer, the bid of its payload's
  -- block number, and its payload is the response for the proposer on duty.
  pub post_bids-reads :
      (duty : Validator)
      → Admissible x s b duty
      → let t = (post_bids x b s).0 in
        ((slot : ℕ) (hash : B256) (validator : BlsPublicKey)
          → read_best_bid t slot hash validator
            ≡ ite
                (SlotHashKey-discrete (key slot hash validator) (bid_key b))
                (some b)
                (read_best_bid s slot hash validator))
        × ((number : ℕ)
            → read_best_bid_by_block_number t number
              ≡ ite
                  (ℕ_discrete number b.execution_payload.block_number)
                  (some b)
                  (read_best_bid_by_block_number s number))
        × ((proposer : BlsPublicKey)
            → read_blinded_block_response t proposer
              ≡ ite
                  (BlsPublicKey-discrete proposer duty.entry.message.pubkey)
                  (some (to_blinded_block_response b))
                  (read_blinded_block_response s proposer))
        × (with_tables_of s t ≡ s)
  unfolding accept set_best_bid set_blinded_block_response
  post_bids-reads duty a = rw (post_bids-accepted duty a) (
    read_best_bid-accept b duty s,
    read_by_block_number-accept b duty s,
    read_response-accept b duty s,
    refl,
  )
