-- ===== src/Relay/Locks/Window.antt =====
-- Between the two writes of a submission (crates/http/src/server/builder_api/post_bids.rs): the bid
-- is the best one already, and its payload is not stored yet.
use rs_mev_relay.Prelude.{
  ◌≡◌, refl, sym, ap, ◌∙◌, ℕ, List, [], ◌∷◌, ◌++◌, map, some, none, ok, err, some-inj, ok-inj,
}
use rs_mev_relay.Primitives.Bytes.{KzgCommitment, as_kzg_commitment}
use rs_mev_relay.Primitives.Bids.{BidSubmission}
use rs_mev_relay.Primitives.Registrations.{Validator, ValidatorRegistration}
use rs_mev_relay.Primitives.Domains.{ForkDatas}
use rs_mev_relay.Primitives.Headers.{SignedHeader, Versioned}
use rs_mev_relay.Primitives.Blocks.{SignedBlindedBlock}
use rs_mev_relay.Primitives.External.{External}
use rs_mev_relay.Primitives.Signing.{BlsSigner}
use rs_mev_relay.Storage.{
  InMemoryStorage, set_best_bid, set_blinded_block_response, find_duty_by_slot, read_best_bid,
  read_blinded_block_response, read_validator_registration,
}
use rs_mev_relay.Builder.{admit, accept}
use rs_mev_relay.Builder.Effects.{read_best_bid-accept_self, bid_key}
use rs_mev_relay.Builder.Admission.{Admissible, admit-eq-ok_iff}
use rs_mev_relay.Proposer.GetHeader.{get_header}
use rs_mev_relay.Proposer.BlindedBlocks.{Delivery, post_blinded_blocks}
use rs_mev_relay.Proposer.Header.{
  IsHeaderOf, Offers, get_header_of_Offers, header_of, header_of-IsHeaderOf,
}
use rs_mev_relay.Proposer.Unblinding.{post_blinded_blocks-eq-ok_iff}
use rs_mev_relay.Relay.{Request}
use rs_mev_relay.Relay.Locks.{Program, Handler, returns, reads, writes, ◌>>=◌, map_reply, alone}
use rs_mev_relay.Relay.Locks.Bids.{admit_steps, accept_steps, post_bids_steps, alone-admit_steps}
use rs_mev_relay.Relay.Locks.Routes.{Config, Reply, Reach, here, next, arrive, read, write, route}

module _ (x : External) (signer : BlsSigner) (forks : ForkDatas) {c : Config} where
  -- A request that is let run up to some point of it.
  pub Reach-bind :
      {E A B : Type 0} (g : _ → Reply) (ps qs : List (Program Reply)) (rs : List Reply)
      (p : Handler E A) (more : A → Handler E B) (s t : InMemoryStorage) (a : A)
      → alone p s ≡ (t, ok a)
      → Reach x signer forks c
          (record { storage = s; running = ps ++ map_reply g (p >>= more) ∷ qs; replies = rs })
      → Reach x signer forks c
          (record { storage = t; running = ps ++ map_reply g (more a) ∷ qs; replies = rs })
  unfolding alone ◌>>=◌
  Reach-bind g ps qs rs (returns (err e)) more s t a h r = cc
  Reach-bind g ps qs rs (returns (ok a')) more s t a h r =
      let same_storage : s ≡ t = λ i. (h i).0 in
      let same_value : a' ≡ a = ok-inj (λ i. (h i).1) in rw (sym same_storage, sym same_value) r
  Reach-bind g ps qs rs (reads k) more s t a h r =
      Reach-bind g ps qs rs (k s) more s t a h (next r (read s ps qs rs _))
  Reach-bind g ps qs rs (writes f p) more s t a h r =
      Reach-bind g ps qs rs p more (f s) t a h (next r (write s ps qs rs f _))

module _ (x : External) (signer : BlsSigner) (s : InMemoryStorage) (b : BidSubmission)
    (duty : Validator) where
  -- The storage between the two writes.
  abbrev between : InMemoryStorage
  between = set_best_bid b.message.slot b s

  between-reached :
      (forks : ForkDatas)
      → admit x s b ≡ ok duty
      → (d : Config) × Reach x signer forks (record { storage = s; running = []; replies = [] }) d
        × (d.storage ≡ between)
  unfolding route post_bids_steps accept_steps ◌>>=◌
  between-reached forks admitted =
      let arrived = next here (arrive s [] [] (Request.post_bids b)) in
      let checked =
        Reach-bind x signer forks Reply.post_bids [] [] [] (admit_steps x b) (accept_steps x b) s s
          duty (alone-admit_steps x b s ∙ ap (λ r. (s, r)) admitted) arrived in
      (_, next checked (write s [] [] [] (set_best_bid b.message.slot b) _), refl)

  between-Offers :
      (commitments : List KzgCommitment) (reg : ValidatorRegistration)
      → Admissible x s b duty
      → read_validator_registration s b.message.proposer_pubkey ≡ some reg
      → x.new_commitments (map as_kzg_commitment b.blobs_bundle.commitments) ≡ some commitments
      → Offers x signer between b.message.slot b.message.parent_hash b.message.proposer_pubkey
          (header_of x signer b commitments)
  unfolding accept set_best_bid set_blinded_block_response read_validator_registration read_best_bid
  between-Offers commitments reg a registered fits = record {
    registration = reg;
    registered = registered;
    next = a.next;
    bid = b;
    best = read_best_bid-accept_self b duty s (bid_key b) refl;
    is_header = header_of-IsHeaderOf x signer b duty s commitments fits;
  }

  between-not-released :
      (elapsed : ℕ) (block : SignedBlindedBlock) (d : Delivery)
      → Admissible x s b duty
      → read_blinded_block_response s duty.entry.message.pubkey ≡ none
      → block.message.slot ≡ b.message.slot
      → ¬ ((post_blinded_blocks x elapsed block between).1 ≡ ok d)
  unfolding set_best_bid find_duty_by_slot read_blinded_block_response
  between-not-released elapsed block d a nothing same_slot h =
      let (resp, (on, entitled, stored), _) =
        (post_blinded_blocks-eq-ok_iff x elapsed between block d).0 h in
      let same_duty : on ≡ duty =
        some-inj (sym entitled.on_duty ∙ ap (find_duty_by_slot s) same_slot ∙ a.on_duty) in
      let there =
        sym nothing
        ∙ ap (λ (v : Validator). read_blinded_block_response s v.entry.message.pubkey)
            (sym same_duty)
        ∙ stored in
      cc

  -- A header may be offered whose payload cannot be released yet: let a submission pass its checks
  -- in a storage that holds no payload for the validator on duty, the bid's proposer be registered
  -- and its commitments fit. Then, while the submission is being written, the relay comes to a
  -- storage where the header route answers this proposer with the signed header of the bid, and
  -- where every signed blinded block for the bid's slot is refused.
  pub offered-not-released :
      (forks : ForkDatas) (commitments : List KzgCommitment) (reg : ValidatorRegistration)
      → admit x s b ≡ ok duty
      → read_validator_registration s b.message.proposer_pubkey ≡ some reg
      → x.new_commitments (map as_kzg_commitment b.blobs_bundle.commitments) ≡ some commitments
      → read_blinded_block_response s duty.entry.message.pubkey ≡ none
      → (d : Config) × Reach x signer forks (record { storage = s; running = []; replies = [] }) d
        × ((elapsed : ℕ)
            → (h : Versioned SignedHeader) × ((get_header x signer elapsed b.message.slot
                  b.message.parent_hash b.message.proposer_pubkey d.storage).1
                ≡ ok h)
              × IsHeaderOf x signer b h)
        × ((elapsed : ℕ) (block : SignedBlindedBlock) (delivery : Delivery)
            → block.message.slot ≡ b.message.slot
            → ¬ ((post_blinded_blocks x elapsed block d.storage).1 ≡ ok delivery))
  offered-not-released forks commitments reg admitted registered fits nothing =
      let a = (admit-eq-ok_iff x s b duty).0 admitted in
      let (d, reached, at) = between-reached forks admitted in
      let hash = b.message.parent_hash in
      let key = b.message.proposer_pubkey in
      let header = header_of x signer b commitments in
      (
        d,
        reached,
        λ elapsed. (
          header,
          rw at (
              get_header_of_Offers x signer elapsed b.message.slot hash key between header
                (between-Offers commitments reg a registered fits)),
          header_of-IsHeaderOf x signer b duty s commitments fits,
        ),
        λ elapsed block delivery same_slot.
            rw at (between-not-released elapsed block delivery a nothing same_slot),
      )
