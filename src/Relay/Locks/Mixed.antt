-- ===== src/Relay/Locks/Mixed.antt =====
-- Two submissions of one slot, parent and proposer whose writes cross
-- (crates/http/src/server/builder_api/post_bids.rs): the best bid is of the one, the payload of the
-- other.
use rs_mev_relay.Prelude.{
  ◌≡◌, refl, sym, ap, ◌∙◌, ℕ, [], ◌∷◌, some, ok, if_pos, lookup, lookup-insert,
}
use rs_mev_relay.Primitives.Keys.{BlsPublicKey, BlsPublicKey-discrete}
use rs_mev_relay.Primitives.Bids.{BidSubmission, to_blinded_block_response}
use rs_mev_relay.Primitives.Registrations.{Validator}
use rs_mev_relay.Primitives.Domains.{ForkDatas}
use rs_mev_relay.Primitives.Blocks.{SignedBlindedBlock}
use rs_mev_relay.Primitives.External.{External}
use rs_mev_relay.Primitives.Signing.{BlsSigner}
use rs_mev_relay.Storage.{
  InMemoryStorage, SlotHashKey-discrete, set_best_bid, set_blinded_block_response, read_best_bid,
  read_blinded_block_response, find_duty_by_slot, read_validator_registration,
}
use rs_mev_relay.Builder.{admit}
use rs_mev_relay.Builder.Effects.{bid_key}
use rs_mev_relay.Proposer.BlindedBlocks.{deliver, post_blinded_blocks}
use rs_mev_relay.Proposer.Unblinding.{Entitled, post_blinded_blocks-eq-ok_iff}
use rs_mev_relay.Relay.{Request}
use rs_mev_relay.Relay.Locks.{◌>>=◌}
use rs_mev_relay.Relay.Locks.Bids.{admit_steps, accept_steps, post_bids_steps, alone-admit_steps}
use rs_mev_relay.Relay.Locks.Routes.{Config, Reply, Reach, here, next, arrive, write, reply, route}
use rs_mev_relay.Relay.Locks.Window.{Reach-bind}

module _ (x : External) (signer : BlsSigner) (forks : ForkDatas) (s : InMemoryStorage)
    (one other : BidSubmission) (duty : Validator) where
  abbrev key_of_duty : BlsPublicKey
  key_of_duty = duty.entry.message.pubkey

  -- The bid of the one is written after that of the other, its payload before that of the other.
  abbrev crossed : InMemoryStorage
  crossed = set_blinded_block_response key_of_duty (to_blinded_block_response other) (
      set_blinded_block_response key_of_duty (to_blinded_block_response one)
        (set_best_bid one.message.slot one (set_best_bid other.message.slot other s)))

  crossed-reached :
      admit x s one ≡ ok duty
      → admit x s other ≡ ok duty
      → (d : Config) × Reach x signer forks (record { storage = s; running = []; replies = [] }) d
        × (d.running ≡ [])
        × (d.storage ≡ crossed)
  unfolding route post_bids_steps accept_steps ◌>>=◌
  crossed-reached one_ok other_ok =
      let one_in = next here (arrive s [] [] (Request.post_bids one)) in
      let one_checked =
        Reach-bind x signer forks Reply.post_bids [] [] [] (admit_steps x one) (accept_steps x one)
          s s duty (alone-admit_steps x one s ∙ ap (λ r. (s, r)) one_ok) one_in in
      let other_in = next one_checked (arrive s _ [] (Request.post_bids other)) in
      let other_checked =
        Reach-bind x signer forks Reply.post_bids [] _ [] (admit_steps x other)
          (accept_steps x other) s s duty (alone-admit_steps x other s ∙ ap (λ r. (s, r)) other_ok)
          other_in in
      let other_best =
        next other_checked (write s [] _ [] (set_best_bid other.message.slot other) _) in
      let one_best =
        next other_best (write _ (_ ∷ []) [] [] (set_best_bid one.message.slot one) _) in
      let one_payload = next one_best (
        write _ (_ ∷ []) [] []
          (set_blinded_block_response key_of_duty (to_blinded_block_response one)) _) in
      let one_done = next one_payload (reply _ (_ ∷ []) [] [] _) in
      let other_payload = next one_done (
        write _ [] [] _ (set_blinded_block_response key_of_duty (to_blinded_block_response other))
          _) in
      (_, next other_payload (reply _ [] [] _ _), refl, refl)

  best-crossed :
      bid_key one ≡ bid_key other
      → read_best_bid crossed other.message.slot other.message.parent_hash
          other.message.proposer_pubkey
        ≡ some one
  unfolding read_best_bid set_best_bid set_blinded_block_response
  best-crossed same =
      let table = (set_best_bid other.message.slot other s).inner.best_bid_per_slot in
      lookup-insert SlotHashKey-discrete (bid_key one) (bid_key other) one table
      ∙ if_pos (SlotHashKey-discrete (bid_key other) (bid_key one)) (sym same) (some one)
          (lookup SlotHashKey-discrete (bid_key other) table)

  response-crossed :
      read_blinded_block_response crossed key_of_duty ≡ some (to_blinded_block_response other)
  unfolding read_blinded_block_response set_best_bid set_blinded_block_response
  response-crossed =
      let table =
        (set_blinded_block_response key_of_duty (to_blinded_block_response one)
          s).inner.blinded_block_resp in
      lookup-insert BlsPublicKey-discrete key_of_duty key_of_duty (to_blinded_block_response other)
        table
      ∙ if_pos (BlsPublicKey-discrete key_of_duty key_of_duty) refl
          (some (to_blinded_block_response other)) (lookup BlsPublicKey-discrete key_of_duty table)

  Entitled-crossed :
      (block : SignedBlindedBlock) → Entitled x s block duty → Entitled x crossed block duty
  unfolding set_best_bid set_blinded_block_response find_duty_by_slot read_validator_registration
  Entitled-crossed block e = record {
    on_duty = e.on_duty;
    index = e.index;
    registration = e.registration;
    registered = e.registered;
    signed = e.signed;
  }

  -- Overlapping submissions may leave the bid of one and the payload of the other: let two
  -- submissions for one slot, parent and proposer pass their checks in a storage, for the same
  -- duty. Then, whichever is the higher, the relay can come to a storage where nothing runs any
  -- more, where the one is the best bid, and where every block that the validator on duty signs for
  -- the slot is answered and published with the payload of the other.
  pub overlap-mixed :
      bid_key one ≡ bid_key other
      → admit x s one ≡ ok duty
      → admit x s other ≡ ok duty
      → (d : Config) × Reach x signer forks (record { storage = s; running = []; replies = [] }) d
        × (d.running ≡ [])
        × (read_best_bid d.storage other.message.slot other.message.parent_hash
              other.message.proposer_pubkey
            ≡ some one)
        × ((elapsed : ℕ) (block : SignedBlindedBlock)
            → Entitled x s block duty
            → (post_blinded_blocks x elapsed block d.storage).1
              ≡ ok (deliver block (to_blinded_block_response other)))
  overlap-mixed same one_ok other_ok =
      let (d, reached, idle, at) = crossed-reached one_ok other_ok in
      (
        d,
        reached,
        idle,
        rw at (best-crossed same),
        λ elapsed block entitled. rw at (
            (post_blinded_blocks-eq-ok_iff x elapsed crossed block
                (deliver block (to_blinded_block_response other))).1
              (
                to_blinded_block_response other,
                (duty, Entitled-crossed block entitled, response-crossed),
                refl,
              )),
      )
