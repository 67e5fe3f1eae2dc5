-- ===== src/Relay/Sound.antt =====
-- What the relay's storage holds at any time: only bids that were admitted, under their own keys.
use mathlib.Core.List.{Mem}
use rs_mev_relay.Prelude.{
  ℕ, ◌<◌, List, some, true, ◌≡◌, inl, inr, refl, ap, ◌∙◌, sym, lookup, ℕ_discrete, ite-eq-some,
}
use rs_mev_relay.Primitives.Bytes.{B256}
use rs_mev_relay.Primitives.Keys.{BlsPublicKey, BlsPublicKey-discrete}
use rs_mev_relay.Primitives.Payload.{BlindedBlockResponse}
use rs_mev_relay.Primitives.Bids.{BidSubmission, to_blinded_block_response}
use rs_mev_relay.Primitives.Chain.{HeadSlot, PayloadAttributes}
use rs_mev_relay.Primitives.Registrations.{Validator}
use rs_mev_relay.Primitives.Domains.{ForkDatas, compute_builder_domain}
use rs_mev_relay.Primitives.External.{External, verify_bid_signature}
use rs_mev_relay.Primitives.Signing.{BlsSigner}
use rs_mev_relay.Primitives.Metrics.{RelayMetrics}
use rs_mev_relay.Storage.{
  InMemoryStorage, ValidatorRegistrations, new, SlotHashKey-discrete, read_best_bid,
  read_best_bid_by_block_number, read_blinded_block_response, set_best_bid,
  set_blinded_block_response,
}
use rs_mev_relay.Builder.{accept}
use rs_mev_relay.Builder.Admission.{Admissible}
use rs_mev_relay.Builder.Effects.{
  key, bid_key, read_best_bid-accept, read_by_block_number-accept, read_response-accept,
}
use rs_mev_relay.Relay.{Request, run}
use rs_mev_relay.Relay.Writes.{SameBids, run_induction}

module _ (x : External) (builders : List BlsPublicKey) (forks : ForkDatas) where
  -- A bid from a whitelisted builder, of positive value, and signed.
  pub record Accepted (b : BidSubmission) : Type 0 where
    pub positive : 0 < b.message.value.value
    pub allowed : Mem b.message.builder_pubkey builders
    pub signed :
        verify_bid_signature x b.message b.signature (compute_builder_domain x.fork_data_root forks)
        ≡ true

  pub record IsSound (s : InMemoryStorage) : Type 0 where
    pub same_builders : s.inner.wlist_builders ≡ builders
    pub same_forks : s.inner.fork_data ≡ forks
    -- a best bid stands under its own slot, parent and proposer
    pub bids :
        (slot : ℕ) (hash : B256) (validator : BlsPublicKey) (b : BidSubmission)
        → read_best_bid s slot hash validator ≡ some b
        → (key slot hash validator ≡ bid_key b) × Accepted b
    pub by_block :
        (number : ℕ) (b : BidSubmission)
        → read_best_bid_by_block_number s number ≡ some b
        → (number ≡ b.execution_payload.block_number) × Accepted b
    -- a response is the payload of an accepted bid
    pub responses :
        (proposer : BlsPublicKey) (r : BlindedBlockResponse)
        → read_blinded_block_response s proposer ≡ some r
        → (b : BidSubmission) × (r ≡ to_blinded_block_response b) × Accepted b

  pub Accepted-of_Admissible :
      (s : InMemoryStorage) (b : BidSubmission) (duty : Validator)
      → IsSound s
      → Admissible x s b duty
      → Accepted b
  Accepted-of_Admissible s b duty sound a = record {
    positive = a.positive;
    allowed = rw (sym sound.same_builders) a.allowed;
    signed = rw (sym sound.same_forks) a.signed;
  }

  pub IsSound-of_SameBids : (s t : InMemoryStorage) → IsSound s → SameBids s t → IsSound t
  unfolding read_best_bid read_best_bid_by_block_number read_blinded_block_response
  IsSound-of_SameBids s t sound same = record {
    same_builders = same.3 ∙ sound.same_builders;
    same_forks = same.4 ∙ sound.same_forks;
    bids = λ slot hash validator b e.
        sound.bids slot hash validator b
          (ap (lookup SlotHashKey-discrete (key slot hash validator)) (sym same.0) ∙ e);
    by_block =
        λ number b e. sound.by_block number b (ap (lookup ℕ_discrete number) (sym same.1) ∙ e);
    responses = λ proposer r e.
        sound.responses proposer r (ap (lookup BlsPublicKey-discrete proposer) (sym same.2) ∙ e);
  }

  module _ (s : InMemoryStorage) (b : BidSubmission) (duty : Validator) (sound : IsSound s) where
    pub bids-accept :
        Accepted b
        → (slot : ℕ) (hash : B256) (validator : BlsPublicKey) (best : BidSubmission)
        → read_best_bid (accept b duty s) slot hash validator ≡ some best
        → (key slot hash validator ≡ bid_key best) × Accepted best
    bids-accept good slot hash validator best e =
        elim (ite-eq-some (SlotHashKey-discrete (key slot hash validator) (bid_key b)) b
          (read_best_bid s slot hash validator)
          (sym (read_best_bid-accept b duty s slot hash validator) ∙ e)) [
            | inl (on_key, is_b) ↦ (on_key ∙ ap bid_key is_b, rw (sym is_b) good)
            | inr before ↦ sound.bids slot hash validator best before
          ]

    pub by_block-accept :
        Accepted b
        → (number : ℕ) (best : BidSubmission)
        → read_best_bid_by_block_number (accept b duty s) number ≡ some best
        → (number ≡ best.execution_payload.block_number) × Accepted best
    by_block-accept good number best e =
        elim (ite-eq-some (ℕ_discrete number b.execution_payload.block_number) b
          (read_best_bid_by_block_number s number)
          (sym (read_by_block_number-accept b duty s number) ∙ e)) [
            | inl (on_key, is_b) ↦ (
              on_key ∙ ap (λ (c : BidSubmission). c.execution_payload.block_number) is_b,
              rw (sym is_b) good,
            )
            | inr before ↦ sound.by_block number best before
          ]

    pub responses-accept :
        Accepted b
        → (proposer : BlsPublicKey) (r : BlindedBlockResponse)
        → read_blinded_block_response (accept b duty s) proposer ≡ some r
        → (c : BidSubmission) × (r ≡ to_blinded_block_response c) × Accepted c
    responses-accept good proposer r e =
        elim (ite-eq-some (BlsPublicKey-discrete proposer duty.entry.message.pubkey)
          (to_blinded_block_response b) (read_blinded_block_response s proposer)
          (sym (read_response-accept b duty s proposer) ∙ e)) [
            | inl (_, is_b) ↦ (b, sym is_b, good)
            | inr before ↦ sound.responses proposer r before
          ]

    pub accept-IsSound : Accepted b → IsSound (accept b duty s)
    unfolding accept set_best_bid set_blinded_block_response
    accept-IsSound good = record {
      same_builders = sound.same_builders;
      same_forks = sound.same_forks;
      bids = bids-accept good;
      by_block = by_block-accept good;
      responses = responses-accept good;
    }

  module _ (signer : BlsSigner) where
    -- Soundness is an invariant: it holds after any sequence of requests and events if it holds
    -- before them. A sound storage has the given builders and fork data; each best bid stands
    -- under its own slot, parent and proposer, or block number, is of positive value, from a
    -- whitelisted builder, and carries a signature that was verified; each stored response is the
    -- payload of such a bid.
    pub run-IsSound :
        (rs : List Request) (s : InMemoryStorage) → IsSound s → IsSound (run x signer forks rs s)
    run-IsSound rs s sound =
        run_induction x signer IsSound (λ s t same sound. IsSound-of_SameBids s t sound same)
          (λ s b duty a sound.
            accept-IsSound s b duty sound (Accepted-of_Admissible s b duty sound a))
          forks rs s sound.same_forks sound

  -- A storage is created sound.
  pub new-IsSound :
      (metrics : RelayMetrics) (head : HeadSlot) (attr : PayloadAttributes)
      (regs : ValidatorRegistrations) (duties : List Validator)
      → IsSound (new metrics head attr builders forks regs duties)
  unfolding new read_best_bid read_best_bid_by_block_number read_blinded_block_response lookup
  new-IsSound metrics head attr regs duties = record {
    same_builders = refl;
    same_forks = refl;
    bids = λ slot hash validator b e. cc;
    by_block = λ number b e. cc;
    responses = λ proposer r e. cc;
  }
