-- ===== src/Relay/Writes.antt =====
-- Which steps of the relay write the tables of the bids.
use rs_mev_relay.Prelude.{
  [], ◌∷◌, refl, ap, ◌∙◌, sym, subst, ℕ, Option, List, ◌≡◌, ◌⊎◌, inl, inr, arith, Result-cases,
}
use rs_mev_relay.Primitives.Domains.{ForkDatas}
use rs_mev_relay.Primitives.Bids.{BidSubmission}
use rs_mev_relay.Primitives.Registrations.{Validator}
use rs_mev_relay.Primitives.External.{External}
use rs_mev_relay.Primitives.Signing.{BlsSigner}
use rs_mev_relay.Storage
use rs_mev_relay.Storage.{InMemoryStorage}
use rs_mev_relay.Builder
use rs_mev_relay.Builder.{admit, accept}
use rs_mev_relay.Builder.Admission.{Admissible, admit-eq-ok_iff}
use rs_mev_relay.Grpc.Service
use rs_mev_relay.Grpc.Service.{decide, update_best, below_best}
use rs_mev_relay.Grpc.Messages.{SubmitBlockRequest}
use rs_mev_relay.Primitives.Bytes.{B256}
use rs_mev_relay.Primitives.Keys.{BlsPublicKey}
use rs_mev_relay.Primitives.Blocks.{SignedBlindedBlock}
use rs_mev_relay.Primitives.Registrations.{ProposerDutiesResponse}
use rs_mev_relay.Grpc.Decide.{decide-admit}
use rs_mev_relay.Proposer.GetHeader
use rs_mev_relay.Proposer.BlindedBlocks
use rs_mev_relay.Proposer.Validators
use rs_mev_relay.Service as Events
use rs_mev_relay.Primitives.Events.{BeaconEvent}
use rs_mev_relay.Proposer.Validators.{Answered}
use rs_mev_relay.Relay.{Request, handle, run}

-- The same bids, responses, builders and fork data.
abbrev pub SameBids : InMemoryStorage → InMemoryStorage → Type 0
SameBids s t =
    (t.inner.best_bid_per_slot ≡ s.inner.best_bid_per_slot)
    × (t.inner.best_bid_by_block_number ≡ s.inner.best_bid_by_block_number)
    × (t.inner.blinded_block_resp ≡ s.inner.blinded_block_resp)
    × (t.inner.wlist_builders ≡ s.inner.wlist_builders)
    × (t.inner.fork_data ≡ s.inner.fork_data)

abbrev pub Accepts : External → InMemoryStorage → InMemoryStorage → Type 0
Accepts x s t =
    (b : BidSubmission) × (duty : Validator) × Admissible x s b duty × (t ≡ accept b duty s)

same : (s t : InMemoryStorage) → t.inner ≡ s.inner → SameBids s t
same s t e = ground arith

module _ (x : External) (signer : BlsSigner) where
  post_bids-cases :
      (b : BidSubmission) (s : InMemoryStorage)
      → SameBids s (Builder.post_bids x b s).0 ⊎ Accepts x s (Builder.post_bids x b s).0
  unfolding Builder.post_bids
  post_bids-cases b s = elim (Result-cases (admit x s b)) [
    | inl (duty, h) ↦ inr (b, duty, (admit-eq-ok_iff x s b duty).0 h, ground arith)
    | inr (e, h) ↦ inl (ground arith)
  ]

  submit_block-cases :
      (req : SubmitBlockRequest) (s : InMemoryStorage)
      → SameBids s (Service.submit_block x s.inner.fork_data req s).0
        ⊎ Accepts x s (Service.submit_block x s.inner.fork_data req s).0
  unfolding Service.submit_block update_best accept
  submit_block-cases req s = elim (Result-cases (decide x s.inner.fork_data s req)) [
    | inr (e, h) ↦ inl (ground arith)
    | inl (below_best, h) ↦ inl (ground arith)
    | inl (Service.update bid payload blobs signature k, h) ↦
        let b : BidSubmission = record {
          message = bid;
          execution_payload = payload;
          blobs_bundle = blobs;
          signature = signature;
        } in
        let (duty, admitted, on_key) = decide-admit x s req b h in
        inr (b, duty, (admit-eq-ok_iff x s b duty).0 admitted, ground arith)
  ]

  get_header-inner :
      (elapsed slot : ℕ) (hash : B256) (key : BlsPublicKey) (s : InMemoryStorage)
      → (GetHeader.get_header x signer elapsed slot hash key s).0.inner ≡ s.inner
  unfolding GetHeader.get_header GetHeader.count_header
  get_header-inner elapsed slot hash key s = ground arith

  post_blinded_blocks-same :
      (elapsed : ℕ) (b : SignedBlindedBlock) (s : InMemoryStorage)
      → SameBids s (BlindedBlocks.post_blinded_blocks x elapsed b s).0
  unfolding BlindedBlocks.post_blinded_blocks Storage.set_delivered_blocks
  post_blinded_blocks-same elapsed b s = ground arith

  post_validators-same :
      (regs : List Answered) (s : InMemoryStorage)
      → SameBids s (Validators.post_validators x regs s)
  unfolding Validators.post_validators Storage.set_validator_registrations
  post_validators-same regs s = ground arith

  on_event-same : (e : BeaconEvent) (s : InMemoryStorage) → SameBids s (Events.on_event e s).0
  unfolding Events.on_event Storage.set_payload_attributes Storage.record_relayed_block
      Storage.set_head_slot
  on_event-same e s = ground arith

  refresh-same :
      (this next : Option ProposerDutiesResponse) (s : InMemoryStorage)
      → SameBids s (Events.refresh x this next s)
  unfolding Events.refresh Storage.set_proposer_duties
  refresh-same this next s = ground arith

  -- Every step of the relay either leaves the bids, the responses, the builders and the fork data
  -- as they are, or is the acceptance of an admissible submission, from HTTP or gRPC alike.
  pub handle-cases :
      (r : Request) (s : InMemoryStorage)
      → SameBids s (handle x signer s.inner.fork_data r s)
        ⊎ Accepts x s (handle x signer s.inner.fork_data r s)
  unfolding handle
  handle-cases (Request.post_bids b) s = post_bids-cases b s
  handle-cases (Request.submit_block req) s = submit_block-cases req s
  handle-cases (Request.get_header elapsed slot hash key) s = inl (
      same s (GetHeader.get_header x signer elapsed slot hash key s).0
        (get_header-inner elapsed slot hash key s))
  handle-cases (Request.post_blinded_blocks elapsed b) s =
      inl (post_blinded_blocks-same elapsed b s)
  handle-cases (Request.post_validators regs) s = inl (post_validators-same regs s)
  handle-cases (Request.event e) s = inl (on_event-same e s)
  handle-cases (Request.refresh this next) s = inl (refresh-same this next s)

accept-fork_data :
    (b : BidSubmission) (duty : Validator) (s : InMemoryStorage)
    → (accept b duty s).inner.fork_data ≡ s.inner.fork_data
unfolding accept Storage.set_best_bid Storage.set_blinded_block_response
accept-fork_data b duty s = refl

-- What survives a step that leaves the bids alone, and an acceptance, survives any requests.
module _ {ℓ} (x : External) (signer : BlsSigner) (P : InMemoryStorage → Type ℓ)
    (on_same : (s t : InMemoryStorage) → SameBids s t → P s → P t)
    (on_accept : (s : InMemoryStorage) (b : BidSubmission) (duty : Validator)
      → Admissible x s b duty
      → P s
      → P (accept b duty s)) where
  handle_step :
      (r : Request) (s : InMemoryStorage)
      → P s
      → let t = handle x signer s.inner.fork_data r s in
        (t.inner.fork_data ≡ s.inner.fork_data) × P t
  handle_step r s p =
      let t = handle x signer s.inner.fork_data r s in
      elim (handle-cases x signer r s) [
        | inl same ↦ (same.4, on_same s t same p)
        | inr (b, duty, a, e) ↦ (
          ap (λ (u : InMemoryStorage). u.inner.fork_data) e ∙ accept-fork_data b duty s,
          subst P (sym e) (on_accept s b duty a p),
        )
      ]

  run_own :
      (rs : List Request) (forks : ForkDatas) (s : InMemoryStorage)
      → s.inner.fork_data ≡ forks
      → P s
      → P (run x signer forks rs s)
  unfolding run
  run_own [] forks s e p = p
  run_own (r ∷ rs) forks s e p =
      let step =
        subst
          (λ (f : ForkDatas).
            ((handle x signer f r s).inner.fork_data ≡ s.inner.fork_data)
            × P (handle x signer f r s))
          e (handle_step r s p) in
      run_own rs forks (handle x signer forks r s) (step.0 ∙ e) step.1

  pub run_induction :
      (forks : ForkDatas) (rs : List Request) (s : InMemoryStorage)
      → s.inner.fork_data ≡ forks
      → P s
      → P (run x signer forks rs s)
  run_induction forks rs s = run_own rs forks s
