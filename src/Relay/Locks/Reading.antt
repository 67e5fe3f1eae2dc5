-- ===== src/Relay/Locks/Reading.antt =====
-- The parts of the handlers that only read the storage (crates/http/src/server, crates/grpc/src/service/mod.rs,
-- bin/relay/src/service.rs): all checks of a request come before its first write.
use rs_mev_relay.Prelude.{Bool, true, false, if◌then◌else◌, Result, err, ℕ, List, [], ◌∷◌, ok, not}
use rs_mev_relay.Primitives.Bytes.{B256}
use rs_mev_relay.Primitives.Keys.{BlsPublicKey}
use rs_mev_relay.Primitives.Bids.{BidTrace, BidSubmission}
use rs_mev_relay.Primitives.Payload.{ExecutionPayload}
use rs_mev_relay.Primitives.Blocks.{SignedBlindedBlock}
use rs_mev_relay.Primitives.Registrations.{ProposerDutiesData}
use rs_mev_relay.Primitives.Domains.{ForkDatas}
use rs_mev_relay.Primitives.External.{External}
use rs_mev_relay.Primitives.Signing.{BlsSigner}
use rs_mev_relay.Storage.{InMemoryStorage, empty_validator_regs}
use rs_mev_relay.Grpc.Messages
use rs_mev_relay.Grpc.Messages.{SubmitBlockRequest}
use rs_mev_relay.Grpc.Service
use rs_mev_relay.Grpc.Service.{Decision, below_best, update}
use rs_mev_relay.Relay.Locks.{Program, Handler, returns, reads, writes, get, ◌>>=◌}
use rs_mev_relay.Relay.Locks.Bids.{admit_steps, validate_steps, update_steps, decide_steps}
use rs_mev_relay.Relay.Locks.Proposals.{find_header_steps, find_response_steps}
use rs_mev_relay.Relay.Locks.Duties.{entry_steps, entries_steps, into_duties_steps}

abbrev pub ReadsOnly {ℓ} : {A : Type ℓ} → Program A → Type 0
ReadsOnly (returns a) = Unit
ReadsOnly (reads k) = (s : InMemoryStorage) → ReadsOnly (k s)
ReadsOnly (writes f p) = ⊥

pub ReadsOnly-if {ℓ} :
    {A : Type ℓ} (test : Bool) (p q : Program A)
    → ReadsOnly p
    → ReadsOnly q
    → ReadsOnly (if test then p else q)
ReadsOnly-if true p q yes_too no_too = yes_too
ReadsOnly-if false p q yes_too no_too = no_too

module _ {ℓ κ μ} {E : Type ℓ} {A : Type κ} {B : Type μ} where
  pub ReadsOnly-bind :
      (p : Handler E A) (more : A → Handler E B)
      → ReadsOnly p
      → ((a : A) → ReadsOnly (more a))
      → ReadsOnly (p >>= more)
  unfolding ◌>>=◌
  ReadsOnly-bind (returns (err e)) more grows rest = tt
  ReadsOnly-bind (returns (ok a)) more grows rest = rest a
  ReadsOnly-bind (reads k) more grows rest = λ s. ReadsOnly-bind (k s) more (grows s) rest
  ReadsOnly-bind (writes f p) more grows rest = absurd grows

  pub ReadsOnly-returns :
      (r : Result E A) (more : A → Handler E B)
      → ((a : A) → ReadsOnly (more a))
      → ReadsOnly (returns r >>= more)
  unfolding ◌>>=◌
  ReadsOnly-returns (err e) more rest = tt
  ReadsOnly-returns (ok a) more rest = rest a

  pub ReadsOnly-get :
      (f : InMemoryStorage → A) (more : A → Handler E B)
      → ((s : InMemoryStorage) → ReadsOnly (more (f s)))
      → ReadsOnly (get f >>= more)
  unfolding ◌>>=◌
  ReadsOnly-get f more rest = rest

module _ (x : External) where
  pub admit_steps-ReadsOnly : (b : BidSubmission) → ReadsOnly (admit_steps x b)
  unfolding admit_steps
  admit_steps-ReadsOnly b = ReadsOnly-get _ _ λ s1. ReadsOnly-returns _ _ λ _.
      ReadsOnly-returns _ _ λ _. ReadsOnly-get _ _ λ s2. ReadsOnly-returns _ _ λ _.
        ReadsOnly-get _ _ λ s3. ReadsOnly-returns _ _ λ _. ReadsOnly-get _ _ λ s4.
          ReadsOnly-returns _ _ λ _.
            ReadsOnly-get _ _
              λ s5. ReadsOnly-returns _ _ λ _. ReadsOnly-get _ _ λ s6. ReadsOnly-returns _ _ λ _. tt

  module _ (forks : ForkDatas) (req : SubmitBlockRequest) where
    validate_steps-ReadsOnly :
        (bid : BidTrace) (payload : ExecutionPayload)
        → ReadsOnly (validate_steps x forks req bid payload)
    unfolding validate_steps
    validate_steps-ReadsOnly bid payload = ReadsOnly-returns _ _ λ _. ReadsOnly-get _ _ λ s1.
        ReadsOnly-returns _ _ λ _. ReadsOnly-get _ _ λ s2. ReadsOnly-returns _ _ λ _.
          ReadsOnly-get _ _
            λ s3. ReadsOnly-returns _ _ λ _. ReadsOnly-get _ _ λ s4. ReadsOnly-returns _ _ λ _. tt

    update_steps-ReadsOnly :
        (bid : BidTrace) (payload : Messages.ExecutionPayload) (blobs : Messages.BlobsBundle)
        → ReadsOnly (update_steps x forks req bid payload blobs)
    unfolding update_steps
    update_steps-ReadsOnly bid payload blobs = ReadsOnly-returns _ _ λ exec_payload.
        ReadsOnly-bind (validate_steps x forks req bid exec_payload) _
          (validate_steps-ReadsOnly bid exec_payload)
          λ duty.
            ReadsOnly-returns _ _ λ _. ReadsOnly-returns _ _ λ _. ReadsOnly-returns _ _ λ _. tt

    pub decide_steps-ReadsOnly : ReadsOnly (decide_steps x forks req)
    unfolding decide_steps
    decide_steps-ReadsOnly = ReadsOnly-returns _ _ λ _. ReadsOnly-returns _ _ λ payload.
        ReadsOnly-returns _ _ λ blobs. ReadsOnly-returns _ _ λ bid. ReadsOnly-get _ _ λ s.
          ReadsOnly-if (not (Service.is_bid_higher s bid)) (returns (ok below_best))
            (update_steps x forks req bid payload blobs) tt
            (update_steps-ReadsOnly bid payload blobs)

module _ (x : External) (signer : BlsSigner) (elapsed slot : ℕ) (hash : B256)
    (key : BlsPublicKey) where
  pub find_header_steps-ReadsOnly : ReadsOnly (find_header_steps x signer elapsed slot hash key)
  unfolding find_header_steps
  find_header_steps-ReadsOnly = ReadsOnly-get _ _ λ s1. ReadsOnly-returns _ _ λ _.
      ReadsOnly-get _ _ λ s2.
        ReadsOnly-returns _ _
          λ _. ReadsOnly-get _ _ λ s3. ReadsOnly-returns _ _ λ _. ReadsOnly-returns _ _ λ _. tt

module _ (x : External) where
  entries_steps-ReadsOnly : (ds : List ProposerDutiesData) → ReadsOnly (entries_steps x ds)
  unfolding entries_steps entry_steps
  entries_steps-ReadsOnly [] = tt
  entries_steps-ReadsOnly (d ∷ ds) =
      ReadsOnly-bind (entry_steps x d) _ (ReadsOnly-returns _ _ λ _. ReadsOnly-get _ _ λ s. tt)
        λ entry. ReadsOnly-bind (entries_steps x ds) _ (entries_steps-ReadsOnly ds) λ entries. tt

  pub into_duties_steps-ReadsOnly :
      (ds : List ProposerDutiesData) → ReadsOnly (into_duties_steps x ds)
  unfolding into_duties_steps
  into_duties_steps-ReadsOnly ds = ReadsOnly-get _ _ λ s.
      ReadsOnly-if (empty_validator_regs s) (returns (ok [])) (entries_steps x ds) tt
        (entries_steps-ReadsOnly ds)

  pub find_response_steps-ReadsOnly :
      (elapsed : ℕ) (b : SignedBlindedBlock) → ReadsOnly (find_response_steps x elapsed b)
  unfolding find_response_steps
  find_response_steps-ReadsOnly elapsed b = ReadsOnly-get _ _ λ s1. ReadsOnly-returns _ _ λ _.
      ReadsOnly-returns _ _ λ _. ReadsOnly-get _ _ λ s2.
        ReadsOnly-get _ _
          λ s3. ReadsOnly-returns _ _ λ _. ReadsOnly-returns _ _ λ _. ReadsOnly-get _ _ λ s4. tt
