-- ===== src/Relay/Registrations.antt =====
-- Every registration that the relay acts on is signed by the key that it registers.
use rs_mev_relay.Prelude.{
  Option, List, [], ◌∷◌, true, some, ◌≡◌, refl, ap, ◌∙◌, sym, arith, subst, All, lookup,
}
use rs_mev_relay.Primitives.Keys.{BlsPublicKey, BlsPublicKey-discrete}
use rs_mev_relay.Primitives.Chain.{HeadSlot, PayloadAttributes}
use rs_mev_relay.Primitives.Registrations.{
  ValidatorRegistration, Validator, ProposerDutiesData, ProposerDutiesResponse,
}
use rs_mev_relay.Primitives.Domains.{ForkDatas, compute_builder_domain}
use rs_mev_relay.Primitives.External.{External, signing_root, verify}
use rs_mev_relay.Primitives.Signing.{BlsSigner}
use rs_mev_relay.Primitives.Metrics.{RelayMetrics}
use rs_mev_relay.Storage
use rs_mev_relay.Storage.{InMemoryStorage, new, read_validator_registration}
use rs_mev_relay.Builder
use rs_mev_relay.Builder.{accept}
use rs_mev_relay.Grpc.Service
use rs_mev_relay.Proposer.GetHeader
use rs_mev_relay.Proposer.BlindedBlocks
use rs_mev_relay.Proposer.Validators.{Answered, post_validators}
use rs_mev_relay.Proposer.Registered.{post_validators-IsRegistered}
use rs_mev_relay.Service as Events
use rs_mev_relay.Service.Duties.{IsDutyOf, refresh-All}
use rs_mev_relay.Relay.{Request, handle, run}

module _ (x : External) (forks : ForkDatas) where
  -- Under its own key, and signed by it in the builder domain.
  pub record IsSelfSigned (key : BlsPublicKey) (reg : ValidatorRegistration) : Type 0 where
    pub own_key : key ≡ reg.message.pubkey
    pub signed :
        verify x reg.signature key (
          signing_root x
            (x.registration_root reg.message)
            (compute_builder_domain x.fork_data_root forks))
        ≡ true

  abbrev pub DutySigned : Validator → Type 0
  DutySigned v = IsSelfSigned v.entry.message.pubkey v.entry

  pub record AllSigned (s : InMemoryStorage) : Type 0 where
    pub same_forks : s.inner.fork_data ≡ forks
    pub registrations :
        (key : BlsPublicKey) (reg : ValidatorRegistration)
        → read_validator_registration s key ≡ some reg
        → IsSelfSigned key reg
    pub duties : All DutySigned s.inner.proposer_duties

  -- The same registrations, duties and fork data.
  abbrev pub SameDuties : InMemoryStorage → InMemoryStorage → Type 0
  SameDuties s t =
      (t.inner.validator_registrations ≡ s.inner.validator_registrations)
      × (t.inner.proposer_duties ≡ s.inner.proposer_duties)
      × (t.inner.fork_data ≡ s.inner.fork_data)

  pub AllSigned-of_SameDuties : (s t : InMemoryStorage) → AllSigned s → SameDuties s t → AllSigned t
  unfolding read_validator_registration
  AllSigned-of_SameDuties s t signed same = record {
    same_forks = same.2 ∙ signed.same_forks;
    registrations = λ key reg e.
        signed.registrations key reg (ap (lookup BlsPublicKey-discrete key) (sym same.0) ∙ e);
    duties = subst (All DutySigned) (sym same.1) signed.duties;
  }

  pub post_validators-AllSigned :
      (regs : List Answered) (s : InMemoryStorage)
      → AllSigned s
      → AllSigned (post_validators x regs s)
  unfolding post_validators Storage.set_validator_registrations
  post_validators-AllSigned regs s signed = record {
    same_forks = signed.same_forks;
    registrations = λ key reg e.
        let r = post_validators-IsRegistered x regs s key reg e in
        record {
          own_key = r.own_key;
          signed =
              subst
                (λ (f : ForkDatas).
                  verify x reg.signature key (
                    signing_root x (x.registration_root reg.message)
                      (compute_builder_domain x.fork_data_root f))
                  ≡ true)
                signed.same_forks r.signed;
        };
    duties = signed.duties;
  }

  -- A registration signed by the key that it stands under is signed by the key that it names.
  pub self_signed :
      (key : BlsPublicKey) (reg : ValidatorRegistration)
      → IsSelfSigned key reg
      → IsSelfSigned reg.message.pubkey reg
  self_signed key reg r = record {
    own_key = refl;
    signed =
        subst
          (λ (k : BlsPublicKey).
            verify x reg.signature k (
              signing_root x (x.registration_root reg.message)
                (compute_builder_domain x.fork_data_root forks))
            ≡ true)
          r.own_key r.signed;
  }

  duty-IsSelfSigned :
      (s : InMemoryStorage)
      → AllSigned s
      → (ds : List ProposerDutiesData) (v : Validator) → IsDutyOf x s ds v
      → DutySigned v
  duty-IsSelfSigned s signed ds v d =
      self_signed (record { point = d.key }) v.entry
        (signed.registrations (record { point = d.key }) v.entry d.entry)

  module _ (this next : Option ProposerDutiesResponse) (s : InMemoryStorage) where
    refresh-keeps :
        ((Events.refresh x this next s).inner.validator_registrations
          ≡ s.inner.validator_registrations)
        × ((Events.refresh x this next s).inner.fork_data ≡ s.inner.fork_data)
    unfolding Events.refresh Storage.set_proposer_duties
    refresh-keeps = ground arith

    refresh-AllSigned : AllSigned s → AllSigned (Events.refresh x this next s)
    unfolding read_validator_registration
    refresh-AllSigned signed = record {
      same_forks = refresh-keeps.1 ∙ signed.same_forks;
      registrations = λ key reg e.
          signed.registrations key reg
            (ap (lookup BlsPublicKey-discrete key) (sym refresh-keeps.0) ∙ e);
      duties = refresh-All x this next s DutySigned signed.duties (duty-IsSelfSigned s signed);
    }

  module _ (signer : BlsSigner) where
    handle-AllSigned :
        (r : Request) (s : InMemoryStorage) → AllSigned s → AllSigned (handle x signer forks r s)
    unfolding handle Builder.post_bids accept Service.submit_block Service.update_best
        Storage.set_best_bid Storage.set_blinded_block_response GetHeader.get_header
        GetHeader.count_header BlindedBlocks.post_blinded_blocks Storage.set_delivered_blocks
        Events.on_event Storage.set_payload_attributes Storage.set_head_slot
        Storage.record_relayed_block
    handle-AllSigned (Request.post_validators regs) s signed =
        post_validators-AllSigned regs s signed
    handle-AllSigned (Request.refresh this next) s signed = refresh-AllSigned this next s signed
    handle-AllSigned r s signed =
        AllSigned-of_SameDuties s (handle x signer forks r s) signed (ground arith)

    -- All registrations in the storage stay signed: if every registration stands under its own
    -- key with that key's signature, and every duty has such a registration, then so it is after
    -- any sequence of requests and events.
    pub run-AllSigned :
        (rs : List Request) (s : InMemoryStorage)
        → AllSigned s
        → AllSigned (run x signer forks rs s)
    unfolding run
    run-AllSigned [] s signed = signed
    run-AllSigned (r ∷ rs) s signed =
        run-AllSigned rs (handle x signer forks r s) (handle-AllSigned r s signed)

  -- The storage as the relay starts it, without registrations and duties.
  pub new-AllSigned :
      (metrics : RelayMetrics) (head : HeadSlot) (attr : PayloadAttributes)
      (builders : List BlsPublicKey)
      → AllSigned (new metrics head attr builders forks [] [])
  unfolding new read_validator_registration lookup
  new-AllSigned metrics head attr builders = record {
    same_forks = refl;
    registrations = λ key reg e. cc;
    duties = tt;
  }
