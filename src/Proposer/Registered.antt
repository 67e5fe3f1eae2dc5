-- ===== src/Proposer/Registered.antt =====
-- Which registrations crates/http/src/server/proposer_api/post_validators.rs leaves in the storage.
use rs_mev_relay.Prelude.{
  ◌≡◌, true, none, some, Option, List, [], ◌∷◌, refl, sym, ◌∙◌, arith, lookup, lookup-insert,
  insert, if◌then◌else◌, ite, Bool-cases, inl, inr, Option-cases, subst,
}
use mathlib.Core.List.{Mem, mem-cons_self, mem-cons_of_mem}
use rs_mev_relay.Primitives.Bytes.{Bytes}
use rs_mev_relay.Primitives.Keys.{BlsPublicKey, BlsPublicKey-discrete}
use rs_mev_relay.Primitives.Registrations.{ValidatorRegistration}
use rs_mev_relay.Primitives.Domains.{compute_builder_domain}
use rs_mev_relay.Primitives.Known.{KnownValidatorResponse, is_active}
use rs_mev_relay.Primitives.External.{External, signing_root, verify}
use rs_mev_relay.Storage.{
  InMemoryStorage, ValidatorRegistrations, read_validator_registration, set_validator_registrations,
}
use rs_mev_relay.Proposer.Validators.{Answered, is_registrable, register, post_validators}

-- The last registrable registration of a key.
unfoldable pub newest :
    External → Bytes → BlsPublicKey → List Answered → Option ValidatorRegistration
newest x domain key [] = none
newest x domain key (a ∷ rest) = elim (newest x domain key rest) [
  | some reg ↦ some reg
  | none ↦
      if is_registrable x domain a
      then ite (BlsPublicKey-discrete key a.0.message.pubkey) (some a.0) none
      else none
]

abbrev or_else :
    Option ValidatorRegistration → Option ValidatorRegistration → Option ValidatorRegistration
or_else none o = o
or_else (some reg) o = some reg

module _ (x : External) (domain : Bytes) (key : BlsPublicKey) where
  lookup-register :
      (regs : List Answered) (m : ValidatorRegistrations)
      → lookup BlsPublicKey-discrete key (register x domain regs m)
        ≡ or_else (newest x domain key regs) (lookup BlsPublicKey-discrete key m)
  unfolding register newest
  lookup-register [] m = refl
  lookup-register (a ∷ rest) m = elim (Bool-cases (is_registrable x domain a)) [
    | inl h ↦
        let step = lookup-insert BlsPublicKey-discrete a.0.message.pubkey key a.0 m in
        ground (
          arith,
          step,
          lookup-register rest (insert BlsPublicKey-discrete a.0.message.pubkey a.0 m),
        )
    | inr h ↦ ground (arith, lookup-register rest m)
  ]

-- The registrations after the request are those of the request alone: under each key the last
-- one of it that is registrable, and nothing where there is none, whatever was there before.
pub read_validator_registration-post_validators :
    (x : External) (regs : List Answered) (s : InMemoryStorage) (key : BlsPublicKey)
    → read_validator_registration (post_validators x regs s) key
      ≡ newest x (compute_builder_domain x.fork_data_root s.inner.fork_data) key regs
unfolding read_validator_registration post_validators set_validator_registrations lookup
read_validator_registration-post_validators x regs s key = ground (
  arith,
  lookup-register x (compute_builder_domain x.fork_data_root s.inner.fork_data) key regs [],
)

-- Known to the beacon node as active, registered under its own key, and signed with that key.
pub record IsRegistered (x : External) (domain : Bytes) (key : BlsPublicKey) (regs : List Answered)
    (reg : ValidatorRegistration) : Type 0 where
  pub known : KnownValidatorResponse
  pub sent : Mem (reg, some known) regs
  pub active : is_active known ≡ true
  pub own_key : key ≡ reg.message.pubkey
  pub signed :
      verify x reg.signature key (signing_root x (x.registration_root reg.message) domain) ≡ true

module _ (x : External) (domain : Bytes) (key : BlsPublicKey) where
  head-IsRegistered :
      (a : Answered) (rest : List Answered) (reg : ValidatorRegistration)
      → is_registrable x domain a ≡ true
      → ite (BlsPublicKey-discrete key a.0.message.pubkey) (some a.0) none ≡ some reg
      → IsRegistered x domain key (a ∷ rest) reg
  unfolding is_registrable
  head-IsRegistered (r, none) rest reg h e = cc
  head-IsRegistered (r, some known) rest reg h e =
      elim (BlsPublicKey-discrete key r.message.pubkey) [
        | no n ↦ absurd (ground arith)
        | yes p ↦
            let is_reg : r ≡ reg = ground arith in
            subst
              (λ (q : ValidatorRegistration). IsRegistered x domain key ((r, some known) ∷ rest) q)
              is_reg
              (record {
                known = known;
                sent = mem-cons_self;
                active = ground arith;
                own_key = p;
                signed = ground arith;
              })
      ]

  tail-IsRegistered :
      (a : Answered) (rest : List Answered) (reg : ValidatorRegistration)
      → IsRegistered x domain key rest reg
      → IsRegistered x domain key (a ∷ rest) reg
  tail-IsRegistered a rest reg r = record {
    known = r.known;
    sent = mem-cons_of_mem a r.sent;
    active = r.active;
    own_key = r.own_key;
    signed = r.signed;
  }

  newest-IsRegistered :
      (regs : List Answered) (reg : ValidatorRegistration)
      → newest x domain key regs ≡ some reg
      → IsRegistered x domain key regs reg
  unfolding newest
  newest-IsRegistered [] reg e = cc
  newest-IsRegistered (a ∷ rest) reg e = elim (Option-cases (newest x domain key rest)) [
    | inr (r, h) ↦ tail-IsRegistered a rest reg (newest-IsRegistered rest reg (ground arith))
    | inl h ↦ elim (Bool-cases (is_registrable x domain a)) [
      | inl good ↦ head-IsRegistered a rest reg good (ground arith)
      | inr bad ↦ absurd (ground arith)
    ]
  ]

-- Every registration found after the request was sent in it, for a validator that the beacon node
-- says is active, under its own key, and with that key's signature in the builder domain.
pub post_validators-IsRegistered :
    (x : External) (regs : List Answered) (s : InMemoryStorage) (key : BlsPublicKey)
    (reg : ValidatorRegistration)
    → read_validator_registration (post_validators x regs s) key ≡ some reg
    → IsRegistered x (compute_builder_domain x.fork_data_root s.inner.fork_data) key regs reg
post_validators-IsRegistered x regs s key reg e =
    newest-IsRegistered x (compute_builder_domain x.fork_data_root s.inner.fork_data) key regs reg
      (sym (read_validator_registration-post_validators x regs s key) ∙ e)
