-- ===== src/Service/Duties.antt =====
-- The duties that bin/relay/src/service.rs makes of the beacon node's answers.
use rs_mev_relay.Prelude.{
  ◌≡◌, true, false, none, some, Option, List, [], ◌∷◌, refl, arith, lookup, Bool-cases, inl, inr,
  Option-cases, filter_map, ok, collect_some, is_empty, Result-cases, >>=-eq-ok, subst, All, ◌⊎◌,
  ok-inj,
}
use mathlib.Core.List.{Mem, mem-cons_self, mem-cons_of_mem}
use mathlib.Core.Option
use rs_mev_relay.Primitives.Bytes.{Bytes}
use rs_mev_relay.Primitives.Keys.{BlsPublicKey, BlsPublicKey-discrete}
use rs_mev_relay.Primitives.Registrations.{
  ValidatorRegistration, Validator, ProposerDutiesData, ProposerDutiesResponse, merge_with,
}
use rs_mev_relay.Primitives.External.{External}
use rs_mev_relay.Storage.{
  InMemoryStorage, ValidatorRegistrations, read_validator_registration, empty_validator_regs,
  set_proposer_duties,
}
use rs_mev_relay.Service.{duty_entry, into_duties, refresh}

-- The duty of a registered validator: slot and index of the beacon node, and its registration.
unfoldable pub registered_duty :
    InMemoryStorage → (ProposerDutiesData → Bytes) → ProposerDutiesData → Option Validator
registered_duty s point d =
    Option.map
      (λ (reg : ValidatorRegistration). record {
        slot = d.slot;
        validator_index = d.validator_index;
        entry = reg;
      })
      (read_validator_registration s (record { point = point d }))

lookup_of_empty :
    (m : ValidatorRegistrations) (key : BlsPublicKey)
    → is_empty m ≡ true
    → lookup BlsPublicKey-discrete key m ≡ none
unfolding lookup
lookup_of_empty [] key e = refl
lookup_of_empty (_ ∷ _) key e = cc

-- The keys of the duties are read as these points.
abbrev pub Parses : External → (ProposerDutiesData → Bytes) → List ProposerDutiesData → Type 0
Parses x point = All (λ (d : ProposerDutiesData). x.read_public_key d.pubkey ≡ some (point d))

module _ (x : External) (s : InMemoryStorage) (point : ProposerDutiesData → Bytes) where
  collect_some-filter_map :
      (ds : List ProposerDutiesData)
      → Parses x point ds
      → collect_some (duty_entry x s) ds ≡ ok (filter_map (registered_duty s point) ds)
  unfolding duty_entry registered_duty filter_map
  collect_some-filter_map [] parses = refl
  collect_some-filter_map (d ∷ ds) (h, parses) =
      let rest = collect_some-filter_map ds parses in ground arith

  none_registered :
      (ds : List ProposerDutiesData)
      → empty_validator_regs s ≡ true
      → filter_map (registered_duty s point) ds ≡ []
  unfolding registered_duty filter_map empty_validator_regs read_validator_registration
  none_registered [] e = refl
  none_registered (d ∷ ds) e =
      let rest = none_registered ds e in
      let missing =
        lookup_of_empty s.inner.validator_registrations (record { point = point d }) e in
      ground arith

  -- Where the beacon node's keys are keys, the duties are those of the registered validators, each
  -- with its registration, in the order of the answer; the early return on an empty table of
  -- registrations makes no difference.
  pub into_duties-filter_map :
      (ds : List ProposerDutiesData)
      → Parses x point ds
      → into_duties x s ds ≡ ok (filter_map (registered_duty s point) ds)
  unfolding into_duties
  into_duties-filter_map ds parses = elim (Bool-cases (empty_validator_regs s)) [
    | inl e ↦ let h = none_registered ds e in ground arith
    | inr e ↦ let h = collect_some-filter_map ds parses in ground arith
  ]

-- The duty comes from an entry of the answer, whose key is the one that its registration is under.
pub record IsDutyOf (x : External) (s : InMemoryStorage) (ds : List ProposerDutiesData)
    (v : Validator) : Type 0 where
  pub answer : ProposerDutiesData
  pub sent : Mem answer ds
  pub key : Bytes
  pub parsed : x.read_public_key answer.pubkey ≡ some key
  pub slot : v.slot ≡ answer.slot
  pub index : v.validator_index ≡ answer.validator_index
  pub entry : read_validator_registration s (record { point = key }) ≡ some v.entry

module _ (x : External) (s : InMemoryStorage) where
  head-IsDutyOf :
      (d : ProposerDutiesData) (ds : List ProposerDutiesData) (v : Validator)
      → duty_entry x s d ≡ ok (some v)
      → IsDutyOf x s (d ∷ ds) v
  unfolding duty_entry
  head-IsDutyOf d ds v h = elim (Option-cases (x.read_public_key d.pubkey)) [
    | inl e ↦ absurd (ground arith)
    | inr (key, e) ↦ elim (Option-cases (read_validator_registration s (record { point = key }))) [
      | inl er ↦ absurd (ground arith)
      | inr (reg, er) ↦ record {
        answer = d;
        sent = mem-cons_self;
        key = key;
        parsed = e;
        slot = ground arith;
        index = ground arith;
        entry = ground arith;
      }
    ]
  ]

  tail-IsDutyOf :
      (d : ProposerDutiesData) (ds : List ProposerDutiesData) (v : Validator)
      → IsDutyOf x s ds v
      → IsDutyOf x s (d ∷ ds) v
  tail-IsDutyOf d ds v i = record {
    answer = i.answer;
    sent = mem-cons_of_mem d i.sent;
    key = i.key;
    parsed = i.parsed;
    slot = i.slot;
    index = i.index;
    entry = i.entry;
  }

  module _ (P : Validator → Type 0) where
    cons-All :
        (d : ProposerDutiesData) (ds : List ProposerDutiesData) (y : Option Validator)
        (ys vs : List Validator)
        → ((v : Validator) → IsDutyOf x s (d ∷ ds) v → P v)
        → duty_entry x s d ≡ ok y
        → All P ys
        → elim y [ none ↦ ys | some b ↦ b ∷ ys ] ≡ vs
        → All P vs
    cons-All d ds none ys vs each hy all e = subst (All P) e all
    cons-All d ds (some v) ys vs each hy all e =
        subst (All P) e (each v (head-IsDutyOf d ds v hy), all)

    collect_some-All :
        (ds : List ProposerDutiesData) (vs : List Validator)
        → ((v : Validator) → IsDutyOf x s ds v → P v)
        → collect_some (duty_entry x s) ds ≡ ok vs
        → All P vs
    collect_some-All [] vs each h = subst (All P) (ok-inj h) tt
    collect_some-All (d ∷ ds) vs each h =
        let (y, hy, more) = >>=-eq-ok (duty_entry x s d) _ h in
        let (ys, hys, done) = >>=-eq-ok (collect_some (duty_entry x s) ds) _ more in
        let all = collect_some-All ds ys (λ v i. each v (tail-IsDutyOf d ds v i)) hys in
        cons-All d ds y ys vs each hy all (ok-inj done)

    -- Whatever holds of every duty that comes from an entry of the answer, and has the registration
    -- stored under the entry's key, holds of all the duties made.
    pub into_duties-All :
        (ds : List ProposerDutiesData) (vs : List Validator)
        → ((v : Validator) → IsDutyOf x s ds v → P v)
        → into_duties x s ds ≡ ok vs
        → All P vs
    unfolding into_duties
    into_duties-All ds vs each h = elim (Bool-cases (empty_validator_regs s)) [
      | inl e ↦ let none_made : [] ≡ vs = ground arith in subst (All P) none_made tt
      | inr e ↦ collect_some-All ds vs each (ground arith)
    ]

-- A refresh never leaves the relay without duties that it had: an empty answer, a failed request
-- or a key that is none leaves the duties in place.
pub refresh-not-empty :
    (x : External) (this next : Option ProposerDutiesResponse) (s : InMemoryStorage)
    → is_empty s.inner.proposer_duties ≡ false
    → is_empty (refresh x this next s).inner.proposer_duties ≡ false
unfolding refresh set_proposer_duties
refresh-not-empty x this next s h = ground arith

refresh-cases :
    (x : External) (this next : Option ProposerDutiesResponse) (s : InMemoryStorage)
    → (s.inner.proposer_duties ≡ (refresh x this next s).inner.proposer_duties)
      ⊎ ((ds : List ProposerDutiesData) × (into_duties x s ds
            ≡ ok (refresh x this next s).inner.proposer_duties))
unfolding refresh set_proposer_duties
refresh-cases x none next s = inl refl
refresh-cases x (some this) none s = inl refl
refresh-cases x (some this) (some next) s =
    elim (Result-cases (into_duties x s (merge_with this next))) [
      | inr (_, e) ↦ inl (ground arith)
      | inl ([], e) ↦ inl (ground arith)
      | inl (v ∷ vs, e) ↦ inr (merge_with this next, ground arith)
    ]

-- What holds of every duty in the storage, and of every duty made of the two answers, holds of
-- every duty after the refresh.
pub refresh-All :
    (x : External) (this next : Option ProposerDutiesResponse) (s : InMemoryStorage)
    (P : Validator → Type 0)
    → All P s.inner.proposer_duties
    → ((ds : List ProposerDutiesData) (v : Validator) → IsDutyOf x s ds v → P v)
    → All P (refresh x this next s).inner.proposer_duties
refresh-All x this next s P old each = elim (refresh-cases x this next s) [
  | inl same ↦ subst (All P) same old
  | inr (ds, e) ↦ into_duties-All x s P ds (refresh x this next s).inner.proposer_duties (each ds) e
]
