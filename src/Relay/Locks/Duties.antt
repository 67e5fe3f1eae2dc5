-- ===== src/Relay/Locks/Duties.antt =====
-- The events and the refresh of the duties of bin/relay/src/service.rs as programs of accesses.
use Prim.Native.String.{String}
use mathlib.Core.Option
use rs_mev_relay.Prelude.{
  ◌≡◌, ap, ◌∙◌, refl, Option, none, some, List, [], ◌∷◌, ok_or, ok, is_empty, if◌then◌else◌, arith,
  collect_some, Result, Result-cases, inl, inr,
}
use rs_mev_relay.Primitives.Events.{BeaconEvent, payload_attribute, head}
use rs_mev_relay.Primitives.Registrations.{
  ValidatorRegistration, Validator, ProposerDutiesData, ProposerDutiesResponse, merge_with,
}
use rs_mev_relay.Primitives.External.{External}
use rs_mev_relay.Storage.{
  InMemoryStorage, set_payload_attributes, record_relayed_block, set_head_slot, set_proposer_duties,
  read_validator_registration, empty_validator_regs,
}
use rs_mev_relay.Service.{duty_entry, into_duties, on_event, refresh}
use rs_mev_relay.Relay.Locks.Accesses.{set_payload_attributes_steps}
use rs_mev_relay.Relay.Locks.{
  Handler, Program, returns, writes, ◌>>=◌, get, put, alone, alone-after,
}

unfoldable pub on_event_steps : BeaconEvent → Program (Unit {0})
on_event_steps (payload_attribute attr) = set_payload_attributes_steps attr (returns tt)
on_event_steps (head slot) = writes (set_head_slot (record { slot = slot })) (returns tt)

pub alone-on_event_steps :
    (e : BeaconEvent) (s : InMemoryStorage) → alone (on_event_steps e) s ≡ ((on_event e s).0, tt)
unfolding ◌>>=◌ alone on_event_steps on_event set_payload_attributes record_relayed_block
alone-on_event_steps (payload_attribute attr) s = ground arith
alone-on_event_steps (head slot) s = refl

abbrev pub with_entry : Option Validator → List Validator → List Validator
with_entry none entries = entries
with_entry (some v) entries = v ∷ entries

module _ (x : External) where
  -- Each registration is read on its own.
  unfoldable pub entry_steps : ProposerDutiesData → Handler String (Option Validator)
  entry_steps duty = do
    point ←
        returns
          (ok_or (x.read_public_key duty.pubkey) "Failed to parse public key from fixed bytes")
    found ← get (λ s. read_validator_registration s (record { point = point }))
    returns (
        ok (
          Option.map
            (λ (registration : ValidatorRegistration). record {
              slot = duty.slot;
              validator_index = duty.validator_index;
              entry = registration;
            })
            found))

  unfoldable pub entries_steps : List ProposerDutiesData → Handler String (List Validator)
  entries_steps [] = returns (ok [])
  entries_steps (duty ∷ duties) =
      let rest = entries_steps duties in
      entry_steps duty >>= λ entry. rest >>= λ entries. returns (ok (with_entry entry entries))

  unfoldable pub into_duties_steps : List ProposerDutiesData → Handler String (List Validator)
  into_duties_steps duties = do
    empty ← get empty_validator_regs
    if empty then returns (ok []) else entries_steps duties

  alone-entry_steps :
      (d : ProposerDutiesData) (s : InMemoryStorage)
      → alone (entry_steps d) s ≡ (s, duty_entry x s d)
  unfolding ◌>>=◌ alone entry_steps duty_entry
  alone-entry_steps d s = ground arith

  alone-entries_steps :
      (ds : List ProposerDutiesData) (s : InMemoryStorage)
      → alone (entries_steps ds) s ≡ (s, collect_some (duty_entry x s) ds)
  unfolding ◌>>=◌ entries_steps alone
  alone-entries_steps [] s = refl
  alone-entries_steps (d ∷ ds) s =
      alone-after (entry_steps d) _ s s (duty_entry x s d) (alone-entry_steps d s)
      ∙ elim (Result-cases (duty_entry x s d)) [
        | inr (e, h) ↦ ground arith
        | inl (entry, h) ↦
            let tail =
              alone-after (entries_steps ds) (λ entries. returns (ok (with_entry entry entries))) s
                s (collect_some (duty_entry x s) ds) (alone-entries_steps ds s) in
            ground arith
      ]

  alone-into_duties_steps :
      (ds : List ProposerDutiesData) (s : InMemoryStorage)
      → alone (into_duties_steps ds) s ≡ (s, into_duties x s ds)
  unfolding ◌>>=◌ alone into_duties_steps into_duties
  alone-into_duties_steps ds s = let h = alone-entries_steps ds s in ground arith

  unfoldable pub refresh_steps :
      Option ProposerDutiesResponse → Option ProposerDutiesResponse → Handler String (Unit {0})
  refresh_steps none next = returns (ok tt)
  refresh_steps (some this) none = returns (ok tt)
  refresh_steps (some this) (some next) = do
    duties ← into_duties_steps (merge_with this next)
    if is_empty duties then returns (ok tt) else put (set_proposer_duties duties)

  pub alone-refresh_steps :
      (this next : Option ProposerDutiesResponse) (s : InMemoryStorage)
      → (alone (refresh_steps this next) s).0 ≡ refresh x this next s
  unfolding ◌>>=◌ alone refresh_steps refresh
  alone-refresh_steps none next s = refl
  alone-refresh_steps (some this) none s = refl
  alone-refresh_steps (some this) (some next) s =
      let ds = merge_with this next in
      let h =
        alone-after (into_duties_steps ds) _ s s (into_duties x s ds)
          (alone-into_duties_steps ds s) in
      ap (λ (both : InMemoryStorage × Result String (Unit {0})). both.0) h ∙ ground arith
