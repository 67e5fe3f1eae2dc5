-- ===== src/Service.antt =====
-- bin/relay/src/service.rs: the service that follows the beacon node's events.
pub mod Duties
pub mod Epochs
pub mod Refreshing
pub mod Poll
use rs_mev_relay.Prelude.{
  ℕ, ◌+◌, ◌%◌, Option, none, some, List, [], ◌∷◌, is_empty, Result, ok, err, ◌>>=◌, ok_or,
  collect_some, if◌then◌else◌, ◌==◌,
}
use mathlib.Core.Option
use Prim.Native.String.{String}
use rs_mev_relay.Primitives.External.{External}
use rs_mev_relay.Primitives.Chain.{HeadSlot, epoch, u64_mod}
use rs_mev_relay.Primitives.Events.{BeaconEvent, payload_attribute, head}
use rs_mev_relay.Primitives.Registrations.{
  ValidatorRegistration, Validator, ProposerDutiesData, ProposerDutiesResponse, merge_with,
}
use rs_mev_relay.Storage.{
  InMemoryStorage, set_payload_attributes, set_head_slot, set_proposer_duties,
  read_validator_registration, empty_validator_regs,
}

module _ (x : External) where
  -- The closure of `filter_map`; bytes that are no key make it panic.
  unfoldable pub duty_entry :
      InMemoryStorage → ProposerDutiesData → Result String (Option Validator)
  duty_entry s duty = do
    point ← ok_or (x.read_public_key duty.pubkey) "Failed to parse public key from fixed bytes"
    ok (
        Option.map
          (λ (registration : ValidatorRegistration). record {
            slot = duty.slot;
            validator_index = duty.validator_index;
            entry = registration;
          })
          (read_validator_registration s (record { point = point })))

  unfoldable pub into_duties :
      InMemoryStorage → List ProposerDutiesData → Result String (List Validator)
  into_duties s duties =
      if empty_validator_regs s then ok [] else collect_some (duty_entry s) duties

-- The storage after an event, and the slot for which a refresh of the duties is spawned.
unfoldable pub on_event : BeaconEvent → InMemoryStorage → InMemoryStorage × Option HeadSlot
on_event (payload_attribute attr) s = (set_payload_attributes attr s, none)
on_event (head slot) s =
    let head_slot : HeadSlot = record { slot = slot } in
    (set_head_slot head_slot s, if slot % 32 == 0 then some head_slot else none)

-- The epochs that the refresh asks the beacon node for.
unfoldable pub refresh_epochs : ℕ → HeadSlot → ℕ × ℕ
refresh_epochs slots_per_epoch head_slot =
    let e = epoch head_slot slots_per_epoch in (e, (e + 1) % u64_mod)

-- The end of the spawned task, with the beacon node's two answers. The task fails if either did,
-- and a panic ends it; nothing is written then.
unfoldable pub refresh :
    External
    → Option ProposerDutiesResponse
    → Option ProposerDutiesResponse
    → InMemoryStorage
    → InMemoryStorage
refresh x none next s = s
refresh x (some this) none s = s
refresh x (some this) (some next) s = elim (into_duties x s (merge_with this next)) [
  | err panic ↦ s
  | ok duties ↦ if is_empty duties then s else set_proposer_duties duties s
]
