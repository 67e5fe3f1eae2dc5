-- ===== src/Relay/Locks/Kept.antt =====
-- What the accesses of the routes keep, by the writes that they make. A route that writes neither
-- bids nor registrations nor duties keeps whatever such writes keep.
use mathlib.Core.Option
use rs_mev_relay.Prelude.{
  ◌≡◌, ℕ, ok, List, [], ◌∷◌, Option, none, some, is_empty, All, Option-cases, inl, inr,
}
use rs_mev_relay.Primitives.Bytes.{Bytes, B256}
use rs_mev_relay.Primitives.Keys.{BlsPublicKey}
use rs_mev_relay.Primitives.Chain.{HeadSlot, PayloadAttributes}
use rs_mev_relay.Primitives.Events.{BeaconEvent, payload_attribute, head}
use rs_mev_relay.Primitives.Blocks.{SignedBlindedBlock}
use rs_mev_relay.Primitives.Registrations.{
  ValidatorRegistration, Validator, ProposerDutiesData, ProposerDutiesResponse, merge_with,
}
use rs_mev_relay.Primitives.External.{External}
use rs_mev_relay.Primitives.Signing.{BlsSigner}
use rs_mev_relay.Primitives.Metrics.{RelayMetrics}
use rs_mev_relay.Storage.{
  InMemoryStorage, set_metrics, set_head_slot, set_proposer_duties, read_validator_registration,
  empty_validator_regs,
}
use rs_mev_relay.Relay.Locks.{◌>>=◌, returns, put}
use rs_mev_relay.Relay.Locks.Accesses.{push_delivered, put_attributes}
use rs_mev_relay.Relay.Locks.Proposals.{
  find_header_steps, count_header_steps, get_header_steps, find_response_steps,
  post_blinded_blocks_steps,
}
use rs_mev_relay.Relay.Locks.Duties.{
  with_entry, on_event_steps, entry_steps, entries_steps, into_duties_steps, refresh_steps,
}
use rs_mev_relay.Relay.Locks.Ensures.{
  Ensures, OnOk, OnOk-Any, Any, Ensures-bind, Ensures-get, Ensures-returns, Ensures-if,
}

-- Kept by the writes of the routes that hand out headers and payloads, and of the events.
pub record Kept (P : InMemoryStorage → Type 0) : Type 0 where
  pub gauges :
      (f : RelayMetrics → RelayMetrics) (s : InMemoryStorage)
      → P s
      → P (set_metrics s (f s.metrics))
  pub delivered : (hash : B256) (s : InMemoryStorage) → P s → P (push_delivered hash s)
  pub head_slot : (slot : HeadSlot) (s : InMemoryStorage) → P s → P (set_head_slot slot s)
  pub attributes :
      (attr : PayloadAttributes) (s : InMemoryStorage) → P s → P (put_attributes attr s)

module _ (P : InMemoryStorage → Type 0) (kept : Kept P) where
  module _ (x : External) (signer : BlsSigner) (elapsed slot : ℕ) (hash : B256)
      (key : BlsPublicKey) where
    find_header_steps-Ensures :
        Ensures P (OnOk Any) (find_header_steps x signer elapsed slot hash key)
    unfolding find_header_steps
    find_header_steps-Ensures = Ensures-get P _ _ (OnOk Any) λ s1 h1.
        Ensures-returns P _ _ Any λ _ registered. Ensures-get P _ _ (OnOk Any) λ s2 h2.
          Ensures-returns P _ _ Any λ _ in_time. Ensures-get P _ _ (OnOk Any) λ s3 h3.
            Ensures-returns P _ _ Any λ bid best. Ensures-returns P _ _ Any λ header signed. tt

    pub get_header_steps-Ensures : Ensures P Any (get_header_steps x signer elapsed slot hash key)
    unfolding get_header_steps count_header_steps ◌>>=◌
    get_header_steps-Ensures =
        Ensures-bind P (find_header_steps x signer elapsed slot hash key) _ Any Any (λ e. tt)
          find_header_steps-Ensures
          (λ found h. (kept.gauges _, (kept.gauges _, (kept.gauges _, (kept.gauges _, tt)))))

  module _ (x : External) (elapsed : ℕ) (b : SignedBlindedBlock) where
    find_response_steps-Ensures : Ensures P (OnOk Any) (find_response_steps x elapsed b)
    unfolding find_response_steps
    find_response_steps-Ensures = Ensures-get P _ _ (OnOk Any) λ s1 h1.
        Ensures-returns P _ _ Any λ duty found. Ensures-returns P _ _ Any λ _ index.
          Ensures-get P _ _ (OnOk Any) λ s2 h2. Ensures-get P _ _ (OnOk Any) λ s3 h3.
            Ensures-returns P _ _ Any λ _ registered.
              Ensures-returns P _ _ Any λ _ signed. Ensures-get P _ _ (OnOk Any) λ s4 h4. OnOk-Any _

    pub post_blinded_blocks_steps-Ensures : Ensures P Any (post_blinded_blocks_steps x elapsed b)
    unfolding post_blinded_blocks_steps ◌>>=◌
    post_blinded_blocks_steps-Ensures =
        Ensures-bind P (find_response_steps x elapsed b) _ Any Any (λ e. tt)
          find_response_steps-Ensures
          (λ resp h. (kept.gauges _, (kept.gauges _, (kept.delivered _, tt))))

  pub on_event_steps-Ensures : (e : BeaconEvent) → Ensures P Any (on_event_steps e)
  unfolding on_event_steps
  on_event_steps-Ensures (payload_attribute attr) =
      (kept.gauges _, (kept.gauges _, λ seen h. (kept.gauges _, (kept.attributes attr, tt))))
  on_event_steps-Ensures (head slot) = (kept.head_slot (record { slot = slot }), tt)

-- The duties of a refresh: each satisfies what holds of a duty with a registration that is read
-- while P holds, under the key of an answer of the beacon node.
module _ (P : InMemoryStorage → Type 0) (x : External) (Q : Validator → Type 0)
    (each : (s : InMemoryStorage) (d : ProposerDutiesData) (key : Bytes)
        (reg : ValidatorRegistration)
      → P s
      → read_validator_registration s (record { point = key }) ≡ some reg
      → Q (record { slot = d.slot; validator_index = d.validator_index; entry = reg }))
    (duties : (vs : List Validator)
      → All Q vs
      → (s : InMemoryStorage) → P s
      → P (set_proposer_duties vs s)) where
  abbrev OnSome : Option Validator → Type 0
  OnSome none = Unit
  OnSome (some v) = Q v

  on_found :
      (d : ProposerDutiesData) (key : Bytes) (s : InMemoryStorage)
      → P s
      → OnSome (
          Option.map
            (λ (registration : ValidatorRegistration). record {
              slot = d.slot;
              validator_index = d.validator_index;
              entry = registration;
            })
            (read_validator_registration s (record { point = key })))
  on_found d key s h =
      elim (Option-cases (read_validator_registration s (record { point = key }))) [
        | inl e ↦ rw e tt
        | inr (reg, e) ↦ rw e (each s d key reg h e)
      ]

  entry_steps-Ensures : (d : ProposerDutiesData) → Ensures P (OnOk OnSome) (entry_steps x d)
  unfolding entry_steps
  entry_steps-Ensures d =
      Ensures-returns P _ _ OnSome
        λ key read. Ensures-get P _ _ (OnOk OnSome) λ s h. on_found d key s h

  with_entry-All :
      (entry : Option Validator) (entries : List Validator)
      → OnSome entry
      → All Q entries
      → All Q (with_entry entry entries)
  with_entry-All none entries h all = all
  with_entry-All (some v) entries h all = (h, all)

  entries_steps-Ensures :
      (ds : List ProposerDutiesData) → Ensures P (OnOk (All Q)) (entries_steps x ds)
  unfolding entries_steps
  entries_steps-Ensures [] = tt
  entries_steps-Ensures (d ∷ ds) =
      Ensures-bind P (entry_steps x d) _ OnSome (OnOk (All Q)) (λ e. tt) (entry_steps-Ensures d)
        λ entry h.
          Ensures-bind P (entries_steps x ds) _ (All Q) (OnOk (All Q)) (λ e. tt)
            (entries_steps-Ensures ds) λ entries all. with_entry-All entry entries h all

  into_duties_steps-Ensures :
      (ds : List ProposerDutiesData) → Ensures P (OnOk (All Q)) (into_duties_steps x ds)
  unfolding into_duties_steps
  into_duties_steps-Ensures ds = Ensures-get P _ _ (OnOk (All Q)) λ s h.
      Ensures-if P (empty_validator_regs s) (returns (ok [])) (entries_steps x ds) (OnOk (All Q)) tt
        (entries_steps-Ensures ds)

  pub refresh_steps-Ensures :
      (this next : Option ProposerDutiesResponse) → Ensures P Any (refresh_steps x this next)
  unfolding refresh_steps
  refresh_steps-Ensures none next = tt
  refresh_steps-Ensures (some this) none = tt
  refresh_steps-Ensures (some this) (some next) =
      Ensures-bind P (into_duties_steps x (merge_with this next)) _ (All Q) Any (λ e. tt)
        (into_duties_steps-Ensures (merge_with this next))
        λ vs all.
          Ensures-if P (is_empty vs) (returns (ok tt)) (put (set_proposer_duties vs)) Any tt
            (duties vs all, tt)
