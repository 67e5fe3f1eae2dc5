-- ===== src/Service/Refreshing.antt =====
-- The task that bin/relay/src/service.rs spawns at the first head of an epoch, with the beacon node
-- behind it: the two requests of crates/beacon/src/api/mod.rs and what becomes of their answers.
use rs_mev_relay.Prelude.{
  ◌≡◌, ap, ℕ, ◌++◌, List, Option, none, some, true, Result, ok, err, Result-cases, inl, inr, arith,
  ◌⊎◌, is_empty, filter_map, decimal, if◌then◌else◌,
}
use rs_mev_relay.Primitives.Bytes.{Bytes}
use rs_mev_relay.Primitives.Chain.{HeadSlot}
use rs_mev_relay.Primitives.Registrations.{ProposerDutiesData, ProposerDutiesResponse, merge_with}
use rs_mev_relay.Primitives.External.{External}
use rs_mev_relay.Storage.{InMemoryStorage, set_proposer_duties}
use rs_mev_relay.Beacon.Types.{BeaconApi, Report}
use rs_mev_relay.Beacon.Api.{
  Libraries, Response, is_success, beacon_node_api, proposer_duties, proposer_duties_path,
}
use rs_mev_relay.Beacon.Api.Requests.{get_api_response-eq-ok_iff}
use rs_mev_relay.Service.{refresh, refresh_epochs}
use rs_mev_relay.Service.Duties.{Parses, registered_duty, into_duties-filter_map}

abbrev answered : Result Report ProposerDutiesResponse → Option ProposerDutiesResponse
answered (ok duties) = some duties
answered (err e) = none

-- The task, for the slot of the head and the storage when it wakes up. Both requests are made
-- before either answer is looked at.
unfoldable pub refresh_task :
    External → BeaconApi → ℕ → HeadSlot → InMemoryStorage → InMemoryStorage
refresh_task x api slots_per_epoch head_slot s =
    let epochs = refresh_epochs slots_per_epoch head_slot in
    refresh x (answered (api.proposer_duties epochs.0)) (answered (api.proposer_duties epochs.1)) s

-- The beacon node gives the duties of an epoch: it answers the request for them with a status of
-- success and a body that is read as them.
abbrev pub Gives : Libraries → List ℕ → ℕ → ProposerDutiesResponse → Type 0
Gives l url epoch duties =
    (resp : Response) × (l.get (url ++ (proposer_duties_path ++ decimal epoch)) ≡ ok resp)
    × (is_success resp.status ≡ true)
    × (l.read_duties resp.body ≡ ok duties)

module _ (l : Libraries) (url : List ℕ) (epoch : ℕ) where
  proposer_duties_of_Gives :
      (duties : ProposerDutiesResponse)
      → Gives l url epoch duties
      → proposer_duties l url epoch ≡ ok duties
  unfolding proposer_duties
  proposer_duties_of_Gives duties g =
      (get_api_response-eq-ok_iff l url l.read_duties (proposer_duties_path ++ decimal epoch)
          duties).1
        g

  answered-none :
      ((duties : ProposerDutiesResponse) → ¬ (Gives l url epoch duties))
      → answered (proposer_duties l url epoch) ≡ none
  unfolding proposer_duties
  answered-none n = elim (Result-cases (proposer_duties l url epoch)) [
    | inl (duties, e) ↦ absurd (
        n duties (
          (get_api_response-eq-ok_iff l url l.read_duties (proposer_duties_path ++ decimal epoch)
              duties).0
            e))
    | inr (_, e) ↦ ap answered e
  ]

module _ (x : External) (s : InMemoryStorage) where
  refresh-none :
      (this next : Option ProposerDutiesResponse)
      → (this ≡ none) ⊎ (next ≡ none)
      → refresh x this next s ≡ s
  unfolding refresh
  refresh-none this next h = ground arith

  refresh-some :
      (this next : ProposerDutiesResponse) (point : ProposerDutiesData → Bytes)
      → Parses x point (merge_with this next)
      → let duties = filter_map (registered_duty s point) (merge_with this next) in
        (refresh x (some this) (some next) s).inner.proposer_duties
        ≡ (if is_empty duties then s.inner.proposer_duties else duties)
  unfolding refresh set_proposer_duties
  refresh-some this next point parses =
      let made = into_duties-filter_map x s point (merge_with this next) parses in ground arith

module _ (x : External) (l : Libraries) (url : List ℕ) (slots_per_epoch : ℕ) (head_slot : HeadSlot)
    (s : InMemoryStorage) where
  -- What a refresh makes of the beacon node: where the node gives the duties of the epoch of the
  -- head and of the next one, and the keys in them are keys, the duties in the storage become the
  -- registered ones of both, in order, each with its registration, or stay as they are if there are
  -- none.
  pub refresh_task-duties :
      (this next : ProposerDutiesResponse) (point : ProposerDutiesData → Bytes)
      → Gives l url (refresh_epochs slots_per_epoch head_slot).0 this
      → Gives l url (refresh_epochs slots_per_epoch head_slot).1 next
      → Parses x point (merge_with this next)
      → let duties = filter_map (registered_duty s point) (merge_with this next) in
        (refresh_task x (beacon_node_api l url) slots_per_epoch head_slot s).inner.proposer_duties
        ≡ (if is_empty duties then s.inner.proposer_duties else duties)
  unfolding refresh_task beacon_node_api
  refresh_task-duties this next point first second parses =
      let epochs = refresh_epochs slots_per_epoch head_slot in
      rw
        (
          proposer_duties_of_Gives l url epochs.0 this first,
          proposer_duties_of_Gives l url epochs.1 next second,
        )
        (refresh-some x s this next point parses)

  -- Where the node does not give the duties of either epoch, the storage stays as it is.
  pub refresh_task-missing :
      ((duties : ProposerDutiesResponse)
          → ¬ (Gives l url (refresh_epochs slots_per_epoch head_slot).0 duties))
        ⊎ ((duties : ProposerDutiesResponse)
            → ¬ (Gives l url (refresh_epochs slots_per_epoch head_slot).1 duties))
      → refresh_task x (beacon_node_api l url) slots_per_epoch head_slot s ≡ s
  unfolding refresh_task beacon_node_api
  refresh_task-missing missing =
      let epochs = refresh_epochs slots_per_epoch head_slot in
      refresh-none x s _ _ (elim missing [
        | inl n ↦ inl (answered-none l url epochs.0 n)
        | inr n ↦ inr (answered-none l url epochs.1 n)
      ])
