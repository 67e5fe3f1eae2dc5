-- ===== src/Tests/Systems.antt =====
-- Runs of the whole relay.

use rs_mev_relay.Prelude.{
  ok, some, [], ◌∷◌, List, ◌≡◌, ◌≢◌, ◌⊎◌, refl, ap, filter_map, arith, is_empty, if◌then◌else◌,
  ◌++◌,
}
use rs_mev_relay.Primitives.Bytes.{Bytes, B256}
use rs_mev_relay.Primitives.Chain.{HeadSlot, PayloadAttributes, epoch}
use rs_mev_relay.Primitives.Registrations.{ProposerDutiesData}
use rs_mev_relay.Primitives.Domains.{compute_builder_domain, compute_proposer_domain}
use rs_mev_relay.Primitives.Headers.{SigningData}
use rs_mev_relay.Primitives.External.{External, signing_root}
use rs_mev_relay.Primitives.Separation.{signing_root-collides}
use rs_mev_relay.Storage.{InMemoryStorage, new}
use rs_mev_relay.Storage.Ops
use rs_mev_relay.Storage.Ops.{Op}
use rs_mev_relay.Storage.View.{view, run_view, view-run}
use rs_mev_relay.Builder.Effects.{bid_key, read_best_bid-accept_self}
use rs_mev_relay.Data.{get_bids}
use rs_mev_relay.Primitives.Events.{BeaconEvent}
use rs_mev_relay.Service.{on_event, refresh_epochs}
use rs_mev_relay.Service.Duties.{registered_duty}
use rs_mev_relay.Service.Refreshing.{refresh_task, refresh_task-duties}
use rs_mev_relay.Beacon.Api.{Libraries, Response, beacon_node_api}
use rs_mev_relay.Primitives.Registrations.{merge_with}
use rs_mev_relay.Tests.Nodes.{broken}
use rs_mev_relay.Service.Epochs.{refresh_epochs-cover}
use rs_mev_relay.Relay.{Request, run}
use rs_mev_relay.Relay.Sound.{IsSound, new-IsSound}
use rs_mev_relay.Relay.Best.{HasBid}
use rs_mev_relay.Relay.Startup.{keep_attributes, keep_head, await_events, setup_storage}
use rs_mev_relay.Relay.Queries.{found_by_block, get_bids-run}
use rs_mev_relay.Tests.Fixtures.{
  x, start, bid, duty, pair, proposer, builder, signer, registration, forks, hash, metrics, head,
  attributes,
}
use rs_mev_relay.Tests.Proposals.{bidding, blinded, answered}

-- The attributes after the delivered block.
abbrev pub next_attributes : PayloadAttributes
next_attributes = record attributes { proposal_slot = 12; parent_block_hash = hash 4 }

abbrev duties : List ProposerDutiesData
duties =
    record { slot = 11; pubkey = proposer.point; validator_index = 3 }
    ∷ record { slot = 12; pubkey = 9 ∷ []; validator_index = 4 }
    ∷ []

abbrev pub requests : List Request
requests =
    Request.post_validators answered
    ∷ Request.refresh (some (record { duties = duties })) (some (record { duties = [] }))
    ∷ Request.post_bids bid
    ∷ Request.get_header 5 11 (hash 2) proposer
    ∷ Request.post_blinded_blocks 5 blinded
    ∷ Request.event (BeaconEvent.payload_attribute next_attributes)
    ∷ Request.event (BeaconEvent.head 11)
    ∷ []

abbrev events : List BeaconEvent
events = BeaconEvent.head 10 ∷ BeaconEvent.head 11 ∷ BeaconEvent.payload_attribute attributes ∷ []

-- The first head, and the attributes that came after a second one.
events-started :
    setup_storage metrics (builder ∷ []) forks events
    ≡ some (new metrics (record { slot = 10 }) attributes (builder ∷ []) forks [] [])
unfolding setup_storage await_events keep_attributes keep_head
events-started = refl

pub start-IsSound : IsSound x (builder ∷ []) forks start
start-IsSound =
    new-IsSound x (builder ∷ []) forks metrics head attributes ((proposer, registration) ∷ [])
      (duty ∷ [])

abbrev pub bid_100 : HasBid bidding 11 (hash 2) proposer 100
bid_100 = (bid, read_best_bid-accept_self bid duty start (bid_key bid) refl, omega arith)

abbrev pub empty_start : InMemoryStorage
empty_start = new metrics head attributes (builder ∷ []) forks [] []

get_bids-run_example :
    let s = run x signer forks requests empty_start in
    get_bids s (record { slot = some 11; block_number = some 71 }) ≡ found_by_block s (some 71)
get_bids-run_example =
    get_bids-run x signer forks metrics head attributes (builder ∷ []) [] [] requests
      (record { slot = some 11; block_number = some 71 })

abbrev operations : List Op
operations =
    Op.set_best_bid 11 bid
    ∷ Op.set_delivered_blocks (hash 4)
    ∷ Op.set_payload_attributes next_attributes
    ∷ []

view-run_example : view (Ops.run operations start) ≡ run_view operations (view start)
view-run_example = view-run operations start

abbrev slot_64 : HeadSlot
slot_64 = record { slot = 64 }

-- A beacon node that gives the same duties for every epoch.
abbrev giving : Libraries
giving = record broken {
  get = λ url. ok (record { status = 200; body = "{}" });
  read_duties = λ body. ok (record { duties = duties });
}

refresh_task-duties_example :
    let made =
      filter_map
        (registered_duty start (λ (d : ProposerDutiesData). d.pubkey))
        (duties ++ duties) in
    (refresh_task x (beacon_node_api giving []) 32 slot_64 start).inner.proposer_duties
    ≡ (if is_empty made then start.inner.proposer_duties else made)
unfolding merge_with
refresh_task-duties_example =
    let answer : Response = record { status = 200; body = "{}" } in
    refresh_task-duties x giving [] 32 slot_64 start (record { duties = duties })
      (record { duties = duties }) (λ (d : ProposerDutiesData). d.pubkey) (answer, refl, refl, refl)
      (answer, refl, refl, refl) (refl, (refl, (refl, (refl, tt))))

refresh_epochs-cover_example :
    (epoch (record { slot = 100 }) 32 ≡ (refresh_epochs 32 slot_64).0)
    ⊎ (epoch (record { slot = 100 }) 32 ≡ (refresh_epochs 32 slot_64).1)
unfolding on_event
refresh_epochs-cover_example =
    refresh_epochs-cover 64 100 start slot_64 refl (omega arith) (omega arith) (omega arith)

pair-inj : (a b c d : Bytes) → pair a b ≡ pair c d → (a ≡ c) × (b ≡ d)
unfolding pair
pair-inj [] b [] d e = (refl, cc)
pair-inj [] b (c ∷ cs) d e = cc
pair-inj (a ∷ more) b [] d e = cc
pair-inj (a ∷ more) b (c ∷ cs) d e = let (heads, tails) = pair-inj more b cs d cc in (cc, tails)

signing_data_root-inj : (d e : SigningData) → x.signing_data_root d ≡ x.signing_data_root e → d ≡ e
signing_data_root-inj d e h =
    let (roots, domains) =
      pair-inj d.object_root.bytes d.domain.bytes e.object_root.bytes e.domain.bytes
        (ap (λ (b : B256). b.bytes) h) in
    λ i. record { object_root = record { bytes = roots i }; domain = record { bytes = domains i } }

-- A hash under which everything collides.
abbrev colliding : External
colliding = record x { signing_data_root = λ d. hash 0 }

signing_root-collides_example :
    (d e : SigningData) × (d ≢ e)
    × (colliding.signing_data_root d ≡ colliding.signing_data_root e)
    × (d.object_root ≡ hash 1)
    × (e.object_root ≡ hash 2)
    × (d.domain.bytes ≡ compute_builder_domain colliding.fork_data_root forks)
    × (e.domain.bytes ≡ compute_proposer_domain colliding.fork_data_root forks)
unfolding signing_root
signing_root-collides_example = signing_root-collides colliding forks forks (hash 1) (hash 2) refl
