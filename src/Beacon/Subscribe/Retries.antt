-- ===== src/Beacon/Subscribe/Retries.antt =====
-- How the retries of crates/beacon/src/events/mod.rs end.
use Prim.Native.String.{String}
use rs_mev_relay.Prelude.{
  ℕ, ◌+◌, ◌*◌, Option, some, some-inj, List, [], ◌∷◌, ◌++◌, map, length, ok, err, ◌≡◌, ◌↔◌, sym,
  ◌∙◌, ap, arith,
}
use rs_mev_relay.Primitives.Chain.{PayloadAttributes}
use rs_mev_relay.Primitives.Events.{payload_attributes, new_head}
use rs_mev_relay.Beacon.Stream.{BeaconEventsStream}
use rs_mev_relay.Beacon.Subscribe.{
  Attempts, Subscribed, retry, retry_delay_secs, events_url, BeaconEventsClient,
  payload_attributes_stream, new_head_stream, merge_streams, stream,
}

-- A subscription is the first success among attempts, after five seconds of sleep for each failure
-- before it.
abbrev pub IsFirst : {T : Type 0} → Attempts T → ℕ → Subscribed T → Type 0
IsFirst attempts slept found =
    (failed : List String) × (attempts ≡ map err failed ++ ok found.subscription ∷ found.left)
    × (found.slept ≡ slept + length failed * 5)

IsFirst-of_retry :
    {T : Type 0} (slept : ℕ) (attempts : Attempts T) (found : Subscribed T)
    → retry slept attempts ≡ some found
    → IsFirst attempts slept found
unfolding retry
IsFirst-of_retry slept [] found e = cc
IsFirst-of_retry slept (ok subscription ∷ left) found e =
    let is = some-inj e in
    (
      [],
      ap (λ (f : Subscribed _). ok f.subscription ∷ f.left) is,
      sym (ap (λ (f : Subscribed _). f.slept) is) ∙ omega arith,
    )
IsFirst-of_retry slept (err why ∷ left) found e =
    let (failed, attempts, sleeps) = IsFirst-of_retry (slept + 5) left found e in
    (why ∷ failed, ap (λ rest. err why ∷ rest) attempts, sleeps ∙ omega arith)

retry_of_failures :
    {T : Type 0} (slept : ℕ) (failed : List String) (found : Subscribed T)
    → found.slept ≡ slept + length failed * retry_delay_secs
    → retry slept (map err failed ++ ok found.subscription ∷ found.left) ≡ some found
unfolding retry
retry_of_failures slept [] found sleeps =
    let now : slept ≡ found.slept = omega arith in
    ap (λ (n : ℕ). some (record (found) { slept = n })) now
retry_of_failures slept (why ∷ failed) found sleeps =
    retry_of_failures (slept + retry_delay_secs) failed found (sleeps ∙ omega arith)

retry_of_IsFirst :
    {T : Type 0} (slept : ℕ) (attempts : Attempts T) (found : Subscribed T)
    → IsFirst attempts slept found
    → retry slept attempts ≡ some found
retry_of_IsFirst slept attempts found (failed, are, sleeps) =
    ap (retry slept) are ∙ retry_of_failures slept failed found sleeps

merge_streams-eq-some_iff :
    (attributes : Option (Subscribed PayloadAttributes)) (heads : Option (Subscribed ℕ))
    (s : BeaconEventsStream)
    → (merge_streams attributes heads ≡ some s) ↔ (
        ((a : Subscribed PayloadAttributes) × (attributes ≡ some a)
          × (a.subscription ≡ s.payload_attributes))
        × ((h : Subscribed ℕ) × (heads ≡ some h) × (h.subscription ≡ s.new_head)))
merge_streams-eq-some_iff attributes heads s = ground arith

-- A connection is made exactly when both kinds of events are subscribed to, and its stream merges the
-- two subscriptions. Each is made exactly when an attempt succeeds: it is the first success, after
-- five seconds of sleep for each failure before it, with the later attempts left.
pub stream-eq-some_iff :
    (client : BeaconEventsClient) (s : BeaconEventsStream)
    → ((stream client ≡ some s) ↔ (
        ((a : Subscribed PayloadAttributes) × (payload_attributes_stream client ≡ some a)
          × (a.subscription ≡ s.payload_attributes))
        × ((h : Subscribed ℕ) × (new_head_stream client ≡ some h) × (h.subscription ≡ s.new_head))))
      × ((a : Subscribed PayloadAttributes)
          → (payload_attributes_stream client ≡ some a)
            ↔ IsFirst (client.attributes_at (events_url client.url payload_attributes)) 0 a)
      × ((h : Subscribed ℕ)
          → (new_head_stream client ≡ some h)
            ↔ IsFirst (client.heads_at (events_url client.url new_head)) 0 h)
unfolding stream payload_attributes_stream new_head_stream
stream-eq-some_iff client s =
    let at = client.attributes_at (events_url client.url payload_attributes) in
    let heads = client.heads_at (events_url client.url new_head) in
    (
      merge_streams-eq-some_iff (retry 0 at) (retry 0 heads) s,
      λ a. (IsFirst-of_retry 0 at a, retry_of_IsFirst 0 at a),
      λ h. (IsFirst-of_retry 0 heads h, retry_of_IsFirst 0 heads h),
    )
