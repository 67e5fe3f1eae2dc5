-- ===== src/Beacon/Service/Ops.antt =====
-- The channels of crates/beacon/src/service over time: steps of the handle and of the service.
use rs_mev_relay.Prelude.{ℕ, List, [], ◌∷◌, Result, ok, err}
use rs_mev_relay.Beacon.Service.{BoxedFuture, Channels, poll, drop_service, BeaconServiceErr}
use rs_mev_relay.Beacon.Service.Handle.{ask}

-- What happens to the channels: a call through the handle, a poll of the service, or its end.
pub data Op : Type 0 where
  call : BoxedFuture → Op
  poll_service : Op
  drop : Op

abbrev pub asked : Channels → Result BeaconServiceErr (ℕ × Channels) → Channels
asked c (ok (rx, d)) = d
asked c (err e) = c

unfoldable pub apply : Op → Channels → Channels
apply (call future) c = asked c (ask future c)
apply poll_service c = (poll c).1
apply drop c = drop_service c

unfoldable pub apply_all : List Op → Channels → Channels
apply_all [] c = c
apply_all (op ∷ ops) c = apply_all ops (apply op c)
