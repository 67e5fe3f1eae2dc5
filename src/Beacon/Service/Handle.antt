-- ===== src/Beacon/Service/Handle.antt =====
-- The methods of crates/beacon/src/service/handle.rs, up to the wait for the answer.
use rs_mev_relay.Prelude.{ℕ, Result}
use rs_mev_relay.Primitives.Keys.{BlsPublicKey}
use rs_mev_relay.Primitives.Blocks.{SignedBeaconBlockContent}
use rs_mev_relay.Beacon.Types.{SubmissionType}
use rs_mev_relay.Beacon.Service.{BeaconCommands, BoxedFuture, Channels, BeaconServiceErr, send}

unfoldable pub sync_status : Channels → Result BeaconServiceErr (ℕ × Channels)
sync_status c = send BeaconCommands.sync_status c

unfoldable pub get_fork_data : Channels → Result BeaconServiceErr (ℕ × Channels)
get_fork_data c = send BeaconCommands.fork_data c

unfoldable pub get_known_validator :
    BlsPublicKey → Channels → Result BeaconServiceErr (ℕ × Channels)
get_known_validator pubkey c = send (BeaconCommands.known_validator pubkey) c

unfoldable pub proposer_duties : ℕ → Channels → Result BeaconServiceErr (ℕ × Channels)
proposer_duties epoch c = send (BeaconCommands.proposer_duties epoch) c

unfoldable pub publish_block :
    SignedBeaconBlockContent → SubmissionType → Channels → Result BeaconServiceErr (ℕ × Channels)
publish_block block submission_type c = send (BeaconCommands.publish_block block submission_type) c

-- The method for a call.
unfoldable pub ask : BoxedFuture → Channels → Result BeaconServiceErr (ℕ × Channels)
ask BoxedFuture.sync_status c = sync_status c
ask BoxedFuture.get_fork_data c = get_fork_data c
ask (BoxedFuture.proposer_duties epoch) c = proposer_duties epoch c
ask (BoxedFuture.get_known_validator pubkey) c = get_known_validator pubkey c
ask (BoxedFuture.publish_block block submission_type) c = publish_block block submission_type c
