-- ===== src/Beacon/Service.antt =====
-- crates/beacon/src/service/mod.rs and handle.rs: a service that turns commands into calls of the
-- API. A handle sends a command with a channel for its answer; the service puts the call, not yet
-- made, into that channel; the handle makes the call. A channel for an answer is known by a number.
pub mod Handle
pub mod Ops
pub mod Kept
pub mod Answers
use mathlib.Core.Option
use rs_mev_relay.Prelude.{
  ℕ, suc, Bool, true, false, Option, none, some, List, [], ◌∷◌, ◌++◌, HashMap, insert, lookup,
  ℕ_discrete, Result, ok, err, Poll, ready, pending, if◌then◌else◌,
}
use rs_mev_relay.Primitives.Keys.{BlsPublicKey}
use rs_mev_relay.Primitives.Registrations.{ProposerDutiesResponse}
use rs_mev_relay.Primitives.Known.{KnownValidatorResponse}
use rs_mev_relay.Primitives.Blocks.{SignedBeaconBlockContent}
use rs_mev_relay.Beacon.Types.{
  BeaconApi, Report, BeaconSyncStatusResponse, GetForkResponse, SubmissionType,
}

pub data BeaconCommands : Type 0 where
  sync_status : ℕ → BeaconCommands
  fork_data : ℕ → BeaconCommands
  proposer_duties : ℕ → ℕ → BeaconCommands
  known_validator : BlsPublicKey → ℕ → BeaconCommands
  publish_block : SignedBeaconBlockContent → SubmissionType → ℕ → BeaconCommands

-- A boxed future: a call that is made when it is awaited.
pub data BoxedFuture : Type 0 where
  sync_status : BoxedFuture
  get_fork_data : BoxedFuture
  proposer_duties : ℕ → BoxedFuture
  get_known_validator : BlsPublicKey → BoxedFuture
  publish_block : SignedBeaconBlockContent → SubmissionType → BoxedFuture

-- The type that a future has for its answer.
abbrev pub Output : BoxedFuture → Type 0
Output BoxedFuture.sync_status = BeaconSyncStatusResponse
Output BoxedFuture.get_fork_data = GetForkResponse
Output (BoxedFuture.proposer_duties epoch) = ProposerDutiesResponse
Output (BoxedFuture.get_known_validator key) = KnownValidatorResponse
Output (BoxedFuture.publish_block block submission_type) = Unit

unfoldable pub await_future : BeaconApi → (call : BoxedFuture) → Result Report (Output call)
await_future api BoxedFuture.sync_status = api.sync_status
await_future api BoxedFuture.get_fork_data = api.get_fork_data
await_future api (BoxedFuture.proposer_duties epoch) = api.proposer_duties epoch
await_future api (BoxedFuture.get_known_validator key) = api.get_known_validator key
await_future api (BoxedFuture.publish_block block submission_type) =
    api.publish_block block submission_type

-- The channels: the commands that wait, in the order in which they were sent, whether the service is
-- there to take them, the calls that were sent back, and the next channel for an answer.
pub record Channels : Type 0 where
  pub commands : List BeaconCommands
  pub running : Bool
  pub answers : HashMap ℕ BoxedFuture
  pub next : ℕ

-- `BeaconService::new`.
abbrev pub new : Channels
new = record { commands = []; running = true; answers = []; next = 0 }

-- The arms of the service's loop: the channel of the answer, and the call that is sent into it.
unfoldable pub answer : BeaconCommands → ℕ × BoxedFuture
answer (BeaconCommands.sync_status tx) = (tx, BoxedFuture.sync_status)
answer (BeaconCommands.known_validator pubkey tx) = (tx, BoxedFuture.get_known_validator pubkey)
answer (BeaconCommands.fork_data tx) = (tx, BoxedFuture.get_fork_data)
answer (BeaconCommands.proposer_duties epoch tx) = (tx, BoxedFuture.proposer_duties epoch)
answer (BeaconCommands.publish_block block submission_type tx) =
    (tx, BoxedFuture.publish_block block submission_type)

-- The loop: every command that waits is answered.
unfoldable pub drain : List BeaconCommands → HashMap ℕ BoxedFuture → HashMap ℕ BoxedFuture
drain [] answers = answers
drain (command ∷ commands) answers =
    let (tx, call) = answer command in drain commands (insert ℕ_discrete tx call answers)

unfoldable pub poll : Channels → Poll (Unit {0}) × Channels
poll c = (
  pending,
  record {
    commands = [];
    running = c.running;
    answers = drain c.commands c.answers;
    next = c.next;
  },
)

-- The service is dropped, and the commands that it did not take with it.
unfoldable pub drop_service : Channels → Channels
drop_service c = record { commands = []; running = false; answers = c.answers; next = c.next }

-- The errors of the two channels.
pub data BeaconServiceErr : Type 0 where
  broken_recv_channel broken_send_channel : BeaconServiceErr

-- The first two lines of each method of the handle: a channel for the answer, and the command.
abbrev pub send : (ℕ → BeaconCommands) → Channels → Result BeaconServiceErr (ℕ × Channels)
send command c =
    if c.running
    then ok (
      c.next,
      record {
        commands = c.commands ++ command c.next ∷ [];
        running = true;
        answers = c.answers;
        next = suc c.next;
      },
    )
    else err broken_send_channel

-- The last line of each, `rx.await?.await`: the call that came through the channel is made. It waits
-- as long as none came, and fails when the service was dropped before it answered.
unfoldable pub receive :
    BeaconApi
    → ℕ
    → Channels
    → Poll (Result BeaconServiceErr ((call : BoxedFuture) × Result Report (Output call)))
receive api rx c = elim (lookup ℕ_discrete rx c.answers) [
  | some call ↦ ready (ok (call, await_future api call))
  | none ↦ if c.running then pending else ready (err broken_recv_channel)
]
