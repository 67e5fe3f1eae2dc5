-- ===== src/Beacon/Service/Answers.antt =====
-- Every command of the service of crates/beacon/src/service is answered, with its own call.
use rs_mev_relay.Prelude.{
  ℕ, suc, ◌<◌, true, false, none, List, [], ◌∷◌, All, All-append, Bool-cases, HashMap, lookup,
  ℕ_discrete, ok, err, ready, ◌≡◌, inl, inr, refl, ap, ◌∙◌, arith,
}
use rs_mev_relay.Beacon.Types.{BeaconApi}
use rs_mev_relay.Beacon.Service.{
  BeaconCommands, BoxedFuture, await_future, Channels, new, answer, drain, poll, drop_service,
  receive, broken_send_channel, broken_recv_channel,
}
use rs_mev_relay.Beacon.Service.Kept.{
  ask-cases, ask-stopped, apply_all-running, Own, IsOwn, IsAnswered, Waits, Waits-append,
  apply_all-Kept, apply_all-Waits, poll-IsAnswered,
}
use rs_mev_relay.Beacon.Service.Ops.{Op, call, poll_service, drop, apply, apply_all}
use rs_mev_relay.Beacon.Service.Handle.{ask}

-- The channels of the commands that wait were all given out.
abbrev pub IsGiven : ℕ → BeaconCommands → Type 0
IsGiven next command = (answer command).0 < next

abbrev IsFresh : Channels → Type 0
IsFresh c = All (IsGiven c.next) c.commands

All-suc :
    (next : ℕ) (commands : List BeaconCommands)
    → All (IsGiven next) commands
    → All (IsGiven (suc next)) commands
All-suc next [] given = tt
All-suc next (command ∷ commands) (lt, given) = (omega arith, All-suc next commands given)

apply-IsFresh : (op : Op) (c : Channels) → IsFresh c → IsFresh (apply op c)
unfolding apply poll drop_service
apply-IsFresh (call made) c fresh = elim (Bool-cases c.running) [
  | inl run ↦
      let (command, is_made, e) = ask-cases made c run in
      let tx : (answer command).0 ≡ c.next = ap (λ (p : ℕ × BoxedFuture). p.0) is_made in
      rw e (
        All-append (IsGiven (suc c.next)) c.commands (command ∷ [])
          (All-suc c.next c.commands fresh) (omega arith, tt))
  | inr stopped ↦ rw (ask-stopped made c stopped) fresh
]
apply-IsFresh poll_service c fresh = tt
apply-IsFresh drop c fresh = tt

apply_all-IsFresh : (ops : List Op) (c : Channels) → IsFresh c → IsFresh (apply_all ops c)
unfolding apply_all
apply_all-IsFresh [] c fresh = fresh
apply_all-IsFresh (op ∷ ops) c fresh = apply_all-IsFresh ops (apply op c) (apply-IsFresh op c fresh)

IsGiven-IsOwn :
    (next : ℕ) (future : BoxedFuture) (commands : List BeaconCommands)
    → All (IsGiven next) commands
    → All (IsOwn next future) commands
IsGiven-IsOwn next future [] given = tt
IsGiven-IsOwn next future (command ∷ commands) (lt, given) =
    (λ same. absurd (omega arith), IsGiven-IsOwn next future commands given)

-- A call through the handle of a running service waits in a channel of its own.
call-Waits :
    (future : BoxedFuture) (c : Channels)
    → IsFresh c
    → c.running ≡ true
    → let d = apply (call future) c in Own c.next future d × Waits c.next future d.commands
unfolding apply
call-Waits future c fresh run =
    let (command, is_future, e) = ask-cases future c run in
    rw e (
      (
        omega arith,
        All-append (IsOwn c.next future) c.commands (command ∷ [])
            (IsGiven-IsOwn c.next future c.commands fresh)
            (λ same. ap (λ (p : ℕ × BoxedFuture). p.1) is_future, tt),
      ),
      Waits-append c.next future c.commands command (inl is_future),
    )

receive-answered :
    (api : BeaconApi) (rx : ℕ) (future : BoxedFuture) (c : Channels)
    → IsAnswered rx future c.answers
    → receive api rx c ≡ ready (ok (future, await_future api future))
unfolding receive
receive-answered api rx future c e = rw (e, receive) refl

receive-gone :
    (api : BeaconApi) (rx : ℕ) (c : Channels)
    → lookup ℕ_discrete rx c.answers ≡ none
    → c.running ≡ false
    → receive api rx c ≡ ready (err broken_recv_channel)
unfolding receive
receive-gone api rx c e stopped = rw (e, receive) (rw stopped refl)

-- Every call is answered, once and with its own answer: whatever was asked before it and between,
-- if the service is still there and is polled, then the caller gets what the API answers to that
-- very call, and gets it however late it looks, also if the service is gone by then.
pub receive-call :
    (api : BeaconApi) (future : BoxedFuture) (before between later : List Op)
    → let c = apply_all before new in
      let d = apply_all (call future ∷ between) c in
      d.running ≡ true
      → receive api c.next (apply_all (poll_service ∷ later) d)
        ≡ ready (ok (future, await_future api future))
unfolding apply_all
receive-call api future before between later run =
    let c = apply_all before new in
    let fresh = apply_all-IsFresh before new tt in
    let at_first = apply_all-running (call future ∷ between) c run in
    let (own, waits) = call-Waits future c fresh at_first in
    let asked_for = apply (call future) c in
    let d = apply_all between asked_for in
    let state = apply_all-Waits c.next future between asked_for own run (inl waits) in
    let own_then = (apply_all-Kept c.next future between asked_for own).0 in
    let answered = poll-IsAnswered c.next future d own_then state in
    let own_now = (apply_all-Kept c.next future (poll_service ∷ []) d own_then).0 in
    let e : IsAnswered c.next future (apply_all later (apply poll_service d)).answers =
      (apply_all-Kept c.next future later (apply poll_service d) own_now).1 answered in
    receive-answered api c.next future _ e

-- A service that is gone takes no command and answers none.
abbrev IsGone : HashMap ℕ BoxedFuture → Channels → Type 0
IsGone answers c = (c.running ≡ false) × (c.commands ≡ []) × (c.answers ≡ answers)

apply-IsGone :
    (op : Op) (answers : HashMap ℕ BoxedFuture) (c : Channels)
    → IsGone answers c
    → IsGone answers (apply op c)
unfolding apply poll drop_service drain
apply-IsGone (call made) answers c (stopped, none_left, same) =
    rw (ask-stopped made c stopped) (stopped, none_left, same)
apply-IsGone poll_service answers c (stopped, none_left, same) = (stopped, refl, rw none_left same)
apply-IsGone drop answers c (stopped, none_left, same) = (refl, refl, same)

apply_all-IsGone :
    (ops : List Op) (answers : HashMap ℕ BoxedFuture) (c : Channels)
    → IsGone answers c
    → IsGone answers (apply_all ops c)
unfolding apply_all
apply_all-IsGone [] answers c gone = gone
apply_all-IsGone (op ∷ ops) answers c gone =
    apply_all-IsGone ops answers (apply op c) (apply-IsGone op answers c gone)

-- Nobody waits for a service that is gone: whatever happens after its end, a call fails at once,
-- with the error of the channel of commands, and a caller whose call was not answered by then fails
-- with the error of its own channel.
pub receive-drop :
    (api : BeaconApi) (c : Channels) (later : List Op) (rx : ℕ) (future : BoxedFuture)
    → lookup ℕ_discrete rx c.answers ≡ none
    → let d = apply_all (drop ∷ later) c in
      (ask future d ≡ err broken_send_channel)
      × (receive api rx d ≡ ready (err broken_recv_channel))
unfolding apply_all apply drop_service
receive-drop api c later rx future unanswered =
    let (stopped, none_left, same) =
      apply_all-IsGone later c.answers (apply drop c) (refl, refl, refl) in
    (
      ask-stopped future _ stopped,
      receive-gone api rx _ (ap (lookup ℕ_discrete rx) same ∙ unanswered) stopped,
    )
