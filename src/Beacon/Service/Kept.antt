-- ===== src/Beacon/Service/Kept.antt =====
-- What the steps of crates/beacon/src/service keep of a channel that was given out for an answer.
use rs_mev_relay.Prelude.{
  ℕ, suc, ◌<◌, true, false, some, List, [], ◌∷◌, ◌++◌, All, All-append, Bool-cases, subst, HashMap,
  insert, lookup, lookup-insert, ℕ_discrete, ok, err, ◌≡◌, ◌⊎◌, inl, inr, refl, ap, sym, ◌∙◌, arith,
}
use rs_mev_relay.Beacon.Service.{
  BeaconCommands, BoxedFuture, Channels, answer, drain, poll, drop_service, broken_send_channel,
}
use rs_mev_relay.Beacon.Service.Ops.{Op, call, poll_service, drop, asked, apply, apply_all}
use rs_mev_relay.Beacon.Service.Handle.{
  ask, sync_status, get_fork_data, get_known_validator, proposer_duties, publish_block,
}

-- What a call through the handle sends is answered with that call.
pub ask-cases :
    (call : BoxedFuture) (c : Channels)
    → c.running ≡ true
    → (command : BeaconCommands) × (answer command ≡ (c.next, call))
      × (ask call c
          ≡ ok (
            c.next,
            record {
              commands = c.commands ++ command ∷ [];
              running = true;
              answers = c.answers;
              next = suc c.next;
            },
          ))
unfolding ask sync_status get_fork_data get_known_validator proposer_duties publish_block answer
ask-cases BoxedFuture.sync_status c run = (BeaconCommands.sync_status c.next, refl, rw run refl)
ask-cases BoxedFuture.get_fork_data c run = (BeaconCommands.fork_data c.next, refl, rw run refl)
ask-cases (BoxedFuture.proposer_duties epoch) c run =
    (BeaconCommands.proposer_duties epoch c.next, refl, rw run refl)
ask-cases (BoxedFuture.get_known_validator key) c run =
    (BeaconCommands.known_validator key c.next, refl, rw run refl)
ask-cases (BoxedFuture.publish_block block submission_type) c run =
    (BeaconCommands.publish_block block submission_type c.next, refl, rw run refl)

-- A channel was given out, for this call only.
abbrev pub IsOwn : ℕ → BoxedFuture → BeaconCommands → Type 0
IsOwn rx future command = (answer command).0 ≡ rx → (answer command).1 ≡ future

abbrev pub Own : ℕ → BoxedFuture → Channels → Type 0
Own rx future c = (rx < c.next) × All (IsOwn rx future) c.commands

abbrev pub IsAnswered : ℕ → BoxedFuture → HashMap ℕ BoxedFuture → Type 0
IsAnswered rx future answers = lookup ℕ_discrete rx answers ≡ some future

abbrev pub Waits : ℕ → BoxedFuture → List BeaconCommands → Type 0
Waits rx future [] = ⊥
Waits rx future (command ∷ commands) = (answer command ≡ (rx, future)) ⊎ Waits rx future commands

pub ask-stopped :
    (future : BoxedFuture) (c : Channels)
    → c.running ≡ false
    → ask future c ≡ err broken_send_channel
unfolding ask sync_status get_fork_data get_known_validator proposer_duties publish_block
ask-stopped BoxedFuture.sync_status c stopped = rw stopped refl
ask-stopped BoxedFuture.get_fork_data c stopped = rw stopped refl
ask-stopped (BoxedFuture.proposer_duties epoch) c stopped = rw stopped refl
ask-stopped (BoxedFuture.get_known_validator key) c stopped = rw stopped refl
ask-stopped (BoxedFuture.publish_block block submission_type) c stopped = rw stopped refl

drop-stops : (c : Channels) → (apply drop c).running ≡ true → ⊥
unfolding apply drop_service
drop-stops c run = cc

-- Once the service is gone, it stays so.
apply-running : (op : Op) (c : Channels) → (apply op c).running ≡ true → c.running ≡ true
unfolding apply poll
apply-running (call made) c run = elim (Bool-cases c.running) [
  | inl before ↦ before
  | inr stopped ↦ subst (λ r. (asked c r).running ≡ true) (ask-stopped made c stopped) run
]
apply-running poll_service c run = run
apply-running drop c run = absurd (drop-stops c run)

pub apply_all-running :
    (ops : List Op) (c : Channels) → (apply_all ops c).running ≡ true → c.running ≡ true
unfolding apply_all
apply_all-running [] c run = run
apply_all-running (op ∷ ops) c run = apply-running op c (apply_all-running ops (apply op c) run)

module _ (rx : ℕ) (future : BoxedFuture) where
  insert-IsAnswered :
      (tx : ℕ) (made : BoxedFuture) (answers : HashMap ℕ BoxedFuture)
      → (tx ≡ rx → made ≡ future)
      → IsAnswered rx future answers
      → IsAnswered rx future (insert ℕ_discrete tx made answers)
  insert-IsAnswered tx made answers own e =
      ground (arith, lookup-insert ℕ_discrete tx rx made answers)

  insert_self :
      (made : ℕ × BoxedFuture) (answers : HashMap ℕ BoxedFuture)
      → made ≡ (rx, future)
      → IsAnswered rx future (insert ℕ_discrete made.0 made.1 answers)
  insert_self made answers e = rw e (ground (arith, lookup-insert ℕ_discrete rx rx future answers))

  drain-IsAnswered :
      (commands : List BeaconCommands) (answers : HashMap ℕ BoxedFuture)
      → All (IsOwn rx future) commands
      → IsAnswered rx future answers
      → IsAnswered rx future (drain commands answers)
  unfolding drain
  drain-IsAnswered [] answers own e = e
  drain-IsAnswered (command ∷ commands) answers (first, own) e =
      drain-IsAnswered commands _ own (insert-IsAnswered _ _ answers first e)

  drain-Waits :
      (commands : List BeaconCommands) (answers : HashMap ℕ BoxedFuture)
      → All (IsOwn rx future) commands
      → Waits rx future commands
      → IsAnswered rx future (drain commands answers)
  unfolding drain
  drain-Waits [] answers own waits = absurd waits
  drain-Waits (command ∷ commands) answers (first, own) (inl e) =
      drain-IsAnswered commands _ own (insert_self (answer command) answers e)
  drain-Waits (command ∷ commands) answers (first, own) (inr waits) =
      drain-Waits commands _ own waits

  pub Waits-append :
      (commands : List BeaconCommands) (command : BeaconCommands)
      → (answer command ≡ (rx, future)) ⊎ Waits rx future commands
      → Waits rx future (commands ++ command ∷ [])
  Waits-append [] command waits = waits
  Waits-append (other ∷ commands) command (inl e) = inr (Waits-append commands command (inl e))
  Waits-append (other ∷ commands) command (inr (inl e)) = inl e
  Waits-append (other ∷ commands) command (inr (inr waits)) =
      inr (Waits-append commands command (inr waits))

  -- A call takes a channel of its own.
  new_channel :
      (command : BeaconCommands) (made : BoxedFuture) (next : ℕ)
      → rx < next
      → answer command ≡ (next, made)
      → IsOwn rx future command
  new_channel command made next lt e same =
      let given : next ≡ rx = sym (ap (λ (p : ℕ × BoxedFuture). p.0) e) ∙ same in
      absurd (omega arith)

  -- What is kept by a step: the channel is for this call only, and an answer stays.
  abbrev pub Kept : Channels → Channels → Type 0
  Kept c d = Own rx future d × (IsAnswered rx future c.answers → IsAnswered rx future d.answers)

  call-Kept :
      (made : BoxedFuture) (c : Channels)
      → Own rx future c
      → Kept c (apply (call made) c)
        × (Waits rx future c.commands → Waits rx future (apply (call made) c).commands)
  unfolding apply
  call-Kept made c (given, own) = elim (Bool-cases c.running) [
    | inl run ↦
        let (command, is_made, e) = ask-cases made c run in
        rw e (
          (
            (
              omega arith,
              All-append (IsOwn rx future) c.commands (command ∷ []) own
                  (new_channel command made c.next given is_made, tt),
            ),
            λ answered. answered,
          ),
          λ waits. Waits-append c.commands command (inr waits),
        )
    | inr stopped ↦
        rw (ask-stopped made c stopped) (((given, own), λ answered. answered), λ waits. waits)
  ]

  apply-Kept : (op : Op) (c : Channels) → Own rx future c → Kept c (apply op c)
  unfolding apply poll drop_service
  apply-Kept (call made) c own = (call-Kept made c own).0
  apply-Kept poll_service c (given, own) = ((given, tt), drain-IsAnswered c.commands c.answers own)
  apply-Kept drop c (given, own) = ((given, tt), λ answered. answered)

  pub apply_all-Kept : (ops : List Op) (c : Channels) → Own rx future c → Kept c (apply_all ops c)
  unfolding apply_all
  apply_all-Kept [] c own = (own, λ answered. answered)
  apply_all-Kept (op ∷ ops) c own =
      let (here, first) = apply-Kept op c own in
      let (last, rest) = apply_all-Kept ops (apply op c) here in
      (last, λ answered. rest (first answered))

  pub poll-IsAnswered :
      (c : Channels)
      → Own rx future c
      → Waits rx future c.commands ⊎ IsAnswered rx future c.answers
      → IsAnswered rx future (apply poll_service c).answers
  unfolding apply poll
  poll-IsAnswered c (given, own) (inl waits) = drain-Waits c.commands c.answers own waits
  poll-IsAnswered c (given, own) (inr answered) = drain-IsAnswered c.commands c.answers own answered

  -- As long as the service is there, a call waits until it is answered.
  apply-Waits :
      (op : Op) (c : Channels)
      → Own rx future c
      → (apply op c).running ≡ true
      → Waits rx future c.commands ⊎ IsAnswered rx future c.answers
      → Waits rx future (apply op c).commands ⊎ IsAnswered rx future (apply op c).answers
  apply-Waits (call made) c own run (inl waits) = inl ((call-Kept made c own).1 waits)
  apply-Waits poll_service c own run (inl waits) = inr (poll-IsAnswered c own (inl waits))
  apply-Waits drop c own run (inl waits) = absurd (drop-stops c run)
  apply-Waits op c own run (inr answered) = inr ((apply-Kept op c own).1 answered)

  pub apply_all-Waits :
      (ops : List Op) (c : Channels)
      → Own rx future c
      → (apply_all ops c).running ≡ true
      → Waits rx future c.commands ⊎ IsAnswered rx future c.answers
      → Waits rx future (apply_all ops c).commands ⊎ IsAnswered rx future (apply_all ops c).answers
  unfolding apply_all
  apply_all-Waits [] c own run state = state
  apply_all-Waits (op ∷ ops) c own run state =
      apply_all-Waits ops (apply op c) (apply-Kept op c own).0 run
        (apply-Waits op c own (apply_all-running ops (apply op c) run) state)
