-- ===== src/Relay/Interleavings.antt =====
-- Submissions that overlap: each operation of crates/storage/src/in_memory/mod.rs takes the lock
-- alone, so that between the checks of a submission (crates/http/src/server/builder_api/post_bids.rs)
-- and its writes others may be admitted and may write. The checks are one step here, and the writes
-- another.
use rs_mev_relay.Prelude.{
  ap, ◌∙◌, arith, some-inj, some, ◌<◌, refl, sym, List, [], ◌∷◌, ◌++◌, ok, ◌≡◌, All, All-append,
  All_left, All_right,
}
use rs_mev_relay.Primitives.Keys.{BlsPublicKey}
use rs_mev_relay.Primitives.Bids.{BidSubmission}
use rs_mev_relay.Primitives.Registrations.{Validator}
use rs_mev_relay.Primitives.Domains.{ForkDatas}
use rs_mev_relay.Primitives.External.{External}
use rs_mev_relay.Primitives.Signing.{BlsSigner}
use rs_mev_relay.Storage.{InMemoryStorage, read_best_bid}
use rs_mev_relay.Builder.{admit, accept}
use rs_mev_relay.Builder.Admission.{admit-eq-ok_iff}
use rs_mev_relay.Builder.Effects.{bid_key, read_best_bid-accept_self}
use rs_mev_relay.Relay.{Request, run}
use rs_mev_relay.Relay.Best.{HasBid}
use rs_mev_relay.Relay.Sound.{
  Accepted, IsSound, Accepted-of_Admissible, accept-IsSound, run-IsSound,
}

abbrev pub Admitted : Type 0
Admitted = BidSubmission × Validator

-- The storage, and the submissions that passed their checks and did not write.
pub record Config : Type 0 where
  pub storage : InMemoryStorage
  pub admitted : List Admitted

module _ (x : External) (signer : BlsSigner) (forks : ForkDatas) where
  pub data Step : Config → Config → Type 0 where
    check :
        (s : InMemoryStorage) (ps : List Admitted) (b : BidSubmission) (duty : Validator)
        → admit x s b ≡ ok duty
        → Step
            (record { storage = s; admitted = ps })
            (record { storage = s; admitted = (b, duty) ∷ ps })
    write :
        (s : InMemoryStorage) (ps qs : List Admitted) (b : BidSubmission) (duty : Validator)
        → Step
            (record { storage = s; admitted = ps ++ (b, duty) ∷ qs })
            (record { storage = accept b duty s; admitted = ps ++ qs })
    others :
        (s : InMemoryStorage) (ps : List Admitted) (rs : List Request)
        → Step
            (record { storage = s; admitted = ps })
            (record { storage = run x signer forks rs s; admitted = ps })

  pub data Reach (c : Config) : Config → Type 0 where
    here : Reach c c
    next : {d e : Config} → Reach c d → Step d e → Reach c e

  module _ (builders : List BlsPublicKey) where
    abbrev Good : Admitted → Type 0
    Good (b, duty) = Accepted x builders forks b

    abbrev AllAccepted : List Admitted → Type 0
    AllAccepted = All Good

    Step-IsSound :
        {c d : Config}
        → Step c d
        → IsSound x builders forks c.storage × AllAccepted c.admitted
        → IsSound x builders forks d.storage × AllAccepted d.admitted
    Step-IsSound (check s ps b duty e) (sound, good) =
        let admissible = (admit-eq-ok_iff x s b duty).0 e in
        (sound, (Accepted-of_Admissible x builders forks s b duty sound admissible, good))
    Step-IsSound (write s ps qs b duty) (sound, good) =
        let rest = All_right Good ps ((b, duty) ∷ qs) good in
        (
          accept-IsSound x builders forks s b duty sound rest.0,
          All-append Good ps qs (All_left Good ps ((b, duty) ∷ qs) good) rest.1,
        )
    Step-IsSound (others s ps rs) (sound, good) =
        (run-IsSound x builders forks signer rs s sound, good)

    Reach-AllAccepted :
        {c d : Config}
        → Reach c d
        → IsSound x builders forks c.storage × AllAccepted c.admitted
        → IsSound x builders forks d.storage × AllAccepted d.admitted
    Reach-AllAccepted here both = both
    Reach-AllAccepted (next r s) both = Step-IsSound s (Reach-AllAccepted r both)

    -- Overlapping submissions do no harm to soundness: however the checks and the writes of
    -- submissions interleave with each other and with whole requests and events, the storage
    -- stays sound. (That a best bid is never replaced by a lower one needs submissions one at a
    -- time, and is not among what is kept.)
    pub Reach-IsSound :
        {c d : Config}
        → Reach c d
        → c.admitted ≡ []
        → IsSound x builders forks c.storage
        → IsSound x builders forks d.storage
    Reach-IsSound r none_yet sound = (Reach-AllAccepted r (sound, rw none_yet tt)).0

  -- Overlapping submissions may lose the better bid: if two submissions for one slot, parent and
  -- proposer both pass the checks in a storage, then the relay can come to a storage where both
  -- were accepted and none waits, and where the lower of the two is the best bid, so that there is
  -- none of the higher value.
  pub overlap-lower :
      (s : InMemoryStorage) (low high : BidSubmission) (duty_low duty_high : Validator)
      → bid_key low ≡ bid_key high
      → low.message.value.value < high.message.value.value
      → admit x s low ≡ ok duty_low
      → admit x s high ≡ ok duty_high
      → (d : Config) × Reach (record { storage = s; admitted = [] }) d
        × (d.admitted ≡ [])
        × (read_best_bid d.storage high.message.slot high.message.parent_hash
              high.message.proposer_pubkey
            ≡ some low)
        × (¬ (
            HasBid d.storage high.message.slot high.message.parent_hash high.message.proposer_pubkey
              high.message.value.value))
  overlap-lower s low high duty_low duty_high same lower low_ok high_ok =
      let both =
        next (next here (check s [] low duty_low low_ok))
          (check s ((low, duty_low) ∷ []) high duty_high high_ok) in
      let high_first = next both (write s [] ((low, duty_low) ∷ []) high duty_high) in
      let t = accept high duty_high s in
      let best = read_best_bid-accept_self low duty_low t (bid_key high) (sym same) in
      (
        record { storage = accept low duty_low t; admitted = [] },
        next high_first (write t [] [] low duty_low),
        refl,
        best,
        λ (b, e, le).
            let is_low : low ≡ b = some-inj (sym best ∙ e) in
            let value = ap (λ (c : BidSubmission). c.message.value.value) is_low in omega arith,
      )
