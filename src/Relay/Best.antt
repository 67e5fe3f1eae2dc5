-- ===== src/Relay/Best.antt =====
-- The best bid of a slot, parent and proposer, over requests that do not overlap (Relay/Locks/Best has
-- those that do).
use rs_mev_relay.Prelude.{ℕ, ◌≤◌, List, some, ◌≡◌, refl, ap, ◌∙◌, arith, lookup, subst}
use rs_mev_relay.Primitives.Bytes.{B256}
use rs_mev_relay.Primitives.Keys.{BlsPublicKey}
use rs_mev_relay.Primitives.Bids.{BidSubmission}
use rs_mev_relay.Primitives.Registrations.{Validator}
use rs_mev_relay.Primitives.External.{External}
use rs_mev_relay.Primitives.Signing.{BlsSigner}
use rs_mev_relay.Storage.{InMemoryStorage, SlotHashKey, SlotHashKey-discrete, read_best_bid}
use rs_mev_relay.Builder.{accept}
use rs_mev_relay.Builder.Admission.{Admissible}
use rs_mev_relay.Builder.Effects.{
  key, bid_key, read_best_bid-accept_self, read_best_bid-accept_other,
}
use rs_mev_relay.Relay.{Request, run}
use rs_mev_relay.Relay.Writes.{SameBids, run_induction}

-- There is a bid of at least the value v for the slot, parent and proposer.
abbrev pub HasBid : InMemoryStorage → ℕ → B256 → BlsPublicKey → ℕ → Type 0
HasBid s slot hash validator v =
    (b : BidSubmission) × (read_best_bid s slot hash validator ≡ some b)
    × (v ≤ b.message.value.value)

module _ (x : External) (slot : ℕ) (hash : B256) (validator : BlsPublicKey) (v : ℕ) where
  SameBids-HasBid :
      (s t : InMemoryStorage)
      → SameBids s t
      → HasBid s slot hash validator v
      → HasBid t slot hash validator v
  unfolding read_best_bid
  SameBids-HasBid s t same (b, e, le) =
      (b, ap (lookup SlotHashKey-discrete (key slot hash validator)) same.0 ∙ e, le)

  accept-HasBid :
      (s : InMemoryStorage) (b : BidSubmission) (duty : Validator)
      → Admissible x s b duty
      → HasBid s slot hash validator v
      → HasBid (accept b duty s) slot hash validator v
  accept-HasBid s b duty a (best, e, le) =
      elim (SlotHashKey-discrete (key slot hash validator) (bid_key b)) [
        | yes p ↦
            let below = a.higher best (
              subst (λ (k : SlotHashKey). read_best_bid s k.slot k.hash k.validator ≡ some best) p
                e) in
            (b, read_best_bid-accept_self b duty s (key slot hash validator) p, omega arith)
        | no n ↦ (best, read_best_bid-accept_other b duty s (key slot hash validator) n ∙ e, le)
      ]

  -- Bids only get better where no two requests or events overlap: if there is a best bid for a slot,
  -- parent and proposer, then after any sequence of requests and events, each in one piece, there is
  -- one of at least its value.
  run-HasBid :
      (signer : BlsSigner) (rs : List Request) (s : InMemoryStorage)
      → HasBid s slot hash validator v
      → HasBid (run x signer s.inner.fork_data rs s) slot hash validator v
  run-HasBid signer rs s has =
      run_induction x signer (λ (t : InMemoryStorage). HasBid t slot hash validator v)
        SameBids-HasBid accept-HasBid s.inner.fork_data rs s refl has
