-- ===== src/Relay/Locks/Genuine.antt =====
-- What the relay hands out when handlers overlap at every access: headers of accepted bids to
-- proposers (crates/http/src/server/proposer_api/get_header.rs), and their payloads for signed
-- blocks (crates/http/src/server/proposer_api/blinded_blocks.rs).
use rs_mev_relay.Prelude.{◌≡◌, refl, ok, ℕ, List, [], All, arith, ok_or-eq-ok, map_err-eq-ok}
use rs_mev_relay.Primitives.Bytes.{B256}
use rs_mev_relay.Primitives.Keys.{BlsPublicKey}
use rs_mev_relay.Primitives.Bids.{BidSubmission, to_blinded_block_response}
use rs_mev_relay.Primitives.Payload.{BlindedBlockResponse}
use rs_mev_relay.Primitives.Blocks.{SignedBlindedBlock}
use rs_mev_relay.Primitives.Headers.{SignedHeader, Versioned, deneb}
use rs_mev_relay.Primitives.Domains.{ForkDatas}
use rs_mev_relay.Primitives.External.{External}
use rs_mev_relay.Primitives.Signing.{BlsSigner, try_signed_header}
use rs_mev_relay.Storage.{read_blinded_block_response}
use rs_mev_relay.Proposer.Header.{IsHeaderOf}
use rs_mev_relay.Proposer.BlindedBlocks.{deliver}
use rs_mev_relay.Relay.Sound.{Accepted, IsSound}
use rs_mev_relay.Relay.Locks.{◌>>=◌}
use rs_mev_relay.Relay.Locks.Proposals.{
  find_header_steps, count_header_steps, get_header_steps, find_response_steps,
  post_blinded_blocks_steps,
}
use rs_mev_relay.Relay.Locks.Ensures.{
  Ensures, OnOk, OnOk-ok_or, Ensures-bind, Ensures-get, Ensures-returns,
}
use rs_mev_relay.Relay.Locks.Sound.{Sound, Sound-Kept, routes}
use rs_mev_relay.Relay.Locks.Interleaved.{Routes, interleaved-promises}
use rs_mev_relay.Relay.Locks.Routes.{Config, Reply, Reach}

module _ (x : External) (builders : List BlsPublicKey) (forks : ForkDatas)
    (signer : BlsSigner) where
  -- A header of an accepted bid, signed by the relay.
  abbrev pub GenuineHeader : Versioned SignedHeader → Type 0
  GenuineHeader h = (b : BidSubmission) × Accepted x builders forks b × IsHeaderOf x signer b h

  -- The payload of an accepted bid.
  abbrev pub GenuinePayload : BlindedBlockResponse → Type 0
  GenuinePayload resp =
      (b : BidSubmission) × (resp ≡ to_blinded_block_response b) × Accepted x builders forks b

  -- A reply that hands out nothing but such headers and payloads.
  abbrev pub Genuine : Reply → Type 0
  Genuine (Reply.get_header (ok h)) = GenuineHeader h
  Genuine (Reply.post_blinded_blocks (ok d)) = GenuinePayload d.reply.inner
  Genuine r = Unit

  try_signed_header-IsHeaderOf :
      (b : BidSubmission) (header : SignedHeader)
      → try_signed_header x b signer ≡ ok header
      → IsHeaderOf x signer b (record { version = deneb; inner = header })
  unfolding try_signed_header
  try_signed_header-IsHeaderOf b header e = record {
    version = refl;
    header = ground arith;
    value = ground arith;
    commitments = ground arith;
    relay = ground arith;
    signature = ground arith;
  }

  module _ (elapsed slot : ℕ) (hash : B256) (pubkey : BlsPublicKey) where
    find_header_steps-Genuine :
        Ensures
          (Sound x builders forks)
          (OnOk (λ (found : BidSubmission × Versioned SignedHeader).
            Accepted x builders forks found.0 × IsHeaderOf x signer found.0 found.1))
          (find_header_steps x signer elapsed slot hash pubkey)
    unfolding find_header_steps
    find_header_steps-Genuine =
        let Q = λ (found : BidSubmission × Versioned SignedHeader).
          Accepted x builders forks found.0 × IsHeaderOf x signer found.0 found.1 in
        let P = Sound x builders forks in
        Ensures-get P _ _ (OnOk Q) λ s1 h1. Ensures-returns P _ _ Q λ _ registered.
          Ensures-get P _ _ (OnOk Q) λ s2 h2. Ensures-returns P _ _ Q λ _ in_time.
            Ensures-get P _ _ (OnOk Q) λ s3 h3. Ensures-returns P _ _ Q λ bid best.
              Ensures-returns P _ _ Q λ header signed. (
                (h3.bids slot hash pubkey bid (ok_or-eq-ok _ _ best)).1,
                try_signed_header-IsHeaderOf bid header (map_err-eq-ok _ _ signed),
              )

    headers-Genuine :
        Ensures
          (Sound x builders forks)
          (λ r. Genuine (Reply.get_header r))
          (get_header_steps x signer elapsed slot hash pubkey)
    unfolding get_header_steps count_header_steps ◌>>=◌
    headers-Genuine =
        let gauges = (Sound-Kept x builders forks).gauges in
        Ensures-bind (Sound x builders forks) (find_header_steps x signer elapsed slot hash pubkey)
          _
          (λ (found : BidSubmission × Versioned SignedHeader).
            Accepted x builders forks found.0 × IsHeaderOf x signer found.0 found.1)
          (λ r. Genuine (Reply.get_header r)) (λ e. tt) find_header_steps-Genuine
          (λ found (good, header).
            (gauges _, (gauges _, (gauges _, (gauges _, (found.0, good, header))))))

  module _ (elapsed : ℕ) (b : SignedBlindedBlock) where
    find_response_steps-Genuine :
        Ensures (Sound x builders forks) (OnOk GenuinePayload) (find_response_steps x elapsed b)
    unfolding find_response_steps
    find_response_steps-Genuine =
        let Q = GenuinePayload in
        let P = Sound x builders forks in
        Ensures-get P _ _ (OnOk Q) λ s1 h1. Ensures-returns P _ _ Q λ duty found.
          Ensures-returns P _ _ Q λ _ index. Ensures-get P _ _ (OnOk Q) λ s2 h2.
            Ensures-get P _ _ (OnOk Q) λ s3 h3. Ensures-returns P _ _ Q λ _ registered.
              Ensures-returns P _ _ Q λ _ signed. Ensures-get P _ _ (OnOk Q) λ s4 h4.
                OnOk-ok_or Q (read_blinded_block_response s4 duty.entry.message.pubkey) _
                  (h4.responses duty.entry.message.pubkey)

    deliveries-Genuine :
        Ensures
          (Sound x builders forks)
          (λ r. Genuine (Reply.post_blinded_blocks r))
          (post_blinded_blocks_steps x elapsed b)
    unfolding post_blinded_blocks_steps deliver ◌>>=◌
    deliveries-Genuine =
        let kept = Sound-Kept x builders forks in
        Ensures-bind (Sound x builders forks) (find_response_steps x elapsed b) _ GenuinePayload
          (λ r. Genuine (Reply.post_blinded_blocks r)) (λ e. tt) find_response_steps-Genuine
          (λ resp genuine. (kept.gauges _, (kept.gauges _, (kept.delivered _, genuine))))

  promises : Routes (Sound x builders forks) x signer forks Genuine
  promises =
      let any = routes x builders forks signer in
      record {
        bids = any.bids;
        blocks = any.blocks;
        headers = headers-Genuine;
        deliveries = deliveries-Genuine;
        validators = any.validators;
        events = any.events;
        duties = any.duties;
      }

  -- Nothing but accepted bids is handed out, however the accesses of requests and events overlap:
  -- from a sound storage in which nothing runs, every storage that is reached, also in the middle
  -- of requests, is sound, and every reply given until then is genuine: a header in it is the
  -- relay's signed header, and a payload in it the payload, of a bid of positive value, from a
  -- whitelisted builder, with a signature that was verified.
  pub interleaved-AllGenuine :
      {c d : Config}
      → Reach x signer forks c d
      → c.running ≡ []
      → c.replies ≡ []
      → IsSound x builders forks c.storage
      → IsSound x builders forks d.storage × All Genuine d.replies
  interleaved-AllGenuine =
      interleaved-promises (Sound x builders forks) x signer forks Genuine promises
