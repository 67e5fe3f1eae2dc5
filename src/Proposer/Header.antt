-- ===== src/Proposer/Header.antt =====
-- What crates/http/src/server/proposer_api/get_header.rs hands to a proposer.
use rs_mev_relay.Prelude.{
  ℕ, ◌+◌, ◌%◌, ◌≡◌, ◌↔◌, ok, some, true, refl, arith, inl, inr, Option-cases, List, map,
}
use rs_mev_relay.Primitives.Bytes.{Bytes, B256, KzgCommitment, as_kzg_commitment}
use rs_mev_relay.Primitives.Keys.{BlsSignature, BlsPublicKey, from_point}
use rs_mev_relay.Primitives.Keys
use rs_mev_relay.Primitives.Bids.{BidSubmission}
use rs_mev_relay.Primitives.Chain.{is_next_slot, u64_mod}
use rs_mev_relay.Primitives.Registrations.{Validator, ValidatorRegistration}
use rs_mev_relay.Primitives.Domains.{compute_builder_domain}
use rs_mev_relay.Primitives.Headers.{Header, Versioned, SignedHeader, deneb}
use rs_mev_relay.Primitives.External.{External, signing_root, verify}
use rs_mev_relay.Primitives.Signing.{BlsSigner, try_signed_header, public_key, sign, payload_header}
use rs_mev_relay.Storage.{
  InMemoryStorage, read_best_bid, read_validator_registration, set_best_bid,
  set_blinded_block_response,
}
use rs_mev_relay.Builder.{post_bids, accept}
use rs_mev_relay.Builder.Admission.{Admissible}
use rs_mev_relay.Builder.Effects.{post_bids-accepted, read_best_bid-accept_self, bid_key}
use rs_mev_relay.Proposer.GetHeader.{find_header, get_header}

-- The header that the relay signs for a bid: of its payload, its value and its commitments.
pub record IsHeaderOf (x : External) (signer : BlsSigner) (b : BidSubmission)
    (h : Versioned SignedHeader) : Type 0 where
  pub version : h.version ≡ deneb
  pub header : h.inner.message.header ≡ payload_header x b.execution_payload
  pub value : h.inner.message.value ≡ b.message.value
  pub commitments :
      x.new_commitments (map as_kzg_commitment b.blobs_bundle.commitments)
      ≡ some h.inner.message.blob_kzg_commitments
  pub relay : h.inner.message.pubkey ≡ public_key x signer
  pub signature : h.inner.signature ≡ sign x signer (x.header_root h.inner.message)

pub record Offers (x : External) (signer : BlsSigner) (s : InMemoryStorage) (slot : ℕ) (hash : B256)
    (key : BlsPublicKey) (h : Versioned SignedHeader) : Type 0 where
  pub registration : ValidatorRegistration
  pub registered : read_validator_registration s key ≡ some registration
  pub next : (s.inner.slot.slot + 1) % u64_mod ≡ slot
  pub bid : BidSubmission
  pub best : read_best_bid s slot hash key ≡ some bid
  pub is_header : IsHeaderOf x signer bid h

module _ (x : External) (signer : BlsSigner) (elapsed slot : ℕ) (hash : B256) (key : BlsPublicKey)
    (s : InMemoryStorage) (h : Versioned SignedHeader) where
  get_header-Offers :
      (get_header x signer elapsed slot hash key s).1 ≡ ok h → Offers x signer s slot hash key h
  unfolding get_header find_header is_next_slot try_signed_header
  get_header-Offers e = elim (Option-cases (read_validator_registration s key)) [
    | inl er ↦ absurd (ground arith)
    | inr (reg, er) ↦ elim (Option-cases (read_best_bid s slot hash key)) [
      | inl eb ↦ absurd (ground arith)
      | inr (bid, eb) ↦ record {
        registration = reg;
        registered = er;
        next = ground arith;
        bid = bid;
        best = eb;
        is_header = record {
          version = ground arith;
          header = ground arith;
          value = ground arith;
          commitments = ground arith;
          relay = ground arith;
          signature = ground arith;
        };
      }
    ]
  ]

  pub get_header_of_Offers :
      Offers x signer s slot hash key h → (get_header x signer elapsed slot hash key s).1 ≡ ok h
  unfolding get_header find_header is_next_slot try_signed_header
  get_header_of_Offers o =
      let h0 = o.registered in
      let h1 = o.next in
      let h2 = o.best in
      let h3 = o.is_header.commitments in
      let h4 = o.is_header.version in
      let h5 = o.is_header.header in
      let h6 = o.is_header.value in
      let h7 = o.is_header.relay in let h8 = o.is_header.signature in ground arith

  -- The route answers with a header exactly when the key is registered, the slot is the one after
  -- the head, there is a best bid for the slot, the parent and the key, and the header is the
  -- relay's signed header of that bid.
  pub get_header-eq-ok_iff :
      ((get_header x signer elapsed slot hash key s).1 ≡ ok h) ↔ Offers x signer s slot hash key h
  get_header-eq-ok_iff = (get_header-Offers, get_header_of_Offers)

module _ (x : External) (signer : BlsSigner)
    (verifies : (secret : Bytes) (msg : B256)
      → x.point_verify (x.sign_point secret msg) (x.public_point secret) msg ≡ true) where
  verify-sign :
      (root : B256) (signature : BlsSignature) (key : BlsPublicKey)
      → signature ≡ sign x signer root
      → key ≡ public_key x signer
      → verify x signature key
          (signing_root x root (compute_builder_domain x.fork_data_root signer.fork_data))
        ≡ true
  unfolding verify Keys.verify sign public_key from_point
  verify-sign root signature key of_root of_signer =
      let msg = signing_root x root (compute_builder_domain x.fork_data_root signer.fork_data) in
      rw (of_root, of_signer) (verifies signer.secret_key msg)

  -- Whatever header the route answers with, its signature verifies under the relay's public key,
  -- in the builder domain of the signer, if the curve library verifies what it signs.
  pub get_header-verify :
      (elapsed slot : ℕ) (hash : B256) (key : BlsPublicKey) (s : InMemoryStorage)
      (h : Versioned SignedHeader)
      → (get_header x signer elapsed slot hash key s).1 ≡ ok h
      → verify x h.inner.signature h.inner.message.pubkey (
          signing_root x
            (x.header_root h.inner.message)
            (compute_builder_domain x.fork_data_root signer.fork_data))
        ≡ true
  get_header-verify elapsed slot hash key s h e =
      let o = get_header-Offers x signer elapsed slot hash key s h e in
      verify-sign (x.header_root h.inner.message) h.inner.signature h.inner.message.pubkey
        o.is_header.signature o.is_header.relay

-- The header of a bid whose commitments fit.
abbrev pub header_of :
    External → BlsSigner → BidSubmission → List KzgCommitment → Versioned SignedHeader
header_of x signer b commitments =
    let msg : Header = record {
      header = payload_header x b.execution_payload;
      blob_kzg_commitments = commitments;
      value = b.message.value;
      pubkey = public_key x signer;
    } in
    record {
      version = deneb;
      inner = record { message = msg; signature = sign x signer (x.header_root msg) };
    }

module _ (x : External) (signer : BlsSigner) (b : BidSubmission) (duty : Validator)
    (s : InMemoryStorage) where
  pub header_of-IsHeaderOf :
      (commitments : List KzgCommitment)
      → x.new_commitments (map as_kzg_commitment b.blobs_bundle.commitments) ≡ some commitments
      → IsHeaderOf x signer b (header_of x signer b commitments)
  header_of-IsHeaderOf commitments fits = record {
    version = refl;
    header = refl;
    value = refl;
    commitments = fits;
    relay = refl;
    signature = refl;
  }

  accept-Offers :
      (commitments : List KzgCommitment) (reg : ValidatorRegistration)
      → Admissible x s b duty
      → read_validator_registration s b.message.proposer_pubkey ≡ some reg
      → x.new_commitments (map as_kzg_commitment b.blobs_bundle.commitments) ≡ some commitments
      → Offers x signer
          (accept b duty s)
          b.message.slot
          b.message.parent_hash
          b.message.proposer_pubkey
          (header_of x signer b commitments)
  unfolding accept set_best_bid set_blinded_block_response read_validator_registration
  accept-Offers commitments reg a registered fits = record {
    registration = reg;
    registered = registered;
    next = a.next;
    bid = b;
    best = read_best_bid-accept_self b duty s (bid_key b) refl;
    is_header = header_of-IsHeaderOf commitments fits;
  }

  -- An admissible bid for a registered proposer, whose commitments fit their list, is what that
  -- proposer is offered next: asked for the bid's slot, parent and proposer after the submission,
  -- the relay answers with its signed header of this very bid.
  pub get_header-post_bids :
      (elapsed : ℕ) (commitments : List KzgCommitment) (reg : ValidatorRegistration)
      → Admissible x s b duty
      → read_validator_registration s b.message.proposer_pubkey ≡ some reg
      → x.new_commitments (map as_kzg_commitment b.blobs_bundle.commitments) ≡ some commitments
      → (h : Versioned SignedHeader) × ((get_header x signer elapsed b.message.slot
            b.message.parent_hash b.message.proposer_pubkey
            (post_bids x b s).0).1
          ≡ ok h)
        × IsHeaderOf x signer b h
  get_header-post_bids elapsed commitments reg a registered fits =
      let h = header_of x signer b commitments in
      let offers = accept-Offers commitments reg a registered fits in
      let key = b.message.proposer_pubkey in
      let answer =
        get_header_of_Offers x signer elapsed b.message.slot b.message.parent_hash key
          (accept b duty s) h offers in
      (h, rw (post_bids-accepted x b s duty a) answer, header_of-IsHeaderOf commitments fits)
