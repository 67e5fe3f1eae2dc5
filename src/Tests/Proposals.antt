-- ===== src/Tests/Proposals.antt =====
-- What a proposer asks of the relay.
use rs_mev_relay.Prelude.{
  err, ok, some, none, true, false, [], ◌∷◌, List, ◌≡◌, ◌↔◌, refl, lookup, ℕ_discrete, if_pos,
  insert,
}
use rs_mev_relay.Primitives.Bytes.{Bytes, B256}
use rs_mev_relay.Primitives.Keys
use rs_mev_relay.Primitives.Keys.{
  BlsPublicKey, BlsSignature, BlsPublicKey-discrete, Bytes-discrete, from_point,
}
use rs_mev_relay.Primitives.Payload.{BlindedBlockResponse}
use rs_mev_relay.Primitives.Bids.{to_blinded_block_response}
use rs_mev_relay.Primitives.Known.{KnownValidatorResponse, is_active}
use rs_mev_relay.Primitives.Domains.{compute_builder_domain, compute_proposer_domain}
use rs_mev_relay.Primitives.Blocks.{SignedBlindedBlock}
use rs_mev_relay.Primitives.Headers.{Header, Versioned, SignedHeader, deneb}
use rs_mev_relay.Primitives.External.{verify, signing_root}
use rs_mev_relay.Primitives.Signing.{payload_header, public_key, sign}
use rs_mev_relay.Storage.{
  InMemoryStorage, set_best_bid, set_blinded_block_response, set_validator_registrations, new,
  find_duty_by_slot, read_validator_registration,
}
use rs_mev_relay.Builder.{accept, post_bids}
use rs_mev_relay.Builder.Effects.{read_best_bid-accept_self, bid_key}
use rs_mev_relay.Proposer.GetHeader.{get_header}
use rs_mev_relay.Proposer.Header.{
  IsHeaderOf, Offers, get_header-eq-ok_iff, get_header-verify, get_header-post_bids,
}
use rs_mev_relay.Proposer.BlindedBlocks.{no_duty_found, find_response, deliver, post_blinded_blocks}
use rs_mev_relay.Proposer.Unblinding.{
  Entitled, Released, post_blinded_blocks-eq-ok_iff, post_blinded_blocks-post_bids, blind,
  blind-deliver,
}
use rs_mev_relay.Proposer.Validators.{Answered, is_registrable, register, post_validators}
use rs_mev_relay.Proposer.Registered.{newest, read_validator_registration-post_validators}
use rs_mev_relay.Tests.Fixtures.{
  x, start, bid, duty, pair, proposer, signer, registration, payload, hash, sign_with,
  proposer_domain, blobs,
}
use rs_mev_relay.Tests.Submissions.{bid-Admissible}

abbrev header_message : Header
header_message = record {
  header = payload_header x payload;
  blob_kzg_commitments = [];
  value = record { value = 100 };
  pubkey = public_key x signer;
}

abbrev header : Versioned SignedHeader
header = record {
  version = deneb;
  inner = record {
    message = header_message;
    signature = sign x signer (x.header_root header_message);
  };
}

-- The storage after the bid.
abbrev pub bidding : InMemoryStorage
bidding = accept bid duty start

bidding-Offers : Offers x signer bidding 11 (hash 2) proposer header
unfolding accept set_best_bid set_blinded_block_response new read_validator_registration lookup
    BlsPublicKey-discrete ℕ_discrete
bidding-Offers = record {
  registration = registration;
  registered = refl;
  next = refl;
  bid = bid;
  best = read_best_bid-accept_self bid duty start (bid_key bid) refl;
  is_header = record {
    version = refl;
    header = refl;
    value = refl;
    commitments = refl;
    relay = refl;
    signature = refl;
  };
}

get_header-eq-ok_iff_example :
    ((get_header x signer 5 11 (hash 2) proposer bidding).1 ≡ ok header)
    ↔ Offers x signer bidding 11 (hash 2) proposer header
get_header-eq-ok_iff_example = get_header-eq-ok_iff x signer 5 11 (hash 2) proposer bidding header

header-answered : (get_header x signer 5 11 (hash 2) proposer bidding).1 ≡ ok header
header-answered =
    (get_header-eq-ok_iff x signer 5 11 (hash 2) proposer bidding header).1 bidding-Offers

verifies :
    (secret : Bytes) (msg : B256)
    → x.point_verify (x.sign_point secret msg) (x.public_point secret) msg ≡ true
verifies secret msg =
    let signed = x.sign_point secret msg in if_pos (Bytes-discrete signed signed) refl true false

get_header-verify_example :
    verify x header.inner.signature header.inner.message.pubkey (
      signing_root x
        (x.header_root header.inner.message)
        (compute_builder_domain x.fork_data_root signer.fork_data))
    ≡ true
get_header-verify_example =
    get_header-verify x signer verifies 5 11 (hash 2) proposer bidding header header-answered

registered : read_validator_registration start proposer ≡ some registration
unfolding new read_validator_registration lookup BlsPublicKey-discrete ℕ_discrete
registered = refl

get_header-post_bids_example :
    (h : Versioned SignedHeader) × ((get_header x signer 5 11
        (hash 2)
        proposer
        (post_bids x bid start).0).1
      ≡ ok h)
    × IsHeaderOf x signer bid h
get_header-post_bids_example =
    get_header-post_bids x signer bid duty start 5 [] registration bid-Admissible registered refl

abbrev pub blinded : SignedBlindedBlock
blinded = record {
  message = record {
    slot = 11;
    proposer_index = 3;
    parent_root = hash 1;
    state_root = hash 5;
    body = record {
      randao_reveal = Keys.empty;
      eth1_data = record { deposit_root = hash 0; deposit_count = 0; block_hash = hash 0 };
      graffiti = hash 0;
      proposer_slashings = [];
      attester_slashings = [];
      attestations = [];
      deposits = [];
      voluntary_exits = [];
      sync_aggregate = record { sync_committee_bits = []; sync_committee_signature = Keys.empty };
      execution_payload_header = payload_header x payload;
      bls_to_execution_changes = [];
      blob_kzg_commitments = [];
    };
  };
  signature = sign_with (6 ∷ []) (record { bytes = 11 ∷ 3 ∷ [] }) proposer_domain;
}

abbrev pub response : BlindedBlockResponse
response = record { execution_payload = payload; blobs_bundle = blobs }

pub blinded-Entitled : Entitled x start blinded duty
unfolding new read_validator_registration lookup find_duty_by_slot verify Keys.verify signing_root
    compute_proposer_domain BlsPublicKey-discrete Bytes-discrete ℕ_discrete pair
blinded-Entitled = record {
  on_duty = refl;
  index = refl;
  registration = registration;
  registered = refl;
  signed = refl;
}

post_blinded_blocks-eq-ok_iff_example :
    ((post_blinded_blocks x 5 blinded bidding).1 ≡ ok (deliver blinded response)) ↔ (
      (resp : BlindedBlockResponse) × Released x bidding blinded resp
      × (deliver blinded response ≡ deliver blinded resp))
post_blinded_blocks-eq-ok_iff_example =
    post_blinded_blocks-eq-ok_iff x 5 bidding blinded (deliver blinded response)

post_blinded_blocks-post_bids_example :
    (post_blinded_blocks x 5 blinded (post_bids x bid start).0).1
    ≡ ok (deliver blinded (to_blinded_block_response bid))
post_blinded_blocks-post_bids_example =
    post_blinded_blocks-post_bids x bid duty start 5 blinded bid-Admissible blinded-Entitled

abbrev late : SignedBlindedBlock
late = record blinded { message = record (blinded.message) { slot = 99 } }

late-refused : (post_blinded_blocks x 5 late bidding).1 ≡ err no_duty_found
unfolding post_blinded_blocks find_response accept set_best_bid set_blinded_block_response new
    find_duty_by_slot
late-refused = refl

blind-deliver_example :
    (blind x (deliver blinded response).published.signed_block.message ≡ blinded.message)
    × ((deliver blinded response).published.signed_block.signature ≡ blinded.signature)
blind-deliver_example = blind-deliver x blinded response refl

-- What the beacon node knows of the proposer.
abbrev known : KnownValidatorResponse
known = record {
  execution_optimistic = false;
  finalized = true;
  entry = record {
    index = 3;
    balance = "32";
    status = "active_ongoing";
    validator = record {
      pubkey = proposer;
      withdrawal_credentials = "0x00";
      effective_balance = "32";
      slashed = false;
      activation_eligibility_epoch = 0;
      activation_epoch = 0;
      exit_epoch = 9;
      withdrawable_epoch = 9;
    };
  };
}

abbrev pub answered : List Answered
answered = (registration, some known) ∷ (registration, none) ∷ []

read_validator_registration-post_validators_example :
    read_validator_registration (post_validators x answered start) proposer
    ≡ newest x (compute_builder_domain x.fork_data_root start.inner.fork_data) proposer answered
read_validator_registration-post_validators_example =
    read_validator_registration-post_validators x answered start proposer

answered-read :
    read_validator_registration (post_validators x answered start) proposer ≡ some registration
unfolding new read_validator_registration set_validator_registrations insert post_validators
    register is_registrable is_active verify Keys.verify signing_root compute_builder_domain lookup
    BlsPublicKey-discrete Bytes-discrete ℕ_discrete pair
answered-read = refl
