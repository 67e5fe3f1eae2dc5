-- ===== src/Tests/Fixtures.antt =====
-- A small relay: foreign functions that can be computed, one builder, one proposer, one bid.
use rs_mev_relay.Prelude.{
  ℕ, suc, true, false, [], ◌∷◌, ◌++◌, none, some, ite, replicate, is_empty, if◌then◌else◌,
}
use rs_mev_relay.Primitives.Bytes.{Bytes, B256, Address}
use rs_mev_relay.Primitives.Keys.{BlsPublicKey, BlsSignature, Bytes-discrete}
use rs_mev_relay.Primitives.Payload.{ExecutionPayload, BlobsBundle}
use rs_mev_relay.Primitives.Bids.{BidTrace, BidSubmission}
use rs_mev_relay.Primitives.Chain.{HeadSlot, PayloadAttributes}
use rs_mev_relay.Primitives.Registrations.{
  ValidatorRegistration, ValidatorRegistrationMessage, Validator,
}
use rs_mev_relay.Primitives.Domains.{ForkDatas, zero_hash}
use rs_mev_relay.Primitives.External.{External}
use rs_mev_relay.Primitives.Signing.{BlsSigner}
use rs_mev_relay.Primitives.Metrics.{RelayMetrics}
use rs_mev_relay.Storage.{InMemoryStorage, new}

-- Two byte strings as one, from which both can be read again.
unfoldable pub pair : Bytes → Bytes → Bytes
pair [] b = 0 ∷ b
pair (a ∷ rest) b = suc a ∷ pair rest b

-- A signature is the key's bytes followed by the message's.
abbrev pub x : External
x = record {
  read_public_key = λ b. if is_empty b then none else some b;
  read_signature = λ b. if is_empty b then none else some b;
  point_verify = λ sig key msg. ite (Bytes-discrete sig (key ++ msg.bytes)) true false;
  public_point = λ secret. 1 ∷ secret;
  sign_point = λ secret msg. (1 ∷ secret) ++ msg.bytes;
  fork_data_root = λ f. f.genesis_validators_root;
  signing_data_root = λ d. record { bytes = pair d.object_root.bytes d.domain.bytes };
  bid_trace_root = λ b. record { bytes = b.slot ∷ b.value.value ∷ [] };
  registration_root = λ m. record { bytes = m.gas_limit ∷ m.pubkey.point };
  header_root = λ h. record { bytes = h.value.value ∷ [] };
  blinded_block_root = λ b. record { bytes = b.slot ∷ b.proposer_index ∷ [] };
  transactions_root = λ _. zero_hash;
  withdrawals_root = λ _. zero_hash;
  u256_from_str = λ _. some 100;
  u256_from_be_slice = λ _. 7;
  new_commitments = some;
  new_transactions = some;
  new_withdrawals = some;
  new_blob = some;
  new_blobs = some;
  logs_bloom_from = λ b. b;
  extra_data_from = λ b. b;
  transaction_from = λ b. b;
}

abbrev pub hash : ℕ → B256
hash n = record { bytes = replicate 32 n }

abbrev pub address : Address
address = record { bytes = replicate 20 2 }

abbrev pub builder : BlsPublicKey
builder = record { point = 1 ∷ 5 ∷ [] }

abbrev pub proposer : BlsPublicKey
proposer = record { point = 1 ∷ 6 ∷ [] }

abbrev pub forks : ForkDatas
forks = record {
  builder = record { current_version = replicate 4 0; genesis_validators_root = zero_hash };
  proposer = record { current_version = 4 ∷ replicate 3 0; genesis_validators_root = hash 9 };
}

abbrev pub signer : BlsSigner
signer = record { secret_key = 8 ∷ []; fork_data = forks }

abbrev pub sign_with : Bytes → B256 → Bytes → BlsSignature
sign_with secret root domain = record {
  point = some (x.sign_point secret (record { bytes = pair root.bytes domain }));
  is_infinity = false;
}

abbrev pub builder_domain : Bytes
builder_domain = 0 ∷ 0 ∷ 0 ∷ 1 ∷ replicate 28 0

abbrev pub proposer_domain : Bytes
proposer_domain = replicate 4 0 ++ replicate 28 9

abbrev pub registration_message : ValidatorRegistrationMessage
registration_message = record {
  fee_recipient = address;
  gas_limit = 30;
  timestamp = 1;
  pubkey = proposer;
}

abbrev pub registration : ValidatorRegistration
registration = record {
  message = registration_message;
  signature = sign_with (6 ∷ []) (x.registration_root registration_message) builder_domain;
}

abbrev pub duty : Validator
duty = record { slot = 11; validator_index = 3; entry = registration }

abbrev pub attributes : PayloadAttributes
attributes = record {
  proposal_slot = 11;
  parent_block_root = hash 1;
  parent_block_number = 70;
  parent_block_hash = hash 2;
  proposer_index = 3;
  payload_attributes = record {
    timestamp = 5;
    prev_randao = hash 3;
    suggested_fee_recipient = address;
    withdrawals = none;
    parent_beacon_block_root = none;
  };
}

abbrev pub metrics : RelayMetrics
metrics = record {
  chain = record { proposal_slot = 0; block = 0 };
  relay = record {
    registered_validators = 0;
    known_validators = 0;
    headers = 0;
    blinded_blocks = 0;
    header_values = 0;
    relayed_blocks = 0;
    non_relayed_blocks = 0;
    tx_count = 0;
    blinded_block_latency = 0;
    header_latency = 0;
  };
}

abbrev pub head : HeadSlot
head = record { slot = 10 }

abbrev pub start : InMemoryStorage
start = new metrics head attributes (builder ∷ []) forks ((proposer, registration) ∷ []) (duty ∷ [])

abbrev pub bid_message : BidTrace
bid_message = record {
  slot = 11;
  parent_hash = hash 2;
  block_hash = hash 4;
  builder_pubkey = builder;
  proposer_pubkey = proposer;
  proposer_fee_recipient = address;
  gas_limit = 30;
  gas_used = 21;
  value = record { value = 100 };
}

abbrev pub payload : ExecutionPayload
payload = record {
  parent_hash = hash 2;
  fee_recipient = address;
  state_root = hash 5;
  receipts_root = hash 6;
  logs_bloom = [];
  prev_randao = hash 3;
  block_number = 71;
  gas_limit = 30;
  gas_used = 21;
  timestamp = 5;
  extra_data = [];
  base_fee_per_gas = record { value = 7 };
  block_hash = hash 4;
  transactions = (1 ∷ 2 ∷ []) ∷ [];
  withdrawals = [];
  blob_gas_used = 0;
  excess_blob_gas = 0;
}

abbrev pub blobs : BlobsBundle
blobs = record { commitments = []; proofs = []; blobs = [] }

abbrev pub bid : BidSubmission
bid = record {
  message = bid_message;
  execution_payload = payload;
  blobs_bundle = blobs;
  signature = sign_with (5 ∷ []) (x.bid_trace_root bid_message) builder_domain;
}
