-- ===== src/Primitives/Chain.antt =====
-- crates/primitives/src/storage/head_slot.rs and payload_attributes.rs. The release profile, which
-- the Dockerfile's `maxperf` inherits, leaves overflow unchecked: `self.0 + 1` wraps at 2 ^ 64.
use rs_mev_relay.Prelude.{
  ℕ, ◌+◌, ◌%◌, ◌/◌, ◌^◌, Bool, ◌==◌, Option, List, Result, ◌>>◌, guard, ite, true, false,
}
use rs_mev_relay.Primitives.Bytes.{B256, B256-discrete, Address}
use rs_mev_relay.Primitives.Payload.{Withdrawal}

abbrev pub u64_mod : ℕ
u64_mod = 2 ^ 64

pub record HeadSlot : Type 0 where
  pub slot : ℕ

unfoldable pub is_next_slot : HeadSlot → ℕ → Bool
is_next_slot head proposal_slot = (head.slot + 1) % u64_mod == proposal_slot

-- A `slots_per_epoch` of 0 panics in the source; `%` and `/` by 0 are total here.
unfoldable pub is_first_slot_of_new_epoch : HeadSlot → ℕ → Bool
is_first_slot_of_new_epoch head slots_per_epoch = head.slot % slots_per_epoch == 1

unfoldable pub epoch : HeadSlot → ℕ → ℕ
epoch head slots_per_epoch = head.slot / slots_per_epoch

-- `PayloadAttributesData` of the beacon node's event, with the event's inner record.
pub record Attributes : Type 0 where
  pub timestamp : ℕ
  pub prev_randao : B256
  pub suggested_fee_recipient : Address
  pub withdrawals : Option (List Withdrawal)
  pub parent_beacon_block_root : Option B256

pub record PayloadAttributes : Type 0 where
  pub proposal_slot : ℕ
  pub parent_block_root : B256
  pub parent_block_number : ℕ
  pub parent_block_hash : B256
  pub proposer_index : ℕ
  pub payload_attributes : Attributes

pub data ValidationErrors : Type 0 where
  slot prev_randao : ValidationErrors

unfoldable pub validate_bid : PayloadAttributes → ℕ → B256 → Result ValidationErrors (Unit {0})
validate_bid attrs bid_slot randao = do
  guard (attrs.proposal_slot == bid_slot) slot
  guard (ite (B256-discrete attrs.payload_attributes.prev_randao randao) true false) prev_randao
