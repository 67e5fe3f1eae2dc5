-- ===== src/Primitives/Domains.antt =====
-- crates/primitives/src/blst/signer.rs: fork data and the signing domains. The derived tree hash of
-- `ForkData` is foreign and comes in as a function.
use rs_mev_relay.Prelude.{[], ◌∷◌, ◌++◌, take, replicate}
use rs_mev_relay.Primitives.Bytes.{Bytes, B256}

pub record ForkData : Type 0 where
  pub current_version : Bytes
  pub genesis_validators_root : B256

pub record ForkDatas : Type 0 where
  pub builder : ForkData
  pub proposer : ForkData

-- `Hash256::default()`
abbrev pub zero_hash : B256
zero_hash = record { bytes = replicate 32 0 }

unfoldable pub from_genesis_and_current_version : Bytes → Bytes → B256 → ForkDatas
from_genesis_and_current_version genesis_fork_version current_version genesis_validators_root =
    record {
      builder = record {
        current_version = genesis_fork_version;
        genesis_validators_root = zero_hash;
      };
      proposer = record {
        current_version = current_version;
        genesis_validators_root = genesis_validators_root;
      };
    }

-- `BuilderDomain::default()` and `ProposerDomain::default()`
abbrev pub builder_domain_tag : Bytes
builder_domain_tag = 0 ∷ 0 ∷ 0 ∷ 1 ∷ []

abbrev pub proposer_domain_tag : Bytes
proposer_domain_tag = replicate 4 0

module _ (fork_data_root : ForkData → B256) where
  -- `ForkData`'s methods: the tag in the first four bytes, then 28 bytes of the root.
  unfoldable pub fork_builder_domain : ForkData → Bytes
  fork_builder_domain f = builder_domain_tag ++ take 28 (fork_data_root f).bytes

  unfoldable pub fork_proposer_domain : ForkData → Bytes
  fork_proposer_domain f = proposer_domain_tag ++ take 28 (fork_data_root f).bytes

  -- `ForkDatas`' methods.
  unfoldable pub compute_builder_domain : ForkDatas → Bytes
  unfolding fork_builder_domain
  compute_builder_domain f = fork_builder_domain f.builder

  unfoldable pub compute_proposer_domain : ForkDatas → Bytes
  unfolding fork_proposer_domain
  compute_proposer_domain f = fork_proposer_domain f.proposer
