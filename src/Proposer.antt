-- ===== src/Proposer.antt =====
-- crates/http/src/server/proposer_api: the routes of the proposers.
pub mod Header
pub mod Unblinding
pub mod Registered
pub mod GetHeader
pub mod BlindedBlocks
pub mod Validators
