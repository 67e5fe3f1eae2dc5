-- ===== src/Primitives.antt =====
-- The types.
pub mod Bytes
pub mod Keys
pub mod Payload
pub mod Bids
pub mod Chain
pub mod Metrics
pub mod Events
pub mod Registrations
pub mod Known
pub mod Domains
pub mod Versions
pub mod Blocks
pub mod Headers
pub mod Forks
pub mod External
pub mod Signing
pub mod Encoding
pub mod Separation
pub mod Roundtrip
