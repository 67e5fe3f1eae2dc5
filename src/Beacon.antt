-- ===== src/Beacon.antt =====
-- crates/beacon/src: the client of the beacon node, which merges its events (events), and calls its
-- API (api) for whoever sends a command (service).
pub mod Stream
pub mod Types
pub mod Service
pub mod Api
pub mod Subscribe
