-- ===== src/Http.antt =====
-- crates/http/src/server: the routes with their filters and answers, and crates/auth/src, which guards
-- one of them.
pub mod Errors
pub mod Auth
pub mod Registering
pub mod Server
