-- ===== src/Tests.antt =====
-- The theorems at concrete states.
pub mod Revocations
pub mod Acmes
pub mod Audits
pub mod Buckets
pub mod Certs
pub mod Toy
pub mod Mongos
pub mod Stored
pub mod Tokens
pub mod Requests
pub mod Finals
pub mod Trials
pub mod Revokes
pub mod Openings
pub mod Dials
pub mod Hexes
