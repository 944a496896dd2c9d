-- ===== src/Ca.antt =====
-- internal/ca: profiles, issuance, revocation and revocation lists.
pub mod Profile
pub mod State
pub mod Issue
pub mod Issuing
pub mod Request
pub mod Crl
pub mod Profiles
