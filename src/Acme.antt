-- ===== src/Acme.antt =====
-- internal/acme: the ACME server.
pub mod Names
pub mod Nonces
pub mod Problem
pub mod Keys
pub mod Requests
pub mod Accounts
pub mod Orders
pub mod Finalize
pub mod Challenges
pub mod Dialling
pub mod Opening
pub mod Revoke
