-- ===== src/Api.antt =====
-- internal/api: API keys, the operator set and the handlers.
pub mod Key
pub mod Tokens
pub mod Operators
pub mod State
pub mod Revocation
