-- ===== src/Audit.antt =====
-- internal/audit: the hash-chained, signed audit log and its verification.
pub mod Record
pub mod Chain
pub mod File
pub mod Keys
pub mod Stored
