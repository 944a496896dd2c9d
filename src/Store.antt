-- ===== src/Store.antt =====
-- internal/store: the persistence boundary.
pub mod Fault
pub mod Driver
pub mod Bucket
pub mod Retried
pub mod Mongo
