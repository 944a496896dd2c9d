-- ===== src/Pkix.antt =====
-- internal/pkix: the X.509 layer.
pub mod Algs
