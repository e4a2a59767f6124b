-- ===== src/PowQ48.antt =====
-- new_src/pow_q48.c: the node's Q48 proof-of-work arithmetic and the rejection certificate.
pub mod Log2
pub mod Bytes
pub mod Merit
pub mod Certify
pub mod TargetSize
mod Tests
