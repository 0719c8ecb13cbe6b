-- ===== src/ProofHash.antt =====
-- packages/proof-hash.
pub mod Digest
pub mod Jcs
