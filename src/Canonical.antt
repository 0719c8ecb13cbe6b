-- ===== src/Canonical.antt =====
-- packages/canonical-model: the shapes that the packages share.
pub mod Payable
pub mod Proof
pub mod Check
