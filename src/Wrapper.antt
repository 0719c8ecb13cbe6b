-- ===== src/Wrapper.antt =====
-- packages/stellar-sdk-wrapper.
pub mod Amount
pub mod StrKey
