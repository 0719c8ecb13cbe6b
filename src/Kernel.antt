-- ===== src/Kernel.antt =====
-- packages/rules-kernel: the rules, and the kernel that runs them all.
pub mod Rules
pub mod Metadata
pub mod Evaluate
mod Examples
