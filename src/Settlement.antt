-- ===== src/Settlement.antt =====
-- packages/settlement: the gate behind its interface, the store, the adapter, the indexer, the agent.
pub mod Deployment
pub mod Chain
pub mod Store
pub mod Gate
pub mod Action
pub mod Adapter
pub mod Agent
pub mod Indexer
pub mod Registration
mod Fixtures
mod Examples
