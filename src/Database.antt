-- ===== src/Database.antt =====
-- packages/db/src: settlements.ts, with the tables of schema.ts that it uses. A table is the list of its
-- rows, a query is a function of the tables, and NULL is none.
pub mod Tables
pub mod Settlements
pub mod Postings
pub mod Kept
pub mod Recorded
pub mod SettlementStore
pub mod Proofs
pub mod Once
pub mod Writes
pub mod Steps
pub mod Refines
pub mod Answers
mod Examples
