-- ===== src/Lib.antt =====
-- Pakta: from an invoice to a payment on Stellar.
--
-- An invoice is joined with its purchase order, vendor, receipts and approvals into a payable
-- (packages/canonical-model). The rules kernel (packages/rules-kernel) runs seven rules against it
-- and finds it READY or BLOCKED. The settlement adapter (packages/settlement/src/adapter.ts) takes a
-- proof that the issuer has signed through the gate, a contract on Stellar, which registers it,
-- commits the float, and pays its recipient.
--
-- Files:
--   Base        shared names: tests, lists, association lists (JavaScript's Map, in insertion order),
--               integers, outcomes (a value, or what was thrown), patterns, decimal numerals
--   Canonical   packages/canonical-model/src: schemas.ts, policy.ts and exception.ts are
--               Canonical/Payable, proof.ts is Canonical/Proof
--               Canonical/Check is what CanonicalPayable.safeParse asks of the values
--   Workbook    packages/ingestion/src/sheetParsers.ts, and the maps that ingestWorkbook.ts builds
--   Ingestion   packages/ingestion/src/ingestWorkbook.ts: ingestLoadedWorkbook; Ingestion/Joined is about
--               the payables that come out, Ingestion/Counts about the rows
--   Extraction  packages/ai-extraction/src/resolveExtraction.ts; Extraction/Guardrail is about the
--               origin of a candidate's parts
--   Builder     packages/proof-builder/src: buildProofOfPayable; Builder/Commitments is about what the
--               proof says
--   Wrapper     packages/stellar-sdk-wrapper/src: amount.ts is Wrapper/Amount, strkey.ts is
--               Wrapper/StrKey
--   ProofHash   packages/proof-hash/src: registrationDigest.ts is ProofHash/Digest (Parts, Fields, Widths
--               and Layouts below it are about the layout of the bytes, Binding about what a signature
--               covers), jcs.ts is ProofHash/Jcs (Order and Reorder are about the order of keys)
--   Database    packages/db/src/settlements.ts: Database/Tables (rows, upserts and updates by key),
--               Database/Settlements (the shared Settlement) and Database/SettlementStore
--               (createSettlementStore); Recorded and Postings are about the former, Kept about both;
--               Writes, Steps, Refines and Answers set the latter beside the in-memory store
--   Kernel      packages/rules-kernel/src: types.ts and rules/ are Kernel/Rules, kernel.ts is
--               Kernel/Evaluate (Conditions, Payable and Batch below it say when a payable is READY, Primary
--               what it is presented by and Reasons why it is blocked), reasonCodeMetadata.ts is
--               Kernel/Metadata
--   Settlement  packages/settlement/src: chain.ts (Chain), deployment.ts (Deployment), store.ts and
--               memoryStore.ts (Store), fakeGate.ts (Gate), registration.ts and issuer.ts
--               (Registration), adapter.ts (Adapter), indexer.ts (Indexer), agent.ts (Agent; its
--               timer and the calls of runOnce are Agent/Loop). Action is the monad of the
--               asynchronous methods: the outside world and the store, passed on, and a value or what
--               was thrown. Adapter/Authorized puts Registration behind the adapter's interface
--
-- A function keeps its name, in snake case. An `await` is a step of the monad: the gate is any
-- `GateClient`, which may change the outside world at each call, so other processes may act
-- there. Where the gate itself matters it is the in-memory gate, whose faults, a failed call and
-- a lost response, are part of its state. Messages of errors are shortened; their codes are kept.
--
-- Parameters: decimal.js, the arithmetic and the printing of `number`, and dates as text (Numerics);
-- SHA-256, UTF-8, hex and Date.parse (Hashing), Base64 and Ed25519 (NodeCrypto, Codecs); what exceljs
-- reads and the row schemas coerce (Reader); toLowerCase and dates from text (Runtime); the hashes of
-- evidence (Evidences); the source of events (EventSource). The proof's hash on a typed proof (Codecs)
-- is behind an interface, since a typed proof is not put into JSON here; ProofHash/Jcs has it on JSON.
-- The regular expressions of the schemas are tests on character codes.
--
-- Fuel: the digits of a number n are taken with fuel n + 1, since each division by ten makes n smaller.
-- The indexer's loop over pages is bounded by the source's own maxPages.
--
-- Not modelled: the RPC client and its encoding, the rest of the database, the HTTP routes, the MCP
-- server, the web interface, the calls of language models, canonicalHash (the projection of evidence
-- onto JSON), the exception service, and the Rust contract. The in-memory gate stands for the contract in
-- the tests of the repository and here, and is more permissive: the contract also checks its pause, a cap
-- on the amount, the expiry and its window, a spend window, and the funds that are available. What is
-- shown on the in-memory gate is shown of it alone.
--
-- The stores: a read or write of the store succeeds, as in memory, except for the agent's getProof, which
-- may throw (AgentOptions). On tables a call of recordSettlement is one step, its SELECT and its INSERT
-- together, except where Database/Kept takes the INSERT by itself.
pub mod Base
pub mod Builder
pub mod Canonical
pub mod Database
pub mod Extraction
pub mod Ingestion
pub mod Kernel
pub mod ProofHash
pub mod Settlement
pub mod Workbook
pub mod Wrapper
