-- ===== src/Lib.antt =====
-- Ikimetr: the cost accounting of the AI calls, and the parts around it that decide what may run.
--
-- The package packages/ai-cost-system keeps an append-only ledger of events, and from it a budget.
-- A caller reserves before a call to a provider, and settles or releases afterwards. Files are named
-- below from packages/ai-cost-system/src, if nothing else is said.
--
-- - Prelude: Boolean tests, lists, results, texts (lists of character codes) and `Dict`, the
--   JavaScript `Map` in insertion order.
-- - Money (money.ts): amounts in micro units. Numbers are natural numbers, and the bound 2 ^ 53 - 1
--   of a safe integer is written out; Money/Bounds has the bounds.
-- - Config (schemas.ts, snapshot.ts): the validated configuration as a record.
-- - Pricing (pricing.ts): the prices of a provider, and the cost of a usage; Pricing/Cost.
-- - LedgerEvents (ledger-events.ts): the events and their validation. The grammar of a
--   date-time, which is zod's, and whether a string matches one of the regular expressions that
--   json.ts has for secrets, which the engine decides, are the record `Schema`.
-- - Budget (budget.ts): Usage has the totals and their keys, Replay has `deriveBudgetState`, Limits
--   the checks of a candidate, Prepare the construction of a reservation, and Controller the methods
--   `initialize`, `reserve`, `settle` and `release`, and Controller/Quote `quote`.
--   Spec says what a ledger stands for without the maps of the code: the records of its
--     reservations, and sums over them. Totals, Spec and Derive relate the code to it.
--   Controller/Reserve, Settle, Steps, Invariant and History follow a controller over its calls.
--   A method is a function from the controller to the controller and a result, since
--   `serializeTransition` runs one at a time. `Setup` holds what a controller does not change. The
--   clock and the outcome of the write are arguments: a write is acknowledged, lost, or present in
--   the file but not acknowledged.
-- - AccountingLedger (ledger.ts): the file as the text that it holds, a byte to a character. `append`
--   writes a line in the pieces that the writes accept, and may stop anywhere; `replay` reads the
--   lines. The record `LineFormat` is the JSON text of an event (canonical.ts and json.ts), and
--   `Printable` what the ledger relies on. Whether the paths are regular and contained is an
--   argument. Lines is about the text, Reading about replay, Writing about append.
-- - Routing: Codes (routing-contracts.ts) has the words of a decision, Policy (policy-evaluator.ts)
--   what a request may use, and State (routing-state.ts) the evidence that the ledger holds on
--   health, approvals and earlier attempts. Draft and Decision (routing-contracts.ts) are the draft
--   of a decision and the decision with its hashes; SHA-256 is the record `Hashing`.
--   Router (cost-router.ts) has the drafts that the router makes, Router/Approval, Provider, Cache,
--   Evaluate and Audit its functions in the order of their calls. Trace, Valid, Accepted and Ends are
--   about the traces and the audits, Granted, Selected, Choice and Decided about what a selected
--   provider rests on, Grounds says so of the ledger, and Guarantees about `evaluateInternal` as a
--   whole. What the cache runtime answers for a candidate, and the events that it appends meanwhile,
--   are part of the context, whether the ledger can be read and how the append ends are arguments,
--   and the budget controller's `quote` is a field of the router.
-- - Cache: Evidence (verification-evidence.ts) is the evidence that a result passed its
--   verification. Entry (cache-entry.ts) has the entries and their states, Entry/Semantics what an
--   entry of a state has, Entry/Same what its comparisons compare.
--   Lineage (cache-runtime.ts) finds the head of the revisions of a key; its loop is on fuel, four
--   being enough since no state comes back, as Lineage/Walk shows. Runtime
--   (cache-runtime.ts) is the state of a runtime and the events it appends, Lookup
--   (cache-runtime.ts) is `lookupVerified` in three steps: the head of the lineage, the entry, its
--   evidence. The storage is the list of its entries; the hash of a
--   key, the authority and the opening of a sealed payload are fields of `RuntimeSettings`.
--   Publish (cache-runtime.ts) is `begin`, `storeUnverified` and `publishVerified`; the entries that
--   they are given are finalized ones. Negative (cache-runtime.ts) is `storeNegative` and
--   `lookupNegative`.
-- - Jobs (apps/worker/src/job-processor.ts and job-queue.ts): the rows of the jobs table, the Redis
--   keys, and the functions of the processor on them. Rows has the lookups and the calls, Terminal
--   and Attempts what becomes of a row. A claim and the end of a job are calls of their own, between
--   which other workers run, and `processOne` is both without an interruption. The end of a job has no
--   test of the status in the source, so a late worker is excluded where that matters (`InTime`).
--   Due retries are taken in the order of the set's entries, not of their scores.
-- - Scenarios: concrete controllers and runs, and the theorems applied to them.
--
-- Not modelled: files, hashes, the network and the database; the text of error messages; the freezing
-- of objects. Of the cache, the finalizing and sealing of entries (cache-entry.ts), the sharing of
-- runs (single-flight.ts), and the files of the storage. Besides the walk of a lineage, no loop
-- needs fuel: each is a recursion on a list.
pub mod Prelude
pub mod Money
pub mod Config
pub mod Pricing
pub mod LedgerEvents
pub mod Budget
pub mod AccountingLedger
pub mod Cache
pub mod Routing
pub mod Jobs
pub mod Scenarios
