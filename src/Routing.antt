-- ===== src/Routing.antt =====
-- The decisions of the cost router of packages/ai-cost-system: what a policy allows, and the evidence
-- that the ledger holds.
pub mod Codes
pub mod Policy
pub mod State
pub mod Draft
pub mod Decision
pub mod Router
