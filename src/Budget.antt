-- ===== src/Budget.antt =====
-- The budget controller: packages/ai-cost-system/src/budget.ts.
pub mod Usage
pub mod Replay
pub mod Limits
pub mod Prepare
pub mod Controller
pub mod Totals
pub mod Spec
pub mod Derive
