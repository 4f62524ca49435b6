-- ===== src/Cache.antt =====
-- The cache of verified results of packages/ai-cost-system: the evidence of a verification, the
-- entries and their states, the head of a lineage, and the lookups.
pub mod Evidence
pub mod Entry
pub mod Lineage
pub mod Runtime
pub mod Lookup
pub mod Publish
pub mod Negative
