-- ===== src/Cache/Negative/Recorded.antt =====
-- cache-runtime.ts: what a negative hit rests on.
use ikimetr.Prelude.{◌<◌, text_Eq, ℕ, ◌≡◌, true, false, Option, some, Text}
use ikimetr.LedgerEvents.{CacheNamespace, CacheState}
use ikimetr.Cache.Entry.{
  CacheCompatibilityContext, OutcomeReason, CacheEntry, same_state, is_compatible_with_context,
}
use ikimetr.Cache.Entry.Semantics.{not_after}
use ikimetr.Cache.Entry.Same.{SameMetadata}
use ikimetr.Cache.Runtime.Facts.{NoEntry, Written}
use ikimetr.Cache.Lineage.{Inspection, inspect}
use ikimetr.Cache.Runtime.{
  RuntimeSettings, CacheRuntime, has_matching_write_event, no_terminal_sibling,
}

-- An entry that passed the tests of a lookup.
record Known (settings : RuntimeSettings) (c : CacheRuntime) (context : CacheCompatibilityContext)
    (time : ℕ) (entry : CacheEntry) (reason : OutcomeReason) : Type 0 where
  no_verified : no_terminal_sibling settings c entry CacheNamespace.verified_artifact ≡ true
  negative : same_state entry.state CacheState.negative ≡ true
  has_reason : entry.outcome_reason ≡ some reason
  audited : has_matching_write_event c entry ≡ true
  compatible : is_compatible_with_context entry context ≡ true
  unexpired : not_after (settings.engine.date entry.expires_at) (some time) ≡ false

-- An entry that may answer a request at a time.
pub record Recorded (settings : RuntimeSettings) (c : CacheRuntime)
    (context : CacheCompatibilityContext) (time : ℕ) (entry : CacheEntry) (reason : OutcomeReason)
    : Type 0 where
  pub no_verified :
      NoEntry c.store CacheNamespace.verified_artifact
        (settings.derive_key CacheNamespace.verified_artifact entry.metadata)
  pub negative : entry.state ≡ CacheState.negative
  pub has_reason : entry.outcome_reason ≡ some reason
  pub written : Written c entry
  pub cache_key : entry.cache_key ≡ context.cache_key
  pub metadata : SameMetadata entry.metadata context.metadata
  pub unexpired : (t : ℕ) → settings.engine.date entry.expires_at ≡ some t → time < t

module _ (settings : RuntimeSettings) where
  -- A negative hit, as a conclusion.
  abbrev Answered : CacheRuntime → CacheCompatibilityContext → Option ℕ → CacheEntry → Text → Type 0
  Answered c context now entry code =
      (time : ℕ) × (reason : OutcomeReason) × (now ≡ some time)
      × (reason.code ≡ code)
      × (inspect c.store CacheNamespace.negative context.cache_key ≡ Inspection.ready entry)
      × Known settings c context time entry reason
