-- ===== src/Cache/Negative.antt =====
-- cache-runtime.ts: `lookupNegative` and `storeNegative`. As in Publish, an entry that a call is given is
-- a finalized one.
pub mod Recorded
use ikimetr.Prelude.{
  ℕ, ◌+◌, Bool, true, false, ◌&&◌, ◌||◌, not, Option, none, some, List, any, leb, Eq, ◌==◌, Text,
  text, text_Eq, Result, ok, err, ◌>>=◌, ◌>>◌, throw_if,
}
use ikimetr.LedgerEvents.{CacheAction, CacheNamespace, CacheState, is_safe}
use ikimetr.Cache.Evidence.{includes}
use ikimetr.Cache.Entry.{
  CacheCompatibilityContext, OutcomeReason, CacheEntry, same_namespace, same_state, same_metadata,
  is_compatible_with_context, allowed_transition,
}
use ikimetr.Cache.Entry.Semantics.{not_after}
use ikimetr.Cache.Lineage.{inspect}
use ikimetr.Cache.Runtime.{
  RuntimeSettings, CacheRuntime, EventCall, is_empty_inspection, has_matching_write_event,
  no_terminal_sibling, append_cache_action,
}
use ikimetr.Cache.Lookup.{
  Stop, invalidate, quarantine, missing, or_stop, inspected, answering, and_then,
}
use ikimetr.Cache.Publish.{
  Refusal, PersistCall, is_derived_from, is_head, or_refuse, may_persist, persist_checked,
}

pub record NegativeCachePolicy : Type 0 where
  pub ttl_ms : Option ℕ
  pub allowed_transient_reason_codes : List Text

pub data NegativeCacheLookup : Type 0 where
  negative_hit : CacheEntry → Text → NegativeCacheLookup
  miss invalidated quarantined : NegativeCacheLookup

-- The status that is returned after the action.
abbrev pub negative_answer_of : CacheAction → NegativeCacheLookup
negative_answer_of CacheAction.miss = NegativeCacheLookup.miss
negative_answer_of CacheAction.invalidate = NegativeCacheLookup.invalidated
negative_answer_of _ = NegativeCacheLookup.quarantined

module _ (settings : RuntimeSettings) where
  -- From the head of the lineage to its reason.
  unfoldable pub judge_outcome :
      CacheRuntime → CacheCompatibilityContext → ℕ → CacheEntry → Result Stop OutcomeReason
  judge_outcome c context time entry = do
    throw_if (not (no_terminal_sibling settings c entry CacheNamespace.verified_artifact))
        (Stop.verdict (quarantine (some entry) (text "terminal-conflict")))
    throw_if (not (same_state entry.state CacheState.negative))
        (Stop.verdict (quarantine (some entry) (text "invalid-negative-entry")))
    reason ←
        or_stop (Stop.verdict (quarantine (some entry) (text "invalid-negative-entry")))
          entry.outcome_reason
    throw_if (not (has_matching_write_event c entry))
        (Stop.verdict (quarantine (some entry) (text "invalid-negative-entry")))
    throw_if
        (not_after (settings.engine.date entry.expires_at) (some time)
          || not (is_compatible_with_context entry context))
        (Stop.verdict (invalidate (some entry) (text "expired-or-incompatible")))
    ok reason

  -- From the time to the reason: whether the storage can be read, and the time, if it is one.
  unfoldable pub judge_negative :
      CacheRuntime
      → CacheCompatibilityContext
      → Bool
      → Option ℕ
      → Result Stop (CacheEntry × OutcomeReason)
  judge_negative c context readable now = do
    time ← or_stop (Stop.verdict (invalidate none (text "invalid-time"))) now
    throw_if (not readable) (Stop.verdict (quarantine none (text "invalid-storage")))
    entry ← inspected settings (inspect c.store CacheNamespace.negative context.cache_key)
    reason ← judge_outcome c context time entry
    ok (entry, reason)

  -- The end of a lookup. No step of it throws.
  abbrev pub finish_negative :
      EventCall
      → Text
      → Result Stop (CacheEntry × OutcomeReason)
      → CacheRuntime
      → CacheRuntime × Option NegativeCacheLookup
  finish_negative call key (ok (entry, reason)) c =
      answering settings (NegativeCacheLookup.negative_hit entry reason.code) (
        append_cache_action settings call CacheAction.negative_hit key CacheNamespace.negative
          (some entry) (some reason.code) c)
  finish_negative call key (err Stop.thrown) c = (c, none)
  finish_negative call key (err (Stop.verdict v)) c =
      answering settings (negative_answer_of v.action)
        (append_cache_action settings call v.action key CacheNamespace.negative v.entry v.reason c)

  -- `lookupNegative`: the runtime after it, and the answer unless it throws.
  unfoldable pub lookup_negative :
      CacheCompatibilityContext
      → Bool
      → Option ℕ
      → EventCall
      → EventCall
      → CacheRuntime
      → CacheRuntime × Option NegativeCacheLookup
  lookup_negative context readable now first second c =
      and_then settings
        (λ d. finish_negative second context.cache_key (judge_negative d context readable now) d)
        (append_cache_action settings first CacheAction.lookup context.cache_key
          CacheNamespace.negative none none c)

  -- `Date.parse(expires_at) - Date.parse(created_at) > ttlMs`, false where one is no date.
  abbrev pub exceeds_ttl : ℕ → Option ℕ → Option ℕ → Bool
  exceeds_ttl ttl (some created) (some expires) = not (leb expires (created + ttl))
  exceeds_ttl ttl _ _ = false

  -- The ceiling is set, and the entry stays within it.
  abbrev pub within_ttl : Option ℕ → CacheEntry → Bool
  within_ttl none entry = false
  within_ttl (some ttl) entry =
      is_safe ttl
      && leb 1 ttl
      && not (
          exceeds_ttl ttl (settings.engine.date entry.created_at)
            (settings.engine.date entry.expires_at))

  abbrev pub is_outage : OutcomeReason → Bool
  is_outage reason =
      reason.code == text "provider-outage" || reason.code == text "provider-unavailable"

  abbrev pub is_active : CacheState → Bool
  is_active state = same_state state CacheState.pending || same_state state CacheState.unverified

  -- The source and the target of a negative outcome.
  unfoldable pub check_outcome :
      CacheEntry → CacheEntry → CacheRuntime → Result Refusal OutcomeReason
  check_outcome parent entry c = do
    throw_if
        (not (is_head (inspect c.store parent.namespace parent.cache_key) parent)
          || not (is_active parent.state))
        Refusal.not_head
    throw_if
        (not (same_state entry.state CacheState.negative)
          || not (same_namespace entry.namespace CacheNamespace.negative))
        Refusal.state
    reason ← or_refuse Refusal.state entry.outcome_reason
    throw_if (not (is_derived_from parent entry)) Refusal.provenance
    throw_if (not (allowed_transition (some parent.state) entry.state)) Refusal.transition
    throw_if (not (same_metadata parent.metadata entry.metadata)) Refusal.changed
    throw_if (not (may_persist settings entry)) Refusal.data_policy
    throw_if (not (no_terminal_sibling settings c entry CacheNamespace.verified_artifact))
        Refusal.conflict
    ok reason

  -- The policy on negative outcomes.
  unfoldable pub check_reason :
      Option NegativeCachePolicy
      → OutcomeReason
      → CacheEntry
      → CacheRuntime
      → Result Refusal (Unit {0})
  check_reason policy reason entry c = do
    p ← or_refuse Refusal.unconfigured policy
    throw_if (not (within_ttl p.ttl_ms entry)) Refusal.incompatible
    throw_if (is_outage reason) Refusal.rejected
    throw_if (reason.transient && not (includes reason.code p.allowed_transient_reason_codes))
        Refusal.rejected
    throw_if (not (is_empty_inspection (inspect c.store entry.namespace entry.cache_key)))
        Refusal.lineage_exists

  unfoldable pub check_negative :
      Option NegativeCachePolicy
      → CacheEntry
      → CacheEntry
      → CacheRuntime
      → Result Refusal (Unit {0})
  check_negative policy parent entry c = do
    reason ← check_outcome parent entry c
    check_reason policy reason entry c

  unfoldable pub store_negative :
      PersistCall
      → Option NegativeCachePolicy
      → CacheEntry
      → CacheEntry
      → CacheRuntime
      → CacheRuntime × Bool
  store_negative call policy parent entry c =
      persist_checked settings (check_negative policy parent entry c) call entry c
