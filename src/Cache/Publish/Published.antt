-- ===== src/Cache/Publish/Published.antt =====
-- cache-runtime.ts: what a publication rests on, and what it leaves.
use ikimetr.Prelude.{
  ◌≡◌, refl, arith, Bool, true, false, Option, none, some, List, Text, text_Eq, text_eq_refl,
}
use ikimetr.Prelude.Dict.{lookup, lookup-insert}
use ikimetr.Config.{ConfigSnapshot}
use ikimetr.LedgerEvents.{CacheNamespace, CacheState, CacheEvent, LedgerEvent}
use ikimetr.Budget.Controller.{AppendOutcome}
use ikimetr.Cache.Entry.{CacheEntry, same_state, same_optional}
use ikimetr.Cache.Lineage.{Inspection, inspect}
use ikimetr.Cache.Runtime.{
  VerificationAuthority, RuntimeSettings, CacheRuntime, is_write_of, has_matching_write_event,
  after_append,
}
use ikimetr.Cache.Lookup.Usable.{Trusted}
use ikimetr.Cache.Entry.{ProducerKind}
use ikimetr.Cache.Entry.Semantics.{is_authority}
use ikimetr.Cache.Entry.Same.{SameMetadata, same_namespace_refl}
use ikimetr.Cache.Runtime.Facts.{NoEntry}
use ikimetr.Cache.Publish.{
  same_payload, PersistCall, is_head, write_event, record_write, with_entry, persist_after,
  persist_entry,
}

-- The source of a publication and its target, before it.
pub record Derived (settings : RuntimeSettings) (c : CacheRuntime) (parent entry : CacheEntry)
    : Type 0 where
  pub head : CacheEntry
  pub is_head : inspect c.store parent.namespace parent.cache_key ≡ Inspection.ready head
  pub same_head : head.entry_hash ≡ parent.entry_hash
  pub unverified : parent.state ≡ CacheState.unverified
  pub verified : entry.state ≡ CacheState.verified
  pub artifact : entry.namespace ≡ CacheNamespace.verified_artifact
  pub parent_hash : entry.parent_entry_hash ≡ some parent.entry_hash
  pub lineage : entry.provenance.lineage_id ≡ parent.provenance.lineage_id
  pub source_key : entry.provenance.source_cache_key ≡ some parent.cache_key
  pub source_hash : entry.provenance.source_entry_hash ≡ some parent.entry_hash
  pub producer : entry.provenance.producer_kind ≡ ProducerKind.verification_authority
  pub same_metadata : SameMetadata parent.metadata entry.metadata
  pub same_result : parent.result_hash ≡ entry.result_hash
  pub same_payload : parent.payload ≡ entry.payload
  pub no_negative :
      NoEntry c.store CacheNamespace.negative
        (settings.derive_key CacheNamespace.negative entry.metadata)

-- What a publication rests on.
pub record Vouched (settings : RuntimeSettings) (c : CacheRuntime) (entry : CacheEntry)
    : Type 0 where
  pub fresh : NoEntry c.store entry.namespace entry.cache_key
  pub config : ConfigSnapshot
  pub is_config : settings.config ≡ some config
  pub same_config : entry.metadata.config_hash ≡ config.config_hash
  pub same_profile : entry.metadata.verification_profile_hash ≡ config.verification_hash
  pub authority : VerificationAuthority
  pub is_authority : settings.authority ≡ some authority
  pub trusted : Trusted settings config authority entry

same_state_refl : (s : CacheState) → same_state s s ≡ true
same_state_refl CacheState.pending = refl
same_state_refl CacheState.unverified = refl
same_state_refl CacheState.verified = refl
same_state_refl CacheState.negative = refl
same_state_refl CacheState.quarantined = refl

same_optional_refl : (t : Option Text) → same_optional t t ≡ true
same_optional_refl none = refl
same_optional_refl (some t) = text_eq_refl t

-- The event of a write matches its entry.
write_event-matches :
    (now : Text) (entry : CacheEntry) → is_write_of entry (write_event now entry) ≡ true
unfolding is_write_of
write_event-matches now entry =
    rw
      (
        text_eq_refl entry.cache_key,
        same_namespace_refl entry.namespace,
        text_eq_refl entry.entry_hash,
        same_state_refl entry.state,
        same_optional_refl entry.result_hash,
      )
      refl

module _ (settings : RuntimeSettings) where
  after_append-audited :
      (now : Text) (entry : CacheEntry) (c : CacheRuntime) (q : List LedgerEvent × Bool)
      → (after_append settings (write_event now entry) c q).1 ≡ true
      → has_matching_write_event (after_append settings (write_event now entry) c q).0 entry ≡ true
  unfolding has_matching_write_event
  after_append-audited now entry c (file, false) h = cc
  after_append-audited now entry c (file, true) h =
      let id = entry.provenance.write_event_id in
      rw (lookup-insert id id (write_event now entry) c.cache_events, text_eq_refl id)
        (write_event-matches now entry)

  record_write-audited :
      (call : PersistCall) (entry : CacheEntry) (o : Option CacheEvent) (c : CacheRuntime)
      → lookup entry.provenance.write_event_id c.cache_events ≡ o
      → (record_write settings call entry o c).1 ≡ true
      → has_matching_write_event (record_write settings call entry o c).0 entry ≡ true
  unfolding has_matching_write_event
  record_write-audited call entry none c known h = after_append-audited call.now entry c _ h
  record_write-audited call entry (some existing) c known h = rw (known) (ground arith)

  -- An entry whose write returned is audited.
  pub persist_entry-audited :
      (call : PersistCall) (entry : CacheEntry) (c : CacheRuntime)
      → (persist_entry settings call entry c).1 ≡ true
      → has_matching_write_event (persist_entry settings call entry c).0 entry ≡ true
  unfolding persist_entry
  persist_entry-audited call entry c h = persisted call.revision h
    where
      persisted :
          (o : AppendOutcome)
          → (persist_after settings o call entry c).1 ≡ true
          → has_matching_write_event (persist_after settings o call entry c).0 entry ≡ true
      persisted AppendOutcome.lost e = cc
      persisted AppendOutcome.unacknowledged e = cc
      persisted AppendOutcome.appended e =
          record_write-audited call entry _ (with_entry settings entry c) refl e
