-- ===== src/Cache/Publish.antt =====
-- cache-runtime.ts: `begin`, `storeUnverified`, `publishVerified` and `persistEntry`. An entry that a call
-- is given is what `finalizeCacheEntry` returns for its input, and a source what `parseCacheEntry`
-- returns. A revision is named by its hash, so one that is already there is the same.
pub mod Published
use ikimetr.Prelude.{
  ℕ, Bool, true, false, ◌&&◌, ◌||◌, not, Option, none, some, List, [], ◌∷◌, any, nat_eq,
  if◌then◌else◌, Eq, ◌==◌, Text, text_Eq, Result, ok, err, ◌>>=◌, ◌>>◌, throw_if, map_err,
}
use ikimetr.Prelude.Dict.{lookup}
use ikimetr.Config.{DataClass, ConfigSnapshot, data_class_Eq}
use ikimetr.LedgerEvents.{CacheAction, CacheNamespace, CacheState, CacheEvent, LedgerEvent}
use ikimetr.Budget.Controller.{AppendOutcome, ledger_append}
use ikimetr.Cache.Evidence.{VerificationEvidence, EvidenceContext, validate_verification_evidence}
use ikimetr.Cache.Entry.{
  ResultKind, CachePayload, OutcomeReason, CacheEntry, same_namespace, same_state, same_optional,
  same_metadata, allowed_transition,
}
use ikimetr.Cache.Entry.Semantics.{is_given, is_authority}
use ikimetr.Cache.Lineage.{Inspection, inspect, is_child_of}
use ikimetr.Cache.Runtime.{
  enabled_command_ids, VerificationAuthority, RuntimeSettings, CacheRuntime, EventCall,
  is_empty_inspection, is_write_of, no_terminal_sibling, persistent_codec, after_append,
}

-- Why a call throws before it writes.
pub data Refusal : Type 0 where
  unconfigured data_policy state lineage_exists not_head provenance transition changed : Refusal
  conflict no_evidence invalid_evidence authority_failed rejected incompatible : Refusal

abbrev pub result_kind_index : ResultKind → ℕ
result_kind_index ResultKind.structured_result = 0
result_kind_index ResultKind.patch = 1
result_kind_index ResultKind.diagnostic = 2

abbrev pub same_kind : ResultKind → ResultKind → Bool
same_kind a b = nat_eq (result_kind_index a) (result_kind_index b)

abbrev pub same_payload : Option CachePayload → Option CachePayload → Bool
same_payload none none = true
same_payload (some (CachePayload.clear k v h)) (some (CachePayload.clear j w i)) =
    same_kind k j && v == w && h == i
same_payload (some (CachePayload.sealed k c v h)) (some (CachePayload.sealed j d w i)) =
    same_kind k j && c == d && v == w && h == i
same_payload _ _ = false

-- `assertDerivedFrom` does not throw.
unfoldable pub is_derived_from : CacheEntry → CacheEntry → Bool
is_derived_from parent child =
    same_optional child.parent_entry_hash (some parent.entry_hash)
    && child.provenance.lineage_id == parent.provenance.lineage_id
    && same_optional child.provenance.source_cache_key (some parent.cache_key)
    && same_optional child.provenance.source_entry_hash (some parent.entry_hash)

-- `assertPublishedFrom` does not throw.
abbrev pub is_published_from : CacheEntry → CacheEntry → Bool
is_published_from parent child =
    is_derived_from parent child && is_authority child.provenance.producer_kind

-- `assertCompatibleEntries` does not throw.
unfoldable pub are_compatible_entries : CacheEntry → CacheEntry → Bool
are_compatible_entries parent child =
    same_metadata parent.metadata child.metadata
    && same_optional parent.result_hash child.result_hash
    && same_payload parent.payload child.payload

-- The head that was inspected is the source.
abbrev pub is_head : Inspection → CacheEntry → Bool
is_head (Inspection.ready head) source = head.entry_hash == source.entry_hash
is_head _ source = false

abbrev pub is_revision : CacheEntry → CacheEntry → Bool
is_revision entry other =
    same_namespace other.namespace entry.namespace
    && other.cache_key == entry.cache_key
    && other.entry_hash == entry.entry_hash

-- The storage after an append of a revision.
unfoldable pub store_entry : CacheEntry → List CacheEntry → List CacheEntry
store_entry entry store = if any (is_revision entry) store then store else entry ∷ store

abbrev pub reason_code_of : Option OutcomeReason → Option Text
reason_code_of none = none
reason_code_of (some r) = some r.code

abbrev pub write_event : Text → CacheEntry → CacheEvent
write_event now entry = record {
  event_id = entry.provenance.write_event_id;
  occurred_at = now;
  cache_key = entry.cache_key;
  action = CacheAction.write;
  namespace = some entry.namespace;
  entry_hash = some entry.entry_hash;
  state = some entry.state;
  result_hash = entry.result_hash;
  reason_code = reason_code_of entry.outcome_reason;
}

-- The known event is the one that the write would append.
abbrev pub is_same_write : Text → CacheEntry → CacheEvent → Bool
is_same_write now entry existing =
    is_write_of entry existing
    && existing.occurred_at == now
    && same_optional existing.reason_code (reason_code_of entry.outcome_reason)

abbrev pub or_refuse {ℓ} : {A : Type ℓ} → Refusal → Option A → Result Refusal A
or_refuse refusal none = err refusal
or_refuse refusal (some a) = ok a

-- How the writes of a call end: that of the revision, that of the event, and the time of the event.
pub record PersistCall : Type 0 where
  pub revision : AppendOutcome
  pub event : AppendOutcome
  pub now : Text

module _ (settings : RuntimeSettings) where
  -- `assertPersistentDataPolicy` does not throw.
  abbrev pub may_persist : CacheEntry → Bool
  may_persist entry = elim (entry.metadata.data_class == DataClass.sensitive) [
    | false ↦ true
    | true ↦ is_given (persistent_codec settings entry)
  ]

  -- The event of a write.
  abbrev pub record_write :
      PersistCall → CacheEntry → Option CacheEvent → CacheRuntime → CacheRuntime × Bool
  record_write call entry (some existing) c = (c, is_same_write call.now entry existing)
  record_write call entry none c =
      let event = write_event call.now entry in
      after_append settings event c
        (ledger_append settings.schema call.event (LedgerEvent.cache event) c.ledger)

  abbrev pub with_entry : CacheEntry → CacheRuntime → CacheRuntime
  with_entry entry c = record c { store = store_entry entry c.store }

  abbrev pub persist_after :
      AppendOutcome → PersistCall → CacheEntry → CacheRuntime → CacheRuntime × Bool
  persist_after AppendOutcome.lost call entry c = (c, false)
  persist_after AppendOutcome.unacknowledged call entry c = (with_entry entry c, false)
  persist_after AppendOutcome.appended call entry c =
      record_write call entry (lookup entry.provenance.write_event_id c.cache_events)
        (with_entry entry c)

  -- `persistEntry`: the runtime, and whether the call returned.
  unfoldable pub persist_entry : PersistCall → CacheEntry → CacheRuntime → CacheRuntime × Bool
  persist_entry call entry c = persist_after call.revision call entry c

  abbrev pub persist_checked :
      Result Refusal (Unit {0}) → PersistCall → CacheEntry → CacheRuntime → CacheRuntime × Bool
  persist_checked (err refusal) call entry c = (c, false)
  persist_checked (ok u) call entry c = persist_entry call entry c

  unfoldable pub check_begin : CacheEntry → CacheRuntime → Result Refusal (Unit {0})
  check_begin entry c = do
    throw_if (not (may_persist entry)) Refusal.data_policy
    throw_if (not (same_state entry.state CacheState.pending)) Refusal.state
    throw_if (not (is_empty_inspection (inspect c.store entry.namespace entry.cache_key)))
        Refusal.lineage_exists
    throw_if (not (allowed_transition none entry.state)) Refusal.transition

  unfoldable pub begin : PersistCall → CacheEntry → CacheRuntime → CacheRuntime × Bool
  begin call entry c = persist_checked (check_begin entry c) call entry c

  unfoldable pub check_unverified :
      CacheEntry → CacheEntry → CacheRuntime → Result Refusal (Unit {0})
  check_unverified parent entry c = do
    throw_if (not (may_persist entry)) Refusal.data_policy
    throw_if (not (same_state entry.state CacheState.unverified)) Refusal.state
    throw_if (not (is_head (inspect c.store parent.namespace parent.cache_key) parent))
        Refusal.not_head
    throw_if (not (is_child_of parent entry)) Refusal.provenance
    throw_if (not (no_terminal_sibling settings c entry CacheNamespace.negative)) Refusal.conflict
    throw_if (not (allowed_transition (some parent.state) entry.state)) Refusal.transition

  unfoldable pub store_unverified :
      PersistCall → CacheEntry → CacheEntry → CacheRuntime → CacheRuntime × Bool
  store_unverified call parent entry c =
      persist_checked (check_unverified parent entry c) call entry c

  abbrev pub publish_context : ConfigSnapshot → VerificationAuthority → EvidenceContext
  publish_context config authority = record {
    allowed_command_ids = enabled_command_ids settings.commands;
    expected_profile_hash = config.verification_hash;
    authority_id = authority.authority_id;
    authority_version = authority.authority_version;
  }

  -- The source and the target of a publication.
  unfoldable pub check_lineage : CacheEntry → CacheEntry → CacheRuntime → Result Refusal (Unit {0})
  check_lineage parent entry c = do
    throw_if
        (not (is_head (inspect c.store parent.namespace parent.cache_key) parent)
          || not (same_state parent.state CacheState.unverified))
        Refusal.not_head
    throw_if (not (may_persist entry)) Refusal.data_policy
    throw_if
        (not (same_state entry.state CacheState.verified)
          || not (same_namespace entry.namespace CacheNamespace.verified_artifact))
        Refusal.state
    throw_if (not (is_published_from parent entry)) Refusal.provenance
    throw_if (not (allowed_transition (some parent.state) entry.state)) Refusal.transition
    throw_if (not (are_compatible_entries parent entry)) Refusal.changed
    throw_if (not (no_terminal_sibling settings c entry CacheNamespace.negative)) Refusal.conflict

  -- The evidence of a publication, and the configuration.
  unfoldable pub check_trust :
      VerificationAuthority → ConfigSnapshot → CacheEntry → CacheRuntime → Result Refusal (Unit {0})
  check_trust authority config entry c = do
    evidence ← or_refuse Refusal.no_evidence entry.verification_evidence
    checked ←
        map_err (λ _. Refusal.invalid_evidence)
          (validate_verification_evidence settings.engine evidence
            (publish_context config authority))
    allowed ← or_refuse Refusal.authority_failed (authority.authorize checked)
    throw_if (not allowed) Refusal.rejected
    throw_if
        (not (entry.metadata.config_hash == config.config_hash)
          || not (entry.metadata.verification_profile_hash == config.verification_hash))
        Refusal.incompatible
    throw_if (not (is_empty_inspection (inspect c.store entry.namespace entry.cache_key)))
        Refusal.lineage_exists

  unfoldable pub check_publish : CacheEntry → CacheEntry → CacheRuntime → Result Refusal (Unit {0})
  check_publish parent entry c = do
    authority ← or_refuse Refusal.unconfigured settings.authority
    config ← or_refuse Refusal.unconfigured settings.config
    check_lineage parent entry c
    check_trust authority config entry c

  unfoldable pub publish_verified :
      PersistCall → CacheEntry → CacheEntry → CacheRuntime → CacheRuntime × Bool
  publish_verified call parent entry c = persist_checked (check_publish parent entry c) call entry c
