-- ===== src/Cache/Runtime.antt =====
-- cache-runtime.ts: the state of a cache runtime, and what its calls share. The hash of a cache key is a
-- field, as are the answers of the authority and of the codec that opens a sealed payload.
pub mod Facts
use ikimetr.Prelude.{
  map, keep, Bool, true, false, ◌&&◌, ◌||◌, not, Option, none, some, List, ◌++◌, ◌==◌, Text, text,
  text_Eq,
}
use ikimetr.Prelude.Dict.{Dict, lookup, insert}
use ikimetr.Config.{DataClass, ConfigSnapshot, data_class_Eq}
use ikimetr.LedgerEvents.{
  ApprovalDecision, CacheAction, CacheNamespace, CacheState, CacheEvent, LedgerEvent, Schema,
}
use ikimetr.Budget.Controller.{AppendOutcome, ledger_append}
use ikimetr.Cache.Evidence.{Engine, VerificationEvidence}
use ikimetr.Cache.Entry.{
  InputProtection, CacheMetadata, CachePayload, CacheEntry, same_namespace, same_state,
  same_protection, same_optional,
}
use ikimetr.Cache.Lineage.{Inspection, inspect}

-- The authority of a runtime. `authorize` may throw, as `none`.
pub record VerificationAuthority : Type 0 where
  pub authority_id : Text
  pub authority_version : Text
  pub authorize : VerificationEvidence → Option Bool

-- The fields of a runtime that no call changes. `derive_key` is `deriveCacheKeyForEntry`, a hash of the
-- metadata; `commands` are the commands of the configuration, with whether each is enabled; `open_sealed` is
-- `openSealedCachePayload`, `none` when it throws, where codec, HMAC and ceiling are configured.
pub record RuntimeSettings : Type 0 where
  pub engine : Engine
  pub schema : Schema
  pub derive_key : CacheNamespace → CacheMetadata → Text
  pub config : Option ConfigSnapshot
  pub commands : List (Text × Bool)
  pub authority : Option VerificationAuthority
  pub open_sealed : Option (CachePayload → Option Text)
  pub approvals : Dict Text ApprovalDecision

-- `enabledCommandIds`
unfoldable pub enabled_command_ids : List (Text × Bool) → List Text
enabled_command_ids commands =
    map (λ (c : Text × Bool). c.0) (keep (λ (c : Text × Bool). c.1) commands)

-- What the calls change: the entries in the storage, the ledger file, and the events known by name.
pub record CacheRuntime : Type 0 where
  pub store : List CacheEntry
  pub ledger : List LedgerEvent
  pub cache_events : Dict Text CacheEvent

-- How one append of an event ends: the name and the time of the event, and the write.
pub record EventCall : Type 0 where
  pub event_id : Text
  pub now : Text
  pub outcome : AppendOutcome

abbrev pub is_empty_inspection : Inspection → Bool
is_empty_inspection Inspection.empty = true
is_empty_inspection _ = false

abbrev pub is_write : CacheAction → Bool
is_write CacheAction.write = true
is_write _ = false

abbrev pub is_state : Option CacheState → CacheState → Bool
is_state none s = false
is_state (some t) s = same_state t s

abbrev pub is_namespace : Option CacheNamespace → CacheNamespace → Bool
is_namespace none n = false
is_namespace (some m) n = same_namespace m n

-- The conditions of `hasMatchingWriteEvent` on the event that it finds.
unfoldable pub is_write_of : CacheEntry → CacheEvent → Bool
is_write_of entry event =
    is_write event.action
    && event.cache_key == entry.cache_key
    && is_namespace event.namespace entry.namespace
    && same_optional event.entry_hash (some entry.entry_hash)
    && is_state event.state entry.state
    && same_optional event.result_hash entry.result_hash

abbrev pub matches_write : Option CacheEvent → CacheEntry → Bool
matches_write none entry = false
matches_write (some event) entry = is_write_of entry event

unfoldable pub has_matching_write_event : CacheRuntime → CacheEntry → Bool
has_matching_write_event c entry =
    matches_write (lookup entry.provenance.write_event_id c.cache_events) entry

module _ (settings : RuntimeSettings) where
  -- `assertNoTerminalSibling` does not throw. Where the sibling cannot be read, the calls go on as
  -- where there is one.
  unfoldable pub no_terminal_sibling : CacheRuntime → CacheEntry → CacheNamespace → Bool
  no_terminal_sibling c entry namespace =
      is_empty_inspection (inspect c.store namespace (settings.derive_key namespace entry.metadata))

  abbrev pub is_approved : Option ApprovalDecision → Bool
  is_approved (some ApprovalDecision.approved) = true
  is_approved _ = false

  -- `assertPersistentDataPolicy` gives the codec or throws; it is called for sealed payloads.
  unfoldable pub persistent_codec : CacheEntry → Option (CachePayload → Option Text)
  persistent_codec entry =
      elim (entry.metadata.data_class == DataClass.sensitive
        && (not (same_protection entry.metadata.input_protection InputProtection.hmac_sha256)
            || not entry.sensitive_persistence_approved
            || not (
                is_approved (
                  lookup (entry.metadata.task_id ++ text ":sensitive-cache")
                    settings.approvals)))) [ true ↦ none | false ↦ settings.open_sealed ]

  abbrev pub entry_hash_of : Option CacheEntry → Option Text
  entry_hash_of none = none
  entry_hash_of (some e) = some e.entry_hash

  abbrev pub state_of : Option CacheEntry → Option CacheState
  state_of none = none
  state_of (some e) = some e.state

  abbrev pub result_hash_of : Option CacheEntry → Option Text
  result_hash_of none = none
  result_hash_of (some e) = e.result_hash

  abbrev pub action_event :
      EventCall → CacheAction → Text → CacheNamespace → Option CacheEntry → Option Text → CacheEvent
  action_event call action key namespace entry reason = record {
    event_id = call.event_id;
    occurred_at = call.now;
    cache_key = key;
    action = action;
    namespace = some namespace;
    entry_hash = entry_hash_of entry;
    state = state_of entry;
    result_hash = result_hash_of entry;
    reason_code = reason;
  }

  -- After the append: the runtime, and whether the call returned.
  abbrev pub after_append :
      CacheEvent → CacheRuntime → List LedgerEvent × Bool → CacheRuntime × Bool
  after_append event c (file, true) =
      (record c { ledger = file; cache_events = insert event.event_id event c.cache_events }, true)
  after_append event c (file, false) = (record c { ledger = file }, false)

  -- `appendCacheAction`
  unfoldable pub append_cache_action :
      EventCall
      → CacheAction
      → Text
      → CacheNamespace
      → Option CacheEntry
      → Option Text
      → CacheRuntime
      → CacheRuntime × Bool
  append_cache_action call action key namespace entry reason c =
      let event = action_event call action key namespace entry reason in
      after_append event c
        (ledger_append settings.schema call.outcome (LedgerEvent.cache event) c.ledger)
