-- ===== src/Cache/Entry.antt =====
-- cache-entry.ts and cache-runtime.ts: an entry of the cache, its states, and what makes two entries
-- compatible. A clear payload is its canonical text.
pub mod Semantics
pub mod Same
use ikimetr.Prelude.{
  ℕ, Bool, true, false, ◌&&◌, ◌||◌, not, Option, none, some, List, [], ◌∷◌, nat_eq, Eq, ◌==◌, Text,
  text_Eq,
}
use ikimetr.Prelude.Dict.{Dict}
use ikimetr.Config.{ProviderId, DataClass, Route, provider_id_Eq, data_class_Eq, route_Eq}
use ikimetr.LedgerEvents.{CacheNamespace, CacheState}
use ikimetr.Routing.State.{sort_record}
use ikimetr.Cache.Evidence.{VerificationEvidence}

pub data InputProtection : Type 0 where
  sha256 hmac_sha256 : InputProtection

-- The fields that an entry and a request for it share, the key aside.
pub record CacheMetadata : Type 0 where
  pub task_id : Text
  pub task_type : Text
  pub route : Route
  pub provider : ProviderId
  pub model_revision : Text
  pub prompt_version : Text
  pub policy_version : Text
  pub config_hash : Text
  pub verification_profile_hash : Text
  pub task_spec_hash : Text
  pub input_hashes : List Text
  pub diff_hash : Option Text
  pub error_fingerprint : Option Text
  pub data_class : DataClass
  pub input_protection : InputProtection
  pub data_policy_hash : Text
  pub tool_versions : Dict Text Text
  pub dependency_versions : Dict Text Text

-- `CacheCompatibilityContext`
pub record CacheCompatibilityContext : Type 0 where
  pub cache_key : Text
  pub metadata : CacheMetadata

pub data ResultKind : Type 0 where
  structured_result patch diagnostic : ResultKind

pub data CachePayload : Type 0 where
  clear : ResultKind → Text → Text → CachePayload
  sealed : ResultKind → Text → Text → Text → CachePayload

pub data ProducerKind : Type 0 where
  runtime provider verification_authority : ProducerKind

pub record Provenance : Type 0 where
  pub lineage_id : Text
  pub producer_kind : ProducerKind
  pub producer_id : Text
  pub source_cache_key : Option Text
  pub source_entry_hash : Option Text
  pub write_event_id : Text

pub record OutcomeReason : Type 0 where
  pub code : Text
  pub transient : Bool

pub record CacheEntry : Type 0 where
  pub entry_id : Text
  pub metadata : CacheMetadata
  pub parent_entry_hash : Option Text
  pub cache_key : Text
  pub namespace : CacheNamespace
  pub state : CacheState
  pub patch_hash : Option Text
  pub created_at : Text
  pub expires_at : Text
  pub provenance : Provenance
  pub sensitive_persistence_approved : Bool
  pub payload : Option CachePayload
  pub verification_evidence : Option VerificationEvidence
  pub outcome_reason : Option OutcomeReason
  pub entry_hash : Text
  pub result_hash : Option Text
  pub verification_evidence_hash : Option Text

abbrev pub namespace_index : CacheNamespace → ℕ
namespace_index CacheNamespace.provider_request = 0
namespace_index CacheNamespace.verified_artifact = 1
namespace_index CacheNamespace.negative = 2

abbrev pub same_namespace : CacheNamespace → CacheNamespace → Bool
same_namespace a b = nat_eq (namespace_index a) (namespace_index b)

abbrev pub state_index : CacheState → ℕ
state_index CacheState.pending = 0
state_index CacheState.unverified = 1
state_index CacheState.verified = 2
state_index CacheState.negative = 3
state_index CacheState.quarantined = 4

abbrev pub same_state : CacheState → CacheState → Bool
same_state a b = nat_eq (state_index a) (state_index b)

abbrev pub same_protection : InputProtection → InputProtection → Bool
same_protection InputProtection.sha256 InputProtection.sha256 = true
same_protection InputProtection.hmac_sha256 InputProtection.hmac_sha256 = true
same_protection _ _ = false

abbrev pub same_optional : Option Text → Option Text → Bool
same_optional none none = true
same_optional (some s) (some t) = s == t
same_optional _ _ = false

abbrev pub same_texts : List Text → List Text → Bool
same_texts [] [] = true
same_texts (s ∷ l) (t ∷ r) = s == t && same_texts l r
same_texts _ _ = false

abbrev pub same_pairs : Dict Text Text → Dict Text Text → Bool
same_pairs [] [] = true
same_pairs ((k, v) ∷ l) ((j, w) ∷ r) = k == j && v == w && same_pairs l r
same_pairs _ _ = false

-- Equal as canonical texts, which have the keys in order.
abbrev pub same_versions : Dict Text Text → Dict Text Text → Bool
same_versions a b = same_pairs (sort_record a) (sort_record b)

-- The loop over the fields, the key aside.
unfoldable pub same_metadata : CacheMetadata → CacheMetadata → Bool
same_metadata a b =
    a.task_id == b.task_id
    && a.task_type == b.task_type
    && a.route == b.route
    && a.provider == b.provider
    && a.model_revision == b.model_revision
    && a.prompt_version == b.prompt_version
    && a.policy_version == b.policy_version
    && a.config_hash == b.config_hash
    && a.verification_profile_hash == b.verification_profile_hash
    && a.task_spec_hash == b.task_spec_hash
    && same_texts a.input_hashes b.input_hashes
    && same_optional a.diff_hash b.diff_hash
    && same_optional a.error_fingerprint b.error_fingerprint
    && a.data_class == b.data_class
    && same_protection a.input_protection b.input_protection
    && a.data_policy_hash == b.data_policy_hash
    && same_versions a.tool_versions b.tool_versions
    && same_versions a.dependency_versions b.dependency_versions

-- `isCompatibleWithContext`
unfoldable pub is_compatible_with_context : CacheEntry → CacheCompatibilityContext → Bool
is_compatible_with_context entry context =
    entry.cache_key == context.cache_key && same_metadata entry.metadata context.metadata

-- `assertAllowedCacheTransition`
unfoldable pub allowed_transition : Option CacheState → CacheState → Bool
allowed_transition none to = same_state to CacheState.pending
allowed_transition (some CacheState.pending) to =
    same_state to CacheState.unverified
    || same_state to CacheState.negative
    || same_state to CacheState.quarantined
allowed_transition (some CacheState.unverified) to =
    same_state to CacheState.verified
    || same_state to CacheState.negative
    || same_state to CacheState.quarantined
allowed_transition (some CacheState.verified) to = same_state to CacheState.quarantined
allowed_transition (some CacheState.negative) to = same_state to CacheState.quarantined
allowed_transition (some CacheState.quarantined) to = false
