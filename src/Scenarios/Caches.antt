-- ===== src/Scenarios/Caches.antt =====
-- The theorems on the cache of results, applied to a cache that holds one verified entry.
use ikimetr.Prelude.{◌≡◌, ◌≢◌, refl, true, false, none, some, [], ◌∷◌, Text, text, text_Eq, text_eq}
use ikimetr.Config.{ProviderId, DataClass, Route, provider_id_Eq, data_class_Eq, route_Eq}
use ikimetr.LedgerEvents.{
  is_sha256_hex, ends_with_z, CacheAction, CacheNamespace, CacheState, CacheEvent,
}
use ikimetr.Budget.Controller.{AppendOutcome}
use ikimetr.Routing.State.{sort_record, insert_sorted, text_lt, insert_text, sort_texts}
use ikimetr.Cache.Evidence.{
  Engine, VerificationStage, VerificationEvidence, EvidenceContext, is_cache_identifier,
  is_cache_timestamp, valid_stage, valid_evidence, insert_stage, sort_stages,
  parse_verification_evidence, same_members, check_stages, validate_verification_evidence,
}
use ikimetr.Cache.Evidence.Passed.{Passed, validate_verification_evidence-Passed}
use ikimetr.Cache.Entry.{
  InputProtection, CacheMetadata, CacheCompatibilityContext, ResultKind, CachePayload, ProducerKind,
  CacheEntry, allowed_transition,
}
use ikimetr.Cache.Lineage.{Head, is_child_of, is_valid_child, find_entry, walk, resolve_unique_head}
use ikimetr.Cache.Lineage.Walk.{resolve_unique_head-ends}
use ikimetr.Cache.Runtime.{VerificationAuthority, RuntimeSettings, CacheRuntime, EventCall}
use ikimetr.Cache.Lookup.Reusable.{Reusable}
use ikimetr.Cache.Publish.{PersistCall}
use ikimetr.Cache.Negative.Recorded.{Recorded}
use ikimetr.Scenarios.{demo, demo_config, hash}

abbrev engine : Engine
engine = record { date = λ t. some 10; comes_before = λ s t. false; is_secret_like = λ t. false }

abbrev stage : VerificationStage
stage = record {
  stage_id = text "unit";
  command_id = text "test";
  exit_code = 0;
  evidence_hash = hash;
  tool_version = text "1";
  duration_ms = 20;
}

abbrev evidence : VerificationEvidence
evidence = record {
  required_stages = text "unit" ∷ [];
  completed_stages = text "unit" ∷ [];
  stages = stage ∷ [];
  authority_id = text "ci";
  authority_version = text "1";
  verification_profile_hash = hash;
  verified_at = text "2026-01-01T00:00:00Z";
}

abbrev expected : EvidenceContext
expected = record {
  allowed_command_ids = text "test" ∷ [];
  expected_profile_hash = hash;
  authority_id = text "ci";
  authority_version = text "1";
}

validate_verification_evidence-Passed_example : Passed expected evidence
unfolding validate_verification_evidence parse_verification_evidence valid_evidence valid_stage
    is_cache_identifier is_cache_timestamp is_sha256_hex ends_with_z sort_texts insert_text
    insert_sorted sort_record text_lt insert_stage sort_stages same_members check_stages text_eq
validate_verification_evidence-Passed_example =
    validate_verification_evidence-Passed engine evidence expected evidence refl

abbrev metadata : CacheMetadata
metadata = record {
  task_id = text "t1";
  task_type = text "classify";
  route = Route.cheap_cloud;
  provider = ProviderId.deepseek;
  model_revision = text "m1";
  prompt_version = text "1";
  policy_version = text "1";
  config_hash = hash;
  verification_profile_hash = hash;
  task_spec_hash = hash;
  input_hashes = hash ∷ [];
  diff_hash = none;
  error_fingerprint = none;
  data_class = DataClass.internal;
  input_protection = InputProtection.sha256;
  data_policy_hash = hash;
  tool_versions = (text "node", text "22") ∷ [];
  dependency_versions = [];
}

abbrev entry : CacheEntry
entry = record {
  entry_id = text "v1";
  metadata = metadata;
  parent_entry_hash = none;
  cache_key = hash;
  namespace = CacheNamespace.verified_artifact;
  state = CacheState.verified;
  patch_hash = none;
  created_at = text "2026-01-01T00:00:00Z";
  expires_at = text "2026-02-01T00:00:00Z";
  provenance = record {
    lineage_id = text "l1";
    producer_kind = ProducerKind.verification_authority;
    producer_id = text "ci";
    source_cache_key = none;
    source_entry_hash = none;
    write_event_id = text "w1";
  };
  sensitive_persistence_approved = false;
  payload = some (CachePayload.clear ResultKind.structured_result (text "42") hash);
  verification_evidence = some evidence;
  outcome_reason = none;
  entry_hash = hash;
  result_hash = some hash;
  verification_evidence_hash = some hash;
}

abbrev retired : CacheEntry
retired = record entry {
  entry_id = text "q1";
  parent_entry_hash = some hash;
  state = CacheState.quarantined;
  entry_hash = text "child";
  provenance = record entry.provenance {
    source_cache_key = some hash;
    source_entry_hash = some hash;
  };
}

-- A verified entry that has been withdrawn.
withdrawn_head :
    resolve_unique_head (entry ∷ retired ∷ []) CacheNamespace.verified_artifact
    ≡ Head.unique retired
unfolding resolve_unique_head walk is_valid_child is_child_of allowed_transition find_entry text_eq
withdrawn_head = refl

resolve_unique_head-ends_example :
    resolve_unique_head (entry ∷ retired ∷ []) CacheNamespace.verified_artifact ≢ Head.unfinished
resolve_unique_head-ends_example =
    resolve_unique_head-ends (entry ∷ retired ∷ []) CacheNamespace.verified_artifact

abbrev authority : VerificationAuthority
authority = record {
  authority_id = text "ci";
  authority_version = text "1";
  authorize = λ e. some true;
}

abbrev settings : RuntimeSettings
settings = record {
  engine = engine;
  schema = demo.schema;
  derive_key = λ namespace m. text "derived";
  config = some demo_config;
  commands = (text "lint", false) ∷ (text "test", true) ∷ [];
  authority = some authority;
  open_sealed = none;
  approvals = [];
}

abbrev written : CacheEvent
written = record {
  event_id = text "w1";
  occurred_at = text "2026-01-01T00:00:00Z";
  cache_key = hash;
  action = CacheAction.write;
  namespace = some CacheNamespace.verified_artifact;
  entry_hash = some hash;
  state = some CacheState.verified;
  result_hash = some hash;
  reason_code = none;
}

abbrev runtime : CacheRuntime
runtime = record { store = entry ∷ []; ledger = []; cache_events = (text "w1", written) ∷ [] }

abbrev request_for : CacheCompatibilityContext
request_for = record { cache_key = hash; metadata = metadata }

abbrev call : Text → EventCall
call name = record {
  event_id = name;
  now = text "2026-01-02T00:00:00Z";
  outcome = AppendOutcome.appended;
}

-- The entry of the request, and the unverified result that is its child.
abbrev opened : CacheEntry
opened = record entry {
  entry_id = text "p1";
  cache_key = text "requested";
  namespace = CacheNamespace.provider_request;
  state = CacheState.pending;
  payload = none;
  verification_evidence = none;
  entry_hash = text "pending";
  result_hash = none;
  verification_evidence_hash = none;
}

abbrev unverified : CacheEntry
unverified = record entry {
  entry_id = text "u1";
  parent_entry_hash = some (text "pending");
  cache_key = text "requested";
  namespace = CacheNamespace.provider_request;
  state = CacheState.unverified;
  provenance = record entry.provenance {
    producer_kind = ProducerKind.provider;
    source_cache_key = some (text "requested");
    source_entry_hash = some (text "pending");
    write_event_id = text "w0";
  };
  verification_evidence = none;
  entry_hash = text "unverified";
  verification_evidence_hash = none;
}

abbrev publication : CacheEntry
publication = record entry {
  parent_entry_hash = some (text "unverified");
  provenance = record entry.provenance {
    source_cache_key = some (text "requested");
    source_entry_hash = some (text "unverified");
  };
}

abbrev awaiting : CacheRuntime
awaiting = record { store = unverified ∷ opened ∷ []; ledger = []; cache_events = [] }

abbrev writes : PersistCall
writes = record {
  revision = AppendOutcome.appended;
  event = AppendOutcome.appended;
  now = text "2026-01-02T00:00:00Z";
}

abbrev failed : CacheEntry
failed = record entry {
  entry_id = text "n1";
  namespace = CacheNamespace.negative;
  state = CacheState.negative;
  payload = none;
  verification_evidence = none;
  outcome_reason = some (record { code = text "unsolvable"; transient = false });
  result_hash = none;
  verification_evidence_hash = none;
}

abbrev failure_known : CacheRuntime
failure_known = record {
  store = failed ∷ [];
  ledger = [];
  cache_events =
      (
        text "w1",
        record written {
          namespace = some CacheNamespace.negative;
          state = some CacheState.negative;
          result_hash = none;
        },
      )
      ∷ [];
}
