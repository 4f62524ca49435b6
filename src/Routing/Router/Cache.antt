-- ===== src/Routing/Router/Cache.antt =====
-- cost-router.ts: `evaluateCache`. What the cache runtime answers for a candidate stands beside it.
use ikimetr.Prelude.{
  ℕ, Bool, true, false, ◌&&◌, Option, none, some, List, [], ◌∷◌, ◌++◌, ◌==◌, Text, text_Eq,
  if◌then◌else◌,
}
use ikimetr.Config.{ProviderId, DataClass, ConfigSnapshot, data_class_Eq}
use ikimetr.LedgerEvents.{LedgerEvent}
use ikimetr.Routing.Codes.{
  Decision, DecisionRoute, ReasonCode, CacheStatus, BudgetStatus, PricingCheck, ApprovalStatus,
}
use ikimetr.Routing.Policy.{RequestDataClass, TaskRoutingRequest}
use ikimetr.Routing.Draft.{RoutingStage, TransitionOutcome, RoutingTransition, RoutingDecisionDraft}
use ikimetr.Routing.Router.{transition, denied, selected_draft, stop_draft}

-- `CacheCompatibilityContext`, without the fields that the router does not read.
pub record CacheCompatibilityContext : Type 0 where
  pub cache_key : Text
  pub task_id : Text
  pub task_type : Text
  pub policy_version : Text
  pub config_hash : Text
  pub verification_profile_hash : Text
  pub task_spec_hash : Text
  pub input_hashes : List Text
  pub diff_hash : Option Text
  pub error_fingerprint : Option Text
  pub data_class : DataClass

pub data VerifiedCacheLookup : Type 0 where
  hit : ProviderId → VerifiedCacheLookup
  miss invalidated quarantined : VerifiedCacheLookup

-- A candidate with the answer of `lookupVerified` for it, `none` when it throws, and the events that
-- the call appends to the ledger.
abbrev pub Candidate : Type 0
Candidate = CacheCompatibilityContext × Option VerifiedCacheLookup × List LedgerEvent

pub record RoutingRuntimeContext : Type 0 where
  pub cache_candidates : List Candidate
  pub estimated_input_tokens : ℕ
  pub retry : Bool

abbrev pub same_optional : Option Text → Option Text → Bool
same_optional none none = true
same_optional (some s) (some t) = s == t
same_optional _ _ = false

abbrev pub same_texts : List Text → List Text → Bool
same_texts [] [] = true
same_texts (s ∷ l) (t ∷ r) = s == t && same_texts l r
same_texts _ _ = false

abbrev pub same_class : DataClass → RequestDataClass → Bool
same_class c (RequestDataClass.allowable d) = c == d
same_class c RequestDataClass.secret = false

unfoldable pub is_cache_context_compatible :
    CacheCompatibilityContext → TaskRoutingRequest → ConfigSnapshot → Bool
is_cache_context_compatible context request config =
    context.task_id == request.task_id
    && context.task_type == request.task_type
    && context.task_spec_hash == request.task_spec_hash
    && same_texts context.input_hashes request.input_hashes
    && same_optional context.diff_hash request.current_diff_hash
    && same_optional context.error_fingerprint request.error_fingerprint
    && same_class context.data_class request.data_class
    && context.config_hash == config.config_hash
    && context.policy_version == config.policy_version
    && context.verification_profile_hash == config.verification_hash

pub data CacheOutcome : Type 0 where
  decided : RoutingDecisionDraft → CacheOutcome
  passed : CacheStatus → List RoutingTransition → CacheOutcome

abbrev pub cache_stop : ReasonCode → CacheStatus → List RoutingTransition → CacheOutcome
cache_stop reason status trace =
    CacheOutcome.decided (stop_draft reason status (trace ++ denied RoutingStage.cache reason ∷ []))

abbrev pub cache_reason : CacheStatus → ReasonCode
cache_reason CacheStatus.invalidated = ReasonCode.cache_invalidated
cache_reason _ = ReasonCode.cache_miss

abbrev pub hit_draft : ProviderId → List RoutingTransition → RoutingDecisionDraft
hit_draft provider trace =
    selected_draft Decision.cache DecisionRoute.cache (some provider) ReasonCode.cache_hit
      CacheStatus.hit BudgetStatus.not_applicable PricingCheck.not_applicable
      ApprovalStatus.not_required false
      (trace ++ transition RoutingStage.cache TransitionOutcome.selected ReasonCode.cache_hit ∷ [])

-- The loop of `evaluateCache`, from the cache status that it has reached.
unfoldable pub evaluate_cache :
    TaskRoutingRequest
    → ConfigSnapshot
    → List RoutingTransition
    → List Candidate
    → CacheStatus
    → CacheOutcome
evaluate_cache request config trace [] status =
    CacheOutcome.passed status
      (trace ++ transition RoutingStage.cache TransitionOutcome.continue (cache_reason status) ∷ [])
evaluate_cache request config trace ((context, answer, events) ∷ rest) status =
    elim (is_cache_context_compatible context request config) [
      | false ↦ cache_stop ReasonCode.policy_contradiction CacheStatus.invalidated trace
      | true ↦ elim answer [
        | none ↦ cache_stop ReasonCode.cache_unavailable CacheStatus.error trace
        | some found ↦ elim found [
          | VerifiedCacheLookup.hit provider ↦ CacheOutcome.decided (hit_draft provider trace)
          | VerifiedCacheLookup.quarantined ↦
              cache_stop ReasonCode.cache_quarantined CacheStatus.quarantined trace
          | VerifiedCacheLookup.invalidated ↦
              evaluate_cache request config trace rest CacheStatus.invalidated
          | VerifiedCacheLookup.miss ↦ evaluate_cache request config trace rest status
        ]
      ]
    ]

-- Whether the loop goes on after an answer.
abbrev pub goes_on : Option VerifiedCacheLookup → Bool
goes_on (some VerifiedCacheLookup.miss) = true
goes_on (some VerifiedCacheLookup.invalidated) = true
goes_on _ = false

-- What the lookups of the loop append to the ledger, up to the one that ends it.
unfoldable pub cache_events :
    TaskRoutingRequest → ConfigSnapshot → List Candidate → List LedgerEvent
cache_events request config [] = []
cache_events request config ((context, answer, events) ∷ rest) =
    let later = cache_events request config rest in
    if is_cache_context_compatible context request config
    then events ++ (if goes_on answer then later else [])
    else []
