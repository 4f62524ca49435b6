-- ===== src/Routing/Codes.antt =====
-- routing-contracts.ts: the enumerations of a routing decision.
pub data Decision : Type 0 where
  cache deterministic local cheap_cloud strong approval_required stop : Decision

pub data DecisionRoute : Type 0 where
  cache deterministic local cheap_cloud strong : DecisionRoute

pub data ReasonCode : Type 0 where
  cache_hit cache_miss cache_invalidated cache_quarantined cache_unavailable : ReasonCode
  secret_data_denied deterministic_capability deterministic_unresolved : ReasonCode
  route_allowed route_not_allowed max_route_exceeded : ReasonCode
  provider_disabled provider_healthy provider_degraded provider_unavailable : ReasonCode
  provider_health_unknown data_class_denied risk_class_denied capability_denied : ReasonCode
  data_policy_allowed pricing_known pricing_stale pricing_unknown : ReasonCode
  budget_allowed budget_denied budget_not_configured : ReasonCode
  approval_not_required approval_required approval_granted approval_denied : ReasonCode
  local_unavailable local_insufficient cheap_unavailable cheap_insufficient : ReasonCode
  strong_unavailable no_provider_available repeated_request config_invalid : ReasonCode
  ledger_invalid policy_contradiction route_selected audit_append_failed : ReasonCode
  local_task_not_allowed : ReasonCode

pub data CacheStatus : Type 0 where
  hit miss invalidated quarantined skipped error : CacheStatus

pub data BudgetStatus : Type 0 where
  not_applicable allowed denied not_configured error : BudgetStatus

pub data PricingCheck : Type 0 where
  not_applicable known stale unknown error : PricingCheck

pub data DataPolicyStatus : Type 0 where
  allowed denied : DataPolicyStatus

pub data ApprovalStatus : Type 0 where
  not_required approved required denied : ApprovalStatus

pub data ApprovalScope : Type 0 where
  cheap_cloud strong sensitive_cloud secondary_claude budget_override retry_override
        provider_override :
      ApprovalScope
