-- ===== src/Config.antt =====
-- The validated configuration snapshot that the cost system reads: the enumerations and the shape
-- of packages/ai-cost-system/src/schemas.ts, and `ConfigSnapshot` of snapshot.ts.
mod Enums
unfoldable pub use Enums.*
use ikimetr.Prelude.{ℕ, Bool, Option, List, Text}
use ikimetr.Money.{Money}

pub record ProviderConfig : Type 0 where
  pub enabled : Bool
  pub model : Option Text
  pub invocation_mode : InvocationMode
  pub allowed_data_classes : List DataClass
  pub allowed_risk_classes : List RiskClass
  pub allowed_capabilities : List CapabilityId
  pub max_input_tokens : Option ℕ
  pub max_output_tokens : Option ℕ
  pub max_calls_per_task : Option ℕ
  pub max_cost_per_task : Option Money
  pub timeout_ms : Option ℕ
  pub max_retries : Option ℕ

pub record RouteConfig : Type 0 where
  pub providers : List ProviderId
  pub approval_required : Bool

-- `scopedBudgetSchema`
pub record UsageLimits : Type 0 where
  pub max_input_tokens : Option ℕ
  pub max_output_tokens : Option ℕ
  pub max_calls : Option ℕ
  pub max_cost : Option Money

-- `budgetsSchema.limits`, with its one-field objects flattened
pub record BudgetLimits : Type 0 where
  pub per_task : UsageLimits
  pub provider_task : UsageLimits
  pub cloud_calls_task : Option ℕ
  pub provider_day : UsageLimits
  pub cloud_day : UsageLimits
  pub provider_month : UsageLimits
  pub cloud_month : UsageLimits
  pub max_retries_per_task : Option ℕ
  pub max_retries_per_provider_task : Option ℕ
  pub local_wall_time : Option ℕ

pub record PricingSnapshot : Type 0 where
  pub provider : ProviderId
  pub model : Option Text
  pub currency : Option Text
  pub input_rate : Option ℕ
  pub output_rate : Option ℕ
  pub cache_read_rate : Option ℕ
  pub cache_write_rate : Option ℕ
  pub status : PricingStatus

pub record ConfigSnapshot : Type 0 where
  pub config_hash : Text
  pub policy_version : Text
  pub verification_hash : Text
  pub routes : Route → RouteConfig
  pub providers : ProviderId → ProviderConfig
  pub budget_class : BudgetClass
  pub limits : BudgetLimits
  pub pricing_version : Text
  pub pricing_snapshots : List PricingSnapshot
