-- ===== src/Budget/Limits.antt =====
-- budget.ts: the limits that a candidate reservation is held against.
pub mod Within
pub mod Candidate
use ikimetr.Prelude.{
  ℕ, ◌+◌, Bool, true, false, ◌&&◌, ◌||◌, not, Option, none, some, List, [], ◌∷◌, ◌++◌, ltb, nat_eq,
  if◌then◌else◌, Eq, ◌==◌, any, Text, text_Eq, Result, ok, err, ◌>>=◌, ◌>>◌, throw_if, map_err,
}
use ikimetr.Prelude.Dict.{Dict, lookup}
use ikimetr.Config.{
  ProviderId, provider_id_Eq, provider_name, DataClass, data_class_Eq, Route, route_Eq,
  InvocationMode, BudgetClass, ProviderConfig, UsageLimits, BudgetLimits, ConfigSnapshot,
}
use ikimetr.Money.{Money}
use ikimetr.LedgerEvents.{BudgetReservation, LedgerError}
use ikimetr.Budget.Usage.{
  BudgetUsage, BudgetTotals, BudgetStateError, budget_scope_key, count_at, utc_day, utc_month,
}

pub data ErrorCode : Type 0 where
  replay_failed storage_failure recovery_required discrepancy_block not_configured : ErrorCode
  provider_disabled limit_exceeded invalid_request duplicate_transition : ErrorCode
  unknown_reservation already_settled : ErrorCode

-- What a method of the controller throws: a `BudgetControllerError`, or an error of the replay or
-- of the event validation that it lets through.
pub data BudgetError : Type 0 where
  controller_error : ErrorCode → BudgetError
  state_error : BudgetStateError → BudgetError
  event_error : LedgerError → BudgetError

abbrev pub Checked : Type 0
Checked = Result BudgetError (Unit {0})

abbrev pub fail {ℓ} : {A : Type ℓ} → ErrorCode → Result BudgetError A
fail code = err (BudgetError.controller_error code)

unfoldable pub check_number_limit : ℕ → Option ℕ → Checked
check_number_limit value none = fail ErrorCode.not_configured
check_number_limit value (some limit) =
    throw_if (ltb limit value) (BudgetError.controller_error ErrorCode.limit_exceeded)

unfoldable pub check_money_limit : Money → Option Money → Checked
check_money_limit cost none = fail ErrorCode.not_configured
check_money_limit cost (some limit) = do
  throw_if (not (cost.currency == limit.currency))
      (BudgetError.controller_error ErrorCode.invalid_request)
  throw_if (ltb limit.amount_micros cost.amount_micros)
      (BudgetError.controller_error ErrorCode.limit_exceeded)

unfoldable pub check_usage_limits : BudgetUsage → UsageLimits → Checked
check_usage_limits usage limits = do
  check_number_limit usage.input_tokens limits.max_input_tokens
  check_number_limit usage.output_tokens limits.max_output_tokens
  check_number_limit usage.calls limits.max_calls
  check_money_limit usage.cost limits.max_cost

unfoldable pub required_usage : Option BudgetUsage → Result BudgetError BudgetUsage
required_usage none = fail ErrorCode.invalid_request
required_usage (some usage) = ok usage

-- `checkUsageLimits(requiredUsage(map.get(key)), limits)`
unfoldable pub check_scope : Dict Text BudgetUsage → Text → UsageLimits → Checked
check_scope scopes key limits =
    required_usage (lookup key scopes) >>= λ usage. check_usage_limits usage limits

-- `budgetScopeKey` throws its own error, which passes through.
abbrev pub scope_key : Text → Text → Result BudgetError Text
scope_key a b = map_err BudgetError.state_error (budget_scope_key (a ∷ b ∷ []))

-- The limits of the provider itself.
unfoldable pub check_provider_limits : BudgetReservation → ProviderConfig → BudgetUsage → Checked
check_provider_limits event provider usage = do
  check_number_limit event.estimated_input_tokens provider.max_input_tokens
  check_number_limit event.reserved_output_tokens provider.max_output_tokens
  check_number_limit usage.calls provider.max_calls_per_task
  check_money_limit usage.cost provider.max_cost_per_task

unfoldable pub check_cloud_limits : BudgetReservation → BudgetLimits → BudgetTotals → Checked
check_cloud_limits event limits totals = do
  check_scope totals.cloud_day (utc_day event) limits.cloud_day
  check_scope totals.cloud_month (utc_month event) limits.cloud_month
  check_number_limit (count_at event.task_id totals.cloud_calls_task) limits.cloud_calls_task

unfoldable pub check_retry_limits :
    BudgetReservation → ProviderConfig → BudgetLimits → Text → BudgetTotals → Checked
check_retry_limits event provider limits key totals = do
  check_number_limit (count_at event.task_id totals.retry_task) limits.max_retries_per_task
  check_number_limit (count_at key totals.retry_provider_task) limits.max_retries_per_provider_task
  check_number_limit (count_at key totals.retry_provider_task) provider.max_retries

abbrev pub check_when : Bool → Checked → Checked
check_when true check = check
check_when false check = ok tt

unfoldable pub validate_candidate_limits :
    ConfigSnapshot → BudgetReservation → ProviderConfig → BudgetTotals → Checked
validate_candidate_limits config event provider totals = do
  key ← scope_key event.task_id (provider_name event.provider)
  provider_task ← required_usage (lookup key totals.provider_task)
  check_provider_limits event provider provider_task
  check_scope totals.per_task event.task_id config.limits.per_task
  check_usage_limits provider_task config.limits.provider_task
  day_key ← scope_key (provider_name event.provider) (utc_day event)
  check_scope totals.provider_day day_key config.limits.provider_day
  month_key ← scope_key (provider_name event.provider) (utc_month event)
  check_scope totals.provider_month month_key config.limits.provider_month
  check_when event.cloud (check_cloud_limits event config.limits totals)
  check_when event.retry (check_retry_limits event provider config.limits key totals)
  check_when (not event.cloud) (
      check_number_limit (count_at event.task_id totals.local_wall_time_task)
        config.limits.local_wall_time)
