-- ===== src/Budget/Usage.antt =====
-- budget.ts: the usage totals of a replayed ledger, `addRecordToTotals` and what it calls.
pub mod Keys
use ikimetr.Prelude.{
  ℕ, ◌+◌, Bool, true, false, ◌||◌, Option, none, some, List, [], ◌∷◌, ◌++◌, ltb, nat_eq,
  if◌then◌else◌, take, any, Text, text_Eq, Result, ok, err, ◌>>=◌, ◌>>◌, throw_if, map_err,
}
use ikimetr.Prelude.Dict.{Dict, lookup, insert}
use ikimetr.Config.{ProviderId, provider_name}
use ikimetr.Money.{Money, MoneyError, max_safe_integer, add_money}
use ikimetr.LedgerEvents.{BudgetReservation, BudgetSettlement}

pub record BudgetUsage : Type 0 where
  pub input_tokens : ℕ
  pub output_tokens : ℕ
  pub cache_read_tokens : ℕ
  pub cache_write_tokens : ℕ
  pub calls : ℕ
  pub retries : ℕ
  pub local_wall_time_ms : ℕ
  pub cost : Money

pub record BudgetTotals : Type 0 where
  pub per_task : Dict Text BudgetUsage
  pub provider_task : Dict Text BudgetUsage
  pub provider_day : Dict Text BudgetUsage
  pub cloud_day : Dict Text BudgetUsage
  pub provider_month : Dict Text BudgetUsage
  pub cloud_month : Dict Text BudgetUsage
  pub cloud_calls_task : Dict Text ℕ
  pub retry_task : Dict Text ℕ
  pub retry_provider_task : Dict Text ℕ
  pub local_wall_time_task : Dict Text ℕ

-- The messages of `BudgetStateError`.
pub data BudgetStateError : Type 0 where
  reserved_delimiter duplicate_reservation unknown_reservation already_settled : BudgetStateError
  cloud_classification cloud_wall_time cost_mismatch cost_invalid : BudgetStateError
  settlement_scope settlement_currency released_usage overrun_flag : BudgetStateError
  counter_unsafe totals_unsafe resolver_mismatch : BudgetStateError

abbrev pub has_delimiter : Text → Bool
has_delimiter part = any (λ c. nat_eq c b'|') part

-- `parts.join('|')`
unfoldable pub join : List Text → Text
join [] = []
join (part ∷ []) = part
join (part ∷ next ∷ rest) = part ++ b'|' ∷ join (next ∷ rest)

unfoldable pub budget_scope_key : List Text → Result BudgetStateError Text
unfolding join
budget_scope_key parts = do
  throw_if (any has_delimiter parts) BudgetStateError.reserved_delimiter
  ok (join parts)

unfoldable pub safe_add : ℕ → ℕ → Result BudgetStateError ℕ
safe_add left right =
    if ltb max_safe_integer (left + right)
    then err BudgetStateError.counter_unsafe
    else ok (left + right)

abbrev pub bit : Bool → ℕ
bit b = if b then 1 else 0

unfoldable pub settlement_to_usage : BudgetReservation → Option BudgetSettlement → BudgetUsage
settlement_to_usage reservation none = record {
  input_tokens = reservation.estimated_input_tokens;
  output_tokens = reservation.reserved_output_tokens;
  cache_read_tokens = 0;
  cache_write_tokens = 0;
  calls = 1;
  retries = bit reservation.retry;
  local_wall_time_ms = reservation.reserved_local_wall_time_ms;
  cost = reservation.reserved_cost;
}
settlement_to_usage reservation (some settlement) = record {
  input_tokens = settlement.actual_input_tokens;
  output_tokens = settlement.actual_output_tokens;
  cache_read_tokens = settlement.cache_read_tokens;
  cache_write_tokens = settlement.cache_write_tokens;
  calls = 1;
  retries = bit reservation.retry;
  local_wall_time_ms = settlement.actual_local_wall_time_ms;
  cost = settlement.actual_cost;
}

-- The body of the `try` in `addUsage`.
unfoldable pub merge_usage : BudgetUsage → BudgetUsage → Result BudgetStateError BudgetUsage
merge_usage current value = do
  input ← safe_add current.input_tokens value.input_tokens
  output ← safe_add current.output_tokens value.output_tokens
  cache_read ← safe_add current.cache_read_tokens value.cache_read_tokens
  cache_write ← safe_add current.cache_write_tokens value.cache_write_tokens
  calls ← safe_add current.calls value.calls
  retries ← safe_add current.retries value.retries
  wall_time ← safe_add current.local_wall_time_ms value.local_wall_time_ms
  cost ← map_err (λ _. BudgetStateError.totals_unsafe) (add_money current.cost value.cost)
  ok (record {
    input_tokens = input;
    output_tokens = output;
    cache_read_tokens = cache_read;
    cache_write_tokens = cache_write;
    calls = calls;
    retries = retries;
    local_wall_time_ms = wall_time;
    cost = cost;
  })

unfoldable pub add_usage :
    Dict Text BudgetUsage → Text → BudgetUsage → Result BudgetStateError (Dict Text BudgetUsage)
add_usage target key value = elim (lookup key target) [
  | none ↦ ok (insert key value target)
  | some current ↦
      map_err (λ _. BudgetStateError.totals_unsafe) (merge_usage current value) >>= λ sum.
      ok (insert key sum target)
]

-- `target.get(key) ?? 0`
abbrev pub count_at : Text → Dict Text ℕ → ℕ
count_at key target = elim (lookup key target) [ none ↦ 0 | some n ↦ n ]

unfoldable pub add_number : Dict Text ℕ → Text → ℕ → Result BudgetStateError (Dict Text ℕ)
add_number target key value =
    if nat_eq value 0
    then ok target
    else (safe_add (count_at key target) value >>= λ sum. ok (insert key sum target))

abbrev pub utc_day : BudgetReservation → Text
utc_day r = take 10 r.occurred_at

abbrev pub utc_month : BudgetReservation → Text
utc_month r = take 7 r.occurred_at

-- The three maps that only a cloud call enters.
unfoldable pub add_cloud :
    BudgetReservation → BudgetUsage → BudgetTotals → Result BudgetStateError BudgetTotals
add_cloud r usage t = do
  cloud_day ← add_usage t.cloud_day (utc_day r) usage
  cloud_month ← add_usage t.cloud_month (utc_month r) usage
  cloud_calls_task ← add_number t.cloud_calls_task r.task_id usage.calls
  ok (record t {
    cloud_day = cloud_day;
    cloud_month = cloud_month;
    cloud_calls_task = cloud_calls_task;
  })

-- The maps that every call enters.
unfoldable pub add_common :
    BudgetReservation → BudgetUsage → BudgetTotals → Result BudgetStateError BudgetTotals
add_common r usage t = do
  provider_task_key ← budget_scope_key (r.task_id ∷ provider_name r.provider ∷ [])
  per_task ← add_usage t.per_task r.task_id usage
  provider_task ← add_usage t.provider_task provider_task_key usage
  day_key ← budget_scope_key (provider_name r.provider ∷ utc_day r ∷ [])
  provider_day ← add_usage t.provider_day day_key usage
  month_key ← budget_scope_key (provider_name r.provider ∷ utc_month r ∷ [])
  provider_month ← add_usage t.provider_month month_key usage
  retry_task ← add_number t.retry_task r.task_id usage.retries
  retry_provider_task ← add_number t.retry_provider_task provider_task_key usage.retries
  local_wall_time_task ← add_number t.local_wall_time_task r.task_id usage.local_wall_time_ms
  ok (record t {
    per_task = per_task;
    provider_task = provider_task;
    provider_day = provider_day;
    provider_month = provider_month;
    retry_task = retry_task;
    retry_provider_task = retry_provider_task;
    local_wall_time_task = local_wall_time_task;
  })

unfoldable pub add_record_to_totals :
    BudgetTotals
    → BudgetReservation
    → Option BudgetSettlement
    → Result BudgetStateError BudgetTotals
unfolding add_common add_cloud
add_record_to_totals totals r settlement =
    let usage = settlement_to_usage r settlement in
    add_common r usage totals >>= λ t. if r.cloud then add_cloud r usage t else ok t

unfoldable pub create_empty_totals : BudgetTotals
create_empty_totals = record {
  per_task = [];
  provider_task = [];
  provider_day = [];
  cloud_day = [];
  provider_month = [];
  cloud_month = [];
  cloud_calls_task = [];
  retry_task = [];
  retry_provider_task = [];
  local_wall_time_task = [];
}
