-- ===== src/Budget/Limits/Candidate.antt =====
-- budget.ts: `validateCandidateLimits` against sums over the records of a ledger.
use native.Mathlib.Nat.{zero-add}
use ikimetr.Prelude.{
  ℕ, ◌≡◌, refl, sym, ◌∙◌, Bool, true, false, not, Text, text_Eq, ok, >>=-eq-ok, map_err-eq_ok,
}
use ikimetr.Prelude.Dict.{Dict, lookup}
use ikimetr.Config.{provider_name, ConfigSnapshot}
use ikimetr.LedgerEvents.{BudgetReservation}
use ikimetr.Budget.Usage.{
  BudgetUsage, BudgetTotals, count_at, utc_day, utc_month, create_empty_totals,
}
use ikimetr.Budget.Replay.{ReservationRecord}
use ikimetr.Budget.Totals.{IsCounter, IsKey}
use ikimetr.Budget.Totals.Record.{
  Grows, in_task, in_provider_task, in_provider_day, in_provider_month, in_cloud_day,
  in_cloud_month, in_cloud_task,
}
use ikimetr.Budget.Spec.{spent}
use ikimetr.Budget.Limits.{
  Checked, check_number_limit, check_usage_limits, required_usage, check_scope, scope_key,
  check_provider_limits, check_cloud_limits, check_retry_limits, check_when,
  validate_candidate_limits,
}
use ikimetr.Budget.Limits.Within.{
  AtMost, CostAtMost, ScopeWithin, check_number_limit-AtMost, check_money_limit-CostAtMost,
  check_usage_limits-ScopeWithin, required_usage-measure, ScopeWithin-sums, check_scope-ScopeWithin,
  AtMost-subst, calls-IsCounter, CostAtMost-sums,
}

-- Everything that a reservation is held against, as sums over the records.
pub record WithinLimits (config : ConfigSnapshot) (records : Dict Text ReservationRecord)
    (r : BudgetReservation) : Type 0 where
  pub request_input : AtMost r.estimated_input_tokens (config.providers r.provider).max_input_tokens
  pub request_output :
      AtMost r.reserved_output_tokens (config.providers r.provider).max_output_tokens
  pub provider_calls :
      AtMost
        (spent records (λ u. u.calls) (in_provider_task r.task_id r.provider))
        (config.providers r.provider).max_calls_per_task
  pub provider_cost :
      CostAtMost
        (λ f. spent records f (in_provider_task r.task_id r.provider))
        (config.providers r.provider).max_cost_per_task
  pub task : ScopeWithin (λ f. spent records f (in_task r.task_id)) config.limits.per_task
  pub provider_task :
      ScopeWithin
        (λ f. spent records f (in_provider_task r.task_id r.provider))
        config.limits.provider_task
  pub provider_day :
      ScopeWithin
        (λ f. spent records f (in_provider_day r.provider (utc_day r)))
        config.limits.provider_day
  pub provider_month :
      ScopeWithin
        (λ f. spent records f (in_provider_month r.provider (utc_month r)))
        config.limits.provider_month
  pub cloud :
      r.cloud ≡ true
      → ScopeWithin (λ f. spent records f (in_cloud_day (utc_day r))) config.limits.cloud_day
        × ScopeWithin
            (λ f. spent records f (in_cloud_month (utc_month r)))
            config.limits.cloud_month
        × AtMost
            (spent records (λ u. u.calls) (in_cloud_task r.task_id))
            config.limits.cloud_calls_task
  pub retry :
      r.retry ≡ true
      → AtMost
          (spent records (λ u. u.retries) (in_task r.task_id))
          config.limits.max_retries_per_task
        × AtMost
            (spent records (λ u. u.retries) (in_provider_task r.task_id r.provider))
            config.limits.max_retries_per_provider_task
        × AtMost
            (spent records (λ u. u.retries) (in_provider_task r.task_id r.provider))
            (config.providers r.provider).max_retries
  pub local :
      r.cloud ≡ false
      → AtMost
          (spent records (λ u. u.local_wall_time_ms) (in_task r.task_id))
          config.limits.local_wall_time

check_when-ok :
    {b : Bool} (check : Checked) {u : Unit {0}}
    → check_when b check ≡ ok u
    → b ≡ true
    → check ≡ ok u
check_when-ok check h e = rw (← h) (rw e refl)

module _ (config : ConfigSnapshot) (records : Dict Text ReservationRecord) (r : BudgetReservation)
    (totals : BudgetTotals) (sums : Grows (spent records) create_empty_totals totals) where
  cloud_within :
      {u : Unit {0}}
      → check_cloud_limits r config.limits totals ≡ ok u
      → ScopeWithin (λ f. spent records f (in_cloud_day (utc_day r))) config.limits.cloud_day
        × ScopeWithin
            (λ f. spent records f (in_cloud_month (utc_month r)))
            config.limits.cloud_month
        × AtMost
            (spent records (λ u. u.calls) (in_cloud_task r.task_id))
            config.limits.cloud_calls_task
  unfolding check_cloud_limits create_empty_totals lookup
  cloud_within h =
      let (_, h1, h2) =
        >>=-eq-ok (check_scope totals.cloud_day (utc_day r) config.limits.cloud_day) _ h in
      let (_, h3, h4) =
        >>=-eq-ok (check_scope totals.cloud_month (utc_month r) config.limits.cloud_month) _ h2 in
      (
        check_scope-ScopeWithin totals.cloud_day (utc_day r) config.limits.cloud_day _
            (λ f a. sums.cloud_day f a (utc_day r) ∙ zero-add _) h1,
        check_scope-ScopeWithin totals.cloud_month (utc_month r) config.limits.cloud_month _
            (λ f a. sums.cloud_month f a (utc_month r) ∙ zero-add _) h3,
        AtMost-subst (sums.cloud_calls_task r.task_id ∙ zero-add _)
            (check_number_limit-AtMost _ _ h4),
      )

  retry_within :
      (key : Text) {u : Unit {0}}
      → IsKey r.task_id (provider_name r.provider) key
      → check_retry_limits r (config.providers r.provider) config.limits key totals ≡ ok u
      → AtMost
          (spent records (λ u. u.retries) (in_task r.task_id))
          config.limits.max_retries_per_task
        × AtMost
            (spent records (λ u. u.retries) (in_provider_task r.task_id r.provider))
            config.limits.max_retries_per_provider_task
        × AtMost
            (spent records (λ u. u.retries) (in_provider_task r.task_id r.provider))
            (config.providers r.provider).max_retries
  unfolding check_retry_limits create_empty_totals lookup
  retry_within key hk h =
      let (_, h1, h2) =
        >>=-eq-ok
          (check_number_limit (count_at r.task_id totals.retry_task)
            config.limits.max_retries_per_task)
          _ h in
      let (_, h3, h4) =
        >>=-eq-ok
          (check_number_limit (count_at key totals.retry_provider_task)
            config.limits.max_retries_per_provider_task)
          _ h2 in
      let e = sums.retry_provider_task r.task_id r.provider key hk ∙ zero-add _ in
      (
        AtMost-subst (sums.retry_task r.task_id ∙ zero-add _) (check_number_limit-AtMost _ _ h1),
        AtMost-subst e (check_number_limit-AtMost _ _ h3),
        AtMost-subst e (check_number_limit-AtMost _ _ h4),
      )

  -- The limits of the provider, on the usage of its task.
  provider_within :
      (usage : BudgetUsage) {u : Unit {0}}
      → ((f : BudgetUsage → ℕ)
          → IsCounter f
          → f usage ≡ spent records f (in_provider_task r.task_id r.provider))
      → check_provider_limits r (config.providers r.provider) usage ≡ ok u
      → AtMost r.estimated_input_tokens (config.providers r.provider).max_input_tokens
        × AtMost r.reserved_output_tokens (config.providers r.provider).max_output_tokens
        × AtMost
            (spent records (λ u. u.calls) (in_provider_task r.task_id r.provider))
            (config.providers r.provider).max_calls_per_task
        × CostAtMost
            (λ f. spent records f (in_provider_task r.task_id r.provider))
            (config.providers r.provider).max_cost_per_task
  unfolding check_provider_limits
  provider_within usage e h =
      let p = config.providers r.provider in
      let (_, h1, h2) =
        >>=-eq-ok (check_number_limit r.estimated_input_tokens p.max_input_tokens) _ h in
      let (_, h3, h4) =
        >>=-eq-ok (check_number_limit r.reserved_output_tokens p.max_output_tokens) _ h2 in
      let (_, h5, h6) = >>=-eq-ok (check_number_limit usage.calls p.max_calls_per_task) _ h4 in
      (
        check_number_limit-AtMost _ _ h1,
        check_number_limit-AtMost _ _ h3,
        AtMost-subst (e _ calls-IsCounter) (check_number_limit-AtMost _ _ h5),
        CostAtMost-sums usage p.max_cost_per_task _ e (check_money_limit-CostAtMost usage _ h6),
      )

  -- A candidate that passes is within every limit.
  pub validate_candidate_limits-WithinLimits :
      {u : Unit {0}}
      → validate_candidate_limits config r (config.providers r.provider) totals ≡ ok u
      → WithinLimits config records r
  unfolding validate_candidate_limits create_empty_totals lookup
  validate_candidate_limits-WithinLimits h =
      let p = config.providers r.provider in
      let name = provider_name r.provider in
      let (key, hk, h1) = >>=-eq-ok (scope_key r.task_id name) _ h in
      let (usage, hu, h2) = >>=-eq-ok (required_usage (lookup key totals.provider_task)) _ h1 in
      let (_, hp, h3) = >>=-eq-ok (check_provider_limits r p usage) _ h2 in
      let (_, ht, h4) =
        >>=-eq-ok (check_scope totals.per_task r.task_id config.limits.per_task) _ h3 in
      let (_, hpt, h5) = >>=-eq-ok (check_usage_limits usage config.limits.provider_task) _ h4 in
      let (dk, hdk, h6) = >>=-eq-ok (scope_key name (utc_day r)) _ h5 in
      let (_, hd, h7) =
        >>=-eq-ok (check_scope totals.provider_day dk config.limits.provider_day) _ h6 in
      let (mk, hmk, h8) = >>=-eq-ok (scope_key name (utc_month r)) _ h7 in
      let (_, hm, h9) =
        >>=-eq-ok (check_scope totals.provider_month mk config.limits.provider_month) _ h8 in
      let (_, hc, h10) =
        >>=-eq-ok (check_when r.cloud (check_cloud_limits r config.limits totals)) _ h9 in
      let (_, hr, hl) =
        >>=-eq-ok (check_when r.retry (check_retry_limits r p config.limits key totals)) _ h10 in
      let is_key = map_err-eq_ok _ _ _ hk in
      let e : (f : BudgetUsage → ℕ)
          → IsCounter f
          → f usage ≡ spent records f (in_provider_task r.task_id r.provider) =
        λ f a.
          sym (required_usage-measure totals.provider_task key usage f hu)
          ∙ sums.provider_task f a r.task_id r.provider key is_key
          ∙ zero-add _ in
      let own = provider_within usage e hp in
      record {
        request_input = own.0;
        request_output = own.1;
        provider_calls = own.2;
        provider_cost = own.3;
        task =
            check_scope-ScopeWithin totals.per_task r.task_id config.limits.per_task _
              (λ f a. sums.per_task f a r.task_id ∙ zero-add _) ht;
        provider_task =
            ScopeWithin-sums usage config.limits.provider_task _ e
              (check_usage_limits-ScopeWithin usage config.limits.provider_task hpt);
        provider_day =
            check_scope-ScopeWithin totals.provider_day dk config.limits.provider_day _
              (λ f a.
                sums.provider_day f a r.provider (utc_day r) dk (map_err-eq_ok _ _ _ hdk)
                ∙ zero-add _)
              hd;
        provider_month =
            check_scope-ScopeWithin totals.provider_month mk config.limits.provider_month _
              (λ f a.
                sums.provider_month f a r.provider (utc_month r) mk (map_err-eq_ok _ _ _ hmk)
                ∙ zero-add _)
              hm;
        cloud = λ c. cloud_within (check_when-ok _ hc c);
        retry = λ c. retry_within key is_key (check_when-ok _ hr c);
        local = λ c.
            AtMost-subst (sums.local_wall_time_task r.task_id ∙ zero-add _)
              (check_number_limit-AtMost _ _ (check_when-ok {b = not r.cloud} _ hl (rw c refl)));
      }
