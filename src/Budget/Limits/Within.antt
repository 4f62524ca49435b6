-- ===== src/Budget/Limits/Within.antt =====
-- budget.ts: the single limits of `validateCandidateLimits` on totals that sum up records.
use ikimetr.Prelude.{
  text_eq_iff, ℕ, ◌≤◌, ◌≡◌, refl, sym, ◌∙◌, Option, none, some, arith, Text, text_Eq, ok, >>=-eq-ok,
  inl, inr, Option-cases,
}
use ikimetr.Prelude.Dict.{Dict, lookup}
use ikimetr.Config.{UsageLimits}
use ikimetr.Money.{Money}
use ikimetr.Budget.Usage.{BudgetUsage}
use ikimetr.Budget.Totals.{IsCounter, measure, Counter, count_cost_in}
use ikimetr.Budget.Limits.{
  check_number_limit, check_money_limit, check_usage_limits, required_usage, check_scope,
}

-- The limit is configured, and it is kept.
abbrev pub AtMost : ℕ → Option ℕ → Type 0
AtMost n limit = (m : ℕ) × (limit ≡ some m) × (n ≤ m)

-- The limit is configured, the whole cost is in its currency, and it is kept.
abbrev pub CostAtMost : ((BudgetUsage → ℕ) → ℕ) → Option Money → Type 0
CostAtMost total limit =
    (m : Money) × (limit ≡ some m)
    × (total (λ u. u.cost.amount_micros) ≡ total (λ u. count_cost_in m.currency u.cost))
    × (total (λ u. u.cost.amount_micros) ≤ m.amount_micros)

-- The four limits of a scope, on a counter that the scope has been given.
abbrev pub ScopeWithin : ((BudgetUsage → ℕ) → ℕ) → UsageLimits → Type 0
ScopeWithin total limits =
    AtMost (total (λ u. u.input_tokens)) limits.max_input_tokens
    × AtMost (total (λ u. u.output_tokens)) limits.max_output_tokens
    × AtMost (total (λ u. u.calls)) limits.max_calls
    × CostAtMost total limits.max_cost

input-IsCounter : IsCounter (λ u. u.input_tokens)
input-IsCounter = (Counter.input_tokens, λ u. refl)

output-IsCounter : IsCounter (λ u. u.output_tokens)
output-IsCounter = (Counter.output_tokens, λ u. refl)

pub calls-IsCounter : IsCounter (λ u. u.calls)
calls-IsCounter = (Counter.calls, λ u. refl)

cost-IsCounter : IsCounter (λ u. u.cost.amount_micros)
cost-IsCounter = (Counter.cost, λ u. refl)

cost_in-IsCounter : (currency : Text) → IsCounter (λ u. count_cost_in currency u.cost)
cost_in-IsCounter currency = (Counter.cost_in currency, λ u. refl)

pub check_number_limit-AtMost :
    (n : ℕ) (limit : Option ℕ) {u : Unit {0}} → check_number_limit n limit ≡ ok u → AtMost n limit
unfolding check_number_limit
check_number_limit-AtMost n none h = cc
check_number_limit-AtMost n (some m) h = (m, refl, ground arith)

pub check_money_limit-CostAtMost :
    (usage : BudgetUsage) (limit : Option Money) {u : Unit {0}}
    → check_money_limit usage.cost limit ≡ ok u
    → CostAtMost (λ f. f usage) limit
unfolding check_money_limit
check_money_limit-CostAtMost usage none h = cc
check_money_limit-CostAtMost usage (some m) h =
    (m, refl, ground (arith, text_eq_iff usage.cost.currency m.currency), ground arith)

pub check_usage_limits-ScopeWithin :
    (usage : BudgetUsage) (limits : UsageLimits) {u : Unit {0}}
    → check_usage_limits usage limits ≡ ok u
    → ScopeWithin (λ f. f usage) limits
unfolding check_usage_limits
check_usage_limits-ScopeWithin usage limits h =
    let (_, hi, h1) =
      >>=-eq-ok (check_number_limit usage.input_tokens limits.max_input_tokens) _ h in
    let (_, ho, h2) =
      >>=-eq-ok (check_number_limit usage.output_tokens limits.max_output_tokens) _ h1 in
    let (_, hc, h3) = >>=-eq-ok (check_number_limit usage.calls limits.max_calls) _ h2 in
    (
      check_number_limit-AtMost _ _ hi,
      check_number_limit-AtMost _ _ ho,
      check_number_limit-AtMost _ _ hc,
      check_money_limit-CostAtMost usage limits.max_cost h3,
    )

pub required_usage-measure :
    (m : Dict Text BudgetUsage) (k : Text) (usage : BudgetUsage) (f : BudgetUsage → ℕ)
    → required_usage (lookup k m) ≡ ok usage
    → measure f k m ≡ f usage
unfolding required_usage
required_usage-measure m k usage f h = elim (Option-cases (lookup k m)) [
  | inl missing ↦ absurd (cc (rw (missing, required_usage) at h))
  | inr (u, found) ↦ ground arith
]

pub CostAtMost-sums :
    (usage : BudgetUsage) (limit : Option Money) (total : (BudgetUsage → ℕ) → ℕ)
    → ((f : BudgetUsage → ℕ) → IsCounter f → f usage ≡ total f)
    → CostAtMost (λ f. f usage) limit
    → CostAtMost total limit
CostAtMost-sums usage limit total e (m, is_limit, same, within) = (
  m,
  is_limit,
  sym (e _ cost-IsCounter) ∙ same ∙ e _ (cost_in-IsCounter m.currency),
  rw (← e _ cost-IsCounter) within,
)

-- A bound on what the maps hold is a bound on the sums that they hold.
pub ScopeWithin-sums :
    (usage : BudgetUsage) (limits : UsageLimits) (total : (BudgetUsage → ℕ) → ℕ)
    → ((f : BudgetUsage → ℕ) → IsCounter f → f usage ≡ total f)
    → ScopeWithin (λ f. f usage) limits
    → ScopeWithin total limits
ScopeWithin-sums usage limits total e (i, o, c, m) = (
  (i.0, i.1, rw (← e _ input-IsCounter) i.2),
  (o.0, o.1, rw (← e _ output-IsCounter) o.2),
  (c.0, c.1, rw (← e _ calls-IsCounter) c.2),
  CostAtMost-sums usage limits.max_cost total e m,
)

pub check_scope-ScopeWithin :
    (m : Dict Text BudgetUsage) (k : Text) (limits : UsageLimits) (total : (BudgetUsage → ℕ) → ℕ)
    {u : Unit {0}}
    → ((f : BudgetUsage → ℕ) → IsCounter f → measure f k m ≡ total f)
    → check_scope m k limits ≡ ok u
    → ScopeWithin total limits
unfolding check_scope
check_scope-ScopeWithin m k limits total e h =
    let (usage, h1, h2) = >>=-eq-ok (required_usage (lookup k m)) _ h in
    ScopeWithin-sums usage limits total (λ f a. sym (required_usage-measure m k usage f h1) ∙ e f a)
      (check_usage_limits-ScopeWithin usage limits h2)

pub AtMost-subst : {n k : ℕ} {limit : Option ℕ} → n ≡ k → AtMost n limit → AtMost k limit
AtMost-subst e (m, h, le) = (m, h, rw (← e) le)
