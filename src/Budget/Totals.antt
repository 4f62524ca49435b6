-- ===== src/Budget/Totals.antt =====
-- budget.ts: what one record adds to each total.
pub mod Record
use mathlib.Core.Path.{subst}
use ikimetr.Prelude.{
  sym, ◌∙◌, ok_injective, ℕ, ◌+◌, ◌≡◌, refl, ap, Bool, true, false, ◌&&◌, Option, none, some, List,
  [], ◌∷◌, arith, nat_eq, if◌then◌else◌, Eq, ◌==◌, Text, text_eq, text_Eq, text_eq_iff, Result, ok,
  err, >>=-eq-ok, map_err, map_err-eq_ok, Option-cases, inl, inr,
}
use ikimetr.Prelude.Dict.{Dict, lookup, insert, lookup-insert}
use ikimetr.Config.{ProviderId, provider_name, provider_id_Eq, provider_id_eq_iff}
use ikimetr.Money.{Money, add_money}
use ikimetr.Money.Bounds.{add_money_exact}
use ikimetr.LedgerEvents.{BudgetReservation, BudgetSettlement}
use ikimetr.Budget.Usage.{
  BudgetUsage, BudgetTotals, BudgetStateError, budget_scope_key, safe_add, merge_usage, add_usage,
  add_number, count_at, utc_day, utc_month, settlement_to_usage, add_common, add_cloud,
  add_record_to_totals,
}
use ikimetr.Budget.Usage.Keys.{scope_key_injective}

-- What a usage counts: each of its numbers, the amount of its cost, and the part of the cost that
-- is in a currency.
pub data Counter : Type 0 where
  input_tokens output_tokens cache_read_tokens cache_write_tokens : Counter
  calls retries local_wall_time_ms cost : Counter
  cost_in : Text → Counter

abbrev pub count_cost_in : Text → Money → ℕ
count_cost_in currency m = if m.currency == currency then m.amount_micros else 0

abbrev pub count : Counter → BudgetUsage → ℕ
count Counter.input_tokens u = u.input_tokens
count Counter.output_tokens u = u.output_tokens
count Counter.cache_read_tokens u = u.cache_read_tokens
count Counter.cache_write_tokens u = u.cache_write_tokens
count Counter.calls u = u.calls
count Counter.retries u = u.retries
count Counter.local_wall_time_ms u = u.local_wall_time_ms
count Counter.cost u = u.cost.amount_micros
count (Counter.cost_in currency) u = count_cost_in currency u.cost

abbrev pub IsCounter : (BudgetUsage → ℕ) → Type 0
IsCounter f = (c : Counter) × ((u : BudgetUsage) → f u ≡ count c u)

safe_add_lem : (a b c : ℕ) → safe_add a b ≡ ok c → c ≡ a + b
unfolding safe_add
safe_add_lem a b c h = ground arith

-- A sum of usages adds up every counter.
abbrev Merged : BudgetUsage → BudgetUsage → BudgetUsage → Type 0
Merged u v w = (c : Counter) → count c w ≡ count c u + count c v

cost_in_sum :
    (currency : Text) (a b m : Money)
    → (m.amount_micros ≡ a.amount_micros + b.amount_micros)
      × (m.currency ≡ a.currency)
      × (m.currency ≡ b.currency)
    → count_cost_in currency m ≡ count_cost_in currency a + count_cost_in currency b
cost_in_sum currency a b m (e, f, g) = rw (← f, ← g, e) (ground arith)

-- The fields of a sum.
record Fields (u v w : BudgetUsage) : Type 0 where
  input_tokens : w.input_tokens ≡ u.input_tokens + v.input_tokens
  output_tokens : w.output_tokens ≡ u.output_tokens + v.output_tokens
  cache_read_tokens : w.cache_read_tokens ≡ u.cache_read_tokens + v.cache_read_tokens
  cache_write_tokens : w.cache_write_tokens ≡ u.cache_write_tokens + v.cache_write_tokens
  calls : w.calls ≡ u.calls + v.calls
  retries : w.retries ≡ u.retries + v.retries
  local_wall_time_ms : w.local_wall_time_ms ≡ u.local_wall_time_ms + v.local_wall_time_ms
  cost :
      (w.cost.amount_micros ≡ u.cost.amount_micros + v.cost.amount_micros)
      × (w.cost.currency ≡ u.cost.currency)
      × (w.cost.currency ≡ v.cost.currency)

sum-Merged : (u v w : BudgetUsage) → Fields u v w → Merged u v w
sum-Merged u v w e Counter.input_tokens = e.input_tokens
sum-Merged u v w e Counter.output_tokens = e.output_tokens
sum-Merged u v w e Counter.cache_read_tokens = e.cache_read_tokens
sum-Merged u v w e Counter.cache_write_tokens = e.cache_write_tokens
sum-Merged u v w e Counter.calls = e.calls
sum-Merged u v w e Counter.retries = e.retries
sum-Merged u v w e Counter.local_wall_time_ms = e.local_wall_time_ms
sum-Merged u v w e Counter.cost = e.cost.0
sum-Merged u v w e (Counter.cost_in currency) = cost_in_sum currency u.cost v.cost w.cost e.cost

merge_usage-Merged : (u v w : BudgetUsage) → merge_usage u v ≡ ok w → Merged u v w
unfolding merge_usage
merge_usage-Merged u v w h =
    let (input, hi, h1) = >>=-eq-ok (safe_add u.input_tokens v.input_tokens) _ h in
    let (output, ho, h2) = >>=-eq-ok (safe_add u.output_tokens v.output_tokens) _ h1 in
    let (read, hr, h3) = >>=-eq-ok (safe_add u.cache_read_tokens v.cache_read_tokens) _ h2 in
    let (write, hw, h4) = >>=-eq-ok (safe_add u.cache_write_tokens v.cache_write_tokens) _ h3 in
    let (n, hc, h5) = >>=-eq-ok (safe_add u.calls v.calls) _ h4 in
    let (r, hre, h6) = >>=-eq-ok (safe_add u.retries v.retries) _ h5 in
    let (wall, hwa, h7) = >>=-eq-ok (safe_add u.local_wall_time_ms v.local_wall_time_ms) _ h6 in
    let (m, hco, h8) =
      >>=-eq-ok (map_err (λ _. BudgetStateError.totals_unsafe) (add_money u.cost v.cost)) _ h7 in
    let exact = add_money_exact u.cost v.cost m (map_err-eq_ok _ _ _ hco) in
    subst (Merged u v) (ok_injective h8) (
      sum-Merged u v
        (record {
          input_tokens = input;
          output_tokens = output;
          cache_read_tokens = read;
          cache_write_tokens = write;
          calls = n;
          retries = r;
          local_wall_time_ms = wall;
          cost = m;
        })
        (record {
          input_tokens = safe_add_lem _ _ _ hi;
          output_tokens = safe_add_lem _ _ _ ho;
          cache_read_tokens = safe_add_lem _ _ _ hr;
          cache_write_tokens = safe_add_lem _ _ _ hw;
          calls = safe_add_lem _ _ _ hc;
          retries = safe_add_lem _ _ _ hre;
          local_wall_time_ms = safe_add_lem _ _ _ hwa;
          cost = (exact.2, exact.0, exact.0 ∙ exact.1);
        }))

merge_usage-counter :
    (f : BudgetUsage → ℕ) (u v w : BudgetUsage)
    → IsCounter f
    → merge_usage u v ≡ ok w
    → f w ≡ f u + f v
merge_usage-counter f u v w (c, e) h = rw (e u, e v, e w) (merge_usage-Merged u v w h c)

-- A counter of the usage at a key, 0 where there is none.
abbrev pub measure : (BudgetUsage → ℕ) → Text → Dict Text BudgetUsage → ℕ
measure f k m = elim (lookup k m) [ none ↦ 0 | some u ↦ f u ]

abbrev pub when : Bool → ℕ → ℕ
when b n = if b then n else 0

pub measure-add_usage :
    (f : BudgetUsage → ℕ) (m : Dict Text BudgetUsage) (key k : Text) (v : BudgetUsage)
    {m' : Dict Text BudgetUsage}
    → IsCounter f
    → add_usage m key v ≡ ok m'
    → measure f k m' ≡ measure f k m + when (key == k) (f v)
unfolding add_usage
measure-add_usage f m key k v counter h = elim (Option-cases (lookup key m)) [
  | inl new ↦ ground (arith, lookup-insert key k v m, text_eq_iff key k)
  | inr (u, old) ↦
      let (w, merged, e) =
        >>=-eq-ok (map_err (λ _. BudgetStateError.totals_unsafe) (merge_usage u v)) _
          (rw (old, add_usage) at h) in
      ground (
        arith,
        merge_usage-counter f u v w counter (map_err-eq_ok _ _ _ merged),
        lookup-insert key k w m,
        text_eq_iff key k,
      )
]

pub count_at-add_number :
    (m : Dict Text ℕ) (key k : Text) (v : ℕ) {m' : Dict Text ℕ}
    → add_number m key v ≡ ok m'
    → count_at k m' ≡ count_at k m + when (key == k) v
unfolding add_number safe_add
count_at-add_number m key k v h =
    ground (arith, lookup-insert key k (count_at key m + v) m, text_eq_iff key k)

-- A key that joins two parts.
abbrev pub IsKey : Text → Text → Text → Type 0
IsKey a b k = budget_scope_key (a ∷ b ∷ []) ≡ ok k

-- Two keys are equal exactly when both parts are.
pub key_eq :
    (a b c d : Text) {j k : Text} → IsKey a b j → IsKey c d k → (j == k) ≡ (a == c && b == d)
unfolding budget_scope_key
key_eq a b c d {j} {k} hj hk =
    ground (arith, text_eq_iff j k, text_eq_iff a c, text_eq_iff b d, scope_key_injective a b c d j)

pub provider_name_eq : (p q : ProviderId) → (provider_name p == provider_name q) ≡ (p == q)
unfolding text_eq
provider_name_eq p q = ground arith
