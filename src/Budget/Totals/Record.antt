-- ===== src/Budget/Totals/Record.antt =====
-- budget.ts: `addRecordToTotals`, for every total and every scope of a reservation.
use mathlib.Core.Path.{subst}
use ikimetr.Prelude.{
  ℕ, ◌+◌, ◌≡◌, sym, ◌∙◌, ap, Bool, true, false, ◌&&◌, Option, [], ◌∷◌, arith, ◌==◌, Text, text_Eq,
  ok, >>=-eq-ok, Bool-cases, inl, inr, ok_injective, if-then_eq, if-else_eq,
}
use ikimetr.Prelude.Dict.{Dict}
use ikimetr.Config.{ProviderId, provider_name, provider_id_Eq}
use ikimetr.LedgerEvents.{BudgetReservation, BudgetSettlement}
use ikimetr.Budget.Usage.{
  BudgetUsage, BudgetTotals, budget_scope_key, add_usage, add_number, count_at, utc_day, utc_month,
  settlement_to_usage, add_common, add_cloud, add_record_to_totals,
}
use ikimetr.Budget.Totals.{
  IsCounter, measure, when, measure-add_usage, count_at-add_number, IsKey, key_eq, provider_name_eq,
}

-- What a group of usages adds up to: a counter, over the reservations that a predicate picks.
abbrev pub Gain : Type 0
Gain = (BudgetUsage → ℕ) → (BudgetReservation → Bool) → ℕ

abbrev pub in_task : Text → BudgetReservation → Bool
in_task k r = r.task_id == k

abbrev pub in_provider_task : Text → ProviderId → BudgetReservation → Bool
in_provider_task a p r = r.task_id == a && r.provider == p

abbrev pub in_provider_day : ProviderId → Text → BudgetReservation → Bool
in_provider_day p d r = r.provider == p && utc_day r == d

abbrev pub in_provider_month : ProviderId → Text → BudgetReservation → Bool
in_provider_month p d r = r.provider == p && utc_month r == d

abbrev pub in_cloud_day : Text → BudgetReservation → Bool
in_cloud_day d r = r.cloud && utc_day r == d

abbrev pub in_cloud_month : Text → BudgetReservation → Bool
in_cloud_month d r = r.cloud && utc_month r == d

abbrev pub in_cloud_task : Text → BudgetReservation → Bool
in_cloud_task k r = r.cloud && r.task_id == k

-- From `t` to `t'` every total grows by the gain of its own scope.
pub record Grows (gain : Gain) (t t' : BudgetTotals) : Type 0 where
  pub per_task :
      (f : BudgetUsage → ℕ)
      → IsCounter f
      → (k : Text) → measure f k t'.per_task ≡ measure f k t.per_task + gain f (in_task k)
  pub provider_task :
      (f : BudgetUsage → ℕ)
      → IsCounter f
      → (a : Text) (p : ProviderId) (k : Text) → IsKey a (provider_name p) k
      → measure f k t'.provider_task ≡ measure f k t.provider_task + gain f (in_provider_task a p)
  pub provider_day :
      (f : BudgetUsage → ℕ)
      → IsCounter f
      → (p : ProviderId) (d k : Text) → IsKey (provider_name p) d k
      → measure f k t'.provider_day ≡ measure f k t.provider_day + gain f (in_provider_day p d)
  pub provider_month :
      (f : BudgetUsage → ℕ)
      → IsCounter f
      → (p : ProviderId) (d k : Text) → IsKey (provider_name p) d k
      → measure f k t'.provider_month
        ≡ measure f k t.provider_month + gain f (in_provider_month p d)
  pub cloud_day :
      (f : BudgetUsage → ℕ)
      → IsCounter f
      → (d : Text) → measure f d t'.cloud_day ≡ measure f d t.cloud_day + gain f (in_cloud_day d)
  pub cloud_month :
      (f : BudgetUsage → ℕ)
      → IsCounter f
      → (d : Text)
      → measure f d t'.cloud_month ≡ measure f d t.cloud_month + gain f (in_cloud_month d)
  pub cloud_calls_task :
      (k : Text)
      → count_at k t'.cloud_calls_task
        ≡ count_at k t.cloud_calls_task + gain (λ u. u.calls) (in_cloud_task k)
  pub retry_task :
      (k : Text)
      → count_at k t'.retry_task ≡ count_at k t.retry_task + gain (λ u. u.retries) (in_task k)
  pub retry_provider_task :
      (a : Text) (p : ProviderId) (k : Text)
      → IsKey a (provider_name p) k
      → count_at k t'.retry_provider_task
        ≡ count_at k t.retry_provider_task + gain (λ u. u.retries) (in_provider_task a p)
  pub local_wall_time_task :
      (k : Text)
      → count_at k t'.local_wall_time_task
        ≡ count_at k t.local_wall_time_task + gain (λ u. u.local_wall_time_ms) (in_task k)

-- The gain of one usage.
abbrev pub one : BudgetReservation → BudgetUsage → Gain
one r u f p = when (p r) (f u)

abbrev pub Counted : BudgetReservation → BudgetUsage → BudgetTotals → BudgetTotals → Type 0
Counted r u t t' = Grows (one r u) t t'

-- What `add_common` and `add_cloud` did, map by map.
record CommonSteps (r : BudgetReservation) (u : BudgetUsage) (t t' : BudgetTotals) : Type 0 where
  task_key : Text
  day_key : Text
  month_key : Text
  task_key_eq : IsKey r.task_id (provider_name r.provider) task_key
  day_key_eq : IsKey (provider_name r.provider) (utc_day r) day_key
  month_key_eq : IsKey (provider_name r.provider) (utc_month r) month_key
  per_task : add_usage t.per_task r.task_id u ≡ ok t'.per_task
  provider_task : add_usage t.provider_task task_key u ≡ ok t'.provider_task
  provider_day : add_usage t.provider_day day_key u ≡ ok t'.provider_day
  provider_month : add_usage t.provider_month month_key u ≡ ok t'.provider_month
  retry_task : add_number t.retry_task r.task_id u.retries ≡ ok t'.retry_task
  retry_provider_task :
      add_number t.retry_provider_task task_key u.retries ≡ ok t'.retry_provider_task
  local_wall_time_task :
      add_number t.local_wall_time_task r.task_id u.local_wall_time_ms ≡ ok t'.local_wall_time_task

record CloudSteps (r : BudgetReservation) (u : BudgetUsage) (t t' : BudgetTotals) : Type 0 where
  cloud_day : add_usage t.cloud_day (utc_day r) u ≡ ok t'.cloud_day
  cloud_month : add_usage t.cloud_month (utc_month r) u ≡ ok t'.cloud_month
  cloud_calls_task : add_number t.cloud_calls_task r.task_id u.calls ≡ ok t'.cloud_calls_task

record NoCloudSteps (t t' : BudgetTotals) : Type 0 where
  cloud_day : t'.cloud_day ≡ t.cloud_day
  cloud_month : t'.cloud_month ≡ t.cloud_month
  cloud_calls_task : t'.cloud_calls_task ≡ t.cloud_calls_task

common_steps :
    (r : BudgetReservation) (u : BudgetUsage) (t t' : BudgetTotals)
    → add_common r u t ≡ ok t'
    → CommonSteps r u t t' × NoCloudSteps t t'
unfolding add_common
common_steps r u t t' h =
    let (tk, ktk, h1) =
      >>=-eq-ok (budget_scope_key (r.task_id ∷ provider_name r.provider ∷ [])) _ h in
    let (pt, ept, h2) = >>=-eq-ok (add_usage t.per_task r.task_id u) _ h1 in
    let (ppt, eppt, h3) = >>=-eq-ok (add_usage t.provider_task tk u) _ h2 in
    let (dk, kdk, h4) =
      >>=-eq-ok (budget_scope_key (provider_name r.provider ∷ utc_day r ∷ [])) _ h3 in
    let (pd, epd, h5) = >>=-eq-ok (add_usage t.provider_day dk u) _ h4 in
    let (mk, kmk, h6) =
      >>=-eq-ok (budget_scope_key (provider_name r.provider ∷ utc_month r ∷ [])) _ h5 in
    let (pm, epm, h7) = >>=-eq-ok (add_usage t.provider_month mk u) _ h6 in
    let (rt, ert, h8) = >>=-eq-ok (add_number t.retry_task r.task_id u.retries) _ h7 in
    let (rpt, erpt, h9) = >>=-eq-ok (add_number t.retry_provider_task tk u.retries) _ h8 in
    let (lw, elw, h10) =
      >>=-eq-ok (add_number t.local_wall_time_task r.task_id u.local_wall_time_ms) _ h9 in
    let e = ok_injective h10 in
    (
      record {
        task_key = tk;
        day_key = dk;
        month_key = mk;
        task_key_eq = ktk;
        day_key_eq = kdk;
        month_key_eq = kmk;
        per_task = ept ∙ ap (λ (x : BudgetTotals). ok x.per_task) e;
        provider_task = eppt ∙ ap (λ (x : BudgetTotals). ok x.provider_task) e;
        provider_day = epd ∙ ap (λ (x : BudgetTotals). ok x.provider_day) e;
        provider_month = epm ∙ ap (λ (x : BudgetTotals). ok x.provider_month) e;
        retry_task = ert ∙ ap (λ (x : BudgetTotals). ok x.retry_task) e;
        retry_provider_task = erpt ∙ ap (λ (x : BudgetTotals). ok x.retry_provider_task) e;
        local_wall_time_task = elw ∙ ap (λ (x : BudgetTotals). ok x.local_wall_time_task) e;
      },
      record {
        cloud_day = sym (ap (λ (x : BudgetTotals). x.cloud_day) e);
        cloud_month = sym (ap (λ (x : BudgetTotals). x.cloud_month) e);
        cloud_calls_task = sym (ap (λ (x : BudgetTotals). x.cloud_calls_task) e);
      },
    )

-- `add_cloud` keeps the maps of `add_common`.
cloud_steps :
    (r : BudgetReservation) (u : BudgetUsage) (t t1 t' : BudgetTotals)
    → CommonSteps r u t t1
    → NoCloudSteps t t1
    → add_cloud r u t1 ≡ ok t'
    → CommonSteps r u t t' × CloudSteps r u t t'
unfolding add_cloud
cloud_steps r u t t1 t' c n h =
    let (cd, ecd, h1) = >>=-eq-ok (add_usage t1.cloud_day (utc_day r) u) _ h in
    let (cm, ecm, h2) = >>=-eq-ok (add_usage t1.cloud_month (utc_month r) u) _ h1 in
    let (ct, ect, h3) = >>=-eq-ok (add_number t1.cloud_calls_task r.task_id u.calls) _ h2 in
    let e = ok_injective h3 in
    (
      record {
        task_key = c.task_key;
        day_key = c.day_key;
        month_key = c.month_key;
        task_key_eq = c.task_key_eq;
        day_key_eq = c.day_key_eq;
        month_key_eq = c.month_key_eq;
        per_task = c.per_task ∙ ap (λ (x : BudgetTotals). ok x.per_task) e;
        provider_task = c.provider_task ∙ ap (λ (x : BudgetTotals). ok x.provider_task) e;
        provider_day = c.provider_day ∙ ap (λ (x : BudgetTotals). ok x.provider_day) e;
        provider_month = c.provider_month ∙ ap (λ (x : BudgetTotals). ok x.provider_month) e;
        retry_task = c.retry_task ∙ ap (λ (x : BudgetTotals). ok x.retry_task) e;
        retry_provider_task =
            c.retry_provider_task ∙ ap (λ (x : BudgetTotals). ok x.retry_provider_task) e;
        local_wall_time_task =
            c.local_wall_time_task ∙ ap (λ (x : BudgetTotals). ok x.local_wall_time_task) e;
      },
      record {
        cloud_day =
            ap (λ m. add_usage m (utc_day r) u) (sym n.cloud_day)
            ∙ ecd
            ∙ ap (λ (x : BudgetTotals). ok x.cloud_day) e;
        cloud_month =
            ap (λ m. add_usage m (utc_month r) u) (sym n.cloud_month)
            ∙ ecm
            ∙ ap (λ (x : BudgetTotals). ok x.cloud_month) e;
        cloud_calls_task =
            ap (λ m. add_number m r.task_id u.calls) (sym n.cloud_calls_task)
            ∙ ect
            ∙ ap (λ (x : BudgetTotals). ok x.cloud_calls_task) e;
      },
    )

module _ (r : BudgetReservation) (u : BudgetUsage) (t t' : BudgetTotals) where
  scoped_usage :
      (f : BudgetUsage → ℕ) (m m' : Dict Text BudgetUsage) (a b c d key k : Text)
      → IsCounter f
      → IsKey a b key
      → IsKey c d k
      → add_usage m key u ≡ ok m'
      → measure f k m' ≡ measure f k m + when (a == c && b == d) (f u)
  scoped_usage f m m' a b c d key k counter hkey hk h =
      rw (← key_eq a b c d hkey hk) (measure-add_usage f m key k u counter h)

  -- The common maps grow by the usage; the cloud maps as the caller shows.
  count_common :
      CommonSteps r u t t'
      → ((f : BudgetUsage → ℕ)
          → IsCounter f
          → (d : Text)
          → measure f d t'.cloud_day
            ≡ measure f d t.cloud_day + when (r.cloud && utc_day r == d) (f u))
      → ((f : BudgetUsage → ℕ)
          → IsCounter f
          → (d : Text)
          → measure f d t'.cloud_month
            ≡ measure f d t.cloud_month + when (r.cloud && utc_month r == d) (f u))
      → ((k : Text)
          → count_at k t'.cloud_calls_task
            ≡ count_at k t.cloud_calls_task + when (r.cloud && r.task_id == k) u.calls)
      → Counted r u t t'
  count_common s day month calls = record {
    per_task = λ f counter k. measure-add_usage f t.per_task r.task_id k u counter s.per_task;
    provider_task = λ f counter a p k hk. rw (← provider_name_eq r.provider p) (
        scoped_usage f t.provider_task t'.provider_task r.task_id (provider_name r.provider) a
          (provider_name p) s.task_key k counter s.task_key_eq hk s.provider_task);
    provider_day = λ f counter p d k hk. rw (← provider_name_eq r.provider p) (
        scoped_usage f t.provider_day t'.provider_day (provider_name r.provider) (utc_day r)
          (provider_name p) d s.day_key k counter s.day_key_eq hk s.provider_day);
    provider_month = λ f counter p d k hk. rw (← provider_name_eq r.provider p) (
        scoped_usage f t.provider_month t'.provider_month (provider_name r.provider) (utc_month r)
          (provider_name p) d s.month_key k counter s.month_key_eq hk s.provider_month);
    cloud_day = day;
    cloud_month = month;
    cloud_calls_task = calls;
    retry_task = λ k. count_at-add_number t.retry_task r.task_id k u.retries s.retry_task;
    retry_provider_task = λ a p k hk.
        rw
          (
            ← provider_name_eq r.provider p,
            ← key_eq r.task_id (provider_name r.provider) a (provider_name p) s.task_key_eq hk,
          )
          (count_at-add_number t.retry_provider_task s.task_key k u.retries s.retry_provider_task);
    local_wall_time_task = λ k.
        count_at-add_number t.local_wall_time_task r.task_id k u.local_wall_time_ms
          s.local_wall_time_task;
  }

  count_cloud : r.cloud ≡ true → CommonSteps r u t t' × CloudSteps r u t t' → Counted r u t t'
  count_cloud e (s, c) =
      count_common s
        (λ f counter d. rw e (measure-add_usage f t.cloud_day (utc_day r) d u counter c.cloud_day))
        (λ f counter d.
          rw e (measure-add_usage f t.cloud_month (utc_month r) d u counter c.cloud_month))
        (λ k. rw e (count_at-add_number t.cloud_calls_task r.task_id k u.calls c.cloud_calls_task))

  count_no_cloud : r.cloud ≡ false → CommonSteps r u t t' × NoCloudSteps t t' → Counted r u t t'
  count_no_cloud e (s, n) =
      count_common s (λ f counter d. rw (e, n.cloud_day) (omega arith))
        (λ f counter d. rw (e, n.cloud_month) (omega arith))
        (λ k. rw (e, n.cloud_calls_task) (omega arith))

-- A record that is counted adds every counter of its usage to every scope of its reservation,
-- and to no other.
pub add_record_to_totals-Counted :
    (t : BudgetTotals) (r : BudgetReservation) (s : Option BudgetSettlement) (t' : BudgetTotals)
    → add_record_to_totals t r s ≡ ok t'
    → Counted r (settlement_to_usage r s) t t'
unfolding add_record_to_totals
add_record_to_totals-Counted t r s t' h =
    let u = settlement_to_usage r s in
    let (t1, h1, h2) = >>=-eq-ok (add_common r u t) _ h in
    let (c, n) = common_steps r u t t1 h1 in
    elim (Bool-cases r.cloud) [
      | inl e ↦
          count_cloud r u t t' e
            (cloud_steps r u t t1 t' c n (if-then_eq r.cloud (add_cloud r u t1) (ok t1) e h2))
      | inr e ↦ count_no_cloud r u t t' e (
          subst (λ x. CommonSteps r u t x × NoCloudSteps t x)
            (ok_injective (if-else_eq r.cloud (add_cloud r u t1) (ok t1) e h2)) (c, n))
    ]
