-- ===== src/Budget/Spec/Sums.antt =====
-- budget.ts: the second loop of `deriveBudgetState` adds up what each scope is held to.
use mathlib.Core.Path.{subst, fun_ext}
use ikimetr.Prelude.{
  ℕ, ◌+◌, ◌≡◌, refl, sym, ◌∙◌, ap, Bool, true, false, Option, none, some, [], ◌∷◌, arith,
  if◌then◌else◌, Text, text_Eq, ok, >>=-eq-ok, ok_injective, inl, inr, Bool-cases, if-then_eq,
  if-else_eq,
}
use ikimetr.Prelude.Dict.{Dict, insert}
use ikimetr.LedgerEvents.{BudgetReservation, BudgetSettlement, Disposition}
use ikimetr.Budget.Usage.{BudgetUsage, BudgetTotals, settlement_to_usage, add_record_to_totals}
use ikimetr.Budget.Replay.{
  ReservationRecord, Summary, count_record, is_settled, add_id, summarize_record, summarize,
}
use ikimetr.Budget.Totals.{when}
use ikimetr.Budget.Totals.Record.{Gain, Grows, add_record_to_totals-Counted}
use ikimetr.Budget.Spec.{counted, spent}

Grows-refl : (t : BudgetTotals) → Grows (λ f p. 0) t t
Grows-refl t = record {
  per_task = λ f a k. omega arith;
  provider_task = λ f x a p k h. omega arith;
  provider_day = λ f x p d k h. omega arith;
  provider_month = λ f x p d k h. omega arith;
  cloud_day = λ f a d. omega arith;
  cloud_month = λ f a d. omega arith;
  cloud_calls_task = λ k. omega arith;
  retry_task = λ k. omega arith;
  retry_provider_task = λ a p k h. omega arith;
  local_wall_time_task = λ k. omega arith;
}

Grows-trans :
    {g h : Gain} {t u v : BudgetTotals}
    → Grows g t u
    → Grows h u v
    → Grows (λ f p. g f p + h f p) t v
Grows-trans x y = record {
  per_task = λ f a k. omega (arith, x.per_task f a k, y.per_task f a k);
  provider_task =
      λ f z a p k h. omega (arith, x.provider_task f z a p k h, y.provider_task f z a p k h);
  provider_day =
      λ f z p d k h. omega (arith, x.provider_day f z p d k h, y.provider_day f z p d k h);
  provider_month =
      λ f z p d k h. omega (arith, x.provider_month f z p d k h, y.provider_month f z p d k h);
  cloud_day = λ f a d. omega (arith, x.cloud_day f a d, y.cloud_day f a d);
  cloud_month = λ f a d. omega (arith, x.cloud_month f a d, y.cloud_month f a d);
  cloud_calls_task = λ k. omega (arith, x.cloud_calls_task k, y.cloud_calls_task k);
  retry_task = λ k. omega (arith, x.retry_task k, y.retry_task k);
  retry_provider_task =
      λ a p k h. omega (arith, x.retry_provider_task a p k h, y.retry_provider_task a p k h);
  local_wall_time_task = λ k. omega (arith, x.local_wall_time_task k, y.local_wall_time_task k);
}

-- A gain may be replaced by an equal one.
Grows-subst :
    {g h : Gain} {t u : BudgetTotals}
    → ((f : BudgetUsage → ℕ) (p : BudgetReservation → Bool) → g f p ≡ h f p)
    → Grows g t u
    → Grows h t u
Grows-subst {g} {h} {t} {u} e x = subst (λ k. Grows k t u) (fun_ext (λ f. fun_ext (λ p. e f p))) x

when-zero : (b : Bool) → 0 ≡ when b 0
when-zero true = refl
when-zero false = refl

count_record-Grows :
    (rec : ReservationRecord) (t t' : BudgetTotals)
    → count_record rec t ≡ ok t'
    → Grows (λ f p. when (p rec.reservation) (counted rec f)) t t'
unfolding count_record
count_record-Grows rec t t' h = by_settlement rec.reservation rec.settlement h
  where
    by_disposition :
        (r : BudgetReservation) (s : BudgetSettlement) (d : Disposition)
        → (elim d [
          | Disposition.settled ↦ add_record_to_totals t r (some s)
          | Disposition.released ↦ ok t
        ])
          ≡ ok t'
        → Grows
            (λ f p. when (p r) (elim d [
              | Disposition.settled ↦ f (settlement_to_usage r (some s))
              | Disposition.released ↦ 0
            ]))
            t
            t'
    by_disposition r s Disposition.settled h = add_record_to_totals-Counted t r (some s) t' h
    by_disposition r s Disposition.released h =
        subst (λ x. Grows (λ f p. when (p r) 0) t x) (ok_injective h)
          (Grows-subst (λ f p. when-zero (p r)) (Grows-refl t))

    by_settlement :
        (r : BudgetReservation) (o : Option BudgetSettlement)
        → count_record (record { reservation = r; settlement = o }) t ≡ ok t'
        → Grows (λ f p. when (p r) (counted (record { reservation = r; settlement = o }) f)) t t'
    by_settlement r none h = add_record_to_totals-Counted t r none t' h
    by_settlement r (some s) h = by_disposition r s s.disposition h

-- What one round of the loop does.
pub record Summarized (id : Text) (rec : ReservationRecord) (s s' : Summary) : Type 0 where
  pub totals : count_record rec s.totals ≡ ok s'.totals
  pub settled : s'.settled ≡ (if is_settled rec then add_id id s.settled else s.settled)
  pub active : s'.active ≡ (if is_settled rec then s.active else insert id rec s.active)

pub summarize_record-Summarized :
    (id : Text) (rec : ReservationRecord) (s s' : Summary)
    → summarize_record id rec s ≡ ok s'
    → Summarized id rec s s'
unfolding summarize_record
summarize_record-Summarized id rec s s' h =
    let (t, ht, h1) = >>=-eq-ok (count_record rec s.totals) _ h in
    let x : Summary = record s { settled = add_id id s.settled; totals = t } in
    let y : Summary = record s { active = insert id rec s.active; totals = t } in
    let chosen = ok_injective h1 in
    elim (Bool-cases (is_settled rec)) [
      | inl e ↦
          let q = if-then_eq (is_settled rec) x y e chosen in
          record {
            totals = ht ∙ ap (λ (z : Summary). ok z.totals) q;
            settled = rw e (sym (ap (λ (z : Summary). z.settled) q));
            active = rw e (sym (ap (λ (z : Summary). z.active) q));
          }
      | inr e ↦
          let q = if-else_eq (is_settled rec) x y e chosen in
          record {
            totals = ht ∙ ap (λ (z : Summary). ok z.totals) q;
            settled = rw e (sym (ap (λ (z : Summary). z.settled) q));
            active = rw e (sym (ap (λ (z : Summary). z.active) q));
          }
    ]

-- When the summing loop succeeds, every counter of every total has grown by the sum, over its
-- scope, of what the records are held to.
pub summarize-Grows :
    (records : Dict Text ReservationRecord) (s s' : Summary)
    → summarize records s ≡ ok s'
    → Grows (spent records) s.totals s'.totals
unfolding summarize
summarize-Grows [] s s' h =
    subst (λ x. Grows (λ f p. 0) s.totals x.totals) (ok_injective h) (Grows-refl s.totals)
summarize-Grows ((id, rec) ∷ records) s s' h =
    let (s1, h1, h2) = >>=-eq-ok (summarize_record id rec s) _ h in
    let one_step = summarize_record-Summarized id rec s s1 h1 in
    Grows-trans (count_record-Grows rec s.totals s1.totals one_step.totals)
      (summarize-Grows records s1 s' h2)
