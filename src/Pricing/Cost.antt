-- ===== src/Pricing/Cost.antt =====
-- pricing.ts: the resolution of a price, and the cost of a usage against the exact cost.
use ikimetr.Prelude.{
  ℕ, ◌+◌, ◌*◌, ◌≤◌, ◌<◌, ◌≡◌, ◌≢◌, refl, inl, inr, true, Option, none, some, List, [], ◌∷◌, arith,
  Text, text_eq_iff, ok, err, >>=-eq-ok, ok_injective, Option-cases, ◌==◌, ◌&&◌, not, throw_if,
  text_Eq, map_err, map_err-eq_ok,
}
use ikimetr.Config.{ProviderId, provider_id_eq_iff, PricingStatus, PricingSnapshot, ConfigSnapshot}
use ikimetr.Money.{Money, create_money, calculate_micros_for_tokens, round_up}
use ikimetr.Money.Bounds.{round_up_ceiling, calculate_micros-eq, add_money_exact}
use ikimetr.Pricing.{
  TokenUsage, ResolvedPricing, PricingRequest, PricingError, find_snapshot, complete, is_known,
  is_unknown, resolve_snapshot, resolve, charge, calculate_cost,
}

-- The exact cost of a counter, in millionths of a micro; an absent rate charges nothing.
abbrev pub exact_cost : ℕ → Option ℕ → ℕ
exact_cost t none = 0
exact_cost t (some r) = t * r

abbrev pub usage_cost : ResolvedPricing → TokenUsage → ℕ
usage_cost p u =
    exact_cost u.input_tokens (some p.input_rate)
    + exact_cost u.output_tokens (some p.output_rate)
    + exact_cost u.cache_read_tokens p.cache_read_rate
    + exact_cost u.cache_write_tokens p.cache_write_rate

abbrev pub usage_micros : ResolvedPricing → TokenUsage → ℕ
usage_micros p u =
    round_up (exact_cost u.input_tokens (some p.input_rate))
    + round_up (exact_cost u.output_tokens (some p.output_rate))
    + round_up (exact_cost u.cache_read_tokens p.cache_read_rate)
    + round_up (exact_cost u.cache_write_tokens p.cache_write_rate)

create_money_lem :
    (c : Text) (n : ℕ) (m : Money)
    → create_money c n ≡ ok m
    → (m.currency ≡ c) × (m.amount_micros ≡ n)
unfolding create_money
create_money_lem c n m h = ground arith

round_up-zero : round_up 0 ≡ 0
unfolding round_up
round_up-zero = refl

charge_exact :
    (c : Text) (total : Money) (t : ℕ) (r : Option ℕ) (m : Money)
    → charge c total t r ≡ ok m
    → (m.currency ≡ total.currency)
      × (m.amount_micros ≡ total.amount_micros + round_up (exact_cost t r))
unfolding charge
charge_exact c total t none m h = ground (arith, round_up-zero)
charge_exact c total t (some r) m h =
    let (micros, hm, h1) =
      >>=-eq-ok (map_err PricingError.money (calculate_micros_for_tokens t r)) _ h in
    let (cost, hc, h2) = >>=-eq-ok (map_err PricingError.money (create_money c micros)) _ h1 in
    let em = (calculate_micros-eq t r micros).0 (map_err-eq_ok _ _ _ hm) in
    let ec = create_money_lem c micros cost (map_err-eq_ok _ _ _ hc) in
    let ea = add_money_exact total cost m (map_err-eq_ok _ _ _ h2) in
    (ea.0, omega (arith, ea, ec, em))

-- A cost that is computed has the currency of the pricing and is the sum of the rounded charges
-- of the four kinds of tokens.
pub calculate_cost_exact :
    (p : ResolvedPricing) (u : TokenUsage) (m : Money)
    → calculate_cost p u ≡ ok m
    → (m.currency ≡ p.currency) × (m.amount_micros ≡ usage_micros p u)
unfolding calculate_cost
calculate_cost_exact p u m h =
    let (z, hz, h1) = >>=-eq-ok (map_err PricingError.money (create_money p.currency 0)) _ h in
    let (a, ha, h2) = >>=-eq-ok (charge p.currency z u.input_tokens (some p.input_rate)) _ h1 in
    let (b, hb, h3) = >>=-eq-ok (charge p.currency a u.output_tokens (some p.output_rate)) _ h2 in
    let (r, hr, h4) = >>=-eq-ok (charge p.currency b u.cache_read_tokens p.cache_read_rate) _ h3 in
    let ez = create_money_lem p.currency 0 z (map_err-eq_ok _ _ _ hz) in
    let ea = charge_exact p.currency z u.input_tokens (some p.input_rate) a ha in
    let eb = charge_exact p.currency a u.output_tokens (some p.output_rate) b hb in
    let er = charge_exact p.currency b u.cache_read_tokens p.cache_read_rate r hr in
    let em = charge_exact p.currency r u.cache_write_tokens p.cache_write_rate m h4 in
    (cc (em.0, er.0, eb.0, ea.0, ez.0), omega (arith, em.1, er.1, eb.1, ea.1, ez.1))

-- A cost that is computed has the currency of the pricing, is at least the exact cost, and
-- exceeds it by less than four micro units.
pub calculate_cost_rounding :
    (p : ResolvedPricing) (u : TokenUsage) (m : Money)
    → calculate_cost p u ≡ ok m
    → (m.currency ≡ p.currency)
      × (usage_cost p u ≤ m.amount_micros * 1000000)
      × (m.amount_micros * 1000000 < usage_cost p u + 4000000)
calculate_cost_rounding p u m h =
    let (c, e) = calculate_cost_exact p u m h in
    let i = round_up_ceiling (exact_cost u.input_tokens (some p.input_rate)) in
    let o = round_up_ceiling (exact_cost u.output_tokens (some p.output_rate)) in
    let r = round_up_ceiling (exact_cost u.cache_read_tokens p.cache_read_rate) in
    let w = round_up_ceiling (exact_cost u.cache_write_tokens p.cache_write_rate) in
    (c, omega (arith, e, i, o, r, w), omega (arith, e, i, o, r, w))

-- Tokens of a cache counter that has no rate are refused, whatever the rest of the price.
charge_unpriced :
    (c : Text) (total : Money) (t : ℕ)
    → t ≢ 0
    → charge c total t none ≡ err PricingError.rate_unavailable
unfolding charge
charge_unpriced c total t h = ground arith

-- What the provider's first snapshot must hold for a price to be resolved from it.
pub record Priced (config : ConfigSnapshot) (request : PricingRequest) (s : PricingSnapshot)
    (p : ResolvedPricing) : Type 0 where
  pub provider : s.provider ≡ request.provider
  pub model : s.model ≡ some request.model
  pub currency : s.currency ≡ some p.currency
  pub input_rate : s.input_rate ≡ some p.input_rate
  pub output_rate : s.output_rate ≡ some p.output_rate
  pub cache_read_rate : s.cache_read_rate ≡ p.cache_read_rate
  pub cache_write_rate : s.cache_write_rate ≡ p.cache_write_rate
  pub priced : s.status ≢ PricingStatus.unknown
  pub fresh : request.automatic ≡ true → request.cloud ≡ true → s.status ≡ PricingStatus.known
  pub own_provider : p.provider ≡ request.provider
  pub own_model : p.model ≡ request.model
  pub own_status : p.status ≡ s.status
  pub version : p.pricing_version ≡ config.pricing_version

find_snapshot-provider :
    (p : ProviderId) (l : List PricingSnapshot) (s : PricingSnapshot)
    → find_snapshot p l ≡ some s
    → s.provider ≡ p
unfolding find_snapshot
find_snapshot-provider p [] s h = cc
find_snapshot-provider p (x ∷ l) s h =
    ground (arith, provider_id_eq_iff x.provider p, find_snapshot-provider p l s)

complete_lem :
    (config : ConfigSnapshot) (s : PricingSnapshot) (m c : Option Text) (i o : Option ℕ)
    {p : ResolvedPricing}
    → complete config s m c i o ≡ ok p
    → (m ≡ some p.model)
      × (c ≡ some p.currency)
      × (i ≡ some p.input_rate)
      × (o ≡ some p.output_rate)
      × (s.cache_read_rate ≡ p.cache_read_rate)
      × (s.cache_write_rate ≡ p.cache_write_rate)
      × (p.provider ≡ s.provider)
      × (p.status ≡ s.status)
      × (p.pricing_version ≡ config.pricing_version)
unfolding complete
complete_lem config s m c i o h = ground arith

resolve_snapshot-Priced :
    (config : ConfigSnapshot) (request : PricingRequest) (s : PricingSnapshot) (p : ResolvedPricing)
    → s.provider ≡ request.provider
    → resolve_snapshot config request s ≡ ok p
    → Priced config request s p
unfolding resolve_snapshot
resolve_snapshot-Priced config request s p e h =
    let (_, known, h1) =
      >>=-eq-ok
        (throw_if (request.automatic && request.cloud && not (is_known s.status))
          PricingError.requires_known)
        _ h in
    let (_, priced, h2) = >>=-eq-ok (throw_if (is_unknown s.status) PricingError.unknown) _ h1 in
    let (q, eq, h3) =
      >>=-eq-ok (complete config s s.model s.currency s.input_rate s.output_rate) _ h2 in
    let (_, same, h4) =
      >>=-eq-ok (throw_if (not (q.model == request.model)) PricingError.model_mismatch) _ h3 in
    let fields = complete_lem config s s.model s.currency s.input_rate s.output_rate eq in
    let e4 : q ≡ p = ok_injective h4 in
    let model : q.model ≡ request.model = ground (arith, text_eq_iff q.model request.model) in
    record {
      provider = e;
      model = cc (fields.0, model);
      currency = cc fields.1;
      input_rate = cc fields.2;
      output_rate = cc fields.3;
      cache_read_rate = cc fields.4;
      cache_write_rate = cc fields.5;
      own_provider = cc (fields.6, e);
      own_model = cc model;
      own_status = cc fields.7;
      version = cc fields.8;
      priced = λ u. ground arith;
      fresh = λ a c. ground arith;
    }

-- A pricing that is resolved is that of the first snapshot of the provider, which has the model
-- that was asked for and every price, is not unknown, and is known where the call is automatic
-- and in the cloud; the pricing has the provider and model of the request, the prices and status
-- of the snapshot, and the version of the configuration.
pub resolve-Priced :
    (config : ConfigSnapshot) (request : PricingRequest) (p : ResolvedPricing)
    → resolve config request ≡ ok p
    → (s : PricingSnapshot) × (find_snapshot request.provider config.pricing_snapshots ≡ some s)
      × Priced config request s p
unfolding resolve
resolve-Priced config request p h =
    elim (Option-cases (find_snapshot request.provider config.pricing_snapshots)) [
      | inl missing ↦ absurd (cc (rw (missing, resolve) at h))
      | inr (s, found) ↦ (
        s,
        found,
        resolve_snapshot-Priced config request s p
            (find_snapshot-provider request.provider config.pricing_snapshots s found)
            (rw (found, resolve) at h),
      )
    ]
