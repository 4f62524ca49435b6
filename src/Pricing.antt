-- ===== src/Pricing.antt =====
-- Resolving a price and charging a call: packages/ai-cost-system/src/pricing.ts.
pub mod Cost
use ikimetr.Prelude.{
  ℕ, Bool, true, false, ◌&&◌, not, Option, none, some, List, [], ◌∷◌, nat_eq, if◌then◌else◌, Eq,
  ◌==◌, text_Eq, Text, Result, ok, err, ◌>>=◌, ◌>>◌, throw_if, map_err,
}
use ikimetr.Config.{ProviderId, provider_id_Eq, PricingStatus, PricingSnapshot, ConfigSnapshot}
use ikimetr.Money.{Money, MoneyError, create_money, add_money, calculate_micros_for_tokens}

pub record TokenUsage : Type 0 where
  pub input_tokens : ℕ
  pub output_tokens : ℕ
  pub cache_read_tokens : ℕ
  pub cache_write_tokens : ℕ

pub record ResolvedPricing : Type 0 where
  pub pricing_version : Text
  pub provider : ProviderId
  pub model : Text
  pub currency : Text
  pub input_rate : ℕ
  pub output_rate : ℕ
  pub cache_read_rate : Option ℕ
  pub cache_write_rate : Option ℕ
  pub status : PricingStatus

pub record PricingRequest : Type 0 where
  pub provider : ProviderId
  pub model : Text
  pub automatic : Bool
  pub cloud : Bool

pub data PricingError : Type 0 where
  not_configured requires_known unknown incomplete model_mismatch : PricingError
  rate_unavailable : PricingError
  money : MoneyError → PricingError

-- `snapshots.find(({ provider }) => provider === request.provider)`
unfoldable pub find_snapshot : ProviderId → List PricingSnapshot → Option PricingSnapshot
find_snapshot p [] = none
find_snapshot p (s ∷ rest) = if s.provider == p then some s else find_snapshot p rest

abbrev pub is_known : PricingStatus → Bool
is_known PricingStatus.known = true
is_known _ = false

abbrev pub is_unknown : PricingStatus → Bool
is_unknown PricingStatus.unknown = true
is_unknown _ = false

-- The snapshot's four nullable fields, read together.
pub complete :
    ConfigSnapshot
    → PricingSnapshot
    → Option Text
    → Option Text
    → Option ℕ
    → Option ℕ
    → Result PricingError ResolvedPricing
complete config s (some model) (some currency) (some input) (some output) = ok (record {
  pricing_version = config.pricing_version;
  provider = s.provider;
  model = model;
  currency = currency;
  input_rate = input;
  output_rate = output;
  cache_read_rate = s.cache_read_rate;
  cache_write_rate = s.cache_write_rate;
  status = s.status;
})
complete config s _ _ _ _ = err PricingError.incomplete

unfoldable pub resolve_snapshot :
    ConfigSnapshot → PricingRequest → PricingSnapshot → Result PricingError ResolvedPricing
unfolding complete
resolve_snapshot config request s = do
  throw_if (request.automatic && request.cloud && not (is_known s.status))
      PricingError.requires_known
  throw_if (is_unknown s.status) PricingError.unknown
  pricing ← complete config s s.model s.currency s.input_rate s.output_rate
  throw_if (not (pricing.model == request.model)) PricingError.model_mismatch
  ok pricing

-- `PricingResolver.resolve`
unfoldable pub resolve : ConfigSnapshot → PricingRequest → Result PricingError ResolvedPricing
unfolding find_snapshot resolve_snapshot
resolve config request = elim (find_snapshot request.provider config.pricing_snapshots) [
  | none ↦ err PricingError.not_configured
  | some s ↦ resolve_snapshot config request s
]

-- `charge`: the new total
unfoldable pub charge : Text → Money → ℕ → Option ℕ → Result PricingError Money
charge currency total tokens none =
    if nat_eq tokens 0 then ok total else err PricingError.rate_unavailable
charge currency total tokens (some rate) = do
  micros ← map_err PricingError.money (calculate_micros_for_tokens tokens rate)
  cost ← map_err PricingError.money (create_money currency micros)
  map_err PricingError.money (add_money total cost)

-- `PricingResolver.calculateCost`
unfoldable pub calculate_cost : ResolvedPricing → TokenUsage → Result PricingError Money
unfolding charge
calculate_cost p usage = do
  zero_cost ← map_err PricingError.money (create_money p.currency 0)
  input ← charge p.currency zero_cost usage.input_tokens (some p.input_rate)
  output ← charge p.currency input usage.output_tokens (some p.output_rate)
  read ← charge p.currency output usage.cache_read_tokens p.cache_read_rate
  charge p.currency read usage.cache_write_tokens p.cache_write_rate
