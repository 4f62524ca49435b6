-- ===== src/Routing/Policy.antt =====
-- policy-evaluator.ts: which routes and providers a request may use.
use ikimetr.Prelude.{
  ℕ, ◌≡◌, refl, ◌↔◌, Bool, true, false, ◌&&◌, ◌||◌, not, Option, List, [], ◌∷◌, arith, ltb,
  if◌then◌else◌, Eq, ◌==◌, any, Text, text, text_Eq, ◌≤◌,
}
use ikimetr.Config.{
  ProviderId, RiskClass, CapabilityId, DataClass, Route, ProviderConfig, ConfigSnapshot,
  provider_id_Eq, risk_class_Eq, capability_id_Eq, data_class_Eq, route_Eq, provider_id_eq_iff,
  risk_class_eq_iff,
}
use ikimetr.Routing.Codes.{ApprovalScope}

-- A data class of a request: one that a provider can be allowed to have, or `secret`.
pub data RequestDataClass : Type 0 where
  allowable : DataClass → RequestDataClass
  secret : RequestDataClass

pub data PrimaryAgent : Type 0 where
  codex claude : PrimaryAgent

pub record TaskRoutingRequest : Type 0 where
  pub task_id : Text
  pub task_type : Text
  pub purpose : Text
  pub risk_class : RiskClass
  pub data_class : RequestDataClass
  pub requested_capability : CapabilityId
  pub task_spec_hash : Text
  pub input_hashes : List Text
  pub current_diff_hash : Option Text
  pub error_fingerprint : Option Text
  pub verification_profile : Text
  pub allowed_routes : List Route
  pub max_route : Route
  pub requested_scopes : List ApprovalScope
  pub manual_primary_agent : Option PrimaryAgent

pub data PolicyReason : Type 0 where
  route_allowed route_not_allowed max_route_exceeded provider_disabled data_class_denied :
      PolicyReason
  risk_class_denied capability_denied local_task_not_allowed data_policy_allowed : PolicyReason

pub record PolicyResult : Type 0 where
  pub allowed : Bool
  pub reason_code : PolicyReason

abbrev pub deny : PolicyReason → PolicyResult
deny reason = record { allowed = false; reason_code = reason }

abbrev pub allow : PolicyReason → PolicyResult
allow reason = record { allowed = true; reason_code = reason }

abbrev pub includes {ℓ} : {A : Type ℓ} ⦃e : Eq A⦄ → A → List A → Bool
includes x l = any (λ y. y == x) l

-- `routeRank`
abbrev pub route_rank : Route → ℕ
route_rank Route.deterministic = 0
route_rank Route.local = 1
route_rank Route.cheap_cloud = 2
route_rank Route.strong = 3

abbrev pub deterministic_capabilities : List CapabilityId
deterministic_capabilities =
    CapabilityId.exact_comparison ∷ CapabilityId.hashing ∷ CapabilityId.formatting
    ∷ CapabilityId.schema_validation ∷ CapabilityId.verification_result_interpretation
    ∷ CapabilityId.exact_sql ∷ CapabilityId.regex ∷ CapabilityId.file_lookup
    ∷ CapabilityId.serena_navigation ∷ CapabilityId.deduplication ∷ CapabilityId.config_validation
    ∷ []

abbrev pub local_ai_whitelist : List Text
local_ai_whitelist =
    text "classification"
    ∷ text "short_documentation"
    ∷ text "tiny_typescript"
    ∷ text "simple_test_skeleton"
    ∷ text "trivial_local_fix"
    ∷ []

unfoldable pub is_deterministic_capability : TaskRoutingRequest → Bool
is_deterministic_capability request =
    includes request.requested_capability deterministic_capabilities

unfoldable pub evaluate_route_policy : TaskRoutingRequest → Route → PolicyResult
evaluate_route_policy request route =
    if not (includes route request.allowed_routes)
    then deny PolicyReason.route_not_allowed
    else if ltb (route_rank request.max_route) (route_rank route)
    then deny PolicyReason.max_route_exceeded
    else allow PolicyReason.route_allowed

abbrev pub is_local_ai : ProviderId → Bool
is_local_ai p = p == ProviderId.local_ai

-- `provider.allowedDataClasses.includes(request.data_class)`
abbrev pub allows_data_class : RequestDataClass → List DataClass → Bool
allows_data_class (RequestDataClass.allowable d) l = includes d l
allows_data_class RequestDataClass.secret l = false

abbrev pub is_secret : RequestDataClass → Bool
is_secret (RequestDataClass.allowable d) = false
is_secret RequestDataClass.secret = true

abbrev pub is_public : RequestDataClass → Bool
is_public (RequestDataClass.allowable d) = d == DataClass.public
is_public RequestDataClass.secret = false

unfoldable pub evaluate_provider_policy :
    ConfigSnapshot → TaskRoutingRequest → ProviderId → PolicyResult
evaluate_provider_policy config request provider_id =
    let provider = config.providers provider_id in
    if not provider.enabled
    then deny PolicyReason.provider_disabled
    else if is_secret request.data_class
        || not (allows_data_class request.data_class provider.allowed_data_classes)
    then deny PolicyReason.data_class_denied
    else if is_local_ai provider_id && not (is_public request.data_class)
    then deny PolicyReason.data_class_denied
    else if not (includes request.risk_class provider.allowed_risk_classes)
    then deny PolicyReason.risk_class_denied
    else if is_local_ai provider_id && not (request.risk_class == RiskClass.low)
    then deny PolicyReason.risk_class_denied
    else if not (includes request.requested_capability provider.allowed_capabilities)
    then deny PolicyReason.capability_denied
    else if is_local_ai provider_id && not (includes request.purpose local_ai_whitelist)
    then deny PolicyReason.local_task_not_allowed
    else allow PolicyReason.data_policy_allowed

-- The policy allows a route exactly when the request lists it and it ranks no higher than the
-- highest route of the request.
pub evaluate_route_policy_iff :
    (request : TaskRoutingRequest) (route : Route)
    → ((evaluate_route_policy request route).allowed ≡ true) ↔ (
        (includes route request.allowed_routes ≡ true)
        × (route_rank route ≤ route_rank request.max_route))
unfolding evaluate_route_policy
evaluate_route_policy_iff request route = (λ h. ground arith, λ h. ground arith)

-- The conditions under which a provider may have a request.
pub record Permitted (provider : ProviderConfig) (request : TaskRoutingRequest) (id : ProviderId)
    : Type 0 where
  pub enabled : provider.enabled ≡ true
  pub data_class :
      (d : DataClass) × (request.data_class ≡ RequestDataClass.allowable d)
      × (includes d provider.allowed_data_classes ≡ true)
  pub risk_class : includes request.risk_class provider.allowed_risk_classes ≡ true
  pub capability : includes request.requested_capability provider.allowed_capabilities ≡ true
  pub local :
      id ≡ ProviderId.local_ai
      → (request.data_class ≡ RequestDataClass.allowable DataClass.public)
        × (request.risk_class ≡ RiskClass.low)
        × (includes request.purpose local_ai_whitelist ≡ true)

class_of :
    (c : RequestDataClass) (l : List DataClass)
    → (is_secret c || not (allows_data_class c l)) ≡ false
    → (d : DataClass) × (c ≡ RequestDataClass.allowable d) × (includes d l ≡ true)
class_of (RequestDataClass.allowable d) l h = (d, refl, ground arith)
class_of RequestDataClass.secret l h = cc

public_of :
    (c : RequestDataClass) → is_public c ≡ true → c ≡ RequestDataClass.allowable DataClass.public
public_of (RequestDataClass.allowable DataClass.public) h = refl
public_of (RequestDataClass.allowable DataClass.internal) h = cc
public_of (RequestDataClass.allowable DataClass.sensitive) h = cc
public_of RequestDataClass.secret h = cc

-- The chain of tests, over their values.
passed_chain :
    (b1 b2 b3 b4 b5 b6 b7 : Bool)
    → (if not b1
        then deny PolicyReason.provider_disabled
        else if b2
        then deny PolicyReason.data_class_denied
        else if b3
        then deny PolicyReason.data_class_denied
        else if not b4
        then deny PolicyReason.risk_class_denied
        else if b5
        then deny PolicyReason.risk_class_denied
        else if not b6
        then deny PolicyReason.capability_denied
        else if b7
        then deny PolicyReason.local_task_not_allowed
        else allow PolicyReason.data_policy_allowed).allowed
      ≡ true
    → (b1 ≡ true)
      × (b2 ≡ false)
      × (b3 ≡ false)
      × (b4 ≡ true)
      × (b5 ≡ false)
      × (b6 ≡ true)
      × (b7 ≡ false)
passed_chain true false false true false true false h = (refl, refl, refl, refl, refl, refl, refl)
passed_chain false b2 b3 b4 b5 b6 b7 h = cc
passed_chain true true b3 b4 b5 b6 b7 h = cc
passed_chain true false true b4 b5 b6 b7 h = cc
passed_chain true false false false b5 b6 b7 h = cc
passed_chain true false false true true b6 b7 h = cc
passed_chain true false false true false false b7 h = cc
passed_chain true false false true false true true h = cc

test_of : {a b : Bool} → (a && not b) ≡ false → a ≡ true → b ≡ true
test_of h e = ground arith

-- A provider that the policy allows is enabled, and has the data class, the risk class and the
-- capability of the request among those it is allowed; the request is not secret; and for the
-- local provider the data is public, the risk low and the purpose on the whitelist.
pub evaluate_provider_policy-Permitted :
    (config : ConfigSnapshot) (request : TaskRoutingRequest) (id : ProviderId)
    → (evaluate_provider_policy config request id).allowed ≡ true
    → Permitted (config.providers id) request id
unfolding evaluate_provider_policy
evaluate_provider_policy-Permitted config request id h =
    let (enabled, class, shared, risk, low, capability, task) = passed_chain _ _ _ _ _ _ _ h in
    record {
      enabled = enabled;
      data_class = class_of request.data_class (config.providers id).allowed_data_classes class;
      risk_class = risk;
      capability = capability;
      local = λ e.
          let is_local : is_local_ai id ≡ true = (provider_id_eq_iff id ProviderId.local_ai).1 e in
          (
            public_of request.data_class (test_of shared is_local),
            (risk_class_eq_iff request.risk_class RiskClass.low).0 (test_of low is_local),
            test_of task is_local,
          );
    }
