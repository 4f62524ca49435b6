-- ===== src/Config/Enums.antt =====
-- The string enumerations of packages/ai-cost-system/src/schemas.ts and routing-contracts.ts, with
-- `===` on those that the code compares.
use ikimetr.Prelude.{
  ℕ, zero, suc, ◌≡◌, refl, sym, ap, ◌∙◌, ◌↔◌, true, Text, text, arith, Eq, nat_eq, nat_eq_iff,
}

pub data ProviderId : Type 0 where
  local_ai deepseek qwen codex claude : ProviderId

pub data RiskClass : Type 0 where
  low standard high security_critical : RiskClass

pub data CapabilityId : Type 0 where
  exact_comparison hashing formatting schema_validation verification_result_interpretation exact_sql
        regex file_lookup serena_navigation deduplication config_validation routine_analysis
        routine_implementation documentation test_generation low_risk_refactor
        complex_implementation complex_debugging architecture_review security_review :
      CapabilityId

pub data DataClass : Type 0 where
  public internal sensitive : DataClass

pub data Route : Type 0 where
  deterministic local cheap_cloud strong : Route

pub data InvocationMode : Type 0 where
  automatic manual_handoff : InvocationMode

pub data BudgetClass : Type 0 where
  none local_only cheap_allowed strong_allowed incident_override : BudgetClass

pub data PricingStatus : Type 0 where
  known stale unknown : PricingStatus

abbrev pub provider_id_index : ProviderId → ℕ
provider_id_index ProviderId.local_ai = 0
provider_id_index ProviderId.deepseek = 1
provider_id_index ProviderId.qwen = 2
provider_id_index ProviderId.codex = 3
provider_id_index ProviderId.claude = 4

pub provider_id_eq_iff :
    (a b : ProviderId) → (nat_eq (provider_id_index a) (provider_id_index b) ≡ true) ↔ (a ≡ b)
provider_id_eq_iff a b = ground arith

instance abbrev pub provider_id_Eq : Eq ProviderId
provider_id_Eq = record {
  beq = λ a b. nat_eq (provider_id_index a) (provider_id_index b);
  beq_iff = provider_id_eq_iff;
}

abbrev pub risk_class_index : RiskClass → ℕ
risk_class_index RiskClass.low = 0
risk_class_index RiskClass.standard = 1
risk_class_index RiskClass.high = 2
risk_class_index RiskClass.security_critical = 3

pub risk_class_eq_iff :
    (a b : RiskClass) → (nat_eq (risk_class_index a) (risk_class_index b) ≡ true) ↔ (a ≡ b)
risk_class_eq_iff a b = ground arith

instance abbrev pub risk_class_Eq : Eq RiskClass
risk_class_Eq = record {
  beq = λ a b. nat_eq (risk_class_index a) (risk_class_index b);
  beq_iff = risk_class_eq_iff;
}

abbrev pub capability_id_index : CapabilityId → ℕ
capability_id_index CapabilityId.exact_comparison = 0
capability_id_index CapabilityId.hashing = 1
capability_id_index CapabilityId.formatting = 2
capability_id_index CapabilityId.schema_validation = 3
capability_id_index CapabilityId.verification_result_interpretation = 4
capability_id_index CapabilityId.exact_sql = 5
capability_id_index CapabilityId.regex = 6
capability_id_index CapabilityId.file_lookup = 7
capability_id_index CapabilityId.serena_navigation = 8
capability_id_index CapabilityId.deduplication = 9
capability_id_index CapabilityId.config_validation = 10
capability_id_index CapabilityId.routine_analysis = 11
capability_id_index CapabilityId.routine_implementation = 12
capability_id_index CapabilityId.documentation = 13
capability_id_index CapabilityId.test_generation = 14
capability_id_index CapabilityId.low_risk_refactor = 15
capability_id_index CapabilityId.complex_implementation = 16
capability_id_index CapabilityId.complex_debugging = 17
capability_id_index CapabilityId.architecture_review = 18
capability_id_index CapabilityId.security_review = 19

capability_id_of : ℕ → CapabilityId
capability_id_of zero = CapabilityId.exact_comparison
capability_id_of (suc zero) = CapabilityId.hashing
capability_id_of (suc (suc zero)) = CapabilityId.formatting
capability_id_of (suc (suc (suc zero))) = CapabilityId.schema_validation
capability_id_of (suc (suc (suc (suc zero)))) = CapabilityId.verification_result_interpretation
capability_id_of (suc (suc (suc (suc (suc zero))))) = CapabilityId.exact_sql
capability_id_of (suc (suc (suc (suc (suc (suc zero)))))) = CapabilityId.regex
capability_id_of (suc (suc (suc (suc (suc (suc (suc zero))))))) = CapabilityId.file_lookup
capability_id_of (suc (suc (suc (suc (suc (suc (suc (suc zero)))))))) =
    CapabilityId.serena_navigation
capability_id_of (suc (suc (suc (suc (suc (suc (suc (suc (suc zero))))))))) =
    CapabilityId.deduplication
capability_id_of (suc (suc (suc (suc (suc (suc (suc (suc (suc (suc zero)))))))))) =
    CapabilityId.config_validation
capability_id_of (suc (suc (suc (suc (suc (suc (suc (suc (suc (suc (suc zero))))))))))) =
    CapabilityId.routine_analysis
capability_id_of (suc (suc (suc (suc (suc (suc (suc (suc (suc (suc (suc (suc zero)))))))))))) =
    CapabilityId.routine_implementation
capability_id_of
      (suc (suc (suc (suc (suc (suc (suc (suc (suc (suc (suc (suc (suc zero))))))))))))) =
    CapabilityId.documentation
capability_id_of
      (suc (suc (suc (suc (suc (suc (suc (suc (suc (suc (suc (suc (suc (suc zero)))))))))))))) =
    CapabilityId.test_generation
capability_id_of
      (suc
        (suc (suc (suc (suc (suc (suc (suc (suc (suc (suc (suc (suc (suc (suc zero))))))))))))))) =
    CapabilityId.low_risk_refactor
capability_id_of
      (suc (
        suc (
          suc
            (suc (suc (suc (suc (suc (suc (suc (suc (suc (suc (suc (suc (suc zero)))))))))))))))) =
    CapabilityId.complex_implementation
capability_id_of
      (suc (
        suc (
          suc (
            suc (
              suc
                (suc (suc (suc (suc (suc (suc (suc (suc (suc (suc (suc (suc zero))))))))))))))))) =
    CapabilityId.complex_debugging
capability_id_of
      (suc (
        suc (
          suc (
            suc (
              suc (
                suc (
                  suc
                    (suc (suc (suc (suc (suc (suc (suc (suc (suc (suc (suc zero)))))))))))))))))) =
    CapabilityId.architecture_review
capability_id_of
      (suc (
        suc (
          suc (
            suc (
              suc (
                suc (
                  suc (
                    suc
                      (suc (suc (suc (suc (suc (suc (suc (suc (suc (suc (suc _))))))))))))))))))) =
    CapabilityId.security_review

capability_id_of-index : (a : CapabilityId) → capability_id_of (capability_id_index a) ≡ a
unfolding capability_id_of
capability_id_of-index CapabilityId.exact_comparison = refl
capability_id_of-index CapabilityId.hashing = refl
capability_id_of-index CapabilityId.formatting = refl
capability_id_of-index CapabilityId.schema_validation = refl
capability_id_of-index CapabilityId.verification_result_interpretation = refl
capability_id_of-index CapabilityId.exact_sql = refl
capability_id_of-index CapabilityId.regex = refl
capability_id_of-index CapabilityId.file_lookup = refl
capability_id_of-index CapabilityId.serena_navigation = refl
capability_id_of-index CapabilityId.deduplication = refl
capability_id_of-index CapabilityId.config_validation = refl
capability_id_of-index CapabilityId.routine_analysis = refl
capability_id_of-index CapabilityId.routine_implementation = refl
capability_id_of-index CapabilityId.documentation = refl
capability_id_of-index CapabilityId.test_generation = refl
capability_id_of-index CapabilityId.low_risk_refactor = refl
capability_id_of-index CapabilityId.complex_implementation = refl
capability_id_of-index CapabilityId.complex_debugging = refl
capability_id_of-index CapabilityId.architecture_review = refl
capability_id_of-index CapabilityId.security_review = refl

capability_id_index_injective :
    (a b : CapabilityId) → capability_id_index a ≡ capability_id_index b → a ≡ b
capability_id_index_injective a b h =
    sym (capability_id_of-index a) ∙ ap capability_id_of h ∙ capability_id_of-index b

pub capability_id_eq_iff :
    (a b : CapabilityId) → (nat_eq (capability_id_index a) (capability_id_index b) ≡ true) ↔ (a ≡ b)
capability_id_eq_iff a b = (
  λ h. capability_id_index_injective a b ((nat_eq_iff _ _).0 h),
  λ e. (nat_eq_iff _ _).1 (ap capability_id_index e),
)

instance abbrev pub capability_id_Eq : Eq CapabilityId
capability_id_Eq = record {
  beq = λ a b. nat_eq (capability_id_index a) (capability_id_index b);
  beq_iff = capability_id_eq_iff;
}

abbrev pub data_class_index : DataClass → ℕ
data_class_index DataClass.public = 0
data_class_index DataClass.internal = 1
data_class_index DataClass.sensitive = 2

pub data_class_eq_iff :
    (a b : DataClass) → (nat_eq (data_class_index a) (data_class_index b) ≡ true) ↔ (a ≡ b)
data_class_eq_iff a b = ground arith

instance abbrev pub data_class_Eq : Eq DataClass
data_class_Eq = record {
  beq = λ a b. nat_eq (data_class_index a) (data_class_index b);
  beq_iff = data_class_eq_iff;
}

abbrev pub route_index : Route → ℕ
route_index Route.deterministic = 0
route_index Route.local = 1
route_index Route.cheap_cloud = 2
route_index Route.strong = 3

pub route_eq_iff : (a b : Route) → (nat_eq (route_index a) (route_index b) ≡ true) ↔ (a ≡ b)
route_eq_iff a b = ground arith

instance abbrev pub route_Eq : Eq Route
route_Eq = record { beq = λ a b. nat_eq (route_index a) (route_index b); beq_iff = route_eq_iff }

-- The provider's identifier as a string.
abbrev pub provider_name : ProviderId → Text
provider_name ProviderId.local_ai = text "local-ai"
provider_name ProviderId.deepseek = text "deepseek"
provider_name ProviderId.qwen = text "qwen"
provider_name ProviderId.codex = text "codex"
provider_name ProviderId.claude = text "claude"
