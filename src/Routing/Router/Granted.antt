-- ===== src/Routing/Router/Granted.antt =====
-- cost-router.ts: the approvals that a selected provider has.
use ikimetr.Prelude.{◌≡◌, ◌≢◌, refl, ◌∙◌, Option, none, some, List, [], ◌∷◌, All, if◌then◌else◌}
use ikimetr.Config.{ProviderId, provider_id_Eq}
use ikimetr.LedgerEvents.{ApprovalDecision}
use ikimetr.Routing.Codes.{ApprovalStatus, ApprovalScope}
use ikimetr.Routing.Policy.{TaskRoutingRequest}
use ikimetr.Routing.State.{EffectiveApprovalState, RoutingState, get_approval_state}
use ikimetr.Routing.Router.{ProviderRoute}
use ikimetr.Routing.Router.Approval.{
  is_nil, required_scopes, approval_of, check_scopes, evaluate_approval,
}
use ikimetr.Routing.Router.Provider.{CostRouter}

-- A scope that the ledger grants.
pub record Granted (state : RoutingState) (required : Option ApprovalScope) : Type 0 where
  pub scope : ApprovalScope
  pub is_scope : required ≡ some scope
  pub approved :
      get_approval_state state scope ≡ EffectiveApprovalState.decided ApprovalDecision.approved

approval_of-passed :
    (s : EffectiveApprovalState) (rest : ApprovalStatus)
    → approval_of s rest ≢ ApprovalStatus.required
    → approval_of s rest ≢ ApprovalStatus.denied
    → (s ≡ EffectiveApprovalState.decided ApprovalDecision.approved) × (approval_of s rest ≡ rest)
approval_of-passed (EffectiveApprovalState.decided ApprovalDecision.approved) rest r d =
    (refl, refl)
approval_of-passed (EffectiveApprovalState.decided ApprovalDecision.denied) rest r d =
    absurd (d refl)
approval_of-passed (EffectiveApprovalState.decided ApprovalDecision.revoked) rest r d =
    absurd (d refl)
approval_of-passed EffectiveApprovalState.missing rest r d = absurd (r refl)

check_scopes-Granted :
    (state : RoutingState) (scopes : List (Option ApprovalScope))
    → check_scopes state scopes ≢ ApprovalStatus.required
    → check_scopes state scopes ≢ ApprovalStatus.denied
    → All (Granted state) scopes
unfolding check_scopes
check_scopes-Granted state [] r d = tt
check_scopes-Granted state (none ∷ scopes) r d = absurd (d refl)
check_scopes-Granted state (some scope ∷ scopes) r d =
    let (e, same) =
      approval_of-passed (get_approval_state state scope) (check_scopes state scopes) r d in
    (
      record { scope = scope; is_scope = refl; approved = e },
      check_scopes-Granted state scopes (λ h. r (same ∙ h)) (λ h. d (same ∙ h)),
    )

pub evaluate_approval-Granted :
    (router : CostRouter) (request : TaskRoutingRequest) (state : RoutingState)
    (route : ProviderRoute) (id : ProviderId)
    → evaluate_approval router.config state request route id ≢ ApprovalStatus.required
    → evaluate_approval router.config state request route id ≢ ApprovalStatus.denied
    → All (Granted state) (required_scopes router.config request route id)
unfolding evaluate_approval
evaluate_approval-Granted router request state route id r d =
    checked (required_scopes router.config request route id) r d
  where
    checked :
        (scopes : List (Option ApprovalScope))
        → (if is_nil scopes then ApprovalStatus.not_required else check_scopes state scopes)
          ≢ ApprovalStatus.required
        → (if is_nil scopes then ApprovalStatus.not_required else check_scopes state scopes)
          ≢ ApprovalStatus.denied
        → All (Granted state) scopes
    checked [] r d = tt
    checked (s ∷ scopes) r d = check_scopes-Granted state (s ∷ scopes) r d
