-- ===== src/Routing/Router/Approval.antt =====
-- cost-router.ts: `evaluateApproval`.
use ikimetr.Prelude.{
  Bool, true, false, ◌&&◌, not, Option, none, some, List, [], ◌∷◌, ◌++◌, if◌then◌else◌, ◌==◌,
  text_Eq,
}
use ikimetr.Config.{ProviderId, DataClass, ConfigSnapshot, provider_id_Eq, data_class_Eq}
use ikimetr.LedgerEvents.{ApprovalDecision}
use ikimetr.Routing.Codes.{ApprovalStatus, ApprovalScope}
use ikimetr.Routing.Policy.{RequestDataClass, PrimaryAgent, TaskRoutingRequest}
use ikimetr.Routing.State.{EffectiveApprovalState, RoutingState, get_approval_state}
use ikimetr.Routing.Router.{ProviderRoute, to_route}

-- A required scope: `none` is the route `local`, which is no approval scope.
abbrev pub route_scope : ProviderRoute → Option ApprovalScope
route_scope ProviderRoute.local = none
route_scope ProviderRoute.cheap_cloud = some ApprovalScope.cheap_cloud
route_scope ProviderRoute.strong = some ApprovalScope.strong

abbrev pub is_local_route : ProviderRoute → Bool
is_local_route ProviderRoute.local = true
is_local_route _ = false

abbrev pub is_sensitive : RequestDataClass → Bool
is_sensitive (RequestDataClass.allowable d) = d == DataClass.sensitive
is_sensitive RequestDataClass.secret = false

abbrev pub is_claude_agent : Option PrimaryAgent → Bool
is_claude_agent (some PrimaryAgent.claude) = true
is_claude_agent _ = false

abbrev pub scope_if : Bool → Option ApprovalScope → List (Option ApprovalScope)
scope_if b scope = if b then scope ∷ [] else []

unfoldable pub required_scopes :
    ConfigSnapshot → TaskRoutingRequest → ProviderRoute → ProviderId → List (Option ApprovalScope)
required_scopes config request route provider =
    scope_if (config.routes (to_route route)).approval_required (route_scope route)
    ++ (scope_if (is_sensitive request.data_class && not (is_local_route route))
          (some ApprovalScope.sensitive_cloud)
        ++ scope_if
            (provider == ProviderId.claude && not (is_claude_agent request.manual_primary_agent))
            (some ApprovalScope.secondary_claude))

abbrev pub approval_of : EffectiveApprovalState → ApprovalStatus → ApprovalStatus
approval_of (EffectiveApprovalState.decided ApprovalDecision.approved) rest = rest
approval_of (EffectiveApprovalState.decided _) rest = ApprovalStatus.denied
approval_of EffectiveApprovalState.missing rest = ApprovalStatus.required

-- The loop of `evaluateApproval`
unfoldable pub check_scopes : RoutingState → List (Option ApprovalScope) → ApprovalStatus
check_scopes state [] = ApprovalStatus.approved
check_scopes state (none ∷ scopes) = ApprovalStatus.denied
check_scopes state (some scope ∷ scopes) =
    approval_of (get_approval_state state scope) (check_scopes state scopes)

abbrev pub is_nil {ℓ} : {A : Type ℓ} → List A → Bool
is_nil [] = true
is_nil (x ∷ xs) = false

unfoldable pub evaluate_approval :
    ConfigSnapshot → RoutingState → TaskRoutingRequest → ProviderRoute → ProviderId → ApprovalStatus
unfolding required_scopes check_scopes
evaluate_approval config state request route provider =
    let required = required_scopes config request route provider in
    if is_nil required then ApprovalStatus.not_required else check_scopes state required
