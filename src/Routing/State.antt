-- ===== src/Routing/State.antt =====
-- routing-state.ts: the evidence of earlier routing that a ledger holds for one task.
pub mod Latest
pub mod Failures
use ikimetr.Prelude.{
  ℕ, ◌-◌, Bool, true, false, ◌&&◌, ◌||◌, not, Option, none, some, List, [], ◌∷◌, ◌++◌, ltb, nat_eq,
  if◌then◌else◌, Eq, ◌==◌, any, keep, Text, text, text_Eq,
}
use ikimetr.Prelude.Dict.{Dict, lookup, insert}
use ikimetr.Config.{ProviderId, Route, provider_name, route_Eq}
use ikimetr.LedgerEvents.{
  AttemptStatus, HealthStatus, ApprovalDecision, AttemptStarted, AttemptCompleted, LedgerEvent,
}
use ikimetr.Routing.Codes.{ApprovalScope}

pub data ProviderHealthState : Type 0 where
  healthy degraded unavailable unknown : ProviderHealthState

pub data EffectiveApprovalState : Type 0 where
  decided : ApprovalDecision → EffectiveApprovalState
  missing : EffectiveApprovalState

pub record RoutingAttemptEvidence : Type 0 where
  pub attempt_id : Text
  pub route : Route
  pub request_fingerprint : Text
  pub status : AttemptStatus
  pub patch_hash : Option Text
  pub error_fingerprint : Option Text
  pub escalation_reason : Option Text
  pub verification_evidence_hashes : List Text

pub record RoutingState : Type 0 where
  pub task_id : Text
  pub provider_health : Dict Text ProviderHealthState
  pub approvals : Dict Text ApprovalDecision
  pub attempts : List RoutingAttemptEvidence

-- `left < right` on strings
unfoldable pub text_lt : Text → Text → Bool
text_lt s [] = false
text_lt [] (b ∷ t) = true
text_lt (a ∷ s) (b ∷ t) = ltb a b || nat_eq a b && text_lt s t

unfoldable pub insert_sorted {ℓ} : {V : Type ℓ} → Text → V → Dict Text V → Dict Text V
unfolding text_lt
insert_sorted key v [] = (key, v) ∷ []
insert_sorted key v ((k, w) ∷ rest) =
    if text_lt k key then (k, w) ∷ insert_sorted key v rest else (key, v) ∷ (k, w) ∷ rest

-- `sortRecord`
unfoldable pub sort_record {ℓ} : {V : Type ℓ} → Dict Text V → Dict Text V
sort_record [] = []
sort_record ((k, v) ∷ rest) = insert_sorted k v (sort_record rest)

unfoldable pub insert_text : Text → List Text → List Text
insert_text s [] = s ∷ []
insert_text s (t ∷ rest) = if text_lt t s then t ∷ insert_text s rest else s ∷ t ∷ rest

-- `[...hashes].sort()`
unfoldable pub sort_texts : List Text → List Text
sort_texts [] = []
sort_texts (t ∷ rest) = insert_text t (sort_texts rest)

unfoldable pub health_key : ProviderId → Text → Text
health_key provider model = provider_name provider ++ b'|' ∷ model

abbrev pub normalize_health : HealthStatus → ProviderHealthState
normalize_health HealthStatus.healthy = ProviderHealthState.healthy
normalize_health HealthStatus.unavailable = ProviderHealthState.unavailable
normalize_health _ = ProviderHealthState.degraded

-- The maps of `deriveRoutingState`.
pub record Evidence : Type 0 where
  pub health : Dict Text ProviderHealthState
  pub decisions : Dict Text ApprovalDecision
  pub starts : Dict Text AttemptStarted
  pub verification_hashes : Dict Text (List Text)

abbrev pub or_empty : Option (List Text) → List Text
or_empty none = []
or_empty (some l) = l

unfoldable pub collect_event : Text → LedgerEvent → Evidence → Evidence
collect_event task_id (LedgerEvent.provider_health e) st = record st {
  health = insert (health_key e.provider e.model) (normalize_health e.status) st.health;
}
collect_event task_id (LedgerEvent.approval e) st =
    if e.task_id == task_id
    then record st { decisions = insert e.scope e.decision st.decisions }
    else st
collect_event task_id (LedgerEvent.attempt_started e) st =
    if e.task_id == task_id then record st { starts = insert e.attempt_id e st.starts } else st
collect_event task_id (LedgerEvent.verification e) st = record st {
  verification_hashes =
      insert e.attempt_id
        (or_empty (lookup e.attempt_id st.verification_hashes) ++ e.evidence_hash ∷ [])
        st.verification_hashes;
}
collect_event task_id _ st = st

unfoldable pub collect : Text → List LedgerEvent → Evidence → Evidence
collect task_id [] st = st
collect task_id (e ∷ events) st = collect task_id events (collect_event task_id e st)

unfoldable pub attempt_evidence :
    Evidence → AttemptCompleted → AttemptStarted → RoutingAttemptEvidence
attempt_evidence st event started = record {
  attempt_id = event.attempt_id;
  route = started.route;
  request_fingerprint = started.request_fingerprint;
  status = event.status;
  patch_hash = event.patch_hash;
  error_fingerprint = event.error_fingerprint;
  escalation_reason = event.escalation_reason;
  verification_evidence_hashes =
      sort_texts (or_empty (lookup event.attempt_id st.verification_hashes));
}

-- What the second loop adds for an event.
unfoldable pub attempt_of : Text → Evidence → LedgerEvent → List RoutingAttemptEvidence
attempt_of task_id st (LedgerEvent.attempt_completed e) =
    if e.task_id == task_id
    then elim (lookup e.attempt_id st.starts) [
      | none ↦ []
      | some started ↦ attempt_evidence st e started ∷ []
    ]
    else []
attempt_of task_id st _ = []

unfoldable pub collect_attempts : Text → Evidence → List LedgerEvent → List RoutingAttemptEvidence
collect_attempts task_id st [] = []
collect_attempts task_id st (e ∷ events) =
    attempt_of task_id st e ++ collect_attempts task_id st events

abbrev pub no_evidence : Evidence
no_evidence = record { health = []; decisions = []; starts = []; verification_hashes = [] }

unfoldable pub derive_routing_state : List LedgerEvent → Text → RoutingState
derive_routing_state events task_id =
    let st = collect task_id events no_evidence in
    record {
      task_id = task_id;
      provider_health = sort_record st.health;
      approvals = sort_record st.decisions;
      attempts = collect_attempts task_id st events;
    }

abbrev pub or_unknown : Option ProviderHealthState → ProviderHealthState
or_unknown none = ProviderHealthState.unknown
or_unknown (some h) = h

abbrev pub or_missing : Option ApprovalDecision → EffectiveApprovalState
or_missing none = EffectiveApprovalState.missing
or_missing (some d) = EffectiveApprovalState.decided d

unfoldable pub get_provider_health : RoutingState → ProviderId → Text → ProviderHealthState
get_provider_health state provider model =
    or_unknown (lookup (health_key provider model) state.provider_health)

abbrev pub scope_name : ApprovalScope → Text
scope_name ApprovalScope.cheap_cloud = text "cheap-cloud"
scope_name ApprovalScope.strong = text "strong"
scope_name ApprovalScope.sensitive_cloud = text "sensitive-cloud"
scope_name ApprovalScope.secondary_claude = text "secondary-claude"
scope_name ApprovalScope.budget_override = text "budget-override"
scope_name ApprovalScope.retry_override = text "retry-override"
scope_name ApprovalScope.provider_override = text "provider-override"

unfoldable pub get_approval_state : RoutingState → ApprovalScope → EffectiveApprovalState
get_approval_state state scope = or_missing (lookup (scope_name scope) state.approvals)

abbrev pub is_failure : AttemptStatus → Bool
is_failure AttemptStatus.failed = true
is_failure AttemptStatus.blocked = true
is_failure _ = false

abbrev pub is_text : Option Text → Text → Bool
is_text none t = false
is_text (some s) t = s == t

-- `requestHash === undefined || attempt.request_fingerprint === requestHash`
abbrev pub of_request : Option Text → RoutingAttemptEvidence → Bool
of_request none attempt = true
of_request (some hash) attempt = attempt.request_fingerprint == hash

abbrev pub insufficiency_reason : Route → Text
insufficiency_reason Route.local = text "local-insufficient"
insufficiency_reason _ = text "cheap-insufficient"

-- The source's type admits the routes `local` and `cheap-cloud`.
unfoldable pub has_route_insufficiency : RoutingState → Route → Option Text → Bool
has_route_insufficiency state route request_hash =
    any
      (λ (attempt : RoutingAttemptEvidence).
        attempt.route == route
        && of_request request_hash attempt
        && is_failure attempt.status
        && is_text attempt.escalation_reason (insufficiency_reason route))
      state.attempts

-- A failure with this error and this patch.
abbrev pub is_same_failure : Text → Text → Option Text → RoutingAttemptEvidence → Bool
is_same_failure error diff request_hash attempt =
    is_failure attempt.status
    && is_text attempt.error_fingerprint error
    && is_text attempt.patch_hash diff
    && of_request request_hash attempt

-- `hashes.join('|')`
abbrev pub join_hashes : List Text → Text
join_hashes [] = []
join_hashes (h ∷ []) = h
join_hashes (h ∷ rest) = h ++ b'|' ∷ join_hashes rest

-- `matching.at(-2)` and `matching.at(-1)`, where there are two.
abbrev pub last_two {ℓ} : {A : Type ℓ} → List A → Option (A × A)
last_two [] = none
last_two (a ∷ []) = none
last_two (a ∷ b ∷ []) = some (a, b)
last_two (a ∷ b ∷ c ∷ rest) = last_two (b ∷ c ∷ rest)

unfoldable pub same_outcome : Option (RoutingAttemptEvidence × RoutingAttemptEvidence) → Bool
same_outcome none = false
same_outcome (some (previous, latest)) =
    previous.route == latest.route
    && join_hashes previous.verification_evidence_hashes
      == join_hashes latest.verification_evidence_hashes

unfoldable pub has_repeated_failure : RoutingState → Option Text → Option Text → Option Text → Bool
unfolding same_outcome
has_repeated_failure state none diff request_hash = false
has_repeated_failure state (some error) none request_hash = false
has_repeated_failure state (some error) (some diff) request_hash =
    same_outcome (last_two (keep (is_same_failure error diff request_hash) state.attempts))
