-- ===== src/Routing/Decision.antt =====
-- routing-contracts.ts and policy-evaluator.ts: a decision is its draft with a summary and hashes.
-- SHA-256 of a canonical text is the record `Hashing`, with its one law that the code relies on.
use ikimetr.Prelude.{
  ◌≡◌, refl, sym, ap, ◌∙◌, Bool, true, false, ◌&&◌, not, List, leb, length, Text, text, text_Eq,
  text_eq_refl, ◌==◌, if◌then◌else◌, Result, ok, err, >>=-eq-ok, ok_injective, ◌>>=◌, ◌>>◌,
  throw_if,
}
use ikimetr.LedgerEvents.{is_sha256_hex}
use ikimetr.Routing.Codes.{ReasonCode}
use ikimetr.Routing.Policy.{TaskRoutingRequest}
use ikimetr.Routing.Draft.{
  RoutingTransition, RoutingDecisionDraft, DecisionError, parse_routing_decision_draft,
}

-- `reasonSummaries`
abbrev pub routing_reason_summary : ReasonCode → Text
routing_reason_summary ReasonCode.cache_hit = text "Compatible verified cache entry is reusable."
routing_reason_summary ReasonCode.cache_miss = text "No compatible verified cache entry was found."
routing_reason_summary ReasonCode.cache_invalidated = text "Cache entry is stale or incompatible."
routing_reason_summary ReasonCode.cache_quarantined =
    text "Cache integrity or provenance is invalid."
routing_reason_summary ReasonCode.cache_unavailable = text "Verified cache lookup is unavailable."
routing_reason_summary ReasonCode.secret_data_denied =
    text "Secret data is not routable to AI providers."
routing_reason_summary ReasonCode.deterministic_capability =
    text "The requested capability is deterministic."
routing_reason_summary ReasonCode.deterministic_unresolved =
    text "Deterministic tools cannot satisfy the request."
routing_reason_summary ReasonCode.route_allowed =
    text "The route is within the request policy boundary."
routing_reason_summary ReasonCode.route_not_allowed =
    text "The route is not allowlisted by the request."
routing_reason_summary ReasonCode.max_route_exceeded = text "The route exceeds the request maximum."
routing_reason_summary ReasonCode.provider_disabled = text "The provider is disabled."
routing_reason_summary ReasonCode.provider_healthy =
    text "The provider has validated healthy state."
routing_reason_summary ReasonCode.provider_degraded = text "The provider health is degraded."
routing_reason_summary ReasonCode.provider_unavailable = text "The provider is unavailable."
routing_reason_summary ReasonCode.provider_health_unknown =
    text "The provider has no healthy evidence."
routing_reason_summary ReasonCode.data_class_denied =
    text "The provider does not allow the data class."
routing_reason_summary ReasonCode.risk_class_denied =
    text "The provider does not allow the risk class."
routing_reason_summary ReasonCode.capability_denied =
    text "The provider does not allow the capability."
routing_reason_summary ReasonCode.data_policy_allowed =
    text "Provider data, risk, and capability policy allows the request."
routing_reason_summary ReasonCode.pricing_known = text "A usable pricing snapshot is available."
routing_reason_summary ReasonCode.pricing_stale = text "Provider pricing is stale."
routing_reason_summary ReasonCode.pricing_unknown = text "Provider pricing is unknown."
routing_reason_summary ReasonCode.budget_allowed =
    text "Read-only budget preflight allows the candidate."
routing_reason_summary ReasonCode.budget_denied = text "The effective budget denies the candidate."
routing_reason_summary ReasonCode.budget_not_configured =
    text "Required budget limits are not configured."
routing_reason_summary ReasonCode.approval_not_required =
    text "The candidate does not require approval."
routing_reason_summary ReasonCode.approval_required =
    text "The candidate requires explicit approval."
routing_reason_summary ReasonCode.approval_granted =
    text "Validated ledger approval permits the candidate."
routing_reason_summary ReasonCode.approval_denied =
    text "Validated ledger state denies the required approval."
routing_reason_summary ReasonCode.local_unavailable =
    text "No eligible local provider is available."
routing_reason_summary ReasonCode.local_insufficient =
    text "Validated evidence shows the local route was insufficient."
routing_reason_summary ReasonCode.cheap_unavailable =
    text "No eligible cheap-cloud provider is available."
routing_reason_summary ReasonCode.cheap_insufficient =
    text "Validated evidence shows the cheap-cloud route was insufficient."
routing_reason_summary ReasonCode.strong_unavailable =
    text "No eligible strong provider is available."
routing_reason_summary ReasonCode.no_provider_available =
    text "No approved provider can satisfy the request."
routing_reason_summary ReasonCode.repeated_request =
    text "The same failed request has no new verification evidence."
routing_reason_summary ReasonCode.config_invalid = text "The routing configuration is invalid."
routing_reason_summary ReasonCode.ledger_invalid = text "The accounting ledger is invalid."
routing_reason_summary ReasonCode.policy_contradiction =
    text "Routing policy inputs are contradictory."
routing_reason_summary ReasonCode.route_selected =
    text "The first eligible route and provider were selected."
routing_reason_summary ReasonCode.audit_append_failed =
    text "The routing decision could not be audited."
routing_reason_summary ReasonCode.local_task_not_allowed =
    text "Local AI does not allow this task type."

-- `sha256(canonicalize(...))` of a request, of a decision without its hash, and of a trace.
pub record Hashing : Type 0 where
  pub hash_request : TaskRoutingRequest → Text
  pub hash_decision : RoutingDecisionDraft → Text → Text → Text → Text
  pub hash_trace : List RoutingTransition → Text
  pub request_hex : (r : TaskRoutingRequest) → is_sha256_hex (hash_request r) ≡ true
  pub decision_hex :
      (d : RoutingDecisionDraft) (summary config request : Text)
      → is_sha256_hex (hash_decision d summary config request) ≡ true

pub record RoutingDecision : Type 0 where
  pub draft : RoutingDecisionDraft
  pub reason_summary : Text
  pub config_hash : Text
  pub request_hash : Text
  pub decision_hash : Text

-- `parseRoutingDecision`
unfoldable pub parse_routing_decision :
    Hashing → RoutingDecision → Result DecisionError RoutingDecision
parse_routing_decision hashing d = do
  parse_routing_decision_draft d.draft >>= λ _. ok tt
  throw_if
      (not (
        leb 1 (length d.reason_summary)
        && leb (length d.reason_summary) 160
        && is_sha256_hex d.config_hash
        && is_sha256_hex d.request_hash
        && is_sha256_hex d.decision_hash))
      DecisionError.invalid_draft
  throw_if (not (routing_reason_summary d.draft.reason_code == d.reason_summary))
      DecisionError.summary_mismatch
  throw_if
      (not (
        hashing.hash_decision d.draft d.reason_summary d.config_hash d.request_hash
        == d.decision_hash))
      DecisionError.hash_mismatch
  ok d

-- `createRoutingDecision`
unfoldable pub create_routing_decision :
    Hashing
    → TaskRoutingRequest
    → RoutingDecisionDraft
    → Text
    → Result DecisionError RoutingDecision
create_routing_decision hashing request value config_hash = do
  draft ← parse_routing_decision_draft value
  let summary = routing_reason_summary draft.reason_code
  let request_hash = hashing.hash_request request
  parse_routing_decision hashing (record {
    draft = draft;
    reason_summary = summary;
    config_hash = config_hash;
    request_hash = request_hash;
    decision_hash = hashing.hash_decision draft summary config_hash request_hash;
  })

-- Every summary is within the bounds of the schema.
summary_some : (c : ReasonCode) → leb 1 (length (routing_reason_summary c)) ≡ true
summary_some ReasonCode.cache_hit = refl
summary_some _ = refl

summary_short : (c : ReasonCode) → leb (length (routing_reason_summary c)) 160 ≡ true
summary_short ReasonCode.cache_hit = refl
summary_short _ = refl

-- A draft that is valid makes a decision.
pub create_routing_decision-ok :
    (hashing : Hashing) (request : TaskRoutingRequest) (d : RoutingDecisionDraft)
    (config_hash : Text)
    → parse_routing_decision_draft d ≡ ok d
    → is_sha256_hex config_hash ≡ true
    → (r : RoutingDecision) × (create_routing_decision hashing request d config_hash ≡ ok r)
      × (r.draft ≡ d)
      × (r.config_hash ≡ config_hash)
      × (r.request_hash ≡ hashing.hash_request request)
unfolding create_routing_decision parse_routing_decision
create_routing_decision-ok hashing request d config_hash valid hex =
    let summary = routing_reason_summary d.reason_code in
    let request_hash = hashing.hash_request request in
    let hash = hashing.hash_decision d summary config_hash request_hash in
    (
      record {
        draft = d;
        reason_summary = summary;
        config_hash = config_hash;
        request_hash = request_hash;
        decision_hash = hash;
      },
      rw
          (
            valid,
            valid,
            summary_some d.reason_code,
            summary_short d.reason_code,
            hex,
            hashing.request_hex request,
            hashing.decision_hex d summary config_hash request_hash,
            text_eq_refl summary,
            text_eq_refl hash,
          )
          refl,
      refl,
      refl,
      refl,
    )

-- What a decision keeps of the draft that it was made of.
pub record Keeps (hashing : Hashing) (request : TaskRoutingRequest) (d : RoutingDecisionDraft)
    (config : Text) (r : RoutingDecision) : Type 0 where
  pub draft : r.draft ≡ d
  pub config_hash : r.config_hash ≡ config
  pub request_hash : r.request_hash ≡ hashing.hash_request request
  pub valid : parse_routing_decision hashing r ≡ ok r

parse_routing_decision-same :
    (hashing : Hashing) (x r : RoutingDecision) → parse_routing_decision hashing x ≡ ok r → x ≡ r
unfolding parse_routing_decision
parse_routing_decision-same hashing x r h =
    checked (parse_routing_decision_draft x.draft)
      (not (
        leb 1 (length x.reason_summary)
        && leb (length x.reason_summary) 160
        && is_sha256_hex x.config_hash
        && is_sha256_hex x.request_hash
        && is_sha256_hex x.decision_hash))
      (not (routing_reason_summary x.draft.reason_code == x.reason_summary))
      (not (
        hashing.hash_decision x.draft x.reason_summary x.config_hash x.request_hash
        == x.decision_hash))
      h
  where
    checked :
        (m : Result DecisionError RoutingDecisionDraft) (a b c : Bool)
        → ((m >>= λ _. ok tt)
            >> (throw_if a DecisionError.invalid_draft
                >> (throw_if b DecisionError.summary_mismatch
                    >> (throw_if c DecisionError.hash_mismatch >> ok x))))
          ≡ ok r
        → x ≡ r
    checked (err e) a b c h = cc
    checked (ok d) true b c h = cc
    checked (ok d) false true c h = cc
    checked (ok d) false false true h = cc
    checked (ok d) false false false h = ok_injective h

parse_routing_decision_draft-same :
    (d e : RoutingDecisionDraft) → parse_routing_decision_draft d ≡ ok e → d ≡ e
unfolding parse_routing_decision_draft
parse_routing_decision_draft-same d e h = accepted _ d e h
  where
    accepted :
        (b : Bool) (d e : RoutingDecisionDraft)
        → (if b then ok d else err DecisionError.invalid_draft) ≡ ok e
        → d ≡ e
    accepted true d e h = ok_injective h
    accepted false d e h = cc

-- A decision that was made is valid and keeps its draft.
pub create_routing_decision-Keeps :
    (hashing : Hashing) (request : TaskRoutingRequest) (d : RoutingDecisionDraft)
    (config_hash : Text) (r : RoutingDecision)
    → create_routing_decision hashing request d config_hash ≡ ok r
    → Keeps hashing request d config_hash r
unfolding create_routing_decision
create_routing_decision-Keeps hashing request d config_hash r h =
    let (x, p, q) = >>=-eq-ok (parse_routing_decision_draft d) _ h in
    let same = parse_routing_decision-same hashing _ r q in
    record {
      draft =
          sym (ap (λ (y : RoutingDecision). y.draft) same)
          ∙ sym (parse_routing_decision_draft-same d x p);
      config_hash = sym (ap (λ (y : RoutingDecision). y.config_hash) same);
      request_hash = sym (ap (λ (y : RoutingDecision). y.request_hash) same);
      valid = ap (parse_routing_decision hashing) (sym same) ∙ q;
    }
