-- ===== src/Routing/Router/Evaluated.antt =====
-- cost-router.ts: what `evaluateInternal` returns, and what it leaves in the ledger.
use ikimetr.Prelude.{
  ◌≡◌, refl, sym, ◌∙◌, ap, inl, inr, true, false, Option, none, some, List, [], ◌∷◌, ◌++◌, Text, ok,
  Bool-cases,
}
use ikimetr.LedgerEvents.{LedgerEvent, is_sha256_hex}
use ikimetr.Budget.Controller.Append.{ledger_append-Appended}
use ikimetr.Routing.Policy.{TaskRoutingRequest}
use ikimetr.Routing.Draft.{parse_routing_decision_draft, RoutingDecisionDraft, last, ends_at_final}
use ikimetr.Routing.Decision.{
  RoutingDecision, create_routing_decision-ok, Keeps, create_routing_decision-Keeps,
}
use ikimetr.Routing.Router.Provider.{CostRouter}
use ikimetr.Routing.Router.Audit.{
  AuditAnswers, with_final_transition, decision_event, unaudited_draft, append_decision, Evaluated,
  after_append, audit,
}
use ikimetr.Routing.Router.Trace.{Ready, with_final_transition-ok, unaudited_draft-ok}

-- The final transition changes the trace only.
pub record SameChoice (d e : RoutingDecisionDraft) : Type 0 where
  pub decision : d.decision ≡ e.decision
  pub route : d.route ≡ e.route
  pub provider : d.provider_candidate ≡ e.provider_candidate

pub with_final_transition-SameChoice :
    (d : RoutingDecisionDraft) → SameChoice (with_final_transition d) d
unfolding with_final_transition
with_final_transition-SameChoice d = elim (Bool-cases (ends_at_final (last d.transition_trace))) [
  | inl e ↦ rw (e) (record { decision = refl; route = refl; provider = refl })
  | inr e ↦ rw (e) (record { decision = refl; route = refl; provider = refl })
]

module _ (router : CostRouter) (request : TaskRoutingRequest) (event_id : Text)
    (file : List LedgerEvent) where
  -- The two ways in which an audit ends: the decision returned is in the ledger, or it is a stop.
  pub data Audited (d : RoutingDecisionDraft) : Evaluated → Type 0 where
    logged :
        (now : Text) (r : RoutingDecision)
        → Keeps router.hashing request (with_final_transition d) router.effective_config_hash r
        → Audited d (
          file ++ LedgerEvent.routing_decision (decision_event router request event_id now r) ∷ [],
          ok r,
        )
    refused :
        (next : List LedgerEvent) (r s : RoutingDecision)
        → Keeps router.hashing request (with_final_transition d) router.effective_config_hash r
        → Keeps router.hashing request (unaudited_draft r.draft) router.effective_config_hash s
        → Audited d (next, ok s)

module _ (router : CostRouter) (request : TaskRoutingRequest) (answers : AuditAnswers)
    (file : List LedgerEvent) where
  module _ (d : RoutingDecisionDraft) (ready : Ready d)
      (hex : is_sha256_hex router.effective_config_hash ≡ true) (r : RoutingDecision)
      (kept : Keeps router.hashing request
        (with_final_transition d)
        router.effective_config_hash
        r) where
    refused-Audited :
        (next : List LedgerEvent)
        → Audited router request answers.event_id file d
            (after_append router request r (next, false))
    refused-Audited next =
        let valid =
          ap (λ x. parse_routing_decision_draft (unaudited_draft x)) kept.draft
          ∙ unaudited_draft-ok d ready
          ∙ ap (λ x. ok (unaudited_draft x)) (sym kept.draft) in
        let (s, e, _, _, _) =
          create_routing_decision-ok router.hashing request (unaudited_draft r.draft)
            router.effective_config_hash valid hex in
        rw (e) (
          Audited.refused next r s kept (
            create_routing_decision-Keeps router.hashing request (unaudited_draft r.draft)
              router.effective_config_hash s e))

    append-Audited :
        (o : Option Text)
        → answers.now ≡ o
        → Audited router request answers.event_id file d
            (after_append router request r (append_decision router request answers r file))
    unfolding append_decision
    append-Audited none h = rw (h, append_decision) (refused-Audited file)
    append-Audited (some now) h =
        let event =
          LedgerEvent.routing_decision (decision_event router request answers.event_id now r) in
        elim (ledger_append-Appended router.schema event file answers.outcome) [
          | inl e ↦ rw (h, append_decision, e) (Audited.logged now r kept)
          | inr (next, e, _) ↦ rw (h, append_decision, e) (refused-Audited next)
        ]

  pub audit-Audited :
      (d : RoutingDecisionDraft)
      → Ready d
      → is_sha256_hex router.effective_config_hash ≡ true
      → Audited router request answers.event_id file d (audit router request answers d file)
  unfolding audit
  audit-Audited d ready hex =
      let (r, e, _, _, _) =
        create_routing_decision-ok router.hashing request (with_final_transition d)
          router.effective_config_hash (with_final_transition-ok d ready) hex in
      rw (e, audit)
        (append-Audited d ready hex r
          (create_routing_decision-Keeps router.hashing request (with_final_transition d)
            router.effective_config_hash r e)
          answers.now refl)
