-- ===== src/Routing/State/Latest.antt =====
-- routing-state.ts: the maps of `deriveRoutingState`, against the last events of the ledger.
use ikimetr.Prelude.{
  ◌≡◌, refl, ◌∙◌, ap, Bool, true, false, Option, none, some, List, [], ◌∷◌, arith, if◌then◌else◌,
  ◌==◌, Text, text_Eq, text_eq, text_eq_iff, ◌&&◌,
}
use ikimetr.Prelude.Dict.{Dict, lookup, insert, lookup-insert, Distinct, insert-Distinct}
use ikimetr.Config.{ProviderId, provider_id_Eq}
use ikimetr.LedgerEvents.{ApprovalDecision, LedgerEvent}
use ikimetr.Routing.Codes.{ApprovalScope}
use ikimetr.Routing.State.{
  ProviderHealthState, Evidence, insert_sorted, sort_record, health_key, normalize_health,
  collect_event, collect, no_evidence, derive_routing_state, or_unknown, or_missing,
  get_provider_health, scope_name, get_approval_state,
}

lookup-insert_sorted {ℓ} :
    {V : Type ℓ} (key k : Text) (v : V) (m : Dict Text V)
    → lookup k m ≡ none
    → lookup key (insert_sorted k v m) ≡ (if k == key then some v else lookup key m)
unfolding lookup insert_sorted
lookup-insert_sorted key k v [] h = refl
lookup-insert_sorted key k v ((j, w) ∷ m) h =
    ground
      (arith, lookup-insert_sorted key k v m, text_eq_iff k key, text_eq_iff j key, text_eq_iff j k)

-- Sorting the record does not change what is found.
pub lookup-sort_record {ℓ} :
    {V : Type ℓ} (key : Text) (m : Dict Text V)
    → Distinct m
    → lookup key (sort_record m) ≡ lookup key m
unfolding lookup sort_record
lookup-sort_record key [] d = refl
lookup-sort_record key ((k, v) ∷ m) (absent, d) =
    lookup-insert_sorted key k v (sort_record m) (lookup-sort_record k m d ∙ absent)
    ∙ ap (λ x. if k == key then some v else x) (lookup-sort_record key m d)

abbrev pub later {ℓ} : {A : Type ℓ} → Option A → Option A → Option A
later (some a) before = some a
later none before = before

-- The state that the last event on the provider and the model reports.
abbrev pub latest_health : ProviderId → Text → List LedgerEvent → Option ProviderHealthState
latest_health provider model [] = none
latest_health provider model (LedgerEvent.provider_health e ∷ events) =
    later (latest_health provider model events) (
      if e.provider == provider && e.model == model then some (normalize_health e.status) else none)
latest_health provider model (_ ∷ events) = latest_health provider model events

-- Two keys are equal exactly when the provider and the model are.
health_key_eq :
    (p q : ProviderId) (m n : Text) → (health_key p m == health_key q n) ≡ (p == q && m == n)
unfolding health_key text_eq
health_key_eq p q m n = ground arith

-- The decision of the last event on the task and the scope.
abbrev pub latest_approval : Text → Text → List LedgerEvent → Option ApprovalDecision
latest_approval task scope [] = none
latest_approval task scope (LedgerEvent.approval e ∷ events) =
    later (latest_approval task scope events)
      (if e.task_id == task then (if e.scope == scope then some e.decision else none) else none)
latest_approval task scope (_ ∷ events) = latest_approval task scope events

later-if {ℓ} :
    {A : Type ℓ} (b : Bool) (o before : Option A) (a : A)
    → later o (if b then some a else before) ≡ later (later o (if b then some a else none)) before
later-if b (some x) before a = refl
later-if true none before a = refl
later-if false none before a = refl

collect-health :
    (task : Text) (provider : ProviderId) (model : Text) (events : List LedgerEvent) (st : Evidence)
    → lookup (health_key provider model) (collect task events st).health
      ≡ later (latest_health provider model events) (lookup (health_key provider model) st.health)
unfolding collect collect_event
collect-health task provider model [] st = refl
collect-health task provider model (LedgerEvent.provider_health e ∷ events) st =
    let key = health_key provider model in
    let found = normalize_health e.status in
    collect-health task provider model events _
    ∙ ap (later (latest_health provider model events)) (
        lookup-insert (health_key e.provider e.model) key found st.health
        ∙ ap (λ b. if b then some found else lookup key st.health)
            (health_key_eq e.provider provider e.model model))
    ∙ later-if _ (latest_health provider model events) (lookup key st.health) found
collect-health task provider model (LedgerEvent.approval e ∷ events) st =
    collect-health task provider model events _ ∙ ground arith
collect-health task provider model (LedgerEvent.attempt_started e ∷ events) st =
    collect-health task provider model events _ ∙ ground arith
collect-health task provider model (_ ∷ events) st = collect-health task provider model events _

later_assoc {ℓ} : {A : Type ℓ} (a b c : Option A) → later a (later b c) ≡ later (later a b) c
later_assoc none b c = refl
later_assoc (some x) b c = refl

decide :
    (b : Bool) (scope s : Text) (d : ApprovalDecision) (st : Evidence)
    → lookup scope (if b then record st { decisions = insert s d st.decisions } else st).decisions
      ≡ later
          (if b then (if s == scope then some d else none) else none)
          (lookup scope st.decisions)
decide false scope s d st = refl
decide true scope s d st =
    lookup-insert s scope d st.decisions ∙ later-if (s == scope) none (lookup scope st.decisions) d

collect-decisions :
    (task scope : Text) (events : List LedgerEvent) (st : Evidence)
    → lookup scope (collect task events st).decisions
      ≡ later (latest_approval task scope events) (lookup scope st.decisions)
unfolding collect collect_event
collect-decisions task scope [] st = refl
collect-decisions task scope (LedgerEvent.approval e ∷ events) st =
    collect-decisions task scope events _
    ∙ ap (later (latest_approval task scope events))
        (decide (e.task_id == task) scope e.scope e.decision st)
    ∙ later_assoc (latest_approval task scope events) _ (lookup scope st.decisions)
collect-decisions task scope (LedgerEvent.attempt_started e ∷ events) st =
    collect-decisions task scope events _ ∙ ground arith
collect-decisions task scope (_ ∷ events) st = collect-decisions task scope events _

abbrev Keyed : Evidence → Type 0
Keyed st = Distinct st.health × Distinct st.decisions

if-Keyed : (b : Bool) (x y : Evidence) → Keyed x → Keyed y → Keyed (if b then x else y)
if-Keyed true x y h k = h
if-Keyed false x y h k = k

collect-Keyed :
    (task : Text) (events : List LedgerEvent) (st : Evidence)
    → Keyed st
    → Keyed (collect task events st)
unfolding collect collect_event
collect-Keyed task [] st h = h
collect-Keyed task (LedgerEvent.provider_health e ∷ events) st h =
    collect-Keyed task events _ (insert-Distinct _ _ st.health h.0, h.1)
collect-Keyed task (LedgerEvent.approval e ∷ events) st h =
    collect-Keyed task events _
      (if-Keyed (e.task_id == task) _ st (h.0, insert-Distinct _ _ st.decisions h.1) h)
collect-Keyed task (LedgerEvent.attempt_started e ∷ events) st h =
    collect-Keyed task events _ (if-Keyed (e.task_id == task) _ st h h)
collect-Keyed task (_ ∷ events) st h = collect-Keyed task events _ h

later-none {ℓ} : {A : Type ℓ} (o : Option A) → later o none ≡ o
later-none none = refl
later-none (some a) = refl

-- The health of a provider and model in the derived state is what the last event of the ledger
-- on that provider and that model reports, and unknown where there is none.
pub get_provider_health-latest :
    (events : List LedgerEvent) (task : Text) (provider : ProviderId) (model : Text)
    → get_provider_health (derive_routing_state events task) provider model
      ≡ or_unknown (latest_health provider model events)
unfolding get_provider_health derive_routing_state lookup
get_provider_health-latest events task provider model = ap or_unknown (
    lookup-sort_record (health_key provider model) _
      (collect-Keyed task events no_evidence (tt, tt)).0
    ∙ collect-health task provider model events no_evidence
    ∙ later-none _)

-- The approval of a scope in the state derived for a task is the decision of the last event of
-- the ledger on the task and the scope, and missing where there is none.
pub get_approval_state-latest :
    (events : List LedgerEvent) (task : Text) (scope : ApprovalScope)
    → get_approval_state (derive_routing_state events task) scope
      ≡ or_missing (latest_approval task (scope_name scope) events)
unfolding get_approval_state derive_routing_state lookup
get_approval_state-latest events task scope = ap or_missing (
    lookup-sort_record (scope_name scope) _ (collect-Keyed task events no_evidence (tt, tt)).1
    ∙ collect-decisions task (scope_name scope) events no_evidence
    ∙ later-none _)
