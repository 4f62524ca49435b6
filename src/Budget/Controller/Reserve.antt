-- ===== src/Budget/Controller/Reserve.antt =====
-- budget.ts: what a successful `reserve` promises.
use ikimetr.Prelude.{
  not-false, ◌≡◌, refl, sym, ◌∙◌, ap, Bool, true, false, ◌&&◌, not, Option, none, some, List, [],
  ◌∷◌, ◌++◌, arith, if◌then◌else◌, any, ◌==◌, text_Eq, text_eq_iff, Text, ok, >>=-eq-ok, throw_if,
  throw_if-eq_ok, map_err, map_err-eq_ok, ok_injective,
}
use mathlib.Core.Path.{subst, subst₂}
use ikimetr.Config.{provider_id_Eq, data_class_Eq, route_Eq, InvocationMode}
use ikimetr.LedgerEvents.{BudgetReservation, LedgerEvent, event_id, parse_ledger_event}
use ikimetr.Pricing.{calculate_cost}
use ikimetr.Budget.Replay.{ReplayedBudgetState, is_local, is_empty, derive_budget_state}
use ikimetr.Budget.Spec.{records_of}
use ikimetr.Budget.Derive.{derive_budget_state-Derived}
use ikimetr.Budget.Limits.{ErrorCode, BudgetError, validate_candidate_limits}
use ikimetr.Budget.Limits.Candidate.{WithinLimits, validate_candidate_limits-WithinLimits}
use ikimetr.Budget.Prepare.{
  BudgetReservationRequest, Setup, BudgetController, PreparedReservation, assert_storage_ready,
  check_admission, validate_provider_request, class_routes, includes, is_automatic, is_model,
  resolve_pricing, reservation_limits, reserved_usage, reservation_event, current_timestamp,
  build_reservation, prepare_reservation,
}
use ikimetr.Budget.Controller.{
  AppendOutcome, is_reservation_of, duplicate, assert_unique_event_id, append_and_apply,
  plan_reserve, reserve,
}
use ikimetr.Budget.Controller.Append.{
  Applied, Ended-eq_ok, append_and_apply-Ended, run_prepared-eq_ok, returning-eq_ok,
}

-- The conditions under which a request is let through to pricing.
pub record Admitted (setup : Setup) (c : BudgetController) (request : BudgetReservationRequest)
    : Type 0 where
  pub storage : c.storage_failed ≡ false
  pub circuit : request.automatic ≡ true → c.state.discrepancy_circuit_open ≡ false
  pub recovery : request.automatic ≡ true → c.state.recovery_blocking_ids ≡ []
  pub enabled : (setup.config.providers request.provider).enabled ≡ true
  pub on_route : includes request.provider (setup.config.routes request.route).providers ≡ true
  pub data_class :
      includes request.data_class (setup.config.providers request.provider).allowed_data_classes
      ≡ true
  pub invocation :
      request.automatic ≡ true
      → (setup.config.providers request.provider).invocation_mode ≡ InvocationMode.automatic
  pub model : (setup.config.providers request.provider).model ≡ some request.model
  pub budget_class : includes request.route (class_routes setup.config.budget_class) ≡ true

and-not : {a b : Bool} → (a && b) ≡ false → a ≡ true → b ≡ false
and-not h e = ground arith

empty_of : (l : List Text) → not (is_empty l) ≡ false → l ≡ []
empty_of [] h = refl
empty_of (x ∷ l) h = cc

automatic_of : (m : InvocationMode) → not (is_automatic m) ≡ false → m ≡ InvocationMode.automatic
automatic_of InvocationMode.automatic h = refl
automatic_of InvocationMode.manual_handoff h = cc

model_of : (m : Option Text) (model : Text) → is_model m model ≡ true → m ≡ some model
model_of none model h = cc
model_of (some m) model h = ap some ((text_eq_iff m model).0 h)

pub check_admission-Admitted :
    (setup : Setup) (c : BudgetController) (request : BudgetReservationRequest) {u : Unit {0}}
    → check_admission setup c request ≡ ok u
    → Admitted setup c request
unfolding check_admission validate_provider_request
check_admission-Admitted setup c request h =
    let p = setup.config.providers request.provider in
    let bad = BudgetError.controller_error ErrorCode.invalid_request in
    let (_, h0, h1) = >>=-eq-ok (assert_storage_ready c) _ h in
    let (_, hc, h2) =
      >>=-eq-ok
        (throw_if (request.automatic && c.state.discrepancy_circuit_open)
          (BudgetError.controller_error ErrorCode.discrepancy_block))
        _ h1 in
    let (_, hr, h3) =
      >>=-eq-ok
        (throw_if (request.automatic && not (is_empty c.state.recovery_blocking_ids))
          (BudgetError.controller_error ErrorCode.recovery_required))
        _ h2 in
    let (_, he, h4) =
      >>=-eq-ok
        (throw_if (not p.enabled) (BudgetError.controller_error ErrorCode.provider_disabled)) _
        h3 in
    let (_, ho, h5) =
      >>=-eq-ok
        (throw_if (not (includes request.provider (setup.config.routes request.route).providers))
          bad)
        _ h4 in
    let (_, hd, h6) =
      >>=-eq-ok (throw_if (not (includes request.data_class p.allowed_data_classes)) bad) _ h5 in
    let (_, hi, h7) =
      >>=-eq-ok (throw_if (request.automatic && not (is_automatic p.invocation_mode)) bad) _ h6 in
    let (_, hm, hb) = >>=-eq-ok (throw_if (not (is_model p.model request.model)) bad) _ h7 in
    record {
      storage = throw_if-eq_ok _ _ h0;
      circuit = λ a. and-not (throw_if-eq_ok _ _ hc) a;
      recovery = λ a. empty_of (c.state.recovery_blocking_ids) (and-not (throw_if-eq_ok _ _ hr) a);
      enabled = not-false (throw_if-eq_ok _ _ he);
      on_route = not-false (throw_if-eq_ok _ _ ho);
      data_class = not-false (throw_if-eq_ok _ _ hd);
      invocation = λ a. automatic_of p.invocation_mode (and-not (throw_if-eq_ok _ _ hi) a);
      model = model_of p.model request.model (not-false (throw_if-eq_ok _ _ hm));
      budget_class = not-false (throw_if-eq_ok _ _ hb);
    }

-- What `prepareReservation` computed.
pub record Prepared (setup : Setup) (now : Option Text) (request : BudgetReservationRequest)
    (c : BudgetController) (p : PreparedReservation) : Type 0 where
  pub admitted : check_admission setup c request ≡ ok tt
  pub built : build_reservation setup now request ≡ ok p.reservation
  pub events : p.candidate_events ≡ c.events ++ LedgerEvent.budget_reservation p.reservation ∷ []
  pub state : derive_budget_state p.candidate_events (some c.recovered_ids) ≡ ok p.candidate_state
  pub limits :
      validate_candidate_limits setup.config p.reservation
        (setup.config.providers request.provider)
        p.candidate_state.totals
      ≡ ok tt

pub prepare_reservation-Prepared :
    (setup : Setup) (now : Option Text) (request : BudgetReservationRequest) (c : BudgetController)
    (p : PreparedReservation)
    → prepare_reservation setup now request c ≡ ok p
    → Prepared setup now request c p
unfolding prepare_reservation
prepare_reservation-Prepared setup now request c p h =
    let (_, ha, h1) = >>=-eq-ok (check_admission setup c request) _ h in
    let (r, hb, h2) = >>=-eq-ok (build_reservation setup now request) _ h1 in
    let events = c.events ++ LedgerEvent.budget_reservation r ∷ [] in
    let (st, hs, h3) =
      >>=-eq-ok
        (map_err BudgetError.state_error (derive_budget_state events (some c.recovered_ids))) _
        h2 in
    let (_, hl, h4) =
      >>=-eq-ok
        (validate_candidate_limits setup.config r (setup.config.providers request.provider)
          st.totals)
        _ h3 in
    subst (λ x. Prepared setup now request c x) (ok_injective h4)
      (record {
        admitted = ha;
        built = hb;
        events = refl;
        state = map_err-eq_ok _ _ _ hs;
        limits = hl;
      })

plan_reserve_lem :
    (setup : Setup) (now : Option Text) (request : BudgetReservationRequest) (c : BudgetController)
    (p : PreparedReservation)
    → plan_reserve setup now request c ≡ ok p
    → (any (λ e. event_id e == request.event_id) c.events ≡ false)
      × (any (is_reservation_of request.reservation_id) c.events ≡ false)
      × Prepared setup now request c p
unfolding plan_reserve
plan_reserve_lem setup now request c p h =
    let (_, h0, h1) = >>=-eq-ok (assert_unique_event_id c request.event_id) _ h in
    let (_, h2, h3) =
      >>=-eq-ok (throw_if (any (is_reservation_of request.reservation_id) c.events) duplicate) _
        h1 in
    (
      throw_if-eq_ok _ _ h0,
      throw_if-eq_ok _ _ h2,
      prepare_reservation-Prepared setup now request c p h3,
    )

pub plan_reserve-Admitted :
    (setup : Setup) (now : Option Text) (request : BudgetReservationRequest) (c : BudgetController)
    (p : PreparedReservation)
    → plan_reserve setup now request c ≡ ok p
    → Admitted setup c request
plan_reserve-Admitted setup now request c p h =
    let (_, _, prepared) = plan_reserve_lem setup now request c p h in
    check_admission-Admitted setup c request prepared.admitted

-- The event carries the request.
pub record Carries (setup : Setup) (request : BudgetReservationRequest) (r : BudgetReservation)
    : Type 0 where
  pub event_id : r.event_id ≡ request.event_id
  pub reservation_id : r.reservation_id ≡ request.reservation_id
  pub task_id : r.task_id ≡ request.task_id
  pub provider : r.provider ≡ request.provider
  pub attempt_id : r.attempt_id ≡ request.attempt_id
  pub model : r.model ≡ request.model
  pub route : r.route ≡ request.route
  pub data_class : r.data_class ≡ request.data_class
  pub retry : r.retry ≡ request.retry
  pub automatic : r.automatic ≡ request.automatic
  pub cloud : r.cloud ≡ not (is_local request.provider)
  pub input : r.estimated_input_tokens ≡ request.estimated_input_tokens
  pub config : r.config_hash ≡ setup.config.config_hash

pub build_reservation-Carries :
    (setup : Setup) (now : Option Text) (request : BudgetReservationRequest) (r : BudgetReservation)
    → build_reservation setup now request ≡ ok r
    → Carries setup request r
unfolding build_reservation reservation_event
build_reservation-Carries setup now request r h =
    let p = setup.config.providers request.provider in
    let (pricing, _, h1) = >>=-eq-ok (resolve_pricing setup request) _ h in
    let (limits, _, h2) = >>=-eq-ok (reservation_limits p.max_output_tokens p.timeout_ms) _ h1 in
    let (cost, _, h3) =
      >>=-eq-ok
        (map_err (λ _. BudgetError.controller_error ErrorCode.invalid_request)
          (calculate_cost pricing (reserved_usage request limits.0)))
        _ h2 in
    let (timestamp, _, h4) = >>=-eq-ok (current_timestamp now) _ h3 in
    let event =
      reservation_event setup request pricing limits.0
        (if is_local request.provider then limits.1 else 0) cost timestamp in
    let (_, _, h5) =
      >>=-eq-ok
        (map_err BudgetError.event_error
          (parse_ledger_event setup.schema (LedgerEvent.budget_reservation event)))
        _ h4 in
    subst (λ x. Carries setup request x) (ok_injective h5)
      (record {
        event_id = refl;
        reservation_id = refl;
        task_id = refl;
        provider = refl;
        attempt_id = refl;
        model = refl;
        route = refl;
        data_class = refl;
        retry = refl;
        automatic = refl;
        cloud = refl;
        input = refl;
        config = refl;
      })

-- A reservation that was made: its request was admitted, its event is new in the ledger and in the
-- events, and the state is derived from them and within the limits.
pub record Made (setup : Setup) (request : BudgetReservationRequest) (r : BudgetReservation)
    (c c' : BudgetController) : Type 0 where
  pub admitted : Admitted setup c request
  pub carries : Carries setup request r
  pub unused_event : any (λ e. event_id e == request.event_id) c.events ≡ false
  pub unused_reservation : any (is_reservation_of request.reservation_id) c.events ≡ false
  pub ledger : c'.ledger ≡ c.ledger ++ LedgerEvent.budget_reservation r ∷ []
  pub events : c'.events ≡ c.events ++ LedgerEvent.budget_reservation r ∷ []
  pub storage : c'.storage_failed ≡ false
  pub recovered_ids : c'.recovered_ids ≡ c.recovered_ids
  pub derived : derive_budget_state c'.events (some c'.recovered_ids) ≡ ok c'.state
  pub limits : WithinLimits setup.config (records_of c'.events) r

Made-of :
    (setup : Setup) (now : Option Text) (request : BudgetReservationRequest)
    (c c' : BudgetController) (p : PreparedReservation)
    → any (λ e. event_id e == request.event_id) c.events ≡ false
    → any (is_reservation_of request.reservation_id) c.events ≡ false
    → Prepared setup now request c p
    → Applied
        (LedgerEvent.budget_reservation p.reservation)
        p.candidate_events
        p.candidate_state
        c.recovered_ids
        c
        c'
    → Made setup request p.reservation c c'
Made-of setup now request c c' p unused fresh prepared applied =
    let admitted = check_admission-Admitted setup c request prepared.admitted in
    let carries = build_reservation-Carries setup now request p.reservation prepared.built in
    let events = applied.events ∙ prepared.events in
    let derived : derive_budget_state c'.events (some c'.recovered_ids) ≡ ok c'.state =
      rw (applied.events, applied.recovered_ids, applied.state) prepared.state in
    record {
      admitted = admitted;
      carries = carries;
      unused_event = unused;
      unused_reservation = fresh;
      ledger = applied.ledger;
      events = events;
      storage = applied.storage_failed ∙ admitted.storage;
      recovered_ids = applied.recovered_ids;
      derived = derived;
      limits =
          validate_candidate_limits-WithinLimits setup.config (records_of c'.events) p.reservation
            c'.state.totals
            (derive_budget_state-Derived c'.events (some c'.recovered_ids) c'.state derived).totals
            (ap
                (λ (s : ReplayedBudgetState).
                  validate_candidate_limits setup.config p.reservation
                    (setup.config.providers p.reservation.provider) s.totals)
                applied.state
              ∙ ap
                  (λ x.
                    validate_candidate_limits setup.config p.reservation (setup.config.providers x)
                      p.candidate_state.totals)
                  carries.provider
              ∙ prepared.limits);
    }

-- Whenever `reserve` returns a reservation, whatever the clock and the write do, the request had
-- passed every admission check, its event id and reservation id were new, the event carries
-- every field of the request and stands at the end of the ledger and of the events, the new
-- state is derived from the events, and the sums over the ledger are within every limit of the
-- configuration, with the whole of a cost in the currency of its limit.
pub reserve-Made :
    (setup : Setup) (now : Option Text) (outcome : AppendOutcome)
    (request : BudgetReservationRequest) (c : BudgetController) (r : BudgetReservation)
    → (reserve setup now outcome request c).1 ≡ ok r
    → Made setup request r c (reserve setup now outcome request c).0
unfolding reserve
reserve-Made setup now outcome request c r h =
    let (p, hp, e) = run_prepared-eq_ok (plan_reserve setup now request c) _ c h in
    let event = LedgerEvent.budget_reservation p.reservation in
    let q =
      append_and_apply setup outcome event p.candidate_events p.candidate_state c.recovered_ids c in
    let (same, returned, state) = returning-eq_ok p.reservation q (ap (λ x. x.1) (sym e) ∙ h) in
    let applied =
      Ended-eq_ok event p.candidate_events p.candidate_state c.recovered_ids c q
        (append_and_apply-Ended setup event p.candidate_events p.candidate_state c.recovered_ids c
          outcome)
        returned in
    let (unused, fresh, prepared) = plan_reserve_lem setup now request c p hp in
    subst₂ (λ x y. Made setup request x c y) same (sym (ap (λ x. x.0) e ∙ state))
      (Made-of setup now request c q.0 p unused fresh prepared applied)
