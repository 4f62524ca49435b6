-- ===== src/Budget/Controller/Quote.antt =====
-- budget.ts: `quote`, which prepares a reservation and appends nothing. The hash that names it, SHA-256
-- of the canonical text of the request, is an argument.
use mathlib.Core.Path.{subst}
use ikimetr.Prelude.{
  ℕ, ◌≡◌, sym, ◌∙◌, ap, Option, some, [], ◌∷◌, ◌++◌, length, Text, text, Result, ok, err, ◌>>=◌,
  >>=-eq-ok, ok_injective,
}
use ikimetr.Config.{ProviderId, Route}
use ikimetr.Money.{Money}
use ikimetr.LedgerEvents.{BudgetReservation, LedgerEvent}
use ikimetr.Budget.Spec.{records_of}
use ikimetr.Budget.Derive.{derive_budget_state-Derived}
use ikimetr.Budget.Limits.{ErrorCode, BudgetError, validate_candidate_limits}
use ikimetr.Budget.Limits.Candidate.{WithinLimits, validate_candidate_limits-WithinLimits}
use ikimetr.Budget.Prepare.{BudgetReservationRequest, Setup, BudgetController, prepare_reservation}
use ikimetr.Budget.Controller.{BudgetQuoteRequest}
use ikimetr.Budget.Controller.Reserve.{
  Admitted, check_admission-Admitted, Carries, build_reservation-Carries,
  prepare_reservation-Prepared,
}

pub record Quote : Type 0 where
  pub provider : ProviderId
  pub model : Text
  pub route : Route
  pub estimated_input_tokens : ℕ
  pub reserved_output_tokens : ℕ
  pub estimated_cost : Money
  pub reserved_local_wall_time_ms : ℕ
  pub pricing_version : Text

pub data BudgetQuoteResult : Type 0 where
  allowed : Quote → BudgetQuoteResult
  denied : ErrorCode → BudgetQuoteResult

abbrev pub QuoteHash : Type 0
QuoteHash = Text → ℕ → BudgetQuoteRequest → Text

unfoldable pub quote_request :
    QuoteHash → Setup → BudgetQuoteRequest → BudgetController → BudgetReservationRequest
quote_request hash setup request c =
    let name = hash setup.config.config_hash (length c.events) request in
    record {
      event_id = text "dry-run-quote-event-" ++ name;
      reservation_id = text "dry-run-quote-reservation-" ++ name;
      task_id = request.task_id;
      attempt_id = text "dry-run-quote-attempt-" ++ name;
      provider = request.provider;
      model = request.model;
      route = request.route;
      data_class = request.data_class;
      automatic = request.automatic;
      retry = request.retry;
      estimated_input_tokens = request.estimated_input_tokens;
    }

abbrev pub quote_of : BudgetReservation → Route → Quote
quote_of event route = record {
  provider = event.provider;
  model = event.model;
  route = route;
  estimated_input_tokens = event.estimated_input_tokens;
  reserved_output_tokens = event.reserved_output_tokens;
  estimated_cost = event.reserved_cost;
  reserved_local_wall_time_ms = event.reserved_local_wall_time_ms;
  pricing_version = event.pricing_version;
}

unfoldable pub quote_internal :
    QuoteHash
    → Setup
    → Option Text
    → BudgetQuoteRequest
    → BudgetController
    → Result BudgetError Quote
quote_internal hash setup now request c =
    prepare_reservation setup now (quote_request hash setup request c) c >>= λ p.
    ok (quote_of p.reservation request.route)

-- What is caught: an error of the controller is a denial.
abbrev pub or_denied : Result BudgetError Quote → Result BudgetError BudgetQuoteResult
or_denied (ok q) = ok (BudgetQuoteResult.allowed q)
or_denied (err (BudgetError.controller_error code)) = ok (BudgetQuoteResult.denied code)
or_denied (err (BudgetError.state_error e)) = err (BudgetError.state_error e)
or_denied (err (BudgetError.event_error e)) = err (BudgetError.event_error e)

unfoldable pub quote :
    QuoteHash
    → Setup
    → Option Text
    → BudgetQuoteRequest
    → BudgetController
    → Result BudgetError BudgetQuoteResult
quote hash setup now request c = or_denied (quote_internal hash setup now request c)

or_denied-allowed :
    (m : Result BudgetError Quote) (q : Quote)
    → or_denied m ≡ ok (BudgetQuoteResult.allowed q)
    → m ≡ ok q
or_denied-allowed (ok x) q h = cc
or_denied-allowed (err (BudgetError.controller_error code)) q h = cc
or_denied-allowed (err (BudgetError.state_error e)) q h = cc
or_denied-allowed (err (BudgetError.event_error e)) q h = cc

-- A reservation that would be made.
pub record Quoted (setup : Setup) (request : BudgetReservationRequest) (route : Route)
    (c : BudgetController) (q : Quote) : Type 0 where
  pub admitted : Admitted setup c request
  pub reservation : BudgetReservation
  pub carries : Carries setup request reservation
  pub quoted : q ≡ quote_of reservation route
  pub limits :
      WithinLimits setup.config
        (records_of (c.events ++ LedgerEvent.budget_reservation reservation ∷ []))
        reservation

-- An allowed quote describes a reservation that passes every admission check, carries every
-- field of the request, and would keep the sums over the ledger within every limit if it were
-- appended, with the whole of a cost in the currency of its limit.
pub quote-Quoted :
    (hash : QuoteHash) (setup : Setup) (now : Option Text) (request : BudgetQuoteRequest)
    (c : BudgetController) (q : Quote)
    → quote hash setup now request c ≡ ok (BudgetQuoteResult.allowed q)
    → Quoted setup (quote_request hash setup request c) request.route c q
unfolding quote quote_internal
quote-Quoted hash setup now request c q h =
    let full = quote_request hash setup request c in
    let inner = or_denied-allowed (quote_internal hash setup now request c) q h in
    let (p, hp, e) = >>=-eq-ok (prepare_reservation setup now full c) _ inner in
    let prepared = prepare_reservation-Prepared setup now full c p hp in
    let carries = build_reservation-Carries setup now full p.reservation prepared.built in
    record {
      admitted = check_admission-Admitted setup c full prepared.admitted;
      reservation = p.reservation;
      carries = carries;
      quoted = sym (ok_injective e);
      limits =
          subst (λ x. WithinLimits setup.config (records_of x) p.reservation) prepared.events
            (validate_candidate_limits-WithinLimits setup.config (records_of p.candidate_events)
              p.reservation p.candidate_state.totals
              (derive_budget_state-Derived p.candidate_events (some c.recovered_ids)
                p.candidate_state prepared.state).totals
              (ap
                  (λ x.
                    validate_candidate_limits setup.config p.reservation (setup.config.providers x)
                      p.candidate_state.totals)
                  carries.provider
                ∙ prepared.limits));
    }
