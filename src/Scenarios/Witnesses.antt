-- ===== src/Scenarios/Witnesses.antt =====
-- The theorems, applied to concrete controllers.
use ikimetr.Prelude.{
  ◌≡◌, refl, ◌+◌, ◌*◌, true, false, inl, none, some, List, [], ◌∷◌, ◌++◌, text, text_eq, ok, err,
  ◌≤◌, ◌<◌,
}
use ikimetr.Prelude.Dict.{keys}
use ikimetr.Money.{
  add_money, create_money, calculate_micros_for_tokens, assert_non_negative_safe_integer,
  safe_bigint_to_number, round_up,
}
use ikimetr.Config.{ProviderId, PricingStatus, PricingSnapshot}
use ikimetr.Pricing.{
  TokenUsage, ResolvedPricing, PricingRequest, calculate_cost, charge, find_snapshot, resolve,
  resolve_snapshot,
}
use ikimetr.Pricing.Cost.{
  calculate_cost_exact, calculate_cost_rounding, usage_micros, usage_cost, Priced, resolve-Priced,
}
use ikimetr.LedgerEvents.{LedgerEvent}
use ikimetr.Budget.Usage.{budget_scope_key, join}
use ikimetr.Budget.Usage.Keys.{scope_key_injective}
use ikimetr.Budget.Derive.{Derived, derive_budget_state-Derived}
use ikimetr.Budget.Limits.{BudgetError, ErrorCode, fail}
use ikimetr.Budget.Prepare.{BudgetController}
use ikimetr.Budget.Controller.{AppendOutcome, reserve, settle, release, initialize}
use ikimetr.Budget.Controller.Reserve.{Made, reserve-Made}
use ikimetr.Budget.Controller.Settle.{Closed, settle-Closed, release-Closed}
use ikimetr.Budget.Controller.Steps.{Op, apply, run, Step, apply-Step}
use ikimetr.Budget.Controller.Invariant.{
  Consistent, apply-storage_failed, run-Consistent, initialize-Consistent,
}
use ikimetr.Budget.Controller.History.{settle_once, overrun_blocks, restart, run-extends}
use ikimetr.Budget.Usage.{settlement_to_usage, create_empty_totals}
use ikimetr.Budget.Replay.{empty_replay, empty_summary}
use ikimetr.Budget.Totals.Record.{Counted, Grows, add_record_to_totals-Counted}
use ikimetr.Budget.Spec.{records_of, spent}
use ikimetr.Budget.Spec.Sums.{summarize-Grows}
use ikimetr.Budget.Spec.Records.{Replays, replay_events-Replays}
use ikimetr.Config.{Route}
use ikimetr.Budget.Controller.Quote.{quote_of, quote_request, Quoted, quote-Quoted}
use ikimetr.Scenarios.{
  demo, demo_config, clock, request, booked, booking, settling, settlement, overrun, releasing,
  release_record, controller, restarted, usd,
}
use ikimetr.Scenarios.Runs.{
  quoting, quote_name, quoted_ok, summary, counted_ok, summarized_ok, replayed_ok, booked_ok,
  settled_ok, settled_storage, released_ok, derived_booking, derived_overrun, restarted_ok,
}

reserve-Made_example :
    Made demo request booked
      (controller [])
      (reserve demo clock AppendOutcome.appended request (controller [])).0
reserve-Made_example =
    reserve-Made demo clock AppendOutcome.appended request (controller []) booked booked_ok

derive_budget_state-Derived_example :
    Derived (booking ∷ []) (some []) (controller (booking ∷ [])).state
derive_budget_state-Derived_example =
    derive_budget_state-Derived (booking ∷ []) (some []) (controller (booking ∷ [])).state
      derived_booking

-- Such a controller is consistent.
booking-Consistent : Consistent (controller (booking ∷ []))
unfolding controller
booking-Consistent = record { derived = derived_booking; ledger = inl refl }

overrun-Consistent : Consistent (controller (booking ∷ LedgerEvent.budget_settlement overrun ∷ []))
unfolding controller
overrun-Consistent = record { derived = derived_overrun; ledger = inl refl }

settle_once_example :
    settle demo clock AppendOutcome.appended (settling 60) (
      run demo []
        (settle demo clock AppendOutcome.appended (settling 50) (controller (booking ∷ []))).0)
    ≡ (
      run demo []
          (settle demo clock AppendOutcome.appended (settling 50) (controller (booking ∷ []))).0,
      fail ErrorCode.already_settled,
    )
unfolding run
settle_once_example =
    settle_once demo clock clock AppendOutcome.appended AppendOutcome.appended (settling 50)
      (settling 60) (controller (booking ∷ [])) settlement [] booking-Consistent settled_ok refl
      settled_storage

overrun_blocks_example :
    (e : BudgetError) × ((reserve demo clock AppendOutcome.appended request (
        run demo
          (Op.release_op clock AppendOutcome.appended releasing ∷ [])
          (controller (booking ∷ LedgerEvent.budget_settlement overrun ∷ [])))).1
      ≡ err e)
unfolding controller
overrun_blocks_example =
    overrun_blocks demo clock AppendOutcome.appended request
      (controller (booking ∷ LedgerEvent.budget_settlement overrun ∷ []))
      (Op.release_op clock AppendOutcome.appended releasing ∷ []) overrun-Consistent refl refl

run-Consistent_example : Consistent (
    run demo
      (Op.settle_op clock AppendOutcome.unacknowledged (settling 50) ∷ [])
      (controller (booking ∷ [])))
run-Consistent_example =
    run-Consistent demo (Op.settle_op clock AppendOutcome.unacknowledged (settling 50) ∷ [])
      (controller (booking ∷ [])) booking-Consistent

initialize-Consistent_example :
    Consistent restarted
    × (some (booking ∷ []) ≡ some restarted.ledger)
    × (restarted.storage_failed ≡ false)
initialize-Consistent_example =
    initialize-Consistent demo (some (booking ∷ [])) restarted restarted_ok

restart_example :
    (c : BudgetController) × (initialize demo (some (controller (booking ∷ [])).ledger) ≡ ok c)
    × (c.state.totals ≡ (controller (booking ∷ [])).state.totals)
    × (c.state.active_reservations ≡ (controller (booking ∷ [])).state.active_reservations)
    × (c.state.settled_ids ≡ (controller (booking ∷ [])).state.settled_ids)
    × (c.state.discrepancy_circuit_open
        ≡ (controller (booking ∷ [])).state.discrepancy_circuit_open)
    × (c.recovered_ids ≡ keys (controller (booking ∷ [])).state.active_reservations)
unfolding controller text_eq
restart_example = restart demo (controller (booking ∷ [])) booking-Consistent refl refl

settle-Closed_example :
    Closed
      (text "e2")
      (text "s1")
      (text "r1")
      settlement
      (controller (booking ∷ []))
      (settle demo clock AppendOutcome.appended (settling 50) (controller (booking ∷ []))).0
settle-Closed_example =
    settle-Closed demo clock AppendOutcome.appended (settling 50) (controller (booking ∷ []))
      settlement settled_ok

release-Closed_example :
    Closed
      (text "e2")
      (text "s1")
      (text "r1")
      release_record
      (controller (booking ∷ []))
      (release demo clock AppendOutcome.appended releasing (controller (booking ∷ []))).0
release-Closed_example =
    release-Closed demo clock AppendOutcome.appended releasing (controller (booking ∷ []))
      release_record released_ok

apply-Step_example :
    Step demo
      (controller [])
      (apply demo (Op.reserve_op clock AppendOutcome.lost request) (controller []))
apply-Step_example =
    apply-Step demo (Op.reserve_op clock AppendOutcome.lost request) (controller [])

apply-storage_failed_example :
    apply demo
      (Op.reserve_op clock AppendOutcome.appended request)
      (record (controller []) { storage_failed = true })
    ≡ record (controller []) { storage_failed = true }
apply-storage_failed_example =
    apply-storage_failed demo (Op.reserve_op clock AppendOutcome.appended request)
      (record (controller []) { storage_failed = true }) refl

run-extends_example :
    (fs : List LedgerEvent) × ((run demo
        (Op.reserve_op clock AppendOutcome.appended request ∷ [])
        (controller (booking ∷ []))).events
      ≡ (controller (booking ∷ [])).events ++ fs)
run-extends_example =
    run-extends demo (Op.reserve_op clock AppendOutcome.appended request ∷ [])
      (controller (booking ∷ []))

scope_key_injective_example : (text "t1" ≡ text "t1") × (text "qwen" ≡ text "qwen")
unfolding budget_scope_key join text_eq
scope_key_injective_example =
    scope_key_injective (text "t1") (text "qwen") (text "t1") (text "qwen") (text "t1|qwen") refl
      refl

-- The prices of the reservation, and its usage.
abbrev priced : ResolvedPricing
priced = record {
  pricing_version = text "1.0.0";
  provider = ProviderId.deepseek;
  model = text "chat";
  currency = text "USD";
  input_rate = 2000000;
  output_rate = 4000000;
  cache_read_rate = none;
  cache_write_rate = none;
  status = PricingStatus.known;
}

abbrev used : TokenUsage
used = record {
  input_tokens = 100;
  output_tokens = 500;
  cache_read_tokens = 0;
  cache_write_tokens = 0;
}

used_cost : calculate_cost priced used ≡ ok (usd 2200)
unfolding calculate_cost charge create_money add_money safe_bigint_to_number
    calculate_micros_for_tokens round_up assert_non_negative_safe_integer text_eq
used_cost = refl

calculate_cost_exact_example : (text "USD" ≡ text "USD") × (2200 ≡ usage_micros priced used)
calculate_cost_exact_example = calculate_cost_exact priced used (usd 2200) used_cost

calculate_cost_rounding_example :
    (text "USD" ≡ text "USD")
    × (usage_cost priced used ≤ 2200 * 1000000)
    × (2200 * 1000000 < usage_cost priced used + 4000000)
calculate_cost_rounding_example = calculate_cost_rounding priced used (usd 2200) used_cost

abbrev asked : PricingRequest
asked = record {
  provider = ProviderId.deepseek;
  model = text "chat";
  automatic = true;
  cloud = true;
}

resolve-Priced_example :
    (s : PricingSnapshot) × (find_snapshot ProviderId.deepseek demo_config.pricing_snapshots
      ≡ some s)
    × Priced demo_config asked s priced
unfolding resolve find_snapshot resolve_snapshot text_eq
resolve-Priced_example = resolve-Priced demo_config asked priced refl

add_record_to_totals-Counted_example :
    Counted booked
      (settlement_to_usage booked none)
      create_empty_totals
      (controller (booking ∷ [])).state.totals
add_record_to_totals-Counted_example =
    add_record_to_totals-Counted create_empty_totals booked none
      (controller (booking ∷ [])).state.totals counted_ok

summarize-Grows_example :
    Grows (spent (records_of (booking ∷ []))) empty_summary.totals summary.totals
summarize-Grows_example =
    summarize-Grows (records_of (booking ∷ [])) empty_summary summary summarized_ok

replay_events-Replays_example :
    Replays (booking ∷ LedgerEvent.budget_settlement settlement ∷ []) empty_replay (record {
      records = records_of (booking ∷ LedgerEvent.budget_settlement settlement ∷ []);
      discrepancy_circuit = false;
    })
unfolding empty_replay
replay_events-Replays_example =
    replay_events-Replays (booking ∷ LedgerEvent.budget_settlement settlement ∷ []) empty_replay
      (record {
        records = records_of (booking ∷ LedgerEvent.budget_settlement settlement ∷ []);
        discrepancy_circuit = false;
      })
      tt replayed_ok

quote-Quoted_example :
    Quoted demo
      (quote_request quote_name demo quoting (controller []))
      Route.cheap_cloud
      (controller [])
      (quote_of booked Route.cheap_cloud)
quote-Quoted_example =
    quote-Quoted quote_name demo clock quoting (controller []) (quote_of booked Route.cheap_cloud)
      quoted_ok
