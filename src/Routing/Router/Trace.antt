-- ===== src/Routing/Router/Trace.antt =====
-- cost-router.ts: the traces that the router builds, stage after stage, and the drafts that carry
-- them.
use mathlib.Core.List.{append-nil}
use ikimetr.Prelude.{
  ℕ, suc, ◌≤◌, ◌≡◌, refl, ap, ◌∙◌, arith, Bool, true, false, ◌&&◌, not, some, List, [], ◌∷◌, ◌++◌,
  All, keep, length, leb, length-append, keep-append, ok,
}
use ikimetr.Routing.Codes.{ReasonCode}
use ikimetr.Routing.Draft.{
  RoutingStage, TransitionOutcome, RoutingTransition, RoutingDecisionDraft, stage_rank, is_final,
  last, in_order, ends_at_final, has_expected_route, has_expected_provider, is_approval,
  is_provider_route, final_reason, validate_transition_order, validate_decision_semantics,
  parse_routing_decision_draft,
}
use ikimetr.Routing.Router.{transition, denied}
use ikimetr.Routing.Router.Audit.{final_outcome, with_final_transition, unaudited_draft}

-- A trace in order, at most `n` long, of stages that rank no higher than `k`.
pub record Good (k n : ℕ) (t : List RoutingTransition) : Type 0 where
  pub order : in_order 0 t ≡ true
  pub below : All (λ (x : RoutingTransition). stage_rank x.stage ≤ k) t
  pub short : length t ≤ n

below_mono :
    (k j : ℕ) (t : List RoutingTransition)
    → k ≤ j
    → All (λ (x : RoutingTransition). stage_rank x.stage ≤ k) t
    → All (λ (x : RoutingTransition). stage_rank x.stage ≤ j) t
below_mono k j [] e h = tt
below_mono k j (x ∷ t) e (h, hs) = (omega arith, below_mono k j t e hs)

below-append :
    (k : ℕ) (t u : List RoutingTransition)
    → All (λ (x : RoutingTransition). stage_rank x.stage ≤ k) t
    → All (λ (x : RoutingTransition). stage_rank x.stage ≤ k) u
    → All (λ (x : RoutingTransition). stage_rank x.stage ≤ k) (t ++ u)
below-append k [] u h g = g
below-append k (x ∷ t) u (h, hs) g = (h, below-append k t u hs g)

in_order-append :
    (p : ℕ) (t : List RoutingTransition) (x : RoutingTransition)
    → p ≤ stage_rank x.stage
    → in_order p t ≡ true
    → All (λ (y : RoutingTransition). stage_rank y.stage ≤ stage_rank x.stage) t
    → in_order p (t ++ x ∷ []) ≡ true
in_order-append p [] x e h b = ground arith
in_order-append p (y ∷ t) x e h (b, bs) = ground (arith, in_order-append (stage_rank y.stage) t x b)

pub last-append : (t : List RoutingTransition) (x : RoutingTransition) → last (t ++ x ∷ []) ≡ some x
last-append [] x = refl
last-append (y ∷ []) x = refl
last-append (y ∷ z ∷ t) x = last-append (z ∷ t) x

pub no_trace-Good : Good 0 0 []
no_trace-Good = record { order = refl; below = tt; short = omega arith }

-- A stage that ranks no lower than the others can follow.
pub push :
    {k n : ℕ} {t : List RoutingTransition} (x : RoutingTransition)
    → Good k n t
    → k ≤ stage_rank x.stage
    → Good (stage_rank x.stage) (suc n) (t ++ x ∷ [])
push {k} {n} {t} x g e =
    let b = below_mono k (stage_rank x.stage) t e g.below in
    record {
      order = in_order-append 0 t x (omega arith) g.order b;
      below = below-append (stage_rank x.stage) t (x ∷ []) b (omega arith, tt);
      short = omega (arith, length-append t (x ∷ []), g.short);
    }

pub Good-mono : {k j n m : ℕ} {t : List RoutingTransition} → Good k n t → k ≤ j → n ≤ m → Good j m t
Good-mono {k} {j} {n} {m} {t} g e f = record {
  order = g.order;
  below = below_mono k j t e g.below;
  short = omega (arith, g.short);
}

not_final : (s : RoutingStage) → stage_rank s ≤ 4 → is_final s ≡ false
not_final RoutingStage.final h = ground arith
not_final RoutingStage.cache h = refl
not_final RoutingStage.deterministic h = refl
not_final RoutingStage.local h = refl
not_final RoutingStage.cheap_cloud h = refl
not_final RoutingStage.strong h = refl

ends_at_final-Good :
    (t : List RoutingTransition)
    → All (λ (x : RoutingTransition). stage_rank x.stage ≤ 4) t
    → ends_at_final (last t) ≡ false
ends_at_final-Good [] h = refl
ends_at_final-Good (x ∷ []) (h, hs) = not_final x.stage h
ends_at_final-Good (x ∷ y ∷ t) (h, hs) = ends_at_final-Good (y ∷ t) hs

keep-Good :
    (t : List RoutingTransition)
    → All (λ (x : RoutingTransition). stage_rank x.stage ≤ 4) t
    → keep (λ (x : RoutingTransition). not (is_final x.stage)) t ≡ t
keep-Good [] h = refl
keep-Good (x ∷ t) (h, hs) = rw (not_final x.stage h) (ap (λ rest. x ∷ rest) (keep-Good t hs))

-- What the schema of a decision asks of a draft, its trace aside.
abbrev pub fits : RoutingDecisionDraft → Bool
fits d =
    has_expected_route d.decision d.route
    && has_expected_provider d.decision d.route d.provider_candidate
    && not (is_approval d.decision && not (is_provider_route d.route))

-- A draft that the router may audit: the end of its trace is still missing, or there already.
pub data Ready (d : RoutingDecisionDraft) : Type 0 where
  unfinished : (fits d ≡ true) → Good 4 31 d.transition_trace → Ready d
  finished :
      (t : List RoutingTransition)
      → (fits d ≡ true)
      → Good 4 31 t
      → (d.transition_trace ≡ t ++ denied RoutingStage.final d.reason_code ∷ [])
      → Ready d

reason_index_refl :
    (c : ReasonCode) (o : TransitionOutcome)
    → final_reason (some (transition RoutingStage.final o c)) c ≡ true
reason_index_refl c o = ground arith

-- A complete draft is accepted by its schema.
pub complete-ok :
    (d : RoutingDecisionDraft) (t : List RoutingTransition) (o : TransitionOutcome)
    → fits d ≡ true
    → Good 4 31 t
    → d.transition_trace ≡ t ++ transition RoutingStage.final o d.reason_code ∷ []
    → parse_routing_decision_draft d ≡ ok d
unfolding parse_routing_decision_draft validate_transition_order validate_decision_semantics
complete-ok d t o f g e =
    let x = transition RoutingStage.final o d.reason_code in
    let full = push x g (omega arith) in
    let l : last d.transition_trace ≡ some x = ap last e ∙ last-append t x in
    let some_trace : leb 1 (length d.transition_trace) ≡ true =
      rw (e) (ground (arith, length-append t (x ∷ []))) in
    let short_trace : leb (length d.transition_trace) 32 ≡ true =
      rw (e) (ground (arith, full.short)) in
    let order : in_order 0 d.transition_trace ≡ true = rw (e) full.order in
    let ends : ends_at_final (last d.transition_trace) ≡ true = rw (l) refl in
    let reason : final_reason (last d.transition_trace) d.reason_code ≡ true =
      rw (l) (reason_index_refl d.reason_code o) in
    ground arith

-- The two cases of `withFinalTransition`.
abbrev extended : (d : RoutingDecisionDraft) → RoutingDecisionDraft
extended d = record d {
  transition_trace =
      d.transition_trace
      ++ transition RoutingStage.final (final_outcome d.decision) d.reason_code ∷ [];
}

with_final_transition-unfinished :
    (d : RoutingDecisionDraft) → Good 4 31 d.transition_trace → with_final_transition d ≡ extended d
unfolding with_final_transition
with_final_transition-unfinished d g = rw (ends_at_final-Good d.transition_trace g.below) refl

with_final_transition-finished :
    (d : RoutingDecisionDraft) (t : List RoutingTransition)
    → d.transition_trace ≡ t ++ denied RoutingStage.final d.reason_code ∷ []
    → with_final_transition d ≡ d
unfolding with_final_transition
with_final_transition-finished d t e =
    let ends : ends_at_final (last d.transition_trace) ≡ true =
      rw (e, last-append t (denied RoutingStage.final d.reason_code)) refl in
    rw (ends) refl

-- What `audit` makes of a draft that is ready, and of the one that stands for it when the append
-- fails, is accepted.
pub with_final_transition-ok :
    (d : RoutingDecisionDraft)
    → Ready d
    → parse_routing_decision_draft (with_final_transition d) ≡ ok (with_final_transition d)
with_final_transition-ok d (Ready.unfinished f g) =
    rw (with_final_transition-unfinished d g)
      (complete-ok (extended d) d.transition_trace (final_outcome d.decision) f g refl)
with_final_transition-ok d (Ready.finished t f g e) =
    rw (with_final_transition-finished d t e) (complete-ok d t TransitionOutcome.denied f g e)

-- Without its last stage.
keep-finished :
    (t : List RoutingTransition) (o : TransitionOutcome) (c : ReasonCode)
    → Good 4 31 t
    → keep
        (λ (x : RoutingTransition). not (is_final x.stage))
        (t ++ transition RoutingStage.final o c ∷ [])
      ≡ t
keep-finished t o c g =
    keep-append (λ (x : RoutingTransition). not (is_final x.stage)) t
      (transition RoutingStage.final o c ∷ [])
    ∙ ap (λ r. r ++ []) (keep-Good t g.below)
    ∙ append-nil t

pub unaudited_draft-ok :
    (d : RoutingDecisionDraft)
    → Ready d
    → parse_routing_decision_draft (unaudited_draft (with_final_transition d))
      ≡ ok (unaudited_draft (with_final_transition d))
unaudited_draft-ok d (Ready.unfinished f g) = rw (with_final_transition-unfinished d g) (
    complete-ok (unaudited_draft (extended d)) d.transition_trace TransitionOutcome.denied refl g (
      ap (λ r. r ++ denied RoutingStage.final ReasonCode.audit_append_failed ∷ [])
        (keep-finished d.transition_trace (final_outcome d.decision) d.reason_code g)))
unaudited_draft-ok d (Ready.finished t f g e) = rw (with_final_transition-finished d t e) (
    complete-ok (unaudited_draft d) t TransitionOutcome.denied refl g (
      ap (λ r. r ++ denied RoutingStage.final ReasonCode.audit_append_failed ∷ [])
        (ap (keep (λ (x : RoutingTransition). not (is_final x.stage))) e
          ∙ keep-finished t TransitionOutcome.denied d.reason_code g)))
