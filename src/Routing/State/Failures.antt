-- ===== src/Routing/State/Failures.antt =====
-- routing-state.ts: what a repeated failure is.
use mathlib.Core.List.{append_assoc}
use ikimetr.LedgerEvents.{AttemptStatus}
use ikimetr.Prelude.{
  any, ◌==◌, ◌⊎◌, ◌↔◌, refl, ◌∙◌, ◌&&◌, none, Bool, false, All, All-map, keep-none, keep-first,
  keep-last, sym, ◌≡◌, ap, true, Option, some, List, [], ◌∷◌, ◌++◌, arith, keep, Text, text_Eq,
  text_eq_iff, inl, inr, Option-cases,
}
use ikimetr.Config.{Route, route_Eq, route_eq_iff}
use ikimetr.Routing.State.{
  RoutingAttemptEvidence, RoutingState, is_same_failure, join_hashes, last_two, same_outcome,
  has_repeated_failure, is_failure, is_text, of_request, insufficiency_reason,
  has_route_insufficiency,
}

last_two_lem {ℓ} :
    {A : Type ℓ} (l : List A) (a b : A)
    → last_two l ≡ some (a, b)
    → (front : List A) × (l ≡ front ++ a ∷ b ∷ [])
last_two_lem [] a b h = cc
last_two_lem (x ∷ []) a b h = cc
last_two_lem (x ∷ y ∷ []) a b h = ([], ground arith)
last_two_lem (x ∷ y ∷ z ∷ l) a b h =
    let (front, e) = last_two_lem (y ∷ z ∷ l) a b h in (x ∷ front, ap (λ t. x ∷ t) e)

-- A failed attempt with the error and the patch, at the request where one is asked for.
pub record SameFailure (error diff : Text) (request_hash : Option Text)
    (attempt : RoutingAttemptEvidence) : Type 0 where
  pub failed : (attempt.status ≡ AttemptStatus.failed) ⊎ (attempt.status ≡ AttemptStatus.blocked)
  pub error_fingerprint : attempt.error_fingerprint ≡ some error
  pub patch_hash : attempt.patch_hash ≡ some diff
  pub request : (hash : Text) → request_hash ≡ some hash → attempt.request_fingerprint ≡ hash

is_failure_lem :
    (s : AttemptStatus)
    → is_failure s ≡ true
    → (s ≡ AttemptStatus.failed) ⊎ (s ≡ AttemptStatus.blocked)
is_failure_lem s h = ground arith

is_text_lem : (o : Option Text) (t : Text) → (is_text o t ≡ true) ↔ (o ≡ some t)
is_text_lem none t = (λ h. cc, λ h. cc)
is_text_lem (some s) t = (λ h. ap some ((text_eq_iff s t).0 h), λ h. (text_eq_iff s t).1 (cc h))

all_of :
    (a b c d : Bool) → (a && b && c && d) ≡ true → (a ≡ true) × (b ≡ true) × (c ≡ true) × (d ≡ true)
all_of a b c d h = (ground arith, ground arith, ground arith, ground arith)

same_request :
    (o : Option Text) (attempt : RoutingAttemptEvidence)
    → of_request o attempt ≡ true
    → (hash : Text) → o ≡ some hash
    → attempt.request_fingerprint ≡ hash
same_request none attempt h hash e = cc
same_request (some t) attempt h hash e = (text_eq_iff attempt.request_fingerprint t).0 h ∙ cc e

is_same_failure-SameFailure :
    (error diff : Text) (request_hash : Option Text) (attempt : RoutingAttemptEvidence)
    → is_same_failure error diff request_hash attempt ≡ true
    → SameFailure error diff request_hash attempt
is_same_failure-SameFailure error diff request_hash attempt h =
    let (a, b, c, d) = all_of _ _ _ _ h in
    record {
      failed = is_failure_lem attempt.status a;
      error_fingerprint = (is_text_lem attempt.error_fingerprint error).0 b;
      patch_hash = (is_text_lem attempt.patch_hash diff).0 c;
      request = same_request request_hash attempt d;
    }

of_request_lem :
    (o : Option Text) (attempt : RoutingAttemptEvidence)
    → ((hash : Text) → o ≡ some hash → attempt.request_fingerprint ≡ hash)
    → of_request o attempt ≡ true
of_request_lem none attempt h = refl
of_request_lem (some t) attempt h = (text_eq_iff attempt.request_fingerprint t).1 (h t refl)

is_failed :
    (s : AttemptStatus)
    → (s ≡ AttemptStatus.failed) ⊎ (s ≡ AttemptStatus.blocked)
    → is_failure s ≡ true
is_failed s (inl e) = rw e refl
is_failed s (inr e) = rw e refl

no_failure :
    (error diff : Text) (request_hash : Option Text) (attempt : RoutingAttemptEvidence)
    → is_same_failure error diff request_hash attempt ≡ false
    → ¬ SameFailure error diff request_hash attempt
no_failure error diff request_hash attempt h f =
    let failed = is_failed attempt.status f.failed in
    let same_error = (is_text_lem attempt.error_fingerprint error).1 f.error_fingerprint in
    let same_patch = (is_text_lem attempt.patch_hash diff).1 f.patch_hash in
    let own = of_request_lem request_hash attempt f.request in ground arith

-- A failed attempt of a request on a route that gave a reason to escalate.
pub record Insufficient (route : Route) (hash reason : Text) (attempt : RoutingAttemptEvidence)
    : Type 0 where
  pub on_route : attempt.route ≡ route
  pub request : attempt.request_fingerprint ≡ hash
  pub failed : (attempt.status ≡ AttemptStatus.failed) ⊎ (attempt.status ≡ AttemptStatus.blocked)
  pub escalation : attempt.escalation_reason ≡ some reason

any-none {ℓ} : {A : Type ℓ} (p : A → Bool) (l : List A) → any p l ≡ false → All (λ x. p x ≡ false) l
any-none p [] h = tt
any-none p (x ∷ l) h = (ground arith, any-none p l (ground arith))

pub has_route_insufficiency-none :
    (state : RoutingState) (route : Route) (hash reason : Text)
    → insufficiency_reason route ≡ reason
    → has_route_insufficiency state route (some hash) ≡ false
    → All (λ a. ¬ Insufficient route hash reason a) state.attempts
unfolding has_route_insufficiency
has_route_insufficiency-none state route hash reason same h = All-map state.attempts sufficient (
    any-none
      (λ (attempt : RoutingAttemptEvidence).
        attempt.route == route
        && of_request (some hash) attempt
        && is_failure attempt.status
        && is_text attempt.escalation_reason (insufficiency_reason route))
      state.attempts h)
  where
    sufficient :
        (attempt : RoutingAttemptEvidence)
        → (attempt.route == route
            && of_request (some hash) attempt
            && is_failure attempt.status
            && is_text attempt.escalation_reason (insufficiency_reason route))
          ≡ false
        → ¬ Insufficient route hash reason attempt
    sufficient attempt e i =
        let there = (route_eq_iff attempt.route route).1 i.on_route in
        let own = (text_eq_iff attempt.request_fingerprint hash).1 i.request in
        let failed = is_failed attempt.status i.failed in
        let told =
          (is_text_lem attempt.escalation_reason (insufficiency_reason route)).1
            (i.escalation ∙ ap some (sym same)) in
        ground arith

-- The last two failures with the error and the patch, on one route and with the same evidence.
pub record Repeated (state : RoutingState) (error diff : Text) (request_hash : Option Text)
    : Type 0 where
  pub earlier : List RoutingAttemptEvidence
  pub previous : RoutingAttemptEvidence
  pub between : List RoutingAttemptEvidence
  pub latest : RoutingAttemptEvidence
  pub after : List RoutingAttemptEvidence
  pub attempts : state.attempts ≡ earlier ++ previous ∷ (between ++ latest ∷ after)
  pub first_failure : SameFailure error diff request_hash previous
  pub none_between : All (λ a. ¬ SameFailure error diff request_hash a) between
  pub second_failure : SameFailure error diff request_hash latest
  pub none_after : All (λ a. ¬ SameFailure error diff request_hash a) after
  pub same_route : previous.route ≡ latest.route
  pub same_evidence :
      join_hashes previous.verification_evidence_hashes
      ≡ join_hashes latest.verification_evidence_hashes

-- A failure counts as repeated only if the attempts hold two that failed with the error and the
-- patch, at the request where one is asked for, with no such attempt between them or after, on
-- one route and with the same joined evidence.
pub has_repeated_failure-Repeated :
    (state : RoutingState) (error diff : Text) (request_hash : Option Text)
    → has_repeated_failure state (some error) (some diff) request_hash ≡ true
    → Repeated state error diff request_hash
unfolding has_repeated_failure same_outcome
has_repeated_failure-Repeated state error diff request_hash h =
    let p = is_same_failure error diff request_hash in
    let found = is_same_failure-SameFailure error diff request_hash in
    let not_found = no_failure error diff request_hash in
    elim (Option-cases (last_two (keep p state.attempts))) [
      | inl few ↦ cc (rw (few, same_outcome) at h)
      | inr ((previous, latest), two) ↦
          let (kept, e) = last_two_lem _ previous latest two in
          let same = rw (two, same_outcome) at h in
          let (front, rest, split, e1) = keep-last p kept state.attempts _ e in
          let (skip, next, split1, p1, none1, e2) = keep-first p rest previous _ e1 in
          let (between, after, split2, p2, none2, e3) = keep-first p next latest [] e2 in
          record {
            earlier = front ++ skip;
            previous = previous;
            between = between;
            latest = latest;
            after = after;
            attempts =
                split
                ∙ ap (λ t. front ++ t) (split1 ∙ ap (λ t. skip ++ previous ∷ t) split2)
                ∙ sym (append_assoc front skip _);
            first_failure = found previous p1;
            none_between = All-map between not_found none2;
            second_failure = found latest p2;
            none_after = All-map after not_found (keep-none p after e3);
            same_route = (route_eq_iff previous.route latest.route).0 (ground arith);
            same_evidence = (text_eq_iff _ _).0 (ground arith);
          }
    ]
