-- ===== src/Cache/Evidence/Passed.antt =====
-- verification-evidence.ts: what evidence that is accepted shows of the required stages.
use mathlib.Core.Path.{subst}
use ikimetr.Prelude.{
  not-false, ◌≡◌, ◌∙◌, arith, inl, inr, Bool, true, ◌&&◌, ◌||◌, not, List, [], ◌∷◌, all, any,
  nat_eq, ◌==◌, Text, text_Eq, text_eq_iff, ok, throw_if, >>=-eq-ok, throw_if-eq_ok, ok_injective,
  Bool-cases,
}
use ikimetr.Cache.Evidence.{
  Engine, VerificationStage, VerificationEvidence, EvidenceError, EvidenceContext, includes,
  stage_ids, parse_verification_evidence, same_members, check_stages,
  validate_verification_evidence,
}

-- A stage with this name ran an allowed command and ended with exit code 0.
abbrev pub stage_passed : List Text → Text → VerificationStage → Bool
stage_passed allowed id s =
    s.stage_id == id && includes s.command_id allowed && nat_eq s.exit_code 0

pub record Passed (context : EvidenceContext) (e : VerificationEvidence) : Type 0 where
  pub profile : e.verification_profile_hash ≡ context.expected_profile_hash
  pub authority : e.authority_id ≡ context.authority_id
  pub version : e.authority_version ≡ context.authority_version
  pub stages :
      (id : Text)
      → includes id e.required_stages ≡ true
      → any (stage_passed context.allowed_command_ids id) e.stages ≡ true

all-includes :
    (p : Text → Bool) (l : List Text) (x : Text) → all p l ≡ true → includes x l ≡ true → p x ≡ true
all-includes p [] x h g = cc
all-includes p (y ∷ l) x h g = elim (Bool-cases (y == x)) [
  | inl e ↦ let same : y ≡ x = (text_eq_iff y x).0 e in subst (λ z. p z ≡ true) same (ground arith)
  | inr e ↦ all-includes p l x (ground arith) (ground arith)
]

same_members-includes :
    (left right : List Text) (x : Text)
    → same_members left right ≡ true
    → includes x left ≡ true
    → includes x right ≡ true
unfolding same_members
same_members-includes left right x h g =
    all-includes (λ value. includes value right) left x (ground arith) g

check_stages-passed :
    (allowed : List Text) (stages : List VerificationStage) (id : Text) {u : Unit {0}}
    → check_stages allowed stages ≡ ok u
    → includes id (stage_ids stages) ≡ true
    → any (stage_passed allowed id) stages ≡ true
unfolding check_stages
check_stages-passed allowed [] id h g = cc
check_stages-passed allowed (s ∷ stages) id h g =
    let (_, a, r0) =
      >>=-eq-ok (throw_if (not (includes s.command_id allowed)) EvidenceError.incompatible) _ h in
    let (_, b, r1) =
      >>=-eq-ok (throw_if (not (nat_eq s.exit_code 0)) EvidenceError.failed_stage) _ r0 in
    let command = throw_if-eq_ok (not (includes s.command_id allowed)) _ a in
    let code = throw_if-eq_ok (not (nat_eq s.exit_code 0)) _ b in
    elim (Bool-cases (s.stage_id == id)) [
      | inl e ↦ ground arith
      | inr e ↦ ground (arith, check_stages-passed allowed stages id r1 (ground arith))
    ]

-- Evidence that validation returns has the profile, the authority and the version that were
-- expected, and every required stage has a stage in it that ended with exit code 0 under an
-- allowed command.
pub validate_verification_evidence-Passed :
    (engine : Engine) (value : VerificationEvidence) (context : EvidenceContext)
    (e : VerificationEvidence)
    → validate_verification_evidence engine value context ≡ ok e
    → Passed context e
unfolding validate_verification_evidence
validate_verification_evidence-Passed engine value context e h =
    let (x, _, r0) = >>=-eq-ok (parse_verification_evidence engine value) _ h in
    let mismatch =
      not (x.verification_profile_hash == context.expected_profile_hash)
      || not (x.authority_id == context.authority_id)
      || not (x.authority_version == context.authority_version) in
    let (_, a, r1) = >>=-eq-ok (throw_if mismatch EvidenceError.incompatible) _ r0 in
    let (_, b, r2) =
      >>=-eq-ok
        (throw_if (not (same_members x.required_stages x.completed_stages))
          EvidenceError.incomplete)
        _ r1 in
    let (_, c, r3) =
      >>=-eq-ok
        (throw_if (not (same_members x.completed_stages (stage_ids x.stages)))
          EvidenceError.incomplete)
        _ r2 in
    let (_, d, r4) = >>=-eq-ok (check_stages context.allowed_command_ids x.stages) _ r3 in
    let same = throw_if-eq_ok mismatch _ a in
    let completed = throw_if-eq_ok (not (same_members x.required_stages x.completed_stages)) _ b in
    let named = throw_if-eq_ok (not (same_members x.completed_stages (stage_ids x.stages))) _ c in
    subst (Passed context) (ok_injective r4) (record {
      profile = (text_eq_iff _ _).0 (ground arith);
      authority = (text_eq_iff _ _).0 (ground arith);
      version = (text_eq_iff _ _).0 (ground arith);
      stages = λ id required. check_stages-passed context.allowed_command_ids x.stages id d (
          same_members-includes x.completed_stages (stage_ids x.stages) id (not-false named) (
            same_members-includes x.required_stages x.completed_stages id (not-false completed)
              required));
    })

-- Evidence that validation returns is what its parser makes of the value.
pub validate_verification_evidence-parse :
    (engine : Engine) (value : VerificationEvidence) (context : EvidenceContext)
    (e : VerificationEvidence)
    → validate_verification_evidence engine value context ≡ ok e
    → parse_verification_evidence engine value ≡ ok e
unfolding validate_verification_evidence
validate_verification_evidence-parse engine value context e h =
    let (x, parsed, r0) = >>=-eq-ok (parse_verification_evidence engine value) _ h in
    let mismatch =
      not (x.verification_profile_hash == context.expected_profile_hash)
      || not (x.authority_id == context.authority_id)
      || not (x.authority_version == context.authority_version) in
    let missing = not (same_members x.required_stages x.completed_stages) in
    let unnamed = not (same_members x.completed_stages (stage_ids x.stages)) in
    let (_, _, r1) = >>=-eq-ok (throw_if mismatch EvidenceError.incompatible) _ r0 in
    let (_, _, r2) = >>=-eq-ok (throw_if missing EvidenceError.incomplete) _ r1 in
    let (_, _, r3) = >>=-eq-ok (throw_if unnamed EvidenceError.incomplete) _ r2 in
    let (_, _, r4) = >>=-eq-ok (check_stages context.allowed_command_ids x.stages) _ r3 in
    parsed ∙ r4
