-- ===== src/Cache/Evidence.antt =====
-- verification-evidence.ts: the evidence that a result passed its verification. The engine's
-- `Date.parse`, `localeCompare` and secret patterns are the record `Engine`.
pub mod Passed
use ikimetr.Prelude.{
  ℕ, ◌≡◌, refl, arith, Bool, true, false, ◌&&◌, ◌||◌, not, Option, none, some, List, [], ◌∷◌, ◌++◌,
  map, all, any, length, leb, nat_eq, if◌then◌else◌, Eq, ◌==◌, Text, text_Eq, Result, ok, err,
  ◌>>=◌, ◌>>◌, throw_if,
}
use ikimetr.LedgerEvents.{is_sha256_hex, is_safe, ends_with_z}
use ikimetr.Routing.State.{sort_texts}

-- `date` gives milliseconds, counted from a time before every date.
pub record Engine : Type 0 where
  pub date : Text → Option ℕ
  pub comes_before : Text → Text → Bool
  pub is_secret_like : Text → Bool

abbrev pub is_alphanumeric : ℕ → Bool
is_alphanumeric c = leb b'0' c && leb c b'9' || leb b'a' c && leb c b'z' || leb b'A' c && leb c b'Z'

abbrev pub is_name_char : ℕ → Bool
is_name_char c =
    is_alphanumeric c || nat_eq c b'.' || nat_eq c b'_' || nat_eq c b':' || nat_eq c b'-'

unfoldable pub is_cache_identifier : Text → Bool
is_cache_identifier [] = false
is_cache_identifier (c ∷ rest) =
    is_alphanumeric c && all is_name_char rest && leb (length (c ∷ rest)) 128

abbrev pub is_bounded_text : Text → Bool
is_bounded_text t = leb 1 (length t) && leb (length t) 256

abbrev pub is_date : Option ℕ → Bool
is_date none = false
is_date (some d) = true

unfoldable pub is_cache_timestamp : Engine → Text → Bool
is_cache_timestamp engine t = is_date (engine.date t) && ends_with_z t

pub record VerificationStage : Type 0 where
  pub stage_id : Text
  pub command_id : Text
  pub exit_code : ℕ
  pub evidence_hash : Text
  pub tool_version : Text
  pub duration_ms : ℕ

pub record VerificationEvidence : Type 0 where
  pub required_stages : List Text
  pub completed_stages : List Text
  pub stages : List VerificationStage
  pub authority_id : Text
  pub authority_version : Text
  pub verification_profile_hash : Text
  pub verified_at : Text

pub data EvidenceError : Type 0 where
  prohibited malformed repeated incompatible incomplete failed_stage : EvidenceError

abbrev pub includes {ℓ} : {A : Type ℓ} ⦃e : Eq A⦄ → A → List A → Bool
includes x l = any (λ y. y == x) l

unfoldable pub valid_stage : VerificationStage → Bool
valid_stage s =
    is_cache_identifier s.stage_id
    && is_cache_identifier s.command_id
    && is_safe s.exit_code
    && is_sha256_hex s.evidence_hash
    && is_bounded_text s.tool_version
    && is_safe s.duration_ms

abbrev pub up_to_64 {ℓ} : {A : Type ℓ} → List A → Bool
up_to_64 l = leb 1 (length l) && leb (length l) 64

-- `verificationEvidenceSchema`
unfoldable pub valid_evidence : Engine → VerificationEvidence → Bool
valid_evidence engine e =
    up_to_64 e.required_stages
    && all is_cache_identifier e.required_stages
    && up_to_64 e.completed_stages
    && all is_cache_identifier e.completed_stages
    && up_to_64 e.stages
    && all valid_stage e.stages
    && is_cache_identifier e.authority_id
    && is_bounded_text e.authority_version
    && is_sha256_hex e.verification_profile_hash
    && is_cache_timestamp engine e.verified_at

-- `new Set(values).size === values.length`
abbrev pub is_unique {ℓ} : {A : Type ℓ} ⦃e : Eq A⦄ → List A → Bool
is_unique [] = true
is_unique (x ∷ l) = not (includes x l) && is_unique l

abbrev pub stage_ids : List VerificationStage → List Text
stage_ids stages = map (λ (s : VerificationStage). s.stage_id) stages

abbrev pub stage_strings : List VerificationStage → List Text
stage_strings [] = []
stage_strings (s ∷ stages) =
    s.stage_id ∷ s.command_id ∷ s.evidence_hash ∷ s.tool_version ∷ stage_strings stages

abbrev pub evidence_strings : VerificationEvidence → List Text
evidence_strings e =
    e.authority_id
    ∷ e.authority_version
    ∷ e.verification_profile_hash
    ∷ e.verified_at
    ∷ (e.required_stages ++ (e.completed_stages ++ stage_strings e.stages))

unfoldable pub insert_stage :
    Engine → VerificationStage → List VerificationStage → List VerificationStage
insert_stage engine s [] = s ∷ []
insert_stage engine s (t ∷ rest) =
    let inserted = insert_stage engine s rest in
    if engine.comes_before t.stage_id s.stage_id then t ∷ inserted else s ∷ t ∷ rest

unfoldable pub sort_stages : Engine → List VerificationStage → List VerificationStage
sort_stages engine [] = []
sort_stages engine (s ∷ rest) = insert_stage engine s (sort_stages engine rest)

unfoldable pub parse_verification_evidence :
    Engine → VerificationEvidence → Result EvidenceError VerificationEvidence
parse_verification_evidence engine e = do
  throw_if (any engine.is_secret_like (evidence_strings e)) EvidenceError.prohibited
  throw_if (not (valid_evidence engine e)) EvidenceError.malformed
  throw_if (not (is_unique e.required_stages)) EvidenceError.repeated
  throw_if (not (is_unique e.completed_stages)) EvidenceError.repeated
  throw_if (not (is_unique (stage_ids e.stages))) EvidenceError.repeated
  ok (record e {
    required_stages = sort_texts e.required_stages;
    completed_stages = sort_texts e.completed_stages;
    stages = sort_stages engine e.stages;
  })

pub record EvidenceContext : Type 0 where
  pub allowed_command_ids : List Text
  pub expected_profile_hash : Text
  pub authority_id : Text
  pub authority_version : Text

unfoldable pub same_members : List Text → List Text → Bool
same_members left right =
    nat_eq (length left) (length right) && all (λ value. includes value right) left

-- The loop over the stages.
unfoldable pub check_stages : List Text → List VerificationStage → Result EvidenceError (Unit {0})
check_stages allowed [] = ok tt
check_stages allowed (s ∷ stages) = do
  throw_if (not (includes s.command_id allowed)) EvidenceError.incompatible
  throw_if (not (nat_eq s.exit_code 0)) EvidenceError.failed_stage
  check_stages allowed stages

unfoldable pub validate_verification_evidence :
    Engine → VerificationEvidence → EvidenceContext → Result EvidenceError VerificationEvidence
validate_verification_evidence engine value context = do
  e ← parse_verification_evidence engine value
  throw_if
      (not (e.verification_profile_hash == context.expected_profile_hash)
        || not (e.authority_id == context.authority_id)
        || not (e.authority_version == context.authority_version))
      EvidenceError.incompatible
  throw_if (not (same_members e.required_stages e.completed_stages)) EvidenceError.incomplete
  throw_if (not (same_members e.completed_stages (stage_ids e.stages))) EvidenceError.incomplete
  check_stages context.allowed_command_ids e.stages
  ok e
