-- ===== src/Cache/Lookup/Usable.antt =====
-- cache-runtime.ts: an entry that passed the tests of `lookupVerified`, and its evidence.
use mathlib.Core.Path.{subst}
use ikimetr.Prelude.{
  not-false, ℕ, ◌≡◌, refl, ap, ◌∙◌, Bool, true, false, any, ◌||◌, not, Option, none, some, Text,
  text, text_Eq, text_eq_iff, Result, ok, err, throw_if, map_err, >>=-eq-ok, throw_if-eq_ok,
  ok_injective,
}
use ikimetr.Config.{ConfigSnapshot}
use ikimetr.LedgerEvents.{CacheNamespace, CacheState}
use ikimetr.Cache.Evidence.{
  VerificationEvidence, includes, parse_verification_evidence, validate_verification_evidence,
}
use ikimetr.Cache.Evidence.Passed.{
  Passed, validate_verification_evidence-Passed, validate_verification_evidence-parse,
}
use ikimetr.Cache.Entry.{
  CacheCompatibilityContext, CacheEntry, same_state, is_compatible_with_context,
}
use ikimetr.Cache.Entry.Semantics.{not_after}
use ikimetr.Cache.Runtime.Facts.{stage_ran, stage_passed-ran}
use ikimetr.Cache.Lineage.{Inspection, inspect}
use ikimetr.Cache.Runtime.{
  VerificationAuthority, RuntimeSettings, enabled_command_ids, CacheRuntime,
  has_matching_write_event, no_terminal_sibling,
}
use ikimetr.Cache.Lookup.{
  Stop, invalidate, quarantine, or_stop, evidence_context, inspected, unavailable, is_unusable,
  judge_evidence, judge_entry, judge_verified,
}

-- The evidence of an entry, as parsed, passed, its required stages ran enabled commands, and the
-- authority accepts it.
pub record Trusted (settings : RuntimeSettings) (config : ConfigSnapshot)
    (authority : VerificationAuthority) (entry : CacheEntry) : Type 0 where
  pub stored : VerificationEvidence
  pub is_stored : entry.verification_evidence ≡ some stored
  pub evidence : VerificationEvidence
  pub parsed : parse_verification_evidence settings.engine stored ≡ ok evidence
  pub passed :
      Passed
        (record {
          allowed_command_ids = enabled_command_ids settings.commands;
          expected_profile_hash = entry.metadata.verification_profile_hash;
          authority_id = authority.authority_id;
          authority_version = authority.authority_version;
        })
        evidence
  pub ran :
      (id : Text)
      → includes id evidence.required_stages ≡ true
      → any (stage_ran settings.commands id) evidence.stages ≡ true
  pub authorized : authority.authorize evidence ≡ some true

-- An entry that passed the tests of a lookup.
pub record Usable (settings : RuntimeSettings) (c : CacheRuntime)
    (context : CacheCompatibilityContext) (time : ℕ) (entry : CacheEntry) : Type 0 where
  pub verified : same_state entry.state CacheState.verified ≡ true
  pub no_negative : no_terminal_sibling settings c entry CacheNamespace.negative ≡ true
  pub audited : has_matching_write_event c entry ≡ true
  pub compatible : is_compatible_with_context entry context ≡ true
  pub unexpired : not_after (settings.engine.date entry.expires_at) (some time) ≡ false
  pub config : ConfigSnapshot
  pub is_config : settings.config ≡ some config
  pub same_config : entry.metadata.config_hash ≡ config.config_hash
  pub same_profile : entry.metadata.verification_profile_hash ≡ config.verification_hash
  pub authority : VerificationAuthority
  pub is_authority : settings.authority ≡ some authority
  pub trusted : Trusted settings config authority entry

pub or_stop-eq_ok {ℓ} :
    {A : Type ℓ} (stop : Stop) (o : Option A) {a : A} → or_stop stop o ≡ ok a → o ≡ some a
or_stop-eq_ok stop none h = cc
or_stop-eq_ok stop (some b) h = cc

map_err-const_ok {ℓ κ} :
    {E : Type ℓ} {A : Type κ} (s : Stop) (m : Result E A) {a : A}
    → map_err (λ _. s) m ≡ ok a
    → m ≡ ok a
map_err-const_ok s (ok b) e = ap ok (ok_injective e)
map_err-const_ok s (err x) e = cc

pub inspected-eq_ok :
    (settings : RuntimeSettings) (i : Inspection) (entry : CacheEntry)
    → inspected settings i ≡ ok entry
    → i ≡ Inspection.ready entry
inspected-eq_ok settings Inspection.empty entry h = cc
inspected-eq_ok settings (Inspection.quarantined head) entry h = cc
inspected-eq_ok settings (Inspection.ready e) entry h = ap Inspection.ready (ok_injective h)

parts_of :
    (a b c d : Bool)
    → (a || not b || not c || not d) ≡ false
    → (a ≡ false) × (b ≡ true) × (c ≡ true) × (d ≡ true)
parts_of false true true true h = (refl, refl, refl, refl)
parts_of true b c d h = cc
parts_of false false c d h = cc
parts_of false true false d h = cc
parts_of false true true false h = cc

module _ (settings : RuntimeSettings) where
  judge_evidence-Trusted :
      (config : ConfigSnapshot) (authority : VerificationAuthority)
      (evidence : VerificationEvidence) (x : CacheEntry) (value : Option Text)
      → x.verification_evidence ≡ some evidence
      → judge_evidence settings config authority evidence x ≡ ok value
      → Trusted settings config authority x
  unfolding judge_evidence
  judge_evidence-Trusted config authority evidence x value stored h =
      let expected = evidence_context settings config x authority in
      let validated = validate_verification_evidence settings.engine evidence expected in
      let stop = Stop.verdict (quarantine (some x) (text "invalid-evidence")) in
      let refused = Stop.verdict (quarantine (some x) (text "authority-rejected")) in
      let (checked, a, r0) = >>=-eq-ok (map_err (λ _. stop) validated) _ h in
      let (allowed, b, r1) = >>=-eq-ok (or_stop Stop.thrown (authority.authorize checked)) _ r0 in
      let (_, c, _) = >>=-eq-ok (throw_if (not allowed) refused) _ r1 in
      let valid = map_err-const_ok stop validated a in
      let passed =
        validate_verification_evidence-Passed settings.engine evidence expected checked valid in
      record {
        stored = evidence;
        is_stored = stored;
        evidence = checked;
        parsed =
            validate_verification_evidence-parse settings.engine evidence expected checked valid;
        passed = passed;
        ran = λ id required.
            stage_passed-ran settings.commands id checked.stages (passed.stages id required);
        authorized =
            or_stop-eq_ok Stop.thrown (authority.authorize checked) b
            ∙ ap some (not-false (throw_if-eq_ok (not allowed) refused c));
      }

  judge_entry-Usable :
      (c : CacheRuntime) (context : CacheCompatibilityContext) (time : ℕ) (x : CacheEntry)
      (value : Option Text)
      → judge_entry settings c context time x ≡ ok value
      → Usable settings c context time x
  unfolding judge_entry
  judge_entry-Usable c context time x value h =
      let stop = unavailable settings x in
      let conflict = Stop.verdict (quarantine (some x) (text "terminal-conflict")) in
      let unaudited = Stop.verdict (quarantine (some x) (text "unaudited-entry")) in
      let unfit = Stop.verdict (invalidate (some x) (text "incompatible")) in
      let alone = no_terminal_sibling settings c x CacheNamespace.negative in
      let is_verified = same_state x.state CacheState.verified in
      let (_, a, r0) = >>=-eq-ok (throw_if (not alone) conflict) _ h in
      let (_, b, r1) = >>=-eq-ok (throw_if (not is_verified) stop) _ r0 in
      let (authority, d, r2) = >>=-eq-ok (or_stop stop settings.authority) _ r1 in
      let (config, e, r3) = >>=-eq-ok (or_stop stop settings.config) _ r2 in
      let (evidence, f, r4) = >>=-eq-ok (or_stop stop x.verification_evidence) _ r3 in
      let (_, g, r5) = >>=-eq-ok (throw_if (not (has_matching_write_event c x)) unaudited) _ r4 in
      let (_, i, r6) =
        >>=-eq-ok (throw_if (is_unusable settings config context time x) unfit) _ r5 in
      let (unexpired, compatible, same_config, same_profile) =
        parts_of _ _ _ _ (throw_if-eq_ok (is_unusable settings config context time x) unfit i) in
      record {
        verified = not-false (throw_if-eq_ok (not is_verified) stop b);
        no_negative = not-false (throw_if-eq_ok (not alone) conflict a);
        audited = not-false (throw_if-eq_ok (not (has_matching_write_event c x)) unaudited g);
        compatible = compatible;
        unexpired = unexpired;
        config = config;
        is_config = or_stop-eq_ok stop settings.config e;
        same_config = (text_eq_iff x.metadata.config_hash config.config_hash).0 same_config;
        same_profile =
            (text_eq_iff x.metadata.verification_profile_hash config.verification_hash).0
              same_profile;
        authority = authority;
        is_authority = or_stop-eq_ok stop settings.authority d;
        trusted =
            judge_evidence-Trusted config authority evidence x value
              (or_stop-eq_ok stop x.verification_evidence f) r6;
      }

  pub judge_verified-Usable :
      (c : CacheRuntime) (context : CacheCompatibilityContext) (readable : Bool) (now : Option ℕ)
      (x : CacheEntry) (value : Option Text)
      → judge_verified settings c context readable now ≡ ok (x, value)
      → (time : ℕ) × (now ≡ some time)
        × (inspect c.store CacheNamespace.verified_artifact context.cache_key ≡ Inspection.ready x)
        × Usable settings c context time x
  unfolding judge_verified
  judge_verified-Usable c context readable now x value h =
      let untimed = Stop.verdict (invalidate none (text "invalid-time")) in
      let unreadable = Stop.verdict (quarantine none (text "invalid-storage")) in
      let head = inspect c.store CacheNamespace.verified_artifact context.cache_key in
      let (time, a, r0) = >>=-eq-ok (or_stop untimed now) _ h in
      let (_, _, r1) = >>=-eq-ok (throw_if (not readable) unreadable) _ r0 in
      let (entry, b, r2) = >>=-eq-ok (inspected settings head) _ r1 in
      let (v, d, r3) = >>=-eq-ok (judge_entry settings c context time entry) _ r2 in
      let same : entry ≡ x = ap (λ p. p.0) (ok_injective r3) in
      (
        time,
        or_stop-eq_ok untimed now a,
        inspected-eq_ok settings head entry b ∙ ap Inspection.ready same,
        subst (Usable settings c context time) same (judge_entry-Usable c context time entry v d),
      )
