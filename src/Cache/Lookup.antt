-- ===== src/Cache/Lookup.antt =====
-- cache-runtime.ts: `lookupVerified`. How the calls that write an event end is an argument.
pub mod Usable
pub mod Reusable
use ikimetr.Prelude.{
  ℕ, ◌≡◌, Bool, true, false, ◌&&◌, ◌||◌, not, Option, none, some, List, [], ◌∷◌, ◌++◌, leb, Eq,
  ◌==◌, Text, text, text_Eq, Result, ok, err, ◌>>=◌, ◌>>◌, throw_if, map_err,
}
use ikimetr.Prelude.Dict.{Dict, lookup, insert}
use ikimetr.Config.{DataClass, ConfigSnapshot, data_class_Eq}
use ikimetr.LedgerEvents.{
  ApprovalDecision, CacheAction, CacheNamespace, CacheState, CacheEvent, LedgerEvent, Schema,
}
use ikimetr.Budget.Controller.{AppendOutcome, ledger_append}
use ikimetr.Cache.Evidence.{
  Engine, VerificationEvidence, EvidenceError, EvidenceContext, validate_verification_evidence,
}
use ikimetr.Cache.Entry.{
  InputProtection, CacheMetadata, CacheCompatibilityContext, CachePayload, OutcomeReason,
  CacheEntry, same_namespace, same_state, same_protection, same_optional,
  is_compatible_with_context,
}
use ikimetr.Cache.Entry.Semantics.{not_after}
use ikimetr.Cache.Lineage.{Inspection, inspect}
use ikimetr.Cache.Runtime.{
  enabled_command_ids, CacheRuntime, EventCall, RuntimeSettings, VerificationAuthority,
  action_event, after_append, append_cache_action, entry_hash_of, has_matching_write_event,
  is_approved, is_empty_inspection, is_namespace, is_state, is_write, is_write_of, matches_write,
  no_terminal_sibling, persistent_codec, result_hash_of, state_of,
}

pub data VerifiedCacheLookup : Type 0 where
  hit : CacheEntry → Option Text → VerifiedCacheLookup
  miss invalidated quarantined : VerifiedCacheLookup

-- What a verdict records: an action, the entry that it names, and a reason.
pub record Verdict : Type 0 where
  pub action : CacheAction
  pub entry : Option CacheEntry
  pub reason : Option Text

-- The status that is returned after the action.
abbrev pub answer_of : CacheAction → VerifiedCacheLookup
answer_of CacheAction.miss = VerifiedCacheLookup.miss
answer_of CacheAction.invalidate = VerifiedCacheLookup.invalidated
answer_of _ = VerifiedCacheLookup.quarantined

abbrev pub invalidate : Option CacheEntry → Text → Verdict
invalidate entry reason = record {
  action = CacheAction.invalidate;
  entry = entry;
  reason = some reason;
}

abbrev pub quarantine : Option CacheEntry → Text → Verdict
quarantine entry reason = record {
  action = CacheAction.quarantine;
  entry = entry;
  reason = some reason;
}

abbrev pub missing : Verdict
missing = record { action = CacheAction.miss; entry = none; reason = some (text "not-found") }

-- What stops a lookup: a verdict, or an authority that throws.
pub data Stop : Type 0 where
  verdict : Verdict → Stop
  thrown : Stop

abbrev pub or_stop {ℓ} : {A : Type ℓ} → Stop → Option A → Result Stop A
or_stop stop none = err stop
or_stop stop (some a) = ok a

module _ (settings : RuntimeSettings) where
  abbrev pub open_with : Option (CachePayload → Option Text) → CachePayload → Option Text
  open_with none payload = none
  open_with (some f) payload = f payload

  -- The value of a payload.
  abbrev pub open_payload : CacheEntry → Option CachePayload → Result Stop (Option Text)
  open_payload entry none = ok none
  open_payload entry (some (CachePayload.clear kind value hash)) = ok (some value)
  open_payload entry (some (CachePayload.sealed kind codec value hash)) =
      elim (open_with (persistent_codec settings entry)
        (CachePayload.sealed kind codec value hash)) [
          | none ↦ err (Stop.verdict (quarantine (some entry) (text "sensitive-open-failed")))
          | some opened ↦ ok (some opened)
        ]

  abbrev pub evidence_context :
      ConfigSnapshot → CacheEntry → VerificationAuthority → EvidenceContext
  evidence_context config entry authority = record {
    allowed_command_ids = enabled_command_ids settings.commands;
    expected_profile_hash = entry.metadata.verification_profile_hash;
    authority_id = authority.authority_id;
    authority_version = authority.authority_version;
  }

  abbrev pub inspected : Inspection → Result Stop CacheEntry
  inspected Inspection.empty = err (Stop.verdict missing)
  inspected (Inspection.quarantined head) =
      err (Stop.verdict (quarantine head (text "invalid-lineage")))
  inspected (Inspection.ready entry) = ok entry

  abbrev pub unavailable : CacheEntry → Stop
  unavailable entry = Stop.verdict (invalidate (some entry) (text "verification-unavailable"))

  abbrev pub is_unusable : ConfigSnapshot → CacheCompatibilityContext → ℕ → CacheEntry → Bool
  is_unusable config context time entry =
      not_after (settings.engine.date entry.expires_at) (some time)
      || not (is_compatible_with_context entry context)
      || not (entry.metadata.config_hash == config.config_hash)
      || not (entry.metadata.verification_profile_hash == config.verification_hash)

  -- From the evidence of an entry to its value.
  unfoldable pub judge_evidence :
      ConfigSnapshot
      → VerificationAuthority
      → VerificationEvidence
      → CacheEntry
      → Result Stop (Option Text)
  judge_evidence config authority evidence entry = do
    checked ←
        map_err (λ _. Stop.verdict (quarantine (some entry) (text "invalid-evidence")))
          (validate_verification_evidence settings.engine evidence
            (evidence_context config entry authority))
    allowed ← or_stop Stop.thrown (authority.authorize checked)
    throw_if (not allowed) (Stop.verdict (quarantine (some entry) (text "authority-rejected")))
    open_payload entry entry.payload

  -- From the head of the lineage to its value.
  unfoldable pub judge_entry :
      CacheRuntime → CacheCompatibilityContext → ℕ → CacheEntry → Result Stop (Option Text)
  judge_entry c context time entry = do
    throw_if (not (no_terminal_sibling settings c entry CacheNamespace.negative))
        (Stop.verdict (quarantine (some entry) (text "terminal-conflict")))
    throw_if (not (same_state entry.state CacheState.verified)) (unavailable entry)
    authority ← or_stop (unavailable entry) settings.authority
    config ← or_stop (unavailable entry) settings.config
    evidence ← or_stop (unavailable entry) entry.verification_evidence
    throw_if (not (has_matching_write_event c entry))
        (Stop.verdict (quarantine (some entry) (text "unaudited-entry")))
    throw_if (is_unusable config context time entry)
        (Stop.verdict (invalidate (some entry) (text "incompatible")))
    judge_evidence config authority evidence entry

  -- From the time to the value: whether the storage can be read, and the time, if it is one.
  unfoldable pub judge_verified :
      CacheRuntime
      → CacheCompatibilityContext
      → Bool
      → Option ℕ
      → Result Stop (CacheEntry × Option Text)
  judge_verified c context readable now = do
    time ← or_stop (Stop.verdict (invalidate none (text "invalid-time"))) now
    throw_if (not readable) (Stop.verdict (quarantine none (text "invalid-storage")))
    entry ← inspected (inspect c.store CacheNamespace.verified_artifact context.cache_key)
    value ← judge_entry c context time entry
    ok (entry, value)

  abbrev pub answering {ℓ} : {A : Type ℓ} → A → CacheRuntime × Bool → CacheRuntime × Option A
  answering answer (c, true) = (c, some answer)
  answering answer (c, false) = (c, none)

  abbrev pub and_then {ℓ} :
      {A : Type ℓ}
      → (CacheRuntime → CacheRuntime × Option A)
      → CacheRuntime × Bool
      → CacheRuntime × Option A
  and_then next (c, true) = next c
  and_then next (c, false) = (c, none)

  abbrev pub record_hit :
      EventCall
      → EventCall
      → Text
      → CacheEntry
      → Option Text
      → CacheRuntime
      → CacheRuntime × Option VerifiedCacheLookup
  record_hit second third key entry value c =
      and_then
        (λ d. answering (VerifiedCacheLookup.hit entry value) (
          append_cache_action settings third CacheAction.verified_reuse key
            CacheNamespace.verified_artifact (some entry) none d))
        (append_cache_action settings second CacheAction.hit key CacheNamespace.verified_artifact
          (some entry) none c)

  -- The end of a lookup.
  abbrev pub finish :
      EventCall
      → EventCall
      → Text
      → Result Stop (CacheEntry × Option Text)
      → CacheRuntime
      → CacheRuntime × Option VerifiedCacheLookup
  finish second third key (ok (entry, value)) c = record_hit second third key entry value c
  finish second third key (err Stop.thrown) c = (c, none)
  finish second third key (err (Stop.verdict v)) c = answering (answer_of v.action) (
      append_cache_action settings second v.action key CacheNamespace.verified_artifact v.entry
        v.reason c)

  -- `lookupVerified`: the runtime after it, and the answer unless it throws.
  unfoldable pub lookup_verified :
      CacheCompatibilityContext
      → Bool
      → Option ℕ
      → EventCall
      → EventCall
      → EventCall
      → CacheRuntime
      → CacheRuntime × Option VerifiedCacheLookup
  lookup_verified context readable now first second third c =
      and_then
        (λ d. finish second third context.cache_key (judge_verified d context readable now) d)
        (append_cache_action settings first CacheAction.lookup context.cache_key
          CacheNamespace.verified_artifact none none c)
