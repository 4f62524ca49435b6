-- ===== src/Cache/Entry/Semantics.antt =====
-- cache-entry.ts: `validateEntrySemantics`.
use ikimetr.Prelude.{
  ℕ, Bool, true, false, ◌||◌, not, Option, none, some, leb, ◌==◌, Result, ◌>>◌, throw_if,
}
use ikimetr.Config.{DataClass, data_class_Eq}
use ikimetr.LedgerEvents.{CacheNamespace, CacheState}
use ikimetr.Cache.Evidence.{Engine}
use ikimetr.Cache.Entry.{
  InputProtection, CachePayload, ProducerKind, CacheEntry, same_namespace, same_protection,
}

pub data EntryError : Type 0 where
  expiry sensitive clear_approval namespace pending unverified verified outcome : EntryError

abbrev pub is_given {ℓ} : {A : Type ℓ} → Option A → Bool
is_given none = false
is_given (some a) = true

abbrev pub is_clear : Option CachePayload → Bool
is_clear (some (CachePayload.clear kind value hash)) = true
is_clear _ = false

abbrev pub is_sealed : Option CachePayload → Bool
is_sealed (some (CachePayload.sealed kind codec value hash)) = true
is_sealed _ = false

-- `Date.parse(left) <= Date.parse(right)`, false where one is no date.
abbrev pub not_after : Option ℕ → Option ℕ → Bool
not_after (some a) (some b) = leb a b
not_after _ _ = false

abbrev pub expected_namespace : CacheState → CacheNamespace → CacheNamespace
expected_namespace CacheState.verified own = CacheNamespace.verified_artifact
expected_namespace CacheState.negative own = CacheNamespace.negative
expected_namespace CacheState.quarantined own = own
expected_namespace _ own = CacheNamespace.provider_request

abbrev pub is_authority : ProducerKind → Bool
is_authority ProducerKind.verification_authority = true
is_authority _ = false

abbrev pub check_protection : CacheEntry → Result EntryError (Unit {0})
check_protection e = elim (e.metadata.data_class == DataClass.sensitive) [
  | true ↦
      throw_if
        (not e.sensitive_persistence_approved
          || not (same_protection e.metadata.input_protection InputProtection.hmac_sha256)
          || is_clear e.payload)
        EntryError.sensitive
  | false ↦
      throw_if (e.sensitive_persistence_approved || is_sealed e.payload) EntryError.clear_approval
]

-- What an entry of a state has.
abbrev pub check_contents : CacheState → CacheEntry → Result EntryError (Unit {0})
check_contents CacheState.pending e =
    throw_if (is_given e.payload || is_given e.verification_evidence || is_given e.outcome_reason)
      EntryError.pending
check_contents CacheState.unverified e =
    throw_if
      (not (is_given e.payload) || is_given e.verification_evidence || is_given e.outcome_reason)
      EntryError.unverified
check_contents CacheState.verified e =
    throw_if
      (not (is_given e.payload)
        || not (is_given e.verification_evidence)
        || is_given e.outcome_reason
        || not (is_authority e.provenance.producer_kind))
      EntryError.verified
check_contents _ e =
    throw_if
      (is_given e.payload || is_given e.verification_evidence || not (is_given e.outcome_reason))
      EntryError.outcome

unfoldable pub validate_entry_semantics : Engine → CacheEntry → Result EntryError (Unit {0})
validate_entry_semantics engine e = do
  throw_if (not_after (engine.date e.expires_at) (engine.date e.created_at)) EntryError.expiry
  check_protection e
  throw_if (not (same_namespace e.namespace (expected_namespace e.state e.namespace)))
      EntryError.namespace
  check_contents e.state e
