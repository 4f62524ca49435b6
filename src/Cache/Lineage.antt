-- ===== src/Cache/Lineage.antt =====
-- cache-runtime.ts: the head of a lineage, and `inspect`. The walk from the root to the head is on
-- fuel, and runs out of it as `unfinished`; four entries are enough, since each has a later state.
pub mod Walk
use ikimetr.Prelude.{
  ℕ, zero, suc, ◌+◌, Bool, true, false, ◌&&◌, ◌||◌, not, Option, none, some, List, [], ◌∷◌, map,
  all, any, keep, length, nat_eq, if◌then◌else◌, Eq, ◌==◌, Text, text_Eq,
}
use ikimetr.LedgerEvents.{CacheNamespace, CacheState}
use ikimetr.Cache.Evidence.{is_unique}
use ikimetr.Cache.Entry.{
  Provenance, CacheEntry, same_namespace, same_state, same_optional, allowed_transition,
}

-- The test of `assertChildOf`
unfoldable pub is_child_of : CacheEntry → CacheEntry → Bool
is_child_of parent child =
    same_optional child.parent_entry_hash (some parent.entry_hash)
    && child.cache_key == parent.cache_key
    && same_namespace child.namespace parent.namespace
    && child.provenance.lineage_id == parent.provenance.lineage_id
    && same_optional child.provenance.source_cache_key (some parent.cache_key)
    && same_optional child.provenance.source_entry_hash (some parent.entry_hash)

unfoldable pub is_valid_child : CacheEntry → CacheEntry → Bool
is_valid_child parent child =
    is_child_of parent child && allowed_transition (some parent.state) child.state

abbrev pub entry_hashes : List CacheEntry → List Text
entry_hashes revisions = map (λ (e : CacheEntry). e.entry_hash) revisions

-- `byHash.get(hash)`
unfoldable pub find_entry : Text → List CacheEntry → Option CacheEntry
find_entry hash [] = none
find_entry hash (e ∷ rest) = if e.entry_hash == hash then some e else find_entry hash rest

abbrev pub is_absent {ℓ} : {A : Type ℓ} → Option A → Bool
is_absent none = true
is_absent (some a) = false

abbrev pub find_parent : List CacheEntry → Option Text → Option CacheEntry
find_parent revisions none = none
find_parent revisions (some hash) = find_entry hash revisions

abbrev pub parent_of : List CacheEntry → CacheEntry → Option CacheEntry
parent_of revisions e = find_parent revisions e.parent_entry_hash

abbrev pub is_root : List CacheEntry → CacheEntry → Bool
is_root revisions e = is_absent (parent_of revisions e)

abbrev pub fits_parent : Option CacheEntry → CacheEntry → Bool
fits_parent none e = true
fits_parent (some parent) e = is_valid_child parent e

-- `children.get(parent.entry_hash)`
abbrev pub children_of : List CacheEntry → CacheEntry → List CacheEntry
children_of revisions parent =
    keep (λ (e : CacheEntry). same_optional e.parent_entry_hash (some parent.entry_hash)) revisions

abbrev pub root_state : CacheNamespace → CacheState
root_state CacheNamespace.provider_request = CacheState.pending
root_state CacheNamespace.verified_artifact = CacheState.verified
root_state CacheNamespace.negative = CacheState.negative

pub data Head : Type 0 where
  unique : CacheEntry → Head
  ambiguous unfinished : Head

-- The `while` loop
unfoldable pub walk : ℕ → List CacheEntry → ℕ → CacheEntry → Head
walk zero revisions visited current = Head.unfinished
walk (suc fuel) revisions visited current = elim (children_of revisions current) [
  | [] ↦ if nat_eq visited (length revisions) then Head.unique current else Head.ambiguous
  | child ∷ others ↦ elim others [
    | [] ↦ walk fuel revisions (visited + 1) child
    | other ∷ rest ↦ Head.ambiguous
  ]
]

abbrev pub only {ℓ} : {A : Type ℓ} → List A → Option A
only (x ∷ []) = some x
only _ = none

unfoldable pub resolve_unique_head : List CacheEntry → CacheNamespace → Head
resolve_unique_head revisions namespace =
    if not (is_unique (entry_hashes revisions))
    then Head.ambiguous
    else elim (only (keep (is_root revisions) revisions)) [
      | none ↦ Head.ambiguous
      | some root ↦
          if not (all (λ e. fits_parent (parent_of revisions e) e) revisions)
            || not (same_state root.state (root_state namespace))
          then Head.ambiguous
          else walk 4 revisions 1 root
    ]

pub data Inspection : Type 0 where
  empty : Inspection
  ready : CacheEntry → Inspection
  quarantined : Option CacheEntry → Inspection

-- The entries of a namespace and a key, as `readRevisions` gives them.
abbrev pub read_revisions : CacheNamespace → Text → List CacheEntry → List CacheEntry
read_revisions namespace key store =
    keep (λ (e : CacheEntry). same_namespace e.namespace namespace && e.cache_key == key) store

abbrev pub inspect_head : Head → Inspection
inspect_head (Head.unique head) =
    if same_state head.state CacheState.quarantined
    then Inspection.quarantined (some head)
    else Inspection.ready head
inspect_head _ = Inspection.quarantined none

abbrev pub inspect_revisions : List CacheEntry → CacheNamespace → Inspection
inspect_revisions [] namespace = Inspection.empty
inspect_revisions (e ∷ rest) namespace = inspect_head (resolve_unique_head (e ∷ rest) namespace)

unfoldable pub inspect : List CacheEntry → CacheNamespace → Text → Inspection
inspect store namespace key = inspect_revisions (read_revisions namespace key store) namespace
