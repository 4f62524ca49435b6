-- ===== src/Cache/Runtime/Facts.antt =====
-- cache-runtime.ts: what its tests say of the store, the events,
-- the times and the commands.
use ikimetr.Prelude.{
  ℕ, ◌<◌, ◌≡◌, refl, arith, Bool, true, false, ◌&&◌, Option, none, some, List, [], ◌∷◌, ◌==◌, Text,
  text_Eq, text_eq_iff, any, nat_eq, All, All-map, keep-none,
}
use ikimetr.Prelude.Dict.{lookup}
use ikimetr.LedgerEvents.{CacheAction, CacheNamespace, CacheState, CacheEvent}
use ikimetr.Cache.Evidence.{VerificationStage, includes}
use ikimetr.Cache.Evidence.Passed.{stage_passed}
use ikimetr.Cache.Entry.{CacheEntry, same_namespace}
use ikimetr.Cache.Entry.Semantics.{not_after}
use ikimetr.Cache.Entry.Same.{
  same_namespace_lem, same_namespace_refl, same_state_lem, same_optional_lem,
}
use ikimetr.Cache.Lineage.{
  resolve_unique_head, Head, read_revisions, inspect_head, inspect_revisions, inspect,
}
use ikimetr.Cache.Runtime.{
  RuntimeSettings, enabled_command_ids, CacheRuntime, is_empty_inspection, is_write, is_state,
  is_namespace, is_write_of, matches_write, has_matching_write_event, no_terminal_sibling,
}

-- No entry of the store has the namespace and the key.
abbrev pub NoEntry : List CacheEntry → CacheNamespace → Text → Type 0
NoEntry store namespace key =
    All (λ (e : CacheEntry). ¬ ((e.namespace ≡ namespace) × (e.cache_key ≡ key))) store

head_empty : (h : Head) → is_empty_inspection (inspect_head h) ≡ true → ⊥
head_empty h e = ground arith

no_revisions :
    (l : List CacheEntry) (namespace : CacheNamespace)
    → is_empty_inspection (inspect_revisions l namespace) ≡ true
    → l ≡ []
no_revisions [] namespace h = refl
no_revisions (x ∷ l) namespace h = absurd (head_empty (resolve_unique_head (x ∷ l) namespace) h)

not_there :
    (e : CacheEntry) (namespace : CacheNamespace) (key : Text)
    → (same_namespace e.namespace namespace && e.cache_key == key) ≡ false
    → ¬ ((e.namespace ≡ namespace) × (e.cache_key ≡ key))
not_there e namespace key h (n, k) =
    let same : same_namespace e.namespace namespace ≡ true =
      rw (n) (same_namespace_refl namespace) in
    let own = (text_eq_iff e.cache_key key).1 k in ground arith

pub inspect-NoEntry :
    (store : List CacheEntry) (namespace : CacheNamespace) (key : Text)
    → is_empty_inspection (inspect store namespace key) ≡ true
    → NoEntry store namespace key
unfolding inspect
inspect-NoEntry store namespace key h =
    All-map store (λ e f. not_there e namespace key f)
      (keep-none (λ (e : CacheEntry). same_namespace e.namespace namespace && e.cache_key == key)
        store (no_revisions (read_revisions namespace key store) namespace h))

pub no_terminal_sibling-NoEntry :
    (settings : RuntimeSettings) (c : CacheRuntime) (entry : CacheEntry)
    (namespace : CacheNamespace)
    → no_terminal_sibling settings c entry namespace ≡ true
    → NoEntry c.store namespace (settings.derive_key namespace entry.metadata)
unfolding no_terminal_sibling
no_terminal_sibling-NoEntry settings c entry namespace h =
    inspect-NoEntry c.store namespace (settings.derive_key namespace entry.metadata) h

-- The event that says that an entry was written.
pub record Written (c : CacheRuntime) (entry : CacheEntry) : Type 0 where
  pub event : CacheEvent
  pub known : lookup entry.provenance.write_event_id c.cache_events ≡ some event
  pub action : event.action ≡ CacheAction.write
  pub cache_key : event.cache_key ≡ entry.cache_key
  pub namespace : event.namespace ≡ some entry.namespace
  pub entry_hash : event.entry_hash ≡ some entry.entry_hash
  pub state : event.state ≡ some entry.state
  pub result_hash : event.result_hash ≡ entry.result_hash

is_write_lem : (a : CacheAction) → is_write a ≡ true → a ≡ CacheAction.write
is_write_lem a h = ground arith

is_namespace_lem :
    (o : Option CacheNamespace) (n : CacheNamespace) → is_namespace o n ≡ true → o ≡ some n
is_namespace_lem none n h = cc
is_namespace_lem (some m) n h = let e = same_namespace_lem m n h in cc

is_state_lem : (o : Option CacheState) (s : CacheState) → is_state o s ≡ true → o ≡ some s
is_state_lem none s h = cc
is_state_lem (some t) s h = let e = same_state_lem t s h in cc

both : (a b : Bool) → (a && b) ≡ true → (a ≡ true) × (b ≡ true)
both a b h = (ground arith, ground arith)

written_by :
    (c : CacheRuntime) (entry : CacheEntry) (o : Option CacheEvent)
    → lookup entry.provenance.write_event_id c.cache_events ≡ o
    → matches_write o entry ≡ true
    → Written c entry
unfolding is_write_of
written_by c entry none known h = cc
written_by c entry (some event) known h =
    let (h1, e5) = both _ _ h in
    let (h2, e4) = both _ _ h1 in
    let (h3, e3) = both _ _ h2 in
    let (h4, e2) = both _ _ h3 in
    let (e0, e1) = both _ _ h4 in
    record {
      event = event;
      known = known;
      action = is_write_lem event.action e0;
      cache_key = (text_eq_iff event.cache_key entry.cache_key).0 e1;
      namespace = is_namespace_lem event.namespace entry.namespace e2;
      entry_hash = same_optional_lem event.entry_hash (some entry.entry_hash) e3;
      state = is_state_lem event.state entry.state e4;
      result_hash = same_optional_lem event.result_hash entry.result_hash e5;
    }

pub has_matching_write_event-Written :
    (c : CacheRuntime) (entry : CacheEntry)
    → has_matching_write_event c entry ≡ true
    → Written c entry
unfolding has_matching_write_event
has_matching_write_event-Written c entry h =
    written_by c entry (lookup entry.provenance.write_event_id c.cache_events) refl h

pub not_after_lem :
    (o : Option ℕ) (time t : ℕ) → not_after o (some time) ≡ false → o ≡ some t → time < t
not_after_lem none time t h e = cc
not_after_lem (some s) time t h e = let same : s ≡ t = cc in ground arith

-- The command has the name and is enabled.
abbrev pub enables : Text → Text × Bool → Bool
enables id command = command.0 == id && command.1

-- A stage with this name ran an enabled command and ended with exit code 0.
abbrev pub stage_ran : List (Text × Bool) → Text → VerificationStage → Bool
stage_ran commands id s =
    s.stage_id == id && any (enables s.command_id) commands && nat_eq s.exit_code 0

enabled_command_ids-enables :
    (commands : List (Text × Bool)) (id : Text)
    → includes id (enabled_command_ids commands) ≡ true
    → any (enables id) commands ≡ true
unfolding enabled_command_ids
enabled_command_ids-enables [] id h = cc
enabled_command_ids-enables ((name, true) ∷ commands) id h =
    ground (arith, enabled_command_ids-enables commands id)
enabled_command_ids-enables ((name, false) ∷ commands) id h =
    ground (arith, enabled_command_ids-enables commands id h)

-- Stages that ran an allowed command ran an enabled one.
pub stage_passed-ran :
    (commands : List (Text × Bool)) (id : Text) (stages : List VerificationStage)
    → any (stage_passed (enabled_command_ids commands) id) stages ≡ true
    → any (stage_ran commands id) stages ≡ true
stage_passed-ran commands id [] h = cc
stage_passed-ran commands id (s ∷ stages) h =
    ground (
      arith,
      enabled_command_ids-enables commands s.command_id,
      stage_passed-ran commands id stages,
    )
