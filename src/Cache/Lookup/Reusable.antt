-- ===== src/Cache/Lookup/Reusable.antt =====
-- cache-runtime.ts: what a hit of `lookupVerified` rests on.
use ikimetr.Prelude.{
  ◌<◌, ℕ, ◌≡◌, refl, sym, ap, ◌∙◌, arith, Bool, true, false, Option, none, some, List, ◌==◌, Text,
  text_Eq, if◌then◌else◌,
}
use ikimetr.Prelude.Dict.{lookup, insert, lookup-insert}
use ikimetr.Config.{ConfigSnapshot}
use ikimetr.LedgerEvents.{CacheAction, CacheNamespace, CacheState, CacheEvent, LedgerEvent}
use ikimetr.Cache.Entry.{CacheCompatibilityContext, CacheEntry}
use ikimetr.Cache.Entry.Same.{SameMetadata}
use ikimetr.Cache.Runtime.Facts.{NoEntry, Written}
use ikimetr.Cache.Runtime.{
  VerificationAuthority, RuntimeSettings, CacheRuntime, EventCall, is_write, is_write_of,
  matches_write, has_matching_write_event, action_event,
}
use ikimetr.Cache.Lookup.{answering}
use ikimetr.Cache.Lookup.Usable.{Trusted, Usable}

-- An entry that may be reused at a time for a context.
pub record Reusable (settings : RuntimeSettings) (c : CacheRuntime)
    (context : CacheCompatibilityContext) (time : ℕ) (entry : CacheEntry) : Type 0 where
  pub verified : entry.state ≡ CacheState.verified
  pub no_negative :
      NoEntry c.store CacheNamespace.negative
        (settings.derive_key CacheNamespace.negative entry.metadata)
  pub written : Written c entry
  pub cache_key : entry.cache_key ≡ context.cache_key
  pub metadata : SameMetadata entry.metadata context.metadata
  pub unexpired : (t : ℕ) → settings.engine.date entry.expires_at ≡ some t → time < t
  pub config : ConfigSnapshot
  pub is_config : settings.config ≡ some config
  pub same_config : entry.metadata.config_hash ≡ config.config_hash
  pub same_profile : entry.metadata.verification_profile_hash ≡ config.verification_hash
  pub authority : VerificationAuthority
  pub is_authority : settings.authority ≡ some authority
  pub trusted : Trusted settings config authority entry

module _ (settings : RuntimeSettings) where
  pub answering-some {ℓ} :
      {A : Type ℓ} (answer : A) (p : CacheRuntime × Bool) {a : A}
      → (answering settings answer p).1 ≡ some a
      → answer ≡ a
  answering-some answer (c, true) h = cc
  answering-some answer (c, false) h = cc

  -- An event that is no write does not make an entry audited.
  chosen_write :
      (b : Bool) (event : CacheEvent) (o : Option CacheEvent) (entry : CacheEntry)
      → is_write event.action ≡ false
      → matches_write (if b then some event else o) entry ≡ true
      → matches_write o entry ≡ true
  unfolding is_write_of
  chosen_write true event o entry n h = ground arith
  chosen_write false event o entry n h = h

  abbrev pub looked_up : EventCall → Text → CacheNamespace → CacheEvent
  looked_up call key namespace =
      action_event settings call CacheAction.lookup key namespace none none

  pub lookup-audited :
      (call : EventCall) (key : Text) (namespace : CacheNamespace) (c : CacheRuntime)
      (entry : CacheEntry) (file : List LedgerEvent)
      → has_matching_write_event
          (record c {
            ledger = file;
            cache_events = insert call.event_id (looked_up call key namespace) c.cache_events;
          })
          entry
        ≡ true
      → has_matching_write_event c entry ≡ true
  unfolding has_matching_write_event
  lookup-audited call key namespace c entry file h =
      let id = entry.provenance.write_event_id in
      chosen_write (call.event_id == id) (looked_up call key namespace) (lookup id c.cache_events)
        entry refl
        (ap (λ o. matches_write o entry)
            (sym (lookup-insert call.event_id id (looked_up call key namespace) c.cache_events))
          ∙ h)
