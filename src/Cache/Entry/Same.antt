-- ===== src/Cache/Entry/Same.antt =====
-- cache-entry.ts and cache-runtime.ts: what the comparisons of entries establish.
use ikimetr.Prelude.{
  ◌≡◌, refl, ap, arith, Bool, true, ◌&&◌, Option, none, some, List, [], ◌∷◌, ◌==◌, Text, text_Eq,
  text_eq_iff,
}
use ikimetr.Prelude.Dict.{Dict}
use ikimetr.Config.{
  route_Eq, route_eq_iff, provider_id_Eq, provider_id_eq_iff, data_class_Eq, data_class_eq_iff,
}
use ikimetr.LedgerEvents.{CacheNamespace, CacheState}
use ikimetr.Routing.State.{sort_record}
use ikimetr.Cache.Entry.{
  InputProtection, CacheMetadata, CacheEntry, CacheCompatibilityContext, same_namespace, same_state,
  same_protection, same_optional, same_texts, same_pairs, same_metadata, is_compatible_with_context,
}

pub same_namespace_lem : (a b : CacheNamespace) → same_namespace a b ≡ true → a ≡ b
same_namespace_lem a b h = ground arith

pub same_namespace_refl : (n : CacheNamespace) → same_namespace n n ≡ true
same_namespace_refl n = ground arith

pub same_state_lem : (a b : CacheState) → same_state a b ≡ true → a ≡ b
same_state_lem a b h = ground arith

same_protection_lem : (a b : InputProtection) → same_protection a b ≡ true → a ≡ b
same_protection_lem a b h = ground arith

pub same_optional_lem : (a b : Option Text) → same_optional a b ≡ true → a ≡ b
same_optional_lem none none h = refl
same_optional_lem none (some t) h = cc
same_optional_lem (some s) none h = cc
same_optional_lem (some s) (some t) h = ap some ((text_eq_iff s t).0 h)

both : (a b : Bool) → (a && b) ≡ true → (a ≡ true) × (b ≡ true)
both a b h = (ground arith, ground arith)

same_texts_lem : (a b : List Text) → same_texts a b ≡ true → a ≡ b
same_texts_lem [] [] h = refl
same_texts_lem [] (t ∷ r) h = cc
same_texts_lem (s ∷ l) [] h = cc
same_texts_lem (s ∷ l) (t ∷ r) h =
    let (e, f) = both (s == t) (same_texts l r) h in
    let same = (text_eq_iff s t).0 e in let rest = same_texts_lem l r f in cc

same_pairs_lem : (a b : Dict Text Text) → same_pairs a b ≡ true → a ≡ b
same_pairs_lem [] [] h = refl
same_pairs_lem [] (t ∷ r) h = cc
same_pairs_lem (s ∷ l) [] h = cc
same_pairs_lem ((k, v) ∷ l) ((j, w) ∷ r) h =
    let (a, f) = both (k == j && v == w) (same_pairs l r) h in
    let (e, g) = both (k == j) (v == w) a in
    let same = (text_eq_iff k j).0 e in
    let value = (text_eq_iff v w).0 g in let rest = same_pairs_lem l r f in cc

-- Metadata that agrees in every field; versions as records, whose order is of no account.
pub record SameMetadata (a b : CacheMetadata) : Type 0 where
  pub task_id : a.task_id ≡ b.task_id
  pub task_type : a.task_type ≡ b.task_type
  pub route : a.route ≡ b.route
  pub provider : a.provider ≡ b.provider
  pub model_revision : a.model_revision ≡ b.model_revision
  pub prompt_version : a.prompt_version ≡ b.prompt_version
  pub policy_version : a.policy_version ≡ b.policy_version
  pub config_hash : a.config_hash ≡ b.config_hash
  pub verification_profile_hash : a.verification_profile_hash ≡ b.verification_profile_hash
  pub task_spec_hash : a.task_spec_hash ≡ b.task_spec_hash
  pub input_hashes : a.input_hashes ≡ b.input_hashes
  pub diff_hash : a.diff_hash ≡ b.diff_hash
  pub error_fingerprint : a.error_fingerprint ≡ b.error_fingerprint
  pub data_class : a.data_class ≡ b.data_class
  pub input_protection : a.input_protection ≡ b.input_protection
  pub data_policy_hash : a.data_policy_hash ≡ b.data_policy_hash
  pub tool_versions : sort_record a.tool_versions ≡ sort_record b.tool_versions
  pub dependency_versions : sort_record a.dependency_versions ≡ sort_record b.dependency_versions

pub same_metadata_lem : (a b : CacheMetadata) → same_metadata a b ≡ true → SameMetadata a b
unfolding same_metadata
same_metadata_lem a b h =
    let (h1, e1) = both _ _ h in
    let (h2, e2) = both _ _ h1 in
    let (h3, e3) = both _ _ h2 in
    let (h4, e4) = both _ _ h3 in
    let (h5, e5) = both _ _ h4 in
    let (h6, e6) = both _ _ h5 in
    let (h7, e7) = both _ _ h6 in
    let (h8, e8) = both _ _ h7 in
    let (h9, e9) = both _ _ h8 in
    let (h10, e10) = both _ _ h9 in
    let (h11, e11) = both _ _ h10 in
    let (h12, e12) = both _ _ h11 in
    let (h13, e13) = both _ _ h12 in
    let (h14, e14) = both _ _ h13 in
    let (h15, e15) = both _ _ h14 in
    let (h16, e16) = both _ _ h15 in
    let (e18, e17) = both _ _ h16 in
    record {
      task_id = (text_eq_iff _ _).0 e18;
      task_type = (text_eq_iff _ _).0 e17;
      route = (route_eq_iff a.route b.route).0 e16;
      provider = (provider_id_eq_iff a.provider b.provider).0 e15;
      model_revision = (text_eq_iff _ _).0 e14;
      prompt_version = (text_eq_iff _ _).0 e13;
      policy_version = (text_eq_iff _ _).0 e12;
      config_hash = (text_eq_iff _ _).0 e11;
      verification_profile_hash = (text_eq_iff _ _).0 e10;
      task_spec_hash = (text_eq_iff _ _).0 e9;
      input_hashes = same_texts_lem _ _ e8;
      diff_hash = same_optional_lem _ _ e7;
      error_fingerprint = same_optional_lem _ _ e6;
      data_class = (data_class_eq_iff a.data_class b.data_class).0 e5;
      input_protection = same_protection_lem _ _ e4;
      data_policy_hash = (text_eq_iff _ _).0 e3;
      tool_versions = same_pairs_lem _ _ e2;
      dependency_versions = same_pairs_lem _ _ e1;
    }

pub is_compatible_with_context_lem :
    (entry : CacheEntry) (context : CacheCompatibilityContext)
    → is_compatible_with_context entry context ≡ true
    → (entry.cache_key ≡ context.cache_key) × SameMetadata entry.metadata context.metadata
unfolding is_compatible_with_context
is_compatible_with_context_lem entry context h =
    let (e, f) = both _ _ h in ((text_eq_iff _ _).0 e, same_metadata_lem _ _ f)
