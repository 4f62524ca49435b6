-- ===== src/Cache/Lineage/Walk.antt =====
-- cache-runtime.ts: the walk to the head of a lineage ends.
use mathlib.Core.Path.{subst}
use ikimetr.Prelude.{
  ℕ, zero, suc, ◌+◌, ◌≤◌, ◌≡◌, ◌≢◌, refl, sym, ap, ◌∙◌, arith, inl, inr, Bool, true, false, ◌&&◌,
  ◌||◌, not, Option, none, some, List, [], ◌∷◌, all, keep, length, nat_eq, if◌then◌else◌, ◌==◌,
  Text, text_Eq, text_eq_iff, Bool-cases, Option-cases, ◌⊎◌,
}
use ikimetr.LedgerEvents.{CacheNamespace, CacheState}
use ikimetr.Cache.Evidence.{is_unique, includes}
use ikimetr.Cache.Entry.{CacheEntry, same_state, same_optional, allowed_transition}
use ikimetr.Cache.Lineage.{
  is_valid_child, entry_hashes, find_entry, find_parent, parent_of, is_root, fits_parent,
  children_of, root_state, Head, walk, only, resolve_unique_head,
}

-- How far a state is from the first one.
abbrev pub stage : CacheState → ℕ
stage CacheState.pending = 0
stage CacheState.unverified = 1
stage CacheState.verified = 2
stage CacheState.negative = 2
stage CacheState.quarantined = 3

-- An allowed transition is to a later state.
pub allowed_transition-later :
    (from to : CacheState) → allowed_transition (some from) to ≡ true → suc (stage from) ≤ stage to
unfolding allowed_transition
allowed_transition-later CacheState.pending CacheState.pending h = cc
allowed_transition-later CacheState.pending CacheState.unverified h = omega arith
allowed_transition-later CacheState.pending CacheState.verified h = cc
allowed_transition-later CacheState.pending CacheState.negative h = omega arith
allowed_transition-later CacheState.pending CacheState.quarantined h = omega arith
allowed_transition-later CacheState.unverified CacheState.pending h = cc
allowed_transition-later CacheState.unverified CacheState.unverified h = cc
allowed_transition-later CacheState.unverified CacheState.verified h = omega arith
allowed_transition-later CacheState.unverified CacheState.negative h = omega arith
allowed_transition-later CacheState.unverified CacheState.quarantined h = omega arith
allowed_transition-later CacheState.verified CacheState.pending h = cc
allowed_transition-later CacheState.verified CacheState.unverified h = cc
allowed_transition-later CacheState.verified CacheState.verified h = cc
allowed_transition-later CacheState.verified CacheState.negative h = cc
allowed_transition-later CacheState.verified CacheState.quarantined h = omega arith
allowed_transition-later CacheState.negative CacheState.pending h = cc
allowed_transition-later CacheState.negative CacheState.unverified h = cc
allowed_transition-later CacheState.negative CacheState.verified h = cc
allowed_transition-later CacheState.negative CacheState.negative h = cc
allowed_transition-later CacheState.negative CacheState.quarantined h = omega arith
allowed_transition-later CacheState.quarantined to h = cc

abbrev In : CacheEntry → List CacheEntry → Type 0
In x [] = ⊥
In x (y ∷ l) = (y ≡ x) ⊎ In x l

In-keep :
    (p : CacheEntry → Bool) (l : List CacheEntry) (x : CacheEntry)
    → In x (keep p l)
    → In x l × (p x ≡ true)
In-keep p [] x h = absurd h
In-keep p (y ∷ l) x h = elim (Bool-cases (p y)) [
  | inl e ↦ elim (subst (In x) (kept e) h) [
    | inl same ↦ (inl same, ap p (sym same) ∙ e)
    | inr later ↦ let (i, q) = In-keep p l x later in (inr i, q)
  ]
  | inr e ↦ let (i, q) = In-keep p l x (subst (In x) (dropped e) h) in (inr i, q)
]
  where
    kept : p y ≡ true → keep p (y ∷ l) ≡ y ∷ keep p l
    kept e = rw (e) refl

    dropped : p y ≡ false → keep p (y ∷ l) ≡ keep p l
    dropped e = rw (e) refl

includes-In :
    (l : List CacheEntry) (x : CacheEntry) → In x l → includes x.entry_hash (entry_hashes l) ≡ true
includes-In [] x h = absurd h
includes-In (y ∷ l) x (inl same) =
    let here : (y.entry_hash == x.entry_hash) ≡ true =
      (text_eq_iff y.entry_hash x.entry_hash).1 (ap (λ (e : CacheEntry). e.entry_hash) same) in
    ground arith
includes-In (y ∷ l) x (inr later) = ground (arith, includes-In l x later)

apart : (a b : Bool) → a ≡ true → (not a && b) ≢ true
apart true b h g = cc
apart false b h g = cc

later_unique : (a b : Bool) → (not a && b) ≡ true → b ≡ true
later_unique a b h = ground arith

-- Where the hashes are unique, an entry is found by its hash.
find_entry-In :
    (l : List CacheEntry) (x : CacheEntry)
    → is_unique (entry_hashes l) ≡ true
    → In x l
    → find_entry x.entry_hash l ≡ some x
unfolding find_entry
find_entry-In [] x u h = absurd h
find_entry-In (y ∷ l) x u (inl same) =
    rw ((text_eq_iff y.entry_hash x.entry_hash).1 (ap (λ (e : CacheEntry). e.entry_hash) same))
      (ap some same)
find_entry-In (y ∷ l) x u (inr later) = elim (Bool-cases (y.entry_hash == x.entry_hash)) [
  | inl e ↦
      let same = (text_eq_iff y.entry_hash x.entry_hash).0 e in
      let again : includes y.entry_hash (entry_hashes l) ≡ true =
        subst (λ t. includes t (entry_hashes l) ≡ true) (sym same) (includes-In l x later) in
      absurd (apart _ _ again u)
  | inr e ↦ rw (e) (find_entry-In l x (later_unique _ _ u) later)
]

all-In :
    (p : CacheEntry → Bool) (l : List CacheEntry) (x : CacheEntry)
    → all p l ≡ true
    → In x l
    → p x ≡ true
all-In p [] x h i = absurd i
all-In p (y ∷ l) x h (inl same) = subst (λ z. p z ≡ true) same (ground arith)
all-In p (y ∷ l) x h (inr later) = all-In p l x (ground arith) later

same_optional-eq : (o : Option Text) (t : Text) → same_optional o (some t) ≡ true → o ≡ some t
same_optional-eq none t h = cc
same_optional-eq (some s) t h = ap some ((text_eq_iff s t).0 h)

too_far : (s : CacheState) → 4 ≤ stage s → ⊥
too_far CacheState.pending h = omega arith
too_far CacheState.unverified h = omega arith
too_far CacheState.verified h = omega arith
too_far CacheState.negative h = omega arith
too_far CacheState.quarantined h = omega arith

module _ (revisions : List CacheEntry) (unique : is_unique (entry_hashes revisions) ≡ true)
    (fit : all (λ e. fits_parent (parent_of revisions e) e) revisions ≡ true) where
  -- A child has a later state.
  child-later :
      (current child : CacheEntry)
      → In current revisions
      → In child (children_of revisions current)
      → In child revisions × (suc (stage current.state) ≤ stage child.state)
  unfolding is_valid_child
  child-later current child i c =
      let (there, own) =
        In-keep (λ (e : CacheEntry). same_optional e.parent_entry_hash (some current.entry_hash))
          revisions child c in
      let parent : child.parent_entry_hash ≡ some current.entry_hash = same_optional-eq _ _ own in
      let found : parent_of revisions child ≡ some current =
        ap (find_parent revisions) parent ∙ find_entry-In revisions current unique i in
      let fits = all-In (λ e. fits_parent (parent_of revisions e) e) revisions child fit there in
      let valid : is_valid_child current child ≡ true =
        ap (λ o. fits_parent o child) (sym found) ∙ fits in
      (there, allowed_transition-later current.state child.state (ground arith))

  walk_step :
      (fuel visited : ℕ) (current : CacheEntry) (l : List CacheEntry)
      → children_of revisions current ≡ l
      → ((child : CacheEntry)
          → In child l
          → walk fuel revisions (visited + 1) child ≢ Head.unfinished)
      → walk (suc fuel) revisions visited current ≢ Head.unfinished
  unfolding walk
  walk_step fuel visited current [] q rest =
      rw (q, walk) (settled (nat_eq visited (length revisions)))
    where
      settled : (b : Bool) → (if b then Head.unique current else Head.ambiguous) ≢ Head.unfinished
      settled true h = cc
      settled false h = cc
  walk_step fuel visited current (child ∷ []) q rest = rw (q, walk) (rest child (inl refl))
  walk_step fuel visited current (child ∷ other ∷ others) q rest = rw (q, walk) (λ h. cc)

  walk-ends :
      (fuel visited : ℕ) (current : CacheEntry)
      → In current revisions
      → 4 ≤ fuel + stage current.state
      → walk fuel revisions visited current ≢ Head.unfinished
  walk-ends zero visited current i e = absurd (too_far current.state (omega arith))
  walk-ends (suc fuel) visited current i e =
      walk_step fuel visited current (children_of revisions current) refl λ child c.
        let (there, later) = child-later current child i c in
        walk-ends fuel (visited + 1) child there (omega arith)

only-In : (l : List CacheEntry) (x : CacheEntry) → only l ≡ some x → In x l
only-In [] x h = cc
only-In (y ∷ []) x h = inl (some-eq h)
  where
    some-eq : {a b : CacheEntry} → ◌≡◌ {A = Option CacheEntry} (some a) (some b) → a ≡ b
    some-eq q = cc
only-In (y ∷ z ∷ l) x h = cc

-- The walk from the root of a lineage to its head ends within four entries, whatever revisions
-- the storage gives.
pub resolve_unique_head-ends :
    (revisions : List CacheEntry) (namespace : CacheNamespace)
    → resolve_unique_head revisions namespace ≢ Head.unfinished
unfolding resolve_unique_head
resolve_unique_head-ends revisions namespace =
    elim (Bool-cases (is_unique (entry_hashes revisions))) [
      | inr e ↦ rw (e) (λ h. cc)
      | inl e ↦ elim (Option-cases (only (keep (is_root revisions) revisions))) [
        | inl none_only ↦ rw (e, none_only) (λ h. cc)
        | inr (root, found) ↦ rw (e, found) (rooted e root found)
      ]
    ]
  where
    rooted :
        is_unique (entry_hashes revisions) ≡ true
        → (root : CacheEntry) → only (keep (is_root revisions) revisions) ≡ some root
        → (if not (all (λ e. fits_parent (parent_of revisions e) e) revisions)
              || not (same_state root.state (root_state namespace))
            then Head.ambiguous
            else walk 4 revisions 1 root)
          ≢ Head.unfinished
    rooted u root found =
        elim (Bool-cases (all (λ e. fits_parent (parent_of revisions e) e) revisions)) [
          | inr e ↦ rw (e) (λ h. cc)
          | inl e ↦
              let (there, _) = In-keep (is_root revisions) revisions root (only-In _ root found) in
              let ends = walk-ends revisions u e 4 1 root there (omega arith) in
              elim (Bool-cases (same_state root.state (root_state namespace))) [
                | inr f ↦ rw (e, f) (λ h. cc)
                | inl f ↦ rw (e, f) ends
              ]
        ]
