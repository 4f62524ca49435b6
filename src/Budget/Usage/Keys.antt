-- ===== src/Budget/Usage/Keys.antt =====
-- budget.ts: the keys of two-part scopes.
use ikimetr.Prelude.{◌≡◌, refl, false, [], ◌∷◌, ◌++◌, arith, Text, ok}
use ikimetr.Budget.Usage.{has_delimiter, budget_scope_key}

split_injective :
    (a b c d : Text)
    → has_delimiter a ≡ false
    → has_delimiter c ≡ false
    → a ++ b'|' ∷ b ≡ c ++ b'|' ∷ d
    → (a ≡ c) × (b ≡ d)
split_injective [] b [] d ha hc h = (refl, cc)
split_injective [] b (x ∷ c) d ha hc h = ground arith
split_injective (x ∷ a) b [] d ha hc h = ground arith
split_injective (x ∷ a) b (y ∷ c) d ha hc h = ground (arith, split_injective a b c d)

-- Two scopes of two parts that get the same key are the same scope.
pub scope_key_injective :
    (a b c d k : Text)
    → budget_scope_key (a ∷ b ∷ []) ≡ ok k
    → budget_scope_key (c ∷ d ∷ []) ≡ ok k
    → (a ≡ c) × (b ≡ d)
unfolding budget_scope_key
scope_key_injective a b c d k h g = ground (arith, split_injective a b c d)
