-- ===== src/Money/Bounds.antt =====
-- money.ts: the arithmetic of charges and sums.
use ikimetr.Prelude.{ℕ, ◌+◌, ◌*◌, ◌≤◌, ◌<◌, ◌≡◌, ◌↔◌, true, arith, ok, text_Eq, text_eq_iff}
use ikimetr.Money.{
  Money, max_safe_integer, is_currency, add_money, round_up, calculate_micros_for_tokens,
}

-- The rounded product is the least number of micro units that covers the product of tokens and
-- rate.
pub round_up_ceiling : (p : ℕ) → (p ≤ round_up p * 1000000) × (round_up p * 1000000 < p + 1000000)
unfolding round_up
round_up_ceiling p = ground arith

-- A charge is computed exactly when the tokens, the rate and the rounded product are safe
-- integers, and is then the rounded product.
pub calculate_micros-eq :
    (t r m : ℕ)
    → (calculate_micros_for_tokens t r ≡ ok m) ↔ (
        (t ≤ max_safe_integer)
        × (r ≤ max_safe_integer)
        × (round_up (t * r) ≤ max_safe_integer)
        × (m ≡ round_up (t * r)))
unfolding calculate_micros_for_tokens
calculate_micros-eq t r m = (λ h. ground arith, λ h. ground arith)

-- A sum of money that is returned is exact, is a safe integer and has the currency of both
-- operands.
pub add_money_exact :
    (a b m : Money)
    → add_money a b ≡ ok m
    → (m.currency ≡ a.currency)
      × (a.currency ≡ b.currency)
      × (m.amount_micros ≡ a.amount_micros + b.amount_micros)
      × (m.amount_micros ≤ max_safe_integer)
unfolding add_money
add_money_exact a b m h = ground (arith, text_eq_iff a.currency b.currency)

-- Two amounts of one valid currency whose sum is a safe integer can be added.
add_money_total :
    (a b : Money)
    → is_currency a.currency ≡ true
    → a.currency ≡ b.currency
    → a.amount_micros + b.amount_micros ≤ max_safe_integer
    → add_money a b
      ≡ ok (record { currency = a.currency; amount_micros = a.amount_micros + b.amount_micros })
unfolding add_money
add_money_total a b c e s = ground (arith, text_eq_iff a.currency b.currency)
