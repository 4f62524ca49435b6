-- ===== src/Money.antt =====
-- Money in whole micros, and token charges: packages/ai-cost-system/src/money.ts. A `number` that
-- reaches this code is a non-negative integer, so `value < 0` has no case here; a `bigint` is a ℕ.
pub mod Bounds
use ikimetr.Prelude.{
  ℕ, ◌+◌, ◌-◌, ◌*◌, ◌/◌, Bool, true, false, ◌&&◌, not, Option, List, [], ◌∷◌, leb, nat_eq, ltb,
  if◌then◌else◌, Eq, ◌==◌, text_Eq, Text, is_upper, Result, ok, err, ◌>>=◌, ◌>>◌, throw_if,
}

-- `Number.MAX_SAFE_INTEGER`
abbrev pub max_safe_integer : ℕ
max_safe_integer = 9007199254740991

abbrev pub tokens_per_million : ℕ
tokens_per_million = 1000000

pub data MoneyError : Type 0 where
  invalid_currency unsafe_integer currency_mismatch out_of_range : MoneyError

pub record Money : Type 0 where
  pub currency : Text
  pub amount_micros : ℕ

-- `currencyPattern`, /^[A-Z]{3}$/u
abbrev pub is_currency : Text → Bool
is_currency (a ∷ b ∷ c ∷ []) = is_upper a && (is_upper b && is_upper c)
is_currency _ = false

unfoldable pub assert_non_negative_safe_integer : ℕ → Result MoneyError (Unit {0})
assert_non_negative_safe_integer value =
    throw_if (ltb max_safe_integer value) MoneyError.unsafe_integer

unfoldable pub safe_bigint_to_number : ℕ → Result MoneyError ℕ
safe_bigint_to_number value =
    if ltb max_safe_integer value then err MoneyError.out_of_range else ok value

unfoldable pub create_money : Text → ℕ → Result MoneyError Money
unfolding assert_non_negative_safe_integer
create_money currency amount = do
  throw_if (not (is_currency currency)) MoneyError.invalid_currency
  assert_non_negative_safe_integer amount
  ok (record { currency = currency; amount_micros = amount })

unfoldable pub add_money : Money → Money → Result MoneyError Money
unfolding create_money safe_bigint_to_number
add_money left right = do
  throw_if (not (left.currency == right.currency)) MoneyError.currency_mismatch
  amount ← safe_bigint_to_number (left.amount_micros + right.amount_micros)
  create_money left.currency amount

-- BigInt division rounds down, so the sum before it makes this the ceiling.
unfoldable pub round_up : ℕ → ℕ
round_up product =
    if nat_eq product 0 then 0 else (product + tokens_per_million - 1) / tokens_per_million

unfoldable pub calculate_micros_for_tokens : ℕ → ℕ → Result MoneyError ℕ
unfolding assert_non_negative_safe_integer safe_bigint_to_number
calculate_micros_for_tokens tokens rate = do
  assert_non_negative_safe_integer tokens
  assert_non_negative_safe_integer rate
  safe_bigint_to_number (round_up (tokens * rate))
