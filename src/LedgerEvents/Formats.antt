-- ===== src/LedgerEvents/Formats.antt =====
-- The string and number formats of the event schemas: identifier, reason code, SHA-256 in
-- hexadecimal, currency code, safe integer.
use ikimetr.Prelude.{
  ℕ, Bool, false, ◌&&◌, ◌||◌, [], ◌∷◌, Text, is_digit, is_upper, is_lower, leb, nat_eq, length, all,
}
use ikimetr.Money.{max_safe_integer, is_currency}

-- [A-Za-z0-9._:+/-]
abbrev pub is_identifier_char : ℕ → Bool
is_identifier_char c =
    is_upper c
    || is_lower c
    || is_digit c
    || nat_eq c b'.'
    || nat_eq c b'_'
    || nat_eq c b':'
    || nat_eq c b'+'
    || nat_eq c b'/'
    || nat_eq c b'-'

-- 1 to 128 code units, /^[A-Za-z0-9][A-Za-z0-9._:+/-]*$/u
unfoldable pub is_identifier : Text → Bool
is_identifier [] = false
is_identifier (c ∷ s) =
    (is_upper c || is_lower c || is_digit c) && all is_identifier_char s && leb (length (c ∷ s)) 128

-- 1 to 64 code units, /^[a-z][a-z0-9-]*$/u
unfoldable pub is_reason_code : Text → Bool
is_reason_code [] = false
is_reason_code (c ∷ s) =
    is_lower c && all (λ d. is_lower d || is_digit d || nat_eq d b'-') s && leb (length (c ∷ s)) 64

-- /^[a-f0-9]{64}$/u
unfoldable pub is_sha256_hex : Text → Bool
is_sha256_hex s = all (λ d. (leb b'a' d && leb d b'f') || is_digit d) s && nat_eq (length s) 64

-- `value.endsWith('Z')`
unfoldable pub ends_with_z : Text → Bool
ends_with_z [] = false
ends_with_z (c ∷ []) = nat_eq c b'Z'
ends_with_z (c ∷ d ∷ s) = ends_with_z (d ∷ s)

abbrev pub is_currency_code : Text → Bool
is_currency_code = is_currency

-- `z.number().int().nonnegative().safe()`
abbrev pub is_safe : ℕ → Bool
is_safe n = leb n max_safe_integer
