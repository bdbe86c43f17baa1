-- ===== src/Quantity.antt =====
-- Hex quantities: `toQuantity` of src/wallet.ts and src/index.ts, and `parseQuantity` and
-- `parseFlexibleBigint` of src/index.ts.
pub mod RoundTrip
mod Tests
use lyth_mcp.Prelude.{
  ℕ, zero, suc, ◌+◌, ◌-◌, ◌*◌, ◌/◌, ◌%◌, Bool, true, ◌&&◌, ◌||◌, Option, none, some, [], ◌∷◌, ltb,
  leb, ◌==◌, if◌then◌else◌,
}
use lyth_mcp.Amount.{Text, is_digit, is_empty, trim, value_from}

hex_digit : ℕ → ℕ
hex_digit d = if ltb d 10 then b'0' + d else 87 + d

-- `n.toString(16)`: the digits in front of `out`, with fuel.
emit_hex : ℕ → ℕ → Text → Text
unfolding hex_digit
emit_hex zero n out = out
emit_hex (suc f) n out =
    let rest = emit_hex f (n / 16) (hex_digit (n % 16) ∷ out) in if n == 0 then out else rest

unfoldable pub to_hex : ℕ → Text
unfolding emit_hex
to_hex n = if n == 0 then b'0' ∷ [] else emit_hex n n []

unfoldable pub to_quantity : ℕ → Text
unfolding to_hex
to_quantity n = b'0' ∷ b'x' ∷ to_hex n

-- The class `[0-9a-fA-F]`.
unfoldable pub is_hex_digit : ℕ → Bool
is_hex_digit c = is_digit c || leb b'a' c && leb c b'f' || leb b'A' c && leb c b'F'

hex_value : ℕ → ℕ
hex_value c = if is_digit c then c - b'0' else if leb b'a' c then c - 87 else c - 55

all_hex : Text → Bool
all_hex [] = true
all_hex (c ∷ s) = is_hex_digit c && all_hex s

hex_value_from : ℕ → Text → ℕ
hex_value_from n [] = n
hex_value_from n (c ∷ s) = hex_value_from (n * 16 + hex_value c) s

-- What stands behind `0x` if the text matches `^0x[0-9a-fA-F]+$`.
hex_body : Text → Option Text
hex_body (z ∷ x ∷ c ∷ s) = if z == b'0' && x == b'x' && all_hex (c ∷ s) then some (c ∷ s) else none
hex_body _ = none

-- `none` where the source throws.
unfoldable pub parse_quantity : Text → Option ℕ
unfolding hex_body all_hex is_hex_digit hex_value_from hex_value
parse_quantity text = elim (hex_body text) [ none ↦ none | some s ↦ some (hex_value_from 0 s) ]

all_digits : Text → Bool
all_digits [] = true
all_digits (c ∷ s) = is_digit c && all_digits s

parse_decimal_integer : Text → Option ℕ
parse_decimal_integer text =
    if is_empty text then none else if all_digits text then some (value_from 0 text) else none

or_integer : Option ℕ → Text → Option ℕ
or_integer (some n) text = some n
or_integer none text = parse_decimal_integer text

unfoldable pub parse_flexible_bigint : Text → Option ℕ
unfolding parse_quantity or_integer parse_decimal_integer all_digits trim value_from
parse_flexible_bigint text = or_integer (parse_quantity (trim text)) (trim text)
