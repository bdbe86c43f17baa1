-- ===== src/Quantity/Tests.antt =====
-- Quantities as an endpoint sends them.
use mathlib.Core.Path.{◌≡◌, refl}
use lyth_mcp.Prelude.{some, none}
use lyth_mcp.Amount.{codes}
use lyth_mcp.Quantity.{to_quantity, parse_quantity, parse_flexible_bigint}
use lyth_mcp.Quantity.RoundTrip.{parse_quantity-to_quantity}

prefixed : parse_flexible_bigint (codes " 0xfF ") ≡ some 255
unfolding parse_flexible_bigint
prefixed = refl

without_prefix : parse_quantity (codes "ff") ≡ none
unfolding parse_quantity
without_prefix = refl

parse_quantity-to_quantity_example : parse_quantity (to_quantity 21000) ≡ some 21000
parse_quantity-to_quantity_example = parse_quantity-to_quantity 21000
