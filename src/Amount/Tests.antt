-- ===== src/Amount/Tests.antt =====
-- The amounts' properties at texts and numbers of the kind that the tools are called with.
use mathlib.Core.Path.{◌≡◌, refl}
use lyth_mcp.Prelude.{◌*◌, ◌^◌, ◌∷◌, ok, err, arith, ◌↔◌}
use lyth_mcp.Amount.{
  too_many_places, invalid_amount, codes, trim, pos, decimal_to_units, units_to_decimal,
}
use lyth_mcp.Amount.Denotes.{Denotes, decimal_to_units_iff}
use lyth_mcp.Amount.RoundTrip.{decimal_to_units-units_to_decimal}

too_fine : decimal_to_units (codes "0.1234") 3 ≡ err too_many_places
unfolding decimal_to_units
too_fine = refl

no_whole_part : decimal_to_units (codes ".5") 3 ≡ err invalid_amount
unfolding decimal_to_units
no_whole_part = refl

blanks_around : decimal_to_units (codes " 1.5 ") 18 ≡ ok (15 * 10 ^ 17)
unfolding decimal_to_units
blanks_around = refl

-- U+3000 is white space.
wide_blank : decimal_to_units (12288 ∷ codes "5") 0 ≡ ok 5
unfolding decimal_to_units
wide_blank = refl

decimal_to_units_iff_example :
    (decimal_to_units (codes " 1.5 ") 18 ≡ ok (15 * 10 ^ 17))
    ↔ Denotes 18 (trim (codes " 1.5 ")) (15 * 10 ^ 17)
decimal_to_units_iff_example = decimal_to_units_iff (codes " 1.5 ") 18 (15 * 10 ^ 17)

decimal_to_units-units_to_decimal_example :
    decimal_to_units (units_to_decimal (pos (15 * 10 ^ 17)) 18) 18 ≡ ok (15 * 10 ^ 17)
decimal_to_units-units_to_decimal_example =
    decimal_to_units-units_to_decimal (15 * 10 ^ 17) 18 (omega arith)
