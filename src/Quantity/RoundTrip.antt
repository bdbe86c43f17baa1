-- ===== src/Quantity/RoundTrip.antt =====
-- `parseQuantity` on what `toQuantity` prints.
use lyth_mcp.Prelude.{
  ℕ, zero, suc, ◌/◌, ◌%◌, ◌≤◌, ◌<◌, ◌≡◌, ◌≢◌, refl, ap, ◌∙◌, true, some, [], ◌∷◌, arith,
}
use lyth_mcp.Amount.{Text}
use lyth_mcp.Quantity.{
  hex_digit, emit_hex, to_hex, to_quantity, is_hex_digit, hex_value, all_hex, hex_value_from,
  hex_body, parse_quantity,
}

hex_digit-reads :
    (d : ℕ) → d < 16 → (is_hex_digit (hex_digit d) ≡ true) × (hex_value (hex_digit d) ≡ d)
unfolding hex_digit is_hex_digit hex_value
hex_digit-reads d h = ground arith

hex_value_from-emit :
    (f n : ℕ) (out : Text) → n ≤ f → hex_value_from 0 (emit_hex f n out) ≡ hex_value_from n out
unfolding emit_hex hex_value_from
hex_value_from-emit zero n out h = ground arith
hex_value_from-emit (suc f) n out h =
    ground
      (arith, hex_value_from-emit f (n / 16) (hex_digit (n % 16) ∷ out), hex_digit-reads (n % 16))

all_hex-emit : (f n : ℕ) (out : Text) → all_hex out ≡ true → all_hex (emit_hex f n out) ≡ true
unfolding emit_hex all_hex
all_hex-emit zero n out h = h
all_hex-emit (suc f) n out h =
    ground (arith, all_hex-emit f (n / 16) (hex_digit (n % 16) ∷ out), hex_digit-reads (n % 16))

emit_hex-ne-nil : (f n : ℕ) (out : Text) → out ≢ [] → emit_hex f n out ≢ []
unfolding emit_hex
emit_hex-ne-nil zero n out h = h
emit_hex-ne-nil (suc f) n out h =
    ground (arith, emit_hex-ne-nil f (n / 16) (hex_digit (n % 16) ∷ out) (cc))

to_hex-ne-nil : (n : ℕ) → to_hex n ≢ []
unfolding to_hex emit_hex
to_hex-ne-nil zero = λ e. cc
to_hex-ne-nil (suc n) =
    ground (arith, emit_hex-ne-nil n (suc n / 16) (hex_digit (suc n % 16) ∷ []) (cc))

to_hex-all : (n : ℕ) → all_hex (to_hex n) ≡ true
unfolding to_hex all_hex is_hex_digit
to_hex-all n = ground (arith, all_hex-emit n n [])

value-to_hex : (n : ℕ) → hex_value_from 0 (to_hex n) ≡ n
unfolding to_hex hex_value_from hex_value
value-to_hex n = ground (arith, hex_value_from-emit n n [])

hex_body-of : (s : Text) → s ≢ [] → all_hex s ≡ true → hex_body (b'0' ∷ b'x' ∷ s) ≡ some s
unfolding hex_body
hex_body-of [] k h = absurd (k refl)
hex_body-of (c ∷ s) k h = rw h

to_quantity-shape : (n : ℕ) → to_quantity n ≡ b'0' ∷ b'x' ∷ to_hex n
unfolding to_quantity
to_quantity-shape n = refl

parse_quantity-of :
    (t s : Text) → hex_body t ≡ some s → parse_quantity t ≡ some (hex_value_from 0 s)
unfolding parse_quantity
parse_quantity-of t s h = rw (h, parse_quantity)

-- Every quantity is read back by `parseQuantity`.
pub parse_quantity-to_quantity : (n : ℕ) → parse_quantity (to_quantity n) ≡ some n
parse_quantity-to_quantity n =
    ap parse_quantity (to_quantity-shape n)
    ∙ parse_quantity-of (b'0' ∷ b'x' ∷ to_hex n) (to_hex n)
        (hex_body-of (to_hex n) (to_hex-ne-nil n) (to_hex-all n))
    ∙ ap some (value-to_hex n)
