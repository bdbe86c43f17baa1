-- ===== src/Amount/Digits.antt =====
-- Lemmas on texts of digits: their value, and the digits of a number.
use native.Mathlib.Nat.{pow-succ'}
use lyth_mcp.Prelude.{
  ℕ, zero, suc, ◌+◌, ◌-◌, ◌*◌, ◌/◌, ◌%◌, ◌^◌, ◌≤◌, ◌≡◌, refl, sym, ap, ◌∙◌, [], ◌∷◌, ◌++◌, arith,
  length, All, replicate,
}
use lyth_mcp.Amount.{Text, value_from, value, emit, to_string}

abbrev pub IsDigit : ℕ → Type 0
IsDigit c = (b'0' ≤ c) × (c ≤ b'9')

pub value_from-append : (n : ℕ) (s t : Text) → value_from n (s ++ t) ≡ value_from (value_from n s) t
unfolding value_from
value_from-append n [] t = refl
value_from-append n (c ∷ s) t = value_from-append (n * 10 + (c - b'0')) s t

-- One more digit `d` before digits of value `v`.
shift :
    (n d p v : ℕ) {x y : ℕ} → x ≡ (n * 10 + d) * p + v → y ≡ (0 + d) * p + v → x ≡ n * (10 * p) + y
shift n d p v h k = omega arith

pub value_from_lem : (n : ℕ) (s : Text) → value_from n s ≡ n * 10 ^ length s + value s
unfolding value_from
value_from_lem n [] = omega arith
value_from_lem n (c ∷ s) =
    let d = c - b'0' in
    shift n d (10 ^ length s) (value s) (value_from_lem (n * 10 + d) s) (value_from_lem (0 + d) s)
    ∙ ap (λ p. n * p + value (c ∷ s)) (sym (pow-succ' 10 (length s)))

pub value-replicate : (k : ℕ) → value (replicate k b'0') ≡ 0
unfolding value_from
value-replicate zero = refl
value-replicate (suc k) = value-replicate k

-- The digits of `n` in front of `out` are read as `n`, then `out`.
value_from-emit : (f n : ℕ) (out : Text) → n ≤ f → value_from 0 (emit f n out) ≡ value_from n out
unfolding emit value_from
value_from-emit zero n out h = ground arith
value_from-emit (suc f) n out h = ground (arith, value_from-emit f (n / 10) ((b'0' + n % 10) ∷ out))

pub value-to_string : (n : ℕ) → value (to_string n) ≡ n
unfolding to_string value_from
value-to_string n = ground (arith, value_from-emit n n [])

emit-All : (f n : ℕ) (out : Text) → All IsDigit out → All IsDigit (emit f n out)
unfolding emit
emit-All zero n out h = h
emit-All (suc f) n out h = ground (arith, emit-All f (n / 10) ((b'0' + n % 10) ∷ out))

pub to_string-All : (n : ℕ) → All IsDigit (to_string n)
unfolding to_string
to_string-All n = ground (arith, emit-All n n [])

pub replicate-All : (k : ℕ) → All IsDigit (replicate k b'0')
replicate-All zero = tt
replicate-All (suc k) = (omega arith, replicate-All k)
