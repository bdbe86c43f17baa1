-- ===== src/Amount/Denotes.antt =====
-- What the texts that `decimalToUnits` accepts denote, as a relation.
use mathlib.Core.Path.{ap₂}
use mathlib.Core.List.{append-nil}
use lyth_mcp.Prelude.{
  ℕ, ◌+◌, ◌-◌, ◌*◌, ◌^◌, ◌≤◌, ◌≡◌, ◌≢◌, ◌↔◌, inl, inr, refl, sym, ap, ◌∙◌, ◌≡⟨◌⟩◌, ◌∎,
  length-append, true, false, some, none, [], ◌∷◌, ◌++◌, arith, length, All, ok, err, Bool-cases,
  or_else, if◌then◌else◌, ltb, replicate, length-replicate,
}
use lyth_mcp.Amount.{
  Text, too_many_places, trim, is_digit, match_frac, match_dot, match_whole, is_decimal, first_part,
  second_part, value, parse_trimmed, decimal_to_units, pad_end, value_from,
}
use lyth_mcp.Amount.Digits.{IsDigit, value_from-append, value_from_lem, value-replicate}

-- `Denotes decimals text units`: digits, or digits, a dot and at most `decimals` digits, with the
-- number of smallest units that they stand for.
pub data Denotes (decimals : ℕ) : Text → ℕ → Type 0 where
  integer :
      (whole text : Text) (units : ℕ)
      → whole ≢ []
      → All IsDigit whole
      → text ≡ whole
      → units ≡ value whole * 10 ^ decimals
      → Denotes decimals text units
  fraction :
      (whole frac text : Text) (units : ℕ)
      → whole ≢ []
      → All IsDigit whole
      → frac ≢ []
      → All IsDigit frac
      → length frac ≤ decimals
      → text ≡ whole ++ b'.' ∷ frac
      → units ≡ value whole * 10 ^ decimals + value frac * 10 ^ (decimals - length frac)
      → Denotes decimals text units

match_frac_iff : (s : Text) → (match_frac s ≡ true) ↔ All IsDigit s
unfolding match_frac
match_frac_iff [] = (λ _. tt, λ _. refl)
match_frac_iff (c ∷ s) = ground (arith, match_frac_iff s)

-- Digits alone.
module _ where
  pub match_whole-digits : (s : Text) → All IsDigit s → match_whole s ≡ true
  unfolding match_whole
  match_whole-digits [] h = refl
  match_whole-digits (c ∷ s) h = ground (arith, match_whole-digits s)

  pub first_part-digits : (s : Text) → All IsDigit s → first_part s ≡ s
  unfolding first_part
  first_part-digits [] h = refl
  first_part-digits (c ∷ s) h = ground (arith, first_part-digits s)

  pub second_part-digits : (s : Text) → All IsDigit s → second_part s ≡ none
  unfolding second_part
  second_part-digits [] h = refl
  second_part-digits (c ∷ s) h = ground (arith, second_part-digits s)

tail-dot : (f : Text) → All IsDigit f → f ≢ [] → match_whole (b'.' ∷ f) ≡ true
unfolding match_whole match_dot match_frac
tail-dot [] h k = absurd (k refl)
tail-dot (c ∷ f) h k = ground (arith, match_frac_iff f)

-- Digits, a dot and digits.
module _ (f : Text) (fs : All IsDigit f) where
  pub match_whole-dot : (w : Text) → All IsDigit w → f ≢ [] → match_whole (w ++ b'.' ∷ f) ≡ true
  unfolding match_whole match_dot match_frac
  match_whole-dot [] h k = tail-dot f fs k
  match_whole-dot (c ∷ w) h k = ground (arith, match_whole-dot w)

  pub first_part-dot : (w : Text) → All IsDigit w → first_part (w ++ b'.' ∷ f) ≡ w
  unfolding first_part
  first_part-dot [] h = refl
  first_part-dot (c ∷ w) h = ground (arith, first_part-dot w)

  pub second_part-dot : (w : Text) → All IsDigit w → second_part (w ++ b'.' ∷ f) ≡ some f
  unfolding second_part
  second_part-dot [] h = ground (arith, first_part-digits f fs)
  second_part-dot (c ∷ w) h = ground (arith, second_part-dot w)

pub length-pad_end : (f : Text) (d : ℕ) → length f ≤ d → length (pad_end f d) ≡ d
length-pad_end f d h = omega (
  arith,
  length-append f (replicate (d - length f) b'0'),
  length-replicate {A = ℕ} (d - length f) b'0',
)

value-pad_end : (f : Text) (d : ℕ) → value (pad_end f d) ≡ value f * 10 ^ (d - length f)
value-pad_end f d =
    let k = d - length f in
    let zeros : Text = replicate k b'0' in
    value (f ++ zeros)
    ≡⟨ value_from-append 0 f zeros ∙ value_from_lem (value f) zeros ⟩
      value f * 10 ^ length zeros + value zeros
    ≡⟨ ap₂ (λ (n v : ℕ). value f * 10 ^ n + v) (length-replicate k b'0') (value-replicate k) ⟩
      value f * 10 ^ k + 0
    ≡⟨ omega arith ⟩ value f * 10 ^ k ∎

-- The value of the digits that are handed to `BigInt`.
pub value-pad :
    (w f : Text) (d : ℕ)
    → length f ≤ d
    → value (w ++ pad_end f d) ≡ value w * 10 ^ d + value f * 10 ^ (d - length f)
value-pad w f d h =
    let zeros : Text = replicate (d - length f) b'0' in
    value (w ++ (f ++ zeros))
    ≡⟨ value_from-append 0 w (f ++ zeros) ⟩ value_from (value w) (f ++ zeros)
    ≡⟨ value_from_lem (value w) (f ++ zeros) ⟩
      value w * 10 ^ length (f ++ zeros) + value (f ++ zeros)
    ≡⟨ ap (λ (n : ℕ). value w * 10 ^ n + value (f ++ zeros)) (length-pad_end f d h) ⟩
      value w * 10 ^ d + value (f ++ zeros)
    ≡⟨ ap (λ (n : ℕ). value w * 10 ^ d + n) (value-pad_end f d) ⟩
      value w * 10 ^ d + value f * 10 ^ (d - length f) ∎

-- A text that the expression matches is digits, or digits, a dot and digits.
data Shape (s : Text) : Type 0 where
  digits : All IsDigit s → Shape s
  dotted : (w f : Text) → All IsDigit w → f ≢ [] → All IsDigit f → s ≡ w ++ b'.' ∷ f → Shape s

Shape-cons : (c : ℕ) (s : Text) → IsDigit c → Shape s → Shape (c ∷ s)
Shape-cons c s h (digits k) = digits (h, k)
Shape-cons c s h (dotted w f ws k fs e) = dotted (c ∷ w) f (h, ws) k fs (ap (λ t. c ∷ t) e)

-- What stands after the dot.
match_dot-frac : (s : Text) → match_dot s ≡ true → (s ≢ []) × All IsDigit s
unfolding match_dot match_frac
match_dot-frac [] h = cc
match_dot-frac (c ∷ s) h = ground (arith, match_frac_iff s)

split_dot :
    (c : ℕ) (s : Text)
    → is_digit c ≡ false
    → match_whole (c ∷ s) ≡ true
    → (c ≡ b'.') × (match_dot s ≡ true)
unfolding match_whole
split_dot c s dot h = ground arith

match_whole-Shape : (s : Text) → match_whole s ≡ true → Shape s
unfolding match_whole match_dot match_frac
match_whole-Shape [] h = digits tt
match_whole-Shape (c ∷ s) h = elim (Bool-cases (is_digit c)) [
  | inl here ↦ Shape-cons c s (ground arith) (match_whole-Shape s (rw here at h))
  | inr dot ↦
      let (is_dot, rest) = split_dot c s dot h in
      let (some_frac, fs) = match_dot-frac s rest in
      dotted [] s tt some_frac fs (ap (λ d. d ∷ s) is_dot)
]

-- The parse of a text whose tests and parts are known.
module _ (t : Text) (d : ℕ) {whole frac : Text} where
  parse_of :
      is_decimal t ≡ true
      → first_part t ≡ whole
      → or_else (second_part t) [] ≡ frac
      → parse_trimmed t d ≡ (
          if ltb d (length frac) then err too_many_places else ok (value (whole ++ pad_end frac d)))
  unfolding parse_trimmed
  parse_of p q r = rw (p, q, r)

-- The first place of the expression wants a digit.
is_decimal-starts :
    (w t : Text) → w ≢ [] → All IsDigit w → match_whole (w ++ t) ≡ true → is_decimal (w ++ t) ≡ true
unfolding is_decimal
is_decimal-starts [] t k h m = absurd (k refl)
is_decimal-starts (c ∷ w) t k h m = ground arith

ltb-zero : (d : ℕ) → ltb d 0 ≡ false
ltb-zero d = ground arith

pub value-whole : (w : Text) (d : ℕ) → value (w ++ pad_end [] d) ≡ value w * 10 ^ d
unfolding value_from
value-whole w d = value-pad w [] d (omega arith) ∙ omega arith

module _ (w : Text) (d : ℕ) (k : w ≢ []) (h : All IsDigit w) where
  parse-digits : parse_trimmed w d ≡ ok (value w * 10 ^ d)
  parse-digits =
      parse_trimmed w d
      ≡⟨ parse_of w d
          (rw (append-nil w) at
            (is_decimal-starts w [] k h (rw (append-nil w) (match_whole-digits w h))))
          (first_part-digits w h) (ap (λ o. or_else o []) (second_part-digits w h)) ⟩
        (if ltb d 0 then err too_many_places else ok (value (w ++ pad_end [] d)))
      ≡⟨ cc (ltb-zero d, value-whole w d) ⟩ ok (value w * 10 ^ d) ∎

  parse-dotted :
      (f : Text)
      → f ≢ []
      → All IsDigit f
      → parse_trimmed (w ++ b'.' ∷ f) d
        ≡ (if ltb d (length f) then err too_many_places else ok (value (w ++ pad_end f d)))
  parse-dotted f l fs =
      parse_of (w ++ b'.' ∷ f) d (is_decimal-starts w (b'.' ∷ f) k h (match_whole-dot f fs w h l))
        (first_part-dot f fs w h) (ap (λ o. or_else o []) (second_part-dot f fs w h))

-- Every text that denotes a number is read as that number.
parse_complete : (d : ℕ) {t : Text} {v : ℕ} → Denotes d t v → parse_trimmed t d ≡ ok v
parse_complete d (integer w t v k h e u) = rw (e, u) (parse-digits w d k h)
parse_complete d (fraction w f t v k h l fs fits e u) =
    rw (e, u) (parse-dotted w d k h f l fs ∙ ground (arith, value-pad w f d))

-- The parse of a dotted text succeeds only with few enough decimal places.
fits-of :
    (w f : Text) (d v : ℕ)
    → (if ltb d (length f) then err too_many_places else ok (value (w ++ pad_end f d))) ≡ ok v
    → (length f ≤ d) × (v ≡ value w * 10 ^ d + value f * 10 ^ (d - length f))
fits-of w f d v e =
    let fits : length f ≤ d = ground arith in (fits, ground (arith, value-pad w f d fits))

parse_sound-Shape :
    (c : ℕ) (s : Text) (d v : ℕ)
    → IsDigit c
    → Shape s
    → parse_trimmed (c ∷ s) d ≡ ok v
    → Denotes d (c ∷ s) v
parse_sound-Shape c s d v h (digits k) e =
    let all_digits : All IsDigit (c ∷ s) = (h, k) in
    integer (c ∷ s) (c ∷ s) v (cc) all_digits refl (cc (e, parse-digits (c ∷ s) d (cc) all_digits))
parse_sound-Shape c s d v h (dotted w f ws l fs t) e =
    let whole : All IsDigit (c ∷ w) = (h, ws) in
    let (fits, exact) =
      fits-of (c ∷ w) f d v (sym (parse-dotted (c ∷ w) d (cc) whole f l fs) ∙ rw t at e) in
    fraction (c ∷ w) f (c ∷ s) v (cc) whole l fs fits (ap (λ r. c ∷ r) t) exact

start-IsDigit :
    (c : ℕ) (s : Text) (d v : ℕ)
    → parse_trimmed (c ∷ s) d ≡ ok v
    → IsDigit c × (match_whole s ≡ true)
unfolding parse_trimmed
start-IsDigit c s d v e = ground arith

parse-nil : (d v : ℕ) → parse_trimmed [] d ≢ ok v
unfolding parse_trimmed
parse-nil d v e = cc

parse_sound : (d : ℕ) (t : Text) (v : ℕ) → parse_trimmed t d ≡ ok v → Denotes d t v
parse_sound d [] v e = absurd (parse-nil d v e)
parse_sound d (c ∷ s) v e =
    let (h, m) = start-IsDigit c s d v e in parse_sound-Shape c s d v h (match_whole-Shape s m) e

-- `decimalToUnits` returns a number exactly when the trimmed text denotes it.
pub decimal_to_units_iff :
    (s : Text) (d v : ℕ) → (decimal_to_units s d ≡ ok v) ↔ Denotes d (trim s) v
unfolding decimal_to_units
decimal_to_units_iff s d v = (parse_sound d (trim s) v, parse_complete d)
