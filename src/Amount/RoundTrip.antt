-- ===== src/Amount/RoundTrip.antt =====
-- `decimalToUnits` on what `unitsToDecimal` prints, src/wallet.ts.
use lyth_mcp.Prelude.{
  ℕ, zero, suc, ◌+◌, ◌-◌, ◌≤◌, ◌<◌, ◌≡◌, ◌≢◌, refl, sym, ap, ◌∙◌, inl, inr, false, [], ◌∷◌, ◌++◌,
  arith, length, length-append, length-replicate, length-drop, take, drop, take-append-drop,
  replicate, All, All-append, ok, ◌==◌, Bool-cases,
}
use lyth_mcp.Amount.{
  Text, is_space, trim_start, trim_end, trim, value_from, value, pad_end, pad_start,
  decimal_to_units, to_string, strip_zeros, join_frac, split_raw, show_units, pos, units_to_decimal,
}
use lyth_mcp.Amount.Digits.{
  IsDigit, value_from-append, value-replicate, value-to_string, to_string-All, replicate-All,
}
use lyth_mcp.Amount.Denotes.{
  Denotes, integer, fraction, value-pad, value-whole, decimal_to_units_iff,
}

-- A digit or the dot (or the slash between them).
abbrev IsMark : ℕ → Type 0
IsMark c = (b'.' ≤ c) × (c ≤ b'9')

is_space-mark : (c : ℕ) → IsMark c → is_space c ≡ false
unfolding is_space
is_space-mark c h = ground arith

trim_end-marks : (s : Text) → All IsMark s → trim_end s ≡ s
unfolding trim_end
trim_end-marks [] h = refl
trim_end-marks (c ∷ s) h = rw (is_space-mark c h.0) (ap (λ t. c ∷ t) (trim_end-marks s h.1))

trim_start-marks : (s : Text) → All IsMark s → trim_start s ≡ s
unfolding trim_start
trim_start-marks [] h = refl
trim_start-marks (c ∷ s) h = rw (is_space-mark c h.0) refl

pub trim-marks : (s : Text) → All IsMark s → trim s ≡ s
unfolding trim
trim-marks s h = rw (trim_start-marks s h) (trim_end-marks s h)

IsMark-digit : (s : Text) → All IsDigit s → All IsMark s
IsMark-digit [] h = tt
IsMark-digit (c ∷ s) h = (omega arith, IsMark-digit s h.1)

join-marks : (w f : Text) → All IsDigit w → All IsDigit f → All IsMark (join_frac w f)
join-marks w [] h k = IsMark-digit w h
join-marks w (c ∷ f) h k =
    All-append IsMark w (b'.' ∷ c ∷ f) (IsMark-digit w h) (omega arith, IsMark-digit (c ∷ f) k)

take-All : (n : ℕ) (s : Text) → All IsDigit s → All IsDigit (take n s)
take-All zero s h = tt
take-All (suc n) [] h = tt
take-All (suc n) (c ∷ s) h = (h.0, take-All n s h.1)

drop-All : (n : ℕ) (s : Text) → All IsDigit s → All IsDigit (drop n s)
drop-All zero s h = h
drop-All (suc n) [] h = tt
drop-All (suc n) (c ∷ s) h = drop-All n s h.1

take-ne-nil : (n : ℕ) (s : Text) → 0 < n → 0 < length s → take n s ≢ []
take-ne-nil zero s h k = elim h [ ]
take-ne-nil (suc n) [] h k = elim k [ ]
take-ne-nil (suc n) (c ∷ s) h k = λ e. cc

strip_zeros-All : (s : Text) → All IsDigit s → All IsDigit (strip_zeros s)
unfolding strip_zeros
strip_zeros-All [] h = tt
strip_zeros-All (c ∷ s) h = ground (arith, strip_zeros-All s)

length-strip_zeros : (s : Text) → length (strip_zeros s) ≤ length s
unfolding strip_zeros
length-strip_zeros [] = omega arith
length-strip_zeros (c ∷ s) = ground (arith, length-strip_zeros s)

replicate-sub : (n k m : ℕ) → n - k ≡ m → replicate {A = ℕ} (n - k) b'0' ≡ replicate m b'0'
replicate-sub n k m e = ap (λ (i : ℕ). replicate {A = ℕ} i b'0') e

pad_end-cons : (c : ℕ) (z : Text) (n : ℕ) → pad_end (c ∷ z) (suc n) ≡ c ∷ pad_end z n
pad_end-cons c z n =
    ap (λ r. c ∷ (z ++ r)) (replicate-sub (suc n) (suc (length z)) (n - length z) (omega arith))

pad_end-zero : (n : ℕ) → pad_end [] (suc n) ≡ b'0' ∷ pad_end [] n
pad_end-zero n = replicate-sub (suc n) 0 (suc (n - 0)) (omega arith)

-- What is stripped is put back by padding.
pad_end-strip_zeros : (s : Text) → pad_end (strip_zeros s) (length s) ≡ s
unfolding strip_zeros
pad_end-strip_zeros [] = refl
pad_end-strip_zeros (c ∷ s) = ground (
  arith,
  pad_end-strip_zeros s,
  pad_end-cons c (strip_zeros s) (length s),
  pad_end-zero (length s),
)

join-Denotes :
    (w f : Text) (d v : ℕ)
    → w ≢ []
    → All IsDigit w
    → All IsDigit f
    → length f ≤ d
    → v ≡ value (w ++ pad_end f d)
    → Denotes d (join_frac w f) v
join-Denotes w [] d v k h l fits e = integer w w v k h refl (e ∙ value-whole w d)
join-Denotes w (c ∷ f) d v k h l fits e =
    fraction w (c ∷ f) (w ++ b'.' ∷ c ∷ f) v k h (cc) l fits refl (e ∙ value-pad w (c ∷ f) d fits)

module _ (raw : Text) (d : ℕ) (digits : All IsDigit raw) where
  split_raw-Denotes : 0 < d → d < length raw → Denotes d (split_raw raw d) (value raw)
  unfolding split_raw
  split_raw-Denotes some_places longer =
      let n = length raw - d in
      let back = drop n raw in
      let back_length : length back ≡ d = omega (arith, length-drop n raw) in
      let places : (d == 0) ≡ false = ground arith in
      rw (places) (
        join-Denotes (take n raw) (strip_zeros back) d (value raw)
          (take-ne-nil n raw (omega arith) (omega arith)) (take-All n raw digits)
          (strip_zeros-All back (drop-All n raw digits)) (omega (arith, length-strip_zeros back))
          (sym (
            ap (λ t. value (take n raw ++ t)) (rw back_length at (pad_end-strip_zeros back))
            ∙ ap value (take-append-drop n raw))))

  split_raw-marks : All IsMark (split_raw raw d)
  unfolding split_raw
  split_raw-marks = elim (Bool-cases (d == 0)) [
    | inl e ↦ rw e (join-marks [] (strip_zeros raw) tt (strip_zeros-All raw digits))
    | inr e ↦
        let n = length raw - d in
        rw e (
          join-marks (take n raw) (strip_zeros (drop n raw)) (take-All n raw digits)
            (strip_zeros-All (drop n raw) (drop-All n raw digits)))
  ]

pad_start-All : (s : Text) (n : ℕ) → All IsDigit s → All IsDigit (pad_start s n)
pad_start-All s n h = All-append IsDigit (replicate (n - length s) b'0') s (replicate-All _) h

value-pad_start : (s : Text) (n : ℕ) → value (pad_start s n) ≡ value s
value-pad_start s n =
    value_from-append 0 (replicate (n - length s) b'0') s
    ∙ ap (λ v. value_from v s) (value-replicate (n - length s))

lt-length-pad_start : (s : Text) (n : ℕ) → n ≤ length (pad_start s n)
lt-length-pad_start s n = omega (
  arith,
  length-append (replicate (n - length s) b'0') s,
  length-replicate {A = ℕ} (n - length s) b'0',
)

-- The number of units is denoted by its print, if there is a place behind the dot.
pub show_units-Denotes : (n d : ℕ) → 0 < d → Denotes d (show_units n d) n
show_units-Denotes n d h =
    let raw = pad_start (to_string n) (d + 1) in
    unfold show_units in
    rw (value-pad_start (to_string n) (d + 1) ∙ value-to_string n) at (
      split_raw-Denotes raw d (pad_start-All (to_string n) (d + 1) (to_string-All n)) h
        (omega (arith, lt-length-pad_start (to_string n) (d + 1))))

show_units-marks : (n d : ℕ) → All IsMark (show_units n d)
unfolding show_units
show_units-marks n d =
    split_raw-marks (pad_start (to_string n) (d + 1)) d
      (pad_start-All (to_string n) (d + 1) (to_string-All n))

pub decimal_to_units-show_units : (n d : ℕ) → 0 < d → decimal_to_units (show_units n d) d ≡ ok n
decimal_to_units-show_units n d h =
    (decimal_to_units_iff (show_units n d) d n).1
      (rw (trim-marks _ (show_units-marks n d)) (show_units-Denotes n d h))

-- Whatever amount of units is printed by `unitsToDecimal`, `decimalToUnits` reads it back exactly,
-- for an asset with at least one decimal place.
pub decimal_to_units-units_to_decimal :
    (n d : ℕ) → 0 < d → decimal_to_units (units_to_decimal (pos n) d) d ≡ ok n
unfolding units_to_decimal
decimal_to_units-units_to_decimal n d h = decimal_to_units-show_units n d h
