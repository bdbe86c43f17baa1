-- ===== src/Amount.antt =====
-- Decimal amounts: `decimalToUnits` and `unitsToDecimal` of src/wallet.ts, whose text stands again
-- in src/wallet_safety.ts, src/merchant_policy.ts, src/bridges.ts, src/vendors.ts and src/index.ts.
-- A text that is read as an amount is the list of its UTF-16 code units; a bigint is a `ℤ`.
pub mod Digits
pub mod Denotes
pub mod RoundTrip
pub mod Trim
mod Tests
use Prim.Native.Char.{code}
use Prim.Native.String
use lyth_mcp.Prelude.{
  ℕ, zero, suc, ◌+◌, ◌-◌, ◌*◌, ◌/◌, ◌%◌, String, Bool, true, false, ◌&&◌, ◌||◌, Option, none, some,
  List, [], ◌∷◌, ◌++◌, ltb, leb, ◌==◌, if◌then◌else◌, or_else, length, take, drop, replicate,
  Result, ok, err,
}

abbrev pub Text : Type 0
Text = List ℕ

-- The code units of a literal.
abbrev pub codes : String → Text
codes String.[] = []
codes (String.◌∷◌ c s) = code c ∷ codes s

pub data AmountError : Type 0 where
  invalid_amount too_many_places : AmountError

-- White space and line terminators of ECMAScript.
unfoldable pub is_space : ℕ → Bool
is_space c =
    leb 9 c && leb c 13
    || c == 32
    || c == 160
    || c == 5760
    || leb 8192 c && leb c 8202
    || c == 8232
    || c == 8233
    || c == 8239
    || c == 8287
    || c == 12288
    || c == 65279

abbrev pub is_empty : Text → Bool
is_empty [] = true
is_empty (_ ∷ _) = false

pub trim_start : Text → Text
trim_start [] = []
trim_start (c ∷ s) = if is_space c then trim_start s else c ∷ s

pub trim_end : Text → Text
trim_end [] = []
trim_end (c ∷ s) = if is_space c && is_empty (trim_end s) then [] else c ∷ trim_end s

unfoldable pub trim : Text → Text
unfolding is_space trim_start trim_end
trim s = trim_end (trim_start s)

abbrev pub is_digit : ℕ → Bool
is_digit c = leb b'0' c && leb c b'9'

-- The regular expression `^\d+(\.\d+)?$`, a function for each place in it.
pub match_frac : Text → Bool
match_frac [] = true
match_frac (c ∷ s) = is_digit c && match_frac s

pub match_dot : Text → Bool
match_dot [] = false
match_dot (c ∷ s) = is_digit c && match_frac s

pub match_whole : Text → Bool
match_whole [] = true
match_whole (c ∷ s) = if is_digit c then match_whole s else c == b'.' && match_dot s

unfoldable pub is_decimal : Text → Bool
unfolding match_whole match_dot match_frac
is_decimal [] = false
is_decimal (c ∷ s) = is_digit c && match_whole s

-- The first two parts of `s.split(".")`.
unfoldable pub first_part : Text → Text
first_part [] = []
first_part (c ∷ s) = if c == b'.' then [] else c ∷ first_part s

unfoldable pub second_part : Text → Option Text
unfolding first_part
second_part [] = none
second_part (c ∷ s) = if c == b'.' then some (first_part s) else second_part s

-- `BigInt(s)` for a text of digits.
unfoldable pub value_from : ℕ → Text → ℕ
value_from n [] = n
value_from n (c ∷ s) = value_from (n * 10 + (c - b'0')) s

abbrev pub value : Text → ℕ
value s = value_from 0 s

abbrev pub pad_end : Text → ℕ → Text
pad_end s n = s ++ replicate (n - length s) b'0'

abbrev pub pad_start : Text → ℕ → Text
pad_start s n = replicate (n - length s) b'0' ++ s

-- The rest of `decimalToUnits`, for the trimmed text.
unfoldable pub parse_trimmed : Text → ℕ → Result AmountError ℕ
unfolding is_decimal first_part second_part value_from
parse_trimmed trimmed decimals =
    let whole = first_part trimmed in
    let frac = or_else (second_part trimmed) [] in
    if is_decimal trimmed
    then (if ltb decimals (length frac)
        then err too_many_places
        else ok (value (whole ++ pad_end frac decimals)))
    else err invalid_amount

unfoldable pub decimal_to_units : Text → ℕ → Result AmountError ℕ
unfolding parse_trimmed trim
decimal_to_units input decimals = parse_trimmed (trim input) decimals

-- `n.toString()` of a bigint that is not negative: the digits in front of `out`, with fuel.
pub emit : ℕ → ℕ → Text → Text
emit zero n out = out
emit (suc f) n out =
    let rest = emit f (n / 10) ((b'0' + n % 10) ∷ out) in if n == 0 then out else rest

unfoldable pub to_string : ℕ → Text
unfolding emit
to_string n = if n == 0 then b'0' ∷ [] else emit n n []

-- `s.slice(0, -n)` and `s.slice(-n)`, where `-0` is 0.
abbrev pub slice_to_back : Text → ℕ → Text
slice_to_back s n = if n == 0 then [] else take (length s - n) s

abbrev pub slice_from_back : Text → ℕ → Text
slice_from_back s n = if n == 0 then s else drop (length s - n) s

-- `s.replace(/0+$/, "")`
unfoldable pub strip_zeros : Text → Text
strip_zeros [] = []
strip_zeros (c ∷ s) = if c == b'0' && is_empty (strip_zeros s) then [] else c ∷ strip_zeros s

abbrev pub join_frac : Text → Text → Text
join_frac whole frac = if is_empty frac then whole else whole ++ b'.' ∷ frac

-- The rest of `unitsToDecimal`, for the padded digits.
unfoldable pub split_raw : Text → ℕ → Text
unfolding strip_zeros
split_raw raw decimals =
    join_frac (slice_to_back raw decimals) (strip_zeros (slice_from_back raw decimals))

unfoldable pub show_units : ℕ → ℕ → Text
unfolding to_string split_raw
show_units n decimals = split_raw (pad_start (to_string n) (decimals + 1)) decimals

-- `negsuc n` is -(n + 1).
pub data ℤ : Type 0 where
  pos : ℕ → ℤ
  negsuc : ℕ → ℤ

unfoldable pub units_to_decimal : ℤ → ℕ → Text
unfolding show_units
units_to_decimal (pos n) decimals = show_units n decimals
units_to_decimal (negsuc n) decimals = b'-' ∷ show_units (n + 1) decimals
