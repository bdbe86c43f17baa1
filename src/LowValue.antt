-- ===== src/LowValue.antt =====
-- Low-value signing policies and their daily accounting, src/wallet.ts. An operation that reads the
-- clock takes the day, `todayKey()`, as an argument; a function that mutates its policy returns the
-- new one.
pub mod Ledger
pub mod Limit
mod Tests
use lyth_mcp.Prelude.{
  ℕ, ◌+◌, ◌-◌, String, Bool, true, false, Option, none, some, [], ◌∷◌, ltb, if◌then◌else◌, or_else,
  or_maybe, str_eq, Result, ok, err, then_result,
}
use lyth_mcp.Amount.{Text, AmountError, decimal_to_units, pos, units_to_decimal, codes}

-- The parameters of the key derivation.
pub record KdfParams : Type 0 where
  pub n : ℕ
  pub r : ℕ
  pub p : ℕ
  pub key_len : ℕ

-- `EncryptedPayload`, less its two constant tags; the four texts are base64.
pub record EncryptedPayload : Type 0 where
  pub params : KdfParams
  pub salt : Text
  pub iv : Text
  pub tag : Text
  pub ciphertext : Text

pub record LowValuePolicy : Type 0 where
  pub enabled : Bool
  pub max_amount : Text
  pub daily_limit : Option Text
  pub day : Option String
  pub spent_today : Option Text
  pub reserved_today : Option Text
  pub submitted_today : Option Text
  pub confirmed_today : Option Text
  pub failed_today : Option Text
  pub expired_today : Option Text
  pub configured_at : String
  pub encrypted_mnemonic : EncryptedPayload

pub data Bucket : Type 0 where
  reserved submitted confirmed failed expired : Bucket

pub record AccountingSummary : Type 0 where
  pub day : String
  pub reserved : Text
  pub submitted : Text
  pub confirmed : Text
  pub failed : Text
  pub expired : Text
  pub total_locked : Text
  pub remaining_today : Option Text

-- What the checks of a policy throw.
pub data PolicyError : Type 0 where
  amount : AmountError → PolicyError
  over_max_amount over_daily_limit : PolicyError

abbrev pub lyth_decimals : ℕ
lyth_decimals = 18

abbrev pub zero_text : Text
zero_text = codes "0"

-- `decimalToUnits(text)` among checks that throw errors of their own.
unfoldable pub units_of : Text → Result PolicyError ℕ
units_of text = elim (decimal_to_units text lyth_decimals) [ ok n ↦ ok n | err e ↦ err (amount e) ]

unfoldable pub text_of : ℕ → Text
text_of n = units_to_decimal (pos n) lyth_decimals

-- A text or undefined under a truth test: the empty text counts as absent.
abbrev pub truthy : Option Text → Option Text
truthy none = none
truthy (some []) = none
truthy (some (c ∷ s)) = some (c ∷ s)

abbrev pub is_day : Option String → String → Bool
is_day none today = false
is_day (some day) today = str_eq day today

-- `policy.reservedToday ?? policy.spentToday ?? "0"`
abbrev pub reserved_text : LowValuePolicy → Text
reserved_text policy = or_else (or_maybe policy.reserved_today policy.spent_today) zero_text

unfoldable pub reset_day_if_needed : LowValuePolicy → String → LowValuePolicy
reset_day_if_needed policy today =
    if is_day policy.day today
    then record policy {
      reserved_today = some (reserved_text policy);
      submitted_today = some (or_else policy.submitted_today zero_text);
      confirmed_today = some (or_else policy.confirmed_today zero_text);
      failed_today = some (or_else policy.failed_today zero_text);
      expired_today = some (or_else policy.expired_today zero_text);
    }
    else record policy {
      day = some today;
      spent_today = some zero_text;
      reserved_today = some zero_text;
      submitted_today = some zero_text;
      confirmed_today = some zero_text;
      failed_today = some zero_text;
      expired_today = some zero_text;
    }

unfoldable pub locked_units : LowValuePolicy → String → Result PolicyError ℕ
locked_units policy today =
    if is_day policy.day today
    then (then_result (units_of (reserved_text policy)) λ r.
        then_result (units_of (or_else policy.submitted_today zero_text)) λ s.
          then_result (units_of (or_else policy.confirmed_today zero_text)) λ c. ok (r + s + c))
    else ok 0

unfoldable pub check_daily : ℕ → Option Text → Result PolicyError ℕ → Result PolicyError (Unit {0})
check_daily amount_units none locked = ok tt
check_daily amount_units (some limit) locked = then_result locked λ spent.
    then_result (units_of limit)
      λ daily. if ltb daily (spent + amount_units) then err over_daily_limit else ok tt

unfoldable pub assert_low_value_allowed :
    LowValuePolicy → ℕ → String → Result PolicyError (Unit {0})
unfolding check_daily
assert_low_value_allowed policy amount_units today =
    then_result (units_of policy.max_amount) λ most.
      if ltb most amount_units
      then err over_max_amount
      else check_daily amount_units (truthy policy.daily_limit) (locked_units policy today)

-- The buckets, by `lowValueBucketKey`.
unfoldable pub bucket_text : Bucket → LowValuePolicy → Option Text
bucket_text reserved policy = policy.reserved_today
bucket_text submitted policy = policy.submitted_today
bucket_text confirmed policy = policy.confirmed_today
bucket_text failed policy = policy.failed_today
bucket_text expired policy = policy.expired_today

unfoldable pub set_bucket : Bucket → Text → LowValuePolicy → LowValuePolicy
set_bucket reserved text policy = record policy { reserved_today = some text }
set_bucket submitted text policy = record policy { submitted_today = some text }
set_bucket confirmed text policy = record policy { confirmed_today = some text }
set_bucket failed text policy = record policy { failed_today = some text }
set_bucket expired text policy = record policy { expired_today = some text }

-- The part of `recordLowValueSpend` between the read and the write of the store.
unfoldable pub record_spend : LowValuePolicy → ℕ → String → Result PolicyError LowValuePolicy
record_spend policy amount_units today =
    let p = reset_day_if_needed policy today in
    then_result (units_of (reserved_text p)) λ current.
      let text = text_of (current + amount_units) in
      ok (record p { reserved_today = some text; spent_today = some text })

-- The part of `moveLowValueAccounting` between the read and the write of the store.
unfoldable pub move_between :
    LowValuePolicy → ℕ → Bucket → Bucket → String → Result PolicyError LowValuePolicy
unfolding bucket_text set_bucket
move_between policy amount_units from to today =
    let p = reset_day_if_needed policy today in
    then_result (units_of (or_else (bucket_text from p) zero_text)) λ from_value.
      let left = if ltb amount_units from_value then from_value - amount_units else 0 in
      let q = set_bucket from (text_of left) p in
      then_result (units_of (or_else (bucket_text to q) zero_text)) λ to_value.
        let r = set_bucket to (text_of (to_value + amount_units)) q in
        then_result (locked_units r today)
          λ locked. ok (record r { spent_today = some (text_of locked) })

-- `dailyLimit ? max(decimalToUnits(dailyLimit) - totalLocked, 0) : undefined`
unfoldable pub remaining_of : Option Text → ℕ → Result PolicyError (Option Text)
remaining_of none locked = ok none
remaining_of (some limit) locked =
    then_result (units_of limit) λ daily. ok (some (text_of (daily - locked)))

unfoldable pub summarize_today : LowValuePolicy → String → Result PolicyError AccountingSummary
unfolding remaining_of
summarize_today policy today = then_result (units_of (reserved_text policy)) λ r.
    then_result (units_of (or_else policy.submitted_today zero_text)) λ s.
      then_result (units_of (or_else policy.confirmed_today zero_text)) λ c.
        then_result (units_of (or_else policy.failed_today zero_text)) λ f.
          then_result (units_of (or_else policy.expired_today zero_text)) λ e.
            then_result (remaining_of (truthy policy.daily_limit) (r + s + c)) λ left. ok (record {
              day = today;
              reserved = text_of r;
              submitted = text_of s;
              confirmed = text_of c;
              failed = text_of f;
              expired = text_of e;
              total_locked = text_of (r + s + c);
              remaining_today = left;
            })

unfoldable pub summarize_accounting : LowValuePolicy → String → Result PolicyError AccountingSummary
unfolding summarize_today
summarize_accounting policy today =
    if is_day policy.day today
    then summarize_today policy today
    else ok (record {
      day = today;
      reserved = zero_text;
      submitted = zero_text;
      confirmed = zero_text;
      failed = zero_text;
      expired = zero_text;
      total_locked = zero_text;
      remaining_today = policy.daily_limit;
    })

unfoldable pub check_limit : Option Text → Result PolicyError (Unit {0})
check_limit none = ok tt
check_limit (some limit) = then_result (units_of limit) λ _. ok tt

-- `createLowValuePolicy`: what it checks first, and the policy that it makes.
unfoldable pub check_caps : Text → Option Text → Result PolicyError (Unit {0})
unfolding check_limit
check_caps max_amount daily_limit = then_result (units_of max_amount) λ _. check_limit daily_limit

unfoldable pub fresh_policy :
    Text → Option Text → String → String → EncryptedPayload → LowValuePolicy
fresh_policy max_amount daily_limit today now payload = record {
  enabled = true;
  max_amount = max_amount;
  daily_limit = daily_limit;
  day = some today;
  spent_today = some zero_text;
  reserved_today = some zero_text;
  submitted_today = some zero_text;
  confirmed_today = some zero_text;
  failed_today = some zero_text;
  expired_today = some zero_text;
  configured_at = now;
  encrypted_mnemonic = payload;
}
