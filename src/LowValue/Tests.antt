-- ===== src/LowValue/Tests.antt =====
-- A policy of at most 2 per signature and 5 per day, on a day on which 4 are locked and 3 expired.
use mathlib.Core.Path.{◌≡◌, refl}
use lyth_mcp.Prelude.{ℕ, ◌+◌, ◌*◌, ◌^◌, ◌≤◌, ◌<◌, ◌≢◌, ◌↔◌, String, true, some, [], ok, err, arith}
use lyth_mcp.Amount.{codes, decimal_to_units, units_to_decimal}
use lyth_mcp.LowValue.{
  EncryptedPayload, LowValuePolicy, over_daily_limit, reserved, submitted, confirmed, expired,
  units_of, locked_units, reset_day_if_needed, assert_low_value_allowed, record_spend, move_between,
  text_of,
}
use lyth_mcp.LowValue.Ledger.{
  Ledger, locked, total, entry, move_entries, Reads, SameTerms, record_spend-Reads,
  move_between-Reads,
}
use lyth_mcp.LowValue.Limit.{
  HasCaps, assert_low_value_allowed_iff, move_between-total, Reach, here, next, sign, WithinLimit,
  Reach-WithinLimit, move_expired-over_limit,
}

abbrev units : ℕ → ℕ
units n = n * 10 ^ 18

abbrev payload : EncryptedPayload
payload = record {
  params = record { n = 32768; r = 8; p = 1; key_len = 32 };
  salt = [];
  iv = [];
  tag = [];
  ciphertext = [];
}

abbrev monday : String
monday = "2026-01-05"

abbrev agent_policy : LowValuePolicy
agent_policy = record {
  enabled = true;
  max_amount = codes "2";
  daily_limit = some (codes "5");
  day = some monday;
  spent_today = some (codes "4");
  reserved_today = some (codes "1");
  submitted_today = some (codes "2");
  confirmed_today = some (codes "1");
  failed_today = some (codes "0");
  expired_today = some (codes "3");
  configured_at = "2026-01-01T00:00:00.000Z";
  encrypted_mnemonic = payload;
}

abbrev monday_ledger : Ledger
monday_ledger = record {
  reserved_units = units 1;
  submitted_units = units 2;
  confirmed_units = units 1;
  failed_units = 0;
  expired_units = units 3;
}

monday-Reads : Reads agent_policy monday monday_ledger
unfolding reset_day_if_needed units_of decimal_to_units
monday-Reads = record {
  reserved_holds = (codes "1", refl, refl);
  submitted_holds = (codes "2", refl, refl);
  confirmed_holds = (codes "1", refl, refl);
  failed_holds = (codes "0", refl, refl);
  expired_holds = (codes "3", refl, refl);
}

caps : HasCaps agent_policy (units 2) (units 5)
unfolding units_of decimal_to_units
caps = record { limit_text = codes "5"; max_reads = refl; limit_stands = refl; limit_reads = refl }

over : assert_low_value_allowed agent_policy (units 2) monday ≡ err over_daily_limit
unfolding assert_low_value_allowed locked_units units_of decimal_to_units
over = refl

allowed : assert_low_value_allowed agent_policy (units 1) monday ≡ ok tt
unfolding assert_low_value_allowed locked_units units_of decimal_to_units
allowed = refl

assert_low_value_allowed_iff_example :
    (assert_low_value_allowed agent_policy (units 1) monday ≡ ok tt)
    ↔ ((units 1 ≤ units 2) × (locked monday_ledger + units 1 ≤ units 5))
assert_low_value_allowed_iff_example =
    assert_low_value_allowed_iff agent_policy monday monday_ledger (units 2) (units 5) (units 1)
      caps monday-Reads

abbrev unlimited : LowValuePolicy
unlimited = record agent_policy { daily_limit = some [] }

two_at_most : units_of unlimited.max_amount ≡ ok (units 2)
unfolding units_of decimal_to_units
two_at_most = refl

record_spend-Reads_example :
    (q : LowValuePolicy) × (record_spend agent_policy (units 1) monday ≡ ok q)
    × SameTerms agent_policy q
    × Reads q monday (record monday_ledger { reserved_units = units 1 + units 1 })
record_spend-Reads_example =
    record_spend-Reads agent_policy monday monday_ledger monday-Reads (units 1)

move_between-Reads_example :
    (q : LowValuePolicy) × (move_between agent_policy (units 1) reserved submitted monday ≡ ok q)
    × SameTerms agent_policy q
    × Reads q monday (move_entries (units 1) reserved submitted monday_ledger)
move_between-Reads_example =
    move_between-Reads agent_policy monday monday_ledger monday-Reads (units 1) reserved submitted

apart : submitted ≢ confirmed
apart e = cc

move_between-total_example :
    (q : LowValuePolicy) × (m : Ledger) × (move_between agent_policy
        (units 2)
        submitted
        confirmed
        monday
      ≡ ok q)
    × Reads q monday m
    × (total m ≡ total monday_ledger)
    × (entry submitted m + units 2 ≡ entry submitted monday_ledger)
    × (entry confirmed m ≡ entry confirmed monday_ledger + units 2)
move_between-total_example =
    move_between-total agent_policy monday monday_ledger (units 2) submitted confirmed monday-Reads
      (omega arith) apart

move_expired-over_limit_example :
    (q : LowValuePolicy) × (m : Ledger) × (move_between agent_policy
        (units 3)
        expired
        submitted
        monday
      ≡ ok q)
    × Reads q monday m
    × (locked_units q monday ≡ ok (locked m))
    × (units 5 < locked m)
move_expired-over_limit_example =
    move_expired-over_limit agent_policy monday monday_ledger (units 5) (units 3) monday-Reads
      (omega arith)

abbrev spent : LowValuePolicy
spent = record agent_policy { reserved_today = some (codes "2"); spent_today = some (codes "2") }

spends : record_spend agent_policy (units 1) monday ≡ ok spent
unfolding record_spend reset_day_if_needed units_of decimal_to_units text_of units_to_decimal
spends = refl

one_signature : Reach monday agent_policy spent
one_signature = next here (sign (units 1) allowed spends)

within : WithinLimit monday (units 2) (units 5) agent_policy
within = record { ledger = monday_ledger; caps = caps; reads = monday-Reads; within = omega arith }

Reach-WithinLimit_example : WithinLimit monday (units 2) (units 5) spent
Reach-WithinLimit_example = Reach-WithinLimit one_signature within
