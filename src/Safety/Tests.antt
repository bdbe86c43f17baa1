-- ===== src/Safety/Tests.antt =====
-- A wallet with a policy of 2 per signature and 5 per day, of which 4 are locked, asked for 1 LYTH.
use mathlib.Core.Path.{◌≡◌, refl}
use lyth_mcp.Prelude.{
  ◌*◌, ◌^◌, ◌≤◌, ◌↔◌, String, Bool, true, false, some, none, List, [], ◌∷◌, ok, arith,
}
use lyth_mcp.Amount.{codes, decimal_to_units, units_to_decimal}
use lyth_mcp.LowValue.{
  LowValuePolicy, AccountingSummary, units_of, text_of, reset_day_if_needed, summarize_accounting,
  summarize_today, remaining_of, assert_low_value_allowed,
}
use lyth_mcp.LowValue.Ledger.{Ledger, Reads}
use lyth_mcp.LowValue.Limit.{HasCaps}
use lyth_mcp.Wallet.{local_machine_key}
use lyth_mcp.Wallet.Summary.{LowValueSummary}
use lyth_mcp.Safety.{
  Simulation, SimulationArgs, simulate_hot_wallet_policy, agent_violations, RiskFactors, risk_score,
  level_of, risk_rank, medium_risk, high_risk, Profile,
}
use lyth_mcp.Safety.Agreement.{simulate-assert_low_value_allowed}
use lyth_mcp.Safety.Risk.{Worse, risk_score-Worse}

abbrev pub monday : String
monday = "2026-01-05"

abbrev pub hot_policy : LowValuePolicy
hot_policy = record {
  enabled = true;
  max_amount = codes "2";
  daily_limit = some (codes "5");
  day = some monday;
  spent_today = some (codes "4");
  reserved_today = some (codes "1");
  submitted_today = some (codes "2");
  confirmed_today = some (codes "1");
  failed_today = some (codes "0");
  expired_today = some (codes "3");
  configured_at = "2026-01-01T00:00:00.000Z";
  encrypted_mnemonic = record {
    params = record { n = 32768; r = 8; p = 1; key_len = 32 };
    salt = [];
    iv = [];
    tag = [];
    ciphertext = [];
  };
}

abbrev pub hot_ledger : Ledger
hot_ledger = record {
  reserved_units = 10 ^ 18;
  submitted_units = 2 * 10 ^ 18;
  confirmed_units = 10 ^ 18;
  failed_units = 0;
  expired_units = 3 * 10 ^ 18;
}

pub hot-Reads : Reads hot_policy monday hot_ledger
unfolding reset_day_if_needed units_of decimal_to_units
hot-Reads = record {
  reserved_holds = (codes "1", refl, refl);
  submitted_holds = (codes "2", refl, refl);
  confirmed_holds = (codes "1", refl, refl);
  failed_holds = (codes "0", refl, refl);
  expired_holds = (codes "3", refl, refl);
}

pub hot-HasCaps : HasCaps hot_policy (2 * 10 ^ 18) (5 * 10 ^ 18)
unfolding units_of decimal_to_units
hot-HasCaps = record {
  limit_text = codes "5";
  max_reads = refl;
  limit_stands = refl;
  limit_reads = refl;
}

abbrev hot_accounting : AccountingSummary
hot_accounting = record {
  day = monday;
  reserved = codes "1";
  submitted = codes "2";
  confirmed = codes "1";
  failed = codes "0";
  expired = codes "3";
  total_locked = codes "4";
  remaining_today = some (codes "1");
}

pub summarized : summarize_accounting hot_policy monday ≡ ok hot_accounting
unfolding summarize_accounting summarize_today remaining_of units_of decimal_to_units text_of
    units_to_decimal
summarized = refl

abbrev pub hot_summary : LowValueSummary
hot_summary = record {
  enabled = true;
  max_amount = codes "2";
  daily_limit = some (codes "5");
  day = some monday;
  spent_today = some (codes "4");
  reserved_today = some (codes "1");
  submitted_today = some (codes "2");
  confirmed_today = some (codes "1");
  failed_today = some (codes "0");
  expired_today = some (codes "3");
  accounting = hot_accounting;
  configured_at = "2026-01-01T00:00:00.000Z";
}

abbrev pub one_lyth : SimulationArgs
one_lyth = record {
  wallet = record {
    name = "agent";
    address = codes "0xa";
    public_key = codes "0xc";
    key_protection = local_machine_key;
    created_at = "2026-01-01T00:00:00.000Z";
    low_value = some hot_summary;
    agent = none;
  };
  amount = codes "1";
  asset = none;
  counterparty = some "shop";
  category = none;
}

abbrev pub never : String → Bool
never t = false

no_rules : agent_violations never one_lyth.wallet.agent one_lyth.counterparty one_lyth.category ≡ []
unfolding agent_violations
no_rules = refl

one_reads : units_of one_lyth.amount ≡ ok (10 ^ 18)
unfolding units_of decimal_to_units
one_reads = refl

simulate-assert_low_value_allowed_example :
    (m : Simulation) × (simulate_hot_wallet_policy never one_lyth ≡ ok m)
    × ((m.violations ≡ []) ↔ (assert_low_value_allowed hot_policy (10 ^ 18) monday ≡ ok tt))
simulate-assert_low_value_allowed_example =
    simulate-assert_low_value_allowed never one_lyth hot_policy monday hot_ledger (2 * 10 ^ 18)
      (5 * 10 ^ 18) (10 ^ 18) hot_summary hot-Reads hot-HasCaps refl refl refl summarized refl
      no_rules one_reads (omega arith)

abbrev calm : RiskFactors
calm = record {
  key_protection = local_machine_key;
  hot_wallet = true;
  signed_count = 0;
  submitted_count = 0;
  failed_count = 0;
  has_expired = false;
}

abbrev busy : RiskFactors
busy = record calm { signed_count = 2; failed_count = 7 }

busy-Worse : Worse calm busy
busy-Worse = record {
  same_key = refl;
  same_mode = refl;
  same_expiry = refl;
  more_signed = omega arith;
  more_submitted = omega arith;
  more_failed = omega arith;
}

busy_score : risk_score busy ≡ 29
unfolding risk_score
busy_score = refl

risk_score-Worse_example :
    (risk_score busy ≤ risk_score calm)
    × (risk_rank (level_of (risk_score calm)) ≤ risk_rank (level_of (risk_score busy)))
risk_score-Worse_example = risk_score-Worse calm busy busy-Worse

abbrev profiles : List Profile
profiles =
    record { wallet_name = "a"; factors = calm; score = 65; level = medium_risk }
    ∷ record { wallet_name = "b"; factors = busy; score = 29; level = high_risk }
    ∷ []
