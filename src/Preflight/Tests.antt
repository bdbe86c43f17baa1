-- ===== src/Preflight/Tests.antt =====
-- Runs of `preflightTransfer` and `scoreEndpoint` of src/index.ts.
use lyth_mcp.Prelude.{
  ◌*◌, ◌^◌, inl, ◌≡◌, refl, true, false, none, some, List, [], ◌∷◌, arith, replicate, Result, ok,
}
use lyth_mcp.Amount.{codes, decimal_to_units}
use lyth_mcp.Quantity.{is_hex_digit, parse_quantity}
use lyth_mcp.LowValue.{units_of, assert_low_value_allowed}
use lyth_mcp.Wallet.{WalletError}
use lyth_mcp.Wallet.Summary.{WalletSummary}
use lyth_mcp.Safety.Tests.{
  hot_policy, hot_summary, hot_ledger, hot-Reads, hot-HasCaps, monday, one_lyth, never, summarized,
}
use lyth_mcp.Preflight.{
  Probe, replied, no_reply, Health, score_endpoint, score_of, PreflightArgs, Answers, low_balance,
  low_nonce, is_wire_address, clean, check_endpoint, check_chain, check_balance, check_nonce,
  check_agent, check_wallet, preflight_transfer,
}
use lyth_mcp.Preflight.Covered.{Covered, preflight_transfer-Covered}
use lyth_mcp.Preflight.Allowed.{preflight_transfer-allowed}

abbrev healthy : Health
healthy = record { works = true; score = 100; write_ready = true; quarantined = false }

-- One LYTH to an address of forty digits, signed in low-value mode.
abbrev transfer : PreflightArgs
transfer = record {
  wallet_name = "agent";
  to = b'0' ∷ b'x' ∷ replicate 40 b'a';
  amount_units = 10 ^ 18;
  gas_limit = 21000;
  max_fee_per_gas = 1000000000;
  nonce = some 5;
  sign = true;
  allow_low_value_signing = true;
  allow_paused_agent = false;
  passphrase = none;
}

-- Chain 69420, two LYTH, nonce 5.
abbrev answers : Answers
answers = record {
  chain_id = some (codes "0x10f2c");
  balance = some (codes "0x1bc16d674ec80000");
  nonce = some (codes "0x5");
}

abbrev wallets : Result WalletError (List WalletSummary)
wallets = ok (one_lyth.wallet ∷ [])

passed : preflight_transfer 69420 never transfer healthy answers wallets ≡ ok clean
unfolding preflight_transfer check_endpoint check_chain check_balance check_nonce check_wallet
    check_agent is_wire_address is_hex_digit parse_quantity units_of decimal_to_units
passed = refl

preflight_transfer-Covered_example : Covered 69420 transfer healthy answers wallets
preflight_transfer-Covered_example =
    preflight_transfer-Covered 69420 never transfer healthy answers wallets clean passed refl

preflight_transfer-allowed_example : assert_low_value_allowed hot_policy (10 ^ 18) monday ≡ ok tt
preflight_transfer-allowed_example =
    preflight_transfer-allowed 69420 never transfer healthy answers wallets clean one_lyth.wallet
      hot_policy monday hot_ledger (2 * 10 ^ 18) (5 * 10 ^ 18) hot_summary passed refl refl refl
      refl hot-Reads (inl hot-HasCaps) refl refl summarized (omega arith)

-- A balance below the amount and the fee, and a nonce that was used.
abbrev short : Answers
short = record answers { balance = some (codes "0xde0b6b3a7640000"); nonce = some (codes "0x6") }

short_faults :
    preflight_transfer 69420 never transfer healthy short wallets
    ≡ ok (record { violations = low_balance ∷ low_nonce ∷ []; warnings = [] })
unfolding preflight_transfer check_endpoint check_chain check_balance check_nonce check_wallet
    check_agent is_wire_address is_hex_digit parse_quantity units_of decimal_to_units
short_faults = refl

-- An endpoint without sync status and mempool is not ready for writes.
abbrev slow_probe : Probe
slow_probe = record {
  works = true;
  latency_ms = 50;
  gas_price = replied;
  mempool = no_reply;
  sync = no_reply;
}

slow_score :
    score_endpoint slow_probe
    ≡ record { works = true; score = 60; write_ready = false; quarantined = false }
unfolding score_endpoint score_of
slow_score = refl
