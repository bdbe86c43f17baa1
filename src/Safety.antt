-- ===== src/Safety.antt =====
-- The safety of hot wallets, src/wallet_safety.ts: what a wallet's policy would allow, the tiers of
-- approval and the risk of a profile. A violation or a warning is a constructor in place of its text.
pub mod Agreement
pub mod Risk
pub mod Tests
use lyth_mcp.Prelude.{
  ℕ, ◌+◌, ◌-◌, ◌*◌, min, String, Bool, true, false, not, ◌&&◌, Option, none, some, List, [], ◌∷◌,
  ◌++◌, ltb, leb, if◌then◌else◌, or_else, str_eq, any, keep, length, Result, ok, then_result,
}
use lyth_mcp.Amount.{Text}
use lyth_mcp.Files.Store.{given, wants}
use lyth_mcp.LowValue.{PolicyError, units_of, truthy}
use lyth_mcp.Wallet.{
  Protection, passphrase, local_machine_key, Fallback, ask_passphrase, AgentMetadata,
}
use lyth_mcp.Wallet.Summary.{LowValueSummary, WalletSummary}
use lyth_mcp.Outbox.{TxOutboxEntry, status_eq}
use lyth_mcp.Receipts.{OperationReceipt, receipt_status_eq}

pub data Violation : Type 0 where
  asset_unsupported not_enabled over_cap over_remaining : Violation
  agent_paused agent_expired counterparty_refused category_refused : Violation

pub data Warning : Type 0 where
  local_key_protected : Warning
  falls_back : Fallback → Warning

pub record Simulation : Type 0 where
  pub violations : List Violation
  pub warnings : List Warning
  pub fallback : Fallback

-- The argument of `simulateHotWalletPolicy`; `asset` is in upper case.
pub record SimulationArgs : Type 0 where
  pub wallet : WalletSummary
  pub amount : Text
  pub asset : Option String
  pub counterparty : Option String
  pub category : Option String

-- One violation if the test holds.
abbrev pub flag : Bool → Violation → List Violation
flag b v = if b then v ∷ [] else []

-- A bound that may be missing: the violation if the amount is over it.
abbrev pub over_bound : Option Text → ℕ → Violation → Result PolicyError (List Violation)
over_bound none amount v = ok []
over_bound (some bound) amount v =
    then_result (units_of bound) λ most. ok (flag (ltb most amount) v)

unfoldable pub low_value_violations :
    Option LowValueSummary → ℕ → Result PolicyError (List Violation)
low_value_violations none amount = ok (not_enabled ∷ [])
low_value_violations (some s) amount =
    if s.enabled
    then (then_result (over_bound (truthy (some s.max_amount)) amount over_cap) λ capped.
        then_result (over_bound s.accounting.remaining_today amount over_remaining)
          λ spent. ok (capped ++ spent))
    else ok (not_enabled ∷ [])

-- A wanted value that is not in a list that is there and not empty.
abbrev pub refused : Option String → Option (List String) → Bool
refused wanted none = false
refused wanted (some []) = false
refused none (some (x ∷ xs)) = false
refused (some w) (some (x ∷ xs)) = not (any (λ y. str_eq y w) (x ∷ xs))

abbrev is_late : (String → Bool) → Option String → Bool
is_late past none = false
is_late past (some t) = past t

-- `past`: `Date.parse(expiresAt) <= now`.
unfoldable pub agent_violations :
    (past : String → Bool)
    → Option AgentMetadata
    → (counterparty category : Option String) → List Violation
agent_violations past none counterparty category = []
agent_violations past (some a) counterparty category =
    flag (or_else a.paused false) agent_paused
    ++ flag (is_late past (given a.expires_at)) agent_expired
    ++ flag (refused (given counterparty) a.allowed_counterparties) counterparty_refused
    ++ flag (refused (given category) a.allowed_categories) category_refused

abbrev pub fallback_of : Option AgentMetadata → Option Fallback
fallback_of none = none
fallback_of (some a) = a.fallback_approval

abbrev pub fallback_warning : Option Fallback → List Warning
fallback_warning none = []
fallback_warning (some f) = falls_back f ∷ []

abbrev pub protection_warning : Protection → List Warning
protection_warning passphrase = []
protection_warning local_machine_key = local_key_protected ∷ []

unfoldable pub simulate_hot_wallet_policy :
    (String → Bool) → SimulationArgs → Result PolicyError Simulation
simulate_hot_wallet_policy past args = then_result (units_of args.amount) λ amount.
    then_result (low_value_violations args.wallet.low_value amount) λ low. ok (record {
      violations =
          flag (not (str_eq (or_else args.asset "LYTH") "LYTH")) asset_unsupported
          ++ low
          ++ agent_violations past args.wallet.agent args.counterparty args.category;
      warnings =
          protection_warning args.wallet.key_protection
          ++ fallback_warning (fallback_of args.wallet.agent);
      fallback = or_else (fallback_of args.wallet.agent) ask_passphrase;
    })

pub data RiskLevel : Type 0 where
  low_risk medium_risk high_risk blocked : RiskLevel

-- `riskRank`
abbrev pub risk_rank : RiskLevel → ℕ
risk_rank blocked = 4
risk_rank high_risk = 3
risk_rank medium_risk = 2
risk_rank low_risk = 1

abbrev pub higher_risk : RiskLevel → RiskLevel → RiskLevel
higher_risk a b = if leb (risk_rank b) (risk_rank a) then a else b

-- What `profileRisk` looks at.
pub record RiskFactors : Type 0 where
  pub key_protection : Protection
  pub hot_wallet : Bool
  pub signed_count : ℕ
  pub submitted_count : ℕ
  pub failed_count : ℕ
  pub has_expired : Bool

abbrev pub points : Bool → ℕ → ℕ
points b n = if b then n else 0

abbrev pub is_local : Protection → Bool
is_local passphrase = false
is_local local_machine_key = true

-- The score falls from 100 by each deduction, and is cut off at 0 as subtraction is.
unfoldable pub risk_score : RiskFactors → ℕ
risk_score f =
    100
    - points (is_local f.key_protection) 20
    - points f.hot_wallet 15
    - min 25 (f.signed_count * 8)
    - min 15 (f.submitted_count * 5)
    - min 20 (f.failed_count * 5)
    - points f.has_expired 15

unfoldable pub level_of : ℕ → RiskLevel
level_of score =
    if leb 85 score
    then low_risk
    else (if leb 65 score then medium_risk else (if leb 40 score then high_risk else blocked))

abbrev hot_wallet_of : Option LowValueSummary → Bool
hot_wallet_of none = false
hot_wallet_of (some s) = s.enabled

abbrev expiry_of : Option AgentMetadata → Option String
expiry_of none = none
expiry_of (some a) = given a.expires_at

-- The counts of `accountSafetyProfile`.
unfoldable pub risk_factors :
    (String → Bool) → WalletSummary → List TxOutboxEntry → List OperationReceipt → RiskFactors
risk_factors past w entries receipts =
    let own = keep (λ e. wants (some w.name) e.body.wallet_name) entries in
    record {
      key_protection = w.key_protection;
      hot_wallet = hot_wallet_of w.low_value;
      signed_count = length (keep (λ e. status_eq e.status lyth_mcp.Outbox.signed) own);
      submitted_count = length (keep (λ e. status_eq e.status lyth_mcp.Outbox.submitted) own);
      failed_count = length (
          keep
            (λ r.
              wants (some w.name) r.body.wallet_name
              && receipt_status_eq r.body.status lyth_mcp.Receipts.failed)
            receipts);
      has_expired = is_late past (expiry_of w.agent);
    }

pub record Profile : Type 0 where
  pub wallet_name : String
  pub factors : RiskFactors
  pub score : ℕ
  pub level : RiskLevel

unfoldable pub account_safety_profile :
    (String → Bool) → List TxOutboxEntry → List OperationReceipt → WalletSummary → Profile
account_safety_profile past entries receipts w =
    let f = risk_factors past w entries receipts in
    record {
      wallet_name = w.name;
      factors = f;
      score = risk_score f;
      level = level_of (risk_score f);
    }

abbrev pub highest_of : RiskLevel → List Profile → RiskLevel
highest_of level [] = level
highest_of level (q ∷ qs) = highest_of (higher_risk level q.level) qs

pub data Tier : Type 0 where
  agent_hot_wallet passkey_or_handoff full_key : Tier

-- `cap !== null && amount <= cap`
abbrev within : Option ℕ → ℕ → Bool
within none amount = false
within (some cap) amount = leb amount cap

-- `selectedTier` of `explainWalletThresholds`.
unfoldable pub select_tier :
    (low_value_cap passkey_cap : Option ℕ)
    → (has_policy : Bool) → (passkey : Option Bool) → ℕ
    → Tier
select_tier low_value_cap passkey_cap has_policy passkey amount =
    if within low_value_cap amount && has_policy
    then agent_hot_wallet
    else (if within passkey_cap amount && or_else passkey true
        then passkey_or_handoff
        else full_key)
