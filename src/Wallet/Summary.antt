-- ===== src/Wallet/Summary.antt =====
-- `summarizeWallet`: what the tools show of a wallet, and `listWallets`.
use lyth_mcp.Prelude.{
  String, Bool, Option, none, some, List, [], ◌∷◌, Result, ok, then_result, ◌>>=◌, lift,
}
use lyth_mcp.Amount.{Text}
use lyth_mcp.LowValue.{LowValuePolicy, AccountingSummary, summarize_accounting}
use lyth_mcp.Wallet.{
  Protection, AgentMetadata, WalletRecord, WalletError, Call, Op, read_wallets,
  wallet_key_protection,
}
use lyth_mcp.Wallet.Ops.{of_policy}

-- The policy without its secret, with the accounting as of the day.
pub record LowValueSummary : Type 0 where
  pub enabled : Bool
  pub max_amount : Text
  pub daily_limit : Option Text
  pub day : Option String
  pub spent_today : Option Text
  pub reserved_today : Option Text
  pub submitted_today : Option Text
  pub confirmed_today : Option Text
  pub failed_today : Option Text
  pub expired_today : Option Text
  pub accounting : AccountingSummary
  pub configured_at : String

pub record WalletSummary : Type 0 where
  pub name : String
  pub address : Text
  pub public_key : Text
  pub key_protection : Protection
  pub created_at : String
  pub low_value : Option LowValueSummary
  pub agent : Option AgentMetadata

summarize_policy : Option LowValuePolicy → String → Result WalletError (Option LowValueSummary)
summarize_policy none today = ok none
summarize_policy (some p) today = then_result (of_policy (summarize_accounting p today)) λ a. ok (
    some (record {
      enabled = p.enabled;
      max_amount = p.max_amount;
      daily_limit = p.daily_limit;
      day = p.day;
      spent_today = p.spent_today;
      reserved_today = p.reserved_today;
      submitted_today = p.submitted_today;
      confirmed_today = p.confirmed_today;
      failed_today = p.failed_today;
      expired_today = p.expired_today;
      accounting = a;
      configured_at = p.configured_at;
    }))

unfoldable pub summarize_wallet : WalletRecord → String → Result WalletError WalletSummary
unfolding summarize_policy wallet_key_protection
summarize_wallet r today = then_result (summarize_policy r.low_value today) λ low. ok (record {
  name = r.name;
  address = r.address;
  public_key = r.public_key;
  key_protection = wallet_key_protection r;
  created_at = r.created_at;
  low_value = low;
  agent = r.agent;
})

unfoldable pub summarize_all : List WalletRecord → String → Result WalletError (List WalletSummary)
unfolding summarize_wallet
summarize_all [] today = ok []
summarize_all (r ∷ rs) today =
    then_result (summarize_wallet r today)
      λ s. then_result (summarize_all rs today) λ ss. ok (s ∷ ss)

unfoldable pub list_wallets : Call → Op (List WalletSummary)
unfolding read_wallets summarize_all
list_wallets c = do records ← read_wallets; lift (summarize_all records c.today)
