-- ===== src/Wallet/Transfer.antt =====
-- `buildTransfer` and the choice of the key that signs, src/wallet.ts. A backend is the mnemonic that
-- it is made from; the SDK's signature is the parameter `sign_tx`. The day may turn between the
-- check and the booking of a low-value signature, so these take a `Call` each.
use lyth_mcp.Prelude.{
  ℕ, String, Bool, true, false, Option, none, some, if◌then◌else◌, or_else, ◌>>=◌, ◌>>◌, pure, lift,
}
use lyth_mcp.Amount.{Text, codes}
use lyth_mcp.Quantity.{to_quantity}
use lyth_mcp.LowValue.{LowValuePolicy, AccountingSummary, truthy, assert_low_value_allowed}
use lyth_mcp.Wallet.{
  Protection, passphrase, local_machine_key, WalletRecord, Vault, Call, Op, decrypt_secret, hot_key,
  wallet_key_protection, get_wallet,
}
use lyth_mcp.Wallet.Ops.{of_policy, export_mnemonic, record_low_value_spend}
use lyth_mcp.Wallet.Summary.{WalletSummary, summarize_wallet}

pub data Mode : Type 0 where
  by_passphrase by_local_machine_key low_value : Mode

-- `NativeEvmTxFields`
pub record Tx : Type 0 where
  pub chain_id : ℕ
  pub nonce : ℕ
  pub max_priority_fee_per_gas : ℕ
  pub max_fee_per_gas : ℕ
  pub gas_limit : ℕ
  pub to : Text
  pub value : ℕ
  pub input : Text

-- What the SDK makes of a key and a transaction.
pub record SignedTx : Type 0 where
  pub inner_tx_hash_hex : Text
  pub signed_inner_tx_hex : Text
  pub inner_sighash_hex : Text
  pub inner_wire_bytes : ℕ
  pub signed_tx_wire_hex : Text

pub record TransferArgs : Type 0 where
  pub wallet_name : String
  pub to : Text
  pub amount_units : ℕ
  pub chain_id : ℕ
  pub nonce : ℕ
  pub gas_limit : ℕ
  pub max_fee_per_gas : ℕ
  pub max_priority_fee_per_gas : ℕ
  pub input : Option Text
  pub given : Option Text
  pub sign : Option Bool
  pub allow_low_value_signing : Option Bool
  pub allow_local_key_signing : Option Bool

-- The parameters of `eth_sendTransaction`.
pub record WalletRequest : Type 0 where
  pub from : Text
  pub to : Text
  pub value : Text
  pub call_data : Text
  pub gas : Text
  pub nonce : Text
  pub chain_id : Text
  pub max_fee_per_gas : Text
  pub max_priority_fee_per_gas : Text

pub record BuiltTransfer : Type 0 where
  pub wallet : WalletSummary
  pub tx : Tx
  pub wallet_request : WalletRequest
  pub signed : Option (Mode × SignedTx)
  pub low_value_accounting : Option (Option AccountingSummary)

-- `args.passphrase !== undefined || process.env.LYTH_MCP_WALLET_PASSPHRASE`
abbrev pub passphrase_at_hand : Call → Option Text → Bool
passphrase_at_hand c (some _) = true
passphrase_at_hand c none = elim (truthy c.env_passphrase) [ none ↦ false | some _ ↦ true ]

-- The last resort of `resolveSigningBackend`: the policy, and the hot key.
unfoldable pub low_value_backend :
    Vault → Call → ℕ → Option LowValuePolicy → Op (Option (Mode × Text))
low_value_backend v c units none = pure none
low_value_backend v c units (some p) =
    if p.enabled
    then (do
      lift (of_policy (assert_low_value_allowed p units c.today))
      key ← hot_key c
      mnemonic ← lift (decrypt_secret v p.encrypted_mnemonic key)
      pure (some (low_value, mnemonic)))
    else pure none

-- `unlockBackend` for a mode.
unfoldable pub unlock_backend :
    Vault → Call → String → Option Text → Mode → Op (Option (Mode × Text))
unlock_backend v c n given mode = do m ← export_mnemonic v c n given; pure (some (mode, m))

-- The choice by the wallet's protection; `other` is what is left to a policy.
unfoldable pub backend_by :
    Protection
    → Vault
    → Call
    → String
    → Option Text
    → (allow_local_key : Bool) → (other : Op (Option (Mode × Text))) → Op (Option (Mode × Text))
backend_by passphrase v c n given allow_local_key other =
    if passphrase_at_hand c given then unlock_backend v c n given by_passphrase else other
backend_by local_machine_key v c n given allow_local_key other =
    if allow_local_key then unlock_backend v c n none by_local_machine_key else other

unfoldable pub resolve_signing_backend :
    Vault
    → Call
    → (wallet_name : String) → ℕ
    → Option Text
    → (allow_low_value allow_local_key : Bool) → Op (Option (Mode × Text))
resolve_signing_backend v c n units given allow_low_value allow_local_key = do
  r ← get_wallet n
  backend_by (wallet_key_protection r) v c n given allow_local_key
      (if allow_low_value then low_value_backend v c units r.low_value else pure none)

abbrev pub tx_of : TransferArgs → Tx
tx_of a = record {
  chain_id = a.chain_id;
  nonce = a.nonce;
  max_priority_fee_per_gas = a.max_priority_fee_per_gas;
  max_fee_per_gas = a.max_fee_per_gas;
  gas_limit = a.gas_limit;
  to = a.to;
  value = a.amount_units;
  input = or_else a.input (codes "0x");
}

abbrev pub request_of : TransferArgs → Text → WalletRequest
request_of a from = record {
  from = from;
  to = a.to;
  value = to_quantity a.amount_units;
  call_data = or_else a.input (codes "0x");
  gas = to_quantity a.gas_limit;
  nonce = to_quantity a.nonce;
  chain_id = to_quantity a.chain_id;
  max_fee_per_gas = to_quantity a.max_fee_per_gas;
  max_priority_fee_per_gas = to_quantity a.max_priority_fee_per_gas;
}

-- Only a low-value signature is booked.
unfoldable pub book_signature : Call → Mode → String → ℕ → Op (Option (Option AccountingSummary))
book_signature c low_value n units = do a ← record_low_value_spend c n units; pure (some a)
book_signature c _ n units = pure none

unfoldable pub sign_and_book :
    Call
    → (Text → Tx → SignedTx)
    → TransferArgs
    → WalletRecord
    → WalletSummary
    → Option (Mode × Text)
    → Op BuiltTransfer
sign_and_book c sign_tx a r summary none = pure (record {
  wallet = summary;
  tx = tx_of a;
  wallet_request = request_of a r.address;
  signed = none;
  low_value_accounting = none;
})
sign_and_book c sign_tx a r summary (some (mode, mnemonic)) = do
  accounting ← book_signature c mode a.wallet_name a.amount_units
  pure (record {
    wallet = summary;
    tx = tx_of a;
    wallet_request = request_of a r.address;
    signed = some (mode, sign_tx mnemonic (tx_of a));
    low_value_accounting = accounting;
  })

unfoldable pub choose_signer : Vault → Call → TransferArgs → Op (Option (Mode × Text))
choose_signer v c a =
    if or_else a.sign true
    then resolve_signing_backend v c a.wallet_name a.amount_units a.given
        (or_else a.allow_low_value_signing true) (or_else a.allow_local_key_signing false)
    else pure none

unfoldable pub sign_with :
    Vault
    → (check book : Call) → (Text → Tx → SignedTx)
    → TransferArgs
    → WalletRecord
    → WalletSummary
    → Op BuiltTransfer
sign_with v check book sign_tx a r summary = do
  signer ← choose_signer v check a
  sign_and_book book sign_tx a r summary signer

unfoldable pub summarize_and_sign :
    Vault
    → (check book : Call) → (Text → Tx → SignedTx)
    → TransferArgs
    → WalletRecord
    → Op BuiltTransfer
summarize_and_sign v check book sign_tx a r = do
  summary ← lift (summarize_wallet r check.today)
  sign_with v check book sign_tx a r summary

unfoldable pub build_transfer :
    Vault → (check book : Call) → (Text → Tx → SignedTx) → TransferArgs → Op BuiltTransfer
build_transfer v check book sign_tx a = do
  r ← get_wallet a.wallet_name
  summarize_and_sign v check book sign_tx a r
