-- ===== src/Wallet/Ops.antt =====
-- The operations of src/wallet.ts on the store, in the order in which they read, check and write.
use lyth_mcp.Prelude.{
  ℕ, String, Bool, true, false, not, ◌&&◌, Option, none, some, List, [], ◌∷◌, ◌++◌, map,
  if◌then◌else◌, or_else, str_eq, find, any, put_first, keep, Result, ok, err, then_result, ◌>>=◌,
  ◌>>◌, pure, raise, lift, of_option, ◌==◌, length,
}
use lyth_mcp.Amount.{Text}
use lyth_mcp.Files.{StoreFile, missing}
use lyth_mcp.LowValue.{
  LowValuePolicy, PolicyError, Bucket, units_of, truthy, check_caps, fresh_policy, record_spend,
  move_between, AccountingSummary, summarize_accounting,
}
use lyth_mcp.Wallet.{
  Protection, Fallback, AgentMetadata, WalletRecord, WalletError, World, no_such_file,
  already_exists, not_found, confirm_mismatch, max_amount_required, invalid_mnemonic, policy, Vault,
  Call, Op, encrypt_secret, decrypt_secret, hot_key, read_wallets, write_wallets,
  resolve_new_wallet_key, resolve_wallet_key, named, get_wallet,
}

-- A result of the policy's functions among the errors of the store.
abbrev pub of_policy : {A : Type 0} → Result PolicyError A → Result WalletError A
of_policy (ok a) = ok a
of_policy (err e) = err (policy e)

-- The caps that a caller asks for.
pub record LowValueArgs : Type 0 where
  pub enabled : Bool
  pub max_amount : Text
  pub daily_limit : Option Text

pub record CreateArgs : Type 0 where
  pub name : String
  pub given : Option Text
  pub overwrite : Bool
  pub allow_local_key : Bool
  pub low_value : Option LowValueArgs
  pub agent : Option AgentMetadata

unfoldable pub create_policy : Vault → Call → Text → Text → Option Text → Op LowValuePolicy
create_policy v c mnemonic max_amount daily_limit = do
  lift (of_policy (check_caps max_amount daily_limit))
  key ← hot_key c
  pure (
      fresh_policy max_amount daily_limit c.today c.now
        (encrypt_secret v mnemonic key c.policy_salt c.policy_iv))

-- `if (args.lowValue?.enabled)`
unfoldable pub asked_policy : Vault → Call → Text → Option LowValueArgs → Op (Option LowValuePolicy)
asked_policy v c mnemonic none = pure none
asked_policy v c mnemonic (some a) =
    if a.enabled
    then (do p ← create_policy v c mnemonic a.max_amount a.daily_limit; pure (some p))
    else pure none

abbrev pub stamped : Call → Option AgentMetadata → Option AgentMetadata
stamped c none = none
stamped c (some a) = some (record a { updated_at = c.now })

-- A write over every wallet of the name if there is one, and at the end of the store if there is
-- none.
unfoldable pub place : WalletRecord → List WalletRecord → List WalletRecord
place r records =
    if any (named r.name) records
    then map (λ w. if named r.name w then r else w) records
    else records ++ r ∷ []

abbrev pub exists : Option WalletRecord → Bool
exists none = false
exists (some _) = true

-- `createWallet` and `importWallet` from the key on, then from the read on, and whole; they differ
-- in where the mnemonic and the address come from.
unfoldable pub insert_wallet :
    Vault
    → Call
    → CreateArgs
    → (mnemonic address : Text) → Protection × Text
    → List WalletRecord
    → Op WalletRecord
insert_wallet v c args mnemonic address protected records = do
  low_value ← asked_policy v c mnemonic args.low_value
  let r : WalletRecord = record {
    name = args.name;
    address = address;
    public_key = v.backend_public_key mnemonic;
    key_protection = some protected.0;
    created_at = c.now;
    encrypted_mnemonic = encrypt_secret v mnemonic protected.1 c.mnemonic_salt c.mnemonic_iv;
    low_value = low_value;
    agent = stamped c args.agent;
  }
  write_wallets (place r records)
  pure r

unfoldable pub add_with_key :
    Vault → Call → CreateArgs → (mnemonic address : Text) → Protection × Text → Op WalletRecord
add_with_key v c args mnemonic address protected = do
  records ← read_wallets
  if exists (find (named args.name) records) && not args.overwrite
      then raise already_exists
      else insert_wallet v c args mnemonic address protected records

unfoldable pub add_wallet :
    Vault → Call → CreateArgs → Text → (address : Result WalletError Text) → Op WalletRecord
add_wallet v c args mnemonic address = do
  protected ← resolve_new_wallet_key c args.given args.allow_local_key
  a ← lift address
  add_with_key v c args mnemonic a protected

-- `createWallet`, from the mnemonic that `generateMnemonic()` gives.
unfoldable pub create_wallet : Vault → Call → CreateArgs → Text → Op WalletRecord
create_wallet v c args mnemonic = add_wallet v c args mnemonic (ok (v.backend_address mnemonic))

unfoldable pub import_wallet : Vault → Call → CreateArgs → Text → Op WalletRecord
import_wallet v c args mnemonic =
    add_wallet v c args mnemonic (of_option invalid_mnemonic (v.mnemonic_address mnemonic))

unfoldable pub export_mnemonic : Vault → Call → String → Option Text → Op Text
export_mnemonic v c n given = do
  r ← get_wallet n
  key ← resolve_wallet_key c r given
  lift (decrypt_secret v r.encrypted_mnemonic key)

-- `if (!args.maxAmount)`
abbrev required : Option Text → Result WalletError Text
required o = of_option max_amount_required (truthy o)

unfoldable pub configure_low_value_policy :
    Vault → Call → String → Option Text → Bool → Option Text → Option Text → Op WalletRecord
configure_low_value_policy v c n given enabled max_amount daily_limit = do
  records ← read_wallets
  r ← lift (of_option not_found (find (named n) records))
  if enabled
      then (do
        most ← lift (required max_amount)
        key ← resolve_wallet_key c r given
        mnemonic ← lift (decrypt_secret v r.encrypted_mnemonic key)
        p ← create_policy v c mnemonic most daily_limit
        let next : WalletRecord = record r { low_value = some p }
        write_wallets (put_first (named n) next records)
        pure next)
      else (do
        let next : WalletRecord = record r { low_value = none }
        write_wallets (put_first (named n) next records)
        pure next)

-- A patch says nothing of a field, or gives it, perhaps as undefined.
pub record AgentPatch : Type 0 where
  pub purpose : Option (Option String)
  pub network : Option (Option String)
  pub max_balance : Option (Option Text)
  pub allowed_counterparties : Option (Option (List String))
  pub allowed_categories : Option (Option (List String))
  pub expires_at : Option (Option String)
  pub fallback_approval : Option (Option Fallback)
  pub paused : Option (Option Bool)

abbrev no_agent : AgentMetadata
no_agent = record {
  purpose = none;
  network = none;
  max_balance = none;
  allowed_counterparties = none;
  allowed_categories = none;
  expires_at = none;
  fallback_approval = none;
  paused = none;
  updated_at = "";
}

abbrev patched : AgentMetadata → AgentPatch → String → AgentMetadata
patched a patch now = record {
  purpose = or_else patch.purpose a.purpose;
  network = or_else patch.network a.network;
  max_balance = or_else patch.max_balance a.max_balance;
  allowed_counterparties = or_else patch.allowed_counterparties a.allowed_counterparties;
  allowed_categories = or_else patch.allowed_categories a.allowed_categories;
  expires_at = or_else patch.expires_at a.expires_at;
  fallback_approval = or_else patch.fallback_approval a.fallback_approval;
  paused = or_else patch.paused a.paused;
  updated_at = now;
}

-- The part of `summarizeWallet` that may throw.
abbrev pub accounting_of :
    Option LowValuePolicy → String → Result PolicyError (Option AccountingSummary)
accounting_of none today = ok none
accounting_of (some p) today = then_result (summarize_accounting p today) λ a. ok (some a)

-- The record stands for its summary, which is made after the write.
unfoldable pub update_agent_wallet_metadata : Call → String → AgentPatch → Op WalletRecord
update_agent_wallet_metadata c n patch = do
  records ← read_wallets
  r ← lift (of_option not_found (find (named n) records))
  let next : WalletRecord = record r {
    agent = some (patched (or_else r.agent no_agent) patch c.now);
  }
  write_wallets (put_first (named n) next records)
  _ ← lift (of_policy (accounting_of next.low_value c.today))
  pure next

unfoldable pub delete_wallet : String → String → Op (Unit {0})
delete_wallet n confirm_name =
    if str_eq n confirm_name
    then (do
      records ← read_wallets
      let next = keep (λ w. not (named n w)) records
      if length next == length records then raise not_found else write_wallets next)
    else raise confirm_mismatch

-- `removeWalletStoreForTestsOnly` on the wallets' file.
unfoldable pub remove_wallet_store_for_tests_only : Op (Unit {0})
remove_wallet_store_for_tests_only w = unlink w.wallets
  where
    unlink : StoreFile WalletRecord → Result WalletError (Unit {0}) × World
    unlink missing = (err no_such_file, w)
    unlink _ = (ok tt, record w { wallets = missing })

-- A new policy for the first wallet of the name, and its summary once it is written.
unfoldable pub write_policy :
    Call
    → String
    → List WalletRecord
    → WalletRecord
    → LowValuePolicy
    → Op (Option AccountingSummary)
write_policy c n records r q = do
  write_wallets (put_first (named n) (record r { low_value = some q }) records)
  summary ← lift (of_policy (summarize_accounting q c.today))
  pure (some summary)

-- `record?.lowValue`
abbrev pub with_policy :
    WalletRecord → Option LowValuePolicy → Option (WalletRecord × LowValuePolicy)
with_policy r none = none
with_policy r (some p) = some (r, p)

abbrev pub policy_of : Option WalletRecord → Option (WalletRecord × LowValuePolicy)
policy_of none = none
policy_of (some r) = with_policy r r.low_value

unfoldable pub change_found :
    Call
    → String
    → (LowValuePolicy → Result PolicyError LowValuePolicy)
    → List WalletRecord
    → Option (WalletRecord × LowValuePolicy)
    → Op (Option AccountingSummary)
change_found c n f records none = pure none
change_found c n f records (some (r, p)) = do
  q ← lift (of_policy (f p))
  write_policy c n records r q

-- The read, the change `f` of the policy, and the write; nothing where there is no policy.
unfoldable pub change_policy :
    Call
    → String
    → (LowValuePolicy → Result PolicyError LowValuePolicy)
    → Op (Option AccountingSummary)
change_policy c n f = do
  records ← read_wallets
  change_found c n f records (policy_of (find (named n) records))

unfoldable pub record_low_value_spend : Call → String → ℕ → Op (Option AccountingSummary)
record_low_value_spend c n units = change_policy c n (λ p. record_spend p units c.today)

unfoldable pub move_low_value_accounting :
    Call → String → Text → Bucket → Bucket → Op (Option AccountingSummary)
move_low_value_accounting c n amount from to = do
  units ← lift (of_policy (units_of amount))
  change_policy c n (λ p. move_between p units from to c.today)
