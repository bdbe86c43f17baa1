-- ===== src/Wallet/Tests.antt =====
-- The wallet operations on a small store, with a cipher that keeps the text and a key derivation
-- that keeps the passphrase.
use mathlib.Core.Path.{◌≡◌, refl}
use lyth_mcp.Prelude.{
  inl, ◌^◌, ◌≢◌, String, Bool, true, false, Option, some, none, List, [], ◌∷◌, ok, err, str_eq,
  if◌then◌else◌, ◌>>=◌,
}
use lyth_mcp.Amount.{Text, codes, is_space, decimal_to_units, units_to_decimal}
use lyth_mcp.Amount.Trim.{HasNoSpace}
use lyth_mcp.Files.{stored, missing}
use lyth_mcp.LowValue.{
  LowValuePolicy, AccountingSummary, check_daily, units_of, text_of, reset_day_if_needed,
  locked_units, assert_low_value_allowed, record_spend, summarize_accounting, summarize_today,
  remaining_of, fresh_policy, check_caps,
}
use lyth_mcp.Wallet.{
  local_machine_key, WalletRecord, not_found, Vault, VaultLaws, Call, World, encrypt_secret,
  decrypt_secret, hot_key, local_key, read_or_create_key, resolve_passphrase,
  resolve_new_wallet_key, read_wallets, write_wallets, get_wallet, kdf_params,
  wallet_key_protection,
}
use lyth_mcp.Wallet.Ops.{
  CreateArgs, place, asked_policy, create_policy, insert_wallet, add_with_key, add_wallet,
  create_wallet, import_wallet, export_mnemonic, delete_wallet, record_low_value_spend,
  change_policy, change_found, write_policy,
}
use lyth_mcp.Wallet.Names.{Request, create, delete, spend, serve, WellNamed, serve-WellNamed}
use lyth_mcp.Wallet.Lookup.{get_wallet-delete_wallet}
use lyth_mcp.Wallet.Sealing.{decrypt_secret-encrypt_secret}
use lyth_mcp.Wallet.Unlock.{export_mnemonic-new_wallet, create_wallet-keeps_others}
use lyth_mcp.Wallet.Summary.{WalletSummary, summarize_wallet}
use lyth_mcp.Wallet.Transfer.{
  low_value, Tx, SignedTx, TransferArgs, BuiltTransfer, build_transfer, summarize_and_sign,
  sign_with, choose_signer, resolve_signing_backend, backend_by, low_value_backend, sign_and_book,
  book_signature, tx_of, request_of,
}
use lyth_mcp.Wallet.Signing.{build_transfer-low_value, build_transfer-other}

abbrev vault : Vault
vault = record {
  scrypt = λ pass salt p. pass;
  seal = λ key iv secret. (secret, []);
  unseal = λ key iv tag text. some text;
  to_base64 = λ t. t;
  from_base64 = λ t. t;
  backend_address = λ m. codes "0xa";
  mnemonic_address = λ m. some (codes "0xb");
  backend_public_key = λ m. codes "0xc";
}

vault_laws : VaultLaws vault
vault_laws = record { unseal_seal = λ key iv secret. refl; from_to_base64 = λ t. refl }

abbrev call : Call
call = record {
  today = "2026-01-05";
  now = "2026-01-05T10:00:00.000Z";
  env_passphrase = none;
  fresh_hot_key = codes "hot";
  fresh_local_key = codes "local";
  mnemonic_salt = codes "s1";
  mnemonic_iv = codes "v1";
  policy_salt = codes "s2";
  policy_iv = codes "v2";
}

abbrev args : CreateArgs
args = record {
  name = "agent";
  given = none;
  overwrite = false;
  allow_local_key = true;
  low_value =
      some (record { enabled = true; max_amount = codes "2"; daily_limit = some (codes "5") });
  agent = none;
}

abbrev phrase : Text
phrase = codes "abandon"

abbrev new_world : World
new_world = record { wallets = missing; hot_key = none; local_key = none }

abbrev agent_policy : LowValuePolicy
agent_policy = record {
  enabled = true;
  max_amount = codes "2";
  daily_limit = some (codes "5");
  day = some "2026-01-05";
  spent_today = some (codes "0");
  reserved_today = some (codes "0");
  submitted_today = some (codes "0");
  confirmed_today = some (codes "0");
  failed_today = some (codes "0");
  expired_today = some (codes "0");
  configured_at = "2026-01-05T10:00:00.000Z";
  encrypted_mnemonic = record {
    params = kdf_params;
    salt = codes "s2";
    iv = codes "v2";
    tag = [];
    ciphertext = phrase;
  };
}

abbrev agent_at : Text → WalletRecord
agent_at a = record {
  name = "agent";
  address = a;
  public_key = codes "0xc";
  key_protection = some local_machine_key;
  created_at = "2026-01-05T10:00:00.000Z";
  encrypted_mnemonic = record {
    params = kdf_params;
    salt = codes "s1";
    iv = codes "v1";
    tag = [];
    ciphertext = phrase;
  };
  low_value = some agent_policy;
  agent = none;
}

-- The world after the creation (`0xa`) or the import (`0xb`) of the wallet.
abbrev world_of : Text → World
world_of a = record {
  wallets = stored (agent_at a ∷ []);
  hot_key = some (codes "hot\n");
  local_key = some (codes "local\n");
}

no_space : HasNoSpace (codes "local")
unfolding is_space
no_space = (refl, (refl, (refl, (refl, (refl, tt)))))

created :
    create_wallet vault call args phrase new_world
    ≡ (ok (agent_at (codes "0xa")), world_of (codes "0xa"))
unfolding create_wallet add_wallet resolve_new_wallet_key local_key read_or_create_key add_with_key
    read_wallets insert_wallet asked_policy create_policy check_caps units_of decimal_to_units
    hot_key encrypt_secret fresh_policy place write_wallets ◌>>=◌
created = refl

imported :
    import_wallet vault call args phrase new_world
    ≡ (ok (agent_at (codes "0xb")), world_of (codes "0xb"))
unfolding import_wallet add_wallet resolve_new_wallet_key local_key read_or_create_key add_with_key
    read_wallets insert_wallet asked_policy create_policy check_caps units_of decimal_to_units
    hot_key encrypt_secret fresh_policy place write_wallets ◌>>=◌
imported = refl

export_mnemonic-new_wallet_example :
    (export_mnemonic vault call "agent" none (world_of (codes "0xa"))).0 ≡ ok phrase
export_mnemonic-new_wallet_example =
    export_mnemonic-new_wallet vault vault_laws call call args phrase no_space refl new_world
      (agent_at (codes "0xa")) (world_of (codes "0xa")) (inl created)

create_wallet-keeps_others_example :
    ((get_wallet "agent" new_world).0 ≡ err not_found)
    × ((get_wallet "other" (world_of (codes "0xa"))).0 ≡ (
        if str_eq "agent" "other"
        then ok (agent_at (codes "0xa"))
        else (get_wallet "other" new_world).0))
create_wallet-keeps_others_example =
    create_wallet-keeps_others vault call args phrase new_world (agent_at (codes "0xa"))
      (world_of (codes "0xa")) "other" refl created

decrypt_secret-encrypt_secret_example :
    decrypt_secret vault
      (encrypt_secret vault phrase (codes "long passphrase") (codes "s") (codes "v"))
      (codes "long passphrase")
    ≡ ok phrase
decrypt_secret-encrypt_secret_example =
    decrypt_secret-encrypt_secret vault vault_laws phrase (codes "long passphrase") (codes "s")
      (codes "v")

resolved :
    resolve_passphrase none (some (codes "environment secret")) ≡ ok (codes "environment secret")
unfolding resolve_passphrase
resolved = refl

abbrev emptied : World
emptied = record (world_of (codes "0xa")) { wallets = stored [] }

deleted : delete_wallet "agent" "agent" (world_of (codes "0xa")) ≡ (ok tt, emptied)
unfolding delete_wallet read_wallets write_wallets ◌>>=◌
deleted = refl

get_wallet-delete_wallet_example : (get_wallet "agent" emptied).0 ≡ (
    if str_eq "agent" "agent"
    then err not_found
    else (get_wallet "agent" (world_of (codes "0xa"))).0)
get_wallet-delete_wallet_example =
    get_wallet-delete_wallet "agent" "agent" "agent" (world_of (codes "0xa")) emptied deleted

abbrev session : List Request
session =
    create call args phrase
    ∷ create call args phrase
    ∷ spend call "agent" (10 ^ 18)
    ∷ delete "agent" "agent"
    ∷ []

serve-WellNamed_example : WellNamed (serve vault session new_world)
serve-WellNamed_example = serve-WellNamed vault session new_world tt

abbrev transfer : Option Bool → TransferArgs
transfer sign = record {
  wallet_name = "agent";
  to = codes "0xd";
  amount_units = 10 ^ 18;
  chain_id = 1;
  nonce = 7;
  gas_limit = 21000;
  max_fee_per_gas = 2;
  max_priority_fee_per_gas = 1;
  input = none;
  given = none;
  sign = sign;
  allow_low_value_signing = none;
  allow_local_key_signing = none;
}

abbrev sdk_sign : Text → Tx → SignedTx
sdk_sign m tx = record {
  inner_tx_hash_hex = codes "0x1";
  signed_inner_tx_hex = m;
  inner_sighash_hex = codes "0x2";
  inner_wire_bytes = 3;
  signed_tx_wire_hex = m;
}

abbrev spent : LowValuePolicy
spent = record agent_policy { spent_today = some (codes "1"); reserved_today = some (codes "1") }

abbrev after_signing : World
after_signing = record (world_of (codes "0xa")) {
  wallets = stored (record (agent_at (codes "0xa")) { low_value = some spent } ∷ []);
}

abbrev summary : WalletSummary
summary = record {
  name = "agent";
  address = codes "0xa";
  public_key = codes "0xc";
  key_protection = local_machine_key;
  created_at = "2026-01-05T10:00:00.000Z";
  agent = none;
  low_value = some (record {
    enabled = true;
    max_amount = codes "2";
    daily_limit = some (codes "5");
    day = some "2026-01-05";
    spent_today = some (codes "0");
    reserved_today = some (codes "0");
    submitted_today = some (codes "0");
    confirmed_today = some (codes "0");
    failed_today = some (codes "0");
    expired_today = some (codes "0");
    accounting = record {
      day = "2026-01-05";
      reserved = codes "0";
      submitted = codes "0";
      confirmed = codes "0";
      failed = codes "0";
      expired = codes "0";
      total_locked = codes "0";
      remaining_today = some (codes "5");
    };
    configured_at = "2026-01-05T10:00:00.000Z";
  });
}

abbrev accounting : AccountingSummary
accounting = record {
  day = "2026-01-05";
  reserved = codes "1";
  submitted = codes "0";
  confirmed = codes "0";
  failed = codes "0";
  expired = codes "0";
  total_locked = codes "1";
  remaining_today = some (codes "4");
}

abbrev built : BuiltTransfer
built = record {
  wallet = summary;
  tx = tx_of (transfer none);
  wallet_request = request_of (transfer none) (codes "0xa");
  signed = some (low_value, sdk_sign phrase (tx_of (transfer none)));
  low_value_accounting = some (some accounting);
}

abbrev unsigned : BuiltTransfer
unsigned = record built { signed = none; low_value_accounting = none }

ran :
    build_transfer vault call call sdk_sign (transfer none) (world_of (codes "0xa"))
    ≡ (ok built, after_signing)
unfolding build_transfer summarize_and_sign sign_with choose_signer resolve_signing_backend
    backend_by low_value_backend sign_and_book book_signature get_wallet read_wallets write_wallets
    hot_key read_or_create_key decrypt_secret record_low_value_spend change_policy change_found
    write_policy record_spend reset_day_if_needed assert_low_value_allowed locked_units check_daily
    units_of decimal_to_units text_of units_to_decimal summarize_accounting summarize_today
    remaining_of summarize_wallet wallet_key_protection ◌>>=◌
ran = refl

ran_unsigned :
    build_transfer vault call call sdk_sign (transfer (some false)) (world_of (codes "0xa"))
    ≡ (ok unsigned, world_of (codes "0xa"))
unfolding build_transfer summarize_and_sign sign_with choose_signer sign_and_book get_wallet
    read_wallets units_of decimal_to_units text_of units_to_decimal summarize_accounting
    summarize_today remaining_of summarize_wallet ◌>>=◌
ran_unsigned = refl

build_transfer-low_value_example :
    (r : WalletRecord) × (p q : LowValuePolicy) × (get_wallet "agent" (world_of (codes "0xa"))
      ≡ (ok r, world_of (codes "0xa")))
    × (r.low_value ≡ some p)
    × (p.enabled ≡ true)
    × (assert_low_value_allowed p (10 ^ 18) "2026-01-05" ≡ ok tt)
    × (record_spend p (10 ^ 18) "2026-01-05" ≡ ok q)
    × ((j : String)
        → (get_wallet j after_signing).0 ≡ (
            if str_eq "agent" j
            then ok (record r { low_value = some q })
            else (get_wallet j (world_of (codes "0xa"))).0))
build_transfer-low_value_example =
    build_transfer-low_value vault call call sdk_sign (transfer none) (world_of (codes "0xa")) built
      after_signing (sdk_sign phrase (tx_of (transfer none))) ran refl

is_unsigned : (s : SignedTx) → unsigned.signed ≢ some (low_value, s)
is_unsigned s e = cc

build_transfer-other_example : (world_of (codes "0xa")).wallets ≡ (world_of (codes "0xa")).wallets
build_transfer-other_example =
    build_transfer-other vault call call sdk_sign (transfer (some false)) (world_of (codes "0xa"))
      unsigned (world_of (codes "0xa")) ran_unsigned is_unsigned
