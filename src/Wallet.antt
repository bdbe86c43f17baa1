-- ===== src/Wallet.antt =====
-- The local wallets, src/wallet.ts: their records, the keys that lock them, and the operations on the
-- store. Cryptography (node:crypto, @monolythium/core-sdk) is the parameter `Vault`. The clock, the
-- environment and the random bytes that a call draws are its `Call`; texts are UTF-16 code units.
pub mod Ops
pub mod Summary
pub mod Transfer
pub mod Sealing
pub mod Names
pub mod Lookup
pub mod Unlock
pub mod Booking
pub mod Choosing
pub mod Signing
mod Tests
use lyth_mcp.Prelude.{
  ◌+◌, String, Bool, Option, none, some, List, [], ◌∷◌, ◌++◌, ltb, if◌then◌else◌, or_else, or_maybe,
  str_eq, length, find, Result, ok, err, ◌≡◌, Exec, continue, ◌>>=◌, ◌>>◌, pure, raise, lift,
  of_option,
}
use lyth_mcp.Amount.{Text, trim}
use lyth_mcp.Files.{StoreFile, stored, read_file}
use lyth_mcp.LowValue.{EncryptedPayload, KdfParams, LowValuePolicy, PolicyError, truthy}

pub data Protection : Type 0 where
  passphrase local_machine_key : Protection

pub data Fallback : Type 0 where
  ask_passphrase wallet_handoff deny : Fallback

-- `AgentWalletMetadata`
pub record AgentMetadata : Type 0 where
  pub purpose : Option String
  pub network : Option String
  pub max_balance : Option Text
  pub allowed_counterparties : Option (List String)
  pub allowed_categories : Option (List String)
  pub expires_at : Option String
  pub fallback_approval : Option Fallback
  pub paused : Option Bool
  pub updated_at : String

pub record WalletRecord : Type 0 where
  pub name : String
  pub address : Text
  pub public_key : Text
  pub key_protection : Option Protection
  pub created_at : String
  pub encrypted_mnemonic : EncryptedPayload
  pub low_value : Option LowValuePolicy
  pub agent : Option AgentMetadata

pub data WalletError : Type 0 where
  unsupported_store already_exists not_found confirm_mismatch no_such_file : WalletError
  passphrase_missing passphrase_short max_amount_required decryption_failed : WalletError
  invalid_mnemonic : WalletError
  policy : PolicyError → WalletError

-- What the program calls of node:crypto and of the SDK. `unseal` gives nothing where the tag is not
-- that of the text, and `mnemonic_address` where the mnemonic is refused.
pub record Vault : Type 0 where
  pub scrypt : Text → Text → KdfParams → Text
  pub seal : (key iv secret : Text) → Text × Text
  pub unseal : (key iv tag ciphertext : Text) → Option Text
  pub to_base64 : Text → Text
  pub from_base64 : Text → Text
  pub backend_address : Text → Text
  pub mnemonic_address : Text → Option Text
  pub backend_public_key : Text → Text

-- Authenticated decryption inverts encryption, and base64 can be decoded.
pub record VaultLaws (v : Vault) : Type 0 where
  pub unseal_seal :
      (key iv secret : Text)
      → v.unseal key iv (v.seal key iv secret).1 (v.seal key iv secret).0 ≡ some secret
  pub from_to_base64 : (t : Text) → v.from_base64 (v.to_base64 t) ≡ t

-- What a call takes from outside: the day and the time, LYTH_MCP_WALLET_PASSPHRASE, and fresh bytes.
pub record Call : Type 0 where
  pub today : String
  pub now : String
  pub env_passphrase : Option Text
  pub fresh_hot_key : Text
  pub fresh_local_key : Text
  pub mnemonic_salt : Text
  pub mnemonic_iv : Text
  pub policy_salt : Text
  pub policy_iv : Text

-- The files: the wallets, and the two key files with their raw text.
pub record World : Type 0 where
  pub wallets : StoreFile WalletRecord
  pub hot_key : Option Text
  pub local_key : Option Text

abbrev pub Op : Type 0 → Type 0
Op A = Exec WalletError World A

abbrev pub kdf_params : KdfParams
kdf_params = record { n = 32768; r = 8; p = 1; key_len = 32 }

-- `encryptSecret`, from the salt and the vector that it draws.
unfoldable pub encrypt_secret : Vault → (secret pass salt iv : Text) → EncryptedPayload
encrypt_secret v secret pass salt iv =
    let key = v.scrypt pass salt kdf_params in
    let (ciphertext, tag) = v.seal key iv secret in
    record {
      params = kdf_params;
      salt = v.to_base64 salt;
      iv = v.to_base64 iv;
      tag = v.to_base64 tag;
      ciphertext = v.to_base64 ciphertext;
    }

unfoldable pub decrypt_secret : Vault → EncryptedPayload → Text → Result WalletError Text
decrypt_secret v payload pass =
    let key = v.scrypt pass (v.from_base64 payload.salt) payload.params in
    of_option decryption_failed (
      v.unseal key (v.from_base64 payload.iv) (v.from_base64 payload.tag)
        (v.from_base64 payload.ciphertext))

unfoldable pub resolve_passphrase : Option Text → Option Text → Result WalletError Text
resolve_passphrase given env = elim (truthy (or_maybe given env)) [
  | none ↦ err passphrase_missing
  | some text ↦ if ltb (length text) 12 then err passphrase_short else ok text
]

unfoldable pub wallet_key_protection : WalletRecord → Protection
wallet_key_protection r = or_else r.key_protection passphrase

-- `readOrCreateKey` on the contents of its file: the key, and what the file holds afterwards.
unfoldable pub read_or_create_key : Option Text → Text → Text × Text
read_or_create_key (some raw) fresh = (trim raw, raw)
read_or_create_key none fresh = (fresh, fresh ++ 10 ∷ [])

unfoldable pub hot_key : Call → Op Text
unfolding read_or_create_key
hot_key c w =
    let (key, raw) = read_or_create_key w.hot_key c.fresh_hot_key in
    (ok key, record w { hot_key = some raw })

unfoldable pub local_key : Call → Op Text
unfolding read_or_create_key
local_key c w =
    let (key, raw) = read_or_create_key w.local_key c.fresh_local_key in
    (ok key, record w { local_key = some raw })

unfoldable pub read_wallets : Op (List WalletRecord)
read_wallets w = (read_file unsupported_store w.wallets, w)

unfoldable pub write_wallets : List WalletRecord → Op (Unit {0})
write_wallets records w = (ok tt, record w { wallets = stored records })

unfoldable pub resolve_new_wallet_key : Call → Option Text → Bool → Op (Protection × Text)
resolve_new_wallet_key c given allow_local = elim (truthy (or_maybe given c.env_passphrase)) [
  | some _ ↦ do secret ← lift (resolve_passphrase given c.env_passphrase); pure (passphrase, secret)
  | none ↦
      if allow_local
      then (do key ← local_key c; pure (local_machine_key, key))
      else raise passphrase_missing
]

unfoldable pub resolve_wallet_key : Call → WalletRecord → Option Text → Op Text
resolve_wallet_key c r given = elim (wallet_key_protection r) [
  | local_machine_key ↦ local_key c
  | passphrase ↦ lift (resolve_passphrase given c.env_passphrase)
]

abbrev pub named : String → WalletRecord → Bool
named n r = str_eq r.name n

unfoldable pub get_wallet : String → Op WalletRecord
get_wallet n = do records ← read_wallets; lift (of_option not_found (find (named n) records))
