-- ===== src/Wallet/Sealing.antt =====
-- `encryptSecret` and `decryptSecret`, src/wallet.ts.
use lyth_mcp.Prelude.{◌≡◌, ok}
use lyth_mcp.Amount.{Text}
use lyth_mcp.Wallet.{Vault, VaultLaws, encrypt_secret, decrypt_secret}

module _ (v : Vault) (laws : VaultLaws v) where
  -- What `encryptSecret` seals, `decryptSecret` opens with the same passphrase, whatever salt and
  -- vector were drawn, if the vault's laws hold.
  pub decrypt_secret-encrypt_secret :
      (secret pass salt iv : Text)
      → decrypt_secret v (encrypt_secret v secret pass salt iv) pass ≡ ok secret
  unfolding decrypt_secret encrypt_secret
  decrypt_secret-encrypt_secret secret pass salt iv = simp (laws.from_to_base64, laws.unseal_seal)
