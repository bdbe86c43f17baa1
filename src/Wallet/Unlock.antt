-- ===== src/Wallet/Unlock.antt =====
-- What `createWallet` and `importWallet` leave in the store, and `exportMnemonic` after them, src/wallet.ts.
use mathlib.Core.Path.{subst}
use lyth_mcp.Prelude.{
  ◌⊎◌, inl, inr, String, ◌≡◌, refl, sym, ap, ◌∙◌, inl, inr, Bool, true, false, not, ◌&&◌, Option,
  none, some, List, arith, if◌then◌else◌, str_eq, eq_iff, ◌⊎◌, find, Result, ok, err, of_option,
  ◌>>=◌, ◌>>◌, pure, raise, Keeps, Keeps-of, keeps_rules, >>=-eq-ok, lift,
}
use lyth_mcp.Amount.{Text, trim}
use lyth_mcp.Amount.Trim.{HasNoSpace, trim-line}
use lyth_mcp.Files.{stored, read_file}
use lyth_mcp.Wallet.{
  WalletRecord, WalletError, unsupported_store, already_exists, not_found, invalid_mnemonic, Op,
  World, named, get_wallet, read_wallets, write_wallets, Vault, VaultLaws, Call, Protection,
  passphrase, local_machine_key, encrypt_secret, decrypt_secret, resolve_new_wallet_key,
  resolve_wallet_key, resolve_passphrase, local_key, hot_key, read_or_create_key,
  wallet_key_protection,
}
use lyth_mcp.Wallet.Ops.{
  exists, CreateArgs, LowValueArgs, place, asked_policy, create_policy, insert_wallet, add_with_key,
  add_wallet, create_wallet, import_wallet, export_mnemonic,
}
use lyth_mcp.Wallet.Lookup.{get_wallet_of, find-place}
use lyth_mcp.Wallet.Sealing.{decrypt_secret-encrypt_secret}

-- The record that a call puts into the store.
pub record Inserted (v : Vault) (c : Call) (args : CreateArgs) (m : Text)
    (protected : Protection × Text) (r : WalletRecord) : Type 0 where
  pub name_is : r.name ≡ args.name
  pub protection_is : r.key_protection ≡ some protected.0
  pub sealed_is :
      r.encrypted_mnemonic ≡ encrypt_secret v m protected.1 c.mnemonic_salt c.mnemonic_iv

-- The text of the local key's file.
module _ (k : Option Text) where
  abbrev LocalKeyIs : World → Type 0
  LocalKeyIs w = w.local_key ≡ k

  hot_key-LocalKeyIs : (c : Call) → Keeps LocalKeyIs (hot_key c)
  unfolding hot_key
  hot_key-LocalKeyIs c = Keeps-of (hot_key c) (λ w h. h)

  create_policy-LocalKeyIs :
      (v : Vault) (c : Call) (m most : Text) (daily : Option Text)
      → Keeps LocalKeyIs (create_policy v c m most daily)
  unfolding create_policy
  create_policy-LocalKeyIs v c m most daily = search (keeps_rules, hot_key-LocalKeyIs)

  asked_policy-LocalKeyIs :
      (v : Vault) (c : Call) (m : Text) (a : Option LowValueArgs)
      → Keeps LocalKeyIs (asked_policy v c m a)
  unfolding asked_policy
  asked_policy-LocalKeyIs v c m none = search keeps_rules
  asked_policy-LocalKeyIs v c m (some a) = search (keeps_rules, create_policy-LocalKeyIs)

written-inv :
    (r0 : WalletRecord) (rs : List WalletRecord) (t : World) (r : WalletRecord) (w' : World)
    → (write_wallets rs >> pure r0) t ≡ (ok r, w')
    → (r0 ≡ r) × (w'.wallets ≡ stored rs) × (w'.local_key ≡ t.local_key)
unfolding write_wallets ◌>>=◌
written-inv r0 rs t r w' e = ground arith

insert_wallet-inv :
    (v : Vault) (c : Call) (args : CreateArgs) (m a : Text) (protected : Protection × Text)
    (rs : List WalletRecord) (w : World) (r : WalletRecord) (w' : World)
    → insert_wallet v c args m a protected rs w ≡ (ok r, w')
    → Inserted v c args m protected r
      × (w'.wallets ≡ stored (place r rs))
      × (w'.local_key ≡ w.local_key)
unfolding insert_wallet
insert_wallet-inv v c args m a protected rs w r w' e =
    let (low, t, asked, rest) = >>=-eq-ok (asked_policy v c m args.low_value) _ w r w' e in
    let (same, after, key) = written-inv _ (place _ rs) t r w' rest in
    let kept = ((asked_policy-LocalKeyIs w.local_key v c m args.low_value).at w refl).0 in
    (
      subst (Inserted v c args m protected) same
          (record { name_is = refl; protection_is = refl; sealed_is = refl }),
      after ∙ ap (λ x. stored (place x rs)) same,
      key ∙ rw asked at kept,
    )

unless-inv :
    {A : Type 0} (b : Bool) (x : WalletError) (m : Op A) (t : World) (r : A) (w' : World)
    → (if b then raise x else m) t ≡ (ok r, w')
    → (b ≡ false) × (m t ≡ (ok r, w'))
unfolding raise
unless-inv true x m t r w' e = absurd (cc)
unless-inv false x m t r w' e = (refl, e)

read-inv :
    (w t : World) (rs : List WalletRecord)
    → read_wallets w ≡ (ok rs, t)
    → (read_file unsupported_store w.wallets ≡ ok rs) × (w ≡ t)
unfolding read_wallets
read-inv w t rs e = (
  ap (λ (p : Result WalletError (List WalletRecord) × World). p.0) e,
  ap (λ (p : Result WalletError (List WalletRecord) × World). p.1) e,
)

-- What a call that returned found, and what it left behind.
pub record Added (v : Vault) (c : Call) (args : CreateArgs) (m : Text)
    (protected : Protection × Text) (r : WalletRecord) (w w' : World) : Type 0 where
  pub before : List WalletRecord
  pub was_read : read_file unsupported_store w.wallets ≡ ok before
  pub allowed : (exists (find (named args.name) before) && not args.overwrite) ≡ false
  pub inserted : Inserted v c args m protected r
  pub after : w'.wallets ≡ stored (place r before)
  pub key_kept : w'.local_key ≡ w.local_key

add_with_key-inv :
    (v : Vault) (c : Call) (args : CreateArgs) (m a : Text) (protected : Protection × Text)
    (w : World) (r : WalletRecord) (w' : World)
    → add_with_key v c args m a protected w ≡ (ok r, w')
    → Added v c args m protected r w w'
unfolding add_with_key
add_with_key-inv v c args m a protected w r w' e =
    let (rs, t, was_read, rest) = >>=-eq-ok read_wallets _ w r w' e in
    let (before, same) = read-inv w t rs was_read in
    let (allowed, insertion) =
      unless-inv (exists (find (named args.name) rs) && not args.overwrite) already_exists _ t r w'
        rest in
    let (inserted, after, key) = insert_wallet-inv v c args m a protected rs t r w' insertion in
    record {
      before = rs;
      was_read = before;
      allowed = allowed;
      inserted = inserted;
      after = after;
      key_kept = key ∙ ap (λ (u : World). u.local_key) (sym same);
    }

resolve_new-wallets :
    (c : Call) (given : Option Text) (allow : Bool) (w : World)
    → (resolve_new_wallet_key c given allow w).1.wallets ≡ w.wallets
unfolding resolve_new_wallet_key local_key ◌>>=◌
resolve_new-wallets c given allow w = ground arith

-- Of a call that returned: the key that it resolved, and what it added.
add_wallet-inv :
    (v : Vault) (c : Call) (args : CreateArgs) (m : Text) (a : Result WalletError Text) (w : World)
    (r : WalletRecord) (w' : World)
    → add_wallet v c args m a w ≡ (ok r, w')
    → (protected : Protection × Text) × (t : World) × (resolve_new_wallet_key c args.given
          args.allow_local_key w
        ≡ (ok protected, t))
      × Added v c args m protected r t w'
unfolding add_wallet lift
add_wallet-inv v c args m a w r w' e =
    let (protected, t, resolved, rest) =
      >>=-eq-ok (resolve_new_wallet_key c args.given args.allow_local_key) _ w r w' e in
    let (address, u, given, rest') = >>=-eq-ok (lift a) _ t r w' rest in
    let same : t ≡ u = ap (λ (p : Result WalletError Text × World). p.1) given in
    (protected, t, resolved, rw same (add_with_key-inv v c args m address protected u r w' rest'))

get_wallet-Added :
    (v : Vault) (c : Call) (args : CreateArgs) (m : Text) (p : Protection × Text) (r : WalletRecord)
    (w w' : World)
    → Added v c args m p r w w'
    → get_wallet args.name w' ≡ (ok r, w')
get_wallet-Added v c args m p r w w' added =
    get_wallet_of args.name w' (place r added.before) (ap (read_file unsupported_store) added.after)
    ∙ ap (λ (o : Option WalletRecord). (of_option not_found o, w')) {y = some r}
        (ground (
          arith,
          find-place r args.name added.before,
          eq_iff r.name args.name,
          added.inserted.name_is,
        ))

-- A resolved key is a passphrase, or what the key file holds.
resolve_new-inv :
    (c : Call) (given : Option Text) (allow : Bool) (w : World) (p : Protection × Text) (t : World)
    → resolve_new_wallet_key c given allow w ≡ (ok p, t)
    → ((p.0 ≡ passphrase) × (resolve_passphrase given c.env_passphrase ≡ ok p.1))
      ⊎ ((p.0 ≡ local_machine_key) × (local_key c w ≡ (ok p.1, t)))
unfolding resolve_new_wallet_key ◌>>=◌
resolve_new-inv c given allow w p t e = ground arith

read_or_create_key-trim :
    (o : Option Text) (fresh : Text)
    → HasNoSpace fresh
    → trim (read_or_create_key o fresh).1 ≡ (read_or_create_key o fresh).0
unfolding read_or_create_key
read_or_create_key-trim none fresh h = trim-line fresh h
read_or_create_key-trim (some raw) fresh h = refl

-- The local key is read again as it was read or made.
local_key-again :
    (c c' : Call) (w t w' : World) (key : Text)
    → HasNoSpace c.fresh_local_key
    → local_key c w ≡ (ok key, t)
    → w'.local_key ≡ t.local_key
    → (local_key c' w').0 ≡ ok key
unfolding local_key
local_key-again c c' w t w' key no_space e same =
    let file_is = same ∙ ap (λ (p : Result WalletError Text × World). p.1.local_key) (sym e) in
    rw file_is (
      ap ok (read_or_create_key-trim w.local_key c.fresh_local_key no_space)
      ∙ ap (λ (p : Result WalletError Text × World). p.0) e)

export-of :
    (v : Vault) (c : Call) (n : String) (given : Option Text) (w : World) (r : WalletRecord)
    (key : Text)
    → get_wallet n w ≡ (ok r, w)
    → (resolve_wallet_key c r given w).0 ≡ ok key
    → (export_mnemonic v c n given w).0 ≡ decrypt_secret v r.encrypted_mnemonic key
unfolding export_mnemonic ◌>>=◌
export-of v c n given w r key found resolved = rw (found, resolved) refl

-- The key that a call resolved is resolved again for the wallet that it put away.
resolve-again :
    (c c' : Call) (given : Option Text) (allow : Bool) (w t w' : World) (p : Protection × Text)
    (r : WalletRecord)
    → HasNoSpace c.fresh_local_key
    → c'.env_passphrase ≡ c.env_passphrase
    → resolve_new_wallet_key c given allow w ≡ (ok p, t)
    → w'.local_key ≡ t.local_key
    → r.key_protection ≡ some p.0
    → (resolve_wallet_key c' r given w').0 ≡ ok p.1
unfolding resolve_wallet_key wallet_key_protection lift
resolve-again c c' given allow w t w' p r no_space env resolved same protection =
    elim (resolve_new-inv c given allow w p t resolved) [
      | inl (by_pass, text) ↦
          rw (protection ∙ ap some by_pass) (ap (resolve_passphrase given) env ∙ text)
      | inr (by_file, key) ↦
          rw (protection ∙ ap some by_file) (local_key-again c c' w t w' p.1 no_space key same)
    ]

module _ (v : Vault) (laws : VaultLaws v) (c c' : Call) (args : CreateArgs) (m : Text)
    (no_space : HasNoSpace c.fresh_local_key) (env : c'.env_passphrase ≡ c.env_passphrase) where
  export-added :
      (a : Result WalletError Text) (w : World) (r : WalletRecord) (w' : World)
      → add_wallet v c args m a w ≡ (ok r, w')
      → (export_mnemonic v c' args.name args.given w').0 ≡ ok m
  export-added a w r w' e =
      let (p, t, resolved, added) = add_wallet-inv v c args m a w r w' e in
      export-of v c' args.name args.given w' r p.1 (get_wallet-Added v c args m p r t w' added) (
        resolve-again c c' args.given args.allow_local_key w t w' p r no_space env resolved
          added.key_kept added.inserted.protection_is)
      ∙ ap (λ s. decrypt_secret v s p.1) added.inserted.sealed_is
      ∙ decrypt_secret-encrypt_secret v laws m p.1 c.mnemonic_salt c.mnemonic_iv

  created-export :
      (w : World) (r : WalletRecord) (w' : World)
      → create_wallet v c args m w ≡ (ok r, w')
      → (export_mnemonic v c' args.name args.given w').0 ≡ ok m
  unfolding create_wallet
  created-export = export-added (ok (v.backend_address m))

  imported-export :
      (w : World) (r : WalletRecord) (w' : World)
      → import_wallet v c args m w ≡ (ok r, w')
      → (export_mnemonic v c' args.name args.given w').0 ≡ ok m
  unfolding import_wallet
  imported-export = export-added (of_option invalid_mnemonic (v.mnemonic_address m))

  -- From a store into which a wallet was created or imported, its mnemonic can be exported with what
  -- was given then, by a passphrase or by the local key, if the vault's laws hold, the environment has
  -- the same passphrase and a fresh local key has no white space.
  pub export_mnemonic-new_wallet :
      (w : World) (r : WalletRecord) (w' : World)
      → (create_wallet v c args m w ≡ (ok r, w')) ⊎ (import_wallet v c args m w ≡ (ok r, w'))
      → (export_mnemonic v c' args.name args.given w').0 ≡ ok m
  export_mnemonic-new_wallet w r w' (inl made) = created-export w r w' made
  export_mnemonic-new_wallet w r w' (inr made) = imported-export w r w' made

-- Without `overwrite` a call returns only if the name was free, and then every other wallet is found
-- as before and the new one under its name.
pub create_wallet-keeps_others :
    (v : Vault) (c : Call) (args : CreateArgs) (m : Text) (w : World) (r : WalletRecord)
    (w' : World) (j : String)
    → args.overwrite ≡ false
    → create_wallet v c args m w ≡ (ok r, w')
    → ((get_wallet args.name w).0 ≡ err not_found)
      × ((get_wallet j w').0 ≡ (if str_eq args.name j then ok r else (get_wallet j w).0))
unfolding create_wallet
create_wallet-keeps_others v c args m w r w' j fresh e =
    let (p, t, resolved, added) = add_wallet-inv v c args m (ok (v.backend_address m)) w r w' e in
    let same : t.wallets ≡ w.wallets =
      sym (ap (λ (q : Result WalletError (Protection × Text) × World). q.1.wallets) resolved)
      ∙ resolve_new-wallets c args.given args.allow_local_key w in
    let before : read_file unsupported_store w.wallets ≡ ok added.before =
      ap (read_file unsupported_store) (sym same) ∙ added.was_read in
    let after : read_file unsupported_store w'.wallets ≡ ok (place r added.before) =
      ap (read_file unsupported_store) added.after in
    (
      ap (λ (q : Result WalletError WalletRecord × World). q.0)
            (get_wallet_of args.name w added.before before)
          ∙ ground (arith, added.allowed),
      rw (get_wallet_of j w added.before before, get_wallet_of j w' (place r added.before) after)
          (ground (arith, find-place r j added.before, added.inserted.name_is)),
    )
