-- ===== src/Wallet/Choosing.antt =====
-- The key that `buildTransfer` of src/wallet.ts chooses to sign with.
use mathlib.Core.Path.{subst}
use lyth_mcp.Prelude.{
  ok-injective, ℕ, String, ◌≡◌, ◌≢◌, refl, sym, ap, ◌∙◌, inl, inr, ◌⊎◌, Bool, true, false, Option,
  none, some, arith, if◌then◌else◌, or_else, Result, ok, err, ◌>>=◌, pure, lift, >>=-eq-ok, Keeps,
  Keeps-of, Keeps-bind, Keeps-pure, Keeps-if, keeps_rules,
}
use lyth_mcp.Amount.{Text}
use lyth_mcp.Files.{StoreFile}
use lyth_mcp.LowValue.{LowValuePolicy, PolicyError, assert_low_value_allowed}
use lyth_mcp.Wallet.{
  Protection, passphrase, local_machine_key, WalletRecord, WalletError, Vault, Call, World, Op,
  hot_key, local_key, get_wallet, read_wallets, resolve_wallet_key,
}
use lyth_mcp.Wallet.Ops.{of_policy, export_mnemonic}
use lyth_mcp.Wallet.Booking.{returned}
use lyth_mcp.Wallet.Transfer.{
  Mode, by_passphrase, by_local_machine_key, low_value, TransferArgs, low_value_backend,
  unlock_backend, backend_by, resolve_signing_backend, choose_signer, passphrase_at_hand,
}

-- The wallets' file is as it was.
module _ (f : StoreFile WalletRecord) where
  abbrev pub WalletsAre : World → Type 0
  WalletsAre w = w.wallets ≡ f

  get_wallet-WalletsAre : (n : String) → Keeps WalletsAre (get_wallet n)
  unfolding get_wallet read_wallets ◌>>=◌
  get_wallet-WalletsAre n = Keeps-of _ (λ w h. ground arith)

  resolve_wallet_key-WalletsAre :
      (c : Call) (r : WalletRecord) (given : Option Text)
      → Keeps WalletsAre (resolve_wallet_key c r given)
  unfolding resolve_wallet_key local_key lift
  resolve_wallet_key-WalletsAre c r given = Keeps-of _ (λ w h. ground arith)

  hot_key-WalletsAre : (c : Call) → Keeps WalletsAre (hot_key c)
  unfolding hot_key
  hot_key-WalletsAre c = Keeps-of _ (λ w h. h)

  unlock_backend-WalletsAre :
      (v : Vault) (c : Call) (n : String) (given : Option Text) (mode : Mode)
      → Keeps WalletsAre (unlock_backend v c n given mode)
  unfolding unlock_backend export_mnemonic
  unlock_backend-WalletsAre v c n given mode =
      search (keeps_rules, get_wallet-WalletsAre, resolve_wallet_key-WalletsAre)

  low_value_backend-WalletsAre :
      (v : Vault) (c : Call) (units : ℕ) (o : Option LowValuePolicy)
      → Keeps WalletsAre (low_value_backend v c units o)
  unfolding low_value_backend
  low_value_backend-WalletsAre v c units none = search keeps_rules
  low_value_backend-WalletsAre v c units (some p) = search (keeps_rules, hot_key-WalletsAre)

  backend_by-WalletsAre :
      (p : Protection) (v : Vault) (c : Call) (n : String) (given : Option Text) (allow : Bool)
      (other : Op (Option (Mode × Text)))
      → Keeps WalletsAre other
      → Keeps WalletsAre (backend_by p v c n given allow other)
  unfolding backend_by
  backend_by-WalletsAre passphrase v c n given allow other h =
      Keeps-if _ _ _ (unlock_backend-WalletsAre v c n given _) h
  backend_by-WalletsAre local_machine_key v c n given allow other h =
      Keeps-if _ _ _ (unlock_backend-WalletsAre v c n none _) h

  pub choose_signer-WalletsAre :
      (v : Vault) (c : Call) (a : TransferArgs) → Keeps WalletsAre (choose_signer v c a)
  unfolding choose_signer resolve_signing_backend
  choose_signer-WalletsAre v c a =
      Keeps-if _ _ _
        (Keeps-bind _ _ (get_wallet-WalletsAre a.wallet_name) λ r.
          backend_by-WalletsAre _ v c a.wallet_name a.given _ _ (
            Keeps-if _ _ _ (low_value_backend-WalletsAre v c a.amount_units r.low_value)
              (Keeps-pure _)))
        (Keeps-pure _)

-- A backend that a policy gave.
abbrev pub By : Text → Option (Mode × Text)
By m = some (low_value, m)

either-inv :
    {A : Type 0} (b : Bool) (m n : Op A) (w : World) (x : Result WalletError A × World)
    → (if b then m else n) w ≡ x
    → ((b ≡ true) × (m w ≡ x)) ⊎ ((b ≡ false) × (n w ≡ x))
either-inv true m n w x e = inl (refl, e)
either-inv false m n w x e = inr (refl, e)

none-ne-By :
    (w t : World) (m : Text)
    → pure {E = WalletError} {A = Option (Mode × Text)} none w ≢ (ok (By m), t)
unfolding pure
none-ne-By w t m e = cc

unlock_backend-mode :
    (v : Vault) (c : Call) (n : String) (given : Option Text) (mode : Mode) (w t : World) (m : Text)
    → unlock_backend v c n given mode w ≡ (ok (By m), t)
    → mode ≡ low_value
unfolding unlock_backend pure
unlock_backend-mode v c n given mode w t m e =
    let (key, u, exported, rest) = >>=-eq-ok (export_mnemonic v c n given) _ w _ t e in ground arith

-- What a low-value backend rests on.
pub record Allowed (c : Call) (units : ℕ) (o : Option LowValuePolicy) : Type 0 where
  pub policy : LowValuePolicy
  pub stands : o ≡ some policy
  pub is_enabled : policy.enabled ≡ true
  pub passed : assert_low_value_allowed policy units c.today ≡ ok tt

of_policy-ok : (r : Result PolicyError (Unit {0})) (u : Unit {0}) → of_policy r ≡ ok u → r ≡ ok tt
of_policy-ok (ok x) u e = refl
of_policy-ok (err x) u e = cc

lifted :
    {A : Type 0} (r : Result WalletError A) (w : World) (a : A) (t : World)
    → lift r w ≡ (ok a, t)
    → r ≡ ok a
unfolding lift
lifted r w a t e = ap (λ (q : Result WalletError _ × World). q.0) e

low_value_backend-Allowed :
    (v : Vault) (c : Call) (units : ℕ) (o : Option LowValuePolicy) (w t : World) (m : Text)
    → low_value_backend v c units o w ≡ (ok (By m), t)
    → Allowed c units o
unfolding low_value_backend
low_value_backend-Allowed v c units none w t m e = absurd (none-ne-By w t m e)
low_value_backend-Allowed v c units (some p) w t m e =
    elim (either-inv p.enabled _ (pure none) w _ e) [
      | inr (off, rest) ↦ absurd (none-ne-By w t m rest)
      | inl (on, rest) ↦
          let (u, s, checked, after) =
            >>=-eq-ok (lift (of_policy (assert_low_value_allowed p units c.today))) _ w _ t rest in
          record {
            policy = p;
            stands = refl;
            is_enabled = on;
            passed = of_policy-ok _ u (lifted _ w u s checked);
          }
    ]

by_passphrase-ne : by_passphrase ≢ low_value
by_passphrase-ne e = cc

by_local-ne : by_local_machine_key ≢ low_value
by_local-ne e = cc

backend_by-low_value :
    (p : Protection) (v : Vault) (c : Call) (n : String) (given : Option Text) (allow : Bool)
    (other : Op (Option (Mode × Text))) (w t : World) (m : Text)
    → backend_by p v c n given allow other w ≡ (ok (By m), t)
    → other w ≡ (ok (By m), t)
unfolding backend_by
backend_by-low_value passphrase v c n given allow other w t m e =
    elim (either-inv (passphrase_at_hand c given) _ other w _ e) [
      | inl (_, unlocked) ↦
          absurd (by_passphrase-ne (unlock_backend-mode v c n given by_passphrase w t m unlocked))
      | inr (_, rest) ↦ rest
    ]
backend_by-low_value local_machine_key v c n given allow other w t m e =
    elim (either-inv allow _ other w _ e) [
      | inl (_, unlocked) ↦
          absurd (by_local-ne (unlock_backend-mode v c n none by_local_machine_key w t m unlocked))
      | inr (_, rest) ↦ rest
    ]

-- Of a low-value backend: the wallet's policy is enabled and allows the amount on that day.
pub choose_signer-Allowed :
    (v : Vault) (c : Call) (a : TransferArgs) (w t : World) (m : Text) (r : WalletRecord)
    → get_wallet a.wallet_name w ≡ (ok r, w)
    → choose_signer v c a w ≡ (ok (By m), t)
    → Allowed c a.amount_units r.low_value
unfolding choose_signer resolve_signing_backend
choose_signer-Allowed v c a w t m r found e =
    elim (either-inv (or_else a.sign true) _ (pure none) w _ e) [
      | inr (_, rest) ↦ absurd (none-ne-By w t m rest)
      | inl (_, resolved) ↦
          let (r', u, found', rest) = >>=-eq-ok (get_wallet a.wallet_name) _ w _ t resolved in
          let other = backend_by-low_value _ v c a.wallet_name a.given _ _ u t m rest in
          elim (either-inv (or_else a.allow_low_value_signing true) _ (pure none) u _ other) [
            | inr (_, last) ↦ absurd (none-ne-By u t m last)
            | inl (_, last) ↦
                subst (λ (x : WalletRecord). Allowed c a.amount_units x.low_value)
                  (ok-injective (sym (returned found') ∙ returned found))
                  (low_value_backend-Allowed v c a.amount_units r'.low_value u t m last)
          ]
    ]
