-- ===== src/Wallet/Signing.antt =====
-- How `buildTransfer` of src/wallet.ts signs, and what it books.
use lyth_mcp.Prelude.{
  ok-injective, String, ◌≡◌, ◌≢◌, refl, sym, ap, ◌∙◌, true, Option, none, some, arith,
  if◌then◌else◌, str_eq, Result, ok, ◌>>=◌, pure, lift, >>=-eq-ok,
}
use lyth_mcp.Amount.{Text}
use lyth_mcp.LowValue.{LowValuePolicy, AccountingSummary, assert_low_value_allowed, record_spend}
use lyth_mcp.Wallet.{WalletRecord, WalletError, Vault, Call, World, get_wallet, read_wallets}
use lyth_mcp.Wallet.Ops.{record_low_value_spend}
use lyth_mcp.Wallet.Booking.{returned, left_at, change_policy-inv}
use lyth_mcp.Wallet.Summary.{WalletSummary}
use lyth_mcp.Wallet.Transfer.{
  Mode, by_passphrase, by_local_machine_key, low_value, Tx, SignedTx, TransferArgs, BuiltTransfer,
  book_signature, sign_and_book, choose_signer, sign_with, summarize_and_sign, build_transfer,
  tx_of,
}
use lyth_mcp.Wallet.Choosing.{By, choose_signer-WalletsAre, choose_signer-Allowed}

get_wallet-same : (n : String) (w u : World) (r : WalletRecord) → get_wallet n w ≡ (ok r, u) → u ≡ w
unfolding get_wallet read_wallets ◌>>=◌
get_wallet-same n w u r e = sym (ground arith)

lift-same :
    {A : Type 0} (r : Result WalletError A) (w t : World) (a : A) → lift r w ≡ (ok a, t) → w ≡ t
unfolding lift
lift-same r w t a e = left_at e

summarize_and_sign-inv :
    (v : Vault) (check book : Call) (sign_tx : Text → Tx → SignedTx) (a : TransferArgs)
    (r : WalletRecord) (w : World) (b : BuiltTransfer) (w' : World)
    → summarize_and_sign v check book sign_tx a r w ≡ (ok b, w')
    → (summary : WalletSummary) × (sign_with v check book sign_tx a r summary w ≡ (ok b, w'))
unfolding summarize_and_sign
summarize_and_sign-inv v check book sign_tx a r w b w' e =
    let (summary, s, summarized, rest) = >>=-eq-ok (lift _) _ w b w' e in
    (
      summary,
      ap (sign_with v check book sign_tx a r summary) (lift-same _ w s summary summarized) ∙ rest,
    )

build_transfer-inv :
    (v : Vault) (check book : Call) (sign_tx : Text → Tx → SignedTx) (a : TransferArgs) (w : World)
    (b : BuiltTransfer) (w' : World)
    → build_transfer v check book sign_tx a w ≡ (ok b, w')
    → (r : WalletRecord) × (get_wallet a.wallet_name w ≡ (ok r, w))
      × (summarize_and_sign v check book sign_tx a r w ≡ (ok b, w'))
unfolding build_transfer
build_transfer-inv v check book sign_tx a w b w' e =
    let (r, u, found, rest) = >>=-eq-ok (get_wallet a.wallet_name) _ w b w' e in
    let same = get_wallet-same a.wallet_name w u r found in
    (
      r,
      found ∙ ap (λ (x : World). (ok r, x)) same,
      ap (summarize_and_sign v check book sign_tx a r) (sym same) ∙ rest,
    )

sign_with-inv :
    (v : Vault) (check book : Call) (sign_tx : Text → Tx → SignedTx) (a : TransferArgs)
    (r : WalletRecord) (summary : WalletSummary) (w : World) (b : BuiltTransfer) (w' : World)
    → sign_with v check book sign_tx a r summary w ≡ (ok b, w')
    → (o : Option (Mode × Text)) × (t : World) × (choose_signer v check a w ≡ (ok o, t))
      × (sign_and_book book sign_tx a r summary o t ≡ (ok b, w'))
unfolding sign_with
sign_with-inv v check book sign_tx a r summary w b w' e =
    >>=-eq-ok (choose_signer v check a) _ w b w' e

pure-same :
    {A : Type 0} (x : A) (u : World) (y : A) (t : World)
    → pure {E = WalletError} x u ≡ (ok y, t)
    → u ≡ t
unfolding pure
pure-same x u y t e = left_at e

-- A booked signature: the backend was a policy's, and the booking returned.
sign_and_book-low_value :
    (book : Call) (sign_tx : Text → Tx → SignedTx) (a : TransferArgs) (r : WalletRecord)
    (summary : WalletSummary) (o : Option (Mode × Text)) (t : World) (b : BuiltTransfer)
    (w' : World) (s : SignedTx)
    → sign_and_book book sign_tx a r summary o t ≡ (ok b, w')
    → b.signed ≡ some (low_value, s)
    → (m : Text) × (x : Option AccountingSummary) × (o ≡ By m)
      × (record_low_value_spend book a.wallet_name a.amount_units t ≡ (ok x, w'))
unfolding sign_and_book book_signature ◌>>=◌
sign_and_book-low_value book sign_tx a r summary none t b w' s e signed = absurd (ground arith)
sign_and_book-low_value book sign_tx a r summary (some (by_passphrase, m)) t b w' s e signed =
    absurd (ground arith)
sign_and_book-low_value book sign_tx a r summary (some (by_local_machine_key, m)) t b w' s e
      signed =
    absurd (ground arith)
sign_and_book-low_value book sign_tx a r summary (some (low_value, m)) t b w' s e signed =
    let (x, u, booked, rest) =
      >>=-eq-ok (book_signature book low_value a.wallet_name a.amount_units) _ t b w' e in
    let (y, u', recorded, rest') =
      >>=-eq-ok (record_low_value_spend book a.wallet_name a.amount_units) _ t x u booked in
    (
      m,
      y,
      refl,
      recorded
          ∙ ap (λ (q : World). (ok y, q))
              (pure-same (some y) u' x u rest' ∙ pure-same _ u b w' rest),
    )

-- The world matters to a lookup by its wallets alone.
get_wallet-wallets :
    (n : String) (t w : World) → t.wallets ≡ w.wallets → (get_wallet n t).0 ≡ (get_wallet n w).0
unfolding get_wallet read_wallets ◌>>=◌
get_wallet-wallets n t w same = ground (arith, same)

-- A transfer that comes back signed in low-value mode was allowed by the enabled policy of its wallet on
-- the day of the check; afterwards the wallet has the policy that `recordLowValueSpend` made for the
-- amount, and every other wallet is found as before.
pub build_transfer-low_value :
    (v : Vault) (check book : Call) (sign_tx : Text → Tx → SignedTx) (a : TransferArgs) (w : World)
    (b : BuiltTransfer) (w' : World) (s : SignedTx)
    → build_transfer v check book sign_tx a w ≡ (ok b, w')
    → b.signed ≡ some (low_value, s)
    → (r : WalletRecord) × (p q : LowValuePolicy) × (get_wallet a.wallet_name w ≡ (ok r, w))
      × (r.low_value ≡ some p)
      × (p.enabled ≡ true)
      × (assert_low_value_allowed p a.amount_units check.today ≡ ok tt)
      × (record_spend p a.amount_units book.today ≡ ok q)
      × ((j : String)
          → (get_wallet j w').0 ≡ (
              if str_eq a.wallet_name j
              then ok (record r { low_value = some q })
              else (get_wallet j w).0))
unfolding record_low_value_spend
build_transfer-low_value v check book sign_tx a w b w' s e signed =
    let (r, found, rest) = build_transfer-inv v check book sign_tx a w b w' e in
    let (summary, rest2) = summarize_and_sign-inv v check book sign_tx a r w b w' rest in
    let (o, t, chosen, rest3) = sign_with-inv v check book sign_tx a r summary w b w' rest2 in
    let (m, x, by, booked) =
      sign_and_book-low_value book sign_tx a r summary o t b w' s rest3 signed in
    let allowed =
      choose_signer-Allowed v check a w t m r found
        (chosen ∙ ap (λ (z : Option (Mode × Text)). (ok z, t)) by) in
    let same : t.wallets ≡ w.wallets =
      ap (λ (z : Result WalletError (Option (Mode × Text)) × World). z.1.wallets) (sym chosen)
      ∙ ((choose_signer-WalletsAre w.wallets v check a).at w refl).0 in
    let (q, spent, after) =
      change_policy-inv book a.wallet_name _ t x w' r allowed.policy
        (get_wallet-wallets a.wallet_name t w same ∙ returned found) allowed.stands booked in
    (
      r,
      allowed.policy,
      q,
      found,
      allowed.stands,
      allowed.is_enabled,
      allowed.passed,
      spent,
      λ j.
          after j
          ∙ ap (λ z. if str_eq a.wallet_name j then ok (record r { low_value = some q }) else z)
              (get_wallet-wallets j t w same),
    )

sign_and_book-other :
    (book : Call) (sign_tx : Text → Tx → SignedTx) (a : TransferArgs) (r : WalletRecord)
    (summary : WalletSummary) (o : Option (Mode × Text)) (t : World) (b : BuiltTransfer)
    (w' : World)
    → sign_and_book book sign_tx a r summary o t ≡ (ok b, w')
    → ((s : SignedTx) → b.signed ≢ some (low_value, s))
    → w' ≡ t
unfolding sign_and_book book_signature ◌>>=◌
sign_and_book-other book sign_tx a r summary none t b w' e other = sym (left_at e)
sign_and_book-other book sign_tx a r summary (some (by_passphrase, m)) t b w' e other =
    sym (left_at e)
sign_and_book-other book sign_tx a r summary (some (by_local_machine_key, m)) t b w' e other =
    sym (left_at e)
sign_and_book-other book sign_tx a r summary (some (low_value, m)) t b w' e other =
    let (x, u, booked, rest) =
      >>=-eq-ok (book_signature book low_value a.wallet_name a.amount_units) _ t b w' e in
    absurd (
      other (sign_tx m (tx_of a))
        (sym (ap (λ (z : BuiltTransfer). z.signed) (ok-injective (returned rest)))))

-- A transfer that is left unsigned, or that a passphrase or the local key signs, changes nothing in
-- the wallets' file.
pub build_transfer-other :
    (v : Vault) (check book : Call) (sign_tx : Text → Tx → SignedTx) (a : TransferArgs) (w : World)
    (b : BuiltTransfer) (w' : World)
    → build_transfer v check book sign_tx a w ≡ (ok b, w')
    → ((s : SignedTx) → b.signed ≢ some (low_value, s))
    → w'.wallets ≡ w.wallets
build_transfer-other v check book sign_tx a w b w' e other =
    let (r, found, rest) = build_transfer-inv v check book sign_tx a w b w' e in
    let (summary, rest2) = summarize_and_sign-inv v check book sign_tx a r w b w' rest in
    let (o, t, chosen, rest3) = sign_with-inv v check book sign_tx a r summary w b w' rest2 in
    ap (λ (z : World). z.wallets)
      (sign_and_book-other book sign_tx a r summary o t b w' rest3 other)
    ∙ ap (λ (z : Result WalletError (Option (Mode × Text)) × World). z.1.wallets) (sym chosen)
    ∙ ((choose_signer-WalletsAre w.wallets v check a).at w refl).0
