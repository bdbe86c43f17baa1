-- ===== src/Wallet/Lookup.antt =====
-- What the lookups and the unlocking find after a wallet was added or deleted.
use lyth_mcp.Prelude.{
  String, ◌≡◌, refl, ◌∙◌, inl, inr, false, not, none, some, List, [], ◌∷◌, ◌++◌, map, arith,
  if◌then◌else◌, str_eq, eq_iff, find, any, keep, Result, ok, err, of_option, ◌>>=◌, Bool-cases,
  Result-cases,
}
use lyth_mcp.Files.{read_file}
use lyth_mcp.Files.Records.{find-without}
use lyth_mcp.Wallet.{
  WalletRecord, WalletError, unsupported_store, not_found, World, named, get_wallet, read_wallets,
  write_wallets,
}
use lyth_mcp.Wallet.Ops.{place, delete_wallet}

abbrev find_in : String → List WalletRecord → Result WalletError WalletRecord
find_in n rs = of_option not_found (find (named n) rs)

-- What `getWallet` gives for the list that the file is read as.
pub get_wallet_of :
    (n : String) (w : World) (rs : List WalletRecord)
    → read_file unsupported_store w.wallets ≡ ok rs
    → get_wallet n w ≡ (find_in n rs, w)
unfolding get_wallet read_wallets ◌>>=◌
get_wallet_of n w rs e = rw e refl

-- A deletion found the name confirmed, read a list, and left it without the name.
delete_wallet-inv :
    (n confirm : String) (w w' : World)
    → delete_wallet n confirm w ≡ (ok tt, w')
    → (rs : List WalletRecord) × (n ≡ confirm)
      × (read_file unsupported_store w.wallets ≡ ok rs)
      × (read_file unsupported_store w'.wallets ≡ ok (keep (λ r. not (named n r)) rs))
unfolding delete_wallet read_wallets write_wallets ◌>>=◌
delete_wallet-inv n confirm w w' e = elim (Result-cases (read_file unsupported_store w.wallets)) [
  | inl (rs, r) ↦ (rs, ground (arith, eq_iff n confirm), r, ground (arith, eq_iff n confirm))
  | inr (x, r) ↦ absurd (ground (arith, eq_iff n confirm))
]

-- After a deletion the wallet is not found, and every other lookup gives what it gave before.
pub get_wallet-delete_wallet :
    (n confirm j : String) (w w' : World)
    → delete_wallet n confirm w ≡ (ok tt, w')
    → (get_wallet j w').0 ≡ (if str_eq n j then err not_found else (get_wallet j w).0)
get_wallet-delete_wallet n confirm j w w' e =
    let (rs, same, before, after) = delete_wallet-inv n confirm w w' e in
    rw (get_wallet_of j w rs before, get_wallet_of j w' _ after)
      (ground (arith, find-without (λ (r : WalletRecord). r.name) n j rs))

-- The wallet that was placed is found under its name, and the other lookups are as before.
find-over :
    (r : WalletRecord) (j : String) (rs : List WalletRecord)
    → find (named j) (map (λ w. if named r.name w then r else w) rs) ≡ (
        if str_eq r.name j
        then (if any (named r.name) rs then some r else none)
        else find (named j) rs)
find-over r j [] = ground arith
find-over r j (x ∷ xs) =
    ground (arith, find-over r j xs, eq_iff x.name r.name, eq_iff x.name j, eq_iff r.name j)

find-snoc :
    (r : WalletRecord) (j : String) (rs : List WalletRecord)
    → any (named r.name) rs ≡ false
    → find (named j) (rs ++ r ∷ []) ≡ (if str_eq r.name j then some r else find (named j) rs)
find-snoc r j [] a = ground arith
find-snoc r j (x ∷ xs) a =
    ground (arith, find-snoc r j xs, eq_iff x.name r.name, eq_iff x.name j, eq_iff r.name j)

pub find-place :
    (r : WalletRecord) (j : String) (rs : List WalletRecord)
    → find (named j) (place r rs) ≡ (if str_eq r.name j then some r else find (named j) rs)
unfolding place
find-place r j rs = elim (Bool-cases (any (named r.name) rs)) [
  | inl old ↦ rw old (find-over r j rs ∙ rw old refl)
  | inr new ↦ rw new (find-snoc r j rs new)
]
