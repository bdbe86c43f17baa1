-- ===== src/Wallet/Booking.antt =====
-- What the bookings of `recordLowValueSpend` and `moveLowValueAccounting` leave in the store.
use lyth_mcp.Prelude.{
  ok-injective, String, ◌≡◌, sym, ap, ◌∙◌, inl, inr, Bool, true, Option, some, List, [], ◌∷◌, arith,
  if◌then◌else◌, str_eq, find, put_first, any, Result, ok, err, ◌>>=◌, lift, >>=-eq-ok,
  Option-cases, Result-cases,
}
use lyth_mcp.Files.{stored, read_file}
use lyth_mcp.Files.Records.{find-key, find-put_first}
use lyth_mcp.LowValue.{LowValuePolicy, PolicyError, AccountingSummary}
use lyth_mcp.Wallet.{
  WalletRecord, WalletError, unsupported_store, Call, World, get_wallet, named, read_wallets,
  write_wallets,
}
use lyth_mcp.Wallet.Ops.{
  of_policy, change_policy, change_found, policy_of, with_policy, write_policy,
}
use lyth_mcp.Wallet.Lookup.{get_wallet_of}

-- The parts of an equation between what two actions return.
pub returned :
    {A : Type 0} {x y : Result WalletError A} {s t : World}
    → ◌≡◌ {A = Result WalletError A × World} (x, s) (y, t)
    → x ≡ y
returned e = ap (λ (q : Result WalletError _ × World). q.0) e

pub left_at :
    {A : Type 0} {x y : Result WalletError A} {s t : World}
    → ◌≡◌ {A = Result WalletError A × World} (x, s) (y, t)
    → s ≡ t
left_at e = ap (λ (q : Result WalletError _ × World). q.1) e

-- A wallet that is found was read from a list that has it.
pub get_wallet-inv :
    (n : String) (w : World) (r : WalletRecord)
    → (get_wallet n w).0 ≡ ok r
    → (rs : List WalletRecord) × (read_file unsupported_store w.wallets ≡ ok rs)
      × (find (named n) rs ≡ some r)
unfolding get_wallet read_wallets ◌>>=◌
get_wallet-inv n w r e = elim (Result-cases (read_file unsupported_store w.wallets)) [
  | inl (rs, was_read) ↦ (rs, was_read, ground (arith, Option-cases (find (named n) rs)))
  | inr (x, failed) ↦ absurd (ground arith)
]

write_policy-file :
    (c : Call) (n : String) (rs : List WalletRecord) (r : WalletRecord) (q : LowValuePolicy)
    (t : World) (o : Option AccountingSummary) (w' : World)
    → write_policy c n rs r q t ≡ (ok o, w')
    → w'.wallets ≡ stored (put_first (named n) (record r { low_value = some q }) rs)
unfolding write_policy write_wallets ◌>>=◌
write_policy-file c n rs r q t o w' e = ground arith

find-any : {A : Type 0} (t : A → Bool) (xs : List A) (r : A) → find t xs ≡ some r → any t xs ≡ true
find-any t [] r e = cc
find-any t (x ∷ xs) r e = ground (arith, find-any t xs r)

of_policy-eq_ok : {A : Type 0} (r : Result PolicyError A) (a : A) → of_policy r ≡ ok a → r ≡ ok a
of_policy-eq_ok (ok x) a e = ap ok (ok-injective e)
of_policy-eq_ok (err x) a e = cc

change_found-inv :
    (c : Call) (n : String) (f : LowValuePolicy → Result PolicyError LowValuePolicy)
    (rs : List WalletRecord) (r : WalletRecord) (p : LowValuePolicy) (t : World)
    (o : Option AccountingSummary) (w' : World)
    → change_found c n f rs (some (r, p)) t ≡ (ok o, w')
    → (q : LowValuePolicy) × (f p ≡ ok q)
      × (w'.wallets ≡ stored (put_first (named n) (record r { low_value = some q }) rs))
unfolding change_found lift
change_found-inv c n f rs r p t o w' e =
    let (q, u, changed, rest) = >>=-eq-ok (lift (of_policy (f p))) _ t o w' e in
    (q, of_policy-eq_ok (f p) q (returned changed), write_policy-file c n rs r q u o w' rest)

-- What a lookup finds after the record `v` of the name `n` was written over the first one of it.
lookup_after :
    (n j : String) (v : WalletRecord) (rs : List WalletRecord) (r : WalletRecord) (t w' : World)
    → read_file unsupported_store t.wallets ≡ ok rs
    → find (named n) rs ≡ some r
    → v.name ≡ n
    → w'.wallets ≡ stored (put_first (named n) v rs)
    → (get_wallet j w').0 ≡ (if str_eq n j then ok v else (get_wallet j t).0)
lookup_after n j v rs r t w' was_read here same after =
    rw
      (get_wallet_of j w' _ (ap (read_file unsupported_store) after), get_wallet_of j t rs was_read)
      (ground (
        arith,
        find-put_first (λ (x : WalletRecord). x.name) n j v rs same,
        find-any (named n) rs r here,
      ))

read-same :
    (t u : World) (rs rs' : List WalletRecord)
    → read_file unsupported_store t.wallets ≡ ok rs
    → read_wallets t ≡ (ok rs', u)
    → rs' ≡ rs
unfolding read_wallets
read-same t u rs rs' was_read again = ok-injective (sym (returned again) ∙ was_read)

-- A change of a policy that returned: the change `f` gave a policy `q`, the wallet has it, and every
-- other wallet is found as before.
pub change_policy-inv :
    (c : Call) (n : String) (f : LowValuePolicy → Result PolicyError LowValuePolicy) (t : World)
    (o : Option AccountingSummary) (w' : World) (r : WalletRecord) (p : LowValuePolicy)
    → (get_wallet n t).0 ≡ ok r
    → r.low_value ≡ some p
    → change_policy c n f t ≡ (ok o, w')
    → (q : LowValuePolicy) × (f p ≡ ok q)
      × ((j : String)
          → (get_wallet j w').0
            ≡ (if str_eq n j then ok (record r { low_value = some q }) else (get_wallet j t).0))
unfolding change_policy
change_policy-inv c n f t o w' r p found stands e =
    let (rs, was_read, here) = get_wallet-inv n t r found in
    let (rs', u, read_again, rest) = >>=-eq-ok read_wallets _ t o w' e in
    let found_policy : policy_of (find (named n) rs') ≡ some (r, p) =
      ap (λ l. policy_of (find (named n) l)) (read-same t u rs rs' was_read read_again)
      ∙ ap policy_of here
      ∙ ap (with_policy r) stands in
    let (q, changed, after) = change_found-inv c n f rs' r p u o w' (rw found_policy at rest) in
    (
      q,
      changed,
      λ j.
          lookup_after n j (record r { low_value = some q }) rs r t w' was_read here
            (find-key (λ (x : WalletRecord). x.name) n rs r here)
            (after
              ∙ ap (λ l. stored (put_first (named n) (record r { low_value = some q }) l))
                  (read-same t u rs rs' was_read read_again)),
    )
