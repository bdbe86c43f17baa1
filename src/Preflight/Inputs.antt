-- ===== src/Preflight/Inputs.antt =====
-- What `isWireAddress` and the search for a wallet's name in src/index.ts find.
use mathlib.Core.List.{Memᴰ}
use mathlib.Core.List.Memᴰ.{head, tail}
use lyth_mcp.Prelude.{
  ℕ, String, ◌≡◌, refl, Bool, true, false, ◌&&◌, some, List, [], ◌∷◌, All, arith, length, ◌==◌,
  str_eq, eq_iff, find, if◌then◌else◌, Result, ok, err, ok-injective,
}
use lyth_mcp.Amount.{Text}
use lyth_mcp.Quantity.{is_hex_digit}
use lyth_mcp.Wallet.{WalletError}
use lyth_mcp.Wallet.Summary.{WalletSummary}
use lyth_mcp.Preflight.{all_hex_digits, is_wire_address, found_wallet}

-- `0x` and forty hexadecimal digits.
pub record WireAddress (t : Text) : Type 0 where
  pub body : Text
  pub is : t ≡ b'0' ∷ b'x' ∷ body
  pub forty : length body ≡ 40
  pub digits : All (λ c. is_hex_digit c ≡ true) body

both_true : (a b : Bool) → (a && b) ≡ true → (a ≡ true) × (b ≡ true)
both_true a b e = ground arith

all_hex_digits-All : (t : Text) → all_hex_digits t ≡ true → All (λ c. is_hex_digit c ≡ true) t
all_hex_digits-All [] e = tt
all_hex_digits-All (c ∷ t) e =
    let (h, rest) = both_true (is_hex_digit c) (all_hex_digits t) e in
    (h, all_hex_digits-All t rest)

same_number : (m n : ℕ) → (m == n) ≡ true → m ≡ n
same_number m n e = ground arith

pub is_wire_address-WireAddress : (t : Text) → is_wire_address t ≡ true → WireAddress t
unfolding is_wire_address
is_wire_address-WireAddress [] e = absurd (cc)
is_wire_address-WireAddress (z ∷ []) e = absurd (cc)
is_wire_address-WireAddress (z ∷ x ∷ body) e =
    let (abc, d) = both_true _ (all_hex_digits body) e in
    let (ab, c) = both_true _ (length body == 40) abc in
    let (a, b) = both_true (z == b'0') (x == b'x') ab in
    record {
      body = body;
      is = rw (same_number z b'0' a, same_number x b'x' b) refl;
      forty = same_number (length body) 40 c;
      digits = all_hex_digits-All body d;
    }

find-Memᴰ :
    (name : String) (ws : List WalletSummary) (w : WalletSummary)
    → find (λ w. str_eq w.name name) ws ≡ some w
    → Memᴰ w ws × (w.name ≡ name)
find-Memᴰ name [] w e = absurd (cc)
find-Memᴰ name (x ∷ ws) w e = first (str_eq x.name name) refl e (find-Memᴰ name ws w)
  where
    injective : some x ≡ some w → x ≡ w
    injective e = cc

    first :
        (b : Bool)
        → str_eq x.name name ≡ b
        → (if b then some x else find (λ w. str_eq w.name name) ws) ≡ some w
        → (find (λ w. str_eq w.name name) ws ≡ some w → Memᴰ w ws × (w.name ≡ name))
        → Memᴰ w (x ∷ ws) × (w.name ≡ name)
    first true same e later = rw⁻¹ (injective e) (head refl, (eq_iff x.name name).0 same)
    first false other e later = let (m, n) = later e in (tail m, n)

-- A wallet of that name is listed.
pub record Listed (name : String) (wallets : Result WalletError (List WalletSummary)) : Type 0 where
  pub listed : List WalletSummary
  pub wallet : WalletSummary
  pub answered : wallets ≡ ok listed
  pub member : Memᴰ wallet listed
  pub named : wallet.name ≡ name

pub found_wallet-Listed :
    (name : String) (wallets : Result WalletError (List WalletSummary)) (w : WalletSummary)
    → found_wallet name wallets ≡ ok (some w)
    → Listed name wallets
found_wallet-Listed name (err e) w f = absurd (cc)
found_wallet-Listed name (ok ws) w f =
    let (m, n) = find-Memᴰ name ws w (ok-injective f) in
    record { listed = ws; wallet = w; answered = refl; member = m; named = n }
