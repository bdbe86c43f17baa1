-- ===== src/Preflight/Covered.antt =====
-- What stands behind a report of `preflightTransfer` of src/index.ts without violations.
use lyth_mcp.Prelude.{
  ℕ, ◌≤◌, String, ◌≡◌, refl, ap, ◌∙◌, Bool, true, false, not, ◌&&◌, Option, none, some, List, [],
  ◌∷◌, ◌+◌, ◌*◌, ◌++◌, arith, ltb, ◌==◌, Result, ok, err, then_result, of_option, ok-injective,
}
use lyth_mcp.Amount.{Text}
use lyth_mcp.Quantity.{parse_quantity}
use lyth_mcp.Wallet.{WalletError}
use lyth_mcp.Wallet.Summary.{WalletSummary}
use lyth_mcp.Preflight.Inputs.{
  WireAddress, is_wire_address-WireAddress, Listed, found_wallet-Listed,
}
use lyth_mcp.Preflight.{
  Health, Violation, bad_quantity, PreflightError, PreflightReport, PreflightArgs, Answers, Checked,
  violates, both, and_then, parsed_quantity, low_nonce, high_nonce, warns, is_wire_address,
  check_endpoint, check_chain, required_balance, check_balance, compare_nonce, check_nonce,
  check_wallet, found_wallet, preflight_transfer,
}

pub append-nil : {A : Type 0} (xs ys : List A) → xs ++ ys ≡ [] → (xs ≡ []) × (ys ≡ [])
append-nil [] ys e = (refl, e)
append-nil (x ∷ xs) ys e = absurd (cc)

pub violates-nil : (b : Bool) (v : Violation) → (violates b v).violations ≡ [] → b ≡ false
violates-nil true v e = absurd (cc)
violates-nil false v e = refl

-- A check that found no violation.
abbrev pub Passes : Checked → Type 0
Passes r = (p : PreflightReport) × (r ≡ ok p) × (p.violations ≡ [])

pub and_then-Passes : (r s : Checked) → Passes (and_then r s) → Passes r × Passes s
and_then-Passes (err x) s (p, e, none_left) = absurd (cc)
and_then-Passes (ok q) (err x) (p, e, none_left) = absurd (cc)
and_then-Passes (ok q) (ok t) (p, e, none_left) =
    let (a, b) = append-nil q.violations t.violations (nil_of (both q t) p e none_left) in
    ((q, refl, a), (t, refl, b))
  where
    nil_of :
        (x p : PreflightReport)
        → ◌≡◌ {A = Checked} (ok x) (ok p)
        → p.violations ≡ []
        → x.violations ≡ []
    nil_of x p e n = ap PreflightReport.violations (ok-injective e) ∙ n

pub then_result-Passes :
    {A : Type 0} (r : Result PreflightError A) (f : A → Checked)
    → Passes (then_result r f)
    → (a : A) × (r ≡ ok a) × Passes (f a)
then_result-Passes (ok a) f p = (a, refl, p)
then_result-Passes (err x) f (p, e, none_left) = absurd (cc)

pub ok-Passes : (q : PreflightReport) → Passes (ok q) → q.violations ≡ []
ok-Passes q (p, e, none_left) = ap PreflightReport.violations (ok-injective e) ∙ none_left

parsed_quantity-inv :
    (text : Text) (n : ℕ) → parsed_quantity text ≡ ok n → parse_quantity text ≡ some n
parsed_quantity-inv text n e = parsed (parse_quantity text) e
  where
    parsed : (o : Option ℕ) → of_option bad_quantity o ≡ ok n → o ≡ some n
    parsed none e = absurd (cc)
    parsed (some m) e = ap some (ok-injective e)

-- The endpoint is well, of the right chain and, for a signature, ready for writes, the recipient a wire
-- address, the balance covers the amount
-- and the ceiling of the fee, the nonce was not used, and the wallet is there.
pub record Covered (chain : ℕ) (a : PreflightArgs) (h : Health) (answers : Answers)
    (wallets : Result WalletError (List WalletSummary)) : Type 0 where
  pub healthy : h.works ≡ true
  pub writable : a.sign ≡ true → h.write_ready ≡ true
  pub addressed : WireAddress a.to
  pub chain_text : Text
  pub chain_answered : answers.chain_id ≡ some chain_text
  pub chain_right : parse_quantity chain_text ≡ some chain
  pub balance_text : Text
  pub balance : ℕ
  pub balance_answered : answers.balance ≡ some balance_text
  pub balance_reads : parse_quantity balance_text ≡ some balance
  pub covers : a.amount_units + a.gas_limit * a.max_fee_per_gas ≤ balance
  pub nonce_text : Text
  pub live : ℕ
  pub nonce_answered : answers.nonce ≡ some nonce_text
  pub nonce_reads : parse_quantity nonce_text ≡ some live
  pub nonce_unused : (n : ℕ) → a.nonce ≡ some n → live ≤ n
  pub wallet_listed : Listed a.wallet_name wallets

unnegated : (b : Bool) → not b ≡ false → b ≡ true
unnegated true e = refl
unnegated false e = absurd (cc)

endpoint-inv :
    (a : PreflightArgs) (h : Health)
    → (check_endpoint a h).violations ≡ []
    → (h.works ≡ true) × (a.sign ≡ true → h.write_ready ≡ true) × WireAddress a.to
unfolding check_endpoint
endpoint-inv a h e =
    let (one, rest) = append-nil _ _ e in
    let (two, three) = append-nil _ _ rest in
    (
      unnegated h.works (violates-nil (not h.works) _ one),
      ready a.sign h.write_ready (violates-nil (a.sign && not h.write_ready) _ two),
      is_wire_address-WireAddress a.to
          (unnegated (is_wire_address a.to) (violates-nil (not (is_wire_address a.to)) _ three)),
    )
  where
    ready : (b c : Bool) → (b && not c) ≡ false → b ≡ true → c ≡ true
    ready b c e s = ground arith

same_number : (m n : ℕ) → (m == n) ≡ true → m ≡ n
same_number m n e = ground arith

not_below : (m n : ℕ) → ltb m n ≡ false → n ≤ m
not_below m n e = ground arith

chain-inv :
    (chain : ℕ) (o : Option Text)
    → Passes (check_chain chain o)
    → (text : Text) × (o ≡ some text) × (parse_quantity text ≡ some chain)
unfolding check_chain
chain-inv chain none p = let e = ok-Passes _ p in absurd (cc)
chain-inv chain (some text) p =
    let (live, r, q) = then_result-Passes (parsed_quantity text) _ p in
    let same =
      same_number live chain
        (unnegated (live == chain) (violates-nil (not (live == chain)) _ (ok-Passes _ q))) in
    (text, refl, parsed_quantity-inv text live r ∙ ap some same)

balance-inv :
    (a : PreflightArgs) (o : Option Text)
    → Passes (check_balance a o)
    → (text : Text) × (balance : ℕ) × (o ≡ some text)
      × (parse_quantity text ≡ some balance)
      × (required_balance a ≤ balance)
unfolding check_balance
balance-inv a none p = let e = ok-Passes _ p in absurd (cc)
balance-inv a (some text) p =
    let (balance, r, q) = then_result-Passes (parsed_quantity text) _ p in
    (
      text,
      balance,
      refl,
      parsed_quantity-inv text balance r,
      not_below balance (required_balance a)
          (violates-nil (ltb balance (required_balance a)) _ (ok-Passes _ q)),
    )

nonce-inv :
    (a : PreflightArgs) (o : Option Text)
    → Passes (check_nonce a o)
    → (text : Text) × (live : ℕ) × (o ≡ some text)
      × (parse_quantity text ≡ some live)
      × ((n : ℕ) → a.nonce ≡ some n → live ≤ n)
unfolding check_nonce
nonce-inv a none p = let e = ok-Passes _ p in absurd (cc)
nonce-inv a (some text) p =
    let (live, r, q) = then_result-Passes (parsed_quantity text) _ p in
    (
      text,
      live,
      refl,
      parsed_quantity-inv text live r,
      λ n e. unused a.nonce live n e (ok-Passes _ q),
    )
  where
    unused :
        (o : Option ℕ) (live n : ℕ) → o ≡ some n → (compare_nonce o live).violations ≡ [] → live ≤ n
    unused none live n e k = absurd (cc)
    unused (some m) live n e k =
        let (below, _) =
          append-nil (violates (ltb m live) low_nonce).violations
            (warns (ltb live m) high_nonce).violations k in
        rw⁻¹ (injective e) (not_below m live (violates-nil (ltb m live) low_nonce below))
      where
        injective : some m ≡ some n → m ≡ n
        injective e = cc

pub wallet-inv :
    (past : String → Bool) (a : PreflightArgs) (balance : Option Text) (o : Option WalletSummary)
    → Passes (check_wallet past a balance o)
    → (w : WalletSummary) × (o ≡ some w)
unfolding check_wallet
wallet-inv past a balance none p = let e = ok-Passes _ p in absurd (cc)
wallet-inv past a balance (some w) p = (w, refl)

-- If `preflightTransfer` returns without violations, the endpoint is healthy, answered for the right
-- chain and, where the transfer is to be signed, is ready for writes; the recipient is `0x` and forty
-- hexadecimal digits; the balance that was answered is at least the amount and the limit of gas times
-- the highest fee; a given nonce is not below the live one; and a wallet of that name was listed.
pub preflight_transfer-Covered :
    (chain : ℕ) (past : String → Bool) (a : PreflightArgs) (h : Health) (answers : Answers)
    (wallets : Result WalletError (List WalletSummary)) (p : PreflightReport)
    → preflight_transfer chain past a h answers wallets ≡ ok p
    → p.violations ≡ []
    → Covered chain a h answers wallets
unfolding preflight_transfer
preflight_transfer-Covered chain past a h answers wallets p e none_left =
    let (p1, r1) = and_then-Passes _ _ (p, e, none_left) in
    let (p2, r2) = and_then-Passes _ _ r1 in
    let (p3, r3) = and_then-Passes _ _ r2 in
    let (p4, p5) = and_then-Passes _ _ r3 in
    let (healthy, writable, addressed) = endpoint-inv a h (ok-Passes (check_endpoint a h) p1) in
    let (tc, ac, rc) = chain-inv chain answers.chain_id p2 in
    let (tb, b, ab, rb, covers) = balance-inv a answers.balance p3 in
    let (tn, live, an, rn, unused) = nonce-inv a answers.nonce p4 in
    let (o, found, pw) = then_result-Passes (found_wallet a.wallet_name wallets) _ p5 in
    let (w, there) = wallet-inv past a answers.balance o pw in
    record {
      healthy = healthy;
      writable = writable;
      addressed = addressed;
      chain_text = tc;
      chain_answered = ac;
      chain_right = rc;
      balance_text = tb;
      balance = b;
      balance_answered = ab;
      balance_reads = rb;
      covers = covers;
      nonce_text = tn;
      live = live;
      nonce_answered = an;
      nonce_reads = rn;
      nonce_unused = unused;
      wallet_listed = found_wallet-Listed a.wallet_name wallets w (found ∙ ap ok there);
    }
