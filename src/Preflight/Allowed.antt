-- ===== src/Preflight/Allowed.antt =====
-- `preflightTransfer` of src/index.ts beside `assertLowValueAllowed` of src/wallet.ts.
use lyth_mcp.Prelude.{
  ℕ, ◌-◌, ◌≤◌, ◌<◌, inl, inr, String, ◌≡◌, refl, sym, ap, ◌∙◌, Bool, true, false, Option, none,
  some, List, [], ltb, if◌then◌else◌, Result, ok, ok-injective,
}
use lyth_mcp.Amount.{Text}
use lyth_mcp.LowValue.{
  LowValuePolicy, AccountingSummary, units_of, truthy, summarize_accounting,
  assert_low_value_allowed,
}
use lyth_mcp.LowValue.Ledger.{Ledger, locked, Reads}
use lyth_mcp.LowValue.Limit.{MayHaveCaps, assert-without_limit, assert_low_value_allowed_iff}
use lyth_mcp.Wallet.{WalletError}
use lyth_mcp.Wallet.Summary.{LowValueSummary, WalletSummary}
use lyth_mcp.Safety.Agreement.{remaining-Reads, truthy-text, bounded, within_daily}
use lyth_mcp.Preflight.{
  Health, PreflightReport, PreflightArgs, Answers, Violation, over_cap, over_remaining, amount_of,
  over_bound, check_agent, check_low_value, uses_low_value, check_wallet, found_wallet,
  preflight_transfer, clean, and_then, warns, low_value_off, check_endpoint, check_chain,
  check_balance, check_nonce,
}
use lyth_mcp.Preflight.Covered.{
  Passes, and_then-Passes, then_result-Passes, ok-Passes, violates-nil,
}

bound-inv :
    (o : Option Text) (text : Text) (most amount : ℕ) (v : Violation)
    → o ≡ some text
    → units_of text ≡ ok most
    → Passes (over_bound o amount v)
    → ltb most amount ≡ false
bound-inv none text most amount v e r p = absurd (cc)
bound-inv (some t) text most amount v e r p =
    let (bound, s, q) = then_result-Passes (amount_of t) _ p in
    let same : ok most ≡ ok bound = sym (ap_units r) ∙ ap amount_of (sym (injective e)) ∙ s in
    rw (ok-injective same) (violates-nil (ltb bound amount) v (ok-Passes _ q))
  where
    injective : some t ≡ some text → t ≡ text
    injective e = cc

    ap_units : units_of text ≡ ok most → amount_of text ≡ ok most
    ap_units r = rw (amount_of, r) refl

-- The check of the policy in a report without violations.
low_value-Passes :
    (past : String → Bool) (a : PreflightArgs) (balance : Option Text) (w : WalletSummary)
    → uses_low_value a ≡ true
    → Passes (check_wallet past a balance (some w))
    → Passes (check_low_value a.amount_units w.low_value)
unfolding check_wallet
low_value-Passes past a balance w uses p =
    chosen (uses_low_value a) uses (and_then-Passes (check_agent past a balance w.agent) _ p).1
  where
    chosen :
        (b : Bool)
        → b ≡ true
        → Passes (if b then check_low_value a.amount_units w.low_value else ok clean)
        → Passes (check_low_value a.amount_units w.low_value)
    chosen true e p = p
    chosen false e p = absurd (cc)

module _ (pol : LowValuePolicy) (today : String) (l : Ledger) (most daily n : ℕ)
    (s : LowValueSummary) (reads : Reads pol today l) (on : s.enabled ≡ true)
    (same_max : s.max_amount ≡ pol.max_amount)
    (summarized : summarize_accounting pol today ≡ ok s.accounting) (some_amount : 0 < n) where
  enabled-Passes :
      Passes (check_low_value n (some s))
      → Passes (over_bound (truthy (some s.max_amount)) n over_cap)
        × Passes (over_bound (truthy s.accounting.remaining_today) n over_remaining)
  enabled-Passes p =
      and_then-Passes (over_bound (truthy (some s.max_amount)) n over_cap)
        (over_bound (truthy s.accounting.remaining_today) n over_remaining) (enabled s.enabled on p)
    where
      enabled :
          (b : Bool)
          → b ≡ true
          → Passes (
              if b
              then and_then
                  (over_bound (truthy (some s.max_amount)) n over_cap)
                  (over_bound (truthy s.accounting.remaining_today) n over_remaining)
              else ok (warns true low_value_off))
          → Passes (
              and_then
                (over_bound (truthy (some s.max_amount)) n over_cap)
                (over_bound (truthy s.accounting.remaining_today) n over_remaining))
      enabled true e p = p
      enabled false e p = absurd (cc)

  below :
      units_of pol.max_amount ≡ ok most
      → Passes (over_bound (truthy (some s.max_amount)) n over_cap)
      → n ≤ most
  below reads p =
      let max_reads : units_of s.max_amount ≡ ok most = ap units_of same_max ∙ reads in
      bounded most n (
        bound-inv _ s.max_amount most n over_cap (truthy-text s.max_amount most max_reads) max_reads
          p)

  within_caps :
      MayHaveCaps pol most daily
      → Passes (check_low_value n (some s))
      → assert_low_value_allowed pol n today ≡ ok tt
  within_caps (inr (max_reads, unlimited)) p =
      (assert-without_limit pol today most n max_reads unlimited).1
        (below max_reads (enabled-Passes p).0)
  within_caps (inl caps) p =
      let (a, t, summary, left, t_reads) = remaining-Reads pol today l reads most daily caps in
      let left_here : s.accounting.remaining_today ≡ some t =
        ap (λ (x : AccountingSummary). x.remaining_today) (ok-injective (sym summarized ∙ summary))
        ∙ left in
      let (p1, p2) = enabled-Passes p in
      let remains =
        bound-inv _ t (daily - locked l) n over_remaining
          (ap truthy left_here ∙ truthy-text t (daily - locked l) t_reads) t_reads p2 in
      (assert_low_value_allowed_iff pol today l most daily n caps reads).1
        (below caps.max_reads p1, within_daily (locked l) daily n some_amount remains)

-- The last check.
wallet_checked :
    (chain : ℕ) (past : String → Bool) (a : PreflightArgs) (h : Health) (answers : Answers)
    (wallets : Result WalletError (List WalletSummary)) (p : PreflightReport) (w : WalletSummary)
    → preflight_transfer chain past a h answers wallets ≡ ok p
    → p.violations ≡ []
    → found_wallet a.wallet_name wallets ≡ ok (some w)
    → Passes (check_wallet past a answers.balance (some w))
unfolding preflight_transfer
wallet_checked chain past a h answers wallets p w e none_left found =
    let (_, r1) = and_then-Passes (ok (check_endpoint a h)) _ (p, e, none_left) in
    let (_, r2) = and_then-Passes (check_chain chain answers.chain_id) _ r1 in
    let (_, r3) = and_then-Passes (check_balance a answers.balance) _ r2 in
    let (_, p5) = and_then-Passes (check_nonce a answers.nonce) _ r3 in
    let (o, found', pw) =
      then_result-Passes (found_wallet a.wallet_name wallets) (check_wallet past a answers.balance)
        p5 in
    of_found o (ok-injective (sym found' ∙ found)) pw
  where
    of_found :
        (o : Option WalletSummary)
        → o ≡ some w
        → Passes (check_wallet past a answers.balance o)
        → Passes (check_wallet past a answers.balance (some w))
    of_found o same q = rw⁻¹ same q

-- If `preflightTransfer` returns without violations for a transfer that is to be signed in low-value
-- mode, the amount is not zero, and the listed wallet's policy is enabled, has the accounting of the
-- day, buckets and a cap for one signature that can be read, and a daily limit that can be read or
-- none, then the check that the signature makes passes that day.
pub preflight_transfer-allowed :
    (chain : ℕ) (past : String → Bool) (a : PreflightArgs) (h : Health) (answers : Answers)
    (wallets : Result WalletError (List WalletSummary)) (p : PreflightReport) (w : WalletSummary)
    (pol : LowValuePolicy) (today : String) (l : Ledger) (most daily : ℕ) (s : LowValueSummary)
    → preflight_transfer chain past a h answers wallets ≡ ok p
    → p.violations ≡ []
    → found_wallet a.wallet_name wallets ≡ ok (some w)
    → uses_low_value a ≡ true
    → w.low_value ≡ some s
    → Reads pol today l
    → MayHaveCaps pol most daily
    → s.enabled ≡ true
    → s.max_amount ≡ pol.max_amount
    → summarize_accounting pol today ≡ ok s.accounting
    → 0 < a.amount_units
    → assert_low_value_allowed pol a.amount_units today ≡ ok tt
preflight_transfer-allowed chain past a h answers wallets p w pol today l most daily s e none_left
      found uses policy reads caps on same_max summarized some_amount =
    let checked =
      low_value-Passes past a answers.balance w uses
        (wallet_checked chain past a h answers wallets p w e none_left found) in
    within_caps pol today l most daily a.amount_units s reads on same_max summarized some_amount
      caps (rw policy at checked)
