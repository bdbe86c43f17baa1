-- ===== src/Safety/Agreement.antt =====
-- `simulateHotWalletPolicy` of src/wallet_safety.ts beside `assertLowValueAllowed` of src/wallet.ts.
use lyth_mcp.Prelude.{
  ℕ, ◌+◌, ◌-◌, ◌≤◌, ◌<◌, String, ◌≡◌, ◌↔◌, refl, sym, ap, ◌∙◌, inl, inr, Bool, true, false, Option,
  none, some, str_eq, str_eq_refl, List, [], ◌∷◌, ◌++◌, arith, ltb, or_else, ok, Bool-cases,
  ok-injective,
}
use lyth_mcp.Amount.{Text, decimal_to_units}
use lyth_mcp.LowValue.{
  LowValuePolicy, AccountingSummary, units_of, text_of, zero_text, truthy, is_day, reserved_text,
  reset_day_if_needed, remaining_of, summarize_today, summarize_accounting,
  assert_low_value_allowed,
}
use lyth_mcp.LowValue.Ledger.{Ledger, locked, Reads, Stands, units_of-text_of, units_of-zero}
use lyth_mcp.LowValue.Limit.{HasCaps, assert_low_value_allowed_iff}
use lyth_mcp.Wallet.Summary.{LowValueSummary}
use lyth_mcp.Safety.{
  Violation, over_cap, over_remaining, SimulationArgs, Simulation, flag, low_value_violations,
  agent_violations, simulate_hot_wallet_policy, protection_warning, fallback_warning, fallback_of,
}
use lyth_mcp.Wallet.{ask_passphrase}

module _ (p : LowValuePolicy) (today : String) (l : Ledger) (h : Reads p today l) where
  -- The buckets of a policy that stands at the day, as its summary reads them.
  record Current : Type 0 where
    pub reserved_reads : units_of (reserved_text p) ≡ ok l.reserved_units
    pub submitted_reads : units_of (or_else p.submitted_today zero_text) ≡ ok l.submitted_units
    pub confirmed_reads : units_of (or_else p.confirmed_today zero_text) ≡ ok l.confirmed_units
    pub failed_reads : units_of (or_else p.failed_today zero_text) ≡ ok l.failed_units
    pub expired_reads : units_of (or_else p.expired_today zero_text) ≡ ok l.expired_units

  reads_of : (o : Option Text) (t : Text) (n : ℕ) → o ≡ some t → Stands o n → units_of t ≡ ok n
  reads_of o t n e (u, f, r) = ground arith

  is_current : is_day p.day today ≡ true → Current
  unfolding reset_day_if_needed
  is_current c = record {
    reserved_reads = reads_of _ _ _ (rw c refl) h.reserved_holds;
    submitted_reads = reads_of _ _ _ (rw c refl) h.submitted_holds;
    confirmed_reads = reads_of _ _ _ (rw c refl) h.confirmed_holds;
    failed_reads = reads_of _ _ _ (rw c refl) h.failed_holds;
    expired_reads = reads_of _ _ _ (rw c refl) h.expired_holds;
  }

  zero_reads : (o : Option Text) (n : ℕ) → o ≡ some zero_text → Stands o n → n ≡ 0
  zero_reads o n e s = ok-injective (sym (reads_of o zero_text n e s) ∙ units_of-zero)

  -- On another day nothing is locked.
  other_day : is_day p.day today ≡ false → locked l ≡ 0
  unfolding reset_day_if_needed
  other_day c =
      let r = zero_reads _ _ (rw c refl) h.reserved_holds in
      let s = zero_reads _ _ (rw c refl) h.submitted_holds in
      let k = zero_reads _ _ (rw c refl) h.confirmed_holds in omega (arith, r, s, k)

  abbrev current_summary : ℕ → AccountingSummary
  current_summary daily = record {
    day = today;
    reserved = text_of l.reserved_units;
    submitted = text_of l.submitted_units;
    confirmed = text_of l.confirmed_units;
    failed = text_of l.failed_units;
    expired = text_of l.expired_units;
    total_locked = text_of (locked l);
    remaining_today = some (text_of (daily - locked l));
  }

  abbrev empty_summary : AccountingSummary
  empty_summary = record {
    day = today;
    reserved = zero_text;
    submitted = zero_text;
    confirmed = zero_text;
    failed = zero_text;
    expired = zero_text;
    total_locked = zero_text;
    remaining_today = p.daily_limit;
  }

  truthy-some : (o : Option Text) (t : Text) → truthy o ≡ some t → o ≡ some t
  truthy-some none t e = e
  truthy-some (some []) t e = absurd (cc)
  truthy-some (some (c ∷ s)) t e = e

  -- What the summary says is left of the day is the daily limit less what is locked.
  pub remaining-Reads :
      (most daily : ℕ)
      → HasCaps p most daily
      → (a : AccountingSummary) × (t : Text) × (summarize_accounting p today ≡ ok a)
        × (a.remaining_today ≡ some t)
        × (units_of t ≡ ok (daily - locked l))
  unfolding summarize_accounting summarize_today remaining_of
  remaining-Reads most daily caps = elim (Bool-cases (is_day p.day today)) [
    | inl now ↦
        let c = is_current now in
        (
          current_summary daily,
          text_of (daily - locked l),
          rw
              (
                now, c.reserved_reads, c.submitted_reads, c.confirmed_reads, c.failed_reads,
                c.expired_reads, caps.limit_stands, caps.limit_reads,
              )
              refl,
          refl,
          units_of-text_of (daily - locked l),
        )
    | inr other ↦ (
      empty_summary,
      caps.limit_text,
      rw other refl,
      truthy-some p.daily_limit caps.limit_text caps.limit_stands,
      caps.limit_reads ∙ ap ok (omega (arith, other_day other)),
    )
  ]

pub truthy-text : (t : Text) (n : ℕ) → units_of t ≡ ok n → truthy (some t) ≡ some t
unfolding units_of decimal_to_units
truthy-text [] n e = absurd (cc)
truthy-text (c ∷ s) n e = refl

-- The violations of the caps, for a summary of the policy.
low_value_violations-Reads :
    (p : LowValuePolicy) (today : String) (l : Ledger) (most daily n : ℕ) (s : LowValueSummary)
    → Reads p today l
    → HasCaps p most daily
    → s.enabled ≡ true
    → s.max_amount ≡ p.max_amount
    → summarize_accounting p today ≡ ok s.accounting
    → low_value_violations (some s) n
      ≡ ok (flag (ltb most n) over_cap ++ flag (ltb (daily - locked l) n) over_remaining)
unfolding low_value_violations
low_value_violations-Reads p today l most daily n s h caps on same_max summarized =
    let (a, t, summary, left, reads) = remaining-Reads p today l h most daily caps in
    let max_reads : units_of s.max_amount ≡ ok most = ap units_of same_max ∙ caps.max_reads in
    let left_here : s.accounting.remaining_today ≡ some t =
      ap (λ (x : AccountingSummary). x.remaining_today) (ok-injective (sym summarized ∙ summary))
      ∙ left in
    rw (on, truthy-text s.max_amount most max_reads, max_reads, left_here, reads) refl

-- `flag` and `++` give nothing exactly if every test fails.
no_flags :
    (a b : Bool) (v w : Violation)
    → ((flag a v ++ flag b w) ++ [] ≡ []) ↔ ((a ≡ false) × (b ≡ false))
no_flags a b v w = ground arith

-- What the simulation reports where only the caps are violated.
abbrev found_for : (String → Bool) → SimulationArgs → List Violation → Simulation
found_for past args vs = record {
  violations = vs ++ [];
  warnings =
      protection_warning args.wallet.key_protection
      ++ fallback_warning (fallback_of args.wallet.agent);
  fallback = or_else (fallback_of args.wallet.agent) ask_passphrase;
}

pub bounded : (m n : ℕ) → ltb m n ≡ false → n ≤ m
bounded m n e = ground arith

not_over : (m n : ℕ) → n ≤ m → ltb m n ≡ false
not_over m n e = ground arith

pub within_daily : (l d n : ℕ) → 0 < n → ltb (d - l) n ≡ false → l + n ≤ d
within_daily l d n some_amount e = ground arith

not_over_daily : (l d n : ℕ) → l + n ≤ d → ltb (d - l) n ≡ false
not_over_daily l d n e = ground arith

-- For an amount that is not zero, of LYTH or of no named asset, a wallet whose summary is that of an
-- enabled policy with a daily limit, its buckets and caps such that they can be read, and agent rules that do not object, the simulation finds no
-- violation exactly if the check that signing makes passes.
pub simulate-assert_low_value_allowed :
    (past : String → Bool) (args : SimulationArgs) (p : LowValuePolicy) (today : String)
    (l : Ledger) (most daily n : ℕ) (s : LowValueSummary)
    → Reads p today l
    → HasCaps p most daily
    → args.wallet.low_value ≡ some s
    → s.enabled ≡ true
    → s.max_amount ≡ p.max_amount
    → summarize_accounting p today ≡ ok s.accounting
    → or_else args.asset "LYTH" ≡ "LYTH"
    → agent_violations past args.wallet.agent args.counterparty args.category ≡ []
    → units_of args.amount ≡ ok n
    → 0 < n
    → (m : Simulation) × (simulate_hot_wallet_policy past args ≡ ok m)
      × ((m.violations ≡ []) ↔ (assert_low_value_allowed p n today ≡ ok tt))
unfolding simulate_hot_wallet_policy
simulate-assert_low_value_allowed past args p today l most daily n s h caps stands on same_max
      summarized lyth allowed reads some_amount =
    let low =
      ap (λ o. low_value_violations o n) stands
      ∙ low_value_violations-Reads p today l most daily n s h caps on same_max summarized in
    let supported : str_eq (or_else args.asset "LYTH") "LYTH" ≡ true =
      ap (λ a. str_eq a "LYTH") lyth ∙ str_eq_refl "LYTH" in
    let (to_limits, of_limits) = assert_low_value_allowed_iff p today l most daily n caps h in
    (
      found_for past args
          (flag (ltb most n) over_cap ++ flag (ltb (daily - locked l) n) over_remaining),
      rw (reads, low, supported, allowed) refl,
      (
        λ e.
            let (a, b) =
              (no_flags (ltb most n) (ltb (daily - locked l) n) over_cap over_remaining).0 e in
            of_limits (bounded most n a, within_daily (locked l) daily n some_amount b),
        λ e.
            let (a, b) = to_limits e in
            (no_flags (ltb most n) (ltb (daily - locked l) n) over_cap over_remaining).1
              (not_over most n a, not_over_daily (locked l) daily n b),
      ),
    )
