-- ===== src/Merchant/Evaluation.antt =====
-- The verdicts of `evaluateMerchantPolicy`, src/merchant_policy.ts.
use lyth_mcp.Prelude.{
  ◌≡◌, ◌≢◌, ◌↔◌, refl, sym, ap, ◌∙◌, inl, inr, Bool, true, false, some, List, [], ◌∷◌, ◌++◌, arith,
  or_else, or_maybe, Result, ok, err, ok-injective, Result-cases,
}
use lyth_mcp.Amount.{Text}
use lyth_mcp.LowValue.{PolicyError, truthy}
use lyth_mcp.Merchant.{MerchantPolicy}
use lyth_mcp.Merchant.Permission.{
  Permitted, not_denied-inv, over_max-AtMost, asset_out-Lists, category_faults-Lists,
}
use lyth_mcp.Merchant.Rules.{
  Violation, denied, over_order_amount, asset_refused, Warning, blocked, Request, Evaluation,
  report, wanted_list, over_max, asset_out, category_faults, upper_of, violations_of, warnings_of,
  none_of, risk_level_of, evaluate_found, evaluate_merchant_policy,
}

none_of_lem :
    (a b c : Bool) (cs : List Violation)
    → none_of (report a denied ++ report b over_order_amount ++ report c asset_refused ++ cs) ≡ true
    → (a ≡ false) × (b ≡ false) × (c ≡ false) × (cs ≡ [])
none_of_lem a b c [] e = ground arith
none_of_lem a b c (x ∷ xs) e = absurd (ground arith)

-- The violations of an enabled policy, once the amounts are read.
abbrev faults : (upper lower : Text → Text) → Request → MerchantPolicy → Bool → List Violation
faults upper lower r q over =
    report (or_else q.denylisted false) denied
    ++ report over over_order_amount
    ++ report
        (asset_out upper (truthy (upper_of upper (or_maybe r.asset r.quote_asset)))
          (wanted_list q.allowed_assets))
        asset_refused
    ++ category_faults lower (truthy r.category) (wanted_list q.allowed_categories)

abbrev ordered : Request → MerchantPolicy → Result PolicyError Bool
ordered r q = over_max (truthy (or_maybe r.amount r.quote_amount)) (truthy q.max_order_amount)

violations_of-ok :
    (upper lower : Text → Text) (r : Request) (q : MerchantPolicy) (over : Bool)
    → q.enabled ≡ true
    → ordered r q ≡ ok over
    → violations_of upper lower r q ≡ ok (faults upper lower r q over)
unfolding violations_of
violations_of-ok upper lower r q over on ran = rw (on, ran) refl

violations_of-err :
    (upper lower : Text → Text) (r : Request) (q : MerchantPolicy) (x : PolicyError)
    → q.enabled ≡ true
    → ordered r q ≡ err x
    → violations_of upper lower r q ≡ err x
unfolding violations_of
violations_of-err upper lower r q x on failed = rw (on, failed) refl

violations_of-Permitted :
    (upper lower : Text → Text) (r : Request) (q : MerchantPolicy) (vs : List Violation)
    → q.enabled ≡ true
    → violations_of upper lower r q ≡ ok vs
    → none_of vs ≡ true
    → Permitted upper lower r q
violations_of-Permitted upper lower r q vs on e clear = elim (Result-cases (ordered r q)) [
  | inl (over, ran) ↦
      let is = ok-injective (sym (violations_of-ok upper lower r q over on ran) ∙ e) in
      let (a, b, c, d) =
        none_of_lem (or_else q.denylisted false) over _ _ (ap none_of is ∙ clear) in
      record {
        not_denied = not_denied-inv q.denylisted a;
        amount_fits =
            over_max-AtMost (or_maybe r.amount r.quote_amount) q.max_order_amount (ran ∙ ap ok b);
        asset_fits = asset_out-Lists upper (or_maybe r.asset r.quote_asset) q.allowed_assets c;
        category_fits = category_faults-Lists lower r.category q.allowed_categories d;
      }
  | inr (x, failed) ↦ absurd (err-ne (sym (violations_of-err upper lower r q x on failed) ∙ e))
]
  where
    err-ne :
        {x : PolicyError} {vs : List Violation}
        → ◌≢◌ {A = Result PolicyError (List Violation)} (err x) (ok vs)
    err-ne h = cc

level-blocked :
    (q : MerchantPolicy) (vs : List Violation) (ws : List Warning)
    → (risk_level_of q vs ws ≡ blocked) ↔ (none_of vs ≡ false)
unfolding risk_level_of
level-blocked q vs ws = ground arith

evaluate-inv :
    (upper lower : Text → Text) (r : Request) (q : MerchantPolicy) (v : Evaluation)
    → r.policy ≡ some q
    → evaluate_merchant_policy upper lower r ≡ ok v
    → (vs : List Violation) × (violations_of upper lower r q ≡ ok vs)
      × (v.passes ≡ none_of vs)
      × (v.risk_level ≡ risk_level_of q vs (warnings_of r q))
unfolding evaluate_merchant_policy evaluate_found violations_of
evaluate-inv upper lower r q v has e = elim (Result-cases (violations_of upper lower r q)) [
  | inl (vs, ran) ↦
      let is = rw (has, ran) at e in
      (
        vs,
        ran,
        ap (λ (x : Evaluation). x.passes) (sym (ok-injective is)),
        ap (λ (x : Evaluation). x.risk_level) (sym (ok-injective is)),
      )
  | inr (x, failed) ↦ absurd (err-ne (rw (has, failed) at e))
]
  where
    err-ne :
        {x : PolicyError} {v : Evaluation} → ◌≢◌ {A = Result PolicyError Evaluation} (err x) (ok v)
    err-ne h = cc

-- An evaluation by an enabled policy that passes: the vendor is not denied; an amount and a cap of an
-- order that are both given can be read, and the amount is at most the cap; an asset that is given is in
-- the list of assets, if that is there and not empty; and if the list of categories is there and not
-- empty, a category is given and in it. Assets are compared in upper case, categories in lower case.
-- An empty text counts as not given.
pub evaluate_merchant_policy-Permitted :
    (upper lower : Text → Text) (r : Request) (q : MerchantPolicy) (v : Evaluation)
    → r.policy ≡ some q
    → q.enabled ≡ true
    → evaluate_merchant_policy upper lower r ≡ ok v
    → v.passes ≡ true
    → Permitted upper lower r q
evaluate_merchant_policy-Permitted upper lower r q v has on e passes =
    let (vs, ran, same, level) = evaluate-inv upper lower r q v has e in
    violations_of-Permitted upper lower r q vs on ran (sym same ∙ passes)

-- Of an evaluation by a policy the level of risk is blocked exactly if it does not pass.
pub evaluate_merchant_policy-blocked :
    (upper lower : Text → Text) (r : Request) (q : MerchantPolicy) (v : Evaluation)
    → r.policy ≡ some q
    → evaluate_merchant_policy upper lower r ≡ ok v
    → (v.risk_level ≡ blocked) ↔ (v.passes ≡ false)
evaluate_merchant_policy-blocked upper lower r q v has e =
    let (vs, ran, same, level) = evaluate-inv upper lower r q v has e in
    let (to, of) = level-blocked q vs (warnings_of r q) in
    (λ b. same ∙ to (sym level ∙ b), λ f. level ∙ of (sym same ∙ f))
