-- ===== src/Merchant/Rules.antt =====
-- `evaluateMerchantPolicy` and `riskLevel`, src/merchant_policy.ts. Of a vendor and a quote they read the
-- category, the amount and the asset, and whether the fulfillment is a demonstration.
-- A violation or a warning is a constructor in place of its text.
use lyth_mcp.Prelude.{
  Bool, true, false, not, ◌&&◌, Option, none, some, List, [], ◌∷◌, ◌++◌, ltb, if◌then◌else◌,
  or_else, or_maybe, any, Result, ok, then_result,
}
use lyth_mcp.Amount.{Text}
use lyth_mcp.LowValue.{PolicyError, units_of, truthy}
use lyth_mcp.Merchant.{MerchantPolicy, text_eq}

pub data Violation : Type 0 where
  denied over_order_amount asset_refused no_category category_refused : Violation

pub data Warning : Type 0 where
  no_policy demo_only policy_disabled not_allowlisted : Warning

pub data RiskLevel : Type 0 where
  unknown low medium high blocked : RiskLevel

pub record Request : Type 0 where
  pub policy : Option MerchantPolicy
  pub amount : Option Text
  pub quote_amount : Option Text
  pub asset : Option Text
  pub quote_asset : Option Text
  pub category : Option Text
  pub is_demo : Bool

-- The notes repeat texts of the policy and are left out.
pub record Evaluation : Type 0 where
  pub passes : Bool
  pub risk_level : RiskLevel
  pub policy_configured : Bool
  pub violations : List Violation
  pub warnings : List Warning

abbrev pub report : {A : Type 0} → Bool → A → List A
report b a = if b then a ∷ [] else []

-- A list that is there and not empty.
abbrev pub wanted_list : Option (List Text) → Option (List Text)
wanted_list none = none
wanted_list (some []) = none
wanted_list (some (t ∷ ts)) = some (t ∷ ts)

-- `compareDecimal(amount, maxOrderAmount) > 0`, where both are there.
unfoldable pub over_max : (amount most : Option Text) → Result PolicyError Bool
over_max none most = ok false
over_max (some amount) none = ok false
over_max (some amount) (some most) =
    then_result (units_of amount) λ a. then_result (units_of most) λ m. ok (ltb m a)

abbrev pub listed : (convert : Text → Text) → Text → List Text → Bool
listed convert t ts = any (λ u. text_eq (convert u) t) ts

abbrev pub asset_out : (upper : Text → Text) → Option Text → Option (List Text) → Bool
asset_out upper none allowed = false
asset_out upper (some a) none = false
asset_out upper (some a) (some allowed) = not (listed upper a allowed)

abbrev pub category_faults :
    (lower : Text → Text) → Option Text → Option (List Text) → List Violation
category_faults lower category none = []
category_faults lower none (some allowed) = no_category ∷ []
category_faults lower (some c) (some allowed) =
    report (not (listed lower (lower c) allowed)) category_refused

abbrev pub upper_of : (Text → Text) → Option Text → Option Text
upper_of upper none = none
upper_of upper (some t) = some (upper t)

unfoldable pub violations_of :
    (upper lower : Text → Text) → Request → MerchantPolicy → Result PolicyError (List Violation)
violations_of upper lower r q =
    if q.enabled
    then (then_result
        (over_max (truthy (or_maybe r.amount r.quote_amount)) (truthy q.max_order_amount))
        λ over. ok (
          report (or_else q.denylisted false) denied
          ++ report over over_order_amount
          ++ report
              (asset_out upper (truthy (upper_of upper (or_maybe r.asset r.quote_asset)))
                (wanted_list q.allowed_assets))
              asset_refused
          ++ category_faults lower (truthy r.category) (wanted_list q.allowed_categories)))
    else ok []

abbrev pub warnings_of : Request → MerchantPolicy → List Warning
warnings_of r q =
    report (not q.enabled) policy_disabled
    ++ report (not (or_else q.allowlisted false)) not_allowlisted
    ++ report r.is_demo demo_only

abbrev pub none_of : {A : Type 0} → List A → Bool
none_of [] = true
none_of (x ∷ xs) = false

-- `riskLevel`
unfoldable pub risk_level_of : MerchantPolicy → List Violation → List Warning → RiskLevel
risk_level_of q violations warnings =
    if not (none_of violations)
    then blocked
    else (if or_else q.allowlisted false && none_of warnings
        then low
        else (if or_else q.allowlisted false then medium else high))

unfoldable pub evaluate_found :
    (upper lower : Text → Text) → Request → Option MerchantPolicy → Result PolicyError Evaluation
evaluate_found upper lower r none = ok (record {
  passes = true;
  risk_level = unknown;
  policy_configured = false;
  violations = [];
  warnings = no_policy ∷ report r.is_demo demo_only;
})
evaluate_found upper lower r (some q) = then_result (violations_of upper lower r q) λ vs.
    ok (record {
      passes = none_of vs;
      risk_level = risk_level_of q vs (warnings_of r q);
      policy_configured = true;
      violations = vs;
      warnings = warnings_of r q;
    })

unfoldable pub evaluate_merchant_policy :
    (upper lower : Text → Text) → Request → Result PolicyError Evaluation
evaluate_merchant_policy upper lower r = evaluate_found upper lower r r.policy
