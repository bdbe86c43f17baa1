-- ===== src/Merchant/Tests.antt =====
-- A vendor of books, allowed up to 10 per order.
use mathlib.Core.Path.{◌≡◌, refl}
use lyth_mcp.Prelude.{true, false, some, none, [], ◌∷◌, ok, str_eq, if◌then◌else◌, ◌>>=◌}
use lyth_mcp.Amount.{Text, codes, decimal_to_units, trim}
use lyth_mcp.Files.{stored, missing}
use lyth_mcp.Files.Store.{read_records, write_records}
use lyth_mcp.LowValue.{units_of}
use lyth_mcp.Merchant.{
  MerchantPolicy, MerchantPolicyPatch, normalize_list, upsert_merchant_policy,
  remove_merchant_policy,
}
use lyth_mcp.Merchant.Policies.{policy_at, policy_at-upsert_merchant_policy}
use lyth_mcp.Merchant.Rules.{
  Request, Evaluation, low, evaluate_merchant_policy, evaluate_found, violations_of, over_max,
  risk_level_of,
}
use lyth_mcp.Merchant.Permission.{Permitted}
use lyth_mcp.Merchant.Evaluation.{evaluate_merchant_policy-Permitted}

abbrev same : Text → Text
same t = t

abbrev patch : MerchantPolicyPatch
patch = record {
  vendor_id = "books";
  enabled = none;
  allowlisted = some true;
  denylisted = none;
  max_order_amount = some (codes "10");
  allowed_assets = some (codes "LYTH" ∷ codes " LYTH " ∷ codes " " ∷ []);
  allowed_categories = none;
  jurisdiction_notes = none;
  refund_policy = none;
  fulfillment_sla = none;
  dispute_process = none;
  risk_notes = none;
}

abbrev books_policy : MerchantPolicy
books_policy = record {
  vendor_id = "books";
  enabled = true;
  allowlisted = some true;
  denylisted = none;
  max_order_amount = some (codes "10");
  allowed_assets = some (codes "LYTH" ∷ []);
  allowed_categories = none;
  jurisdiction_notes = none;
  refund_policy = none;
  fulfillment_sla = none;
  dispute_process = none;
  risk_notes = none;
  created_at = "t1";
  updated_at = "t1";
}

upserted :
    upsert_merchant_policy same "t1" patch missing ≡ (ok books_policy, stored (books_policy ∷ []))
unfolding upsert_merchant_policy read_records write_records normalize_list trim ◌>>=◌
upserted = refl

policy_at-upsert_merchant_policy_example :
    policy_at "books" (stored (books_policy ∷ []))
    ≡ (if str_eq "books" "books" then ok (some books_policy) else policy_at "books" missing)
policy_at-upsert_merchant_policy_example =
    policy_at-upsert_merchant_policy same "t1" patch "books" missing books_policy
      (stored (books_policy ∷ [])) upserted

removed : remove_merchant_policy "books" (stored (books_policy ∷ [])) ≡ (ok true, stored [])
unfolding remove_merchant_policy read_records write_records ◌>>=◌
removed = refl

abbrev request : Request
request = record {
  policy = some books_policy;
  amount = some (codes "9.5");
  quote_amount = none;
  asset = none;
  quote_asset = some (codes "LYTH");
  category = some (codes "books");
  is_demo = false;
}

abbrev passed : Evaluation
passed = record {
  passes = true;
  risk_level = low;
  policy_configured = true;
  violations = [];
  warnings = [];
}

evaluates : evaluate_merchant_policy same same request ≡ ok passed
unfolding evaluate_merchant_policy evaluate_found violations_of over_max units_of decimal_to_units
    risk_level_of
evaluates = refl

evaluate_merchant_policy-Permitted_example : Permitted same same request books_policy
evaluate_merchant_policy-Permitted_example =
    evaluate_merchant_policy-Permitted same same request books_policy passed refl refl evaluates
      refl
