-- ===== src/Merchant.antt =====
-- Local policies on merchants, src/merchant_policy.ts. Texts are lists of code units, so that they can be
-- trimmed; `upper` and `lower` are the case mappings of strings, which are Unicode's tables.
pub mod Rules
pub mod Permission
pub mod Evaluation
pub mod Policies
mod Tests
use lyth_mcp.Prelude.{
  ℕ, String, Bool, true, false, not, ◌&&◌, Option, none, some, List, [], ◌∷◌, map, if◌then◌else◌,
  or_else, or_maybe, find, put_first, keep, take, length, ◌==◌, Exec, continue, ◌>>=◌, ◌>>◌, pure,
}
use lyth_mcp.Amount.{Text, trim, is_empty}
use lyth_mcp.Files.{StoreFile}
use lyth_mcp.Files.Store.{given, wants, read_records, write_records}
use lyth_mcp.Files.Records.{has_key, without}

pub record MerchantPolicy : Type 0 where
  pub vendor_id : String
  pub enabled : Bool
  pub allowlisted : Option Bool
  pub denylisted : Option Bool
  pub max_order_amount : Option Text
  pub allowed_assets : Option (List Text)
  pub allowed_categories : Option (List Text)
  pub jurisdiction_notes : Option String
  pub refund_policy : Option String
  pub fulfillment_sla : Option String
  pub dispute_process : Option String
  pub risk_notes : Option String
  pub created_at : String
  pub updated_at : String

pub record MerchantPolicyPatch : Type 0 where
  pub vendor_id : String
  pub enabled : Option Bool
  pub allowlisted : Option Bool
  pub denylisted : Option Bool
  pub max_order_amount : Option Text
  pub allowed_assets : Option (List Text)
  pub allowed_categories : Option (List Text)
  pub jurisdiction_notes : Option String
  pub refund_policy : Option String
  pub fulfillment_sla : Option String
  pub dispute_process : Option String
  pub risk_notes : Option String

abbrev pub PolicyFile : Type 0
PolicyFile = StoreFile MerchantPolicy

pub data StoreError : Type 0 where
  unsupported_policies : StoreError

abbrev pub vendor_of : MerchantPolicy → String
vendor_of q = q.vendor_id

abbrev pub text_eq : Text → Text → Bool
text_eq [] [] = true
text_eq [] (d ∷ t) = false
text_eq (c ∷ s) [] = false
text_eq (c ∷ s) (d ∷ t) = c == d && text_eq s t

-- `new Set(values)`: the first of equal texts stays.
abbrev pub once : List Text → List Text
once [] = []
once (t ∷ ts) = t ∷ keep (λ u. not (text_eq t u)) (once ts)

-- An empty list counts as no list.
abbrev pub if_some : List Text → Option (List Text)
if_some [] = none
if_some (t ∷ ts) = some (t ∷ ts)

-- `convert` is `toUpperCase` where the caller asks for it.
unfoldable pub normalize_list : (convert : Text → Text) → Option (List Text) → Option (List Text)
normalize_list convert none = none
normalize_list convert (some values) =
    if_some (once (map convert (keep (λ t. not (is_empty t)) (map trim values))))

-- A field of the current policy, if there is one.
abbrev field_of : {A : Type 0} → (MerchantPolicy → Option A) → Option MerchantPolicy → Option A
field_of f none = none
field_of f (some q) = f q

abbrev pub next_policy :
    (upper : Text → Text)
    → (now : String) → MerchantPolicyPatch
    → Option MerchantPolicy
    → MerchantPolicy
next_policy upper now patch current = record {
  vendor_id = patch.vendor_id;
  enabled = or_else (or_maybe patch.enabled (field_of (λ q. some q.enabled) current)) true;
  allowlisted = or_maybe patch.allowlisted (field_of (λ q. q.allowlisted) current);
  denylisted = or_maybe patch.denylisted (field_of (λ q. q.denylisted) current);
  max_order_amount = or_maybe patch.max_order_amount (field_of (λ q. q.max_order_amount) current);
  allowed_assets =
      normalize_list upper
        (or_maybe patch.allowed_assets (field_of (λ q. q.allowed_assets) current));
  allowed_categories =
      normalize_list (λ t. t)
        (or_maybe patch.allowed_categories (field_of (λ q. q.allowed_categories) current));
  jurisdiction_notes =
      or_maybe patch.jurisdiction_notes (field_of (λ q. q.jurisdiction_notes) current);
  refund_policy = or_maybe patch.refund_policy (field_of (λ q. q.refund_policy) current);
  fulfillment_sla = or_maybe patch.fulfillment_sla (field_of (λ q. q.fulfillment_sla) current);
  dispute_process = or_maybe patch.dispute_process (field_of (λ q. q.dispute_process) current);
  risk_notes = or_maybe patch.risk_notes (field_of (λ q. q.risk_notes) current);
  created_at = or_else (field_of (λ q. some q.created_at) current) now;
  updated_at = now;
}

-- Over the first policy of the vendor if there is one, in front of the others if there is none.
abbrev pub put_policy :
    MerchantPolicy → Option MerchantPolicy → List MerchantPolicy → List MerchantPolicy
put_policy next none policies = next ∷ policies
put_policy next (some _) policies = put_first (has_key vendor_of next.vendor_id) next policies

unfoldable pub upsert_merchant_policy :
    (upper : Text → Text)
    → (now : String) → MerchantPolicyPatch
    → Exec StoreError PolicyFile MerchantPolicy
upsert_merchant_policy upper now patch = do
  policies ← read_records unsupported_policies
  let current = find (has_key vendor_of patch.vendor_id) policies
  write_records unsupported_policies
      (put_policy (next_policy upper now patch current) current policies)
  pure (next_policy upper now patch current)

unfoldable pub get_merchant_policy : String → Exec StoreError PolicyFile (Option MerchantPolicy)
get_merchant_policy vendor_id = do
  policies ← read_records unsupported_policies
  pure (find (has_key vendor_of vendor_id) policies)

unfoldable pub list_merchant_policies :
    (vendor_id : Option String)
    → (only_blocked : Bool) → Option ℕ
    → Exec StoreError PolicyFile (List MerchantPolicy)
list_merchant_policies vendor_id only_blocked limit = do
  policies ← read_records unsupported_policies
  pure (
      take (or_else limit 100) (
        keep (λ q. if only_blocked then or_else q.denylisted false else true)
          (keep (λ q. wants (given vendor_id) (some q.vendor_id)) policies)))

-- Whether a policy was removed; only then is the file written.
unfoldable pub remove_merchant_policy : String → Exec StoreError PolicyFile Bool
remove_merchant_policy vendor_id = do
  policies ← read_records unsupported_policies
  if length (without vendor_of vendor_id policies) == length policies
      then pure false
      else (write_records unsupported_policies (without vendor_of vendor_id policies) >> pure true)
