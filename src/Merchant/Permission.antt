-- ===== src/Merchant/Permission.antt =====
-- What an enabled policy asks of a request, apart from the tests of src/merchant_policy.ts, and that
-- these tests find it.
use mathlib.Core.List.{Memᴰ}
use mathlib.Core.List.Memᴰ.{head, tail}
use lyth_mcp.Prelude.{
  ℕ, ◌≤◌, ◌≡◌, ◌≢◌, refl, Bool, true, false, not, ◌&&◌, ◌||◌, Option, none, some, List, [], ◌∷◌,
  arith, ltb, ◌==◌, or_else, or_maybe, Result, ok, err, then_result, ok-injective,
}
use lyth_mcp.Amount.{Text}
use lyth_mcp.LowValue.{PolicyError, units_of, truthy}
use lyth_mcp.Merchant.{MerchantPolicy, text_eq}
use lyth_mcp.Merchant.Rules.{
  category_refused, Request, report, wanted_list, over_max, listed, asset_out, category_faults,
  upper_of,
}

-- If both texts are given, they are amounts, and the first is at most the second.
abbrev pub AtMost : Option Text → Option Text → Type 0
AtMost amount most =
    (t u : Text)
    → truthy amount ≡ some t
    → truthy most ≡ some u
    → (m n : ℕ) × (units_of t ≡ ok m) × (units_of u ≡ ok n) × (m ≤ n)

-- A member of the list is the text, after a conversion of both.
abbrev pub Lists : (convert : Text → Text) → Text → List Text → Type 0
Lists convert t ts = (u : Text) × Memᴰ u ts × (convert u ≡ convert t)

-- The vendor is not denied; a given amount is at most a given cap; a given asset is in the list of
-- assets, and a category is given and in the list of categories, where these lists are there and not
-- empty.
pub record Permitted (upper lower : Text → Text) (r : Request) (q : MerchantPolicy) : Type 0 where
  pub not_denied : q.denylisted ≢ some true
  pub amount_fits : AtMost (or_maybe r.amount r.quote_amount) q.max_order_amount
  pub asset_fits :
      (t a : Text) (bs : List Text)
      → or_maybe r.asset r.quote_asset ≡ some t
      → upper t ≢ []
      → q.allowed_assets ≡ some (a ∷ bs)
      → Lists upper t (a ∷ bs)
  pub category_fits :
      (c : Text) (cs : List Text)
      → q.allowed_categories ≡ some (c ∷ cs)
      → (t : Text) × (truthy r.category ≡ some t) × Lists lower t (c ∷ cs)

text_eq-inv : (s t : Text) → text_eq s t ≡ true → s ≡ t
text_eq-inv [] [] e = refl
text_eq-inv [] (d ∷ t) e = absurd (cc)
text_eq-inv (c ∷ s) [] e = absurd (cc)
text_eq-inv (c ∷ s) (d ∷ t) e =
    let (h, k) = both_true (c == d) (text_eq s t) e in rw (same_unit c d h, text_eq-inv s t k) refl
  where
    both_true : (a b : Bool) → (a && b) ≡ true → (a ≡ true) × (b ≡ true)
    both_true a b e = ground arith

    same_unit : (m n : ℕ) → (m == n) ≡ true → m ≡ n
    same_unit m n e = ground arith

listed-Lists :
    (convert : Text → Text) (t : Text) (ts : List Text)
    → listed convert (convert t) ts ≡ true
    → Lists convert t ts
listed-Lists convert t [] e = absurd (cc)
listed-Lists convert t (u ∷ ts) e =
    first (text_eq (convert u) (convert t)) refl e (listed-Lists convert t ts)
  where
    first :
        (b : Bool)
        → text_eq (convert u) (convert t) ≡ b
        → (b || listed convert (convert t) ts) ≡ true
        → (listed convert (convert t) ts ≡ true → Lists convert t ts)
        → Lists convert t (u ∷ ts)
    first true same e later = (u, head refl, text_eq-inv _ _ same)
    first false other e later = let (v, m, same) = later e in (v, tail m, same)

pub not_denied-inv : (o : Option Bool) → or_else o false ≡ false → o ≢ some true
not_denied-inv none e h = cc
not_denied-inv (some b) e h = cc

pub over_max-AtMost :
    (amount most : Option Text)
    → over_max (truthy amount) (truthy most) ≡ ok false
    → AtMost amount most
unfolding over_max
over_max-AtMost amount most e t u is is' = compared (units_of t) (units_of u) (rw (is, is') at e)
  where
    not_above : (m n : ℕ) → ltb n m ≡ false → m ≤ n
    not_above m n e = ground arith

    compared :
        (a b : Result PolicyError ℕ)
        → then_result a (λ m. then_result b λ n. ok (ltb n m)) ≡ ok false
        → (m n : ℕ) × (a ≡ ok m) × (b ≡ ok n) × (m ≤ n)
    compared (err x) b e = absurd (cc)
    compared (ok m) (err x) e = absurd (cc)
    compared (ok m) (ok n) e = (m, n, refl, refl, not_above m n (ok-injective e))

pub asset_out-Lists :
    (upper : Text → Text) (asset : Option Text) (allowed : Option (List Text))
    → asset_out upper (truthy (upper_of upper asset)) (wanted_list allowed) ≡ false
    → (t a : Text) (bs : List Text) → asset ≡ some t
    → upper t ≢ []
    → allowed ≡ some (a ∷ bs)
    → Lists upper t (a ∷ bs)
asset_out-Lists upper asset allowed e t a bs is some_asset list =
    listed-Lists upper t (a ∷ bs) (inside (upper t) some_asset (rw (is, list) at e))
  where
    unnegated : (b : Bool) → not b ≡ false → b ≡ true
    unnegated true e = refl
    unnegated false e = absurd (cc)

    inside :
        (c : Text)
        → c ≢ []
        → asset_out upper (truthy (some c)) (some (a ∷ bs)) ≡ false
        → listed upper c (a ∷ bs) ≡ true
    inside [] some_asset e = absurd (some_asset refl)
    inside (x ∷ c) some_asset e = unnegated (listed upper (x ∷ c) (a ∷ bs)) e

pub category_faults-Lists :
    (lower : Text → Text) (category : Option Text) (allowed : Option (List Text))
    → category_faults lower (truthy category) (wanted_list allowed) ≡ []
    → (c : Text) (cs : List Text) → allowed ≡ some (c ∷ cs)
    → (t : Text) × (truthy category ≡ some t) × Lists lower t (c ∷ cs)
category_faults-Lists lower category allowed e c cs list =
    found (truthy category) refl (rw list at e)
  where
    reported : (b : Bool) → report (not b) category_refused ≡ [] → b ≡ true
    reported true e = refl
    reported false e = absurd (cc)

    found :
        (o : Option Text)
        → truthy category ≡ o
        → category_faults lower o (some (c ∷ cs)) ≡ []
        → (t : Text) × (truthy category ≡ some t) × Lists lower t (c ∷ cs)
    found none is e = absurd (cc)
    found (some t) is e =
        (t, is, listed-Lists lower t (c ∷ cs) (reported (listed lower (lower t) (c ∷ cs)) e))
