-- ===== src/Merchant/Policies.antt =====
-- What the store of src/merchant_policy.ts finds after a change.
use lyth_mcp.Prelude.{
  String, ◌≡◌, ◌≢◌, refl, ok-injective, sym, ap, ◌∙◌, inl, inr, Bool, true, false, Option, none,
  some, List, [], ◌∷◌, arith, if◌then◌else◌, str_eq, eq_iff, ◌==◌, length, find, any, Result, ok,
  err, continue, ◌>>=◌, pure, length-keep, not, Result-cases, Option-cases, Bool-cases,
}
use lyth_mcp.Amount.{Text}
use lyth_mcp.Files.{stored, read_file}
use lyth_mcp.Files.Records.{has_key, without, find-put_first, find-without}
use lyth_mcp.Files.Store.{read_records, write_records}
use lyth_mcp.Merchant.{
  MerchantPolicy, MerchantPolicyPatch, PolicyFile, StoreError, unsupported_policies, vendor_of,
  put_policy, next_policy, upsert_merchant_policy, get_merchant_policy, remove_merchant_policy,
}

-- The policy that a vendor has.
abbrev pub policy_at : String → PolicyFile → Result StoreError (Option MerchantPolicy)
policy_at v file = (get_merchant_policy v file).0

policy_at_of :
    (v : String) (file : PolicyFile) (qs : List MerchantPolicy)
    → read_file unsupported_policies file ≡ ok qs
    → policy_at v file ≡ ok (find (has_key vendor_of v) qs)
unfolding get_merchant_policy read_records pure ◌>>=◌
policy_at_of v file qs e =
    ap
      (λ (r : Result StoreError (List MerchantPolicy)).
        (continue r (λ (ps : List MerchantPolicy). pure (find (has_key vendor_of v) ps)) file).0)
      e

find-any :
    (k : String) (rs : List MerchantPolicy) (r : MerchantPolicy)
    → find (has_key vendor_of k) rs ≡ some r
    → any (has_key vendor_of k) rs ≡ true
find-any k [] r e = cc
find-any k (x ∷ xs) r e = ground (arith, find-any k xs r)

find-put_policy :
    (next : MerchantPolicy) (j : String) (qs : List MerchantPolicy)
    → find (has_key vendor_of j) (put_policy next (find (has_key vendor_of next.vendor_id) qs) qs)
      ≡ (if str_eq next.vendor_id j then some next else find (has_key vendor_of j) qs)
find-put_policy next j qs = elim (Option-cases (find (has_key vendor_of next.vendor_id) qs)) [
  | inl fresh ↦ rw fresh refl
  | inr (q, old) ↦ rw old (
      find-put_first vendor_of next.vendor_id j next qs refl
      ∙ ground (arith, find-any next.vendor_id qs q old))
]

unread-ne :
    (upper : Text → Text) (now : String) (patch : MerchantPolicyPatch) (file : PolicyFile)
    (x : StoreError) (next : MerchantPolicy) (file' : PolicyFile)
    → read_file unsupported_policies file ≡ err x
    → upsert_merchant_policy upper now patch file ≢ (ok next, file')
unfolding upsert_merchant_policy read_records ◌>>=◌
unread-ne upper now patch file x next file' failed e = ground arith

upsert-runs :
    (upper : Text → Text) (now : String) (patch : MerchantPolicyPatch) (file : PolicyFile)
    (qs : List MerchantPolicy)
    → read_file unsupported_policies file ≡ ok qs
    → (current : Option MerchantPolicy) × (find (has_key vendor_of patch.vendor_id) qs ≡ current)
      × (upsert_merchant_policy upper now patch file ≡ (
        ok (next_policy upper now patch current),
        stored (put_policy (next_policy upper now patch current) current qs),
      ))
unfolding upsert_merchant_policy read_records write_records ◌>>=◌
upsert-runs upper now patch file qs e =
    (find (has_key vendor_of patch.vendor_id) qs, refl, rw e refl)

-- An upsert returns a policy of the vendor that is patched; the vendor has that policy afterwards, and every
-- other vendor the one that it had.
pub policy_at-upsert_merchant_policy :
    (upper : Text → Text) (now : String) (patch : MerchantPolicyPatch) (j : String)
    (file : PolicyFile) (next : MerchantPolicy) (file' : PolicyFile)
    → upsert_merchant_policy upper now patch file ≡ (ok next, file')
    → policy_at j file' ≡ (if str_eq patch.vendor_id j then ok (some next) else policy_at j file)
policy_at-upsert_merchant_policy upper now patch j file next file' e =
    elim (Result-cases (read_file unsupported_policies file)) [
      | inl (qs, was_read) ↦
          let (current, is, ran) = upsert-runs upper now patch file qs was_read in
          let made = next_policy upper now patch current in
          let same_next : made ≡ next =
            ok-injective
              (ap (λ (p : Result StoreError MerchantPolicy × PolicyFile). p.0) (sym ran ∙ e)) in
          let same_file : stored (put_policy made current qs) ≡ file' =
            ap (λ (p : Result StoreError MerchantPolicy × PolicyFile). p.1) (sym ran ∙ e) in
          ap (policy_at j) (sym same_file)
          ∙ policy_at_of j (stored (put_policy made current qs)) (put_policy made current qs) refl
          ∙ ap (λ c. ok (find (has_key vendor_of j) (put_policy made c qs))) (sym is)
          ∙ ap ok (find-put_policy made j qs)
          ∙ choice (str_eq patch.vendor_id j) made next (find (has_key vendor_of j) qs) same_next
          ∙ ap (λ o. if str_eq patch.vendor_id j then ok (some next) else o)
              (sym (policy_at_of j file qs was_read))
      | inr (x, failed) ↦ absurd (unread-ne upper now patch file x next file' failed e)
    ]
  where
    choice :
        (b : Bool) (made next : MerchantPolicy) (o : Option MerchantPolicy)
        → made ≡ next
        → ◌≡◌ {A = Result StoreError (Option MerchantPolicy)}
            (ok (if b then some made else o))
            (if b then ok (some next) else ok o)
    choice true made next o e = ap (λ q. ok (some q)) e
    choice false made next o e = refl

no_removal :
    (v : String) (qs : List MerchantPolicy)
    → length (without vendor_of v qs) ≡ length qs
    → find (has_key vendor_of v) qs ≡ none
no_removal v [] e = refl
no_removal v (x ∷ xs) e =
    ground (arith, no_removal v xs, length-keep (λ q. not (has_key vendor_of v q)) xs)

find-unremoved :
    (v j : String) (qs : List MerchantPolicy)
    → find (has_key vendor_of v) qs ≡ none
    → find (has_key vendor_of j) qs ≡ (if str_eq v j then none else find (has_key vendor_of j) qs)
find-unremoved v j qs e = ground (arith, eq_iff v j)

remove-runs :
    (v : String) (file : PolicyFile) (qs : List MerchantPolicy)
    → read_file unsupported_policies file ≡ ok qs
    → remove_merchant_policy v file ≡ (
        if length (without vendor_of v qs) == length qs
        then (ok false, file)
        else (ok true, stored (without vendor_of v qs)))
unfolding remove_merchant_policy read_records write_records pure ◌>>=◌
remove-runs v file qs e = rw e (ground arith)

unread_remove-ne :
    (v : String) (file : PolicyFile) (x : StoreError) (removed : Bool) (file' : PolicyFile)
    → read_file unsupported_policies file ≡ err x
    → remove_merchant_policy v file ≢ (ok removed, file')
unfolding remove_merchant_policy read_records ◌>>=◌
unread_remove-ne v file x removed file' failed e = ground arith

-- After a removal that returned the vendor has no policy, and every other vendor the one that it had,
-- whether or not there was anything to remove.
pub policy_at-remove_merchant_policy :
    (v j : String) (file : PolicyFile) (removed : Bool) (file' : PolicyFile)
    → remove_merchant_policy v file ≡ (ok removed, file')
    → policy_at j file' ≡ (if str_eq v j then ok none else policy_at j file)
policy_at-remove_merchant_policy v j file removed file' e =
    elim (Result-cases (read_file unsupported_policies file)) [
      | inr (x, failed) ↦ absurd (unread_remove-ne v file x removed file' failed e)
      | inl (qs, was_read) ↦
          let ran = sym (remove-runs v file qs was_read) ∙ e in
          elim (Bool-cases (length (without vendor_of v qs) == length qs)) [
            | inl none_gone ↦
                let same : file ≡ file' =
                  ap (λ (p : Result StoreError Bool × PolicyFile). p.1) (rw none_gone at ran) in
                ap (policy_at j) (sym same)
                ∙ policy_at_of j file qs was_read
                ∙ ap ok (find-unremoved v j qs (no_removal v qs (ground arith)))
                ∙ split (str_eq v j) _ _ (sym (policy_at_of j file qs was_read))
            | inr some_gone ↦
                let same : stored (without vendor_of v qs) ≡ file' =
                  ap (λ (p : Result StoreError Bool × PolicyFile). p.1) (rw some_gone at ran) in
                ap (policy_at j) (sym same)
                ∙ policy_at_of j (stored (without vendor_of v qs)) (without vendor_of v qs) refl
                ∙ ap ok (find-without vendor_of v j qs)
                ∙ split (str_eq v j) _ _ (sym (policy_at_of j file qs was_read))
          ]
    ]
  where
    split :
        (b : Bool) (o : Option MerchantPolicy) (r : Result StoreError (Option MerchantPolicy))
        → ok o ≡ r
        → ok (if b then none else o) ≡ (if b then ok none else r)
    split true o r e = refl
    split false o r e = e
