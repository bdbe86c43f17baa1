-- ===== src/Stele/Creating.antt =====
-- When `create` of src/stele/agent-wallet-admin.ts makes a wallet, and what it leaves.
use lyth_mcp.Prelude.{
  ℕ, ◌+◌, String, ◌≡◌, refl, ap, ◌∙◌, ◌⊎◌, inl, inr, Bool, true, false, not, ◌||◌, any, suc, Option,
  none, some, List, [], ◌∷◌, if◌then◌else◌, str_eq, length, Result, ok, err, then_result, ◌>>=◌,
  recover, arith, ok-injective, Triple, Triple-bind, Triple-lift, Triple-recover, Triple-weaken,
}
use lyth_mcp.Stele.{
  Failure, of_custody, store_corrupt, provisioning, configured, SeedRecord, LifecycleRecord,
  StateFile, absent, Credential, seed_entry, foreign_entry, Host,
}
use lyth_mcp.Stele.State.{
  is_operation_id, provisioning_of, create_provisioning, is_provisioning_active,
}
use lyth_mcp.Stele.Custody.{insert_id, sort_ids, decode_seed_record, collect_ids}
use lyth_mcp.Stele.Admin.{may_create, no_seeds, give_up, seed_and_commit, create, normalized}
use lyth_mcp.Stele.Steps.{
  Is, Of-Is, Triple-given, Triple-given_both, Triple-normalized, read_lifecycle-Is,
  list_seed_ids-Is,
}
use lyth_mcp.Stele.Recording.{decoded_none}
use lyth_mcp.Stele.Beginning.{create-Is}
use lyth_mcp.Stele.Sound.{Sound, VaultSound}
use lyth_mcp.Stele.Creation.{Created, seed_and_commit-Created, unseeded-Sound, give_up-Sound}

length-insert_id : (id : String) (xs : List String) → length (insert_id id xs) ≡ suc (length xs)
length-insert_id id [] = refl
length-insert_id id (x ∷ xs) = ground (arith, length-insert_id id xs)

length-sort_ids : (xs : List String) → length (sort_ids xs) ≡ length xs
length-sort_ids [] = refl
length-sort_ids (x ∷ xs) = length-insert_id x (sort_ids xs) ∙ ap suc (length-sort_ids xs)

-- As many ids as credentials.
collected :
    (h : Host) (seen : List String) (cs : List Credential) (ids : List String)
    → collect_ids h seen cs ≡ ok ids
    → length ids ≡ length seen + length cs
collected h seen [] ids e = omega (arith, length-sort_ids seen, ap length (ok-injective e))
collected h seen (foreign_entry ∷ cs) ids e = absurd (cc)
collected h seen (seed_entry id content ∷ cs) ids e =
    checked (not (is_operation_id id) || any (str_eq id) seen) (decode_seed_record h id content)
      (collected h (id ∷ seen) cs ids) e
  where
    checked :
        (b : Bool) (r : Result Failure SeedRecord)
        → (collect_ids h (id ∷ seen) cs ≡ ok ids → length ids ≡ suc (length seen) + length cs)
        → (if b
            then err (of_custody store_corrupt)
            else then_result r (λ _. collect_ids h (id ∷ seen) cs))
          ≡ ok ids
        → length ids ≡ length seen + suc (length cs)
    checked true r k e = absurd (cc)
    checked false (err x) k e = absurd (cc)
    checked false (ok x) k e = omega (arith, k e)

pub collected_none : (h : Host) (cs : List Credential) → collect_ids h [] cs ≡ ok [] → cs ≡ []
collected_none h [] e = refl
collected_none h (c ∷ cs) e = absurd (impossible (collected h [] (c ∷ cs) [] e))
  where
    impossible : 0 ≡ 0 + suc (length cs) → ⊥
    impossible e = omega (arith, e)

if-err : {A : Type 0} {a : A} (b : Bool) (x y : Failure) → (if b then err x else err y) ≡ ok a → ⊥
if-err true x y e = cc
if-err false x y e = cc

module _ (h : Host) (id : String) (seed : List ℕ) where
  -- From an empty store and no file.
  begin-Created :
      Triple
        (Is absent [])
        (do
          p ← normalized (create_provisioning h id)
          recover (seed_and_commit h p seed) (give_up h p))
        (Created h id seed)
        (VaultSound h)
  begin-Created =
      Triple-bind _ _
        (Triple-normalized _ (
          Triple-weaken _ (create-Is h id) (λ v k. k) (λ _ v k. k)
            (λ v k. elim k [
              | inl x ↦ Of-Is (Sound h) absent [] tt v x
              | inr (named, x) ↦ unseeded-Sound h id seed named (provisioning_of h id) tt v x
            ])))
        λ p. Triple-given_both _ λ same named. rw same (
          Triple-recover _ _ (seed_and_commit-Created h id seed named)
            (give_up-Sound h (provisioning_of h id)))

  may_create-none : (r : Option LifecycleRecord) → may_create h r ≡ ok tt → r ≡ none
  may_create-none none e = refl
  may_create-none (some (configured c)) e = absurd (cc)
  may_create-none (some (provisioning p)) e = absurd (if-err (is_provisioning_active h p) _ _ e)

  no_seeds-none : (ids : List String) → no_seeds ids ≡ ok tt → ids ≡ []
  no_seeds-none [] e = refl
  no_seeds-none (x ∷ xs) e = absurd (cc)

  -- A creation that makes a wallet, or stops on the way, began with no file and no credentials; any
  -- other changes neither.
  pub create-Created :
      (f : StateFile) (cs : List Credential)
      → Triple
          (Is f cs)
          (create h id seed)
          (λ r v. (f ≡ absent) × (cs ≡ []) × Created h id seed r v)
          (λ v. Is f cs v ⊎ ((f ≡ absent) × (cs ≡ []) × VaultSound h v))
  unfolding create
  create-Created f cs = Triple-normalized _ (
      Triple-bind _ _ (Triple-weaken _ (read_lifecycle-Is h) (λ v k. k) (λ _ v k. k) (λ v k. inl k))
        λ r. Triple-given _ λ d.
          Triple-bind _ _
            (Triple-lift {Q = λ _ v. (f ≡ absent) × Is f cs v} _
              (λ _ v e k. (decoded_none h f (d ∙ ap ok (may_create-none r e)), k)) (λ v k. inl k))
            λ _. Triple-given _ λ missing.
              Triple-bind _ _
                (Triple-normalized _
                  (Triple-weaken _ (list_seed_ids-Is h) (λ v k. k) (λ _ v k. k) (λ v k. inl k)))
                λ ids. Triple-given _ λ listed.
                  Triple-bind _ _
                    (Triple-lift {Q = λ _ v. (cs ≡ []) × Is f cs v} _
                      (λ _ v e k. (collected_none h cs (listed ∙ ap ok (no_seeds-none ids e)), k))
                      (λ v k. inl k))
                    λ _. Triple-given _ λ empty.
                      Triple-weaken _ begin-Created (λ v (k, l). (k ∙ missing, l ∙ empty))
                        (λ r v k. (missing, empty, k)) (λ v k. inr (missing, empty, k)))
