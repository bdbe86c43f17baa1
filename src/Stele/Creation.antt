-- ===== src/Stele/Creation.antt =====
-- `create` of src/stele/agent-wallet-admin.ts, whichever of its calls fail.
use lyth_mcp.Prelude.{
  ℕ, String, ◌≡◌, refl, sym, ap, ◌⊎◌, inl, inr, true, not, ◌||◌, ◌==◌, length, Option, none, some,
  List, [], ◌∷◌, if◌then◌else◌, ok, of_option, ◌>>=◌, pure, raise, ◌>>◌, Triple, Triple-bind,
  Triple-pure, Triple-raise, Triple-if, Triple-lift, Triple-recover, Triple-weaken,
}
use lyth_mcp.Stele.{
  Failure, of_other, of_admin, manual_recovery_required, ProvisioningRecord, ConfiguredRecord,
  provisioning, configured, StateFile, recorded, Credential, seed_entry, foreign_entry, Vault, Host,
  SeedRecord,
}
use lyth_mcp.Stele.State.{
  is_operation_id, provisioning_of, with_expected, inactive, configured_of, commit_configured,
}
use lyth_mcp.Stele.Custody.{list_seed_ids, set_password, decode_found, store_seed, create_seed}
use lyth_mcp.Stele.Admin.{
  AdminResult, created, locked_result, is_only, give_up, seed_and_commit, normalized,
}
use lyth_mcp.Stele.Steps.{
  Is, Of-Is, Triple-any, Triple-given, Triple-given_both, Triple-normalized, consult-Is,
  get_credentials-Is, attempt_credentials-Is, list_seed_ids-Is, read_seed-Is,
}
use lyth_mcp.Stele.Recording.{Filed, set_expected-Filed, commit-Filed}
use lyth_mcp.Stele.Beginning.{abandon-Is}
use lyth_mcp.Stele.Sound.{Sound, VaultSound, ExpectsCanonical}

pub of_option-eq-ok :
    {A : Type 0} (e : Failure) (o : Option A) (a : A) → of_option e o ≡ ok a → o ≡ some a
of_option-eq-ok e none a k = absurd (cc)
of_option-eq-ok e (some b) a k = cc

-- The one credential under `id`.
abbrev pub only_seed : String → String → List ℕ → List Credential
only_seed id address seed = seed_entry id (some (address, seed)) ∷ []

module _ (h : Host) where
  -- The first seed.
  create_seed-Is :
      (f : StateFile) (id address : String) (seed : List ℕ)
      → Triple
          (Is f [])
          (create_seed h id address seed)
          (λ _. Is f (only_seed id address seed))
          (λ v. Is f [] v ⊎ Is f (only_seed id address seed) v)
  unfolding create_seed set_password
  create_seed-Is f id address seed =
      Triple-if (not (is_operation_id id)) _ _ (λ _. Triple-raise _ (λ v k. inl k))
        λ _.
          Triple-if (not (h.is_canonical_address address) || not (length seed == 32)) _ _
            (λ _. Triple-raise _ (λ v k. inl k))
            λ _.
              Triple-bind _ _
                (Triple-weaken _ (read_seed-Is h id) (λ v k. k) (λ _ v k. k) (λ v k. inl k)) stored
    where
      stored :
          (r : Option SeedRecord)
          → Triple
              (λ v. (decode_found h id none ≡ ok r) × Is f [] v)
              (store_seed h id address seed r)
              (λ _. Is f (only_seed id address seed))
              (λ v. Is f [] v ⊎ Is f (only_seed id address seed) v)
      stored (some r) = Triple-raise _ (λ v (_, k). inl k)
      stored none =
          Triple-bind _ _
            (Triple-bind _ _
              (Triple-weaken _ get_credentials-Is (λ v (_, k). k) (λ _ v k. k) (λ v k. k))
              λ cs. Triple-given _ λ empty. rw empty (attempt_credentials-Is _ _))
            λ _.
              Triple-bind _ _
                (Triple-weaken _ (read_seed-Is h id) (λ v k. k) (λ _ v k. k) (λ v k. inr k))
                λ r. Triple-lift _ (λ u v e (_, k). k) (λ v (_, k). inr k)

  -- An abandoned record is as sound as it was.
  inactive-Sound :
      (p : ProvisioningRecord) (cs : List Credential)
      → Sound h (recorded (provisioning p)) cs
      → Sound h (recorded (provisioning (inactive p))) cs
  inactive-Sound p [] s = s
  inactive-Sound p (foreign_entry ∷ cs) s = absurd s
  inactive-Sound p (seed_entry id none ∷ cs) s = absurd s
  inactive-Sound p (seed_entry id (some (address, seed)) ∷ []) s = s
  inactive-Sound p (seed_entry id (some (address, seed)) ∷ d ∷ cs) s = absurd s

  pub give_up-Sound :
      {A : Type 0} {Q : A → Vault → Type 0} (p : ProvisioningRecord) (e : Failure)
      → Triple (VaultSound h) (give_up h p e) Q (VaultSound h)
  unfolding give_up
  give_up-Sound p e = Triple-any _ λ f cs sound.
      Triple-bind _ _
        (Triple-recover _ _
          (Triple-bind _ _
            (Triple-weaken _ (abandon-Is h f p) (λ v k. k) (λ _ v. kept f cs sound v)
              (kept f cs sound))
            λ _. Triple-pure tt (λ v k. k))
          (λ _. Triple-pure tt (λ v k. k)))
        λ _. Triple-raise e (λ v k. k)
    where
      kept :
          (f : StateFile) (cs : List Credential)
          → Sound h f cs
          → (v : Vault)
          → Is f cs v
            ⊎ ((q : ProvisioningRecord) × (f ≡ recorded (provisioning q))
                × Filed (provisioning (inactive q)) cs v)
          → VaultSound h v
      kept f cs sound v (inl k) = Of-Is (Sound h) f cs sound v k
      kept f cs sound v (inr (q, same, k)) =
          Of-Is (Sound h) (recorded (provisioning (inactive q))) cs
            (inactive-Sound q cs (rw (sym same) sound)) v k

  -- What `create` answers, and what it leaves.
  abbrev pub Created : String → List ℕ → AdminResult → Vault → Type 0
  Created id seed r v =
      (address : String) × (h.derive_address seed ≡ some address)
      × (is_operation_id id ≡ true)
      × (h.is_canonical_address address ≡ true)
      × (r ≡ locked_result created (configured_of (provisioning_of h id) address))
      × Filed (configured (configured_of (provisioning_of h id) address))
          (only_seed id address seed) v

  module _ (id : String) (seed : List ℕ) (named : is_operation_id id ≡ true) where
    pub unseeded-Sound :
        (p : ProvisioningRecord)
        → ExpectsCanonical h p.expected_address
        → (v : Vault) → Filed (provisioning p) [] v
        → VaultSound h v
    unseeded-Sound p e v k = Of-Is (Sound h) (recorded (provisioning p)) [] e v k

    module _ (address : String) (derived : h.derive_address seed ≡ some address)
        (canonical : h.is_canonical_address address ≡ true) where
      -- The record while the seed is stored, and the record that is committed.
      abbrev seeding : ProvisioningRecord
      seeding = with_expected address (provisioning_of h id)

      abbrev committed : ConfiguredRecord
      committed = configured_of (provisioning_of h id) address

      seeded-Sound :
          (v : Vault) → Filed (provisioning seeding) (only_seed id address seed) v → VaultSound h v
      seeded-Sound v k =
          Of-Is (Sound h) (recorded (provisioning seeding)) (only_seed id address seed)
            ((named, canonical, derived), (refl, refl)) v k

      committed-Sound :
          (v : Vault) → Filed (configured committed) (only_seed id address seed) v → VaultSound h v
      committed-Sound v k =
          Of-Is (Sound h) (recorded (configured committed)) (only_seed id address seed)
            ((named, canonical, derived), (refl, refl)) v k

      commit-Created :
          (ids : List String)
          → Triple
              (Filed (provisioning seeding) (only_seed id address seed))
              (if not (is_only ids id)
                then raise (of_admin manual_recovery_required)
                else (do c ← commit_configured h seeding address; pure (locked_result created c)))
              (Created id seed)
              (VaultSound h)
      commit-Created ids =
          Triple-if (not (is_only ids id)) _ _ (λ _. Triple-raise _ seeded-Sound)
            λ _.
              Triple-bind _ _
                (Triple-weaken _ (commit-Filed h seeding address) (λ v k. k) (λ _ v k. k)
                  (λ v k. elim k [ inl x ↦ seeded-Sound v x | inr (_, x) ↦ committed-Sound v x ]))
                λ c. Triple-pure _ (λ v (same, _, k).
                  (address, derived, named, canonical, ap (locked_result created) same, k))

      store-Created :
          Triple
            (Filed (provisioning seeding) [])
            (do
              normalized (create_seed h id address seed)
              ids ← normalized (list_seed_ids h)
              if not (is_only ids id)
                  then raise (of_admin manual_recovery_required)
                  else (do c ← commit_configured h seeding address; pure (locked_result created c)))
            (Created id seed)
            (VaultSound h)
      store-Created =
          Triple-bind _ _
            (Triple-normalized _ (
              Triple-weaken _ (create_seed-Is (recorded (provisioning seeding)) id address seed)
                (λ v k. k) (λ _ v k. k)
                (λ v k. elim k [
                  | inl x ↦ unseeded-Sound seeding canonical v x
                  | inr x ↦ seeded-Sound v x
                ])))
            λ _.
              Triple-bind _ _
                (Triple-normalized _
                  (Triple-weaken _ (list_seed_ids-Is h) (λ v k. k) (λ _ v (_, k). k) seeded-Sound))
                commit-Created

    pub seed_and_commit-Created :
        Triple
          (Filed (provisioning (provisioning_of h id)) [])
          (seed_and_commit h (provisioning_of h id) seed)
          (Created id seed)
          (VaultSound h)
    unfolding seed_and_commit
    seed_and_commit-Created =
        Triple-bind _ _
          (Triple-weaken _ (consult-Is of_other) (λ v k. k) (λ _ v k. k)
            (unseeded-Sound (provisioning_of h id) tt))
          λ _.
            Triple-bind _ _
              (Triple-lift
                {Q = λ a v.
                  (h.derive_address seed ≡ some a)
                  × Filed (provisioning (provisioning_of h id)) [] v}
                _ (λ a v e k. (of_option-eq-ok _ _ a e, k))
                (unseeded-Sound (provisioning_of h id) tt))
              λ address. Triple-given _ λ derived.
                Triple-bind _ _
                  (Triple-weaken _ (set_expected-Filed h (provisioning_of h id) address) (λ v k. k)
                    (λ _ v k. k)
                    (λ v k. elim k [
                      | inl x ↦ unseeded-Sound (provisioning_of h id) tt v x
                      | inr ((canonical, _), x) ↦
                          unseeded-Sound (with_expected address (provisioning_of h id)) canonical v
                            x
                    ]))
                  λ q.
                    Triple-given_both _
                      λ same (canonical, _). rw same (store-Created address derived canonical)
