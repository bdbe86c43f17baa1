-- ===== src/Stele/Repairing.antt =====
-- `repair` of src/stele/agent-wallet-admin.ts, whichever of its calls fail.
use lyth_mcp.Prelude.{
  String, ◌≡◌, refl, ◌∙◌, inl, inr, not, Option, none, some, List, [], ◌∷◌, str_eq, ok, Triple,
  Triple-bind, Triple-pure, Triple-raise, Triple-if, Triple-lift, Triple-weaken,
}
use lyth_mcp.Stele.{
  ConfiguredRecord, provisioning, configured, LifecycleRecord, StateFile, absent, recorded,
  Credential, Vault, Host,
}
use lyth_mcp.Stele.State.{decode_lifecycle}
use lyth_mcp.Stele.Custody.{collect_ids}
use lyth_mcp.Stele.Admin.{
  verified, locked_result, is_only, repair_without_lifecycle, verify_configured,
  resume_provisioning, repair_provisioning, repair_as, repair,
}
use lyth_mcp.Stele.Steps.{
  Is, Of-Is, Triple-any, Triple-given, Triple-normalized, read_lifecycle-Is, list_seed_ids-Is,
  read_seed-Is,
}
use lyth_mcp.Stele.Recording.{Filed, decoded_none, decoded_some}
use lyth_mcp.Stele.Beginning.{clear-Filed}
use lyth_mcp.Stele.Sound.{Sound, VaultSound}
use lyth_mcp.Stele.Creating.{collected_none}
use lyth_mcp.Stele.Adoption.{Repaired}
use lyth_mcp.Stele.Resumption.{resume-Repaired, read-Repaired, recover_orphan-Repaired}

module _ (h : Host) where
  -- A configured record is compared with its seed, and nothing is written.
  module _ (c : ConfiguredRecord) {cs : List Credential} where
    verify-Filed :
        (ids : List String)
        → Triple
            (Filed (configured c) cs)
            (verify_configured h c ids)
            (λ r v. (r ≡ locked_result verified c) × Filed (configured c) cs v)
            (Filed (configured c) cs)
    unfolding verify_configured
    verify-Filed ids =
        Triple-if (not (is_only ids c.credential_id)) _ _ (λ _. Triple-raise _ (λ v k. k))
          λ _.
            Triple-bind _ _
              (Triple-normalized _ (
                Triple-weaken _ (read_seed-Is h c.credential_id) (λ v k. k) (λ _ v (_, k). k)
                  (λ v k. k)))
              λ found.
                Triple-bind _ _
                  (Triple-lift {Q = λ _. Filed (configured c) cs} _ (λ _ v _ k. k) (λ v k. k))
                  λ r.
                    Triple-bind _ _
                      (Triple-lift {Q = λ _. Filed (configured c) cs} _ (λ _ v _ k. k) (λ v k. k))
                      λ a.
                        Triple-if (not (str_eq a c.address)) _ _ (λ _. Triple-raise _ (λ v k. k))
                          λ _. Triple-pure _ (λ v k. (refl, k))

  module _ {f : StateFile} {cs : List Credential} (sound : Sound h f cs) where
    kept : (v : Vault) → Is f cs v → VaultSound h v
    kept = Of-Is (Sound h) f cs sound

    none-Repaired :
        (ids : List String)
        → f ≡ absent
        → Triple (Is f cs) (repair_without_lifecycle h ids) (Repaired h) (VaultSound h)
    none-Repaired [] missing = Triple-pure _ (λ v k. (kept v k, rw k.0 (rw missing tt)))
    none-Repaired (id ∷ []) missing =
        rw missing (recover_orphan-Repaired h id (rw missing at sound))
    none-Repaired (x ∷ y ∷ ids) missing = Triple-raise _ kept

    configured-Repaired :
        (c : ConfiguredRecord) (ids : List String)
        → f ≡ recorded (configured c)
        → Triple (Is f cs) (verify_configured h c ids) (Repaired h) (VaultSound h)
    configured-Repaired c ids same =
        Triple-weaken _ (verify-Filed c ids) (λ v k. (k.0 ∙ same, k.1))
          (λ r v (is, k). (
            Of-Is (Sound h) (recorded (configured c)) cs (rw same at sound) v k,
            rw (is, k.0) (refl, refl),
          ))
          (Of-Is (Sound h) (recorded (configured c)) cs (rw same at sound))

    provisioning-Repaired :
        (p : lyth_mcp.Stele.ProvisioningRecord) (ids : List String)
        → collect_ids h [] cs ≡ ok ids
        → f ≡ recorded (provisioning p)
        → Triple (Is f cs) (repair_provisioning h p ids) (Repaired h) (VaultSound h)
    unfolding resume_provisioning
    provisioning-Repaired p [] listed same = rw same (
        Triple-bind _ _
          (Triple-weaken _ (clear-Filed h p) (λ v k. k) (λ _ v k. k)
            (λ v k. elim k [
              | inl x ↦ Of-Is (Sound h) (recorded (provisioning p)) cs (rw same at sound) v x
              | inr x ↦ cleared v x
            ]))
          λ _. Triple-pure _ (λ v k. (cleared v k, rw k.0 tt)))
      where
        cleared : (v : Vault) → Is absent cs v → VaultSound h v
        cleared v x = Of-Is (Sound h) absent [] tt v (x.0, x.1 ∙ collected_none h cs listed)
    provisioning-Repaired p (id ∷ ids) listed same = rw same (
        Triple-if (not (is_only (id ∷ ids) p.credential_id)) _ _
          (λ _. Triple-raise _ (Of-Is (Sound h) (recorded (provisioning p)) cs (rw same at sound)))
          λ _.
            read-Repaired h p.credential_id _ (rw same at sound)
              (λ r own intact fits. resume-Repaired h p r intact fits))

  as-Repaired :
      {f : StateFile} {cs : List Credential}
      → Sound h f cs
      → (r : Option LifecycleRecord) (ids : List String) → decode_lifecycle h f ≡ ok r
      → collect_ids h [] cs ≡ ok ids
      → Triple (Is f cs) (repair_as h r ids) (Repaired h) (VaultSound h)
  as-Repaired {f} sound none ids d listed = none-Repaired sound ids (decoded_none h f d)
  as-Repaired {f} sound (some (configured c)) ids d listed =
      configured-Repaired sound c ids (decoded_some h f (configured c) d)
  as-Repaired {f} sound (some (provisioning p)) ids d listed =
      provisioning-Repaired sound p ids listed (decoded_some h f (provisioning p) d)

  pub repair-Repaired : Triple (VaultSound h) (repair h) (Repaired h) (VaultSound h)
  unfolding repair
  repair-Repaired = Triple-any _ λ f cs sound.
      Triple-bind _ _
        (Triple-normalized _
          (Triple-weaken _ (read_lifecycle-Is h) (λ v k. k) (λ _ v k. k) (kept sound)))
        λ r. Triple-given _ λ d.
          Triple-bind _ _ (Triple-lift {Q = λ _. Is f cs} _ (λ _ v _ k. k) (kept sound)) λ _.
            Triple-bind _ _
              (Triple-normalized _
                (Triple-weaken _ (list_seed_ids-Is h) (λ v k. k) (λ _ v k. k) (kept sound)))
              λ ids. Triple-given _ λ listed. as-Repaired sound r ids d listed

  -- A configured wallet is only looked at.
  pub repair-Filed :
      (c : ConfiguredRecord) (cs : List Credential)
      → Triple
          (Filed (configured c) cs)
          (repair h)
          (λ r v. (r ≡ locked_result verified c) × Filed (configured c) cs v)
          (Filed (configured c) cs)
  unfolding repair
  repair-Filed c cs =
      Triple-bind _ _
        (Triple-normalized _
          (Triple-weaken _ (read_lifecycle-Is h) (λ v k. k) (λ _ v k. k) (λ v k. k)))
        λ r. Triple-given _ λ d.
          Triple-bind _ _
            (Triple-lift {Q = λ _. Filed (configured c) cs} _ (λ _ v _ k. k) (λ v k. k))
            λ _.
              Triple-bind _ _
                (Triple-normalized _
                  (Triple-weaken _ (list_seed_ids-Is h) (λ v k. k) (λ _ v (_, k). k) (λ v k. k)))
                λ ids. looked_at r ids d
    where
      looked_at :
          (r : Option LifecycleRecord) (ids : List String)
          → decode_lifecycle h (recorded (configured c)) ≡ ok r
          → Triple
              (Filed (configured c) cs)
              (repair_as h r ids)
              (λ r v. (r ≡ locked_result verified c) × Filed (configured c) cs v)
              (Filed (configured c) cs)
      looked_at none ids d = let never = decoded_none h (recorded (configured c)) d in absurd (cc)
      looked_at (some (provisioning p)) ids d =
          let never = decoded_some h (recorded (configured c)) (provisioning p) d in absurd (cc)
      looked_at (some (configured k)) ids d =
          rw (same (decoded_some h (recorded (configured c)) (configured k) d)) (verify-Filed c ids)
        where
          same : recorded (configured c) ≡ recorded (configured k) → k ≡ c
          same e = cc
