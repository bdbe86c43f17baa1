-- ===== src/Stele/Resumption.antt =====
-- How `repair` of src/stele/agent-wallet-admin.ts goes on from the seed that it read.
use lyth_mcp.Prelude.{
  String, ◌≡◌, refl, ap, ◌∙◌, inl, inr, some, List, ok, ◌>>=◌, lift, recover, Triple, Triple-bind,
  Triple-raise, Triple-if, Triple-lift, Triple-recover, Triple-weaken,
}
use lyth_mcp.Stele.{
  ProvisioningRecord, provisioning, StateFile, absent, recorded, Credential, SeedRecord, Host, Act,
}
use lyth_mcp.Stele.State.{provisioning_of, create_provisioning}
use lyth_mcp.Stele.Custody.{find_content, decode_found, read_seed}
use lyth_mcp.Stele.Admin.{
  AdminResult, verified_record_address, found_seed, give_up, adopt, expects_other, resume,
  recover_orphan, normalized,
}
use lyth_mcp.Stele.Steps.{
  Is, Of-Is, Triple-given, Triple-given_both, Triple-normalized, read_seed-Is,
}
use lyth_mcp.Stele.Recording.{Filed}
use lyth_mcp.Stele.Beginning.{create-Is}
use lyth_mcp.Stele.Sound.{Fits, Intact, Sound, VaultSound}
use lyth_mcp.Stele.Creation.{only_seed, give_up-Sound, of_option-eq-ok}
use lyth_mcp.Stele.Adoption.{
  Repaired, verified-address, read-only, fitting-Sound, adopt-Repaired, resumed,
}

module _ (h : Host) where
  -- From the seed that was read.
  pub resume-Repaired :
      (p : ProvisioningRecord) (r : SeedRecord)
      → Intact h r.credential_id r.address r.seed
      → Fits r.credential_id r.address (recorded (provisioning p))
      → Triple
          (Filed (provisioning p) (only_seed r.credential_id r.address r.seed))
          (resume h p r)
          (Repaired h)
          (VaultSound h)
  unfolding resume
  resume-Repaired p r intact (own, expects) = Triple-normalized _ (
      Triple-bind _ _
        (Triple-lift
          {Q = λ a v.
            (a ≡ r.address) × Filed (provisioning p) (only_seed r.credential_id r.address r.seed) v}
          _ (λ a v e k. (verified-address h r a e, k))
          (fitting-Sound h r.credential_id r.address r.seed intact (recorded (provisioning p))
            (own, expects)))
        λ a. Triple-given _ λ same. rw same (
          Triple-if (expects_other p.expected_address r.address) _ _
            (λ _. Triple-raise _ (
              fitting-Sound h r.credential_id r.address r.seed intact (recorded (provisioning p))
                (own, expects)))
            λ _.
              resumed h r.credential_id r.address r.seed intact p own expects p.expected_address
                refl))

  orphan-Repaired :
      (r : SeedRecord)
      → Intact h r.credential_id r.address r.seed
      → Triple
          (Is absent (only_seed r.credential_id r.address r.seed))
          (do
            address ← lift (verified_record_address h r)
            p ← normalized (create_provisioning h r.credential_id)
            recover (adopt h p address) (give_up h p))
          (Repaired h)
          (VaultSound h)
  orphan-Repaired r intact =
      Triple-bind _ _
        (Triple-lift
          {Q = λ a v. (a ≡ r.address) × Is absent (only_seed r.credential_id r.address r.seed) v} _
          (λ a v e k. (verified-address h r a e, k))
          (fitting-Sound h r.credential_id r.address r.seed intact absent tt))
        λ a. Triple-given _ λ same. rw same (
          Triple-bind _ _
            (Triple-normalized _ (
              Triple-weaken _ (create-Is h r.credential_id) (λ v k. k) (λ _ v k. k)
                (λ v k. elim k [
                  | inl x ↦ fitting-Sound h r.credential_id r.address r.seed intact absent tt v x
                  | inr (_, x) ↦
                      fitting-Sound h r.credential_id r.address r.seed intact
                        (recorded (provisioning (provisioning_of h r.credential_id))) (refl, tt) v x
                ])))
            λ p. Triple-given_both _ λ begun _. rw begun (
              Triple-recover _ _
                (adopt-Repaired h r.credential_id r.address r.seed intact
                  (provisioning_of h r.credential_id) refl tt)
                (give_up-Sound h (provisioning_of h r.credential_id))))

  -- After a read of the seed.
  pub read-Repaired :
      {f : StateFile} {cs : List Credential} (id : String) (go : SeedRecord → Act AdminResult)
      → Sound h f cs
      → ((r : SeedRecord)
          → r.credential_id ≡ id
          → Intact h r.credential_id r.address r.seed
          → Fits r.credential_id r.address f
          → Triple
              (Is f (only_seed r.credential_id r.address r.seed))
              (go r)
              (Repaired h)
              (VaultSound h))
      → Triple
          (Is f cs)
          (do found ← normalized (read_seed h id); r ← lift (found_seed found); go r)
          (Repaired h)
          (VaultSound h)
  read-Repaired {f} {cs} id go sound step =
      Triple-bind _ _
        (Triple-normalized _ (
          Triple-weaken _ (read_seed-Is h id) (λ v k. k) (λ _ v k. k) (Of-Is (Sound h) f cs sound)))
        λ found. Triple-given _ λ d.
          Triple-bind _ _
            (Triple-lift
              {Q = λ r v. (decode_found h id (find_content id cs) ≡ ok (some r)) × Is f cs v} _
              (λ r v e k. (d ∙ ap ok (of_option-eq-ok _ found r e), k))
              (Of-Is (Sound h) f cs sound))
            λ r. Triple-given _ λ e. stepped r (read-only h f cs id r sound e)
    where
      stepped :
          (r : SeedRecord)
          → (r.credential_id ≡ id) × (cs ≡ only_seed r.credential_id r.address r.seed)
          → Triple (Is f cs) (go r) (Repaired h) (VaultSound h)
      stepped r (own, only) = let fits = rw only at sound in rw only (step r own fits.0 fits.1)

  pub recover_orphan-Repaired :
      {cs : List Credential} (id : String)
      → Sound h absent cs
      → Triple (Is absent cs) (recover_orphan h id) (Repaired h) (VaultSound h)
  unfolding recover_orphan
  recover_orphan-Repaired id sound =
      Triple-normalized _ (read-Repaired id _ sound (λ r _ intact _. orphan-Repaired r intact))
