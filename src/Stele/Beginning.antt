-- ===== src/Stele/Beginning.antt =====
-- How a record of src/stele/wallet-state.ts begins, is abandoned and is cleared.
use lyth_mcp.Prelude.{
  String, ◌≡◌, refl, ◌⊎◌, inl, inr, true, false, not, Option, none, some, List, str_eq, ok, Triple,
  Triple-bind, Triple-pure, Triple-raise, Triple-if, Triple-weaken,
}
use lyth_mcp.Stele.{
  ProvisioningRecord, LifecycleRecord, provisioning, configured, StateFile, absent, recorded,
  Credential, Host,
}
use lyth_mcp.Stele.State.{
  is_operation_id, decode_lifecycle, atomic_replace, link_record, atomic_create, provisioning_of,
  create_provisioning, inactive, abandon_provisioning, clear_record, clear_provisioning,
}
use lyth_mcp.Stele.Steps.{
  Is, Triple-given, consult-Is, attempt_file-Is, get_file-Is, read_lifecycle-Is,
}
use lyth_mcp.Stele.Recording.{Filed, not-false, decoded_none, matching-Is, replace-Is}

module _ (h : Host) {cs : List Credential} where
  pub abandon-Is :
      (f : StateFile) (p : ProvisioningRecord)
      → Triple
          (Is f cs)
          (abandon_provisioning h p)
          (λ _ v.
            Is f cs v
            ⊎ ((q : ProvisioningRecord) × (f ≡ recorded (provisioning q))
                × Filed (provisioning (inactive q)) cs v))
          (λ v.
            Is f cs v
            ⊎ ((q : ProvisioningRecord) × (f ≡ recorded (provisioning q))
                × Filed (provisioning (inactive q)) cs v))
  unfolding abandon_provisioning
  abandon-Is f p =
      Triple-bind _ _ (Triple-weaken _ (matching-Is h f p) (λ v k. k) (λ q v k. k) (λ v k. inl k))
        λ q. Triple-given _ λ same.
          Triple-if (not q.active) _ _ (λ _. Triple-pure q (λ v k. inl k))
            λ _. rw same (
              Triple-bind _ _
                (Triple-weaken _ (replace-Is h (provisioning q) (provisioning (inactive q)))
                  (λ v k. k) (λ _ v k. k)
                  (λ v k. elim k [ inl x ↦ inl x | inr x ↦ inr (q, refl, x) ]))
                λ _. Triple-pure (inactive q) (λ v k. inr (q, refl, k)))

  -- A clear of the record that the caller holds.
  pub clear-Filed :
      (p : ProvisioningRecord)
      → Triple
          (Filed (provisioning p) cs)
          (clear_provisioning h p)
          (λ _. Is absent cs)
          (λ v. Filed (provisioning p) cs v ⊎ Is absent cs v)
  unfolding clear_provisioning
  clear-Filed p =
      Triple-bind _ _ (Triple-weaken _ (read_lifecycle-Is h) (λ v k. k) (λ q v k. k) (λ v k. inl k))
        λ r. Triple-given _ λ d. cleared r d
    where
      cleared :
          (r : Option LifecycleRecord)
          → decode_lifecycle h (recorded (provisioning p)) ≡ ok r
          → Triple
              (Filed (provisioning p) cs)
              (clear_record p r)
              (λ _. Is absent cs)
              (λ v. Filed (provisioning p) cs v ⊎ Is absent cs v)
      cleared none d = let never = decoded_none h (recorded (provisioning p)) d in absurd (cc)
      cleared (some (configured c)) d = Triple-raise _ (λ v k. inl k)
      cleared (some (provisioning q)) d =
          Triple-if (not (str_eq q.credential_id p.credential_id)) _ _
            (λ _. Triple-raise _ (λ v k. inl k)) λ _. attempt_file-Is _ absent

  -- A record that is begun where the file is missing.
  pub create-Is :
      (id : String)
      → Triple
          (Is absent cs)
          (create_provisioning h id)
          (λ p v.
            (p ≡ provisioning_of h id)
            × (is_operation_id id ≡ true)
            × Filed (provisioning (provisioning_of h id)) cs v)
          (λ v.
            Is absent cs v
            ⊎ ((is_operation_id id ≡ true) × Filed (provisioning (provisioning_of h id)) cs v))
  unfolding create_provisioning atomic_create atomic_replace
  create-Is id =
      Triple-if (not (is_operation_id id)) _ _ (λ _. Triple-raise _ (λ v k. inl k))
        λ named.
          Triple-bind _ _ (Triple-weaken _ (consult-Is _) (λ v k. k) (λ _ v k. k) (λ v k. inl k))
            λ _. Triple-bind _ _ (Triple-bind _ _ get_file-Is (λ g. linked g named)) λ b.
              Triple-given _ λ done. rw done (Triple-pure _ (λ v k. (refl, not-false _ named, k)))
    where
      linked :
          (g : StateFile)
          → not (is_operation_id id) ≡ false
          → Triple
              (λ v. (g ≡ absent) × Is absent cs v)
              (link_record (provisioning (provisioning_of h id)) g)
              (λ b v. (b ≡ true) × Filed (provisioning (provisioning_of h id)) cs v)
              (λ v.
                Is absent cs v
                ⊎ ((is_operation_id id ≡ true) × Filed (provisioning (provisioning_of h id)) cs v))
      linked g named = Triple-given _ λ missing. rw missing (
          Triple-bind _ _
            (Triple-weaken _ (attempt_file-Is _ (recorded (provisioning (provisioning_of h id))))
              (λ v k. k) (λ _ v k. k)
              (λ v k. elim k [ inl x ↦ inl x | inr x ↦ inr (not-false _ named, x) ]))
            λ _. Triple-pure true (λ v k. (refl, k)))
