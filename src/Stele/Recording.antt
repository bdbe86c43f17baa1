-- ===== src/Stele/Recording.antt =====
-- What the operations of src/stele/wallet-state.ts make of a record that is being provisioned.
use lyth_mcp.Prelude.{
  String, ◌≡◌, refl, ap, ◌∙◌, ◌⊎◌, inl, inr, Bool, true, false, not, Option, none, some, List,
  if◌then◌else◌, str_eq, ok, err, ◌>>=◌, pure, raise, ◌>>◌, Triple, Triple-bind, Triple-pure,
  Triple-raise, Triple-if, Triple-lift, Triple-weaken,
}
use lyth_mcp.Stele.{
  Failure, of_state, corrupt, ProvisioningRecord, LifecycleRecord, provisioning, configured,
  StateFile, absent, malformed, recorded, Credential, Vault, Host,
}
use lyth_mcp.Stele.State.{
  expected_admissible, admissible, decode_lifecycle, matching, matching_provisioning,
  atomic_replace, with_expected, differs, set_expected_address, is_expected, configured_of,
  commit_configured,
}
use lyth_mcp.Stele.Steps.{Is, Triple-given, attempt_file-Is, read_lifecycle-Is}

pub not-false : (b : Bool) → not b ≡ false → b ≡ true
not-false true e = refl
not-false false e = absurd (cc)

pub if-eq-ok :
    {A : Type 0} (b : Bool) (x a : A) (e : Failure)
    → (if b then ok x else err e) ≡ ok a
    → (b ≡ true) × (x ≡ a)
if-eq-ok true x a e h = (refl, cc)
if-eq-ok false x a e h = absurd (cc)

-- What a record that is read says of the file.
module _ (h : Host) where
  pub decoded_some :
      (f : StateFile) (r : LifecycleRecord) → decode_lifecycle h f ≡ ok (some r) → f ≡ recorded r
  decoded_some absent r d = absurd (cc)
  decoded_some malformed r d = absurd (cc)
  decoded_some (recorded (provisioning p)) r d =
      let (_, e) =
        if-eq-ok (expected_admissible h p.expected_address) (some (provisioning p)) (some r)
          (of_state corrupt) d in
      cc
  decoded_some (recorded (configured c)) r d =
      let (_, e) =
        if-eq-ok (admissible h c.address) (some (configured c)) (some r) (of_state corrupt) d in
      cc

  pub decoded_none : (f : StateFile) → decode_lifecycle h f ≡ ok none → f ≡ absent
  decoded_none absent d = refl
  decoded_none malformed d = absurd (cc)
  decoded_none (recorded (provisioning p)) d =
      let (_, e) =
        if-eq-ok (expected_admissible h p.expected_address) (some (provisioning p)) none
          (of_state corrupt) d in
      absurd (cc)
  decoded_none (recorded (configured c)) d =
      let (_, e) =
        if-eq-ok (admissible h c.address) (some (configured c)) none (of_state corrupt) d in
      absurd (cc)

matched :
    (p q : ProvisioningRecord) (r : Option LifecycleRecord)
    → matching p r ≡ ok q
    → r ≡ some (provisioning q)
matched p q none e = absurd (cc)
matched p q (some (configured c)) e = absurd (cc)
matched p q (some (provisioning o)) e =
    let (_, k) = if-eq-ok (str_eq o.credential_id p.credential_id) o q (of_state corrupt) e in cc

-- A record in the file.
abbrev pub Filed : LifecycleRecord → List Credential → Vault → Type 0
Filed r = Is (recorded r)

abbrev pub MaySet : Host → ProvisioningRecord → String → Type 0
MaySet h p address =
    (h.is_canonical_address address ≡ true) × (differs p.expected_address address ≡ false)

abbrev pub MayCommit : Host → ProvisioningRecord → String → Type 0
MayCommit h p address =
    (h.is_canonical_address address ≡ true) × (is_expected p.expected_address address ≡ true)

module _ (h : Host) {cs : List Credential} where
  -- The current record, as it is read again.
  pub matching-Is :
      (f : StateFile) (p : ProvisioningRecord)
      → Triple
          (Is f cs)
          (matching_provisioning h p)
          (λ q v. (f ≡ recorded (provisioning q)) × Is f cs v)
          (Is f cs)
  unfolding matching_provisioning
  matching-Is f p =
      Triple-bind _ _ (read_lifecycle-Is h)
        λ r. Triple-lift _ (λ q v e (d, k). (recorded_is r q d e, k)) (λ v (d, k). k)
    where
      recorded_is :
          (r : Option LifecycleRecord) (q : ProvisioningRecord)
          → decode_lifecycle h f ≡ ok r
          → matching p r ≡ ok q
          → f ≡ recorded (provisioning q)
      recorded_is r q d e = decoded_some h f (provisioning q) (d ∙ ap ok (matched p q r e))

  pub replace-Is :
      (r s : LifecycleRecord)
      → Triple (Filed r cs) (atomic_replace s) (λ _. Filed s cs) (λ v. Filed r cs v ⊎ Filed s cs v)
  unfolding atomic_replace
  replace-Is r s = attempt_file-Is _ (recorded s)

  guarded-replace :
      {A : Type 0} (b : Bool) (e : Failure) (r s : LifecycleRecord) (a : A)
      → Triple
          (Filed r cs)
          (if b then raise e else (atomic_replace s >> pure a))
          (λ x v. (x ≡ a) × (b ≡ false) × Filed s cs v)
          (λ v. Filed r cs v ⊎ ((b ≡ false) × Filed s cs v))
  guarded-replace b e r s a =
      Triple-if b _ _ (λ _. Triple-raise e (λ v k. inl k))
        λ passed.
          Triple-bind _ _
            (Triple-weaken _ (replace-Is r s) (λ v k. k) (λ _ v k. k)
              (λ v k. elim k [ inl x ↦ inl x | inr x ↦ inr (passed, x) ]))
            λ _. Triple-pure a (λ v k. (refl, passed, k))

  -- From the record that the caller holds, a call on it that reads it again and replaces it by
  -- what `next` makes of it, unless `guard` forbids.
  replaced-Filed :
      {A : Type 0} (p : ProvisioningRecord) (guard : ProvisioningRecord → Bool) (e : Failure)
      (next : ProvisioningRecord → LifecycleRecord) (answer : ProvisioningRecord → A)
      → Triple
          (Filed (provisioning p) cs)
          (matching_provisioning h p >>= λ q.
            if guard q then raise e else (atomic_replace (next q) >> pure (answer q)))
          (λ x v. (x ≡ answer p) × (guard p ≡ false) × Filed (next p) cs v)
          (λ v. Filed (provisioning p) cs v ⊎ ((guard p ≡ false) × Filed (next p) cs v))
  replaced-Filed p guard e next answer =
      Triple-bind _ _
        (Triple-weaken _ (matching-Is (recorded (provisioning p)) p) (λ v k. k) (λ q v k. k)
          (λ v k. inl k))
        λ q. Triple-given _ λ same.
          rw (unchanged q same) (guarded-replace (guard p) e (provisioning p) (next p) (answer p))
    where
      unchanged :
          (q : ProvisioningRecord) → recorded (provisioning p) ≡ recorded (provisioning q) → q ≡ p
      unchanged q same = cc

  module _ (p : ProvisioningRecord) (address : String) where
    pub set_expected-Filed :
        Triple
          (Filed (provisioning p) cs)
          (set_expected_address h p address)
          (λ q v.
            (q ≡ with_expected address p)
            × MaySet h p address
            × Filed (provisioning (with_expected address p)) cs v)
          (λ v.
            Filed (provisioning p) cs v
            ⊎ (MaySet h p address × Filed (provisioning (with_expected address p)) cs v))
    unfolding set_expected_address
    set_expected-Filed =
        Triple-if (not (h.is_canonical_address address)) _ _ (λ _. Triple-raise _ (λ v k. inl k))
          λ canonical.
            Triple-weaken _
              (replaced-Filed p (λ q. differs q.expected_address address) (of_state corrupt)
                (λ q. provisioning (with_expected address q)) (with_expected address))
              (λ v k. k) (λ q v (same, fits, k). (same, (not-false _ canonical, fits), k))
              (λ v k. elim k [
                | inl x ↦ inl x
                | inr (fits, x) ↦ inr ((not-false _ canonical, fits), x)
              ])

    pub commit-Filed :
        Triple
          (Filed (provisioning p) cs)
          (commit_configured h p address)
          (λ c v.
            (c ≡ configured_of p address)
            × MayCommit h p address
            × Filed (configured (configured_of p address)) cs v)
          (λ v.
            Filed (provisioning p) cs v
            ⊎ (MayCommit h p address × Filed (configured (configured_of p address)) cs v))
    unfolding commit_configured
    commit-Filed =
        Triple-if (not (h.is_canonical_address address)) _ _ (λ _. Triple-raise _ (λ v k. inl k))
          λ canonical.
            Triple-weaken _
              (replaced-Filed p (λ q. not (is_expected q.expected_address address))
                (of_state corrupt) (λ q. configured (configured_of q address))
                (λ q. configured_of q address))
              (λ v k. k)
              (λ q v (same, fits, k). (same, (not-false _ canonical, not-false _ fits), k))
              (λ v k. elim k [
                | inl x ↦ inl x
                | inr (fits, x) ↦ inr ((not-false _ canonical, not-false _ fits), x)
              ])
