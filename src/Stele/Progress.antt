-- ===== src/Stele/Progress.antt =====
-- A repair whose calls all succeed, once the process that left the wallet has ended:
-- src/stele/agent-wallet-admin.ts.
use lyth_mcp.Prelude.{
  ℕ, String, ◌≡◌, refl, true, false, Option, none, some, List, [], ◌∷◌, str_eq_refl, Result, ok,
  err, is_ok, rescue, ◌>>=◌, pure, raise, lift, recover,
}
use lyth_mcp.Stele.{
  Act, Failure, provisioning, configured, StateFile, absent, malformed, recorded, Credential,
  seed_entry, foreign_entry, Vault, Host, next_outcome, consult, attempt, modify, get_file,
  get_credentials, ProvisioningRecord, ConfiguredRecord,
}
use lyth_mcp.Stele.State.{
  provisioning_of, is_operation_id, admissible, read_lifecycle, matching_provisioning,
  clear_provisioning, set_expected_address, commit_configured, create_provisioning, atomic_create,
  atomic_replace, is_provisioning_active, expected_admissible,
}
use lyth_mcp.Stele.Custody.{list_seed_ids, read_seed}
use lyth_mcp.Stele.Admin.{
  AdminResult, normalized, raise_normalized, repair, recover_orphan, adopt, verify_configured,
  resume, resume_provisioning,
}
use lyth_mcp.Stele.Sound.{Sound, Expects, ExpectsCanonical}
use lyth_mcp.Stele.Creation.{only_seed}

abbrev pub calm : StateFile → List Credential → Vault
calm f cs = record { file = f; credentials = cs; outcomes = [] }

module _ (h : Host) where
  abbrev pub Mends : StateFile → List Credential → Type 0
  Mends f cs = is_ok (repair h (calm f cs)).0 ≡ true

  none_left : Mends absent []
  unfolding repair normalized raise_normalized read_lifecycle list_seed_ids consult next_outcome
      get_file get_credentials ◌>>=◌ recover pure raise lift
  none_left = refl

  -- The process that the record names is not alive, or the record is not active.
  abbrev pub Idle : StateFile → Type 0
  Idle f =
      (p : ProvisioningRecord) → f ≡ recorded (provisioning p) → is_provisioning_active h p ≡ false

  begun :
      (p : ProvisioningRecord)
      → is_provisioning_active h p ≡ false
      → expected_admissible h p.expected_address ≡ true
      → Mends (recorded (provisioning p)) []
  unfolding repair normalized raise_normalized read_lifecycle list_seed_ids consult next_outcome
      get_file get_credentials ◌>>=◌ recover pure raise lift clear_provisioning attempt modify
      read_seed set_expected_address commit_configured matching_provisioning create_provisioning
      atomic_create atomic_replace verify_configured resume resume_provisioning recover_orphan adopt
  begun p idle e = simp (e, idle, str_eq_refl p.credential_id)

  module _ (id address : String) (seed : List ℕ) (named : is_operation_id id ≡ true)
      (canonical : h.is_canonical_address address ≡ true) (fits : admissible h address ≡ true)
      (derived : h.derive_address seed ≡ some address) where
    begun_record : create_provisioning h id (calm absent (only_seed id address seed)) ≡ (
      ok (provisioning_of h id),
      calm (recorded (provisioning (provisioning_of h id))) (only_seed id address seed),
    )
    unfolding create_provisioning atomic_create atomic_replace attempt modify consult next_outcome
        get_file ◌>>=◌ pure raise lift
    begun_record = simp (named)

    adopted :
        is_ok
          (adopt h
            (provisioning_of h id)
            address
            (calm (recorded (provisioning (provisioning_of h id))) (only_seed id address seed))).0
        ≡ true
    unfolding adopt set_expected_address commit_configured matching_provisioning read_lifecycle
        atomic_replace attempt modify consult next_outcome get_file ◌>>=◌ pure raise lift
    adopted = simp (canonical, fits, str_eq_refl id, str_eq_refl address)

    rescued :
        (r : Result Failure AdminResult) (k : Failure → Act AdminResult) (v : Vault)
        → is_ok r ≡ true
        → is_ok (rescue r k v).0 ≡ true
    rescued (ok a) k v e = refl
    rescued (err x) k v e = absurd (cc)

    orphan : Mends absent (only_seed id address seed)
    unfolding repair normalized raise_normalized read_lifecycle list_seed_ids consult next_outcome
        get_file get_credentials ◌>>=◌ recover pure raise lift recover_orphan read_seed
    orphan =
        simp (named, canonical, derived, str_eq_refl id, str_eq_refl address, begun_record)
          (rescued _ _ _ (rescued _ _ _ adopted))

    pending :
        (p : ProvisioningRecord) (o : Option String)
        → is_provisioning_active h p ≡ false
        → p.expected_address ≡ o
        → p.credential_id ≡ id
        → Expects o address
        → Mends (recorded (provisioning p)) (only_seed id address seed)
    unfolding repair normalized raise_normalized read_lifecycle list_seed_ids consult next_outcome
        get_file get_credentials ◌>>=◌ recover pure raise lift clear_provisioning attempt modify
        read_seed set_expected_address commit_configured matching_provisioning create_provisioning
        atomic_create atomic_replace verify_configured resume resume_provisioning recover_orphan
        adopt
    pending p none idle e own same =
        simp (e, own, named, canonical, derived, idle, fits, str_eq_refl id, str_eq_refl address)
    pending p (some x) idle e own same =
        simp
          (e, own, same, named, canonical, derived, idle, fits, str_eq_refl id, str_eq_refl address)

    done :
        (c : ConfiguredRecord)
        → c.credential_id ≡ id
        → c.address ≡ address
        → Mends (recorded (configured c)) (only_seed id address seed)
    unfolding repair normalized raise_normalized read_lifecycle list_seed_ids consult next_outcome
        get_file get_credentials ◌>>=◌ recover pure raise lift clear_provisioning attempt modify
        read_seed set_expected_address commit_configured matching_provisioning create_provisioning
        atomic_create atomic_replace verify_configured resume resume_provisioning recover_orphan
        adopt
    done c own same =
        simp (own, same, named, canonical, fits, derived, str_eq_refl id, str_eq_refl address)

  module _ (within : (a : String) → h.is_canonical_address a ≡ true → admissible h a ≡ true) where
    expected-admissible :
        (o : Option String) → ExpectsCanonical h o → expected_admissible h o ≡ true
    expected-admissible none e = refl
    expected-admissible (some a) e = within a e

    pub Sound-Mends : (f : StateFile) (cs : List Credential) → Idle f → Sound h f cs → Mends f cs
    Sound-Mends absent [] idle s = none_left
    Sound-Mends malformed [] idle s = absurd s
    Sound-Mends (recorded (provisioning p)) [] idle s =
        begun p (idle p refl) (expected-admissible p.expected_address s)
    Sound-Mends (recorded (configured c)) [] idle s = absurd s
    Sound-Mends f (foreign_entry ∷ cs) idle s = absurd s
    Sound-Mends f (seed_entry id none ∷ cs) idle s = absurd s
    Sound-Mends f (seed_entry id (some (address, seed)) ∷ d ∷ cs) idle s = absurd s
    Sound-Mends absent (seed_entry id (some (address, seed)) ∷ []) idle
          ((named, canonical, derived), fits) =
        orphan id address seed named canonical (within address canonical) derived
    Sound-Mends malformed (seed_entry id (some (address, seed)) ∷ []) idle s = absurd s.1
    Sound-Mends (recorded (provisioning p)) (seed_entry id (some (address, seed)) ∷ []) idle
          ((named, canonical, derived), (own, expects)) =
        pending id address seed named canonical (within address canonical) derived p
          p.expected_address (idle p refl) refl own expects
    Sound-Mends (recorded (configured c)) (seed_entry id (some (address, seed)) ∷ []) idle
          ((named, canonical, derived), (own, same)) =
        done id address seed named canonical (within address canonical) derived c own same
