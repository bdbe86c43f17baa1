-- ===== src/Stele/Adoption.antt =====
-- The steps by which `repair` of src/stele/agent-wallet-admin.ts gives a stored seed its record.
use lyth_mcp.Prelude.{
  ℕ, String, ◌≡◌, refl, sym, ap, ◌∙◌, inl, inr, Bool, true, false, not, Option, none, some, List,
  [], ◌∷◌, if◌then◌else◌, str_eq, eq_iff, Result, ok, err, then_result, ◌>>=◌, pure, Triple,
  Triple-bind, Triple-pure, Triple-weaken,
}
use lyth_mcp.Stele.{
  Failure, of_admin, of_custody, store_corrupt, manual_recovery_required, ProvisioningRecord,
  ConfiguredRecord, provisioning, configured, StateFile, absent, malformed, recorded, Credential,
  seed_entry, foreign_entry, SeedRecord, Vault, Host,
}
use lyth_mcp.Stele.State.{with_expected, configured_of, set_expected_address, commit_configured}
use lyth_mcp.Stele.Custody.{find_content, decode_found, stored_record}
use lyth_mcp.Stele.Admin.{
  WalletStatus, not_configured, configured_locked, generation, AdminResult, recovered,
  locked_result, derived_address, verified_record_address, adopt, commit_expected,
}
use lyth_mcp.Stele.Steps.{Is, Of-Is, Triple-given}
use lyth_mcp.Stele.Recording.{Filed, set_expected-Filed, commit-Filed}
use lyth_mcp.Stele.Sound.{Expects, Fits, Intact, Sound, VaultSound}
use lyth_mcp.Stele.Creation.{only_seed}

-- The public status is the one of the file.
abbrev pub Reports : WalletStatus → StateFile → Type 0
Reports not_configured absent = Unit
Reports not_configured malformed = ⊥
Reports not_configured (recorded r) = ⊥
Reports (configured_locked address g) absent = ⊥
Reports (configured_locked address g) malformed = ⊥
Reports (configured_locked address g) (recorded (provisioning p)) = ⊥
Reports (configured_locked address g) (recorded (configured c)) =
    (address ≡ c.address) × (g ≡ generation)

-- A repair that returned: the state is sound and the wallet is as reported.
abbrev pub Repaired : Host → AdminResult → Vault → Type 0
Repaired h r v = VaultSound h v × Reports r.wallet v.file

unless-eq-ok :
    {A : Type 0} (b : Bool) (x a : A) (e : Failure)
    → (if not b then err e else ok x) ≡ ok a
    → (b ≡ true) × (x ≡ a)
unless-eq-ok true x a e h = (refl, cc)
unless-eq-ok false x a e h = absurd (cc)

pub verified-address :
    (h : Host) (r : SeedRecord) (a : String) → verified_record_address h r ≡ ok a → a ≡ r.address
verified-address h r a e = derived (derived_address h r.seed) e
  where
    derived :
        (d : Result Failure String)
        → then_result d (λ x.
          if not (str_eq x r.address) then err (of_admin manual_recovery_required) else ok x)
          ≡ ok a
        → a ≡ r.address
    derived (err x) e = absurd (cc)
    derived (ok x) e =
        let (b, k) = unless-eq-ok (str_eq x r.address) x a _ e in sym k ∙ (eq_iff x r.address).0 b

-- A seed that is read is the only one.
pub read-only :
    (h : Host) (f : StateFile) (cs : List Credential) (id : String) (r : SeedRecord)
    → Sound h f cs
    → decode_found h id (find_content id cs) ≡ ok (some r)
    → (r.credential_id ≡ id) × (cs ≡ only_seed r.credential_id r.address r.seed)
read-only h f [] id r sound e = absurd (cc)
read-only h f (foreign_entry ∷ cs) id r sound e = absurd sound
read-only h f (seed_entry other none ∷ cs) id r sound e = absurd sound
read-only h f (seed_entry other (some (address, seed)) ∷ d ∷ cs) id r sound e = absurd sound
read-only h f (seed_entry other (some (address, seed)) ∷ []) id r sound e =
    found (str_eq other id) refl e
  where
    found :
        (b : Bool)
        → str_eq other id ≡ b
        → decode_found h id (if b then some (some (address, seed)) else none) ≡ ok (some r)
        → (r.credential_id ≡ id)
          × (seed_entry other (some (address, seed)) ∷ []
              ≡ only_seed r.credential_id r.address r.seed)
    found false same e = absurd (cc)
    found true same e =
        let k = decoded (h.is_canonical_address address) e in
        let l = (eq_iff other id).0 same in
        (
          ap SeedRecord.credential_id (sym k),
          rw l (ap (λ (x : SeedRecord). only_seed x.credential_id x.address x.seed) k),
        )
      where
        decoded :
            (b : Bool)
            → then_result
                (if b
                  then ok (stored_record id (address, seed))
                  else err (of_custody store_corrupt))
                (λ x. ok (some x))
              ≡ ok (some r)
            → stored_record id (address, seed) ≡ r
        decoded true e = cc
        decoded false e = absurd (cc)

module _ (h : Host) where
  module _ (id address : String) (seed : List ℕ) (intact : Intact h id address seed) where
    pub fitting-Sound :
        (f : StateFile)
        → Fits id address f
        → (v : Vault) → Is f (only_seed id address seed) v
        → VaultSound h v
    fitting-Sound f fits v k = Of-Is (Sound h) f (only_seed id address seed) (intact, fits) v k

    module _ (p : ProvisioningRecord) (own : p.credential_id ≡ id) where
      set-Sound :
          Expects p.expected_address address
          → Triple
              (Filed (provisioning p) (only_seed id address seed))
              (set_expected_address h p address)
              (λ q v.
                (q ≡ with_expected address p)
                × Filed (provisioning (with_expected address p)) (only_seed id address seed) v)
              (VaultSound h)
      set-Sound expects =
          Triple-weaken _ (set_expected-Filed h p address) (λ v k. k)
            (λ q v (same, _, k). (same, k))
            (λ v k. elim k [
              | inl x ↦ fitting-Sound (recorded (provisioning p)) (own, expects) v x
              | inr (_, x) ↦
                  fitting-Sound (recorded (provisioning (with_expected address p))) (own, refl) v x
            ])

      commit-Sound :
          Expects p.expected_address address
          → Triple
              (Filed (provisioning p) (only_seed id address seed))
              (commit_configured h p address)
              (λ c v.
                (c ≡ configured_of p address)
                × Filed (configured (configured_of p address)) (only_seed id address seed) v)
              (VaultSound h)
      commit-Sound expects =
          Triple-weaken _ (commit-Filed h p address) (λ v k. k) (λ c v (same, _, k). (same, k))
            (λ v k. elim k [
              | inl x ↦ fitting-Sound (recorded (provisioning p)) (own, expects) v x
              | inr (_, x) ↦
                  fitting-Sound (recorded (configured (configured_of p address))) (own, refl) v x
            ])

      -- The answer to a committed record.
      answered :
          (c : ConfiguredRecord)
          → Triple {E = Failure}
              (λ v.
                (c ≡ configured_of p address)
                × Filed (configured (configured_of p address)) (only_seed id address seed) v)
              (pure (locked_result recovered c))
              (Repaired h)
              (VaultSound h)
      answered c = Triple-pure _ (λ v (same, k). (
        fitting-Sound (recorded (configured (configured_of p address))) (own, refl) v k,
        rw k.0 (ap ConfiguredRecord.address same, refl),
      ))

      commit-Repaired :
          Expects p.expected_address address
          → Triple
              (Filed (provisioning p) (only_seed id address seed))
              (do c ← commit_configured h p address; pure (locked_result recovered c))
              (Repaired h)
              (VaultSound h)
      commit-Repaired expects = Triple-bind _ _ (commit-Sound expects) answered

    -- A record for the seed that expects no other address.
    pub adopt-Repaired :
        (p : ProvisioningRecord)
        → p.credential_id ≡ id
        → Expects p.expected_address address
        → Triple
            (Filed (provisioning p) (only_seed id address seed))
            (adopt h p address)
            (Repaired h)
            (VaultSound h)
    unfolding adopt
    adopt-Repaired p own expects =
        Triple-bind _ _ (set-Sound p own expects)
          λ q. Triple-given _ λ same. rw same (commit-Repaired (with_expected address p) own refl)

    pub resumed :
        (p : ProvisioningRecord)
        → p.credential_id ≡ id
        → Expects p.expected_address address
        → (e : Option String) → e ≡ p.expected_address
        → Triple
            (Filed (provisioning p) (only_seed id address seed))
            (do c ← commit_expected h p address e; pure (locked_result recovered c))
            (Repaired h)
            (VaultSound h)
    resumed p own expects none same =
        Triple-bind _ _
          (Triple-bind _ _ (set-Sound p own expects)
            λ q. Triple-given _ λ same. rw same (commit-Sound (with_expected address p) own refl))
          (answered (with_expected address p) own)
    resumed p own expects (some x) same = commit-Repaired p own expects
