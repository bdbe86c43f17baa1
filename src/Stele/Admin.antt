-- ===== src/Stele/Admin.antt =====
-- `SteleWalletAdmin` of src/stele/agent-wallet-admin.ts, and the public status of
-- src/stele/agent-keystore.ts without its constant fields.
use lyth_mcp.Prelude.{
  ℕ, String, Bool, false, not, Option, none, some, List, [], ◌∷◌, if◌then◌else◌, str_eq, Result, ok,
  err, then_result, of_option, ◌>>=◌, ◌>>◌, pure, raise, lift, recover,
}
use lyth_mcp.Stele.{
  StateErrorCode, unavailable, busy, corrupt, repair_required, already_configured,
  CredentialErrorCode, store_unavailable, already_exists, store_corrupt, AdminErrorCode,
  admin_already_configured, admin_busy, admin_repair_required, manual_recovery_required,
  credential_store_unavailable, admin_unavailable, Failure, of_state, of_custody, of_admin,
  of_other, ProvisioningRecord, ConfiguredRecord, LifecycleRecord, provisioning, configured,
  SeedRecord, Host, Act, consult,
}
use lyth_mcp.Stele.State.{
  read_lifecycle, is_provisioning_active, create_provisioning, set_expected_address,
  abandon_provisioning, commit_configured, clear_provisioning,
}
use lyth_mcp.Stele.Custody.{list_seed_ids, read_seed, create_seed}

pub data WalletStatus : Type 0 where
  not_configured : WalletStatus
  configured_locked : String → ℕ → WalletStatus

-- The literal that the schemas fix for `generation`.
abbrev pub generation : ℕ
generation = 1

pub data AdminAction : Type 0 where
  created recovered verified cleared_incomplete no_action : AdminAction

pub record AdminResult : Type 0 where
  pub action : AdminAction
  pub wallet : WalletStatus

abbrev pub locked_result : AdminAction → ConfiguredRecord → AdminResult
locked_result action c = record { action = action; wallet = configured_locked c.address generation }

abbrev pub idle_result : AdminAction → AdminResult
idle_result action = record { action = action; wallet = not_configured }

-- `readStatus`
abbrev pub wallet_status : Option LifecycleRecord → Result Failure WalletStatus
wallet_status none = ok not_configured
wallet_status (some (provisioning p)) = err (of_state repair_required)
wallet_status (some (configured c)) = ok (configured_locked c.address generation)

unfoldable pub read_status : Host → Act WalletStatus
read_status h = read_lifecycle h >>= λ r. lift (wallet_status r)

-- `normalizeAdminError`
abbrev pub code_of_state : StateErrorCode → AdminErrorCode
code_of_state already_configured = admin_already_configured
code_of_state busy = admin_busy
code_of_state repair_required = admin_repair_required
code_of_state corrupt = manual_recovery_required
code_of_state unavailable = admin_unavailable

abbrev pub code_of_custody : CredentialErrorCode → AdminErrorCode
code_of_custody store_corrupt = manual_recovery_required
code_of_custody already_exists = admin_repair_required
code_of_custody store_unavailable = credential_store_unavailable

abbrev pub normalize_admin_error : Failure → AdminErrorCode
normalize_admin_error (of_admin code) = code
normalize_admin_error (of_state code) = code_of_state code
normalize_admin_error (of_custody code) = code_of_custody code
normalize_admin_error of_other = admin_unavailable

unfoldable pub raise_normalized : {A : Type 0} → Failure → Act A
raise_normalized e = raise (of_admin (normalize_admin_error e))

-- `try { m } catch (error) { throw normalizeAdminError(error); }`
unfoldable pub normalized : {A : Type 0} → Act A → Act A
normalized m = recover m raise_normalized

abbrev pub derived_address : Host → List ℕ → Result Failure String
derived_address h seed = of_option (of_admin admin_unavailable) (h.derive_address seed)

abbrev pub verified_record_address : Host → SeedRecord → Result Failure String
verified_record_address h r = then_result (derived_address h r.seed) (λ derived.
    if not (str_eq derived r.address) then err (of_admin manual_recovery_required) else ok derived)

abbrev pub is_only : List String → String → Bool
is_only [] id = false
is_only (x ∷ []) id = str_eq x id
is_only (x ∷ y ∷ ys) id = false

abbrev pub may_create : Host → Option LifecycleRecord → Result Failure (Unit {0})
may_create h none = ok tt
may_create h (some (configured c)) = err (of_admin admin_already_configured)
may_create h (some (provisioning p)) =
    if is_provisioning_active h p
    then err (of_admin admin_busy)
    else err (of_admin admin_repair_required)

abbrev pub no_seeds : List String → Result Failure (Unit {0})
no_seeds [] = ok tt
no_seeds (x ∷ xs) = err (of_admin admin_repair_required)

-- The handler of `create` while `provisioning` is set, which reads only its credential id.
unfoldable pub give_up : {A : Type 0} → Host → ProvisioningRecord → Failure → Act A
give_up h p e = do recover (abandon_provisioning h p >>= λ _. pure tt) (λ _. pure tt); raise e

-- `create` after `#beginProvisioning`; `fillRandom` may throw.
unfoldable pub seed_and_commit : Host → ProvisioningRecord → List ℕ → Act AdminResult
seed_and_commit h p seed = do
  consult of_other
  address ← lift (derived_address h seed)
  q ← set_expected_address h p address
  normalized (create_seed h q.credential_id address seed)
  ids ← normalized (list_seed_ids h)
  if not (is_only ids q.credential_id)
      then raise (of_admin manual_recovery_required)
      else (do c ← commit_configured h q address; pure (locked_result created c))

-- `create`, for the operation id and the random seed that it draws.
unfoldable pub create : Host → String → List ℕ → Act AdminResult
create h id seed = normalized (do
  lifecycle ← read_lifecycle h
  lift (may_create h lifecycle)
  ids ← normalized (list_seed_ids h)
  lift (no_seeds ids)
  p ← normalized (create_provisioning h id)
  recover (seed_and_commit h p seed) (give_up h p))

-- The seed that has no record, from `#beginProvisioning` on.
unfoldable pub adopt : Host → ProvisioningRecord → String → Act AdminResult
adopt h p address = do
  q ← set_expected_address h p address
  c ← commit_configured h q address
  pure (locked_result recovered c)

abbrev pub found_seed : Option SeedRecord → Result Failure SeedRecord
found_seed r = of_option (of_admin manual_recovery_required) r

unfoldable pub recover_orphan : Host → String → Act AdminResult
recover_orphan h id = normalized (do
  found ← normalized (read_seed h id)
  r ← lift (found_seed found)
  address ← lift (verified_record_address h r)
  p ← normalized (create_provisioning h r.credential_id)
  recover (adopt h p address) (give_up h p))

-- `#repairWithoutLifecycle`
abbrev pub repair_without_lifecycle : Host → List String → Act AdminResult
repair_without_lifecycle h [] = pure (idle_result no_action)
repair_without_lifecycle h (id ∷ []) = recover_orphan h id
repair_without_lifecycle h (x ∷ y ∷ ys) = raise (of_admin manual_recovery_required)

-- `#verifyConfigured`
unfoldable pub verify_configured : Host → ConfiguredRecord → List String → Act AdminResult
verify_configured h c ids =
    if not (is_only ids c.credential_id) then raise (of_admin manual_recovery_required) else (do
      found ← normalized (read_seed h c.credential_id)
      r ← lift (found_seed found)
      address ← lift (verified_record_address h r)
      if not (str_eq address c.address)
          then raise (of_admin manual_recovery_required)
          else pure (locked_result verified c))

abbrev pub expects_other : Option String → String → Bool
expects_other none address = false
expects_other (some expected) address = not (str_eq expected address)

abbrev pub commit_expected :
    Host → ProvisioningRecord → String → Option String → Act ConfiguredRecord
commit_expected h p address none =
    set_expected_address h p address >>= λ q. commit_configured h q address
commit_expected h p address (some expected) = commit_configured h p address

unfoldable pub resume : Host → ProvisioningRecord → SeedRecord → Act AdminResult
resume h p r = normalized (do
  address ← lift (verified_record_address h r)
  if expects_other p.expected_address address
      then raise (of_admin manual_recovery_required)
      else (do
        c ← commit_expected h p address p.expected_address
        pure (locked_result recovered c)))

unfoldable pub resume_provisioning : Host → ProvisioningRecord → List String → Act AdminResult
resume_provisioning h p ids =
    if not (is_only ids p.credential_id) then raise (of_admin manual_recovery_required) else (do
      found ← normalized (read_seed h p.credential_id)
      r ← lift (found_seed found)
      resume h p r)

-- `#repairProvisioning`
abbrev pub repair_provisioning : Host → ProvisioningRecord → List String → Act AdminResult
repair_provisioning h p [] = do clear_provisioning h p; pure (idle_result cleared_incomplete)
repair_provisioning h p (id ∷ ids) = resume_provisioning h p (id ∷ ids)

abbrev pub may_repair : Host → Option LifecycleRecord → Result Failure (Unit {0})
may_repair h none = ok tt
may_repair h (some (configured c)) = ok tt
may_repair h (some (provisioning p)) =
    if is_provisioning_active h p then err (of_admin admin_busy) else ok tt

abbrev pub repair_as : Host → Option LifecycleRecord → List String → Act AdminResult
repair_as h none ids = repair_without_lifecycle h ids
repair_as h (some (configured c)) ids = verify_configured h c ids
repair_as h (some (provisioning p)) ids = repair_provisioning h p ids

unfoldable pub repair : Host → Act AdminResult
repair h = do
  lifecycle ← normalized (read_lifecycle h)
  lift (may_repair h lifecycle)
  ids ← normalized (list_seed_ids h)
  repair_as h lifecycle ids
