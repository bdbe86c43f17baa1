-- ===== src/Stele/State.antt =====
-- `FileSteleWalletStateStore` of src/stele/wallet-state.ts.
use lyth_mcp.Prelude.{
  ℕ, String, Bool, true, false, not, ◌&&◌, ◌||◌, Option, none, some, [], ◌∷◌, leb, ◌==◌, length,
  if◌then◌else◌, str_eq, Result, ok, err, ◌>>=◌, ◌>>◌, pure, raise, lift,
}
use lyth_mcp.Amount.{Text, codes}
use lyth_mcp.Stele.{
  StateErrorCode, unavailable, busy, corrupt, repair_required, already_configured, Failure,
  of_state, ProvisioningRecord, ConfiguredRecord, LifecycleRecord, provisioning, configured,
  StateFile, absent, malformed, recorded, Host, Act, consult, attempt, with_file, get_file,
}

-- A letter, a digit, a dash or an underscore.
unfoldable pub is_id_unit : ℕ → Bool
is_id_unit c =
    leb 65 c && leb c 90 || leb 97 c && leb c 122 || leb 48 c && leb c 57 || c == 45 || c == 95

abbrev pub all_id_units : Text → Bool
all_id_units [] = true
all_id_units (c ∷ t) = is_id_unit c && all_id_units t

unfoldable pub is_operation_id : String → Bool
is_operation_id id = length (codes id) == 43 && all_id_units (codes id)

-- The schema's bounds on the length of an address, and the address check of the reader.
unfoldable pub admissible : Host → String → Bool
admissible h address =
    leb 1 (length (codes address))
    && leb (length (codes address)) 128
    && h.is_canonical_address address

abbrev pub expected_admissible : Host → Option String → Bool
expected_admissible h none = true
expected_admissible h (some address) = admissible h address

-- What the bytes of the file decode to.
abbrev pub decode_lifecycle : Host → StateFile → Result Failure (Option LifecycleRecord)
decode_lifecycle h absent = ok none
decode_lifecycle h malformed = err (of_state corrupt)
decode_lifecycle h (recorded (provisioning p)) =
    if expected_admissible h p.expected_address
    then ok (some (provisioning p))
    else err (of_state corrupt)
decode_lifecycle h (recorded (configured c)) =
    if admissible h c.address then ok (some (configured c)) else err (of_state corrupt)

unfoldable pub read_lifecycle : Host → Act (Option LifecycleRecord)
read_lifecycle h = do consult (of_state unavailable); f ← get_file; lift (decode_lifecycle h f)

unfoldable pub is_provisioning_active : Host → ProvisioningRecord → Bool
is_provisioning_active h p = p.active && h.process_is_alive p.owner_pid

-- `atomicReplace`
unfoldable pub atomic_replace : LifecycleRecord → Act (Unit {0})
atomic_replace r = attempt (of_state unavailable) (with_file (recorded r))

-- `atomicCreate`: the link fails where the file exists.
abbrev pub link_record : LifecycleRecord → StateFile → Act Bool
link_record r absent = atomic_replace r >>= λ _. pure true
link_record r malformed = consult (of_state unavailable) >>= λ _. pure false
link_record r (recorded s) = consult (of_state unavailable) >>= λ _. pure false

unfoldable pub atomic_create : LifecycleRecord → Act Bool
atomic_create r = get_file >>= link_record r

abbrev pub provisioning_of : Host → String → ProvisioningRecord
provisioning_of h id = record {
  created_with_sdk_version = h.sdk_version;
  credential_id = id;
  owner_pid = h.process_id;
  active = true;
  expected_address = none;
}

abbrev pub occupied : Host → Option LifecycleRecord → StateErrorCode
occupied h (some (configured c)) = already_configured
occupied h (some (provisioning p)) = if is_provisioning_active h p then busy else repair_required
occupied h none = repair_required

unfoldable pub create_provisioning : Host → String → Act ProvisioningRecord
create_provisioning h id = if not (is_operation_id id) then raise (of_state unavailable) else (do
  consult (of_state unavailable)
  created ← atomic_create (provisioning (provisioning_of h id))
  if created
      then pure (provisioning_of h id)
      else (do existing ← read_lifecycle h; raise (of_state (occupied h existing))))

abbrev pub matching :
    ProvisioningRecord → Option LifecycleRecord → Result Failure ProvisioningRecord
matching p none = err (of_state corrupt)
matching p (some (configured c)) = err (of_state corrupt)
matching p (some (provisioning q)) =
    if str_eq q.credential_id p.credential_id then ok q else err (of_state corrupt)

-- `#matchingProvisioning`
unfoldable pub matching_provisioning : Host → ProvisioningRecord → Act ProvisioningRecord
matching_provisioning h p = read_lifecycle h >>= λ r. lift (matching p r)

abbrev pub with_expected : String → ProvisioningRecord → ProvisioningRecord
with_expected address p = record {
  created_with_sdk_version = p.created_with_sdk_version;
  credential_id = p.credential_id;
  owner_pid = p.owner_pid;
  active = p.active;
  expected_address = some address;
}

abbrev pub differs : Option String → String → Bool
differs none address = false
differs (some expected) address = not (str_eq expected address)

unfoldable pub set_expected_address : Host → ProvisioningRecord → String → Act ProvisioningRecord
set_expected_address h p address =
    if not (h.is_canonical_address address) then raise (of_state unavailable) else (do
      current ← matching_provisioning h p
      if differs current.expected_address address then raise (of_state corrupt) else (do
        atomic_replace (provisioning (with_expected address current))
        pure (with_expected address current)))

abbrev pub inactive : ProvisioningRecord → ProvisioningRecord
inactive p = record {
  created_with_sdk_version = p.created_with_sdk_version;
  credential_id = p.credential_id;
  owner_pid = p.owner_pid;
  active = false;
  expected_address = p.expected_address;
}

unfoldable pub abandon_provisioning : Host → ProvisioningRecord → Act ProvisioningRecord
abandon_provisioning h p = do
  current ← matching_provisioning h p
  if not current.active
      then pure current
      else (do atomic_replace (provisioning (inactive current)); pure (inactive current))

abbrev pub is_expected : Option String → String → Bool
is_expected none address = false
is_expected (some expected) address = str_eq expected address

abbrev pub configured_of : ProvisioningRecord → String → ConfiguredRecord
configured_of p address = record {
  created_with_sdk_version = p.created_with_sdk_version;
  credential_id = p.credential_id;
  address = address;
}

unfoldable pub commit_configured : Host → ProvisioningRecord → String → Act ConfiguredRecord
commit_configured h p address =
    if not (h.is_canonical_address address) then raise (of_state unavailable) else (do
      current ← matching_provisioning h p
      if not (is_expected current.expected_address address) then raise (of_state corrupt) else (do
        atomic_replace (configured (configured_of current address))
        pure (configured_of current address)))

abbrev pub clear_record : ProvisioningRecord → Option LifecycleRecord → Act (Unit {0})
clear_record p none = pure tt
clear_record p (some (configured c)) = raise (of_state corrupt)
clear_record p (some (provisioning q)) =
    if not (str_eq q.credential_id p.credential_id)
    then raise (of_state corrupt)
    else attempt (of_state unavailable) (with_file absent)

unfoldable pub clear_provisioning : Host → ProvisioningRecord → Act (Unit {0})
clear_provisioning h p = read_lifecycle h >>= clear_record p
