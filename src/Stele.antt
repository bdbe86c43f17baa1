-- ===== src/Stele.antt =====
-- The dedicated agent wallet of src/stele: its lifecycle record in a file, its seeds in the
-- credential store of the operating system, and the answers of both to the calls that are to come.
pub mod State
pub mod Custody
pub mod Admin
pub mod Steps
pub mod Recording
pub mod Beginning
pub mod Sound
pub mod Creation
pub mod Creating
pub mod Adoption
pub mod Resumption
pub mod Repairing
pub mod Progress
pub mod History
mod Tests
use lyth_mcp.Prelude.{ℕ, String, Bool, Option, List, [], ◌∷◌, ok, Exec, ◌>>=◌, ◌>>◌, pure, raise}

pub data StateErrorCode : Type 0 where
  unavailable busy corrupt repair_required already_configured : StateErrorCode

pub data CredentialErrorCode : Type 0 where
  store_unavailable already_exists store_corrupt : CredentialErrorCode

pub data AdminErrorCode : Type 0 where
  admin_already_configured admin_busy admin_repair_required : AdminErrorCode
  manual_recovery_required credential_store_unavailable admin_unavailable : AdminErrorCode

-- What is thrown: `SteleWalletStateError`, `SteleCredentialStoreError`, `SteleWalletAdminError`,
-- anything else.
pub data Failure : Type 0 where
  of_state : StateErrorCode → Failure
  of_custody : CredentialErrorCode → Failure
  of_admin : AdminErrorCode → Failure
  of_other : Failure

-- Of the fields that identify a record only those stand here that no literal of the schema fixes.
pub record ProvisioningRecord : Type 0 where
  pub created_with_sdk_version : String
  pub credential_id : String
  pub owner_pid : ℕ
  pub active : Bool
  pub expected_address : Option String

pub record ConfiguredRecord : Type 0 where
  pub created_with_sdk_version : String
  pub credential_id : String
  pub address : String

pub data LifecycleRecord : Type 0 where
  provisioning : ProvisioningRecord → LifecycleRecord
  configured : ConfiguredRecord → LifecycleRecord

-- The state file: missing, no text that the schemas accept, or a record.
pub data StateFile : Type 0 where
  absent malformed : StateFile
  recorded : LifecycleRecord → StateFile

pub record SeedRecord : Type 0 where
  pub credential_id : String
  pub address : String
  pub seed : List ℕ

-- A password under the service name: one under a seed's account, with the address and the seed that
-- it decodes to, or one under any other account.
pub data Credential : Type 0 where
  seed_entry : String → Option (String × List ℕ) → Credential
  foreign_entry : Credential

-- How a call of the file system or of the credential store ends: done, refused, or done and yet
-- answered with an error, as when a directory cannot be synced after the rename.
pub data Outcome : Type 0 where
  completed refused unacknowledged : Outcome

pub record Vault : Type 0 where
  pub file : StateFile
  pub credentials : List Credential
  pub outcomes : List Outcome

-- The SDK's address functions, the process table and the identity of this process.
pub record Host : Type 0 where
  pub is_canonical_address : String → Bool
  pub derive_address : List ℕ → Option String
  pub process_is_alive : ℕ → Bool
  pub process_id : ℕ
  pub sdk_version : String

abbrev pub Act : Type 0 → Type 0
Act A = Exec Failure Vault A

-- The calls whose end is not listed succeed.
abbrev pub first_outcome : List Outcome → Outcome
first_outcome [] = completed
first_outcome (o ∷ os) = o

abbrev pub later_outcomes : List Outcome → List Outcome
later_outcomes [] = []
later_outcomes (o ∷ os) = os

unfoldable pub next_outcome : Act Outcome
next_outcome v = (
  ok (first_outcome v.outcomes),
  record { file = v.file; credentials = v.credentials; outcomes = later_outcomes v.outcomes },
)

unfoldable pub modify : (Vault → Vault) → Act (Unit {0})
modify change v = (ok tt, change v)

abbrev pub read_answer : Failure → Outcome → Act (Unit {0})
read_answer e completed = pure tt
read_answer e refused = raise e
read_answer e unacknowledged = raise e

-- A call that changes nothing, and what its error is turned into.
unfoldable pub consult : Failure → Act (Unit {0})
consult e = next_outcome >>= read_answer e

abbrev pub write_answer : Failure → (Vault → Vault) → Outcome → Act (Unit {0})
write_answer e change completed = modify change
write_answer e change refused = raise e
write_answer e change unacknowledged = modify change >> raise e

-- A call that makes a change.
unfoldable pub attempt : Failure → (Vault → Vault) → Act (Unit {0})
attempt e change = next_outcome >>= write_answer e change

abbrev pub with_file : StateFile → Vault → Vault
with_file f v = record { file = f; credentials = v.credentials; outcomes = v.outcomes }

abbrev pub with_credentials : List Credential → Vault → Vault
with_credentials cs v = record { file = v.file; credentials = cs; outcomes = v.outcomes }

unfoldable pub get_file : Act StateFile
get_file v = (ok v.file, v)

unfoldable pub get_credentials : Act (List Credential)
get_credentials v = (ok v.credentials, v)
