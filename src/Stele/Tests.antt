-- ===== src/Stele/Tests.antt =====
-- Runs of the dedicated wallet's administration: src/stele/agent-wallet-admin.ts.
use lyth_mcp.Prelude.{
  ℕ, String, ◌≡◌, refl, sym, ap, ◌∙◌, ◌==◌, true, false, some, List, [], ◌∷◌, ◌⊎◌, replicate, ◌++◌,
  str_eq, eq_iff, ok, err, Ends, ◌>>=◌, pure, raise, lift, recover,
}
use lyth_mcp.Stele.{
  ProvisioningRecord, ConfiguredRecord, configured, provisioning, absent, recorded, Credential,
  Outcome, completed, refused, unacknowledged, Vault, Host, of_admin, admin_already_configured,
  consult, attempt, modify, next_outcome, get_file, get_credentials,
}
use lyth_mcp.Stele.State.{
  is_provisioning_active, abandon_provisioning, admissible, is_operation_id, is_id_unit,
  read_lifecycle, matching_provisioning, set_expected_address, commit_configured,
  create_provisioning, atomic_create, atomic_replace,
}
use lyth_mcp.Stele.Custody.{list_seed_ids, read_seed, create_seed, set_password}
use lyth_mcp.Stele.Admin.{
  AdminResult, created, locked_result, create, repair, seed_and_commit, give_up, normalized,
  raise_normalized,
}
use lyth_mcp.Stele.Steps.{Is}
use lyth_mcp.Stele.Recording.{Filed}
use lyth_mcp.Stele.Sound.{VaultSound}
use lyth_mcp.Stele.Creation.{Created, only_seed}
use lyth_mcp.Stele.Adoption.{Repaired}
use lyth_mcp.Stele.Progress.{Idle, calm}
use lyth_mcp.Stele.History.{
  Call, creating, repairing, serve_all, create_lem, repair-serve_all, serve_all-Filed,
}

abbrev agent : String
agent = "mono1agent"

abbrev operation : String
operation = "AAAAAAAAAAAAAAAAAAAAAAAAAAAAAAAAAAAAAAAAAAA"

abbrev random_seed : List ℕ
random_seed = replicate 32 7

-- One address, which every seed derives to, and no process but its own.
abbrev host : Host
host = record {
  is_canonical_address = str_eq agent;
  derive_address = λ _. some agent;
  process_is_alive = λ p. p == 40;
  process_id = 40;
  sdk_version = "0.4.1";
}

agent_admissible : (a : String) → str_eq agent a ≡ true → admissible host a ≡ true
unfolding admissible
agent_admissible a e = rw⁻¹ ((eq_iff agent a).0 e) refl

abbrev empty : List Outcome → Vault
empty os = record { file = absent; credentials = []; outcomes = os }

-- A creation whose seed is stored without an answer, and that cannot abandon its record either.
abbrev cut_short : Call
cut_short = record {
  process_id = 41;
  process_is_alive = λ _. true;
  outcomes = replicate 8 completed ++ unacknowledged ∷ refused ∷ [];
  request = creating operation random_seed;
}

abbrev agent_record : ConfiguredRecord
agent_record = record {
  created_with_sdk_version = "0.4.1";
  credential_id = operation;
  address = agent;
}

abbrev agent_wallet : Vault
agent_wallet = calm (recorded (configured agent_record)) (only_seed operation agent random_seed)

serve_all-Filed_example : Filed (configured agent_record) (only_seed operation agent random_seed) (
    serve_all host
      (cut_short
        ∷ record {
          process_id = 42;
          process_is_alive = λ _. false;
          outcomes = refused ∷ [];
          request = repairing;
        }
        ∷ [])
      agent_wallet)
serve_all-Filed_example =
    serve_all-Filed host
      (cut_short
        ∷ record {
          process_id = 42;
          process_is_alive = λ _. false;
          outcomes = refused ∷ [];
          request = repairing;
        }
        ∷ [])
      agent_record (only_seed operation agent random_seed) agent_wallet (refl, refl)

abbrev pending_record : ProvisioningRecord
pending_record = record {
  created_with_sdk_version = "0.4.1";
  credential_id = operation;
  owner_pid = 41;
  active = true;
  expected_address = some agent;
}

-- A creation cut short leaves its record active, with the address and the seed.
left_behind :
    serve_all host (cut_short ∷ []) (empty [])
    ≡ calm (recorded (provisioning pending_record)) (only_seed operation agent random_seed)
unfolding create seed_and_commit give_up abandon_provisioning normalized raise_normalized recover
    read_lifecycle list_seed_ids create_provisioning atomic_create atomic_replace consult attempt
    modify next_outcome get_file get_credentials set_expected_address commit_configured
    matching_provisioning create_seed set_password read_seed is_operation_id is_id_unit admissible
    ◌>>=◌ pure raise lift
left_behind = refl

-- Its process has ended, and only the one that repairs is alive.
left_behind-Idle : Idle host (serve_all host (cut_short ∷ []) (empty [])).file
unfolding is_provisioning_active
left_behind-Idle p e = rw⁻¹ (named p (sym (ap Vault.file left_behind) ∙ e)) refl
  where
    named :
        (p : ProvisioningRecord)
        → recorded (provisioning pending_record) ≡ recorded (provisioning p)
        → pending_record ≡ p
    named p e = cc

repair-serve_all_example :
    (r : AdminResult) × (w : Vault) × (repair host (
        calm
          (serve_all host (cut_short ∷ []) (empty [])).file
          (serve_all host (cut_short ∷ []) (empty [])).credentials)
      ≡ (ok r, w))
    × Repaired host r w
repair-serve_all_example =
    repair-serve_all host agent_admissible (cut_short ∷ []) (empty []) (refl, refl) left_behind-Idle

create_lem_example :
    Ends
      (λ r w.
        (absent ≡ absent)
        × (◌≡◌ {A = List Credential} [] [])
        × Created host operation random_seed r w)
      (λ w.
        Is absent [] w
        ⊎ ((absent ≡ absent) × (◌≡◌ {A = List Credential} [] []) × VaultSound host w))
      (create host operation random_seed (empty [])).0
      (create host operation random_seed (empty [])).1
create_lem_example = create_lem host operation random_seed (empty [])

-- A creation makes the wallet.
created_wallet :
    create host operation random_seed (empty [])
    ≡ (ok (locked_result created agent_record), agent_wallet)
unfolding create seed_and_commit normalized raise_normalized recover read_lifecycle list_seed_ids
    create_provisioning atomic_create atomic_replace consult attempt modify next_outcome get_file
    get_credentials set_expected_address commit_configured matching_provisioning create_seed
    set_password read_seed is_operation_id is_id_unit admissible ◌>>=◌ pure raise lift
created_wallet = refl

-- A second one is refused and changes nothing.
created_again :
    create host operation random_seed agent_wallet
    ≡ (err (of_admin admin_already_configured), agent_wallet)
unfolding create normalized raise_normalized recover read_lifecycle consult next_outcome get_file
    admissible ◌>>=◌ pure raise lift
created_again = refl
