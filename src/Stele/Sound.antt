-- ===== src/Stele/Sound.antt =====
-- The states of the dedicated wallet from which `SteleWalletAdmin` of
-- src/stele/agent-wallet-admin.ts can go on.
use lyth_mcp.Prelude.{String, ◌≡◌, true, Option, none, some, List, [], ◌∷◌, ℕ}
use lyth_mcp.Stele.{
  provisioning, configured, StateFile, absent, malformed, recorded, Credential, seed_entry,
  foreign_entry, Vault, Host,
}
use lyth_mcp.Stele.State.{is_operation_id}
use lyth_mcp.Stele.Steps.{Of}

abbrev pub Expects : Option String → String → Type 0
Expects none address = Unit
Expects (some expected) address = expected ≡ address

-- The file is about the one seed there is.
abbrev pub Fits : String → String → StateFile → Type 0
Fits id address absent = Unit
Fits id address malformed = ⊥
Fits id address (recorded (provisioning p)) =
    (p.credential_id ≡ id) × Expects p.expected_address address
Fits id address (recorded (configured c)) = (c.credential_id ≡ id) × (c.address ≡ address)

abbrev pub Intact : Host → String → String → List ℕ → Type 0
Intact h id address seed =
    (is_operation_id id ≡ true)
    × (h.is_canonical_address address ≡ true)
    × (h.derive_address seed ≡ some address)

abbrev pub ExpectsCanonical : Host → Option String → Type 0
ExpectsCanonical h none = Unit
ExpectsCanonical h (some address) = h.is_canonical_address address ≡ true

-- No seed was stored yet.
abbrev pub Unseeded : Host → StateFile → Type 0
Unseeded h absent = Unit
Unseeded h malformed = ⊥
Unseeded h (recorded (provisioning p)) = ExpectsCanonical h p.expected_address
Unseeded h (recorded (configured c)) = ⊥

-- At most one seed, whose address its key derives to, and a record that is about it.
abbrev pub Sound : Host → StateFile → List Credential → Type 0
Sound h f [] = Unseeded h f
Sound h f (foreign_entry ∷ cs) = ⊥
Sound h f (seed_entry id none ∷ cs) = ⊥
Sound h f (seed_entry id (some (address, seed)) ∷ []) = Intact h id address seed × Fits id address f
Sound h f (seed_entry id (some (address, seed)) ∷ d ∷ cs) = ⊥

abbrev pub VaultSound : Host → Vault → Type 0
VaultSound h = Of (Sound h)
