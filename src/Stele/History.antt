-- ===== src/Stele/History.antt =====
-- Administration of the dedicated wallet over time, src/stele/agent-wallet-admin.ts: one process
-- after the other creates or repairs, and any of its calls may fail.
use lyth_mcp.Prelude.{
  ℕ, String, ◌≡◌, refl, sym, ◌∙◌, ◌⊎◌, inl, inr, Bool, true, List, [], ◌∷◌, Result, ok, err, is_ok,
  Ends,
}
use lyth_mcp.Stele.{ConfiguredRecord, configured, absent, Credential, Outcome, Vault, Host, Failure}
use lyth_mcp.Stele.State.{admissible}
use lyth_mcp.Stele.Admin.{AdminResult, verified, locked_result, create, repair}
use lyth_mcp.Stele.Steps.{Is}
use lyth_mcp.Stele.Recording.{Filed}
use lyth_mcp.Stele.Sound.{VaultSound}
use lyth_mcp.Stele.Creation.{Created}
use lyth_mcp.Stele.Creating.{create-Created}
use lyth_mcp.Stele.Adoption.{Repaired}
use lyth_mcp.Stele.Repairing.{repair-Repaired, repair-Filed}
use lyth_mcp.Stele.Progress.{Idle, calm, Sound-Mends}

pub data Request : Type 0 where
  creating : String → List ℕ → Request
  repairing : Request

-- A process that asks for one thing: its id, the processes it sees, and how its calls end.
pub record Call : Type 0 where
  pub process_id : ℕ
  pub process_is_alive : ℕ → Bool
  pub outcomes : List Outcome
  pub request : Request

abbrev pub host_at : Host → Call → Host
host_at h c = record {
  is_canonical_address = h.is_canonical_address;
  derive_address = h.derive_address;
  process_is_alive = c.process_is_alive;
  process_id = c.process_id;
  sdk_version = h.sdk_version;
}

abbrev pub started : Call → Vault → Vault
started c v = record { file = v.file; credentials = v.credentials; outcomes = c.outcomes }

abbrev pub answer_to : Host → Request → Vault → Result Failure AdminResult × Vault
answer_to h (creating id seed) v = create h id seed v
answer_to h repairing v = repair h v

abbrev pub serve : Host → Call → Vault → Vault
serve h c v = (answer_to (host_at h c) c.request (started c v)).1

abbrev pub serve_all : Host → List Call → Vault → Vault
serve_all h [] v = v
serve_all h (c ∷ cs) v = serve_all h cs (serve h c v)

module _ (h : Host) where
  -- What `create` does from any state, whichever of its calls fail. If it returns, there was no state
  -- file and no credential, and now there are the record of one configured wallet and one seed, under
  -- the operation id, whose key has the recorded address, which is the one in the answer. If it
  -- throws, the file and the credentials are as they were, or there was none of either and what was
  -- begun is sound: at most one seed, and a record that is about it.
  pub create_lem :
      (id : String) (seed : List ℕ) (v : Vault)
      → Ends
          (λ r w. (v.file ≡ absent) × (v.credentials ≡ []) × Created h id seed r w)
          (λ w.
            Is v.file v.credentials w ⊎ ((v.file ≡ absent) × (v.credentials ≡ []) × VaultSound h w))
          (create h id seed v).0
          (create h id seed v).1
  create_lem id seed v = (create-Created h id seed v.file v.credentials).at v (refl, refl)

  ends-Sound :
      (r : Result Failure AdminResult) (w : Vault)
      → Ends (Repaired h) (VaultSound h) r w
      → VaultSound h w
  ends-Sound (ok a) w k = k.0
  ends-Sound (err e) w k = k

pub answer_to-Sound :
    (h : Host) (q : Request) (v : Vault) → VaultSound h v → VaultSound h (answer_to h q v).1
answer_to-Sound h repairing v s =
    ends-Sound h (repair h v).0 (repair h v).1 ((repair-Repaired h).at v s)
answer_to-Sound h (creating id seed) v s =
    created (create h id seed v).0 (create h id seed v).1 (create_lem h id seed v)
  where
    created :
        (r : Result Failure AdminResult) (w : Vault)
        → Ends
            (λ r w. (v.file ≡ absent) × (v.credentials ≡ []) × Created h id seed r w)
            (λ w.
              Is v.file v.credentials w
              ⊎ ((v.file ≡ absent) × (v.credentials ≡ []) × VaultSound h w))
            r
            w
        → VaultSound h w
    created (ok a) w (_, _, (address, derived, named, canonical, same, (file, seeds))) =
        rw (file, seeds) ((named, canonical, derived), (refl, refl))
    created (err e) w (inl (file, seeds)) = rw (file, seeds) s
    created (err e) w (inr (_, _, sound)) = sound

pub serve_all-Sound :
    (h : Host) (cs : List Call) (v : Vault) → VaultSound h v → VaultSound h (serve_all h cs v)
serve_all-Sound h [] v s = s
serve_all-Sound h (c ∷ cs) v s =
    serve_all-Sound h cs (serve h c v) (answer_to-Sound (host_at h c) c.request (started c v) s)

-- Whatever happened to the wallet since there was neither a file nor a credential -- creations and
-- repairs by any processes, with any of their calls failing or done without an answer -- a repair
-- whose own calls succeed returns, unless the file that was left is an active record of a process that
-- the repair finds alive; and the wallet it leaves is sound and reported as it is: not configured with no file, or configured with its seed.
-- The addresses of the SDK have the lengths that the state file allows.
pub repair-serve_all :
    (h : Host)
    → ((a : String) → h.is_canonical_address a ≡ true → admissible h a ≡ true)
    → (cs : List Call) (v : Vault) → Is absent [] v
    → Idle h (serve_all h cs v).file
    → (r : AdminResult) × (w : Vault) × (repair h
          (calm (serve_all h cs v).file (serve_all h cs v).credentials)
        ≡ (ok r, w))
      × Repaired h r w
repair-serve_all h within cs v (file, seeds) idle =
    returned (repair h left).0 (repair h left).1 refl
      (Sound-Mends h within (serve_all h cs v).file (serve_all h cs v).credentials idle sound)
      ((repair-Repaired h).at left sound)
  where
    left : Vault
    left = calm (serve_all h cs v).file (serve_all h cs v).credentials

    sound : VaultSound h (serve_all h cs v)
    sound = serve_all-Sound h cs v (rw (file, seeds) tt)

    returned :
        (x : Result Failure AdminResult) (w : Vault)
        → repair h left ≡ (x, w)
        → is_ok x ≡ true
        → Ends (Repaired h) (VaultSound h) x w
        → (r : AdminResult) × (w : Vault) × (repair h left ≡ (ok r, w)) × Repaired h r w
    returned (ok r) w e k post = (r, w, e, post)
    returned (err x) w e k post = absurd (cc)

answer_to-Filed :
    (h : Host) (q : Request) (c : ConfiguredRecord) (seeds : List Credential) (v : Vault)
    → Filed (configured c) seeds v
    → Filed (configured c) seeds (answer_to h q v).1
answer_to-Filed h repairing c seeds v k =
    looked_at (repair h v).0 (repair h v).1 ((repair-Filed h c seeds).at v k)
  where
    looked_at :
        (r : Result Failure AdminResult) (w : Vault)
        → Ends
            (λ r v. (r ≡ locked_result verified c) × Filed (configured c) seeds v)
            (Filed (configured c) seeds)
            r
            w
        → Filed (configured c) seeds w
    looked_at (ok a) w (_, k) = k
    looked_at (err e) w k = k
answer_to-Filed h (creating id seed) c seeds v (file, same) =
    denied (create h id seed v).0 (create h id seed v).1 (create_lem h id seed v)
  where
    occupied : v.file ≡ absent → ⊥
    occupied missing = let never = sym file ∙ missing in cc

    denied :
        (r : Result Failure AdminResult) (w : Vault)
        → Ends
            (λ r w. (v.file ≡ absent) × (v.credentials ≡ []) × Created h id seed r w)
            (λ w.
              Is v.file v.credentials w
              ⊎ ((v.file ≡ absent) × (v.credentials ≡ []) × VaultSound h w))
            r
            w
        → Filed (configured c) seeds w
    denied (ok a) w (missing, _, _) = absurd (occupied missing)
    denied (err e) w (inl (f, s)) = (f ∙ file, s ∙ same)
    denied (err e) w (inr (missing, _, _)) = absurd (occupied missing)

-- Once the wallet is configured, no creation and no repair by any processes, with any of their calls
-- failing or done without an answer, changes its record or the stored seeds.
pub serve_all-Filed :
    (h : Host) (cs : List Call) (c : ConfiguredRecord) (seeds : List Credential) (v : Vault)
    → Filed (configured c) seeds v
    → Filed (configured c) seeds (serve_all h cs v)
serve_all-Filed h [] c seeds v k = k
serve_all-Filed h (call ∷ cs) c seeds v k =
    serve_all-Filed h cs c seeds (serve h call v)
      (answer_to-Filed (host_at h call) call.request c seeds (started call v) k)
