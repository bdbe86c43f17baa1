-- ===== src/Stele/Steps.antt =====
-- What the calls of src/stele/wallet-state.ts and src/stele/os-credential-store.ts make of the file
-- and the credentials, whichever of them fail.
use lyth_mcp.Prelude.{
  String, ◌≡◌, refl, sym, ap, ◌∙◌, ◌⊎◌, inl, inr, not, List, [], ok, Triple, Triple-bind,
  Triple-pure, Triple-raise, Triple-if, Triple-lift, Triple-recover,
}
use lyth_mcp.Stele.{
  Failure, StateFile, Credential, Outcome, completed, refused, unacknowledged, Vault, Host, Act,
  read_answer, write_answer, next_outcome, consult, attempt, modify, with_file, with_credentials,
  get_file, get_credentials,
}
use lyth_mcp.Stele.State.{is_operation_id, decode_lifecycle, read_lifecycle}
use lyth_mcp.Stele.Custody.{collect_ids, list_seed_ids, find_content, decode_found, read_seed}
use lyth_mcp.Stele.Admin.{raise_normalized, normalized}

abbrev pub Is : StateFile → List Credential → Vault → Type 0
Is f cs v = (v.file ≡ f) × (v.credentials ≡ cs)

-- The two may be any that satisfy `X`.
abbrev pub Of : (StateFile → List Credential → Type 0) → Vault → Type 0
Of X v = X v.file v.credentials

pub Of-Is :
    (X : StateFile → List Credential → Type 0) (f : StateFile) (cs : List Credential)
    → X f cs
    → (v : Vault) → Is f cs v
    → Of X v
Of-Is X f cs x v (p, q) = rw p (rw q x)

pub Triple-any :
    {A : Type 0} {X : StateFile → List Credential → Type 0} {Q : A → Vault → Type 0}
    {R : Vault → Type 0} (m : Act A)
    → ((f : StateFile) (cs : List Credential) → X f cs → Triple (Is f cs) m Q R)
    → Triple (Of X) m Q R
Triple-any m t = record { at = λ v x. (t v.file v.credentials x).at v (refl, refl) }

-- A fact that the state does not change.
pub Triple-given :
    {A : Type 0} {X : Type 0} {P : Vault → Type 0} {Q : A → Vault → Type 0} {R : Vault → Type 0}
    (m : Act A)
    → (X → Triple P m Q R)
    → Triple (λ v. X × P v) m Q R
Triple-given m t = record { at = λ v (x, p). (t x).at v p }

pub Triple-given_both :
    {A : Type 0} {X Y : Type 0} {P : Vault → Type 0} {Q : A → Vault → Type 0} {R : Vault → Type 0}
    (m : Act A)
    → (X → Y → Triple P m Q R)
    → Triple (λ v. X × Y × P v) m Q R
Triple-given_both m t = record { at = λ v (x, y, p). (t x y).at v p }

module _ {f : StateFile} {cs : List Credential} where
  next-Is : {R : Vault → Type 0} → Triple (Is f cs) next_outcome (λ _. Is f cs) R
  unfolding next_outcome
  next-Is = record { at = λ v h. h }

  modify-Is :
      (change : Vault → Vault) {P : Vault → Type 0} {R : Vault → Type 0}
      → ((v : Vault) → Is f cs v → P (change v))
      → Triple (Is f cs) (modify change) (λ _. P) R
  unfolding modify
  modify-Is change k = record { at = k }

  read_answer-Is :
      (e : Failure) (o : Outcome) → Triple (Is f cs) (read_answer e o) (λ _. Is f cs) (Is f cs)
  read_answer-Is e completed = Triple-pure _ (λ v h. h)
  read_answer-Is e refused = Triple-raise _ (λ v h. h)
  read_answer-Is e unacknowledged = Triple-raise _ (λ v h. h)

  pub consult-Is : (e : Failure) → Triple (Is f cs) (consult e) (λ _. Is f cs) (Is f cs)
  unfolding consult
  consult-Is e = Triple-bind _ _ next-Is (read_answer-Is e)

  write_answer-Is :
      (e : Failure) (change : Vault → Vault) {g : StateFile} {ds : List Credential}
      → ((v : Vault) → Is f cs v → Is g ds (change v))
      → (o : Outcome)
      → Triple (Is f cs) (write_answer e change o) (λ _. Is g ds) (λ v. Is f cs v ⊎ Is g ds v)
  write_answer-Is e change k completed = modify-Is change k
  write_answer-Is e change k refused = Triple-raise _ (λ v h. inl h)
  write_answer-Is e change k unacknowledged =
      Triple-bind _ _ (modify-Is change k) (λ _. Triple-raise _ (λ v h. inr h))

  attempt-Is :
      (e : Failure) (change : Vault → Vault) {g : StateFile} {ds : List Credential}
      → ((v : Vault) → Is f cs v → Is g ds (change v))
      → Triple (Is f cs) (attempt e change) (λ _. Is g ds) (λ v. Is f cs v ⊎ Is g ds v)
  unfolding attempt
  attempt-Is e change k = Triple-bind _ _ next-Is (write_answer-Is e change k)

  pub attempt_file-Is :
      (e : Failure) (g : StateFile)
      → Triple (Is f cs) (attempt e (with_file g)) (λ _. Is g cs) (λ v. Is f cs v ⊎ Is g cs v)
  attempt_file-Is e g = attempt-Is e (with_file g) (λ v (p, q). (refl, q))

  pub attempt_credentials-Is :
      (e : Failure) (ds : List Credential)
      → Triple
          (Is f cs)
          (attempt e (with_credentials ds))
          (λ _. Is f ds)
          (λ v. Is f cs v ⊎ Is f ds v)
  attempt_credentials-Is e ds = attempt-Is e (with_credentials ds) (λ v (p, q). (p, refl))

  pub get_file-Is : {R : Vault → Type 0} → Triple (Is f cs) get_file (λ g v. (g ≡ f) × Is f cs v) R
  unfolding get_file
  get_file-Is = record { at = λ v (p, q). (p, (p, q)) }

  pub get_credentials-Is :
      {R : Vault → Type 0} → Triple (Is f cs) get_credentials (λ ds v. (ds ≡ cs) × Is f cs v) R
  unfolding get_credentials
  get_credentials-Is = record { at = λ v (p, q). (q, (p, q)) }

  pub read_lifecycle-Is :
      (h : Host)
      → Triple
          (Is f cs)
          (read_lifecycle h)
          (λ r v. (decode_lifecycle h f ≡ ok r) × Is f cs v)
          (Is f cs)
  unfolding read_lifecycle
  read_lifecycle-Is h = Triple-bind _ _ (consult-Is _) λ _. Triple-bind _ _ get_file-Is λ g.
      Triple-lift _ (λ r v e (p, h'). (ap (decode_lifecycle h) (sym p) ∙ e, h')) (λ v (p, h'). h')

  pub list_seed_ids-Is :
      (h : Host)
      → Triple
          (Is f cs)
          (list_seed_ids h)
          (λ ids v. (collect_ids h [] cs ≡ ok ids) × Is f cs v)
          (Is f cs)
  unfolding list_seed_ids
  list_seed_ids-Is h = Triple-bind _ _ (consult-Is _) λ _. Triple-bind _ _ get_credentials-Is λ ds.
      Triple-lift _ (λ r v e (p, h'). (ap (collect_ids h []) (sym p) ∙ e, h')) (λ v (p, h'). h')

  pub read_seed-Is :
      (h : Host) (id : String)
      → Triple
          (Is f cs)
          (read_seed h id)
          (λ r v. (decode_found h id (find_content id cs) ≡ ok r) × Is f cs v)
          (Is f cs)
  unfolding read_seed
  read_seed-Is h id =
      Triple-if (not (is_operation_id id)) _ _ (λ _. Triple-raise _ (λ v h'. h'))
        λ _. Triple-bind _ _ (consult-Is _) λ _. Triple-bind _ _ get_credentials-Is λ ds.
          Triple-lift _
            (λ r v e (p, h'). (ap (λ x. decode_found h id (find_content id x)) (sym p) ∙ e, h'))
            (λ v (p, h'). h')

module _ {A : Type 0} {P : Vault → Type 0} {Q : A → Vault → Type 0} {R : Vault → Type 0} where
  pub Triple-normalized : (m : Act A) → Triple P m Q R → Triple P (normalized m) Q R
  unfolding normalized raise_normalized
  Triple-normalized m t = Triple-recover _ _ t (λ e. Triple-raise _ (λ v h. h))
