-- ===== src/Broker/Steps.antt =====
-- What the calls of src/stele/oauth-session-broker.ts may make of the stored record, whichever of
-- them fail.
use lyth_mcp.Prelude.{
  ℕ, String, ◌≡◌, refl, ap, ◌∙◌, ◌⊎◌, inl, inr, Bool, true, false, not, Option, none, some,
  if◌then◌else◌, Result, ok, Triple, Triple-bind, Triple-pure, Triple-raise, Triple-if, Triple-lift,
  Triple-recover, Triple-weaken,
}
use lyth_mcp.Stele.{Outcome, completed, refused, unacknowledged}
use lyth_mcp.Broker.{
  CredentialRecord, TokenResponse, Entry, no_entry, unreadable, entry, Session, BrokerError,
  is_record, next_outcome, get_entry, put_entry, password_answer, get_password, put_answer,
  put_password, ask_refresh, ask_revoke,
}
use lyth_mcp.Broker.Records.{
  corrupted, decode_entry, read_record, write_record, rotate, marked, mark,
}
use lyth_mcp.Broker.Access.{quietly, is_stored, is_foreign, retained, settle_commit, compensate}

abbrev pub At : Entry → Session → Type 0
At e s = s.stored ≡ e

abbrev pub On : (Entry → Type 0) → Session → Type 0
On X s = X s.stored

pub if-eq-ok :
    {A : Type 0} (b : Bool) (x a : A)
    → ◌≡◌ {A = Result BrokerError A} (if b then ok x else corrupted) (ok a)
    → (b ≡ true) × (x ≡ a)
if-eq-ok true x a h = (refl, cc)
if-eq-ok false x a h = absurd (cc)

-- The calls that do not change what is stored.
module _ (X : Entry → Type 0) where
  pub next-On : {R : Session → Type 0} → Triple (On X) next_outcome (λ _. On X) R
  unfolding next_outcome
  next-On = record { at = λ s h. h }

  pub ask_refresh-On : {R : Session → Type 0} → Triple (On X) ask_refresh (λ _. On X) R
  unfolding ask_refresh
  ask_refresh-On = record { at = λ s h. h }

  pub ask_revoke-On :
      (t : String) {R : Session → Type 0} → Triple (On X) (ask_revoke t) (λ _. On X) R
  unfolding ask_revoke
  ask_revoke-On t = Triple-bind _ _ next-On (λ o. Triple-pure _ (λ s h. h))

  get_entry-On : {R : Session → Type 0} → Triple (On X) get_entry (λ e s. (s.stored ≡ e) × On X s) R
  unfolding get_entry
  get_entry-On = record { at = λ s h. (refl, h) }

  password_answer-On :
      (o : Outcome) → Triple (On X) (password_answer o) (λ e s. (s.stored ≡ e) × On X s) (On X)
  password_answer-On completed = get_entry-On
  password_answer-On refused = Triple-raise _ (λ s h. h)
  password_answer-On unacknowledged = Triple-raise _ (λ s h. h)

  pub read-On : Triple (On X) read_record (λ r s. (decode_entry s.stored ≡ ok r) × On X s) (On X)
  unfolding read_record get_password
  read-On =
      Triple-bind _ _ (Triple-bind _ _ next-On password_answer-On)
        λ e. Triple-lift _ (λ r s d (same, h). (ap decode_entry same ∙ d, h)) (λ s (_, h). h)

-- A record that is read is what is stored.
pub decoded :
    (e : Entry) (r : CredentialRecord)
    → decode_entry e ≡ ok (some r)
    → (e ≡ entry r) × (is_record r ≡ true)
decoded no_entry r d = absurd (cc)
decoded unreadable r d = absurd (cc)
decoded (entry q) r d =
    let (b, same) = if-eq-ok (is_record q) (some q) (some r) d in (cc, rw⁻¹ (injective same) b)
  where
    injective : some q ≡ some r → q ≡ r
    injective e = cc

-- A write, which may be done without an answer.
put_entry-At :
    {P : Session → Type 0} (e : Entry) {R : Session → Type 0} → Triple P (put_entry e) (λ _. At e) R
unfolding put_entry
put_entry-At e = record { at = λ s h. refl }

pub write-At :
    (X : Entry → Type 0) (r : CredentialRecord)
    → X (entry r)
    → Triple (On X) (write_record r) (λ _ s. (is_record r ≡ true) × At (entry r) s) (On X)
unfolding write_record put_password
write-At X r x =
    Triple-if (not (is_record r)) _ _ (λ _. Triple-raise _ (λ s h. h))
      λ valid. Triple-bind _ _ (Triple-bind _ _ (next-On X) put) λ _.
        Triple-bind _ _
          (Triple-weaken _ (read-On (λ e. e ≡ entry r)) (λ s h. h) (λ _ s (_, h). h) stored)
          λ q. Triple-lift _ (λ u s e h. (not-false _ valid, h)) stored
  where
    not-false : (b : Bool) → not b ≡ false → b ≡ true
    not-false true e = refl
    not-false false e = absurd (cc)

    stored : (s : Session) → At (entry r) s → On X s
    stored s h = rw h x

    put : (o : Outcome) → Triple (On X) (put_answer r o) (λ _. At (entry r)) (On X)
    put completed = put_entry-At (entry r)
    put refused = Triple-raise _ (λ s h. h)
    put unacknowledged = Triple-bind _ _ (put_entry-At (entry r)) (λ _. Triple-raise _ stored)

pub quietly-On :
    (X : Entry → Type 0) {R : Session → Type 0} (r : CredentialRecord)
    → X (entry r)
    → Triple (On X) (quietly (write_record r)) (λ _. On X) R
unfolding quietly
quietly-On X r x =
    Triple-recover _ _
      (Triple-weaken _ (write-At X r x) (λ s h. h) (λ _ s (_, h). rw h x) (λ s h. h))
      (λ _. Triple-pure _ (λ s h. h))

pub mark-inv : (r m : CredentialRecord) → mark r ≡ ok m → marked r ≡ m
unfolding mark
mark-inv r m e = (if-eq-ok (is_record (marked r)) (marked r) m e).1

-- What may come of a record: it stays, it is rotated, and either may be marked.
abbrev pub Rotated : CredentialRecord → CredentialRecord → Type 0
Rotated current r = (response : TokenResponse) × (now : ℕ) × (rotate current response now ≡ ok r)

abbrev pub Succeeds : CredentialRecord → CredentialRecord → Type 0
Succeeds current r =
    ((r ≡ current) ⊎ (r ≡ marked current))
    ⊎ ((q : CredentialRecord) × Rotated current q × ((r ≡ q) ⊎ (r ≡ marked q)))

abbrev pub Reached : CredentialRecord → Entry → Type 0
Reached current e = (r : CredentialRecord) × Succeeds current r × (e ≡ entry r)

module _ (current replacement : CredentialRecord) (rotates : Rotated current replacement) where
  retained-Succeeds :
      (revoked : Bool) (o : Option CredentialRecord)
      → Succeeds current (marked (retained revoked o current replacement))
  retained-Succeeds false o = inr (replacement, rotates, inr refl)
  retained-Succeeds true o = chosen (is_stored o replacement)
    where
      chosen : (b : Bool) → Succeeds current (marked (if b then replacement else current))
      chosen true = inr (replacement, rotates, inr refl)
      chosen false = inl (inr refl)

  settle-Reached :
      (revoked : Bool) (o : Option (Option CredentialRecord))
      → Triple
          (On (Reached current))
          (settle_commit revoked current replacement o)
          (λ _. On (Reached current))
          (On (Reached current))
  settle-Reached revoked none = Triple-pure _ (λ s h. h)
  settle-Reached revoked (some o) =
      Triple-if (is_foreign o current replacement) _ _ (λ _. Triple-pure _ (λ s h. h))
        λ _.
          Triple-bind _ _
            (Triple-lift
              {Q = λ m s.
                (mark (retained revoked o current replacement) ≡ ok m) × On (Reached current) s}
              _ (λ m s e h. (e, h)) (λ s h. h))
            λ m. record {
              at = λ s (e, h).
                  (quietly-On (Reached current) {R = On (Reached current)} m
                      (m, rw⁻¹ (mark-inv _ m e) (retained-Succeeds revoked o), refl)).at
                    s h;
            }

  pub compensate-Reached :
      Triple
        (On (Reached current))
        (compensate current replacement)
        (λ _. On (Reached current))
        (On (Reached current))
  unfolding compensate
  compensate-Reached = Triple-bind _ _ (ask_revoke-On (Reached current) _) λ revoked.
      Triple-bind _ _
        (Triple-recover _ _
          (Triple-bind _ _
            (Triple-weaken _ (read-On (Reached current)) (λ s h. h) (λ _ s (_, h). h) (λ s h. h))
            λ r. Triple-pure _ (λ s h. h))
          (λ _. Triple-pure _ (λ s h. h)))
        (settle-Reached revoked)
