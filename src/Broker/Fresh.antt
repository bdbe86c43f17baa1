-- ===== src/Broker/Fresh.antt =====
-- What a token of src/stele/oauth-session-broker.ts is, what may become of the stored record, and what
-- a check that passed or a rotation says.
use lyth_mcp.Prelude.{
  ℕ, ◌+◌, ◌*◌, ◌<◌, String, ◌≡◌, refl, ◌⊎◌, Bool, true, false, not, ◌||◌, if◌then◌else◌, leb, arith,
  Result, ok, Triple, Triple-pure, Triple-raise, Triple-if,
}
use lyth_mcp.RefreshLock.{max_safe, Number, integer, other_number}
use lyth_mcp.Broker.{
  SessionState, active, reauth_required, CredentialRecord, TokenResponse, Entry, entry, Session,
  BrokerError, is_record, is_response, state_eq,
}
use lyth_mcp.Broker.Records.{corrupted, rotate, rotated, repeats}
use lyth_mcp.Broker.Access.{checked_now, is_over}
use lyth_mcp.Broker.Steps.{At, On, if-eq-ok, Reached}

-- The token is of the stored record, which is active, and neither it nor the registration is over.
abbrev pub Current : Number → String → Session → Type 0
Current clock t s =
    (r : CredentialRecord) × (now : ℕ) × (clock ≡ integer now)
    × At (entry r) s
    × (is_record r ≡ true)
    × (r.session_state ≡ active)
    × (r.tokens.access_token ≡ t)
    × (now < r.tokens.access_expires_at)
    × (now < r.registration.expires_at * 1000)

-- The entry is as it was, or what may come of the record that it was.
abbrev pub Follows : Entry → Session → Type 0
Follows e s =
    At e s ⊎ ((current : CredentialRecord) × (e ≡ entry current) × Reached current s.stored)

pub is_over-inv :
    (r : CredentialRecord) (now : ℕ)
    → is_over r now ≡ false
    → (r.session_state ≡ active) × (now < r.registration.expires_at * 1000)
unfolding is_over
is_over-inv r now e = split r.session_state (r.registration.expires_at * 1000) e
  where
    split :
        (s : SessionState) (limit : ℕ)
        → (state_eq s reauth_required || leb limit now) ≡ false
        → (s ≡ active) × (now < limit)
    split active limit e = (refl, ground arith)
    split reauth_required limit e = absurd (cc)

pub unless-eq-ok :
    {A : Type 0} (b : Bool) (x : Result BrokerError A) (a : A)
    → (if b then corrupted else x) ≡ ok a
    → (b ≡ false) × (x ≡ ok a)
unless-eq-ok true x a e = absurd (cc)
unless-eq-ok false x a e = (refl, e)

pub rotate-inv :
    (current : CredentialRecord) (response : TokenResponse) (now : ℕ) (r : CredentialRecord)
    → rotate current response now ≡ ok r
    → (rotated current response now ≡ r) × (now < now + response.expires_in * 1000)
unfolding rotate
rotate-inv current response now r e =
    let (_, e1) =
      unless-eq-ok
        (not (is_record current)
          || not (is_response response)
          || not (leb now max_safe)
          || leb max_safe current.tokens.generation
          || repeats response current.tokens)
        _ r e in
    let (safe, e2) =
      unless-eq-ok
        (not (leb (now + response.expires_in * 1000) max_safe)
          || leb (now + response.expires_in * 1000) now)
        _ r e1 in
    let (_, same) =
      if-eq-ok (is_record (rotated current response now)) (rotated current response now) r e2 in
    (
      same,
      later (not (leb (now + response.expires_in * 1000) max_safe))
          (now + response.expires_in * 1000) safe,
    )
  where
    later : (b : Bool) (limit : ℕ) → (b || leb limit now) ≡ false → now < limit
    later true limit e = absurd (cc)
    later false limit e = ground arith

pub checked_now-On :
    (X : Entry → Type 0) (clock : Number)
    → Triple (On X) (checked_now clock) (λ now s. (clock ≡ integer now) × On X s) (On X)
unfolding checked_now
checked_now-On X other_number = Triple-raise _ (λ s h. h)
checked_now-On X (integer now) =
    Triple-if (leb now max_safe) _ _ (λ _. Triple-pure _ (λ s h. (refl, h)))
      (λ _. Triple-raise _ (λ s h. h))
