-- ===== src/Broker/Compensation.antt =====
-- `compensateFailedRuntimeCommit` of src/stele/oauth-session-broker.ts where its own calls succeed.
use lyth_mcp.Prelude.{
  ℕ, ◌≡◌, refl, ◌⊎◌, inl, inr, Bool, true, false, not, ◌&&◌, Option, none, some, List, [],
  if◌then◌else◌, ◌==◌, str_eq_refl, arith, ok, ◌>>=◌, pure, raise, lift, recover,
}
use lyth_mcp.Broker.{
  SessionState, active, reauth_required, CredentialRecord, Entry, no_entry, entry, Session, Answer,
  is_record, records_equal, state_eq, next_outcome, get_entry, put_entry, get_password,
  put_password, ask_revoke,
}
use lyth_mcp.Broker.Records.{decode_entry, read_record, write_record, marked, mark}
use lyth_mcp.Broker.Access.{quietly, is_foreign, is_stored, retained, settle_commit, compensate}

-- All calls that are left succeed.
abbrev pub undisturbed : Entry → List Answer → Session
undisturbed e answers = record { stored = e; outcomes = []; answers = answers }

state_eq_refl : (s : SessionState) → state_eq s s ≡ true
state_eq_refl active = refl
state_eq_refl reauth_required = refl

same_number : (n : ℕ) → (n == n) ≡ true
same_number n = ground arith

records_equal_refl : (r : CredentialRecord) → records_equal r r ≡ true
unfolding records_equal
records_equal_refl r =
    rw
      (
        state_eq_refl r.session_state,
        str_eq_refl r.registration.client_id,
        same_number r.registration.issued_at,
        same_number r.registration.expires_at,
        str_eq_refl r.tokens.access_token,
        same_number r.tokens.access_expires_at,
        str_eq_refl r.tokens.refresh_token,
        same_number r.tokens.generation,
      )
      refl

write-undisturbed :
    (e : Entry) (answers : List Answer) (r : CredentialRecord)
    → is_record r ≡ true
    → (quietly (write_record r) (undisturbed e answers)).1 ≡ undisturbed (entry r) answers
unfolding quietly write_record put_password read_record get_password next_outcome get_entry
    put_entry recover ◌>>=◌ pure raise lift
write-undisturbed e answers r valid = simp (valid, records_equal_refl r)

marks : (r : CredentialRecord) → is_record r ≡ true → mark r ≡ ok (marked r)
unfolding mark is_record
marks r valid = rw valid refl

marked-valid : (r : CredentialRecord) → is_record r ≡ true → is_record (marked r) ≡ true
unfolding is_record
marked-valid r valid = valid

and_false : (b : Bool) → (b && false) ≡ false
and_false true = refl
and_false false = refl

module _ (current replacement : CredentialRecord) (valid : is_record current ≡ true)
    (valid' : is_record replacement ≡ true) where
  not_foreign :
      (e : Entry)
      → (e ≡ no_entry) ⊎ ((e ≡ entry current) ⊎ (e ≡ entry replacement))
      → (o : Option CredentialRecord) × (decode_entry e ≡ ok o)
        × (is_foreign o current replacement ≡ false)
  not_foreign e (inl none_left) = (none, rw none_left refl, refl)
  not_foreign e (inr (inl same)) =
      (some current, rw (same, valid) refl, rw (records_equal_refl current) refl)
  not_foreign e (inr (inr same)) = (
    some replacement,
    rw (same, valid') refl,
    rw (records_equal_refl replacement, and_false (not (records_equal replacement current))) refl,
  )

  one_of :
      (o : Option CredentialRecord)
      → ((retained true o current replacement ≡ current)
          ⊎ (retained true o current replacement ≡ replacement))
        × (is_record (retained true o current replacement) ≡ true)
  one_of o = chosen (is_stored o replacement)
    where
      chosen :
          (b : Bool)
          → (((if b then replacement else current) ≡ current)
              ⊎ ((if b then replacement else current) ≡ replacement))
            × (is_record (if b then replacement else current) ≡ true)
      chosen true = (inr refl, valid')
      chosen false = (inl refl, valid)

  settled :
      (e : Entry) (answers : List Answer) (o : Option CredentialRecord)
      → is_foreign o current replacement ≡ false
      → (settle_commit true current replacement (some o) (undisturbed e answers)).1
        ≡ undisturbed (entry (marked (retained true o current replacement))) answers
  unfolding ◌>>=◌ lift
  settled e answers o own =
      rw (own, marks (retained true o current replacement) (one_of o).1)
        (write-undisturbed e answers (marked (retained true o current replacement))
          (marked-valid (retained true o current replacement) (one_of o).1))

  -- If the calls of a compensation succeed, and what is stored when it begins is nothing, the record
  -- of before or the one that was to replace it, then one of the two is stored at its end, marked for a
  -- new sign-in: no active record with a token that the server may have revoked is left.
  pub compensate-Marked :
      (e : Entry) (answers : List Answer)
      → (e ≡ no_entry) ⊎ ((e ≡ entry current) ⊎ (e ≡ entry replacement))
      → (r : CredentialRecord) × ((r ≡ current) ⊎ (r ≡ replacement))
        × ((compensate current replacement (undisturbed e answers)).1
            ≡ undisturbed (entry (marked r)) answers)
  unfolding compensate ask_revoke read_record get_password next_outcome get_entry recover ◌>>=◌ pure
      raise lift
  compensate-Marked e answers own =
      let (o, d, mine) = not_foreign e own in
      (retained true o current replacement, (one_of o).0, rw d (settled e answers o mine))
