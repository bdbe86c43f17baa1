-- ===== src/Broker/Current.antt =====
-- The tokens that `accessToken` of src/stele/oauth-session-broker.ts returns, and what it may leave.
use lyth_mcp.Prelude.{
  ℕ, ◌-◌, ◌*◌, ◌<◌, String, ◌≡◌, refl, sym, ap, ◌∙◌, inl, inr, true, Option, none, some,
  if◌then◌else◌, ltb, arith, Result, ok, err, ◌>>=◌, pure, raise, Ends, Triple, Triple-bind,
  Triple-pure, Triple-raise, Triple-if, Triple-lift, Triple-recover, Triple-weaken,
}
use lyth_mcp.RefreshLock.{Number, integer}
use lyth_mcp.Broker.{
  active, CredentialRecord, TokenResponse, Entry, entry, Session, auth_required, BrokerError,
  of_session, of_store, of_http, Answer, granted, denied, failed, is_record, ask_refresh,
}
use lyth_mcp.Broker.Records.{decode_entry, rotate, rotated, mark}
use lyth_mcp.Broker.Access.{
  is_over, is_final, reject_response, commit, rotate_in, answered, token_of, only_session,
  access_token,
}
use lyth_mcp.Broker.Steps.{
  At, On, ask_refresh-On, ask_revoke-On, read-On, decoded, write-At, quietly-On, mark-inv, Rotated,
  Reached, compensate-Reached,
}
use lyth_mcp.Broker.Fresh.{Current, Follows, is_over-inv, rotate-inv, checked_now-On}

module _ (clock : Number) (e : Entry) where
  module _ (current : CredentialRecord) (same : e ≡ entry current) (now : ℕ)
      (at : clock ≡ integer now) where
    reached : (s : Session) → On (Reached current) s → Follows e s
    reached s h = inr (current, same, h)

    commit-Current :
        (replacement : CredentialRecord)
        → Rotated current replacement
        → (replacement.session_state ≡ active)
        → (now < replacement.tokens.access_expires_at)
        → (now < replacement.registration.expires_at * 1000)
        → Triple
            (On (Reached current))
            (commit current replacement)
            (λ t s. Current clock t s × Follows e s)
            (Follows e)
    unfolding commit
    commit-Current replacement rotates lives early registered =
        Triple-bind _ _
          (Triple-recover _ _
            (write-At (Reached current) replacement
              (replacement, inr (replacement, rotates, inl refl), refl))
            (λ x.
              Triple-bind _ _
                (Triple-weaken _ (compensate-Reached current replacement rotates) (λ s h. h)
                  (λ _ s h. h) reached)
                (λ _. Triple-raise _ reached)))
          λ _. Triple-pure _ (λ s (valid, h). (
            (replacement, now, at, h, valid, lives, refl, early, registered),
            reached s (replacement, inr (replacement, rotates, inl refl), h),
          ))

    reject-Follows :
        {Q : String → Session → Type 0} (response : TokenResponse) (x : BrokerError)
        → Triple (On (Reached current)) (reject_response current response x) Q (Follows e)
    unfolding reject_response
    reject-Follows response x = Triple-bind _ _ (ask_revoke-On (Reached current) _) λ _.
        Triple-bind _ _
          (Triple-lift {Q = λ m s. (mark current ≡ ok m) × On (Reached current) s} _
            (λ m s d h. (d, h)) reached)
          λ m.
            Triple-bind _ _
              (record {
                at = λ s (d, h).
                    (quietly-On (Reached current) {R = Follows e} m
                        (m, inl (inr (sym (mark-inv current m d))), refl)).at
                      s h;
              })
              λ _. Triple-raise x reached

    pub rotate_in-Current :
        (now < current.registration.expires_at * 1000)
        → (response : TokenResponse) (r : Result BrokerError CredentialRecord)
        → rotate current response now ≡ r
        → Triple
            (On (Reached current))
            (rotate_in current response r)
            (λ t s. Current clock t s × Follows e s)
            (Follows e)
    rotate_in-Current registered response (err x) d = reject-Follows response x
    rotate_in-Current registered response (ok q) d =
        let (is, later) = rotate-inv current response now q d in
        rw⁻¹ is (
          commit-Current (rotated current response now) (response, now, d ∙ ap ok (sym is)) refl
            later registered)

    answered-Current :
        (now < current.registration.expires_at * 1000)
        → (a : Answer)
        → Triple
            (On (Reached current))
            (answered current now a)
            (λ t s. Current clock t s × Follows e s)
            (Follows e)
    answered-Current registered failed = Triple-raise _ reached
    answered-Current registered (granted response) =
        rotate_in-Current registered response (rotate current response now) refl
    answered-Current registered (denied code) =
        Triple-if (is_final code) _ _
          (λ _.
            Triple-bind _ _
              (Triple-lift {Q = λ m s. (mark current ≡ ok m) × On (Reached current) s} _
                (λ m s d h. (d, h)) reached)
              λ m.
                Triple-bind _ _
                  (record {
                    at = λ s (d, h).
                        (Triple-weaken _
                            (write-At (Reached current) m
                              (m, inl (inr (sym (mark-inv current m d))), refl))
                            (λ s h. h)
                            (λ _ s (_, h). reached s (m, inl (inr (sym (mark-inv current m d))), h))
                            reached).at
                          s h;
                  })
                  λ _. Triple-raise _ (λ s h. h))
          (λ _. Triple-raise _ reached)

  token_of-Current :
      (o : Option CredentialRecord)
      → decode_entry e ≡ ok o
      → Triple (At e) (token_of clock o) (λ t s. Current clock t s × Follows e s) (Follows e)
  token_of-Current none d = Triple-raise _ (λ s h. inl h)
  token_of-Current (some current) d =
      let (same, valid) = decoded e current d in
      Triple-bind _ _
        (Triple-weaken _ (checked_now-On (λ x. x ≡ e) clock) (λ s h. h) (λ _ s h. h) (λ s h. inl h))
        λ now. record { at = λ s (at, h). (from now current same valid at).at s h }
    where
      early : (now limit : ℕ) → ltb now (limit - 30000) ≡ true → now < limit
      early now limit e = ground arith

      from :
          (now : ℕ) (current : CredentialRecord)
          → e ≡ entry current
          → is_record current ≡ true
          → clock ≡ integer now
          → Triple
              (At e)
              (if is_over current now
                then raise (of_session auth_required)
                else (if ltb now (current.tokens.access_expires_at - 30000)
                    then pure current.tokens.access_token
                    else ask_refresh >>= answered current now))
              (λ t s. Current clock t s × Follows e s)
              (Follows e)
      from now current same valid at =
          Triple-if (is_over current now) _ _ (λ _. Triple-raise _ (λ s h. inl h))
            λ going.
              let (lives, registered) = is_over-inv current now going in
              Triple-if (ltb now (current.tokens.access_expires_at - 30000)) _ _
                (λ fresh. Triple-pure _ (λ s h. (
                  (
                    current,
                    now,
                    at,
                    h ∙ same,
                    valid,
                    lives,
                    refl,
                    early now current.tokens.access_expires_at fresh,
                    registered,
                  ),
                  inl h,
                )))
                λ _.
                  Triple-bind _ _
                    (Triple-weaken _ (ask_refresh-On (Reached current) {R = Follows e})
                      (λ s h. (current, inl (inl refl), h ∙ same)) (λ _ s h. h) (λ s h. h))
                    (answered-Current current same now at registered)

only_session-On :
    {A : Type 0} {Q : A → Session → Type 0} {R : Session → Type 0} (x : BrokerError)
    → Triple R (only_session x) Q R
only_session-On (of_session code) = Triple-raise _ (λ s h. h)
only_session-On (of_store code) = Triple-raise _ (λ s h. h)
only_session-On of_http = Triple-raise _ (λ s h. h)

-- Whichever calls of the credential store and of the server fail: a token that `accessToken` returns is
-- the one of the record that is then stored, which the schema accepts, is active, and at the time that
-- was read neither the token nor the registration is over; and whether it returns or throws, the entry
-- is as before, or it held a record and now holds that one or one that the server's tokens were rotated
-- into, either of them possibly marked for a new sign-in.
pub access_token_lem :
    (clock : Number) (s : Session)
    → Ends
        (λ t s'. Current clock t s' × Follows s.stored s')
        (Follows s.stored)
        (access_token clock s).0
        (access_token clock s).1
unfolding access_token
access_token_lem clock s =
    (Triple-recover _ _
        (Triple-bind _ _
          (Triple-weaken _ (read-On (λ x. x ≡ s.stored)) (λ s h. h) (λ _ s h. h) (λ s h. inl h))
          (λ o. record {
            at = λ s' (d, h). (token_of-Current clock s.stored o (rw (sym h) d)).at s' h;
          }))
        only_session-On).at
      s refl
