-- ===== src/SignIn/Attempts.antt =====
-- What an interactive attempt of src/stele/oauth-admin.ts returns, and what its commit leaves.
use lyth_mcp.Prelude.{
  ℕ, ◌+◌, ◌*◌, String, ◌≡◌, refl, true, not, ◌||◌, Option, none, some, List, str_eq, leb, Result,
  ok, err, Ends, Triple, Triple-bind, Triple-pure, Triple-raise, Triple-if, Triple-lift,
  Triple-recover, Triple-weaken,
}
use lyth_mcp.RefreshLock.{LockError, max_safe}
use lyth_mcp.Broker.{
  active, Registration, CredentialRecord, TokenResponse, entry, Session, Answer, granted, denied,
  failed, BrokerError, Act, is_registration, is_record, is_response,
}
use lyth_mcp.Broker.Records.{create_record, created}
use lyth_mcp.Broker.Steps.{At, if-eq-ok, write-At}
use lyth_mcp.Broker.Fresh.{unless-eq-ok}
use lyth_mcp.SignIn.{
  of_lock, enter_lock, Attempt, Callback, callback_code, callback_error, no_callback,
  Administration, AdminError, as_admin, of_act, next_attempt, admin_now, is_acceptable, record_of,
  exchanged_record, exchanged, called_back, authorized, registered_with, listening,
  interactive_attempt, interactive_invalid_client, of_admin, of_broker,
}
use lyth_mcp.SignIn.Sessions.{
  compensate_interactive, commit_interactive, attempt_once, attempt_again, sign_in,
}

-- The stored record is active, and the schema accepts it.
abbrev pub SignedIn : Session → Type 0
SignedIn s =
    (r : CredentialRecord) × At (entry r) s × (is_record r ≡ true) × (r.session_state ≡ active)

-- A call of the parts, with what it does to the session; the rest stays.
pub Triple-of_act :
    {A : Type 0} {P : Session → Type 0} {Q : A → Session → Type 0} {R : Session → Type 0}
    (N : List String → Type 0) (m : Act A)
    → Triple P m Q R
    → Triple
        (λ s. P s.session × N s.revoked)
        (of_act m)
        (λ a s. Q a s.session × N s.revoked)
        (λ s. R s.session × N s.revoked)
unfolding of_act
Triple-of_act {A} {P} {Q} {R} N m t = record {
  at = λ s (p, n). ended s (m s.session).0 (m s.session).1 n (t.at s.session p);
}
  where
    ended :
        (s : Administration) (r : Result BrokerError A) (s' : Session)
        → N s.revoked
        → Ends Q R r s'
        → Ends {S = Administration}
            (λ a s. Q a s.session × N s.revoked)
            (λ s. R s.session × N s.revoked)
            (as_admin r)
            (record { session = s'; attempts = s.attempts; revoked = s.revoked })
    ended s (ok a) s' n post = (post, n)
    ended s (err e) s' n post = (post, n)

-- Whatever an action does.
any_end : {A : Type 0} (m : Act A) → Triple (λ _. Unit {0}) m (λ _ _. Unit {0}) (λ _. Unit {0})
any_end {A} m = record { at = λ s h. any (m s).0 (m s).1 }
  where
    any : (r : Result BrokerError A) (s : Session) → Ends (λ _ _. Unit {0}) (λ _. Unit {0}) r s
    any (ok a) s = tt
    any (err e) s = tt

commit-SignedIn :
    (prior : Option CredentialRecord) (r : CredentialRecord)
    → r.session_state ≡ active
    → Triple (λ _. Unit {0}) (commit_interactive prior r) (λ _. SignedIn) (λ _. Unit {0})
unfolding commit_interactive
commit-SignedIn prior r lives =
    Triple-recover _ _
      (Triple-weaken _ (write-At (λ _. Unit {0}) r tt) (λ s h. h)
        (λ _ s (valid, h). (r, h, valid, lives)) (λ s h. h))
      λ e.
        Triple-bind _ _ (any_end (compensate_interactive prior r)) (λ _. Triple-raise _ (λ s h. h))

create-active :
    (registration : Registration) (response : TokenResponse) (now : ℕ) (r : CredentialRecord)
    → create_record registration response now ≡ ok r
    → r.session_state ≡ active
unfolding create_record
create-active registration response now r e =
    let (_, e1) =
      unless-eq-ok
        (not (is_registration registration) || not (is_response response) || not (leb now max_safe))
        _ r e in
    let (_, e2) =
      unless-eq-ok
        (not (leb (now + response.expires_in * 1000) max_safe)
          || leb (now + response.expires_in * 1000) now)
        _ r e1 in
    let (_, same) =
      if-eq-ok (is_record (created registration response now)) (created registration response now) r
        e2 in
    rw⁻¹ same refl

pub lock-Ends :
    {P : Administration → Type 0} (lock : Option LockError) → Triple P (enter_lock lock) (λ _. P) P
lock-Ends none = Triple-pure _ (λ s h. h)
lock-Ends (some e) = Triple-raise _ (λ s h. h)

-- An attempt, and a sign-in with two of them, whatever holds of the revoked tokens before.
module _ (N : List String → Type 0) where
  abbrev pub Noted : Administration → Type 0
  Noted s = N s.revoked

  abbrev Fresh : CredentialRecord → Administration → Type 0
  Fresh r s = (r.session_state ≡ active) × Noted s

  pub call-Noted : {A : Type 0} (m : Act A) → Triple Noted (of_act m) (λ _. Noted) Noted
  call-Noted m =
      Triple-weaken _ (Triple-of_act N m (any_end m)) (λ s h. (tt, h)) (λ _ s (_, h). h)
        (λ s (_, h). h)

  record_of-Fresh :
      (response : TokenResponse) (x : Result BrokerError CredentialRecord)
      → ((r : CredentialRecord) → x ≡ ok r → r.session_state ≡ active)
      → Triple Noted (record_of response x) Fresh Noted
  record_of-Fresh response (ok r) lives = Triple-pure _ (λ s h. (lives r refl, h))
  record_of-Fresh response (err e) lives =
      Triple-bind _ _ (call-Noted _) (λ _. Triple-raise _ (λ s h. h))

  exchanged_record-Fresh :
      (r : Registration) (response : TokenResponse) (x : Result AdminError ℕ)
      → Triple Noted (exchanged_record r response x) Fresh Noted
  exchanged_record-Fresh r response (ok now) =
      record_of-Fresh response (create_record r response now) (create-active r response now)
  exchanged_record-Fresh r response (err e) =
      Triple-bind _ _ (call-Noted _) (λ _. Triple-raise _ (λ s h. h))

  exchanged-Fresh :
      (a : Attempt) (r : Registration) (x : Answer) → Triple Noted (exchanged a r x) Fresh Noted
  exchanged-Fresh a r failed = Triple-raise _ (λ s h. h)
  exchanged-Fresh a r (denied code) =
      Triple-if (str_eq code "invalid_client") _ _ (λ _. Triple-raise _ (λ s h. h))
        (λ _. Triple-raise _ (λ s h. h))
  exchanged-Fresh a r (granted response) =
      exchanged_record-Fresh r response (admin_now a.exchanged_at)

  called_back-Fresh :
      (a : Attempt) (r : Registration) (c : Callback) → Triple Noted (called_back a r c) Fresh Noted
  called_back-Fresh a r callback_code = exchanged-Fresh a r a.exchange
  called_back-Fresh a r (callback_error code) =
      Triple-if (str_eq code "access_denied") _ _ (λ _. Triple-raise _ (λ s h. h))
        λ _.
          Triple-if (str_eq code "invalid_client") _ _ (λ _. Triple-raise _ (λ s h. h))
            (λ _. Triple-raise _ (λ s h. h))
  called_back-Fresh a r no_callback = Triple-raise _ (λ s h. h)

  authorized-Fresh :
      (a : Attempt) (uri : String) (r : Registration) (now : ℕ)
      → Triple Noted (authorized a uri r now) Fresh Noted
  authorized-Fresh a uri r now =
      Triple-if (not (is_acceptable a uri r now)) _ _ (λ _. Triple-raise _ (λ s h. h))
        λ _.
          Triple-if a.opened _ _ (λ _. called_back-Fresh a r a.callback)
            (λ _. Triple-raise _ (λ s h. h))

  listening-Fresh : (a : Attempt) (uri : Option String) → Triple Noted (listening a uri) Fresh Noted
  listening-Fresh a none = Triple-raise _ (λ s h. h)
  listening-Fresh a (some uri) = given a.registered
    where
      given : (r : Option Registration) → Triple Noted (registered_with a uri r) Fresh Noted
      given none = Triple-raise _ (λ s h. h)
      given (some r) =
          Triple-bind _ _ (Triple-lift {Q = λ _. Noted} _ (λ _ s e h. h) (λ s h. h))
            (authorized-Fresh a uri r)

  attempt-Fresh : Triple Noted interactive_attempt Fresh Noted
  unfolding next_attempt
  attempt-Fresh = Triple-bind _ _ (record { at = λ s h. h }) (λ a. listening-Fresh a a.redirect_uri)

  abbrev pub SignedInAlso : Administration → Type 0
  SignedInAlso s = SignedIn s.session × Noted s

  once :
      (prior : Option CredentialRecord)
      → Triple Noted (attempt_once prior) (λ _. SignedInAlso) Noted
  once prior = Triple-bind _ _ attempt-Fresh λ r. record {
    at = λ s (lives, h).
        (Triple-weaken _ (Triple-of_act N _ (commit-SignedIn prior r lives)) (λ s h. (tt, h))
            (λ _ s h. h) (λ s (_, h). h)).at
          s h;
  }

  again :
      (prior : Option CredentialRecord) (e : AdminError)
      → Triple Noted (attempt_again prior e) (λ _. SignedInAlso) Noted
  again prior interactive_invalid_client = once prior
  again prior (of_admin code) = Triple-raise _ (λ s h. h)
  again prior (of_broker e) = Triple-raise _ (λ s h. h)
  again prior (of_lock e) = Triple-raise _ (λ s h. h)

  pub sign_in-SignedIn :
      (prior : Option CredentialRecord) → Triple Noted (sign_in prior) (λ _. SignedInAlso) Noted
  sign_in-SignedIn prior =
      Triple-bind _ _ (Triple-recover _ _ (once prior) (again prior))
        (λ _. Triple-pure _ (λ s h. h))
