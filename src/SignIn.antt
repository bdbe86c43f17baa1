-- ===== src/SignIn.antt =====
-- The administration of the session with the hosted server, src/stele/oauth-admin.ts, under its lock:
-- signing in, with what the browser, the loopback listener and the server answer as part of the
-- state, and signing out.
pub mod Sessions
pub mod Attempts
pub mod Families
pub mod Departure
mod Tests
use lyth_mcp.Prelude.{
  ℕ, ◌+◌, ◌/◌, String, Bool, true, false, not, ◌&&◌, Option, none, some, List, [], ◌∷◌, ltb, leb,
  if◌then◌else◌, str_eq, Result, ok, err, Exec, ◌>>=◌, ◌>>◌, pure, raise, lift,
}
use lyth_mcp.Stele.{Outcome, completed, refused, unacknowledged}
use lyth_mcp.RefreshLock.{LockError, max_safe, Number, integer, other_number}
use lyth_mcp.Broker.{
  Registration, CredentialRecord, TokenResponse, Answer, granted, denied, failed, Session,
  BrokerError, of_http, Act, is_registration, next_outcome, ask_revoke,
}
use lyth_mcp.Broker.Records.{create_record}

pub data Callback : Type 0 where
  callback_code : Callback
  callback_error : String → Callback
  no_callback : Callback

-- What the calls of one interactive attempt answer. `opened`: whether the browser is opened with the
-- address for the authorization.
pub record Attempt : Type 0 where
  pub redirect_uri : Option String
  pub registered : Option Registration
  pub software_version : String
  pub registered_uri : String
  pub registered_at : Number
  pub opened : Bool
  pub callback : Callback
  pub exchange : Answer
  pub exchanged_at : Number

-- `revoked`: the refresh tokens whose revocation was answered before a new sign-in or a sign-out.
pub record Administration : Type 0 where
  pub session : Session
  pub attempts : List Attempt
  pub revoked : List String

pub data AdminCode : Type 0 where
  cancelled busy credential_store_unavailable unavailable : AdminCode

-- What is thrown: `SteleOAuthAdminError`, `InteractiveInvalidClient`, or an error of the parts or of
-- the lock.
pub data AdminError : Type 0 where
  of_admin : AdminCode → AdminError
  interactive_invalid_client : AdminError
  of_broker : BrokerError → AdminError
  of_lock : LockError → AdminError

pub data Action : Type 0 where
  signed_in already_authenticated refreshed logged_out no_action : Action

abbrev pub Do : Type 0 → Type 0
Do A = Exec AdminError Administration A

abbrev pub as_admin : {A : Type 0} → Result BrokerError A → Result AdminError A
as_admin (ok a) = ok a
as_admin (err e) = err (of_broker e)

-- The calls of the credential store and of the server.
unfoldable pub of_act : {A : Type 0} → Act A → Do A
of_act m s = (
  as_admin (m s.session).0,
  record { session = (m s.session).1; attempts = s.attempts; revoked = s.revoked },
)

-- Whether the lock is held, before what runs under it.
abbrev pub enter_lock : Option LockError → Do (Unit {0})
enter_lock none = pure tt
enter_lock (some e) = raise (of_lock e)

abbrev pub http_failure : {A : Type 0} → Do A
http_failure = raise (of_broker of_http)

abbrev pub no_attempt : Attempt
no_attempt = record {
  redirect_uri = none;
  registered = none;
  software_version = "";
  registered_uri = "";
  registered_at = other_number;
  opened = false;
  callback = no_callback;
  exchange = failed;
  exchanged_at = other_number;
}

abbrev pub first_attempt : List Attempt → Attempt
first_attempt [] = no_attempt
first_attempt (a ∷ later) = a

abbrev pub later_attempts : List Attempt → List Attempt
later_attempts [] = []
later_attempts (a ∷ later) = later

unfoldable pub next_attempt : Do Attempt
next_attempt s = (
  ok (first_attempt s.attempts),
  record { session = s.session; attempts = later_attempts s.attempts; revoked = s.revoked },
)

unfoldable pub note_revoked : String → Do (Unit {0})
note_revoked token s =
    (ok tt, record { session = s.session; attempts = s.attempts; revoked = token ∷ s.revoked })

abbrev pub revoke_answer : String → Bool → Do (Unit {0})
revoke_answer token false = http_failure
revoke_answer token true = note_revoked token

-- `revoke`, where a failure is thrown.
abbrev pub revoke_family : CredentialRecord → Do (Unit {0})
revoke_family r =
    of_act (ask_revoke r.tokens.refresh_token) >>= revoke_answer r.tokens.refresh_token

abbrev pub verify_answer : Outcome → Do (Unit {0})
verify_answer completed = pure tt
verify_answer refused = http_failure
verify_answer unacknowledged = http_failure

abbrev pub verify_metadata : Do (Unit {0})
verify_metadata = of_act next_outcome >>= verify_answer

unfoldable pub admin_now : Number → Result AdminError ℕ
admin_now other_number = err (of_admin unavailable)
admin_now (integer now) = if leb now max_safe then ok now else err (of_admin unavailable)

-- `validateInteractiveRegistration`
unfoldable pub is_acceptable : Attempt → String → Registration → ℕ → Bool
is_acceptable a uri r now =
    is_registration r
    && str_eq a.software_version "0.3.0"
    && str_eq a.registered_uri uri
    && not (ltb (r.issued_at + 60) (now / 1000))
    && leb r.issued_at (now / 1000 + 60)
    && ltb (now / 1000) r.expires_at

-- A registration that was created, but whose tokens cannot be used, is revoked.
abbrev pub record_of : TokenResponse → Result BrokerError CredentialRecord → Do CredentialRecord
record_of response (ok r) = pure r
record_of response (err e) = of_act (ask_revoke response.refresh_token) >>= λ _. raise (of_broker e)

abbrev pub exchanged_record :
    Registration → TokenResponse → Result AdminError ℕ → Do CredentialRecord
exchanged_record r response (ok now) = record_of response (create_record r response now)
exchanged_record r response (err e) = of_act (ask_revoke response.refresh_token) >>= λ _. raise e

abbrev pub exchanged : Attempt → Registration → Answer → Do CredentialRecord
exchanged a r failed = http_failure
exchanged a r (denied code) =
    if str_eq code "invalid_client" then raise interactive_invalid_client else http_failure
exchanged a r (granted response) = exchanged_record r response (admin_now a.exchanged_at)

-- `handleAuthorizationError`, and the exchange of the code.
abbrev pub called_back : Attempt → Registration → Callback → Do CredentialRecord
called_back a r callback_code = exchanged a r a.exchange
called_back a r (callback_error code) =
    if str_eq code "access_denied"
    then raise (of_admin cancelled)
    else (if str_eq code "invalid_client"
        then raise interactive_invalid_client
        else raise (of_admin unavailable))
called_back a r no_callback = raise (of_admin unavailable)

abbrev pub authorized : Attempt → String → Registration → ℕ → Do CredentialRecord
authorized a uri r now =
    if not (is_acceptable a uri r now)
    then raise (of_admin unavailable)
    else (if a.opened then called_back a r a.callback else raise (of_admin unavailable))

abbrev pub registered_with : Attempt → String → Option Registration → Do CredentialRecord
registered_with a uri none = http_failure
registered_with a uri (some r) = lift (admin_now a.registered_at) >>= authorized a uri r

abbrev pub listening : Attempt → Option String → Do CredentialRecord
listening a none = raise (of_admin unavailable)
listening a (some uri) = registered_with a uri a.registered

-- `#interactiveAttempt`
abbrev pub interactive_attempt : Do CredentialRecord
interactive_attempt = next_attempt >>= λ a. listening a a.redirect_uri
