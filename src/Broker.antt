-- ===== src/Broker.antt =====
-- The session broker of src/stele/oauth-session-broker.ts over the stored record of
-- src/stele/oauth-credential-store.ts. What the credential store and the authorization server answer
-- is part of the state. A number of the record is a natural number.
pub mod Records
pub mod Access
pub mod Steps
pub mod Fresh
pub mod Current
pub mod Compensation
mod Tests
use lyth_mcp.Prelude.{
  ℕ, ◌-◌, ◌/◌, String, Bool, true, false, not, ◌&&◌, List, [], ◌∷◌, ltb, leb, ◌==◌, length, drop,
  if◌then◌else◌, str_eq, ok, Exec, ◌>>=◌, ◌>>◌, pure, raise, lift,
}
use lyth_mcp.Amount.{codes}
use lyth_mcp.Stele.{Outcome, completed, refused, unacknowledged, first_outcome, later_outcomes}
use lyth_mcp.Stele.State.{all_id_units, is_operation_id}
use lyth_mcp.RefreshLock.{max_safe}

pub data SessionState : Type 0 where
  active reauth_required : SessionState

pub record Registration : Type 0 where
  pub client_id : String
  pub issued_at : ℕ
  pub expires_at : ℕ

pub record Tokens : Type 0 where
  pub access_token : String
  pub access_expires_at : ℕ
  pub refresh_token : String
  pub generation : ℕ

-- `SteleOAuthCredentialRecord`, without the fields that the schema fixes.
pub record CredentialRecord : Type 0 where
  pub session_state : SessionState
  pub registration : Registration
  pub tokens : Tokens

-- `OAuthTokenResponse`, likewise.
pub record TokenResponse : Type 0 where
  pub access_token : String
  pub expires_in : ℕ
  pub refresh_token : String

-- The password under the session's account: none, a text that is no record, or a record.
pub data Entry : Type 0 where
  no_entry unreadable : Entry
  entry : CredentialRecord → Entry

-- The answer to a refresh: tokens, a protocol error, or another failure.
pub data Answer : Type 0 where
  granted : TokenResponse → Answer
  denied : String → Answer
  failed : Answer

pub record Session : Type 0 where
  pub stored : Entry
  pub outcomes : List Outcome
  pub answers : List Answer

pub data SessionCode : Type 0 where
  auth_required session_unavailable : SessionCode

pub data StoreCode : Type 0 where
  keyring_unavailable record_corrupt : StoreCode

-- What is thrown: `SteleOAuthSessionError`, `SteleOAuthCredentialStoreError`, an error of HTTP.
pub data BrokerError : Type 0 where
  of_session : SessionCode → BrokerError
  of_store : StoreCode → BrokerError
  of_http : BrokerError

abbrev pub Act : Type 0 → Type 0
Act A = Exec BrokerError Session A

abbrev pub state_eq : SessionState → SessionState → Bool
state_eq active active = true
state_eq active reauth_required = false
state_eq reauth_required active = false
state_eq reauth_required reauth_required = true

-- `OAuthClientIdSchema`
unfoldable pub is_client_id : String → Bool
is_client_id id =
    starts_with_stc (codes id)
    && leb 32 (length (drop 4 (codes id)))
    && leb (length (drop 4 (codes id))) 64
    && all_id_units (drop 4 (codes id))
  where
    starts_with_stc : List ℕ → Bool
    starts_with_stc (a ∷ b ∷ c ∷ d ∷ t) = a == 115 && b == 116 && c == 99 && d == 95
    starts_with_stc _ = false

-- `SteleOAuthCredentialRecordSchema`
unfoldable pub is_registration : Registration → Bool
is_registration r =
    is_client_id r.client_id
    && leb r.issued_at (max_safe / 1000)
    && ltb 0 r.expires_at
    && leb r.expires_at (max_safe / 1000)
    && ltb r.issued_at r.expires_at
    && leb (r.expires_at - r.issued_at) 31536000

unfoldable pub is_tokens : Tokens → Bool
is_tokens t =
    is_operation_id t.access_token
    && ltb 0 t.access_expires_at
    && leb t.access_expires_at max_safe
    && is_operation_id t.refresh_token
    && ltb 0 t.generation
    && leb t.generation max_safe
    && not (str_eq t.access_token t.refresh_token)

unfoldable pub is_record : CredentialRecord → Bool
is_record r = is_registration r.registration && is_tokens r.tokens

-- `OAuthTokenResponseSchema`
unfoldable pub is_response : TokenResponse → Bool
is_response t =
    is_operation_id t.access_token
    && ltb 0 t.expires_in
    && leb t.expires_in 86400
    && is_operation_id t.refresh_token
    && not (str_eq t.access_token t.refresh_token)

-- `credentialRecordsEqual` compares the texts of the records.
unfoldable pub records_equal : CredentialRecord → CredentialRecord → Bool
records_equal a b =
    state_eq a.session_state b.session_state
    && str_eq a.registration.client_id b.registration.client_id
    && a.registration.issued_at == b.registration.issued_at
    && a.registration.expires_at == b.registration.expires_at
    && str_eq a.tokens.access_token b.tokens.access_token
    && a.tokens.access_expires_at == b.tokens.access_expires_at
    && str_eq a.tokens.refresh_token b.tokens.refresh_token
    && a.tokens.generation == b.tokens.generation

-- The two calls of the credential store, and the requests to the server.
unfoldable pub next_outcome : Act Outcome
next_outcome s = (
  ok (first_outcome s.outcomes),
  record { stored = s.stored; outcomes = later_outcomes s.outcomes; answers = s.answers },
)

unfoldable pub get_entry : Act Entry
get_entry s = (ok s.stored, s)

unfoldable pub put_entry : Entry → Act (Unit {0})
put_entry e s = (ok tt, record { stored = e; outcomes = s.outcomes; answers = s.answers })

abbrev pub password_answer : Outcome → Act Entry
password_answer completed = get_entry
password_answer refused = raise (of_store keyring_unavailable)
password_answer unacknowledged = raise (of_store keyring_unavailable)

unfoldable pub get_password : Act Entry
get_password = next_outcome >>= password_answer

abbrev pub put_answer : CredentialRecord → Outcome → Act (Unit {0})
put_answer r completed = put_entry (entry r)
put_answer r refused = raise (of_store keyring_unavailable)
put_answer r unacknowledged = put_entry (entry r) >> raise (of_store keyring_unavailable)

unfoldable pub put_password : CredentialRecord → Act (Unit {0})
put_password r = next_outcome >>= put_answer r

abbrev pub is_present : Entry → Bool
is_present no_entry = false
is_present unreadable = true
is_present (entry r) = true

abbrev pub delete_answer : Entry → Outcome → Act Bool
delete_answer e completed = put_entry no_entry >> pure (is_present e)
delete_answer e refused = raise (of_store keyring_unavailable)
delete_answer e unacknowledged = put_entry no_entry >> raise (of_store keyring_unavailable)

-- `deletePassword` answers whether there was one.
unfoldable pub delete_password : Act Bool
delete_password = do e ← get_entry; next_outcome >>= delete_answer e

abbrev pub first_answer : List Answer → Answer
first_answer [] = failed
first_answer (a ∷ later) = a

abbrev pub later_answers : List Answer → List Answer
later_answers [] = []
later_answers (a ∷ later) = later

unfoldable pub ask_refresh : Act Answer
ask_refresh s = (
  ok (first_answer s.answers),
  record { stored = s.stored; outcomes = s.outcomes; answers = later_answers s.answers },
)

abbrev pub was_revoked : Outcome → Bool
was_revoked completed = true
was_revoked refused = false
was_revoked unacknowledged = false

-- `revoke`, of which the caller only learns whether it was answered.
unfoldable pub ask_revoke : String → Act Bool
ask_revoke refresh_token = next_outcome >>= λ o. pure (was_revoked o)
