-- ===== src/Broker/Access.antt =====
-- `SteleOAuthSessionBroker` of src/stele/oauth-session-broker.ts.
use lyth_mcp.Prelude.{
  ℕ, ◌-◌, ◌*◌, String, Bool, true, false, not, ◌&&◌, ◌||◌, Option, none, some, ltb, leb,
  if◌then◌else◌, str_eq, Result, ok, err, ◌>>=◌, ◌>>◌, pure, raise, lift, recover,
}
use lyth_mcp.RefreshLock.{max_safe, Number, integer, other_number}
use lyth_mcp.Broker.{
  reauth_required, CredentialRecord, TokenResponse, Answer, granted, denied, failed, auth_required,
  session_unavailable, BrokerError, of_session, of_store, of_http, Act, state_eq, records_equal,
  ask_refresh, ask_revoke,
}
use lyth_mcp.Broker.Records.{read_record, write_record, rotate, mark}

pub data PublicStatus : Type 0 where
  signed_out authenticated needs_reauth : PublicStatus

unfoldable pub checked_now : Number → Act ℕ
checked_now other_number = raise (of_session session_unavailable)
checked_now (integer now) =
    if leb now max_safe then pure now else raise (of_session session_unavailable)

-- The registration is over, or the user has to sign in again.
unfoldable pub is_over : CredentialRecord → ℕ → Bool
is_over r now =
    state_eq r.session_state reauth_required || leb (r.registration.expires_at * 1000) now

abbrev pub status_at : Number → Option CredentialRecord → Act PublicStatus
status_at clock none = pure signed_out
status_at clock (some r) =
    checked_now clock >>= λ now. pure (if is_over r now then needs_reauth else authenticated)

-- Every error of `status` is turned into one.
unfoldable pub status : Number → Act PublicStatus
status clock =
    recover (read_record >>= status_at clock) (λ _. raise (of_session session_unavailable))

-- `.catch(() => undefined)`
unfoldable pub quietly : Act (Unit {0}) → Act (Unit {0})
quietly m = recover m (λ _. pure tt)

-- The errors after which the refresh token is of no more use.
abbrev pub is_final : String → Bool
is_final code =
    str_eq code "invalid_client" || str_eq code "invalid_grant" || str_eq code "invalid_scope"

abbrev pub is_stored : Option CredentialRecord → CredentialRecord → Bool
is_stored none r = false
is_stored (some s) r = records_equal s r

abbrev pub is_foreign : Option CredentialRecord → CredentialRecord → CredentialRecord → Bool
is_foreign none current replacement = false
is_foreign (some s) current replacement =
    not (records_equal s current) && not (records_equal s replacement)

abbrev pub retained :
    Bool → Option CredentialRecord → CredentialRecord → CredentialRecord → CredentialRecord
retained false stored current replacement = replacement
retained true stored current replacement =
    if is_stored stored replacement then replacement else current

abbrev pub settle_commit :
    Bool → CredentialRecord → CredentialRecord → Option (Option CredentialRecord) → Act (Unit {0})
settle_commit revoked current replacement none = pure tt
settle_commit revoked current replacement (some stored) =
    if is_foreign stored current replacement then pure tt else (do
      m ← lift (mark (retained revoked stored current replacement))
      quietly (write_record m))

-- `compensateFailedRuntimeCommit`
unfoldable pub compensate : CredentialRecord → CredentialRecord → Act (Unit {0})
compensate current replacement = do
  revoked ← ask_revoke replacement.tokens.refresh_token
  stored ← recover (read_record >>= λ r. pure (some r)) (λ _. pure none)
  settle_commit revoked current replacement stored

-- A response that cannot be rotated in is revoked, and the record marked.
unfoldable pub reject_response : CredentialRecord → TokenResponse → BrokerError → Act String
reject_response current response e = do
  _ ← ask_revoke response.refresh_token
  m ← lift (mark current)
  quietly (write_record m)
  raise e

unfoldable pub commit : CredentialRecord → CredentialRecord → Act String
commit current replacement = do
  recover (write_record replacement) (λ e. compensate current replacement >> raise e)
  pure replacement.tokens.access_token

abbrev pub rotate_in :
    CredentialRecord → TokenResponse → Result BrokerError CredentialRecord → Act String
rotate_in current response (err e) = reject_response current response e
rotate_in current response (ok replacement) = commit current replacement

abbrev pub answered : CredentialRecord → ℕ → Answer → Act String
answered current now failed = raise (of_session session_unavailable)
answered current now (denied code) =
    if is_final code
    then (do m ← lift (mark current); write_record m; raise (of_session auth_required))
    else raise (of_session session_unavailable)
answered current now (granted response) = rotate_in current response (rotate current response now)

-- The record that was read under the lock.
abbrev pub token_of : Number → Option CredentialRecord → Act String
token_of clock none = raise (of_session auth_required)
token_of clock (some current) = do
  now ← checked_now clock
  if is_over current now
      then raise (of_session auth_required)
      else (if ltb now (current.tokens.access_expires_at - 30000)
          then pure current.tokens.access_token
          else ask_refresh >>= answered current now)

abbrev pub only_session : {A : Type 0} → BrokerError → Act A
only_session (of_session code) = raise (of_session code)
only_session (of_store code) = raise (of_session session_unavailable)
only_session of_http = raise (of_session session_unavailable)

-- `accessToken`, once the lock is held.
unfoldable pub access_token : Number → Act String
access_token clock = recover (read_record >>= token_of clock) only_session
