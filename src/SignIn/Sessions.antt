-- ===== src/SignIn/Sessions.antt =====
-- `SteleOAuthAdmin` of src/stele/oauth-admin.ts: status, login and logout.
use lyth_mcp.Prelude.{
  ℕ, ◌-◌, Bool, true, false, not, ◌&&◌, Option, none, some, ltb, if◌then◌else◌, ◌>>=◌, ◌>>◌, pure,
  raise, lift, recover,
}
use lyth_mcp.RefreshLock.{LockError, lock_busy, lock_unavailable, Number}
use lyth_mcp.Broker.{
  reauth_required, CredentialRecord, Answer, granted, denied, failed, of_session, of_store, of_http,
  Act, state_eq, records_equal, ask_refresh, ask_revoke,
}
use lyth_mcp.Broker.Records.{read_record, write_record, delete_record, rotate, mark}
use lyth_mcp.Broker.Access.{
  PublicStatus, signed_out, authenticated, needs_reauth, is_over, quietly, is_final, is_stored,
  rotate_in,
}
use lyth_mcp.SignIn.{
  enter_lock, of_lock, busy, Do, Action, signed_in, already_authenticated, refreshed, logged_out,
  no_action, AdminError, of_admin, interactive_invalid_client, of_broker, unavailable,
  credential_store_unavailable, of_act, http_failure, revoke_family, verify_metadata, admin_now,
  interactive_attempt,
}

abbrev pub status_at : Number → Option CredentialRecord → Do PublicStatus
status_at clock none = pure signed_out
status_at clock (some r) =
    if state_eq r.session_state reauth_required
    then pure needs_reauth
    else lift (admin_now clock) >>= λ now.
        pure (if is_over r now then needs_reauth else authenticated)

-- `status`, every error of which is turned into one.
unfoldable pub status : Number → Do PublicStatus
status clock =
    recover (of_act read_record >>= status_at clock)
      (λ _. raise (of_admin credential_store_unavailable))

-- `isSafeCompensationState` does not hold.
abbrev pub is_unsafe : Option CredentialRecord → Option CredentialRecord → CredentialRecord → Bool
is_unsafe none prior replacement = false
is_unsafe (some s) prior replacement = not (is_stored prior s) && not (records_equal s replacement)

-- Without a prior record, only the record of this sign-in is deleted.
abbrev pub undo_interactive :
    Option CredentialRecord → Option CredentialRecord → CredentialRecord → Act (Unit {0})
undo_interactive stored none replacement =
    if is_stored stored replacement then quietly (delete_record >>= λ _. pure tt) else pure tt
undo_interactive stored (some prior) replacement = do
  m ← lift (mark prior)
  quietly (write_record m)

abbrev pub settle_interactive :
    Bool
    → Option CredentialRecord
    → CredentialRecord
    → Option (Option CredentialRecord)
    → Act (Unit {0})
settle_interactive revoked prior replacement none = pure tt
settle_interactive revoked prior replacement (some stored) =
    if is_unsafe stored prior replacement
    then pure tt
    else (if revoked
        then undo_interactive stored prior replacement
        else (do m ← lift (mark replacement); quietly (write_record m)))

-- `compensateFailedInteractiveCommit`
unfoldable pub compensate_interactive : Option CredentialRecord → CredentialRecord → Act (Unit {0})
compensate_interactive prior replacement = do
  revoked ← ask_revoke replacement.tokens.refresh_token
  stored ← recover (read_record >>= λ r. pure (some r)) (λ _. pure none)
  settle_interactive revoked prior replacement stored

-- The commit of a new sign-in.
unfoldable pub commit_interactive : Option CredentialRecord → CredentialRecord → Act (Unit {0})
commit_interactive prior replacement =
    recover (write_record replacement) (λ e. compensate_interactive prior replacement >> raise e)

abbrev pub attempt_once : Option CredentialRecord → Do (Unit {0})
attempt_once prior = interactive_attempt >>= λ r. of_act (commit_interactive prior r)

-- The second attempt, which only a client that the server does not know any more gets.
abbrev pub attempt_again : Option CredentialRecord → AdminError → Do (Unit {0})
attempt_again prior interactive_invalid_client = attempt_once prior
attempt_again prior (of_admin code) = raise (of_admin code)
attempt_again prior (of_broker e) = raise (of_broker e)
attempt_again prior (of_lock e) = raise (of_lock e)

abbrev pub sign_in : Option CredentialRecord → Do Action
sign_in prior = recover (attempt_once prior) (attempt_again prior) >> pure signed_in

abbrev pub replace : CredentialRecord → Do Action
replace current = revoke_family current >> sign_in (some current)

abbrev pub login_answered : CredentialRecord → ℕ → Answer → Do Action
login_answered current now failed = http_failure
login_answered current now (denied code) = if is_final code then replace current else http_failure
login_answered current now (granted response) =
    of_act (rotate_in current response (rotate current response now)) >>= λ _. pure refreshed

abbrev pub login_from : Option CredentialRecord → ℕ → Do Action
login_from none now = sign_in none
login_from (some current) now =
    if is_over current now
    then replace current
    else (if ltb now (current.tokens.access_expires_at - 30000)
        then pure already_authenticated
        else of_act ask_refresh >>= login_answered current now)

-- `normalizeAdminError`
abbrev pub normalized_error : AdminError → AdminError
normalized_error (of_admin code) = of_admin code
normalized_error interactive_invalid_client = of_admin unavailable
normalized_error (of_broker (of_store code)) = of_admin credential_store_unavailable
normalized_error (of_broker (of_session code)) = of_admin unavailable
normalized_error (of_broker of_http) = of_admin unavailable
normalized_error (of_lock lock_busy) = of_admin busy
normalized_error (of_lock lock_unavailable) = of_admin unavailable

-- `lock`: the error of the lock, if it is not got.
unfoldable pub login : Option LockError → Number → Do Action
login lock clock =
    recover
      (do
        enter_lock lock
        verify_metadata
        current ← of_act read_record
        now ← lift (admin_now clock)
        login_from current now)
      (λ e. raise (normalized_error e))

abbrev pub nothing_left : Option CredentialRecord → Do Action
nothing_left none = pure logged_out
nothing_left (some r) = raise (of_admin credential_store_unavailable)

abbrev pub gone : Bool → Do Action
gone false = raise (of_admin credential_store_unavailable)
gone true = of_act read_record >>= nothing_left

abbrev pub logout_from : Option CredentialRecord → Do Action
logout_from none = pure no_action
logout_from (some current) = revoke_family current >> (of_act delete_record >>= gone)

unfoldable pub logout : Option LockError → Do Action
logout lock =
    recover (do enter_lock lock; current ← of_act read_record; logout_from current)
      (λ e. raise (normalized_error e))
