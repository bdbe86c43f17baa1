-- ===== src/Broker/Tests.antt =====
-- Runs of the session broker: src/stele/oauth-session-broker.ts.
use lyth_mcp.Prelude.{
  String, true, ◌≡◌, refl, ◌⊎◌, inr, [], ◌∷◌, ok, err, Ends, ◌>>=◌, pure, raise, lift, recover,
}
use lyth_mcp.Stele.State.{is_operation_id, is_id_unit}
use lyth_mcp.RefreshLock.{integer}
use lyth_mcp.Broker.{
  active, CredentialRecord, TokenResponse, entry, Session, granted, denied, auth_required,
  of_session, is_client_id, is_registration, is_tokens, is_record, is_response, records_equal,
  next_outcome, get_entry, put_entry, get_password, put_password, ask_refresh,
}
use lyth_mcp.Broker.Records.{read_record, write_record, rotated, rotate, repeats, marked, mark}
use lyth_mcp.Broker.Access.{checked_now, is_over, compensate, commit, access_token}
use lyth_mcp.Broker.Fresh.{Current, Follows}
use lyth_mcp.Broker.Current.{access_token_lem}
use lyth_mcp.Broker.Compensation.{undisturbed, compensate-Marked}

abbrev old_access : String
old_access = "AAAAAAAAAAAAAAAAAAAAAAAAAAAAAAAAAAAAAAAAAAA"

abbrev old_refresh : String
old_refresh = "BBBBBBBBBBBBBBBBBBBBBBBBBBBBBBBBBBBBBBBBBBB"

abbrev current : CredentialRecord
current = record {
  session_state = active;
  registration = record {
    client_id = "stc_0123456789abcdef0123456789abcdef";
    issued_at = 1000;
    expires_at = 2000000;
  };
  tokens = record {
    access_token = old_access;
    access_expires_at = 1500000;
    refresh_token = old_refresh;
    generation = 1;
  };
}

abbrev response : TokenResponse
response = record {
  access_token = "CCCCCCCCCCCCCCCCCCCCCCCCCCCCCCCCCCCCCCCCCCC";
  expires_in = 3600;
  refresh_token = "DDDDDDDDDDDDDDDDDDDDDDDDDDDDDDDDDDDDDDDDDDD";
}

abbrev replacement : CredentialRecord
replacement = rotated current response 1490000

-- The token is over in ten seconds, and the server grants new ones.
abbrev session : Session
session = undisturbed (entry current) (granted response ∷ [])

access_token_lem_example :
    Ends
      (λ t s'. Current (integer 1490000) t s' × Follows (entry current) s')
      (Follows (entry current))
      (access_token (integer 1490000) session).0
      (access_token (integer 1490000) session).1
access_token_lem_example = access_token_lem (integer 1490000) session

current_valid : is_record current ≡ true
unfolding is_record is_registration is_client_id is_tokens is_operation_id is_id_unit
current_valid = refl

replacement_valid : is_record replacement ≡ true
unfolding is_record is_registration is_client_id is_tokens is_operation_id is_id_unit
replacement_valid = refl

compensate-Marked_example :
    (r : CredentialRecord) × ((r ≡ current) ⊎ (r ≡ replacement))
    × ((compensate current replacement (undisturbed (entry replacement) [])).1
        ≡ undisturbed (entry (marked r)) [])
compensate-Marked_example =
    compensate-Marked current replacement current_valid replacement_valid (entry replacement) []
      (inr (inr refl))

-- A fresh token is returned as it is; one that is over is rotated.
kept : access_token (integer 1000000) session ≡ (ok old_access, session)
unfolding access_token read_record get_password next_outcome get_entry checked_now is_over is_record
    is_registration is_client_id is_tokens is_operation_id is_id_unit recover ◌>>=◌ pure raise lift
kept = refl

refreshed :
    access_token (integer 1490000) session
    ≡ (ok response.access_token, undisturbed (entry replacement) [])
unfolding access_token read_record write_record get_password put_password next_outcome get_entry
    put_entry ask_refresh checked_now is_over is_record is_registration is_client_id is_tokens
    is_operation_id is_id_unit is_response rotate repeats commit records_equal recover ◌>>=◌ pure
    raise lift
refreshed = refl

-- A refresh token that the server does not take any more ends the session.
denied_session :
    access_token (integer 1490000) (undisturbed (entry current) (denied "invalid_grant" ∷ []))
    ≡ (err (of_session auth_required), undisturbed (entry (marked current)) [])
unfolding access_token read_record write_record get_password put_password next_outcome get_entry
    put_entry ask_refresh checked_now is_over is_record is_registration is_client_id is_tokens
    is_operation_id is_id_unit mark records_equal recover ◌>>=◌ pure raise lift
denied_session = refl
