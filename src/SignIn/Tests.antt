-- ===== src/SignIn/Tests.antt =====
-- Runs of the administration of a session: src/stele/oauth-admin.ts.
use lyth_mcp.Prelude.{
  String, true, none, ◌≡◌, refl, some, List, [], ◌∷◌, ok, err, Ends, ◌>>=◌, pure, raise, lift,
  recover,
}
use lyth_mcp.Stele.{completed, refused}
use lyth_mcp.Stele.State.{is_operation_id, is_id_unit}
use lyth_mcp.RefreshLock.{integer}
use lyth_mcp.Broker.{
  active, Registration, CredentialRecord, TokenResponse, entry, granted, denied, is_client_id,
  is_registration, is_tokens, is_record, is_response, records_equal, next_outcome, get_entry,
  put_entry, get_password, put_password, delete_password, ask_refresh, ask_revoke,
}
use lyth_mcp.Broker.Records.{read_record, write_record, create_record, created}
use lyth_mcp.Broker.Access.{is_over}
use lyth_mcp.Broker.Compensation.{undisturbed}
use lyth_mcp.SignIn.{
  Attempt, callback_code, callback_error, Administration, signed_in, of_admin, cancelled,
  credential_store_unavailable, of_act, next_attempt, note_revoked, admin_now, is_acceptable,
}
use lyth_mcp.SignIn.Sessions.{commit_interactive, login, logout}
use lyth_mcp.SignIn.Attempts.{SignedIn}
use lyth_mcp.SignIn.Families.{Guarded, login_lem}
use lyth_mcp.SignIn.Departure.{SignedOut, Untouched, logout_lem}

abbrev refresh_token : String
refresh_token = "BBBBBBBBBBBBBBBBBBBBBBBBBBBBBBBBBBBBBBBBBBB"

abbrev client : Registration
client = record {
  client_id = "stc_0123456789abcdef0123456789abcdef";
  issued_at = 1000;
  expires_at = 2000000;
}

abbrev current : CredentialRecord
current = record {
  session_state = active;
  registration = client;
  tokens = record {
    access_token = "AAAAAAAAAAAAAAAAAAAAAAAAAAAAAAAAAAAAAAAAAAA";
    access_expires_at = 900000;
    refresh_token = refresh_token;
    generation = 1;
  };
}

abbrev response : TokenResponse
response = record {
  access_token = "CCCCCCCCCCCCCCCCCCCCCCCCCCCCCCCCCCCCCCCCCCC";
  expires_in = 3600;
  refresh_token = "DDDDDDDDDDDDDDDDDDDDDDDDDDDDDDDDDDDDDDDDDDD";
}

abbrev uri : String
uri = "http://127.0.0.1:5000/callback"

abbrev attempt : Attempt
attempt = record {
  redirect_uri = some uri;
  registered = some client;
  software_version = "0.3.0";
  registered_uri = uri;
  registered_at = integer 1000000;
  opened = true;
  callback = callback_code;
  exchange = granted response;
  exchanged_at = integer 1000000;
}

abbrev cancelled_attempt : Attempt
cancelled_attempt = record {
  redirect_uri = some uri;
  registered = some client;
  software_version = "0.3.0";
  registered_uri = uri;
  registered_at = integer 1000000;
  opened = true;
  callback = callback_error "access_denied";
  exchange = granted response;
  exchanged_at = integer 1000000;
}

-- The token is over, and the server does not take the refresh token any more.
abbrev desk : List Attempt → Administration
desk attempts = record {
  session = undisturbed (entry current) (denied "invalid_grant" ∷ []);
  attempts = attempts;
  revoked = [];
}

login_lem_example :
    Ends
      (λ _ s'. SignedIn s'.session × Guarded (entry current) s')
      (Guarded (entry current))
      (login none (integer 1000000) (desk (attempt ∷ []))).0
      (login none (integer 1000000) (desk (attempt ∷ []))).1
login_lem_example = login_lem none (integer 1000000) (desk (attempt ∷ []))

logout_lem_example :
    Ends
      (λ _ s'. SignedOut s' × Untouched (entry current) s')
      (Untouched (entry current))
      (logout none (desk [])).0
      (logout none (desk [])).1
logout_lem_example = logout_lem none (desk [])

-- A new sign-in comes after the revocation of the family that is stored.
signed_in_anew : login none (integer 1000000) (desk (attempt ∷ [])) ≡ (
  ok signed_in,
  record {
    session = undisturbed (entry (created client response 1000000)) [];
    attempts = [];
    revoked = refresh_token ∷ [];
  },
)
unfolding login of_act next_attempt note_revoked admin_now is_acceptable commit_interactive
    create_record read_record write_record get_password put_password next_outcome get_entry
    put_entry ask_refresh ask_revoke is_over is_record is_registration is_client_id is_tokens
    is_operation_id is_id_unit is_response records_equal recover ◌>>=◌ pure raise lift
signed_in_anew = refl

-- One that the user cancels leaves the record, whose family is revoked.
cancelled_login : login none (integer 1000000) (desk (cancelled_attempt ∷ [])) ≡ (
  err (of_admin cancelled),
  record { session = undisturbed (entry current) []; attempts = []; revoked = refresh_token ∷ [] },
)
unfolding login of_act next_attempt note_revoked admin_now is_acceptable read_record get_password
    next_outcome get_entry ask_refresh ask_revoke is_over is_record is_registration is_client_id
    is_tokens is_operation_id is_id_unit recover ◌>>=◌ pure raise lift
cancelled_login = refl

-- A deletion that fails after the revocation is reported.
undeleted :
    logout none (record {
      session = record {
        stored = entry current;
        outcomes = completed ∷ completed ∷ refused ∷ [];
        answers = [];
      };
      attempts = [];
      revoked = [];
    })
    ≡ (
      err (of_admin credential_store_unavailable),
      record {
        session = undisturbed (entry current) [];
        attempts = [];
        revoked = refresh_token ∷ [];
      },
    )
unfolding logout of_act note_revoked read_record get_password delete_password next_outcome get_entry
    put_entry ask_revoke is_record is_registration is_client_id is_tokens is_operation_id is_id_unit
    recover ◌>>=◌ pure raise lift
undeleted = refl
