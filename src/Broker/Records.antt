-- ===== src/Broker/Records.antt =====
-- The stored record of src/stele/oauth-credential-store.ts: read, written, rotated and marked.
use lyth_mcp.Prelude.{
  ℕ, ◌+◌, ◌*◌, Bool, not, ◌||◌, Option, none, some, leb, if◌then◌else◌, str_eq, Result, ok, err,
  ◌>>=◌, ◌>>◌, raise, lift,
}
use lyth_mcp.RefreshLock.{max_safe}
use lyth_mcp.Broker.{
  active, reauth_required, Tokens, CredentialRecord, TokenResponse, Entry, no_entry, unreadable,
  entry, record_corrupt, BrokerError, of_store, Act, is_record, is_response, records_equal,
  get_password, put_password, delete_password, Registration, is_registration,
}

abbrev pub corrupted : {A : Type 0} → Result BrokerError A
corrupted = err (of_store record_corrupt)

abbrev pub decode_entry : Entry → Result BrokerError (Option CredentialRecord)
decode_entry no_entry = ok none
decode_entry unreadable = corrupted
decode_entry (entry r) = if is_record r then ok (some r) else corrupted

-- `read`
unfoldable pub read_record : Act (Option CredentialRecord)
read_record = get_password >>= λ e. lift (decode_entry e)

abbrev pub check_record : CredentialRecord → Option CredentialRecord → Result BrokerError (Unit {0})
check_record r none = corrupted
check_record r (some readback) = if not (records_equal readback r) then corrupted else ok tt

-- `write`
unfoldable pub write_record : CredentialRecord → Act (Unit {0})
write_record r =
    if not (is_record r)
    then raise (of_store record_corrupt)
    else (do put_password r; readback ← read_record; lift (check_record r readback))

-- `delete`
abbrev pub delete_record : Act Bool
delete_record = delete_password

abbrev pub created : Registration → TokenResponse → ℕ → CredentialRecord
created registration response now = record {
  session_state = active;
  registration = registration;
  tokens = record {
    access_token = response.access_token;
    access_expires_at = now + response.expires_in * 1000;
    refresh_token = response.refresh_token;
    generation = 1;
  };
}

-- `createSteleOAuthCredentialRecord`, of the first generation.
unfoldable pub create_record :
    Registration → TokenResponse → ℕ → Result BrokerError CredentialRecord
create_record registration response now =
    if not (is_registration registration) || not (is_response response) || not (leb now max_safe)
    then corrupted
    else (if not (leb (now + response.expires_in * 1000) max_safe)
          || leb (now + response.expires_in * 1000) now
        then corrupted
        else (if is_record (created registration response now)
            then ok (created registration response now)
            else corrupted))

abbrev pub rotated : CredentialRecord → TokenResponse → ℕ → CredentialRecord
rotated current response now = record {
  session_state = active;
  registration = current.registration;
  tokens = record {
    access_token = response.access_token;
    access_expires_at = now + response.expires_in * 1000;
    refresh_token = response.refresh_token;
    generation = current.tokens.generation + 1;
  };
}

-- Whether a token of the response is one of the record's.
unfoldable pub repeats : TokenResponse → Tokens → Bool
repeats response t =
    str_eq response.access_token t.access_token
    || str_eq response.access_token t.refresh_token
    || str_eq response.refresh_token t.access_token
    || str_eq response.refresh_token t.refresh_token

-- `rotateSteleOAuthCredentialRecord`
unfoldable pub rotate : CredentialRecord → TokenResponse → ℕ → Result BrokerError CredentialRecord
rotate current response now =
    if not (is_record current)
      || not (is_response response)
      || not (leb now max_safe)
      || leb max_safe current.tokens.generation
      || repeats response current.tokens
    then corrupted
    else (if not (leb (now + response.expires_in * 1000) max_safe)
          || leb (now + response.expires_in * 1000) now
        then corrupted
        else (if is_record (rotated current response now)
            then ok (rotated current response now)
            else corrupted))

abbrev pub marked : CredentialRecord → CredentialRecord
marked current = record {
  session_state = reauth_required;
  registration = current.registration;
  tokens = current.tokens;
}

-- `markSteleOAuthReauthenticationRequired`
unfoldable pub mark : CredentialRecord → Result BrokerError CredentialRecord
mark current = if is_record (marked current) then ok (marked current) else corrupted
