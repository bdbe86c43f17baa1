-- ===== src/Outbox.antt =====
-- The outbox of signed payloads, src/outbox.ts. The clock, the fresh id and the hash of the payload
-- are arguments; an entry is its caller's part, `OutboxBody`, and the part that the store keeps up.
pub mod Laws
use lyth_mcp.Prelude.{
  ℕ, String, Bool, true, false, Option, none, some, List, [], ◌∷◌, if◌then◌else◌, or_else, or_maybe,
  keep, Exec, continue, ◌>>=◌, ◌>>◌, pure, raise, lift,
}
use lyth_mcp.Amount.{Text}
use lyth_mcp.Files.{StoreFile}
use lyth_mcp.Files.Store.{
  given, wants, first_of, read_records, add_front, get_record, change_record, remove_records,
}

pub data OutboxStatus : Type 0 where
  signed submitted confirmed failed expired : OutboxStatus

pub data OutboxKind : Type 0 where
  lyth_plaintext : OutboxKind

pub record OutboxAttempt : Type 0 where
  pub at : String
  pub endpoint : String
  pub method : String
  pub succeeded : Bool
  pub tx_hash : Option String
  pub error : Option String

-- What the caller of `addOutboxEntry` gives and nothing changes; `policy_snapshot` is JSON text.
pub record OutboxBody : Type 0 where
  pub network : String
  pub chain_id : ℕ
  pub kind : OutboxKind
  pub method : String
  pub payload_hex : String
  pub expires_at : Option String
  pub wallet_name : Option String
  pub from : Option String
  pub to : Option String
  pub amount : Option Text
  pub asset : Option String
  pub nonce : Option String
  pub runbook_id : Option String
  pub policy_snapshot : Option String
  pub low_value_reserved : Option Bool
  pub note : Option String

pub record TxOutboxEntry : Type 0 where
  pub id : String
  pub status : OutboxStatus
  pub body : OutboxBody
  pub payload_hash : String
  pub created_at : String
  pub updated_at : String
  pub tx_hash : Option String
  pub attempts : List OutboxAttempt

-- The argument of `addOutboxEntry`.
pub record OutboxDraft : Type 0 where
  pub id : Option String
  pub status : Option OutboxStatus
  pub body : OutboxBody
  pub tx_hash : Option String
  pub attempts : Option (List OutboxAttempt)

pub data OutboxError : Type 0 where
  unsupported_outbox entry_not_found : OutboxError

abbrev pub OutboxFile : Type 0
OutboxFile = StoreFile TxOutboxEntry

abbrev pub entry_id : TxOutboxEntry → String
entry_id e = e.id

abbrev pub status_eq : OutboxStatus → OutboxStatus → Bool
status_eq signed signed = true
status_eq submitted submitted = true
status_eq confirmed confirmed = true
status_eq failed failed = true
status_eq expired expired = true
status_eq _ _ = false

abbrev pub status_wanted : Option OutboxStatus → OutboxStatus → Bool
status_wanted none s = true
status_wanted (some w) s = status_eq s w

-- The entry that `addOutboxEntry` makes at `now`; `hash` is `payloadHash`.
abbrev pub entry_of : (hash : String → String) (now fresh_id : String) → OutboxDraft → TxOutboxEntry
entry_of hash now fresh_id d = record {
  id = or_else d.id fresh_id;
  status = or_else d.status signed;
  body = d.body;
  payload_hash = hash d.body.payload_hex;
  created_at = now;
  updated_at = now;
  tx_hash = d.tx_hash;
  attempts = or_else d.attempts [];
}

unfoldable pub add_outbox_entry :
    (hash : String → String) (now fresh_id : String)
    → OutboxDraft
    → Exec OutboxError OutboxFile TxOutboxEntry
add_outbox_entry hash now fresh_id d = add_front unsupported_outbox (entry_of hash now fresh_id d)

unfoldable pub list_outbox_entries :
    Option OutboxStatus
    → Option String
    → Option ℕ
    → Exec OutboxError OutboxFile (List TxOutboxEntry)
list_outbox_entries status wallet_name limit = do
  entries ← read_records unsupported_outbox
  pure (
      first_of limit (
        keep (λ e. wants (given wallet_name) e.body.wallet_name)
          (keep (λ e. status_wanted status e.status) entries)))

unfoldable pub get_outbox_entry : String → Exec OutboxError OutboxFile TxOutboxEntry
get_outbox_entry = get_record unsupported_outbox entry_id entry_not_found

-- `attempt.ok && attempt.txHash`
abbrev pub hash_of : OutboxAttempt → Option String
hash_of a = if a.succeeded then given a.tx_hash else none

-- What `recordOutboxAttempt` makes of the entry, by the hash that the attempt gave.
abbrev pub with_outcome : Option String → OutboxAttempt → TxOutboxEntry → TxOutboxEntry
with_outcome none a e = record e { attempts = a ∷ e.attempts; updated_at = a.at }
with_outcome (some h) a e = record e {
  attempts = a ∷ e.attempts;
  updated_at = a.at;
  status = submitted;
  tx_hash = some h;
}

unfoldable pub with_attempt : OutboxAttempt → TxOutboxEntry → TxOutboxEntry
with_attempt a e = with_outcome (hash_of a) a e

unfoldable pub record_outbox_attempt :
    String → OutboxAttempt → Exec OutboxError OutboxFile TxOutboxEntry
record_outbox_attempt id a =
    change_record unsupported_outbox entry_id entry_not_found id (with_attempt a)

abbrev pub with_status :
    (now : String) → OutboxStatus → Option String → TxOutboxEntry → TxOutboxEntry
with_status now status tx_hash e = record e {
  status = status;
  tx_hash = or_maybe tx_hash e.tx_hash;
  updated_at = now;
}

unfoldable pub update_outbox_status :
    (now : String)
    → String
    → OutboxStatus
    → Option String
    → Exec OutboxError OutboxFile TxOutboxEntry
update_outbox_status now id status tx_hash =
    change_record unsupported_outbox entry_id entry_not_found id (with_status now status tx_hash)

unfoldable pub forget_outbox_entry : String → Exec OutboxError OutboxFile (Unit {0})
forget_outbox_entry = remove_records unsupported_outbox entry_id entry_not_found
