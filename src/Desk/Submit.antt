-- ===== src/Desk/Submit.antt =====
-- `submit_signed_transaction` and `tx_outbox_retry`, src/index.ts. `answer` is what the endpoint says to
-- mesh_submitTx: a hash, or the message of an error.
use lyth_mcp.Prelude.{
  String, Bool, true, false, not, ◌&&◌, Option, none, some, [], ◌∷◌, if◌then◌else◌, Result, ok, err,
  ◌>>=◌, pure, raise, lift, of_option, recover,
}
use lyth_mcp.Amount.{Text}
use lyth_mcp.Files.Store.{given}
use lyth_mcp.LowValue.{reserved, submitted, expired, AccountingSummary}
use lyth_mcp.Outbox.{
  OutboxStatus, OutboxAttempt, TxOutboxEntry, status_eq, get_outbox_entry, record_outbox_attempt,
}
use lyth_mcp.Receipts.{OperationReceipt, ReceiptBody}
use lyth_mcp.Desk.{
  words, DeskError, no_endpoint, rpc_failed, DeskOp, Session, on_outbox, file_receipt, is_reserved,
  terms_of, move_reserved,
}

-- `outboxMethod`
abbrev pub outbox_method : String
outbox_method = "mesh_submitTx"

pub data Refusal : Type 0 where
  not_hex submit_disabled locally_expired : Refusal

pub data Submission : Type 0 where
  refused : Refusal → Submission
  sent :
      (tx_hash : String)
      → Option TxOutboxEntry
      → Option (Option AccountingSummary)
      → OperationReceipt
      → Submission
  failed : (message : String) → Option TxOutboxEntry → OperationReceipt → Submission

-- A low-value entry moves its amount by the status that it was read with.
unfoldable pub account_terms :
    Session
    → (allow_expired : Bool) → OutboxStatus
    → Option (String × Text)
    → DeskOp (Option (Option AccountingSummary))
account_terms s allow_expired status none = pure none
account_terms s allow_expired status (some terms) =
    if status_eq status lyth_mcp.Outbox.signed
    then (do a ← move_reserved s terms reserved submitted; pure (some a))
    else if status_eq status lyth_mcp.Outbox.expired && allow_expired
    then (do a ← move_reserved s terms expired submitted; pure (some a))
    else pure none

unfoldable pub account_for :
    Session → Bool → TxOutboxEntry → DeskOp (Option (Option AccountingSummary))
account_for s allow_expired e =
    if is_reserved e then account_terms s allow_expired e.status (terms_of e) else pure none

unfoldable pub account_entry :
    Session → Bool → Option TxOutboxEntry → DeskOp (Option (Option AccountingSummary))
account_entry s allow_expired none = pure none
account_entry s allow_expired (some e) = account_for s allow_expired e

abbrev attempt_sent : Session → String → String → OutboxAttempt
attempt_sent s endpoint tx_hash = record {
  at = s.now;
  endpoint = endpoint;
  method = outbox_method;
  succeeded = true;
  tx_hash = some tx_hash;
  error = none;
}

abbrev attempt_failed : Session → String → String → OutboxAttempt
attempt_failed s endpoint message = record {
  at = s.now;
  endpoint = endpoint;
  method = outbox_method;
  succeeded = false;
  tx_hash = none;
  error = some message;
}

unfoldable pub record_attempt : Option String → OutboxAttempt → DeskOp (Option TxOutboxEntry)
record_attempt none a = pure none
record_attempt (some id) a = do e ← on_outbox (record_outbox_attempt id a); pure (some e)

-- What the receipts of one submission share.
pub record Labels : Type 0 where
  pub kind : String
  pub title_sent : String
  pub title_failed : String

-- The receipt; only `tx_outbox_retry` copies the entry into it.
abbrev receipt_body :
    Session
    → Labels
    → (copied : Option TxOutboxEntry) → (id : Option String) → (endpoint : String)
    → Result String String
    → ReceiptBody
receipt_body s l copied id endpoint outcome = record {
  kind = l.kind;
  status = elim outcome [ ok _ ↦ lyth_mcp.Receipts.submitted | err _ ↦ lyth_mcp.Receipts.failed ];
  network = s.network;
  chain_id = s.chain_id;
  title = elim outcome [ ok _ ↦ l.title_sent | err _ ↦ l.title_failed ];
  summary = elim outcome [
    | ok hash ↦ words (outbox_method ∷ " -> " ∷ hash ∷ [])
    | err _ ↦ words (outbox_method ∷ " failed" ∷ [])
  ];
  wallet_name = elim copied [ none ↦ none | some e ↦ e.body.wallet_name ];
  from = elim copied [ none ↦ none | some e ↦ e.body.from ];
  to = elim copied [ none ↦ none | some e ↦ e.body.to ];
  amount = elim copied [ none ↦ none | some e ↦ e.body.amount ];
  asset = elim copied [ none ↦ none | some e ↦ e.body.asset ];
  outbox_id = id;
  tx_hash = elim outcome [ ok hash ↦ some hash | err _ ↦ none ];
  payload_hash = elim copied [ none ↦ none | some e ↦ some e.payload_hash ];
  endpoint = some endpoint;
  error = elim outcome [ ok _ ↦ none | err message ↦ some message ];
}

-- The `try` block: the entry `e` was read before the endpoint was asked.
unfoldable pub try_submit :
    Session
    → Labels
    → (copied : Option TxOutboxEntry) → Bool
    → (recorded label : Option String) → Option TxOutboxEntry
    → (endpoint : String) → Result String String
    → DeskOp Submission
try_submit s l copied allow_expired recorded label e endpoint (err message) =
    raise (rpc_failed message)
try_submit s l copied allow_expired recorded label e endpoint (ok hash) = do
  updated ← record_attempt recorded (attempt_sent s endpoint hash)
  accounting ← account_entry s allow_expired e
  receipt ← file_receipt s (receipt_body s l copied label endpoint (ok hash))
  pure (sent hash updated accounting receipt)

-- The `catch` block.
unfoldable pub submit_failed :
    Session
    → Labels
    → (copied : Option TxOutboxEntry) → (recorded label : Option String) → (endpoint : String)
    → DeskError
    → DeskOp Submission
submit_failed s l copied recorded label endpoint x = do
  updated ← record_attempt recorded (attempt_failed s endpoint (s.message_of x))
  receipt ← file_receipt s (receipt_body s l copied label endpoint (err (s.message_of x)))
  pure (failed (s.message_of x) updated receipt)

unfoldable pub submit :
    Session
    → Labels
    → (copied : Option TxOutboxEntry) → Bool
    → (recorded label : Option String) → Option TxOutboxEntry
    → Result String String
    → DeskOp Submission
submit s l copied allow_expired recorded label e answer = do
  endpoint ← lift (of_option no_endpoint s.endpoint)
  recover (try_submit s l copied allow_expired recorded label e endpoint answer)
      (submit_failed s l copied recorded label endpoint)

abbrev pub is_expired : Option TxOutboxEntry → Bool
is_expired none = false
is_expired (some e) = status_eq e.status lyth_mcp.Outbox.expired

abbrev direct_labels : Labels
direct_labels = record {
  kind = "submit_signed_transaction";
  title_sent = "Submitted signed transaction";
  title_failed = "Failed signed transaction submission";
}

abbrev pub retry_labels : String → Labels
retry_labels id = record {
  kind = "tx_outbox_retry";
  title_sent = words ("Retried outbox " ∷ id ∷ []);
  title_failed = words ("Failed retry for outbox " ∷ id ∷ []);
}

-- `outboxId ? await getOutboxEntry(outboxId) : null`
unfoldable pub entry_if_given : Option String → DeskOp (Option TxOutboxEntry)
entry_if_given none = pure none
entry_if_given (some id) = do e ← on_outbox (get_outbox_entry id); pure (some e)

unfoldable pub submit_signed_transaction :
    Session
    → (payload_is_hex : Bool) → (outbox_id : Option String) → (allow_expired : Bool)
    → Result String String
    → DeskOp Submission
submit_signed_transaction s payload_is_hex id allow_expired answer =
    if not payload_is_hex
    then pure (refused not_hex)
    else if not s.submit_enabled
    then pure (refused submit_disabled)
    else (do
      e ← entry_if_given (given id)
      if is_expired e && not allow_expired
          then pure (refused locally_expired)
          else submit s direct_labels none allow_expired (given id) id e answer)

unfoldable pub tx_outbox_retry :
    Session → (id : String) → (allow_expired : Bool) → Result String String → DeskOp Submission
tx_outbox_retry s id allow_expired answer = do
  e ← on_outbox (get_outbox_entry id)
  if is_expired (some e) && not allow_expired
      then pure (refused locally_expired)
      else if not s.submit_enabled
      then pure (refused submit_disabled)
      else submit s (retry_labels id) (some e) allow_expired (some id) (some id) (some e) answer
