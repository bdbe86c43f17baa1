-- ===== src/Desk/Status.antt =====
-- `txStatusSummary`, src/index.ts: the status of a transaction on the chain, and the settlement of
-- the entry that it was signed for.
use lyth_mcp.Prelude.{
  String, Bool, true, false, Option, none, some, if◌then◌else◌, or_maybe, str_eq, ◌>>=◌, pure, lift,
  of_option,
}
use lyth_mcp.Amount.{Text}
use lyth_mcp.Files.Store.{given}
use lyth_mcp.LowValue.{Bucket, AccountingSummary}
use lyth_mcp.Outbox.{OutboxStatus, TxOutboxEntry, status_eq, update_outbox_status}
use lyth_mcp.Desk.{DeskOp, no_endpoint, Session, on_outbox, is_reserved, terms_of, move_reserved}
use lyth_mcp.Desk.Submit.{entry_if_given}

-- What eth_getTransactionReceipt answers: an error, nothing yet, or a receipt with its status.
pub data ChainReceipt : Type 0 where
  receipt_error no_receipt : ChainReceipt
  chain_receipt : (status : Option String) → ChainReceipt

-- What eth_getTransactionByHash answers.
pub data ChainTx : Type 0 where
  tx_error no_tx chain_tx : ChainTx

pub data Derived : Type 0 where
  still_submitted is_confirmed is_failed not_found : Derived

pub data StatusSummary : Type 0 where
  no_hash : Option TxOutboxEntry → StatusSummary
  derived :
      (tx_hash : String)
      → Option TxOutboxEntry
      → Derived
      → Option (Option AccountingSummary)
      → StatusSummary

-- `status === "0x0"`
abbrev pub reverted : Option String → Bool
reverted none = false
reverted (some t) = str_eq t "0x0"

abbrev pub settled_status : Bool → OutboxStatus
settled_status true = lyth_mcp.Outbox.failed
settled_status false = lyth_mcp.Outbox.confirmed

abbrev pub settled_bucket : Bool → Bucket
settled_bucket true = lyth_mcp.LowValue.failed
settled_bucket false = lyth_mcp.LowValue.confirmed

unfoldable pub settle_terms :
    Session
    → Bool
    → OutboxStatus
    → Option (String × Text)
    → DeskOp (Option (Option AccountingSummary))
settle_terms s reverts status none = pure none
settle_terms s reverts status (some terms) =
    if status_eq status lyth_mcp.Outbox.submitted
    then (do
      a ← move_reserved s terms lyth_mcp.LowValue.submitted (settled_bucket reverts)
      pure (some a))
    else pure none

-- The settlement of the entry `e`, as it was read before its status was written.
unfoldable pub settle_entry :
    Session → Bool → String → TxOutboxEntry → DeskOp (Option (Option AccountingSummary))
settle_entry s reverts hash e = do
  updated ← on_outbox (update_outbox_status s.now e.id (settled_status reverts) (some hash))
  if is_reserved e then settle_terms s reverts e.status (terms_of e) else pure none

unfoldable pub settle_if_given :
    Session → Bool → String → Option TxOutboxEntry → DeskOp (Option (Option AccountingSummary))
settle_if_given s reverts hash none = pure none
settle_if_given s reverts hash (some e) = settle_entry s reverts hash e

abbrev pub derived_of : Bool → Derived
derived_of true = is_failed
derived_of false = is_confirmed

abbrev without_receipt : ChainTx → Derived
without_receipt no_tx = not_found
without_receipt _ = still_submitted

unfoldable pub summarize_hash :
    Session → ChainReceipt → ChainTx → String → Option TxOutboxEntry → DeskOp StatusSummary
summarize_hash s (chain_receipt status) tx hash e = do
  accounting ← settle_if_given s (reverted status) hash e
  pure (derived hash e (derived_of (reverted status)) accounting)
summarize_hash s _ tx hash e = pure (derived hash e (without_receipt tx) none)

abbrev pub hash_in : Option TxOutboxEntry → Option String
hash_in none = none
hash_in (some e) = e.tx_hash

unfoldable pub summarize_found :
    Session → ChainReceipt → ChainTx → Option String → Option TxOutboxEntry → DeskOp StatusSummary
summarize_found s on_chain tx none e = pure (no_hash e)
summarize_found s on_chain tx (some hash) e = do
  endpoint ← lift (of_option no_endpoint s.endpoint)
  summarize_hash s on_chain tx hash e

unfoldable pub tx_status_summary :
    Session → (tx_hash outbox_id : Option String) → ChainReceipt → ChainTx → DeskOp StatusSummary
tx_status_summary s tx_hash id on_chain tx = do
  e ← entry_if_given (given id)
  summarize_found s on_chain tx (given (or_maybe tx_hash (hash_in e))) e
