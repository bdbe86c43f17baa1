-- ===== src/Desk/Soundness.antt =====
-- The outbox under the tools of src/index.ts that write to it.
use lyth_mcp.Prelude.{
  ℕ, String, refl, Bool, not, ◌&&◌, Option, none, some, List, [], ◌∷◌, Result, Keeps, Keeps-bind,
  Keeps-if, Keeps-pure, Keeps-lift,
}
use lyth_mcp.Amount.{Text}
use lyth_mcp.Files.Store.{given}
use lyth_mcp.Outbox.{TxOutboxEntry, OutboxStatus, status_eq, forget_outbox_entry}
use lyth_mcp.Outbox.Laws.{Settles, update_outbox_status-Sound, forget_outbox_entry-Sound}
use lyth_mcp.Desk.{Desk, Session, on_outbox, is_reserved, terms_of}
use lyth_mcp.Desk.Release.{Target, release_reservation, expire_stale}
use lyth_mcp.Desk.Submit.{
  entry_if_given, is_expired, retry_labels, submit_signed_transaction, tx_outbox_retry,
}
use lyth_mcp.Desk.Status.{
  ChainReceipt, chain_receipt, receipt_error, no_receipt, ChainTx, reverted, settled_status,
  settle_terms, settle_entry, settle_if_given, summarize_hash, summarize_found, tx_status_summary,
}
use lyth_mcp.Desk.Kept.{
  OutboxSound, on_outbox-Sound, get_entry-Sound, move_reserved-Sound, release_reservation-Sound,
  expire_stale-Sound, submit-Sound,
}

entry_if_given-Sound : (id : Option String) → Keeps OutboxSound (entry_if_given id)
unfolding entry_if_given
entry_if_given-Sound none = Keeps-pure none
entry_if_given-Sound (some id) = Keeps-bind _ _ (get_entry-Sound id) λ e. Keeps-pure (some e)

submit_signed_transaction-Sound :
    (s : Session) (hex : Bool) (id : Option String) (allow : Bool) (answer : Result String String)
    → Keeps OutboxSound (submit_signed_transaction s hex id allow answer)
unfolding submit_signed_transaction
submit_signed_transaction-Sound s hex id allow answer = Keeps-if (not hex) _ _ (Keeps-pure _) (
    Keeps-if (not s.submit_enabled) _ _ (Keeps-pure _) (
      Keeps-bind _ _ (entry_if_given-Sound (given id)) λ e.
        Keeps-if (is_expired e && not allow) _ _ (Keeps-pure _)
          (submit-Sound s _ none allow (given id) id e answer)))

tx_outbox_retry-Sound :
    (s : Session) (id : String) (allow : Bool) (answer : Result String String)
    → Keeps OutboxSound (tx_outbox_retry s id allow answer)
unfolding tx_outbox_retry
tx_outbox_retry-Sound s id allow answer = Keeps-bind _ _ (get_entry-Sound id) λ e.
    Keeps-if (is_expired (some e) && not allow) _ _ (Keeps-pure _) (
      Keeps-if (not s.submit_enabled) _ _ (Keeps-pure _)
        (submit-Sound s (retry_labels id) (some e) allow (some id) (some id) (some e) answer))

-- Status summaries.
settled-Settles : (reverts : Bool) (hash : String) → Settles (settled_status reverts) (some hash)
settled-Settles reverts hash settled = (hash, refl)

settle_terms-Sound :
    (s : Session) (reverts : Bool) (status : OutboxStatus) (o : Option (String × Text))
    → Keeps OutboxSound (settle_terms s reverts status o)
unfolding settle_terms
settle_terms-Sound s reverts status none = Keeps-pure none
settle_terms-Sound s reverts status (some terms) =
    Keeps-if (status_eq status lyth_mcp.Outbox.submitted) _ _
      (Keeps-bind _ _ (move_reserved-Sound s terms _ _) λ a. Keeps-pure (some a)) (Keeps-pure none)

settle_if_given-Sound :
    (s : Session) (reverts : Bool) (hash : String) (e : Option TxOutboxEntry)
    → Keeps OutboxSound (settle_if_given s reverts hash e)
unfolding settle_if_given settle_entry
settle_if_given-Sound s reverts hash none = Keeps-pure none
settle_if_given-Sound s reverts hash (some e) =
    Keeps-bind _ _
      (on_outbox-Sound _
        (update_outbox_status-Sound s.now e.id _ (some hash) (settled-Settles reverts hash)))
      λ u.
        Keeps-if (is_reserved e) _ _ (settle_terms-Sound s reverts e.status (terms_of e))
          (Keeps-pure none)

summarize_hash-Sound :
    (s : Session) (on_chain : ChainReceipt) (tx : ChainTx) (hash : String)
    (e : Option TxOutboxEntry)
    → Keeps OutboxSound (summarize_hash s on_chain tx hash e)
unfolding summarize_hash
summarize_hash-Sound s (chain_receipt status) tx hash e =
    Keeps-bind _ _ (settle_if_given-Sound s (reverted status) hash e) λ a. Keeps-pure _
summarize_hash-Sound s receipt_error tx hash e = Keeps-pure _
summarize_hash-Sound s no_receipt tx hash e = Keeps-pure _

summarize_found-Sound :
    (s : Session) (on_chain : ChainReceipt) (tx : ChainTx) (hash : Option String)
    (e : Option TxOutboxEntry)
    → Keeps OutboxSound (summarize_found s on_chain tx hash e)
unfolding summarize_found
summarize_found-Sound s on_chain tx none e = Keeps-pure _
summarize_found-Sound s on_chain tx (some hash) e =
    Keeps-bind _ _ (Keeps-lift _) λ _. summarize_hash-Sound s on_chain tx hash e

tx_status_summary-Sound :
    (s : Session) (hash id : Option String) (on_chain : ChainReceipt) (tx : ChainTx)
    → Keeps OutboxSound (tx_status_summary s hash id on_chain tx)
unfolding tx_status_summary
tx_status_summary-Sound s hash id on_chain tx =
    Keeps-bind _ _ (entry_if_given-Sound (given id)) λ e. summarize_found-Sound s on_chain tx _ e

-- A call of one of the tools, in a session of its own.
pub data Tool : Type 0 where
  submit_tool :
      Session → (payload_is_hex : Bool) → Option String → Bool → Result String String → Tool
  retry_tool : Session → String → Bool → Result String String → Tool
  release_tool : Session → String → Target → Tool
  expire_tool : Session → (release typed : Bool) → Option ℕ → Tool
  status_tool : Session → (tx_hash id : Option String) → ChainReceipt → ChainTx → Tool
  forget_tool : String → Tool

pub use_tool : Tool → Desk → Desk
use_tool (submit_tool s hex id allow answer) d =
    (submit_signed_transaction s hex id allow answer d).1
use_tool (retry_tool s id allow answer) d = (tx_outbox_retry s id allow answer d).1
use_tool (release_tool s id to) d = (release_reservation s id to d).1
use_tool (expire_tool s release typed limit) d = (expire_stale s release typed limit d).1
use_tool (status_tool s hash id on_chain tx) d = (tx_status_summary s hash id on_chain tx d).1
use_tool (forget_tool id) d = (on_outbox (forget_outbox_entry id) d).1

pub use_tools : List Tool → Desk → Desk
use_tools [] d = d
use_tools (t ∷ ts) d = use_tools ts (use_tool t d)

use_tool-Sound : (t : Tool) (d : Desk) → OutboxSound d → OutboxSound (use_tool t d)
unfolding use_tool
use_tool-Sound (submit_tool s hex id allow answer) d h =
    ((submit_signed_transaction-Sound s hex id allow answer).at d h).0
use_tool-Sound (retry_tool s id allow answer) d h =
    ((tx_outbox_retry-Sound s id allow answer).at d h).0
use_tool-Sound (release_tool s id to) d h = ((release_reservation-Sound s id to).at d h).0
use_tool-Sound (expire_tool s release typed limit) d h =
    ((expire_stale-Sound s release typed limit).at d h).0
use_tool-Sound (status_tool s hash id on_chain tx) d h =
    ((tx_status_summary-Sound s hash id on_chain tx).at d h).0
use_tool-Sound (forget_tool id) d h = ((on_outbox-Sound _ (forget_outbox_entry-Sound id)).at d h).0

-- Whatever tools are called, whatever the chain and the endpoint answer them, and whichever of them throw:
-- the ids of the outbox stay distinct, and every submitted or confirmed entry has its transaction's hash.
pub use_tools-Sound : (ts : List Tool) (d : Desk) → OutboxSound d → OutboxSound (use_tools ts d)
unfolding use_tools
use_tools-Sound [] d h = h
use_tools-Sound (t ∷ ts) d h = use_tools-Sound ts (use_tool t d) (use_tool-Sound t d h)
