-- ===== src/Desk/Release.antt =====
-- `releaseLowValueReservation` and `tx_outbox_expire_stale`, src/index.ts.
use lyth_mcp.Prelude.{
  ℕ, String, Bool, false, not, ◌&&◌, Option, none, some, List, [], ◌∷◌, if◌then◌else◌, or_else,
  or_maybe, keep, ◌>>=◌, pure,
}
use lyth_mcp.Amount.{Text}
use lyth_mcp.LowValue.{Bucket, reserved, AccountingSummary}
use lyth_mcp.Outbox.{
  OutboxStatus, signed, failed, expired, TxOutboxEntry, status_eq, get_outbox_entry,
  update_outbox_status, list_outbox_entries,
}
use lyth_mcp.Receipts.{OperationReceipt, ReceiptBody}
use lyth_mcp.Files.Store.{given}
use lyth_mcp.Desk.{
  words, DeskOp, Session, on_outbox, file_receipt, is_reserved, terms_of, move_reserved,
}

pub data Target : Type 0 where
  to_expired to_failed : Target

abbrev pub bucket_of : Target → Bucket
bucket_of to_expired = lyth_mcp.LowValue.expired
bucket_of to_failed = lyth_mcp.LowValue.failed

abbrev pub status_of : Target → OutboxStatus
status_of to_expired = expired
status_of to_failed = failed

pub data Reason : Type 0 where
  not_reserved missing_terms not_signed : Reason

pub data Release : Type 0 where
  kept : TxOutboxEntry → Reason → Release
  released : TxOutboxEntry → Option AccountingSummary → OperationReceipt → Release

abbrev target_name : Target → String
target_name to_expired = "expired"
target_name to_failed = "failed"

abbrev release_receipt : Session → Target → TxOutboxEntry → String × Text → String → ReceiptBody
release_receipt s to e (name, amount) id = record {
  kind = "low_value_reservation_release";
  status = elim to [
    | to_expired ↦ lyth_mcp.Receipts.confirmed
    | to_failed ↦ lyth_mcp.Receipts.failed
  ];
  network = s.network;
  chain_id = s.chain_id;
  title = words ("Released low-value reservation " ∷ id ∷ []);
  summary = words (
      name
      ∷ " "
      ∷ s.summary_of amount
      ∷ " "
      ∷ or_else e.body.asset "LYTH"
      ∷ " moved from reserved to "
      ∷ target_name to
      ∷ []);
  wallet_name = e.body.wallet_name;
  from = e.body.from;
  to = e.body.to;
  amount = e.body.amount;
  asset = e.body.asset;
  outbox_id = some id;
  tx_hash = none;
  payload_hash = some e.payload_hash;
  endpoint = none;
  error = none;
}

-- The move of the allowance, the status and the receipt, in this order.
unfoldable pub release_entry :
    Session → String → Target → TxOutboxEntry → String × Text → DeskOp Release
release_entry s id to e terms = do
  accounting ← move_reserved s terms reserved (bucket_of to)
  updated ← on_outbox (update_outbox_status s.now id (status_of to) none)
  receipt ← file_receipt s (release_receipt s to e terms id)
  pure (released updated accounting receipt)

unfoldable pub release_found :
    Session → String → Target → TxOutboxEntry → Option (String × Text) → DeskOp Release
release_found s id to e none = pure (kept e missing_terms)
release_found s id to e (some terms) =
    if status_eq e.status signed then release_entry s id to e terms else pure (kept e not_signed)

unfoldable pub release_reservation : Session → (id : String) → Target → DeskOp Release
release_reservation s id to = do
  e ← on_outbox (get_outbox_entry id)
  if is_reserved e then release_found s id to e (terms_of e) else pure (kept e not_reserved)

-- `entry.expiresAt` is there and not in the future.
abbrev pub is_stale : Session → Option String → Bool
is_stale s none = false
is_stale s (some t) = s.is_past t

abbrev pub eligible : Session → TxOutboxEntry → Bool
eligible s e = status_eq e.status signed && is_reserved e && is_stale s (given e.body.expires_at)

unfoldable pub release_all : Session → List TxOutboxEntry → DeskOp (List Release)
release_all s [] = pure []
release_all s (e ∷ es) = do
  r ← release_reservation s e.id to_expired
  rs ← release_all s es
  pure (r ∷ rs)

pub data Expiry : Type 0 where
  unconfirmed : Expiry
  candidates : List TxOutboxEntry → Expiry
  freed : List Release → Expiry

-- `confirmed_text`: whether the caller typed EXPIRE_STALE_RESERVATIONS.
unfoldable pub expire_stale : Session → (release confirmed_text : Bool) → Option ℕ → DeskOp Expiry
expire_stale s release confirmed_text limit =
    if release && not confirmed_text then pure unconfirmed else (do
      listed ← on_outbox (list_outbox_entries none none (or_maybe limit (some 100)))
      if release
          then (do rs ← release_all s (keep (eligible s) listed); pure (freed rs))
          else pure (candidates (keep (eligible s) listed)))
