-- ===== src/Desk/Retry.antt =====
-- `tx_outbox_retry` of src/index.ts and the accounting of the wallets.
use lyth_mcp.Prelude.{
  String, ◌≡◌, refl, ap, ◌∙◌, Bool, false, not, ◌&&◌, Option, none, some, if◌then◌else◌, Result, ok,
  err, pure, >>=-of_ok, Keeps, Keeps-of, Keeps-bind, Keeps-if, Keeps-pure, Keeps-raise, Keeps-lift,
  Keeps-recover,
}
use lyth_mcp.Amount.{Text}
use lyth_mcp.Wallet.{World}
use lyth_mcp.Outbox.{TxOutboxEntry, OutboxAttempt, status_eq, get_outbox_entry}
use lyth_mcp.Outbox.Laws.{found_at}
use lyth_mcp.Receipts.{ReceiptBody}
use lyth_mcp.Desk.{Desk, DeskError, Session, on_outbox, on_receipts, file_receipt, terms_of}
use lyth_mcp.Desk.Settlement.{get_entry-found}
use lyth_mcp.Desk.Confirmation.{WorldIs, on_outbox-WorldIs}
use lyth_mcp.Desk.Submit.{
  Submission, Labels, account_terms, account_for, account_entry, record_attempt, try_submit,
  submit_failed, submit, tx_outbox_retry, refused, locally_expired, submit_disabled, retry_labels,
}

module _ (w : World) (s : Session) (allow_expired : Bool) (e : TxOutboxEntry)
    (not_signed : status_eq e.status lyth_mcp.Outbox.signed ≡ false)
    (not_expired : status_eq e.status lyth_mcp.Outbox.expired ≡ false) where
  file_receipt-WorldIs : (body : ReceiptBody) → Keeps (WorldIs w) (file_receipt s body)
  unfolding file_receipt on_receipts
  file_receipt-WorldIs body = Keeps-of _ (λ d h. h)

  record_attempt-WorldIs :
      (id : Option String) (a : OutboxAttempt) → Keeps (WorldIs w) (record_attempt id a)
  unfolding record_attempt
  record_attempt-WorldIs none a = Keeps-pure none
  record_attempt-WorldIs (some id) a =
      Keeps-bind _ _ (on_outbox-WorldIs w _) λ x. Keeps-pure (some x)

  account_terms-WorldIs :
      (o : Option (String × Text)) → Keeps (WorldIs w) (account_terms s allow_expired e.status o)
  unfolding account_terms
  account_terms-WorldIs none = Keeps-pure none
  account_terms-WorldIs (some terms) = rw not_signed (rw not_expired (Keeps-pure none))

  account_entry-WorldIs : Keeps (WorldIs w) (account_entry s allow_expired (some e))
  unfolding account_entry account_for
  account_entry-WorldIs = Keeps-if _ _ _ (account_terms-WorldIs (terms_of e)) (Keeps-pure none)

  try_submit-WorldIs :
      (l : Labels) (copied : Option TxOutboxEntry) (recorded label : Option String)
      (endpoint : String) (answer : Result String String)
      → Keeps
          (WorldIs w)
          (try_submit s l copied allow_expired recorded label (some e) endpoint answer)
  unfolding try_submit
  try_submit-WorldIs l copied recorded label endpoint (err message) = Keeps-raise _
  try_submit-WorldIs l copied recorded label endpoint (ok hash) =
      Keeps-bind _ _ (record_attempt-WorldIs recorded _) λ _.
        Keeps-bind _ _ account_entry-WorldIs
          λ _. Keeps-bind _ _ (file_receipt-WorldIs _) λ _. Keeps-pure _

  submit-WorldIs :
      (l : Labels) (copied : Option TxOutboxEntry) (recorded label : Option String)
      (answer : Result String String)
      → Keeps (WorldIs w) (submit s l copied allow_expired recorded label (some e) answer)
  unfolding submit submit_failed
  submit-WorldIs l copied recorded label answer = Keeps-bind _ _ (Keeps-lift _) λ endpoint.
      Keeps-recover _ _ (try_submit-WorldIs l copied recorded label endpoint answer) λ x.
        Keeps-bind _ _ (record_attempt-WorldIs recorded _)
          λ _. Keeps-bind _ _ (file_receipt-WorldIs _) λ _. Keeps-pure _

  retry_found-WorldIs :
      (id : String) (answer : Result String String)
      → Keeps (WorldIs w) (
          if status_eq e.status lyth_mcp.Outbox.expired && not allow_expired
          then pure (refused locally_expired)
          else (if not s.submit_enabled
              then pure (refused submit_disabled)
              else submit s
                  (retry_labels id)
                  (some e)
                  allow_expired
                  (some id)
                  (some id)
                  (some e)
                  answer))
  retry_found-WorldIs id answer =
      Keeps-if (status_eq e.status lyth_mcp.Outbox.expired && not allow_expired) _ _
        (Keeps-pure (refused locally_expired))
        (Keeps-if (not s.submit_enabled) _ _ (Keeps-pure (refused submit_disabled))
          (submit-WorldIs (retry_labels id) (some e) (some id) (some id) answer))

-- A retry of a payload that was submitted, confirmed or failed before moves no amount between the
-- buckets, whatever the endpoint answers and wherever the call throws: only a signed or an expired entry is
-- accounted for.
pub tx_outbox_retry-unaccounted :
    (s : Session) (id : String) (allow_expired : Bool) (answer : Result String String) (d : Desk)
    (e : TxOutboxEntry)
    → found_at id d.outbox ≡ ok e
    → status_eq e.status lyth_mcp.Outbox.signed ≡ false
    → status_eq e.status lyth_mcp.Outbox.expired ≡ false
    → (tx_outbox_retry s id allow_expired answer d).1.world ≡ d.world
unfolding tx_outbox_retry
tx_outbox_retry-unaccounted s id allow_expired answer d e found not_signed not_expired =
    ap (λ (p : Result DeskError Submission × Desk). p.1.world)
      (>>=-of_ok (on_outbox (get_outbox_entry id)) _ d e d (get_entry-found id d e found))
    ∙ ((retry_found-WorldIs d.world s allow_expired e not_signed not_expired id answer).at d refl).0
