-- ===== src/Receipts.antt =====
-- The receipts of operations, src/receipts.ts. The JSON of `result` is left out of a receipt.
use lyth_mcp.Prelude.{
  ℕ, String, Bool, true, false, Option, none, some, List, or_else, keep, Exec, ◌>>=◌, pure,
}
use lyth_mcp.Amount.{Text}
use lyth_mcp.Files.{StoreFile}
use lyth_mcp.Files.Store.{given, wants, first_of, read_records, add_front, get_record}

pub data ReceiptStatus : Type 0 where
  drafted signed submitted confirmed failed : ReceiptStatus

-- What the caller of `addReceipt` gives.
pub record ReceiptBody : Type 0 where
  pub kind : String
  pub status : ReceiptStatus
  pub network : String
  pub chain_id : ℕ
  pub title : String
  pub summary : String
  pub wallet_name : Option String
  pub from : Option String
  pub to : Option String
  pub amount : Option Text
  pub asset : Option String
  pub outbox_id : Option String
  pub tx_hash : Option String
  pub payload_hash : Option String
  pub endpoint : Option String
  pub error : Option String

pub record OperationReceipt : Type 0 where
  pub id : String
  pub created_at : String
  pub updated_at : String
  pub body : ReceiptBody

pub data ReceiptError : Type 0 where
  unsupported_receipts receipt_not_found : ReceiptError

abbrev pub ReceiptFile : Type 0
ReceiptFile = StoreFile OperationReceipt

abbrev pub receipt_status_eq : ReceiptStatus → ReceiptStatus → Bool
receipt_status_eq drafted drafted = true
receipt_status_eq signed signed = true
receipt_status_eq submitted submitted = true
receipt_status_eq confirmed confirmed = true
receipt_status_eq failed failed = true
receipt_status_eq _ _ = false

abbrev receipt_status_wanted : Option ReceiptStatus → ReceiptStatus → Bool
receipt_status_wanted none s = true
receipt_status_wanted (some w) s = receipt_status_eq s w

unfoldable pub add_receipt :
    (now fresh_id : String)
    → Option String
    → ReceiptBody
    → Exec ReceiptError ReceiptFile OperationReceipt
add_receipt now fresh_id id body =
    add_front unsupported_receipts
      (record { id = or_else id fresh_id; created_at = now; updated_at = now; body = body })

unfoldable pub list_receipts :
    Option ReceiptStatus
    → (kind wallet_name : Option String) → Option ℕ
    → Exec ReceiptError ReceiptFile (List OperationReceipt)
list_receipts status kind wallet_name limit = do
  receipts ← read_records unsupported_receipts
  pure (
      first_of limit (
        keep (λ r. wants (given wallet_name) r.body.wallet_name)
          (keep (λ r. wants (given kind) (some r.body.kind))
            (keep (λ r. receipt_status_wanted status r.body.status) receipts))))

unfoldable pub get_receipt : String → Exec ReceiptError ReceiptFile OperationReceipt
get_receipt = get_record unsupported_receipts (λ (r : OperationReceipt). r.id) receipt_not_found
