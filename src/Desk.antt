-- ===== src/Desk.antt =====
-- The tools of src/index.ts that settle signed payloads, over the three files that they change: the
-- wallets, the outbox and the receipts.
pub mod Release
pub mod Submit
pub mod Status
pub mod Settlement
pub mod Confirmation
pub mod Kept
pub mod Soundness
pub mod Retry
mod Tests
use Prim.Native.String.{◌++◌ as concat}
use lyth_mcp.Prelude.{
  ℕ, String, Bool, false, Option, none, some, List, [], ◌∷◌, if◌then◌else◌, or_else, Result, ok,
  err, Exec, continue, ◌>>=◌, ◌>>◌, pure, raise, lift,
}
use lyth_mcp.Amount.{Text}
use lyth_mcp.Files.Store.{given}
use lyth_mcp.LowValue.{Bucket, AccountingSummary, truthy}
use lyth_mcp.Wallet.{WalletError, Call, World, Op}
use lyth_mcp.Wallet.Ops.{move_low_value_accounting}
use lyth_mcp.Outbox.{TxOutboxEntry, OutboxError, OutboxFile}
use lyth_mcp.Receipts.{ReceiptError, ReceiptFile, ReceiptBody, OperationReceipt, add_receipt}

-- The pieces of a template literal.
abbrev pub words : List String → String
words [] = ""
words (w ∷ ws) = concat w (words ws)

pub record Desk : Type 0 where
  pub world : World
  pub outbox : OutboxFile
  pub receipts : ReceiptFile

pub data DeskError : Type 0 where
  of_wallet : WalletError → DeskError
  of_outbox : OutboxError → DeskError
  of_receipts : ReceiptError → DeskError
  no_endpoint : DeskError
  rpc_failed : String → DeskError

abbrev pub DeskOp : Type 0 → Type 0
DeskOp A = Exec DeskError Desk A

-- What a tool call takes from outside: the configuration, the clock, fresh ids, the first endpoint
-- that can be written to, the text of an error, and an
-- amount as it is put into a receipt's summary.
pub record Session : Type 0 where
  pub call : Call
  pub now : String
  pub is_past : String → Bool
  pub network : String
  pub chain_id : ℕ
  pub submit_enabled : Bool
  pub endpoint : Option String
  pub fresh_receipt_id : String
  pub message_of : DeskError → String
  pub summary_of : (amount : Text) → String

abbrev pub among : {E A : Type 0} → (E → DeskError) → Result E A → Result DeskError A
among e (ok a) = ok a
among e (err x) = err (e x)

-- An operation on one of the files.
unfoldable pub on_wallets : {A : Type 0} → Op A → DeskOp A
on_wallets m d = (among of_wallet (m d.world).0, record d { world = (m d.world).1 })

unfoldable pub on_outbox : {A : Type 0} → Exec OutboxError OutboxFile A → DeskOp A
on_outbox m d = (among of_outbox (m d.outbox).0, record d { outbox = (m d.outbox).1 })

unfoldable pub on_receipts : {A : Type 0} → Exec ReceiptError ReceiptFile A → DeskOp A
on_receipts m d = (among of_receipts (m d.receipts).0, record d { receipts = (m d.receipts).1 })

unfoldable pub file_receipt : Session → ReceiptBody → DeskOp OperationReceipt
file_receipt s body = on_receipts (add_receipt s.now s.fresh_receipt_id none body)

-- `entry.lowValueReserved`
abbrev pub is_reserved : TxOutboxEntry → Bool
is_reserved e = or_else e.body.low_value_reserved false

-- The wallet's name and the amount, if neither is missing or empty.
abbrev pub pair_of : Option String → Option Text → Option (String × Text)
pair_of none amount = none
pair_of (some n) none = none
pair_of (some n) (some a) = some (n, a)

abbrev pub terms_of : TxOutboxEntry → Option (String × Text)
terms_of e = pair_of (given e.body.wallet_name) (truthy e.body.amount)

unfoldable pub move_reserved :
    Session → String × Text → (from to : Bucket) → DeskOp (Option AccountingSummary)
move_reserved s (n, amount) from to = on_wallets (move_low_value_accounting s.call n amount from to)
