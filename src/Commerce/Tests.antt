-- ===== src/Commerce/Tests.antt =====
-- An invoice that expires, and an order that is paid.
use mathlib.Core.Path.{◌≡◌, refl}
use lyth_mcp.Prelude.{
  inr, String, Bool, true, some, none, [], ◌∷◌, ok, Keeps, str_eq, if◌then◌else◌, ◌>>=◌,
}
use lyth_mcp.Files.{stored}
use lyth_mcp.Files.Store.{read_records, write_records, get_record, change_record}
use lyth_mcp.Files.Store.Lookups.{lookup}
use lyth_mcp.Commerce.{EventBody, event_at, tracked_id, unsupported_store, not_found}
use lyth_mcp.Commerce.Orders.{
  OrderFields, OrderRecord, created, paid, create_order, new_order, update_order, patched_order,
}
use lyth_mcp.Commerce.Bookings.{BookingFields, requested, create_booking, update_booking}
use lyth_mcp.Commerce.Invoices.{
  InvoiceFields, InvoiceRecord, is_open, expired, invoice, normalize_invoice_status, create_invoice,
  get_invoice, update_invoice,
}
use lyth_mcp.Commerce.History.{
  AllKept, IsCurrent, histories-AllKept, returned-IsCurrent, update_order_lem,
}

abbrev order_fields : OrderFields
order_fields = record {
  status = created;
  network = "testnet";
  chain_id = 1;
  vendor_id = "v1";
  vendor_display_name = none;
  vendor_address = none;
  item_id = none;
  item_name = none;
  quantity = 1;
  amount = "2";
  asset = "LYTH";
  registry_hash = "h";
  fulfillment_fields = none;
  quote = "{}";
  payment = none;
  fulfillment = none;
  cancel_reason = none;
}

abbrev pay : OrderFields → OrderFields
pay f = record f { status = paid }

abbrev paid_event : EventBody
paid_event = record { type = "paid"; note = none; details = none }

abbrev first_order : OrderRecord
first_order = new_order "t1" "order_1" order_fields

abbrev paid_order : OrderRecord
paid_order = patched_order "t2" pay paid_event first_order

updated :
    update_order "t2" "order_1" pay paid_event (stored (first_order ∷ []))
    ≡ (ok paid_order, stored (paid_order ∷ []))
unfolding update_order change_record read_records write_records ◌>>=◌
updated = refl

update_order_lem_example :
    (o : OrderRecord) × (lookup unsupported_store tracked_id not_found "order_1"
        (stored (first_order ∷ []))
      ≡ ok o)
    × (paid_order.id ≡ o.id)
    × (paid_order.created_at ≡ o.created_at)
    × (paid_order.fields ≡ pay o.fields)
    × (paid_order.events ≡ event_at "t2" paid_event ∷ o.events)
    × ((j : String)
        → lookup unsupported_store tracked_id not_found j (stored (paid_order ∷ [])) ≡ (
            if str_eq "order_1" j
            then ok paid_order
            else lookup unsupported_store tracked_id not_found j (stored (first_order ∷ []))))
update_order_lem_example =
    update_order_lem "t2" "order_1" pay paid_event (stored (first_order ∷ [])) paid_order
      (stored (paid_order ∷ [])) updated

abbrev booking_fields : BookingFields
booking_fields = record {
  status = requested;
  network = "testnet";
  chain_id = 1;
  vendor_id = "v1";
  vendor_display_name = none;
  vendor_address = none;
  service = "massage";
  amount = "2";
  asset = "LYTH";
  registry_hash = "h";
  requested_window = none;
  location = none;
  booking_fields = none;
  quote = none;
  merchant_risk = none;
  asset_policy = none;
  commerce_safety = none;
  risk_summary = none;
  runbook_id = none;
  escrow = none;
  payment_tx_hash = none;
  completion = none;
  dispute = none;
  cancel_reason = none;
}

abbrev same_booking : BookingFields → BookingFields
same_booking f = f

abbrev invoice_fields : InvoiceFields
invoice_fields = record {
  status = is_open;
  type = invoice;
  network = "testnet";
  chain_id = 1;
  expires_at = some "t2";
  recipient = "0xa";
  amount = "2";
  asset = "LYTH";
  purpose = "lunch";
  payer = none;
  memo = none;
  tx_hash = none;
}

abbrev first_invoice : InvoiceRecord
first_invoice = record {
  id = "invoice_1";
  fields = invoice_fields;
  created_at = "t1";
  updated_at = "t1";
  events = record { at = "t1"; type = "created"; note = none; details = none } ∷ [];
}

abbrev late : String → Bool
late t = true

abbrev reopen : InvoiceFields → InvoiceFields
reopen f = record f { status = is_open }

histories-AllKept_example :
    (Keeps AllKept (create_order "t1" "order_1" order_fields)
      × Keeps AllKept (update_order "t1" "order_1" pay paid_event))
    × (Keeps AllKept (create_booking "t1" "order_1" booking_fields)
        × Keeps AllKept (update_booking "t1" "order_1" same_booking paid_event))
    × (Keeps AllKept (create_invoice late "t1" "order_1" invoice_fields)
        × Keeps AllKept (update_invoice late "t1" "order_1" reopen "reopened" none))
histories-AllKept_example =
    histories-AllKept late "t1" "order_1" order_fields booking_fields invoice_fields pay
      same_booking reopen paid_event "reopened" none

abbrev expired_invoice : InvoiceRecord
expired_invoice = record first_invoice { fields = record invoice_fields { status = expired } }

got :
    get_invoice late "invoice_1" (stored (first_invoice ∷ []))
    ≡ (ok expired_invoice, stored (first_invoice ∷ []))
unfolding get_invoice get_record read_records normalize_invoice_status ◌>>=◌
got = refl

abbrev reopened : InvoiceRecord
reopened = record expired_invoice {
  updated_at = "t3";
  events =
      record { at = "t3"; type = "reopened"; note = none; details = none } ∷ first_invoice.events;
}

reopens :
    update_invoice late "t3" "invoice_1" reopen "reopened" none (stored (first_invoice ∷ []))
    ≡ (ok reopened, stored (reopened ∷ []))
unfolding update_invoice change_record read_records write_records normalize_invoice_status ◌>>=◌
reopens = refl

returned-IsCurrent_example : IsCurrent late reopened
returned-IsCurrent_example =
    returned-IsCurrent late "t3" "invoice_1" reopen "reopened" none (stored (first_invoice ∷ []))
      reopened (stored (reopened ∷ [])) (inr reopens)
