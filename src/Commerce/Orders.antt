-- ===== src/Commerce/Orders.antt =====
-- Orders of goods, src/orders.ts.
use lyth_mcp.Prelude.{
  ℕ, String, Bool, true, false, Option, none, some, List, [], ◌∷◌, keep, Exec, ◌>>=◌, pure,
}
use lyth_mcp.Files.{StoreFile}
use lyth_mcp.Files.Store.{
  given, wants, first_of, read_records, add_front, get_record, change_record,
}
use lyth_mcp.Commerce.{
  EventBody, event_at, Tracked, tracked_id, CommerceError, unsupported_store, not_found,
}

pub data OrderStatus : Type 0 where
  created payment_prepared paid fulfillment_requested fulfilled_demo fulfilled_manual cancelled :
      OrderStatus

abbrev pub order_status_eq : OrderStatus → OrderStatus → Bool
order_status_eq created created = true
order_status_eq payment_prepared payment_prepared = true
order_status_eq paid paid = true
order_status_eq fulfillment_requested fulfillment_requested = true
order_status_eq fulfilled_demo fulfilled_demo = true
order_status_eq fulfilled_manual fulfilled_manual = true
order_status_eq cancelled cancelled = true
order_status_eq _ _ = false

pub record OrderPayment : Type 0 where
  pub tx_hash : Option String
  pub runbook_id : Option String
  pub prepared_at : Option String

pub data FulfillmentAdapter : Type 0 where
  dry_run manual webhook : FulfillmentAdapter

pub record OrderFulfillment : Type 0 where
  pub adapter : FulfillmentAdapter
  pub confirmation : String
  pub fulfilled_at : Option String
  pub requested_at : Option String
  pub note : Option String
  pub connector_id : Option String
  pub response_status : Option ℕ
  pub response_hash : Option String

pub record OrderFields : Type 0 where
  pub status : OrderStatus
  pub network : String
  pub chain_id : ℕ
  pub vendor_id : String
  pub vendor_display_name : Option String
  pub vendor_address : Option String
  pub item_id : Option String
  pub item_name : Option String
  pub quantity : ℕ
  pub amount : String
  pub asset : String
  pub registry_hash : String
  pub fulfillment_fields : Option String
  pub quote : String
  pub payment : Option OrderPayment
  pub fulfillment : Option OrderFulfillment
  pub cancel_reason : Option String

abbrev pub OrderRecord : Type 0
OrderRecord = Tracked OrderFields

abbrev pub OrderFile : Type 0
OrderFile = StoreFile OrderRecord

-- The status of `fields` is not read: a new order is created.
abbrev pub new_order : (now fresh_id : String) → OrderFields → OrderRecord
new_order now fresh_id fields = record {
  id = fresh_id;
  fields = record fields { status = created };
  created_at = now;
  updated_at = now;
  events = record { at = now; type = "created"; note = none; details = some fields.quote } ∷ [];
}

unfoldable pub create_order :
    (now fresh_id : String) → OrderFields → Exec CommerceError OrderFile OrderRecord
create_order now fresh_id fields = add_front unsupported_store (new_order now fresh_id fields)

abbrev order_status_wanted : Option OrderStatus → OrderStatus → Bool
order_status_wanted none s = true
order_status_wanted (some w) s = order_status_eq s w

unfoldable pub list_orders :
    Option OrderStatus
    → (vendor_id : Option String) → Option ℕ
    → Exec CommerceError OrderFile (List OrderRecord)
list_orders status vendor_id limit = do
  orders ← read_records unsupported_store
  pure (
      first_of limit (
        keep (λ o. wants (given vendor_id) (some o.fields.vendor_id))
          (keep (λ o. order_status_wanted status o.fields.status) orders)))

unfoldable pub get_order : String → Exec CommerceError OrderFile OrderRecord
get_order = get_record unsupported_store tracked_id not_found

abbrev pub patched_order :
    (now : String) → (OrderFields → OrderFields) → EventBody → OrderRecord → OrderRecord
patched_order now patch event o = record o {
  fields = patch o.fields;
  updated_at = now;
  events = event_at now event ∷ o.events;
}

unfoldable pub update_order :
    (now id : String)
    → (OrderFields → OrderFields)
    → EventBody
    → Exec CommerceError OrderFile OrderRecord
update_order now id patch event =
    change_record unsupported_store tracked_id not_found id (patched_order now patch event)
