-- ===== src/Commerce/Bookings.antt =====
-- Bookings of services, src/bookings.ts.
use lyth_mcp.Prelude.{
  ℕ, String, Bool, true, false, Option, none, some, List, [], ◌∷◌, keep, Exec, ◌>>=◌, pure,
}
use lyth_mcp.Files.{StoreFile}
use lyth_mcp.Files.Store.{
  given, wants, first_of, read_records, add_front, get_record, change_record,
}
use lyth_mcp.Commerce.{
  EventBody, event_at, Tracked, tracked_id, CommerceError, unsupported_store, not_found,
}

pub data BookingStatus : Type 0 where
  requested provider_requested accepted_demo escrow_prepared paid completed_demo cancelled
        disputed_demo :
      BookingStatus

abbrev pub booking_status_eq : BookingStatus → BookingStatus → Bool
booking_status_eq requested requested = true
booking_status_eq provider_requested provider_requested = true
booking_status_eq accepted_demo accepted_demo = true
booking_status_eq escrow_prepared escrow_prepared = true
booking_status_eq paid paid = true
booking_status_eq completed_demo completed_demo = true
booking_status_eq cancelled cancelled = true
booking_status_eq disputed_demo disputed_demo = true
booking_status_eq _ _ = false

pub record Escrow : Type 0 where
  pub runbook_id : Option String
  pub prepared_at : Option String
  pub tx_hash : Option String

pub record Completion : Type 0 where
  pub confirmation : String
  pub completed_at : String
  pub deliverable : Option String

pub record Dispute : Type 0 where
  pub reason : String
  pub opened_at : String

pub record BookingFields : Type 0 where
  pub status : BookingStatus
  pub network : String
  pub chain_id : ℕ
  pub vendor_id : String
  pub vendor_display_name : Option String
  pub vendor_address : Option String
  pub service : String
  pub amount : String
  pub asset : String
  pub registry_hash : String
  pub requested_window : Option String
  pub location : Option String
  pub booking_fields : Option String
  pub quote : Option String
  pub merchant_risk : Option String
  pub asset_policy : Option String
  pub commerce_safety : Option String
  pub risk_summary : Option String
  pub runbook_id : Option String
  pub escrow : Option Escrow
  pub payment_tx_hash : Option String
  pub completion : Option Completion
  pub dispute : Option Dispute
  pub cancel_reason : Option String

abbrev pub BookingRecord : Type 0
BookingRecord = Tracked BookingFields

abbrev pub BookingFile : Type 0
BookingFile = StoreFile BookingRecord

-- The status of `fields` is not read: a new booking is requested.
abbrev pub new_booking : (now fresh_id : String) → BookingFields → BookingRecord
new_booking now fresh_id fields = record {
  id = fresh_id;
  fields = record fields { status = requested };
  created_at = now;
  updated_at = now;
  events = record { at = now; type = "requested"; note = none; details = fields.quote } ∷ [];
}

unfoldable pub create_booking :
    (now fresh_id : String) → BookingFields → Exec CommerceError BookingFile BookingRecord
create_booking now fresh_id fields = add_front unsupported_store (new_booking now fresh_id fields)

unfoldable pub get_booking : String → Exec CommerceError BookingFile BookingRecord
get_booking = get_record unsupported_store tracked_id not_found

abbrev booking_status_wanted : Option BookingStatus → BookingStatus → Bool
booking_status_wanted none s = true
booking_status_wanted (some w) s = booking_status_eq s w

unfoldable pub list_bookings :
    Option BookingStatus
    → (vendor_id : Option String) → Option ℕ
    → Exec CommerceError BookingFile (List BookingRecord)
list_bookings status vendor_id limit = do
  bookings ← read_records unsupported_store
  pure (
      first_of limit (
        keep (λ b. wants (given vendor_id) (some b.fields.vendor_id))
          (keep (λ b. booking_status_wanted status b.fields.status) bookings)))

abbrev pub patched_booking :
    (now : String) → (BookingFields → BookingFields) → EventBody → BookingRecord → BookingRecord
patched_booking now patch event b = record b {
  fields = patch b.fields;
  updated_at = now;
  events = event_at now event ∷ b.events;
}

unfoldable pub update_booking :
    (now id : String)
    → (BookingFields → BookingFields)
    → EventBody
    → Exec CommerceError BookingFile BookingRecord
update_booking now id patch event =
    change_record unsupported_store tracked_id not_found id (patched_booking now patch event)
