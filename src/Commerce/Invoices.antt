-- ===== src/Commerce/Invoices.antt =====
-- Invoices and funding requests, src/invoices.ts. `past` is the clock's verdict on a time,
-- `Date.parse(expiresAt) <= Date.now()`.
use lyth_mcp.Prelude.{
  ℕ, String, Bool, true, false, ◌&&◌, Option, none, some, List, [], ◌∷◌, map, if◌then◌else◌, keep,
  Exec, ◌>>=◌, ◌>>◌, pure,
}
use lyth_mcp.Files.{StoreFile}
use lyth_mcp.Files.Store.{
  given, first_of, read_records, write_records, add_front, get_record, change_record,
}
use lyth_mcp.Commerce.{Tracked, tracked_id, CommerceError, unsupported_store, not_found}

pub data InvoiceStatus : Type 0 where
  is_open paid cancelled expired : InvoiceStatus

pub data InvoiceType : Type 0 where
  invoice funding_request : InvoiceType

abbrev pub invoice_status_eq : InvoiceStatus → InvoiceStatus → Bool
invoice_status_eq is_open is_open = true
invoice_status_eq paid paid = true
invoice_status_eq cancelled cancelled = true
invoice_status_eq expired expired = true
invoice_status_eq _ _ = false

abbrev pub invoice_type_eq : InvoiceType → InvoiceType → Bool
invoice_type_eq invoice invoice = true
invoice_type_eq funding_request funding_request = true
invoice_type_eq _ _ = false

pub record InvoiceFields : Type 0 where
  pub status : InvoiceStatus
  pub type : InvoiceType
  pub network : String
  pub chain_id : ℕ
  pub expires_at : Option String
  pub recipient : String
  pub amount : String
  pub asset : String
  pub purpose : String
  pub payer : Option String
  pub memo : Option String
  pub tx_hash : Option String

abbrev pub InvoiceRecord : Type 0
InvoiceRecord = Tracked InvoiceFields

abbrev pub InvoiceFile : Type 0
InvoiceFile = StoreFile InvoiceRecord

abbrev pub parse_past : (String → Bool) → Option String → Bool
parse_past past none = false
parse_past past (some t) = past t

-- `isExpired`
abbrev pub is_expired : (String → Bool) → Option String → Bool
is_expired past t = parse_past past (given t)

-- `normalizeInvoiceStatus`
unfoldable pub normalize_invoice_status : (String → Bool) → InvoiceRecord → InvoiceRecord
normalize_invoice_status past i =
    if invoice_status_eq i.fields.status is_open && is_expired past i.fields.expires_at
    then record i { fields = record i.fields { status = expired } }
    else i

-- The status of `fields` is not read.
abbrev pub new_invoice : (String → Bool) → (now fresh_id : String) → InvoiceFields → InvoiceRecord
new_invoice past now fresh_id fields = record {
  id = fresh_id;
  fields = record fields {
    status = if is_expired past fields.expires_at then expired else is_open;
  };
  created_at = now;
  updated_at = now;
  events = record { at = now; type = "created"; note = none; details = none } ∷ [];
}

unfoldable pub create_invoice :
    (String → Bool)
    → (now fresh_id : String) → InvoiceFields
    → Exec CommerceError InvoiceFile InvoiceRecord
create_invoice past now fresh_id fields =
    add_front unsupported_store (new_invoice past now fresh_id fields)

unfoldable pub get_invoice : (String → Bool) → String → Exec CommerceError InvoiceFile InvoiceRecord
get_invoice past id = do
  i ← get_record unsupported_store tracked_id not_found id
  pure (normalize_invoice_status past i)

abbrev invoice_status_wanted : Option InvoiceStatus → InvoiceStatus → Bool
invoice_status_wanted none s = true
invoice_status_wanted (some w) s = invoice_status_eq s w

abbrev invoice_type_wanted : Option InvoiceType → InvoiceType → Bool
invoice_type_wanted none t = true
invoice_type_wanted (some w) t = invoice_type_eq t w

abbrev pub selected :
    Option InvoiceStatus → Option InvoiceType → Option ℕ → List InvoiceRecord → List InvoiceRecord
selected status type limit is = first_of limit (
    keep (λ i. invoice_type_wanted type i.fields.type)
      (keep (λ i. invoice_status_wanted status i.fields.status) is))

-- Whether the JSON of the list differs from the JSON of the normalized one: some record changes.
abbrev changes : (String → Bool) → List InvoiceRecord → Bool
changes past [] = false
changes past (i ∷ is) =
    if invoice_status_eq i.fields.status is_open && is_expired past i.fields.expires_at
    then true
    else changes past is

unfoldable pub list_invoices :
    (String → Bool)
    → Option InvoiceStatus
    → Option InvoiceType
    → Option ℕ
    → Exec CommerceError InvoiceFile (List InvoiceRecord)
list_invoices past status type limit = do
  is ← read_records unsupported_store
  if changes past is
      then write_records unsupported_store (map (normalize_invoice_status past) is)
      else pure tt
  pure (selected status type limit (map (normalize_invoice_status past) is))

abbrev pub patched_invoice :
    (String → Bool)
    → (now : String) → (InvoiceFields → InvoiceFields)
    → (event_type : String) → Option String
    → InvoiceRecord
    → InvoiceRecord
patched_invoice past now patch event_type details i =
    let current = normalize_invoice_status past i in
    normalize_invoice_status past (record current {
      fields = patch current.fields;
      updated_at = now;
      events =
          record { at = now; type = event_type; note = none; details = details } ∷ current.events;
    })

unfoldable pub update_invoice :
    (String → Bool)
    → (now id : String) → (InvoiceFields → InvoiceFields)
    → (event_type : String) → Option String
    → Exec CommerceError InvoiceFile InvoiceRecord
update_invoice past now id patch event_type details =
    change_record unsupported_store tracked_id not_found id
      (patched_invoice past now patch event_type details)
