-- ===== src/Commerce/History.antt =====
-- The histories of src/orders.ts, src/bookings.ts and src/invoices.ts, and the expiry of invoices.
use mathlib.Core.Path.{subst}
use lyth_mcp.Prelude.{
  ◌⊎◌, ok-injective, String, ◌≡◌, refl, sym, ap, ◌∙◌, Bool, false, Option, none, List, [], ◌∷◌,
  arith, All, if◌then◌else◌, str_eq, Result, ok, pure, inl, inr, ◌≢◌, Keeps, >>=-eq-ok, Bool-cases,
  ◌&&◌,
}
use lyth_mcp.Files.{StoreFile}
use lyth_mcp.Files.Store.{add_front, change_record, get_record}
use lyth_mcp.Files.Store.Lookups.{lookup, change_record-inv}
use lyth_mcp.Files.Store.Invariants.{Listed, add_front-Keeps, change_record-Keeps, All-put_first}
use lyth_mcp.Commerce.{
  Event, EventBody, event_at, Tracked, tracked_id, CommerceError, unsupported_store, not_found,
}
use lyth_mcp.Commerce.Orders.{
  OrderFields, OrderRecord, OrderFile, create_order, new_order, patched_order, update_order,
}
use lyth_mcp.Commerce.Bookings.{
  BookingFields, create_booking, new_booking, patched_booking, update_booking,
}
use lyth_mcp.Commerce.Invoices.{
  InvoiceFields, InvoiceRecord, InvoiceFile, InvoiceStatus, is_open, expired, invoice_status_eq,
  is_expired, normalize_invoice_status, create_invoice, new_invoice, get_invoice, patched_invoice,
  update_invoice,
}

abbrev oldest : Event → List Event → Event
oldest e [] = e
oldest e (x ∷ xs) = oldest x xs

-- The newest event is of the time of the last change, the oldest one of the creation.
abbrev pub WellKept : {F : Type 0} → Tracked F → Type 0
WellKept r =
    (e : Event) × (es : List Event) × (r.events ≡ e ∷ es)
    × (e.at ≡ r.updated_at)
    × ((oldest e es).at ≡ r.created_at)

-- Every record of a file is well kept.
abbrev pub AllKept : {F : Type 0} → StoreFile (Tracked F) → Type 0
AllKept {F} = Listed (All (WellKept {F = F}))

module _ {F : Type 0} where
  create-AllKept :
      (r : Tracked F) → WellKept r → Keeps (AllKept {F = F}) (add_front unsupported_store r)
  create-AllKept r h = add_front-Keeps unsupported_store (All WellKept) r (λ rs hs. (h, hs))

  change-AllKept :
      (id : String) (f : Tracked F → Tracked F)
      → ((r : Tracked F) → WellKept r → WellKept (f r))
      → Keeps (AllKept {F = F}) (change_record unsupported_store tracked_id not_found id f)
  change-AllKept id f step =
      change_record-Keeps unsupported_store (All WellKept) tracked_id not_found id f
        (λ rs r h found. All-put_first WellKept tracked_id id f rs r step h found)

-- The histories of the orders.
orders-AllKept :
    (now id : String) (fields : OrderFields) (patch : OrderFields → OrderFields) (event : EventBody)
    → Keeps AllKept (create_order now id fields) × Keeps AllKept (update_order now id patch event)
unfolding create_order update_order
orders-AllKept now id fields patch event = (
  create-AllKept (new_order now id fields) (_, [], refl, refl, refl),
  change-AllKept id (patched_order now patch event) (λ r (e, es, is, last, first). (
    event_at now event,
    r.events,
    refl,
    refl,
    ap (λ l. (oldest (event_at now event) l).at) is ∙ first,
  )),
)

-- Those of the bookings.
bookings-AllKept :
    (now id : String) (fields : BookingFields) (patch : BookingFields → BookingFields)
    (event : EventBody)
    → Keeps AllKept (create_booking now id fields)
      × Keeps AllKept (update_booking now id patch event)
unfolding create_booking update_booking
bookings-AllKept now id fields patch event = (
  create-AllKept (new_booking now id fields) (_, [], refl, refl, refl),
  change-AllKept id (patched_booking now patch event) (λ r (e, es, is, last, first). (
    event_at now event,
    r.events,
    refl,
    refl,
    ap (λ l. (oldest (event_at now event) l).at) is ∙ first,
  )),
)

-- An update of an order gives it the new fields and puts the event on top of its history; its id and
-- its creation stay, and no other order changes.
pub update_order_lem :
    (now id : String) (patch : OrderFields → OrderFields) (event : EventBody) (file : OrderFile)
    (o' : OrderRecord) (file' : OrderFile)
    → update_order now id patch event file ≡ (ok o', file')
    → (o : OrderRecord) × (lookup unsupported_store tracked_id not_found id file ≡ ok o)
      × (o'.id ≡ o.id)
      × (o'.created_at ≡ o.created_at)
      × (o'.fields ≡ patch o.fields)
      × (o'.events ≡ event_at now event ∷ o.events)
      × ((j : String)
          → lookup unsupported_store tracked_id not_found j file'
            ≡ (if str_eq id j then ok o' else lookup unsupported_store tracked_id not_found j file))
unfolding update_order
update_order_lem now id patch event file o' file' r =
    let (o, found, is, looks) =
      change_record-inv unsupported_store tracked_id not_found id (patched_order now patch event)
        file o' file' (λ x. refl) r in
    (
      o,
      found,
      ap (λ (x : OrderRecord). x.id) is,
      ap (λ (x : OrderRecord). x.created_at) is,
      ap (λ (x : OrderRecord). x.fields) is,
      ap (λ (x : OrderRecord). x.events) is,
      looks,
    )

-- An invoice that is open has not expired.
abbrev pub IsCurrent : (String → Bool) → InvoiceRecord → Type 0
IsCurrent past i = i.fields.status ≡ is_open → is_expired past i.fields.expires_at ≡ false

normalize-IsCurrent :
    (past : String → Bool) (i : InvoiceRecord) → IsCurrent past (normalize_invoice_status past i)
unfolding normalize_invoice_status
normalize-IsCurrent past i =
    elim (Bool-cases
      (invoice_status_eq i.fields.status is_open && is_expired past i.fields.expires_at)) [
        | inl late ↦ rw late (λ e. absurd (expired-ne_open e))
        | inr fine ↦
            rw fine (λ e. in_time i.fields.status (is_expired past i.fields.expires_at) e fine)
      ]
  where
    expired-ne_open : expired ≢ is_open
    expired-ne_open e = cc

    in_time :
        (s : InvoiceStatus) (b : Bool)
        → s ≡ is_open
        → (invoice_status_eq s is_open && b) ≡ false
        → b ≡ false
    in_time s b e h = ground arith

normalize-WellKept :
    (past : String → Bool) (i : InvoiceRecord)
    → WellKept i
    → WellKept (normalize_invoice_status past i)
unfolding normalize_invoice_status
normalize-WellKept past i h =
    elim (Bool-cases
      (invoice_status_eq i.fields.status is_open && is_expired past i.fields.expires_at)) [
        | inl late ↦ rw late h
        | inr fine ↦ rw fine h
      ]

normalize-id :
    (past : String → Bool) (i : InvoiceRecord) → (normalize_invoice_status past i).id ≡ i.id
unfolding normalize_invoice_status
normalize-id past i = ground arith

-- Those of the invoices.
invoices-AllKept :
    (past : String → Bool) (now id : String) (fields : InvoiceFields)
    (patch : InvoiceFields → InvoiceFields) (event_type : String) (details : Option String)
    → Keeps AllKept (create_invoice past now id fields)
      × Keeps AllKept (update_invoice past now id patch event_type details)
unfolding create_invoice update_invoice
invoices-AllKept past now id fields patch event_type details = (
  create-AllKept (new_invoice past now id fields) (_, [], refl, refl, refl),
  change-AllKept id (patched_invoice past now patch event_type details) (patched-WellKept),
)
  where
    patched-WellKept :
        (r : InvoiceRecord)
        → WellKept r
        → WellKept (patched_invoice past now patch event_type details r)
    patched-WellKept r h =
        let (e, es, is, last, first) = normalize-WellKept past r h in
        normalize-WellKept past _ (
          _,
          _,
          refl,
          refl,
          ap
                (λ l.
                  (oldest (record { at = now; type = event_type; note = none; details = details })
                    l).at)
                is
              ∙ first,
        )

get_invoice-IsCurrent :
    (past : String → Bool) (id : String) (file : InvoiceFile) (i : InvoiceRecord)
    (file' : InvoiceFile)
    → get_invoice past id file ≡ (ok i, file')
    → IsCurrent past i
unfolding get_invoice pure
get_invoice-IsCurrent past id file i file' r =
    let (j, file1, got, rest) =
      >>=-eq-ok (get_record unsupported_store tracked_id not_found id) _ file i file' r in
    subst (IsCurrent past)
      (ok-injective (ap (λ (p : Result CommerceError InvoiceRecord × InvoiceFile). p.0) rest))
      (normalize-IsCurrent past j)

update_invoice-IsCurrent :
    (past : String → Bool) (now id : String) (patch : InvoiceFields → InvoiceFields)
    (event_type : String) (details : Option String) (file : InvoiceFile) (i : InvoiceRecord)
    (file' : InvoiceFile)
    → update_invoice past now id patch event_type details file ≡ (ok i, file')
    → IsCurrent past i
unfolding update_invoice
update_invoice-IsCurrent past now id patch event_type details file i file' r =
    let (j, found, is, looks) =
      change_record-inv unsupported_store tracked_id not_found id
        (patched_invoice past now patch event_type details) file i file' (patched-id) r in
    subst (IsCurrent past) (sym is) (normalize-IsCurrent past _)
  where
    patched-id :
        (x : InvoiceRecord) → (patched_invoice past now patch event_type details x).id ≡ x.id
    patched-id x = normalize-id past _ ∙ normalize-id past x

-- Whatever is created and however it is changed, the histories of the orders, of the bookings and of
-- the invoices stay well kept, whatever the clock says of the invoices' expiry: the newest event is of
-- the last change, the oldest of the creation.
pub histories-AllKept :
    (past : String → Bool) (now id : String) (order : OrderFields) (booking : BookingFields)
    (invoice : InvoiceFields) (of_order : OrderFields → OrderFields)
    (of_booking : BookingFields → BookingFields) (of_invoice : InvoiceFields → InvoiceFields)
    (event : EventBody) (event_type : String) (details : Option String)
    → (Keeps AllKept (create_order now id order)
        × Keeps AllKept (update_order now id of_order event))
      × (Keeps AllKept (create_booking now id booking)
          × Keeps AllKept (update_booking now id of_booking event))
      × (Keeps AllKept (create_invoice past now id invoice)
          × Keeps AllKept (update_invoice past now id of_invoice event_type details))
histories-AllKept past now id order booking invoice of_order of_booking of_invoice event t d = (
  orders-AllKept now id order of_order event,
  bookings-AllKept now id booking of_booking event,
  invoices-AllKept past now id invoice of_invoice t d,
)

-- An invoice that `getInvoice` or `updateInvoice` returns as open has not expired.
pub returned-IsCurrent :
    (past : String → Bool) (now id : String) (patch : InvoiceFields → InvoiceFields)
    (event_type : String) (details : Option String) (file : InvoiceFile) (i : InvoiceRecord)
    (file' : InvoiceFile)
    → (get_invoice past id file ≡ (ok i, file'))
      ⊎ (update_invoice past now id patch event_type details file ≡ (ok i, file'))
    → IsCurrent past i
returned-IsCurrent past now id patch event_type details file i file' (inl r) =
    get_invoice-IsCurrent past id file i file' r
returned-IsCurrent past now id patch event_type details file i file' (inr r) =
    update_invoice-IsCurrent past now id patch event_type details file i file' r
