-- ===== src/Commerce.antt =====
-- The records of commerce: orders, bookings and invoices, src/orders.ts, src/bookings.ts and
-- src/invoices.ts. Each keeps a history of events, the newest first. A value of type `unknown` is its JSON
-- text; the clock and the fresh id are arguments.
pub mod Orders
pub mod Bookings
pub mod Invoices
pub mod History
mod Tests
use lyth_mcp.Prelude.{String, Option, List}

pub record Event : Type 0 where
  pub at : String
  pub type : String
  pub note : Option String
  pub details : Option String

-- `Omit<OrderEvent, "at">`
pub record EventBody : Type 0 where
  pub type : String
  pub note : Option String
  pub details : Option String

abbrev pub event_at : String → EventBody → Event
event_at now b = record { at = now; type = b.type; note = b.note; details = b.details }

-- What the three kinds of record have in common. `F` are the fields that a caller may patch: a spread of
-- a partial record over them is a function on `F`.
pub record Tracked (F : Type 0) : Type 0 where
  pub id : String
  pub fields : F
  pub created_at : String
  pub updated_at : String
  pub events : List Event

pub data CommerceError : Type 0 where
  unsupported_store not_found : CommerceError

abbrev pub tracked_id : {F : Type 0} → Tracked F → String
tracked_id r = r.id
