-- ===== src/Desk/Kept.antt =====
-- The outbox under releases and submissions, src/index.ts.
use lyth_mcp.Prelude.{
  ℕ, String, inl, inr, Bool, not, ◌&&◌, Option, none, some, List, [], ◌∷◌, Result, ok, err, Exec,
  ◌>>=◌, pure, Keeps, Keeps-of, Keeps-bind, Keeps-if, Keeps-pure, Keeps-raise, Keeps-lift,
  Keeps-recover,
}
use lyth_mcp.Amount.{Text}
use lyth_mcp.Files.Store.{read_records, get_record}
use lyth_mcp.LowValue.{Bucket}
use lyth_mcp.Outbox.{
  TxOutboxEntry, OutboxStatus, status_eq, OutboxAttempt, OutboxError, OutboxFile, get_outbox_entry,
  list_outbox_entries,
}
use lyth_mcp.Outbox.Laws.{Sound, Settles, record_outbox_attempt-Sound, update_outbox_status-Sound}
use lyth_mcp.Receipts.{ReceiptBody}
use lyth_mcp.Desk.{
  Desk, Session, on_outbox, on_receipts, on_wallets, file_receipt, is_reserved, terms_of,
  move_reserved,
}
use lyth_mcp.Desk.Release.{
  Target, to_expired, to_failed, status_of, release_entry, release_found, release_reservation,
  release_all, expire_stale,
}
use lyth_mcp.Desk.Submit.{
  Labels, account_terms, account_for, account_entry, record_attempt, try_submit, submit_failed,
  submit,
}

abbrev pub OutboxSound : Desk → Type 0
OutboxSound d = Sound d.outbox

-- The operations on one file.
pub on_outbox-Sound :
    {A : Type 0} (m : Exec OutboxError OutboxFile A)
    → Keeps Sound m
    → Keeps OutboxSound (on_outbox m)
unfolding on_outbox
on_outbox-Sound m k = Keeps-of (on_outbox m) (λ d h. (k.at d.outbox h).0)

pub get_entry-Sound : (id : String) → Keeps OutboxSound (on_outbox (get_outbox_entry id))
unfolding get_outbox_entry get_record read_records
get_entry-Sound id = on_outbox-Sound _ (Keeps-bind _ _ (Keeps-of _ (λ f h. h)) λ es. Keeps-lift _)

list_entries-Sound :
    (status : Option OutboxStatus) (name : Option String) (limit : Option ℕ)
    → Keeps OutboxSound (on_outbox (list_outbox_entries status name limit))
unfolding list_outbox_entries read_records
list_entries-Sound status name limit =
    on_outbox-Sound _ (Keeps-bind _ _ (Keeps-of _ (λ f h. h)) λ es. Keeps-pure _)

pub move_reserved-Sound :
    (s : Session) (terms : String × Text) (from to : Bucket)
    → Keeps OutboxSound (move_reserved s terms from to)
unfolding move_reserved on_wallets
move_reserved-Sound s terms from to = Keeps-of _ (λ d h. h)

file_receipt-Sound : (s : Session) (body : ReceiptBody) → Keeps OutboxSound (file_receipt s body)
unfolding file_receipt on_receipts
file_receipt-Sound s body = Keeps-of _ (λ d h. h)

-- Releases.
released-Settles : (to : Target) → Settles (status_of to) none
released-Settles to_expired (inl e) = absurd (cc)
released-Settles to_expired (inr e) = absurd (cc)
released-Settles to_failed (inl e) = absurd (cc)
released-Settles to_failed (inr e) = absurd (cc)

release_found-Sound :
    (s : Session) (id : String) (to : Target) (e : TxOutboxEntry) (o : Option (String × Text))
    → Keeps OutboxSound (release_found s id to e o)
unfolding release_found release_entry
release_found-Sound s id to e none = Keeps-pure _
release_found-Sound s id to e (some terms) =
    Keeps-if _ _ _
      (Keeps-bind _ _ (move_reserved-Sound s terms _ _) λ _.
        Keeps-bind _ _
          (on_outbox-Sound _ (update_outbox_status-Sound s.now id _ none (released-Settles to)))
          λ _. Keeps-bind _ _ (file_receipt-Sound s _) λ _. Keeps-pure _)
      (Keeps-pure _)

pub release_reservation-Sound :
    (s : Session) (id : String) (to : Target) → Keeps OutboxSound (release_reservation s id to)
unfolding release_reservation
release_reservation-Sound s id to =
    Keeps-bind _ _ (get_entry-Sound id)
      λ e. Keeps-if (is_reserved e) _ _ (release_found-Sound s id to e (terms_of e)) (Keeps-pure _)

release_all-Sound : (s : Session) (es : List TxOutboxEntry) → Keeps OutboxSound (release_all s es)
unfolding release_all
release_all-Sound s [] = Keeps-pure []
release_all-Sound s (e ∷ es) =
    Keeps-bind _ _ (release_reservation-Sound s e.id to_expired)
      λ r. Keeps-bind _ _ (release_all-Sound s es) λ rs. Keeps-pure _

pub expire_stale-Sound :
    (s : Session) (release typed : Bool) (limit : Option ℕ)
    → Keeps OutboxSound (expire_stale s release typed limit)
unfolding expire_stale
expire_stale-Sound s release typed limit = Keeps-if (release && not typed) _ _ (Keeps-pure _) (
    Keeps-bind _ _ (list_entries-Sound none none _) λ listed.
      Keeps-if release _ _ (Keeps-bind _ _ (release_all-Sound s _) λ rs. Keeps-pure _)
        (Keeps-pure _))

-- Submissions.
record_attempt-Sound :
    (id : Option String) (a : OutboxAttempt) → Keeps OutboxSound (record_attempt id a)
unfolding record_attempt
record_attempt-Sound none a = Keeps-pure none
record_attempt-Sound (some id) a =
    Keeps-bind _ _ (on_outbox-Sound _ (record_outbox_attempt-Sound id a)) λ x. Keeps-pure (some x)

account_terms-Sound :
    (s : Session) (allow : Bool) (status : OutboxStatus) (o : Option (String × Text))
    → Keeps OutboxSound (account_terms s allow status o)
unfolding account_terms
account_terms-Sound s allow status none = Keeps-pure none
account_terms-Sound s allow status (some terms) =
    Keeps-if (status_eq status lyth_mcp.Outbox.signed) _ _ (moved lyth_mcp.LowValue.reserved) (
      Keeps-if (status_eq status lyth_mcp.Outbox.expired && allow) _ _
        (moved lyth_mcp.LowValue.expired) (Keeps-pure none))
  where
    moved :
        (from : Bucket)
        → Keeps OutboxSound
            (do a ← move_reserved s terms from lyth_mcp.LowValue.submitted; pure (some a))
    moved from = Keeps-bind _ _ (move_reserved-Sound s terms from _) λ a. Keeps-pure (some a)

account_entry-Sound :
    (s : Session) (allow : Bool) (e : Option TxOutboxEntry)
    → Keeps OutboxSound (account_entry s allow e)
unfolding account_entry account_for
account_entry-Sound s allow none = Keeps-pure none
account_entry-Sound s allow (some e) =
    Keeps-if _ _ _ (account_terms-Sound s allow e.status (terms_of e)) (Keeps-pure none)

try_submit-Sound :
    (s : Session) (l : Labels) (copied : Option TxOutboxEntry) (allow : Bool)
    (recorded label : Option String) (e : Option TxOutboxEntry) (endpoint : String)
    (answer : Result String String)
    → Keeps OutboxSound (try_submit s l copied allow recorded label e endpoint answer)
unfolding try_submit
try_submit-Sound s l copied allow recorded label e endpoint (err message) = Keeps-raise _
try_submit-Sound s l copied allow recorded label e endpoint (ok hash) =
    Keeps-bind _ _ (record_attempt-Sound recorded _) λ _.
      Keeps-bind _ _ (account_entry-Sound s allow e)
        λ _. Keeps-bind _ _ (file_receipt-Sound s _) λ _. Keeps-pure _

pub submit-Sound :
    (s : Session) (l : Labels) (copied : Option TxOutboxEntry) (allow : Bool)
    (recorded label : Option String) (e : Option TxOutboxEntry) (answer : Result String String)
    → Keeps OutboxSound (submit s l copied allow recorded label e answer)
unfolding submit submit_failed
submit-Sound s l copied allow recorded label e answer = Keeps-bind _ _ (Keeps-lift _) λ endpoint.
    Keeps-recover _ _ (try_submit-Sound s l copied allow recorded label e endpoint answer) λ x.
      Keeps-bind _ _ (record_attempt-Sound recorded _)
        λ _. Keeps-bind _ _ (file_receipt-Sound s _) λ _. Keeps-pure _
