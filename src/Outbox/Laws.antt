-- ===== src/Outbox/Laws.antt =====
-- What the outbox finds after its operations, and its invariants.
use mathlib.Core.Path.{subst}
use lyth_mcp.Prelude.{
  String, ◌≡◌, refl, sym, ap, ◌∙◌, Option, none, some, List, ◌∷◌, arith, if◌then◌else◌, str_eq,
  or_maybe, find, put_first, All, Result, ok, err, Keeps, Option-cases, ◌⊎◌, inl, inr,
}
use lyth_mcp.Files.Records.{has_key, Distinct, find-key, put_first-Distinct, keep-Distinct}
use lyth_mcp.Files.Store.Lookups.{change_record-inv, lookup-remove_records}
use lyth_mcp.Files.Store.Invariants.{
  Listed, change_record-Keeps, remove_records-Keeps, All-put_first, All-without,
}
use lyth_mcp.Outbox.{
  OutboxStatus, submitted, confirmed, OutboxAttempt, TxOutboxEntry, OutboxError, unsupported_outbox,
  entry_not_found, OutboxFile, entry_id, get_outbox_entry, hash_of, with_outcome, with_attempt,
  record_outbox_attempt, with_status, update_outbox_status, forget_outbox_entry,
}

-- What an id is found as.
abbrev pub found_at : String → OutboxFile → Result OutboxError TxOutboxEntry
found_at id file = (get_outbox_entry id file).0

with_attempt-id : (a : OutboxAttempt) (e : TxOutboxEntry) → (with_attempt a e).id ≡ e.id
unfolding with_attempt
with_attempt-id a e = ground (arith, Option-cases (hash_of a))

-- How an attempt changes the entry `e` into `e'`: it goes on top of the history, what was signed stays
-- as it is, and only an attempt that gave a hash changes the status and the hash.
pub record Attempted (a : OutboxAttempt) (e e' : TxOutboxEntry) : Type 0 where
  pub same_body : e'.body ≡ e.body
  pub same_payload : e'.payload_hash ≡ e.payload_hash
  pub history : e'.attempts ≡ a ∷ e.attempts
  pub outcome :
      ((hash_of a ≡ none) × (e'.status ≡ e.status) × (e'.tx_hash ≡ e.tx_hash))
      ⊎ ((h : String) × (hash_of a ≡ some h) × (e'.status ≡ submitted) × (e'.tx_hash ≡ some h))

with_outcome-Attempted :
    (o : Option String) (a : OutboxAttempt) (e : TxOutboxEntry)
    → hash_of a ≡ o
    → Attempted a e (with_outcome o a e)
with_outcome-Attempted none a e gave = record {
  same_body = refl;
  same_payload = refl;
  history = refl;
  outcome = inl (gave, refl, refl);
}
with_outcome-Attempted (some h) a e gave = record {
  same_body = refl;
  same_payload = refl;
  history = refl;
  outcome = inr (h, gave, refl, refl);
}

with_attempt-Attempted : (a : OutboxAttempt) (e : TxOutboxEntry) → Attempted a e (with_attempt a e)
unfolding with_attempt
with_attempt-Attempted a e = with_outcome-Attempted (hash_of a) a e refl

-- An attempt that is recorded goes on top of the history of its entry, and leaves what was signed as
-- it is. An entry whose attempt gave a hash is submitted under it; any other attempt leaves the status
-- and the hash. No other entry changes.
pub record_outbox_attempt_lem :
    (id : String) (a : OutboxAttempt) (file : OutboxFile) (e' : TxOutboxEntry) (file' : OutboxFile)
    → record_outbox_attempt id a file ≡ (ok e', file')
    → (e : TxOutboxEntry) × (found_at id file ≡ ok e)
      × Attempted a e e'
      × ((j : String) → found_at j file' ≡ (if str_eq id j then ok e' else found_at j file))
unfolding record_outbox_attempt get_outbox_entry
record_outbox_attempt_lem id a file e' file' r =
    let (e, found, same, looks) =
      change_record-inv unsupported_outbox entry_id entry_not_found id (with_attempt a) file e'
        file' (with_attempt-id a) r in
    (e, found, subst (Attempted a e) (sym same) (with_attempt-Attempted a e), looks)

-- After `forgetOutboxEntry` the entry is not found, and every other id is found as before.
pub found_at-forget_outbox_entry :
    (id j : String) (file file' : OutboxFile)
    → forget_outbox_entry id file ≡ (ok tt, file')
    → found_at j file' ≡ (if str_eq id j then err entry_not_found else found_at j file)
unfolding forget_outbox_entry get_outbox_entry
found_at-forget_outbox_entry id j file file' =
    lookup-remove_records unsupported_outbox entry_id entry_not_found id j file file'

-- A status that stands for a transaction on the chain has the hash of that transaction.
abbrev pub HasHash : TxOutboxEntry → Type 0
HasHash e = (e.status ≡ submitted) ⊎ (e.status ≡ confirmed) → (h : String) × (e.tx_hash ≡ some h)

-- No two entries share an id, and the submitted and confirmed ones have a hash.
abbrev pub SoundList : List TxOutboxEntry → Type 0
SoundList es = Distinct entry_id es × All HasHash es

abbrev pub Sound : OutboxFile → Type 0
Sound = Listed SoundList

change-Sound :
    (id : String) (f : TxOutboxEntry → TxOutboxEntry)
    → ((e : TxOutboxEntry) → (f e).id ≡ e.id)
    → ((e : TxOutboxEntry) → HasHash e → HasHash (f e))
    → (es : List TxOutboxEntry) (e : TxOutboxEntry) → SoundList es
    → find (has_key entry_id id) es ≡ some e
    → SoundList (put_first (has_key entry_id id) (f e) es)
change-Sound id f same step es e h found = (
  put_first-Distinct entry_id id (f e) es (same e ∙ find-key entry_id id es e found) h.0,
  All-put_first HasHash entry_id id f es e step h.1 found,
)

with_outcome-HasHash :
    (o : Option String) (a : OutboxAttempt) (e : TxOutboxEntry)
    → HasHash e
    → HasHash (with_outcome o a e)
with_outcome-HasHash none a e h = h
with_outcome-HasHash (some x) a e h = λ _. (x, refl)

with_attempt-HasHash :
    (a : OutboxAttempt) (e : TxOutboxEntry) → HasHash e → HasHash (with_attempt a e)
unfolding with_attempt
with_attempt-HasHash a e = with_outcome-HasHash (hash_of a) a e

pub record_outbox_attempt-Sound :
    (id : String) (a : OutboxAttempt) → Keeps Sound (record_outbox_attempt id a)
unfolding record_outbox_attempt
record_outbox_attempt-Sound id a =
    change_record-Keeps unsupported_outbox SoundList entry_id entry_not_found id (with_attempt a)
      (change-Sound id (with_attempt a) (with_attempt-id a) (with_attempt-HasHash a))

-- A status may be set if it is none of these two or a hash comes with it.
abbrev pub Settles : OutboxStatus → Option String → Type 0
Settles status tx_hash =
    (status ≡ submitted) ⊎ (status ≡ confirmed) → (h : String) × (tx_hash ≡ some h)

with_status-HasHash :
    (now : String) (s : OutboxStatus) (o : Option String) (e : TxOutboxEntry)
    → Settles s o
    → HasHash e
    → HasHash (with_status now s o e)
with_status-HasHash now s o e settles h settled =
    let (x, gave) = settles settled in (x, ap (λ p. or_maybe p e.tx_hash) gave)

pub update_outbox_status-Sound :
    (now id : String) (s : OutboxStatus) (o : Option String)
    → Settles s o
    → Keeps Sound (update_outbox_status now id s o)
unfolding update_outbox_status
update_outbox_status-Sound now id s o settles =
    change_record-Keeps unsupported_outbox SoundList entry_id entry_not_found id
      (with_status now s o)
      (change-Sound id (with_status now s o) (λ e. refl)
        (λ e. with_status-HasHash now s o e settles))

pub forget_outbox_entry-Sound : (id : String) → Keeps Sound (forget_outbox_entry id)
unfolding forget_outbox_entry
forget_outbox_entry-Sound id =
    remove_records-Keeps unsupported_outbox SoundList entry_id entry_not_found id
      (λ es h. (keep-Distinct entry_id _ es h.0, All-without HasHash entry_id id es h.1))
