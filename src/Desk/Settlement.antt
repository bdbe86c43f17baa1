-- ===== src/Desk/Settlement.antt =====
-- Repeated releases, `releaseLowValueReservation` of src/index.ts.
use lyth_mcp.Prelude.{
  ok-injective, str_eq_refl, String, ◌≡◌, ◌≢◌, refl, sym, ap, ◌∙◌, inl, inr, ◌⊎◌, Bool, true, false,
  Option, none, some, arith, if◌then◌else◌, Result, ok, Exec, pure, of_option, >>=-eq-ok, >>=-of_ok,
  Result-cases,
}
use lyth_mcp.Amount.{Text}
use lyth_mcp.Files.Store.Lookups.{change_record-inv, get_record-inv, get_record_of}
use lyth_mcp.LowValue.{AccountingSummary}
use lyth_mcp.Wallet.{Op}
use lyth_mcp.Outbox.{
  OutboxStatus, TxOutboxEntry, OutboxError, OutboxFile, unsupported_outbox, entry_not_found,
  entry_id, status_eq, get_outbox_entry, with_status, update_outbox_status,
}
use lyth_mcp.Outbox.Laws.{found_at}
use lyth_mcp.Receipts.{OperationReceipt, ReceiptFile, ReceiptError}
use lyth_mcp.Desk.{
  among, Desk, DeskError, of_outbox, DeskOp, Session, on_wallets, on_outbox, on_receipts,
  file_receipt, is_reserved, terms_of, move_reserved,
}
use lyth_mcp.Desk.Release.{
  Target, to_expired, to_failed, status_of, bucket_of, Reason, not_signed, kept, released,
  release_entry, release_found, release_reservation,
}

-- The parts of what an operation on one file leaves.
pub on_outbox-inv :
    {A : Type 0} (m : Exec OutboxError OutboxFile A) (d : Desk) (a : A) (d' : Desk)
    → on_outbox m d ≡ (ok a, d')
    → (m d.outbox ≡ (ok a, d'.outbox)) × (d'.world ≡ d.world)
unfolding on_outbox
on_outbox-inv m d a d' e = ground (arith, Result-cases (m d.outbox).0)

pub on_wallets-outbox :
    {A : Type 0} (m : Op A) (d : Desk) (a : A) (d' : Desk)
    → on_wallets m d ≡ (ok a, d')
    → d'.outbox ≡ d.outbox
unfolding on_wallets
on_wallets-outbox m d a d' e = ap (λ (p : Result DeskError _ × Desk). p.1.outbox) (sym e)

pub on_receipts-outbox :
    {A : Type 0} (m : Exec ReceiptError ReceiptFile A) (d : Desk) (a : A) (d' : Desk)
    → on_receipts m d ≡ (ok a, d')
    → d'.outbox ≡ d.outbox
unfolding on_receipts
on_receipts-outbox m d a d' e = ap (λ (p : Result DeskError _ × Desk). p.1.outbox) (sym e)

-- An entry that is found is read, and nothing changes.
pub get_entry-found :
    (id : String) (d : Desk) (e : TxOutboxEntry)
    → found_at id d.outbox ≡ ok e
    → on_outbox (get_outbox_entry id) d ≡ (ok e, d)
unfolding on_outbox get_outbox_entry
get_entry-found id d e found =
    let (es, was_read, here) =
      get_record-inv unsupported_outbox entry_id entry_not_found id d.outbox e found in
    ap
      (λ (p : Result OutboxError TxOutboxEntry × OutboxFile).
        (among of_outbox p.0, record d { outbox = p.1 }))
      (get_record_of unsupported_outbox entry_id entry_not_found id d.outbox es was_read
        ∙ ap (λ (o : Option TxOutboxEntry). (of_option entry_not_found o, d.outbox)) here)

-- What a read of an entry tells of the outbox.
pub get_entry-inv :
    (id : String) (d : Desk) (e : TxOutboxEntry) (d' : Desk)
    → on_outbox (get_outbox_entry id) d ≡ (ok e, d')
    → (found_at id d.outbox ≡ ok e) × (d ≡ d')
get_entry-inv id d e d' r =
    let (got, same) = on_outbox-inv (get_outbox_entry id) d e d' r in
    let found = ap (λ (p : Result OutboxError TxOutboxEntry × OutboxFile). p.0) got in
    (
      found,
      ap (λ (p : Result DeskError TxOutboxEntry × Desk). p.1)
          (sym (get_entry-found id d e found) ∙ r),
    )

-- A change of status is found afterwards.
pub update_status-found :
    (now id : String) (s : OutboxStatus) (o : Option String) (d : Desk) (e u : TxOutboxEntry)
    (d' : Desk)
    → found_at id d.outbox ≡ ok e
    → on_outbox (update_outbox_status now id s o) d ≡ (ok u, d')
    → (u ≡ with_status now s o e) × (found_at id d'.outbox ≡ ok u)
unfolding update_outbox_status get_outbox_entry
update_status-found now id s o d e u d' found r =
    let (ran, _) = on_outbox-inv (update_outbox_status now id s o) d u d' r in
    let (x, found', is, looks) =
      change_record-inv unsupported_outbox entry_id entry_not_found id (with_status now s o)
        d.outbox u d'.outbox (λ y. refl) ran in
    (
      is ∙ ap (with_status now s o) (ok-injective (sym found' ∙ found)),
      looks id ∙ rw (str_eq_refl id) refl,
    )

pub branch-inv :
    {A : Type 0} (b : Bool) (m n : DeskOp A) (d : Desk) (x : Result DeskError A × Desk)
    → (if b then m else n) d ≡ x
    → ((b ≡ true) × (m d ≡ x)) ⊎ ((b ≡ false) × (n d ≡ x))
branch-inv true m n d x e = inl (refl, e)
branch-inv false m n d x e = inr (refl, e)

kept-ne_released :
    (e u : TxOutboxEntry) (why : Reason) (a : Option AccountingSummary) (c : OperationReceipt)
    (d d' : Desk)
    → pure {E = DeskError} (kept e why) d ≢ (ok (released u a c), d')
unfolding pure
kept-ne_released e u why a c d d' r = cc

-- What a release that freed an allowance did to its entry.
record Freed (s : Session) (id : String) (to : Target) (e u : TxOutboxEntry) (d' : Desk)
    : Type 0 where
  pub was_reserved : is_reserved e ≡ true
  pub terms : String × Text
  pub had_terms : terms_of e ≡ some terms
  pub becomes : u ≡ with_status s.now (status_of to) none e
  pub found_then : found_at id d'.outbox ≡ ok u

released-parts :
    (u v : TxOutboxEntry) (a b : Option AccountingSummary) (c c' : OperationReceipt) (d d' : Desk)
    → pure {E = DeskError} (released u a c) d ≡ (ok (released v b c'), d')
    → (u ≡ v) × (d ≡ d')
unfolding pure
released-parts u v a b c c' d d' r = ground arith

release_entry-inv :
    (s : Session) (id : String) (to : Target) (e : TxOutboxEntry) (terms : String × Text) (d : Desk)
    (u : TxOutboxEntry) (a : Option AccountingSummary) (c : OperationReceipt) (d' : Desk)
    → found_at id d.outbox ≡ ok e
    → release_entry s id to e terms d ≡ (ok (released u a c), d')
    → (u ≡ with_status s.now (status_of to) none e) × (found_at id d'.outbox ≡ ok u)
unfolding release_entry move_reserved file_receipt
release_entry-inv s id to e terms d u a c d' found r =
    let (a1, d1, moved, r1) = >>=-eq-ok (move_reserved s terms _ (bucket_of to)) _ d _ d' r in
    let (u1, d2, updated, r2) =
      >>=-eq-ok (on_outbox (update_outbox_status s.now id (status_of to) none)) _ d1 _ d' r1 in
    let (c1, d3, filed, r3) = >>=-eq-ok (file_receipt s _) _ d2 _ d' r2 in
    let (same, last) = released-parts u1 u a1 a c1 c d3 d' r3 in
    let (becomes, found2) =
      update_status-found s.now id (status_of to) none d1 e u1 d2
        (ap (found_at id) (on_wallets-outbox _ d a1 d1 moved) ∙ found) updated in
    (
      sym same ∙ becomes,
      ap (λ (x : Desk). found_at id x.outbox) (sym last)
          ∙ ap (found_at id) (on_receipts-outbox _ d2 c1 d3 filed)
          ∙ found2
          ∙ ap ok same,
    )

release_found-inv :
    (s : Session) (id : String) (to : Target) (e : TxOutboxEntry) (o : Option (String × Text))
    (d : Desk) (u : TxOutboxEntry) (a : Option AccountingSummary) (c : OperationReceipt) (d' : Desk)
    → is_reserved e ≡ true
    → terms_of e ≡ o
    → found_at id d.outbox ≡ ok e
    → release_found s id to e o d ≡ (ok (released u a c), d')
    → Freed s id to e u d'
unfolding release_found
release_found-inv s id to e none d u a c d' was_reserved had found r =
    absurd (kept-ne_released e u _ a c d d' r)
release_found-inv s id to e (some terms) d u a c d' was_reserved had found r =
    elim (branch-inv (status_eq e.status _) (release_entry s id to e terms)
      (pure (kept e not_signed)) d _ r) [
        | inr (_, rest) ↦ absurd (kept-ne_released e u _ a c d d' rest)
        | inl (_, rest) ↦
            let (becomes, found_then) = release_entry-inv s id to e terms d u a c d' found rest in
            record {
              was_reserved = was_reserved;
              terms = terms;
              had_terms = had;
              becomes = becomes;
              found_then = found_then;
            }
      ]

release_reservation-inv :
    (s : Session) (id : String) (to : Target) (d : Desk) (u : TxOutboxEntry)
    (a : Option AccountingSummary) (c : OperationReceipt) (d' : Desk)
    → release_reservation s id to d ≡ (ok (released u a c), d')
    → (e : TxOutboxEntry) × Freed s id to e u d'
unfolding release_reservation
release_reservation-inv s id to d u a c d' r =
    let (e, d1, got, r1) = >>=-eq-ok (on_outbox (get_outbox_entry id)) _ d _ d' r in
    let (found, same) = get_entry-inv id d e d1 got in
    elim (branch-inv (is_reserved e) (release_found s id to e (terms_of e)) _ d1 _ r1) [
      | inr (_, rest) ↦ absurd (kept-ne_released e u _ a c d1 d' rest)
      | inl (was_reserved, rest) ↦ (
        e,
        release_found-inv s id to e (terms_of e) d1 u a c d' was_reserved refl
            (ap (λ (x : Desk). found_at id x.outbox) (sym same) ∙ found) rest,
      )
    ]

not_signed_target : (to : Target) → status_eq (status_of to) lyth_mcp.Outbox.signed ≡ false
not_signed_target to_expired = refl
not_signed_target to_failed = refl

-- A reservation is released once: after a release that freed the allowance, the same call, whatever
-- its session and target, frees nothing and changes nothing, because the entry is no longer signed.
pub release_reservation-once :
    (s : Session) (id : String) (to : Target) (d : Desk) (u : TxOutboxEntry)
    (a : Option AccountingSummary) (c : OperationReceipt) (d' : Desk) (s' : Session) (to' : Target)
    → release_reservation s id to d ≡ (ok (released u a c), d')
    → release_reservation s' id to' d' ≡ (ok (kept u not_signed), d')
unfolding release_reservation release_found pure
release_reservation-once s id to d u a c d' s' to' r =
    let (e, freed) = release_reservation-inv s id to d u a c d' r in
    let again : is_reserved u ≡ true = ap is_reserved freed.becomes ∙ freed.was_reserved in
    let terms : terms_of u ≡ some freed.terms = ap terms_of freed.becomes ∙ freed.had_terms in
    let settled : status_eq u.status lyth_mcp.Outbox.signed ≡ false =
      ap (λ (x : TxOutboxEntry). status_eq x.status lyth_mcp.Outbox.signed) freed.becomes
      ∙ not_signed_target to in
    >>=-of_ok (on_outbox (get_outbox_entry id)) _ d' u d' (get_entry-found id d' u freed.found_then)
    ∙ rw again (rw terms (rw settled refl))
