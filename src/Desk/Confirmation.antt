-- ===== src/Desk/Confirmation.antt =====
-- Repeated status summaries, `txStatusSummary` of src/index.ts.
use lyth_mcp.Prelude.{
  String, ◌≡◌, ◌≢◌, refl, sym, ap, ◌∙◌, Bool, true, false, Option, none, some, arith, str_eq,
  or_maybe, Result, ok, Exec, pure, lift, of_option, >>=-eq-ok, >>=-of_ok, Keeps, Keeps-of,
  Keeps-bind, Keeps-if, Keeps-pure, Keeps-lift, keeps_rules,
}
use lyth_mcp.Amount.{Text}
use lyth_mcp.Files.Store.{given}
use lyth_mcp.Files.Store.Lookups.{get_record-inv}
use lyth_mcp.Files.Records.{find-key}
use lyth_mcp.LowValue.{AccountingSummary, Bucket}
use lyth_mcp.Wallet.{World}
use lyth_mcp.Outbox.{
  OutboxStatus, TxOutboxEntry, OutboxError, OutboxFile, unsupported_outbox, entry_not_found,
  entry_id, status_eq, get_outbox_entry, update_outbox_status,
}
use lyth_mcp.Outbox.Laws.{found_at}
use lyth_mcp.Desk.{
  Desk, DeskError, no_endpoint, Session, on_outbox, on_wallets, is_reserved, terms_of,
  move_reserved,
}
use lyth_mcp.Desk.Settlement.{get_entry-found, get_entry-inv, update_status-found}
use lyth_mcp.Desk.Submit.{entry_if_given}
use lyth_mcp.Desk.Status.{
  ChainReceipt, chain_receipt, receipt_error, no_receipt, ChainTx, Derived, StatusSummary, no_hash,
  derived, reverted, settled_status, settle_terms, settle_entry, settle_if_given, hash_in,
  summarize_hash, summarize_found, tx_status_summary,
}

module _ (w : World) where
  abbrev pub WorldIs : Desk → Type 0
  WorldIs d = d.world ≡ w

  pub on_outbox-WorldIs :
      {A : Type 0} (m : Exec OutboxError OutboxFile A) → Keeps WorldIs (on_outbox m)
  unfolding on_outbox
  on_outbox-WorldIs m = Keeps-of (on_outbox m) (λ d h. h)

  settle_terms-WorldIs :
      (s : Session) (reverts : Bool) (status : OutboxStatus) (o : Option (String × Text))
      → status_eq status lyth_mcp.Outbox.submitted ≡ false
      → Keeps WorldIs (settle_terms s reverts status o)
  unfolding settle_terms
  settle_terms-WorldIs s reverts status none other = search keeps_rules
  settle_terms-WorldIs s reverts status (some terms) other = rw other (search keeps_rules)

  settle_entry-WorldIs :
      (s : Session) (reverts : Bool) (hash : String) (e : TxOutboxEntry)
      → status_eq e.status lyth_mcp.Outbox.submitted ≡ false
      → Keeps WorldIs (settle_entry s reverts hash e)
  unfolding settle_entry
  settle_entry-WorldIs s reverts hash e other = Keeps-bind _ _ (on_outbox-WorldIs _) λ _.
      Keeps-if _ _ _ (settle_terms-WorldIs s reverts e.status (terms_of e) other) (Keeps-pure none)

  summarize_hash-WorldIs :
      (s : Session) (on_chain : ChainReceipt) (tx : ChainTx) (hash : String) (e : TxOutboxEntry)
      → status_eq e.status lyth_mcp.Outbox.submitted ≡ false
      → Keeps WorldIs (summarize_hash s on_chain tx hash (some e))
  unfolding summarize_hash settle_if_given
  summarize_hash-WorldIs s (chain_receipt status) tx hash e other =
      search (keeps_rules, settle_entry-WorldIs s (reverted status) hash e other)
  summarize_hash-WorldIs s receipt_error tx hash e other = search keeps_rules
  summarize_hash-WorldIs s no_receipt tx hash e other = search keeps_rules

  summarize_found-WorldIs :
      (s : Session) (on_chain : ChainReceipt) (tx : ChainTx) (hash : Option String)
      (e : TxOutboxEntry)
      → status_eq e.status lyth_mcp.Outbox.submitted ≡ false
      → Keeps WorldIs (summarize_found s on_chain tx hash (some e))
  unfolding summarize_found
  summarize_found-WorldIs s on_chain tx none e other = search keeps_rules
  summarize_found-WorldIs s on_chain tx (some hash) e other =
      Keeps-bind _ _ (Keeps-lift _) λ _. summarize_hash-WorldIs s on_chain tx hash e other

-- The accounting leaves the outbox as it is.
module _ (f : OutboxFile) where
  abbrev OutboxIs : Desk → Type 0
  OutboxIs d = d.outbox ≡ f

  move_reserved-OutboxIs :
      (s : Session) (terms : String × Text) (from to : Bucket)
      → Keeps OutboxIs (move_reserved s terms from to)
  unfolding move_reserved on_wallets
  move_reserved-OutboxIs s terms from to = Keeps-of _ (λ d h. h)

  settle_terms-OutboxIs :
      (s : Session) (reverts : Bool) (status : OutboxStatus) (o : Option (String × Text))
      → Keeps OutboxIs (settle_terms s reverts status o)
  unfolding settle_terms
  settle_terms-OutboxIs s reverts status none = Keeps-pure none
  settle_terms-OutboxIs s reverts status (some terms) =
      Keeps-if _ _ _ (Keeps-bind _ _ (move_reserved-OutboxIs s terms _ _) λ _. Keeps-pure _)
        (Keeps-pure none)

-- An entry that is given is read, and its id is the one asked for.
entry_if_given-found :
    (id : String) (d : Desk) (e : TxOutboxEntry)
    → str_eq id "" ≡ false
    → found_at id d.outbox ≡ ok e
    → entry_if_given (given (some id)) d ≡ (ok (some e), d)
unfolding entry_if_given pure
entry_if_given-found id d e named found =
    rw named (>>=-of_ok (on_outbox (get_outbox_entry id)) _ d e d (get_entry-found id d e found))

got_some :
    {A E S : Type 0} (e : A) (d : S) (o : Option A) (d' : S)
    → pure {E = E} (some e) d ≡ (ok o, d')
    → (o ≡ some e) × (d ≡ d')
unfolding pure
got_some e d o d' r = ground arith

entry_if_given-inv :
    (id : String) (d : Desk) (o : Option TxOutboxEntry) (d' : Desk)
    → str_eq id "" ≡ false
    → entry_if_given (given (some id)) d ≡ (ok o, d')
    → (e : TxOutboxEntry) × (found_at id d.outbox ≡ ok e) × (o ≡ some e) × (d ≡ d')
unfolding entry_if_given
entry_if_given-inv id d o d' named r =
    let (e, d1, got, rest) = >>=-eq-ok (on_outbox (get_outbox_entry id)) _ d o d' (rw named at r) in
    let (found, same) = get_entry-inv id d e d1 got in
    let (is, last) = got_some e d1 o d' rest in (e, found, is, same ∙ last)

settled_not_submitted :
    (reverts : Bool) → status_eq (settled_status reverts) lyth_mcp.Outbox.submitted ≡ false
settled_not_submitted true = refl
settled_not_submitted false = refl

-- After the settlement of an entry by a receipt the entry is found confirmed or failed.
settle_entry-found :
    (s : Session) (reverts : Bool) (hash id : String) (e : TxOutboxEntry) (d : Desk)
    (x : Option (Option AccountingSummary)) (d' : Desk)
    → e.id ≡ id
    → found_at id d.outbox ≡ ok e
    → settle_entry s reverts hash e d ≡ (ok x, d')
    → (u : TxOutboxEntry) × (found_at id d'.outbox ≡ ok u) × (u.status ≡ settled_status reverts)
unfolding settle_entry
settle_entry-found s reverts hash id e d x d' same found r =
    let (u, d1, updated, rest) =
      >>=-eq-ok (on_outbox (update_outbox_status s.now e.id (settled_status reverts) (some hash))) _
        d x d' r in
    let (becomes, found1) =
      update_status-found s.now e.id (settled_status reverts) (some hash) d e u d1
        (ap (λ k. found_at k d.outbox) same ∙ found) updated in
    let outbox_kept =
      ((Keeps-if {P = OutboxIs d1.outbox} (is_reserved e) _ _
          (settle_terms-OutboxIs d1.outbox s reverts e.status (terms_of e)) (Keeps-pure none)).at
        d1 refl).0 in
    (
      u,
      ap (found_at id) (
            ap (λ (p : Result DeskError (Option (Option AccountingSummary)) × Desk). p.1.outbox)
              (sym rest)
            ∙ outbox_kept)
          ∙ ap (λ k. found_at k d1.outbox) (sym same)
          ∙ found1,
      ap (λ (y : TxOutboxEntry). y.status) becomes,
    )

got_derived :
    (hash h : String) (e e' : Option TxOutboxEntry) (k k' : Derived)
    (x x' : Option (Option AccountingSummary)) (d d' : Desk)
    → pure {E = DeskError} (derived hash e k x) d ≡ (ok (derived h e' k' x'), d')
    → d ≡ d'
unfolding pure
got_derived hash h e e' k k' x x' d d' r = ap (λ (p : Result DeskError StatusSummary × Desk). p.1) r

summarize_hash-found :
    (s : Session) (status : Option String) (tx : ChainTx) (hash id : String) (e : TxOutboxEntry)
    (d : Desk) (h : String) (o : Option TxOutboxEntry) (k : Derived)
    (x : Option (Option AccountingSummary)) (d' : Desk)
    → e.id ≡ id
    → found_at id d.outbox ≡ ok e
    → summarize_hash s (chain_receipt status) tx hash (some e) d ≡ (ok (derived h o k x), d')
    → (u : TxOutboxEntry) × (found_at id d'.outbox ≡ ok u)
      × (u.status ≡ settled_status (reverted status))
unfolding summarize_hash settle_if_given
summarize_hash-found s status tx hash id e d h o k x d' same found r =
    let (y, d1, settled, rest) = >>=-eq-ok (settle_entry s (reverted status) hash e) _ d _ d' r in
    let (u, found1, is) =
      settle_entry-found s (reverted status) hash id e d y d1 same found settled in
    (
      u,
      ap (λ (z : Desk). found_at id z.outbox) (sym (got_derived _ h _ o _ k y x d1 d' rest))
          ∙ found1,
      is,
    )

no_hash-ne :
    (e : Option TxOutboxEntry) (h : String) (o : Option TxOutboxEntry) (k : Derived)
    (x : Option (Option AccountingSummary)) (d d' : Desk)
    → pure {E = DeskError} (no_hash e) d ≢ (ok (derived h o k x), d')
unfolding pure
no_hash-ne e h o k x d d' r = cc

lift-left :
    {A : Type 0} (r : Result DeskError A) (d : Desk) (a : A) (d' : Desk)
    → lift r d ≡ (ok a, d')
    → d ≡ d'
unfolding lift
lift-left r d a d' e = ap (λ (p : Result DeskError _ × Desk). p.1) e

summarize_found-found :
    (s : Session) (status : Option String) (tx : ChainTx) (hash : Option String) (id : String)
    (e : TxOutboxEntry) (d : Desk) (h : String) (o : Option TxOutboxEntry) (k : Derived)
    (x : Option (Option AccountingSummary)) (d' : Desk)
    → e.id ≡ id
    → found_at id d.outbox ≡ ok e
    → summarize_found s (chain_receipt status) tx hash (some e) d ≡ (ok (derived h o k x), d')
    → (u : TxOutboxEntry) × (found_at id d'.outbox ≡ ok u)
      × (u.status ≡ settled_status (reverted status))
unfolding summarize_found
summarize_found-found s status tx none id e d h o k x d' same found r =
    absurd (no_hash-ne (some e) h o k x d d' r)
summarize_found-found s status tx (some hash) id e d h o k x d' same found r =
    let (endpoint, d1, reached, rest) =
      >>=-eq-ok (lift (of_option no_endpoint s.endpoint)) _ d _ d' r in
    summarize_hash-found s status tx hash id e d1 h o k x d' same
      (ap (λ (z : Desk). found_at id z.outbox) (sym (lift-left _ d endpoint d1 reached)) ∙ found)
      rest

found_at-id : (id : String) (f : OutboxFile) (e : TxOutboxEntry) → found_at id f ≡ ok e → e.id ≡ id
unfolding get_outbox_entry
found_at-id id f e found =
    let (es, was_read, here) =
      get_record-inv unsupported_outbox entry_id entry_not_found id f e found in
    find-key entry_id id es e here

-- Once a status summary has seen the receipt for an entry of the outbox, whose id is not empty, the next summary of that entry
-- moves no amount, whatever it is told by the chain, and whether or not it throws: the wallets and
-- their accounting are as the first one left them.
pub tx_status_summary-once :
    (s : Session) (hash : Option String) (id : String) (status : Option String) (tx : ChainTx)
    (d : Desk) (h : String) (o : Option TxOutboxEntry) (k : Derived)
    (x : Option (Option AccountingSummary)) (d' : Desk) (s' : Session) (hash' : Option String)
    (on_chain' : ChainReceipt) (tx' : ChainTx)
    → str_eq id "" ≡ false
    → tx_status_summary s hash (some id) (chain_receipt status) tx d ≡ (ok (derived h o k x), d')
    → (tx_status_summary s' hash' (some id) on_chain' tx' d').1.world ≡ d'.world
unfolding tx_status_summary
tx_status_summary-once s hash id status tx d h o k x d' s' hash' on_chain' tx' named r =
    let (o1, d1, got, rest) = >>=-eq-ok (entry_if_given (given (some id))) _ d _ d' r in
    let (e, found, is, same) = entry_if_given-inv id d o1 d1 named got in
    let (u, found', settled) =
      summarize_found-found s status tx _ id e d1 h o k x d' (found_at-id id d.outbox e found)
        (ap (λ (z : Desk). found_at id z.outbox) (sym same) ∙ found)
        (ap
            (λ z.
              summarize_found s (chain_receipt status) tx (given (or_maybe hash (hash_in z))) z d1)
            (sym is)
          ∙ rest) in
    let other =
      ap (λ z. status_eq z lyth_mcp.Outbox.submitted) settled
      ∙ settled_not_submitted (reverted status) in
    ap (λ (p : Result DeskError StatusSummary × Desk). p.1.world)
      (>>=-of_ok (entry_if_given (given (some id))) _ d' (some u) d'
        (entry_if_given-found id d' u named found'))
    ∙ ((summarize_found-WorldIs d'.world s' on_chain' tx' _ u other).at d' refl).0
