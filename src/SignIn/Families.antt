-- ===== src/SignIn/Families.antt =====
-- What login and logout of src/stele/oauth-admin.ts leave of the session that is stored.
use mathlib.Core.List.{Memᴰ}
use mathlib.Core.List.Memᴰ.{head}
use lyth_mcp.Prelude.{
  ℕ, ◌-◌, ◌*◌, ◌<◌, String, ◌≡◌, refl, sym, ◌∙◌, ◌⊎◌, inl, inr, Bool, true, false, Option, none,
  some, List, ltb, ok, Ends, Triple, Triple-bind, Triple-pure, Triple-raise, Triple-if, Triple-lift,
  Triple-recover, Triple-weaken,
}
use lyth_mcp.Stele.{Outcome, completed, refused, unacknowledged}
use lyth_mcp.RefreshLock.{LockError, Number, integer}
use lyth_mcp.Broker.{
  CredentialRecord, Entry, no_entry, unreadable, entry, Answer, granted, denied, failed, is_record,
}
use lyth_mcp.Broker.Records.{decode_entry, read_record, rotate}
use lyth_mcp.Broker.Access.{is_over, is_final}
use lyth_mcp.Broker.Steps.{
  At, next-On, ask_refresh-On, ask_revoke-On, read-On, decoded, if-eq-ok, Reached,
}
use lyth_mcp.Broker.Fresh.{Follows, is_over-inv}
use lyth_mcp.Broker.Current.{rotate_in-Current}
use lyth_mcp.SignIn.{
  Administration, of_act, note_revoked, revoke_answer, revoke_family, verify_answer,
  verify_metadata,
}
use lyth_mcp.SignIn.Sessions.{replace, login_answered, login_from, normalized_error, login}
use lyth_mcp.SignIn.Attempts.{lock-Ends, SignedIn, Triple-of_act, sign_in-SignedIn}

-- The record is kept, or it was followed by what the server's tokens were rotated into, either of them
-- possibly marked; or the server has answered the revocation of its refresh token.
abbrev pub Kept : CredentialRecord → Administration → Type 0
Kept current s = Reached current s.session.stored ⊎ Memᴰ current.tokens.refresh_token s.revoked

-- Of a record in the entry, if it holds one.
abbrev pub Guarded : Entry → Administration → Type 0
Guarded e s = (current : CredentialRecord) → e ≡ entry current → Kept current s

entry-injective : {r q : CredentialRecord} → entry r ≡ entry q → r ≡ q
entry-injective e = cc

pub decoded_none : (e : Entry) → decode_entry e ≡ ok none → e ≡ no_entry
decoded_none no_entry d = refl
decoded_none unreadable d = absurd (cc)
decoded_none (entry r) d = let (_, same) = if-eq-ok (is_record r) (some r) none d in absurd (cc)

abbrev pub Held : CredentialRecord → Administration → Type 0
Held current s = At (entry current) s.session

module _ (current : CredentialRecord) where
  pub held : (s : Administration) → Held current s → Kept current s
  held s h = inl (current, inl (inl refl), h)

  followed : (s : Administration) → Follows (entry current) s.session → Kept current s
  followed s (inl h) = held s h
  followed s (inr (r, same, h)) = inl (rw (entry-injective same) h)

  abbrev pub Revokes : List String → Type 0
  Revokes l = Memᴰ current.tokens.refresh_token l

  pub revoke-Revokes :
      Triple (Held current) (revoke_family current) (λ _ s. Revokes s.revoked) (Held current)
  unfolding note_revoked
  revoke-Revokes =
      Triple-bind _ _
        (Triple-weaken _
          (Triple-of_act (λ _. Unit {0}) _ (ask_revoke-On (λ e. e ≡ entry current) _ {R = λ _. ⊥}))
          (λ s h. (h, tt)) (λ _ s (h, _). h) (λ s (h, _). absurd h))
        answered
    where
      answered :
          (b : Bool)
          → Triple
              (Held current)
              (revoke_answer current.tokens.refresh_token b)
              (λ _ s. Revokes s.revoked)
              (Held current)
      answered false = Triple-raise _ (λ s h. h)
      answered true = record { at = λ s h. head refl }

  abbrev SignedInKept : Administration → Type 0
  SignedInKept s = SignedIn s.session × Kept current s

  replace-Kept : Triple (Held current) (replace current) (λ _. SignedInKept) (Kept current)
  replace-Kept = Triple-bind _ _ (Triple-weaken _ revoke-Revokes (λ s h. h) (λ _ s n. n) held) λ _.
      Triple-weaken _ (sign_in-SignedIn Revokes (some current)) (λ s h. h)
        (λ _ s (h, n). (h, inr n)) (λ s n. inr n)

  module _ (now : ℕ) (registered : now < current.registration.expires_at * 1000) where
    answered-Kept :
        (a : Answer)
        → Triple (Held current) (login_answered current now a) (λ _. SignedInKept) (Kept current)
    answered-Kept failed = Triple-raise _ held
    answered-Kept (denied code) =
        Triple-if (is_final code) _ _ (λ _. replace-Kept) (λ _. Triple-raise _ held)
    answered-Kept (granted response) =
        Triple-bind _ _
          (Triple-weaken _
            (Triple-of_act (λ _. Unit {0}) _
              (rotate_in-Current (integer now) (entry current) current refl now refl registered
                response (rotate current response now) refl))
            (λ s h. ((current, inl (inl refl), h), tt))
            (λ _ s (((r, _, _, h, valid, lives, _, _, _), f), _).
              ((r, h, valid, lives), followed s f))
            (λ s (f, _). followed s f))
          (λ _. Triple-pure _ (λ s h. h))

  login_from-Kept :
      (now : ℕ)
      → is_record current ≡ true
      → Triple (Held current) (login_from (some current) now) (λ _. SignedInKept) (Kept current)
  login_from-Kept now valid =
      Triple-if (is_over current now) _ _ (λ _. replace-Kept)
        λ going.
          let (lives, registered) = is_over-inv current now going in
          Triple-if (ltb now (current.tokens.access_expires_at - 30000)) _ _
            (λ _. Triple-pure _ (λ s h. ((current, h, valid, lives), held s h)))
            λ _.
              Triple-bind _ _
                (Triple-weaken _
                  (Triple-of_act (λ _. Unit {0}) _
                    (ask_refresh-On (λ e. e ≡ entry current) {R = λ _. ⊥}))
                  (λ s h. (h, tt)) (λ _ s (h, _). h) (λ s (h, _). absurd h))
                (answered-Kept now registered)

module _ (e : Entry) where
  abbrev pub Same : Administration → Type 0
  Same s = At e s.session

  pub Same-Guarded : (s : Administration) → Same s → Guarded e s
  Same-Guarded s h current same = held current s (h ∙ same)

  pub Kept-Guarded :
      (current : CredentialRecord)
      → e ≡ entry current
      → (s : Administration) → Kept current s
      → Guarded e s
  Kept-Guarded current same s h q other = rw⁻¹ (entry-injective (sym same ∙ other)) h

  pub read-Same : Triple Same (of_act read_record) (λ o s. (decode_entry e ≡ ok o) × Same s) Same
  read-Same =
      Triple-weaken _ (Triple-of_act (λ _. Unit {0}) _ (read-On (λ x. x ≡ e))) (λ s h. (h, tt))
        (λ o s ((d, h), _). (rw (sym h) d, h)) (λ s (h, _). h)

  login_from-Guarded :
      (o : Option CredentialRecord) (now : ℕ)
      → decode_entry e ≡ ok o
      → Triple Same (login_from o now) (λ _ s. SignedIn s.session × Guarded e s) (Guarded e)
  login_from-Guarded none now d =
      Triple-weaken _ (sign_in-SignedIn (λ _. Unit {0}) none) (λ s h. tt)
        (λ _ s (h, _). (h, nothing s)) (λ s h. nothing s)
    where
      nothing : (s : Administration) → Guarded e s
      nothing s current same = absurd (cc (decoded_none e d))
  login_from-Guarded (some current) now d =
      let (same, valid) = decoded e current d in
      Triple-weaken _ (login_from-Kept current now valid) (λ s h. h ∙ same)
        (λ _ s (h, k). (h, Kept-Guarded current same s k)) (λ s k. Kept-Guarded current same s k)

  verify-Same : Triple Same verify_metadata (λ _. Same) (Guarded e)
  verify-Same =
      Triple-bind _ _
        (Triple-weaken _ (Triple-of_act (λ _. Unit {0}) _ (next-On (λ x. x ≡ e) {R = λ _. ⊥}))
          (λ s h. (h, tt)) (λ _ s (h, _). h) (λ s (h, _). absurd h))
        answered
    where
      answered : (o : Outcome) → Triple Same (verify_answer o) (λ _. Same) (Guarded e)
      answered completed = Triple-pure _ (λ s h. h)
      answered refused = Triple-raise _ Same-Guarded
      answered unacknowledged = Triple-raise _ Same-Guarded

-- Whichever calls of the lock, the credential store, the browser and the server fail: if login returns, the
-- stored record is active and the schema accepts it; and whether it returns or throws, a record that
-- was stored before is stored still, or one that the server's tokens were rotated into, either of them
-- possibly marked for a new sign-in, or else the server has answered the revocation of its refresh
-- token.
pub login_lem :
    (lock : Option LockError) (clock : Number) (s : Administration)
    → Ends
        (λ _ s'. SignedIn s'.session × Guarded s.session.stored s')
        (Guarded s.session.stored)
        (login lock clock s).0
        (login lock clock s).1
unfolding login
login_lem lock clock s =
    let e = s.session.stored in
    (Triple-recover _ _
        (Triple-bind _ _ (Triple-weaken _ (lock-Ends lock) (λ s h. h) (λ _ s h. h) (Same-Guarded e))
          λ _. Triple-bind _ _ (verify-Same e) λ _.
            Triple-bind _ _ (Triple-weaken _ (read-Same e) (λ s h. h) (λ _ s h. h) (Same-Guarded e))
              λ o.
                Triple-bind _ _
                  (Triple-lift {Q = λ _ s. (decode_entry e ≡ ok o) × Same e s} _ (λ _ s _ h. h)
                    (λ s (_, h). Same-Guarded e s h))
                  λ now. record { at = λ s (d, h). (login_from-Guarded e o now d).at s h })
        (λ x. Triple-raise (normalized_error x) (λ s h. h))).at
      s refl
