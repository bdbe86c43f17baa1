-- ===== src/SignIn/Departure.antt =====
-- What logout of src/stele/oauth-admin.ts leaves.
use lyth_mcp.Prelude.{
  ◌≡◌, refl, sym, ◌∙◌, ◌⊎◌, inl, inr, Bool, true, false, Option, none, some, ok, Ends, Triple,
  Triple-bind, Triple-pure, Triple-raise, Triple-recover, Triple-weaken,
}
use lyth_mcp.RefreshLock.{LockError}
use lyth_mcp.Broker.{CredentialRecord, Entry, no_entry, entry}
use lyth_mcp.Broker.Records.{decode_entry}
use lyth_mcp.Broker.Steps.{At, read-On, decoded}
use lyth_mcp.SignIn.{Administration}
use lyth_mcp.SignIn.Sessions.{normalized_error, nothing_left, gone, logout_from, logout}
use lyth_mcp.SignIn.Attempts.{lock-Ends, Triple-of_act, call-Noted}
use lyth_mcp.SignIn.Families.{Held, Revokes, revoke-Revokes, decoded_none, Same, read-Same}

-- Nothing is stored any more.
abbrev pub SignedOut : Administration → Type 0
SignedOut s = At no_entry s.session

-- The entry is as it was, or it held a record the revocation of whose refresh token
-- was answered.
abbrev pub Untouched : Entry → Administration → Type 0
Untouched e s =
    Same e s ⊎ ((current : CredentialRecord) × (e ≡ entry current) × Revokes current s.revoked)

module _ (current : CredentialRecord) where
  abbrev Revoked : Administration → Type 0
  Revoked s = Revokes current s.revoked

  gone-Revoked : (b : Bool) → Triple Revoked (gone b) (λ _ s. SignedOut s × Revoked s) Revoked
  gone-Revoked false = Triple-raise _ (λ s h. h)
  gone-Revoked true =
      Triple-bind _ _
        (Triple-weaken _ (Triple-of_act (Revokes current) _ (read-On (λ _. Unit {0})))
          (λ s h. (tt, h)) (λ _ s ((d, _), h). (d, h)) (λ s (_, h). h))
        last
    where
      last :
          (left : Option CredentialRecord)
          → Triple
              (λ s. (decode_entry s.session.stored ≡ ok left) × Revoked s)
              (nothing_left left)
              (λ _ s. SignedOut s × Revoked s)
              Revoked
      last none = Triple-pure _ (λ s (d, h). (decoded_none s.session.stored d, h))
      last (some r) = Triple-raise _ (λ s (_, h). h)

  abbrev Left : Administration → Type 0
  Left s = Held current s ⊎ Revoked s

  logout_from-Left :
      Triple (Held current) (logout_from (some current)) (λ _ s. SignedOut s × Left s) Left
  logout_from-Left =
      Triple-bind _ _
        (Triple-weaken _ (revoke-Revokes current) (λ s h. h) (λ _ s n. n) (λ s h. inl h))
        λ _.
          Triple-bind _ _
            (Triple-weaken _ (call-Noted (Revokes current) _) (λ s h. h) (λ _ s h. h)
              (λ s h. inr h))
            λ b.
              Triple-weaken _ (gone-Revoked b) (λ s h. h) (λ _ s (o, h). (o, inr h)) (λ s h. inr h)

logout_from-Untouched :
    (e : Entry) (o : Option CredentialRecord)
    → decode_entry e ≡ ok o
    → Triple (Same e) (logout_from o) (λ _ s. SignedOut s × Untouched e s) (Untouched e)
logout_from-Untouched e none d = Triple-pure _ (λ s h. (h ∙ decoded_none e d, inl h))
logout_from-Untouched e (some current) d =
    let (same, valid) = decoded e current d in
    Triple-weaken _ (logout_from-Left current) (λ s h. h ∙ same) (λ _ s (o, k). (o, known same s k))
      (known same)
  where
    known : e ≡ entry current → (s : Administration) → Left current s → Untouched e s
    known same s (inl h) = inl (h ∙ sym same)
    known same s (inr h) = inr (current, same, h)

-- Whichever calls of the lock, the credential store and the server fail: if logout returns, no record is stored;
-- and whether it returns or throws, the entry is as it was, or it held a record and the server has
-- answered the revocation of its refresh token.
pub logout_lem :
    (lock : Option LockError) (s : Administration)
    → Ends
        (λ _ s'. SignedOut s' × Untouched s.session.stored s')
        (Untouched s.session.stored)
        (logout lock s).0
        (logout lock s).1
unfolding logout
logout_lem lock s =
    let e = s.session.stored in
    (Triple-recover _ _
        (Triple-bind _ _ (Triple-weaken _ (lock-Ends lock) (λ s h. h) (λ _ s h. h) (λ s h. inl h))
          λ _.
            Triple-bind _ _ (Triple-weaken _ (read-Same e) (λ s h. h) (λ _ s h. h) (λ s h. inl h))
              λ o. record { at = λ s' (d, h). (logout_from-Untouched e o d).at s' h })
        (λ x. Triple-raise (normalized_error x) (λ s h. h))).at
      s refl
