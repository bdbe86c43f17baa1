-- ===== src/Files/Store/Lookups.antt =====
-- What a lookup finds after each operation of a store.
use lyth_mcp.Prelude.{
  ok-injective, String, ◌≡◌, ◌≢◌, refl, sym, ap, ◌∙◌, inl, inr, true, some, List, [], ◌∷◌, arith,
  if◌then◌else◌, str_eq, find, put_first, any, Result, ok, err, of_option, ◌>>=◌, Result-cases,
  Option-cases,
}
use lyth_mcp.Files.{StoreFile, stored, read_file}
use lyth_mcp.Files.Records.{has_key, find-key, find-put_first, find-without}
use lyth_mcp.Files.Store.{
  read_records, write_records, add_front, get_record, change_record, remove_records,
}

err-ne-ok :
    {E A S : Type 0} {x : E} {a : A} {s t : S} → ◌≢◌ {A = Result E A × S} (err x, s) (ok a, t)
err-ne-ok h = cc

module _ {E R : Type 0} (unsupported_shape : E) (key : R → String) (not_found : E) where
  -- What `k` is found as.
  abbrev pub lookup : String → StoreFile R → Result E R
  lookup k file = (get_record unsupported_shape key not_found k file).0

  pub get_record_of :
      (k : String) (file : StoreFile R) (rs : List R)
      → read_file unsupported_shape file ≡ ok rs
      → get_record unsupported_shape key not_found k file
        ≡ (of_option not_found (find (has_key key k) rs), file)
  unfolding get_record read_records ◌>>=◌
  get_record_of k file rs e = rw e refl

  pub lookup_of :
      (k : String) (file : StoreFile R) (rs : List R)
      → read_file unsupported_shape file ≡ ok rs
      → lookup k file ≡ of_option not_found (find (has_key key k) rs)
  lookup_of k file rs e = ap (λ (p : Result E R × StoreFile R). p.0) (get_record_of k file rs e)

  -- The list that a found record is in.
  pub get_record-inv :
      (k : String) (file : StoreFile R) (r : R)
      → lookup k file ≡ ok r
      → (rs : List R) × (read_file unsupported_shape file ≡ ok rs)
        × (find (has_key key k) rs ≡ some r)
  unfolding get_record read_records ◌>>=◌
  get_record-inv k file r e = elim (Result-cases (read_file unsupported_shape file)) [
    | inl (rs, was_read) ↦ (rs, was_read, ground (arith, Option-cases (find (has_key key k) rs)))
    | inr (x, failed) ↦ absurd (ground arith)
  ]

  pub lookup-add_front :
      (r : R) (j : String) (file file' : StoreFile R)
      → add_front unsupported_shape r file ≡ (ok r, file')
      → lookup j file' ≡ (if str_eq (key r) j then ok r else lookup j file)
  unfolding add_front read_records write_records get_record ◌>>=◌
  lookup-add_front r j file file' e = elim (Result-cases (read_file unsupported_shape file)) [
    | inl (rs, was_read) ↦ ground arith
    | inr (x, failed) ↦ absurd (ground arith)
  ]

  find-any :
      (k : String) (rs : List R) (r : R)
      → find (has_key key k) rs ≡ some r
      → any (has_key key k) rs ≡ true
  find-any k [] r e = cc
  find-any k (x ∷ xs) r e = ground (arith, find-any k xs r)

  lookup-put_first :
      (k j : String) (v : R) (rs : List R) (file : StoreFile R)
      → read_file unsupported_shape file ≡ ok rs
      → any (has_key key k) rs ≡ true
      → key v ≡ k
      → lookup j (stored (put_first (has_key key k) v rs))
        ≡ (if str_eq k j then ok v else lookup j file)
  lookup-put_first k j v rs file was_read old same =
      rw
        (lookup_of j file rs was_read, lookup_of j (stored (put_first (has_key key k) v rs)) _ refl)
        (ground (arith, find-put_first key k j v rs same, old))

  -- Where a record is found, its change returns the changed record, which alone is found differently.
  pub change_record-found :
      (k : String) (f : R → R) (file : StoreFile R) (r : R)
      → lookup k file ≡ ok r
      → key (f r) ≡ k
      → (file' : StoreFile R) × (change_record unsupported_shape key not_found k f file
          ≡ (ok (f r), file'))
        × ((j : String) → lookup j file' ≡ (if str_eq k j then ok (f r) else lookup j file))
  unfolding change_record read_records write_records ◌>>=◌
  change_record-found k f file r found same =
      let (rs, was_read, here) = get_record-inv k file r found in
      (
        stored (put_first (has_key key k) (f r) rs),
        rw was_read (rw here refl),
        λ j. lookup-put_first k j (f r) rs file was_read (find-any k rs r here) same,
      )

  -- What is not found, or cannot be read, is not changed.
  pub change_record-fails :
      (k : String) (f : R → R) (file : StoreFile R) (x : E)
      → lookup k file ≡ err x
      → change_record unsupported_shape key not_found k f file ≡ (err x, file)
  unfolding change_record read_records get_record ◌>>=◌
  change_record-fails k f file x e = elim (Result-cases (read_file unsupported_shape file)) [
    | inl (rs, was_read) ↦ ground (arith, Option-cases (find (has_key key k) rs))
    | inr (y, failed) ↦ ground arith
  ]

  -- A change that returned changed a record that was found, and no other.
  pub change_record-inv :
      (k : String) (f : R → R) (file : StoreFile R) (r' : R) (file' : StoreFile R)
      → ((r : R) → key (f r) ≡ key r)
      → change_record unsupported_shape key not_found k f file ≡ (ok r', file')
      → (r : R) × (lookup k file ≡ ok r)
        × (r' ≡ f r)
        × ((j : String) → lookup j file' ≡ (if str_eq k j then ok r' else lookup j file))
  change_record-inv k f file r' file' keeps e = elim (Result-cases (lookup k file)) [
    | inl (r, found) ↦
        let (rs, was_read, here) = get_record-inv k file r found in
        let (file'', e'', looks) =
          change_record-found k f file r found (keeps r ∙ find-key key k rs r here) in
        let same_result : ok (f r) ≡ ok r' =
          ap (λ (p : Result E R × StoreFile R). p.0) (sym e'' ∙ e) in
        let same_file : file'' ≡ file' = ap (λ (p : Result E R × StoreFile R). p.1) (sym e'' ∙ e) in
        (
          r,
          found,
          sym (ok-injective same_result),
          λ j.
              ap (lookup j) (sym same_file)
              ∙ looks j
              ∙ ap (λ x. if str_eq k j then x else lookup j file) same_result,
        )
    | inr (x, failed) ↦ absurd (err-ne-ok (sym (change_record-fails k f file x failed) ∙ e))
  ]

  pub lookup-remove_records :
      (k j : String) (file file' : StoreFile R)
      → remove_records unsupported_shape key not_found k file ≡ (ok tt, file')
      → lookup j file' ≡ (if str_eq k j then err not_found else lookup j file)
  unfolding remove_records read_records write_records get_record ◌>>=◌
  lookup-remove_records k j file file' e = elim (Result-cases (read_file unsupported_shape file)) [
    | inl (rs, was_read) ↦ ground (arith, find-without key k j rs)
    | inr (x, failed) ↦ absurd (ground arith)
  ]
