-- ===== src/Files/Records.antt =====
-- Lists of records that are found by a text: what `find`, a write at `findIndex`, and `filter` do.
use lyth_mcp.Prelude.{
  String, ◌≡◌, ◌≢◌, refl, Bool, not, none, some, List, [], ◌∷◌, arith, str_eq, eq_iff, find,
  put_first, keep, any, All, if◌then◌else◌,
}

module _ {R : Type 0} (key : R → String) where
  abbrev pub has_key : String → R → Bool
  has_key k r = str_eq (key r) k

  -- No record of `rs` has the key `k`.
  abbrev pub Fresh : String → List R → Type 0
  Fresh k rs = All (λ r. key r ≢ k) rs

  -- No two records have one key.
  abbrev pub Distinct : List R → Type 0
  Distinct [] = Unit
  Distinct (r ∷ rs) = Fresh (key r) rs × Distinct rs

  pub find-key : (k : String) (rs : List R) (r : R) → find (has_key k) rs ≡ some r → key r ≡ k
  find-key k [] r e = cc
  find-key k (x ∷ xs) r e = ground (arith, find-key k xs r, eq_iff (key x) k)

  pub find-none-Fresh : (k : String) (rs : List R) → find (has_key k) rs ≡ none → Fresh k rs
  find-none-Fresh k [] e = tt
  find-none-Fresh k (x ∷ xs) e = ground (arith, find-none-Fresh k xs, eq_iff (key x) k)

  pub Fresh-find-none : (k : String) (rs : List R) → Fresh k rs → find (has_key k) rs ≡ none
  Fresh-find-none k [] h = refl
  Fresh-find-none k (x ∷ xs) h = ground (arith, Fresh-find-none k xs, eq_iff (key x) k)

  -- A write at the first record of a key, by a record of the same key.
  pub find-put_first :
      (k j : String) (v : R) (rs : List R)
      → key v ≡ k
      → find (has_key j) (put_first (has_key k) v rs) ≡ (
          if str_eq k j then (if any (has_key k) rs then some v else none) else find (has_key j) rs)
  find-put_first k j v [] e = ground arith
  find-put_first k j v (x ∷ xs) e = ground (
    arith,
    find-put_first k j v xs e,
    eq_iff (key x) k,
    eq_iff (key x) j,
    eq_iff k j,
    eq_iff (key v) j,
  )

  put_first-Fresh :
      (k j : String) (v : R) (rs : List R)
      → key v ≡ k
      → Fresh j rs
      → Fresh j (put_first (has_key k) v rs)
  put_first-Fresh k j v [] e h = tt
  put_first-Fresh k j v (x ∷ xs) e h = ground (arith, put_first-Fresh k j v xs e, eq_iff (key x) k)

  pub put_first-Distinct :
      (k : String) (v : R) (rs : List R)
      → key v ≡ k
      → Distinct rs
      → Distinct (put_first (has_key k) v rs)
  put_first-Distinct k v [] e h = tt
  put_first-Distinct k v (x ∷ xs) e h =
      ground
        (arith, put_first-Distinct k v xs e, put_first-Fresh k (key x) v xs e, eq_iff (key x) k)

  -- Removal of all records of a key.
  abbrev pub without : String → List R → List R
  without k rs = keep (λ r. not (has_key k r)) rs

  pub without-Fresh : (k : String) (rs : List R) → Fresh k (without k rs)
  without-Fresh k [] = tt
  without-Fresh k (x ∷ xs) = ground (arith, without-Fresh k xs, eq_iff (key x) k)

  keep-Fresh : (j : String) (p : R → Bool) (rs : List R) → Fresh j rs → Fresh j (keep p rs)
  keep-Fresh j p [] h = tt
  keep-Fresh j p (x ∷ xs) h = ground (arith, keep-Fresh j p xs)

  pub keep-Distinct : (p : R → Bool) (rs : List R) → Distinct rs → Distinct (keep p rs)
  keep-Distinct p [] h = tt
  keep-Distinct p (x ∷ xs) h = ground (arith, keep-Distinct p xs, keep-Fresh (key x) p xs)

  pub find-without :
      (k j : String) (rs : List R)
      → find (has_key j) (without k rs) ≡ (if str_eq k j then none else find (has_key j) rs)
  find-without k j [] = ground arith
  find-without k j (x ∷ xs) =
      ground (arith, find-without k j xs, eq_iff (key x) k, eq_iff (key x) j, eq_iff k j)
