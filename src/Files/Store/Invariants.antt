-- ===== src/Files/Store/Invariants.antt =====
-- Invariants of a store's file: a property of every record, and that no two records have one key.
use lyth_mcp.Prelude.{
  String, ◌≡◌, Option, some, List, [], ◌∷◌, arith, find, put_first, All, ok, of_option, OnOk,
  Option-cases, Ensures, Ensures-bind, Ensures-lift, Keeps, Keeps-of, Keeps-bind, Keeps-if,
  Keeps-pure, Keeps-raise,
}
use lyth_mcp.Files.{StoreFile, missing, unsupported, stored, read_file}
use lyth_mcp.Files.Records.{has_key, without}
use lyth_mcp.Files.Store.{read_records, write_records, add_front, change_record, remove_records}

module _ {R : Type 0} (Q : List R → Type 0) where
  -- Of the list that a file is read as; a file that is refused has none.
  abbrev pub Listed : StoreFile R → Type 0
  Listed missing = Q []
  Listed unsupported = Unit
  Listed (stored rs) = Q rs

module _ {E R : Type 0} (unsupported_shape : E) (Q : List R → Type 0) where
  read_records-Ensures : Ensures (Listed Q) (read_records unsupported_shape) Q
  unfolding read_records
  read_records-Ensures = record { at = λ file h. (h, of_file file h) }
    where
      of_file : (file : StoreFile R) (h : Listed Q file) → OnOk Q (read_file unsupported_shape file)
      of_file missing h = h
      of_file unsupported h = tt
      of_file (stored rs) h = h

  write_records-Keeps :
      (rs : List R) → Q rs → Keeps {E = E} (Listed Q) (write_records unsupported_shape rs)
  unfolding write_records
  write_records-Keeps rs q = Keeps-of _ (λ file h. q)

  pub add_front-Keeps :
      (r : R)
      → ((rs : List R) → Q rs → Q (r ∷ rs))
      → Keeps (Listed Q) (add_front unsupported_shape r)
  unfolding add_front
  add_front-Keeps r step =
      Ensures-bind _ _ read_records-Ensures
        λ rs q. Keeps-bind _ _ (write_records-Keeps (r ∷ rs) (step rs q)) λ _. Keeps-pure r

  module _ (key : R → String) (not_found : E) where
    pub change_record-Keeps :
        (k : String) (f : R → R)
        → ((rs : List R) (r : R)
            → Q rs
            → find (has_key key k) rs ≡ some r
            → Q (put_first (has_key key k) (f r) rs))
        → Keeps (Listed Q) (change_record unsupported_shape key not_found k f)
    unfolding change_record
    change_record-Keeps k f step = Ensures-bind _ _ read_records-Ensures λ rs q.
        Ensures-bind _ _ (Ensures-lift _) λ r found.
          Keeps-bind _ _
            (write_records-Keeps _ (step rs r q (found_of (find (has_key key k) rs) r found)))
            λ _. Keeps-pure (f r)
      where
        found_of : (o : Option R) (r : R) → of_option not_found o ≡ ok r → o ≡ some r
        found_of o r e = ground (arith, Option-cases o)

    pub remove_records-Keeps :
        (k : String)
        → ((rs : List R) → Q rs → Q (without key k rs))
        → Keeps (Listed Q) (remove_records unsupported_shape key not_found k)
    unfolding remove_records
    remove_records-Keeps k step =
        Ensures-bind _ _ read_records-Ensures
          λ rs q. Keeps-if _ _ _ (Keeps-raise _) (write_records-Keeps _ (step rs q))

-- A property of every record.
module _ {R : Type 0} (P : R → Type 0) (key : R → String) where
  pub All-put_first :
      (k : String) (f : R → R) (rs : List R) (r : R)
      → ((r : R) → P r → P (f r))
      → All P rs
      → find (has_key key k) rs ≡ some r
      → All P (put_first (has_key key k) (f r) rs)
  All-put_first k f [] r step h e = tt
  All-put_first k f (x ∷ xs) r step h e = ground (arith, All-put_first k f xs r step, step x)

  pub All-without : (k : String) (rs : List R) → All P rs → All P (without key k rs)
  All-without k [] h = tt
  All-without k (x ∷ xs) h = ground (arith, All-without k xs)
