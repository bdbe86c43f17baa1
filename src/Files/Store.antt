-- ===== src/Files/Store.antt =====
-- What the store modules of src/*.ts have in common: a read of the file, a change of its list of
-- records, and a write of the whole list. `E` are the errors of a module, `unsupported_shape` the one
-- for a file that it refuses.
pub mod Lookups
pub mod Invariants
use lyth_mcp.Prelude.{
  ℕ, String, Bool, true, false, Option, none, some, List, ◌∷◌, if◌then◌else◌, length, ◌==◌, take,
  find, put_first, ok, of_option, or_else, Exec, continue, ◌>>=◌, ◌>>◌, pure, raise, lift, str_eq,
}
use lyth_mcp.Files.{StoreFile, stored, reading}
use lyth_mcp.Files.Records.{has_key, without}

-- A text under a truth test: the empty one counts as absent.
abbrev pub given : Option String → Option String
given none = none
given (some s) = if str_eq s "" then none else some s

-- `!wanted || value === wanted`, for a value that may be absent.
abbrev pub wants : Option String → Option String → Bool
wants none value = true
wants (some w) none = false
wants (some w) (some x) = str_eq x w

-- `limit ?? 50`
abbrev pub first_of : {R : Type 0} → Option ℕ → List R → List R
first_of limit rs = take (or_else limit 50) rs

module _ {E R : Type 0} (unsupported_shape : E) where
  unfoldable pub read_records : Exec E (StoreFile R) (List R)
  read_records = reading unsupported_shape

  unfoldable pub write_records : List R → Exec E (StoreFile R) (Unit {0})
  write_records rs file = (ok tt, stored rs)

  -- `unshift`
  unfoldable pub add_front : R → Exec E (StoreFile R) R
  add_front r = do rs ← read_records; write_records (r ∷ rs); pure r

  module _ (key : R → String) (not_found : E) where
    unfoldable pub get_record : String → Exec E (StoreFile R) R
    get_record k = do rs ← read_records; lift (of_option not_found (find (has_key key k) rs))

    -- A change of the first record of a key.
    unfoldable pub change_record : String → (R → R) → Exec E (StoreFile R) R
    change_record k f = do
      rs ← read_records
      r ← lift (of_option not_found (find (has_key key k) rs))
      write_records (put_first (has_key key k) (f r) rs)
      pure (f r)

    -- `filter`, and an error if it took nothing away.
    unfoldable pub remove_records : String → Exec E (StoreFile R) (Unit {0})
    remove_records k = do
      rs ← read_records
      if length (without key k rs) == length rs
          then raise not_found
          else write_records (without key k rs)
