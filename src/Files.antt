-- ===== src/Files.antt =====
-- The JSON files that hold the stores (readWalletStore, readOutbox and their kin in src/*.ts). A file
-- is missing, has a shape that the reader refuses, or holds the records. A write goes to a
-- temporary file that is renamed over the old one, so it replaces the whole file at once.
pub mod Records
pub mod Store
use lyth_mcp.Prelude.{List, [], Result, ok, err, Exec}

pub data StoreFile (R : Type 0) : Type 0 where
  missing : StoreFile R
  unsupported : StoreFile R
  stored : List R → StoreFile R

-- The records that a reader gets; `e` is the error for a shape that it refuses.
abbrev pub read_file : {E R : Type 0} → E → StoreFile R → Result E (List R)
read_file e missing = ok []
read_file e unsupported = err e
read_file e (stored records) = ok records

-- A read as an action on the file.
abbrev pub reading : {E R : Type 0} → E → Exec E (StoreFile R) (List R)
reading e file = (read_file e file, file)
