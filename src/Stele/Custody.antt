-- ===== src/Stele/Custody.antt =====
-- `NativeSteleSeedCustody` of src/stele/os-credential-store.ts, over the passwords of the service
-- and what they decode to.
use lyth_mcp.Prelude.{
  ℕ, String, Bool, true, false, not, ◌&&◌, ◌||◌, Option, none, some, List, [], ◌∷◌, ltb, ◌==◌,
  length, any, if◌then◌else◌, str_eq, Result, ok, err, then_result, ◌>>=◌, ◌>>◌, raise, lift,
}
use lyth_mcp.Amount.{Text, codes}
use lyth_mcp.Stele.{
  store_unavailable, already_exists, store_corrupt, Failure, of_custody, SeedRecord, Credential,
  seed_entry, foreign_entry, Host, Act, consult, attempt, with_credentials, get_credentials,
}
use lyth_mcp.Stele.State.{is_operation_id}

-- The order of `sort` on texts, and an insertion that keeps it.
abbrev pub code_before : Text → Text → Bool
code_before s [] = false
code_before [] (d ∷ t) = true
code_before (c ∷ s) (d ∷ t) = ltb c d || c == d && code_before s t

abbrev pub insert_id : String → List String → List String
insert_id id [] = id ∷ []
insert_id id (x ∷ xs) =
    let rest = insert_id id xs in if code_before (codes x) (codes id) then x ∷ rest else id ∷ x ∷ xs

abbrev pub sort_ids : List String → List String
sort_ids [] = []
sort_ids (x ∷ xs) = insert_id x (sort_ids xs)

abbrev pub stored_record : String → String × List ℕ → SeedRecord
stored_record id (address, seed) = record { credential_id = id; address = address; seed = seed }

-- `decodeSeedRecord` throws unless the text is one that it wrote, for a canonical address.
abbrev pub decode_seed_record : Host → String → Option (String × List ℕ) → Result Failure SeedRecord
decode_seed_record h id none = err (of_custody store_corrupt)
decode_seed_record h id (some (address, seed)) =
    if h.is_canonical_address address
    then ok (stored_record id (address, seed))
    else err (of_custody store_corrupt)

-- The loop of `listSeedIds`, whose set of ids is `seen`, the last one first.
abbrev pub collect_ids : Host → List String → List Credential → Result Failure (List String)
collect_ids h seen [] = ok (sort_ids seen)
collect_ids h seen (foreign_entry ∷ cs) = err (of_custody store_corrupt)
collect_ids h seen (seed_entry id content ∷ cs) =
    if not (is_operation_id id) || any (str_eq id) seen
    then err (of_custody store_corrupt)
    else then_result (decode_seed_record h id content) (λ _. collect_ids h (id ∷ seen) cs)

unfoldable pub list_seed_ids : Host → Act (List String)
list_seed_ids h = do
  consult (of_custody store_unavailable)
  cs ← get_credentials
  lift (collect_ids h [] cs)

-- The password of an account.
abbrev pub find_content : String → List Credential → Option (Option (String × List ℕ))
find_content id [] = none
find_content id (foreign_entry ∷ cs) = find_content id cs
find_content id (seed_entry other content ∷ cs) =
    let rest = find_content id cs in if str_eq other id then some content else rest

abbrev pub decode_found :
    Host → String → Option (Option (String × List ℕ)) → Result Failure (Option SeedRecord)
decode_found h id none = ok none
decode_found h id (some content) = then_result (decode_seed_record h id content) (λ r. ok (some r))

unfoldable pub read_seed : Host → String → Act (Option SeedRecord)
read_seed h id = if not (is_operation_id id) then raise (of_custody store_corrupt) else (do
  consult (of_custody store_unavailable)
  cs ← get_credentials
  lift (decode_found h id (find_content id cs)))

abbrev pub set_content : String → String × List ℕ → List Credential → List Credential
set_content id content [] = seed_entry id (some content) ∷ []
set_content id content (foreign_entry ∷ cs) = foreign_entry ∷ set_content id content cs
set_content id content (seed_entry other old ∷ cs) =
    let rest = set_content id content cs in
    if str_eq other id then seed_entry id (some content) ∷ cs else seed_entry other old ∷ rest

-- `setPassword`, under an account that may exist.
unfoldable pub set_password : String → String → List ℕ → Act (Unit {0})
set_password id address seed = do
  cs ← get_credentials
  attempt (of_custody store_unavailable) (with_credentials (set_content id (address, seed) cs))

abbrev pub seed_eq : List ℕ → List ℕ → Bool
seed_eq [] [] = true
seed_eq [] (d ∷ t) = false
seed_eq (c ∷ s) [] = false
seed_eq (c ∷ s) (d ∷ t) = c == d && seed_eq s t

abbrev pub check_readback : String → List ℕ → Option SeedRecord → Result Failure (Unit {0})
check_readback address seed none = err (of_custody store_corrupt)
check_readback address seed (some r) =
    if not (str_eq r.address address) || not (seed_eq r.seed seed)
    then err (of_custody store_corrupt)
    else ok tt

abbrev pub store_seed : Host → String → String → List ℕ → Option SeedRecord → Act (Unit {0})
store_seed h id address seed (some existing) = raise (of_custody already_exists)
store_seed h id address seed none = do
  set_password id address seed
  readback ← read_seed h id
  lift (check_readback address seed readback)

unfoldable pub create_seed : Host → String → String → List ℕ → Act (Unit {0})
create_seed h id address seed =
    if not (is_operation_id id)
    then raise (of_custody store_corrupt)
    else (if not (h.is_canonical_address address) || not (length seed == 32)
        then raise (of_custody store_corrupt)
        else read_seed h id >>= store_seed h id address seed)
