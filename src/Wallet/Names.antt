-- ===== src/Wallet/Names.antt =====
-- The names of the wallets in the store, under the operations of src/wallet.ts.
use mathlib.Core.Path.{subst}
use mathlib.Core.Option.{some-injective}
use lyth_mcp.Prelude.{
  ℕ, String, ◌≡◌, ◌≢◌, refl, sym, ap, ◌∙◌, inl, inr, Bool, false, not, Option, none, some, List, [],
  ◌∷◌, ◌++◌, map, arith, if◌then◌else◌, eq_iff, find, any, put_first, Result, of_option, ◌>>=◌,
  lift, Bool-cases, Ensures, OnOk, Ensures-bind, Ensures-lift, Keeps, Keeps-of, keeps_rules,
  Keeps-bind, Keeps-pure, Keeps-lift, Keeps-if, Keeps-raise,
}
use lyth_mcp.Amount.{Text}
use lyth_mcp.Files.{StoreFile, missing, unsupported, stored, read_file}
use lyth_mcp.Files.Records.{Fresh, Distinct, find-key, put_first-Distinct, keep-Distinct}
use lyth_mcp.LowValue.{LowValuePolicy, PolicyError, Bucket}
use lyth_mcp.Wallet.{
  WalletError, WalletRecord, unsupported_store, not_found, Vault, Call, World, Op, Protection,
  named, hot_key, local_key, read_wallets, write_wallets, resolve_new_wallet_key,
  resolve_wallet_key,
}
use lyth_mcp.Wallet.Ops.{
  CreateArgs, LowValueArgs, place, create_policy, asked_policy, insert_wallet, add_with_key,
  add_wallet, create_wallet, import_wallet, configure_low_value_policy,
  update_agent_wallet_metadata, AgentPatch, delete_wallet, write_policy, with_policy, policy_of,
  change_found, change_policy, record_low_value_spend, move_low_value_accounting,
}

abbrev name_of : WalletRecord → String
name_of r = r.name

abbrev DistinctNames : StoreFile WalletRecord → Type 0
DistinctNames missing = Unit
DistinctNames unsupported = Unit
DistinctNames (stored records) = Distinct name_of records

abbrev pub WellNamed : World → Type 0
WellNamed w = DistinctNames w.wallets

-- `place`, for a record of the name `k`.
module _ (r : WalletRecord) where
  abbrev over : WalletRecord → WalletRecord
  over w = if named r.name w then r else w

  Fresh-over :
      (k : String) (rs : List WalletRecord) → Fresh name_of k rs → Fresh name_of k (map over rs)
  Fresh-over k [] h = tt
  Fresh-over k (x ∷ xs) h = ground (arith, Fresh-over k xs, eq_iff x.name r.name)

  Distinct-over : (rs : List WalletRecord) → Distinct name_of rs → Distinct name_of (map over rs)
  Distinct-over [] h = tt
  Distinct-over (x ∷ xs) h =
      ground (arith, Distinct-over xs, Fresh-over x.name xs, eq_iff x.name r.name)

  Fresh-snoc :
      (k : String) (rs : List WalletRecord)
      → Fresh name_of k rs
      → r.name ≢ k
      → Fresh name_of k (rs ++ r ∷ [])
  Fresh-snoc k [] h n = (n, tt)
  Fresh-snoc k (x ∷ xs) h n = (h.0, Fresh-snoc k xs h.1 n)

  Distinct-snoc :
      (rs : List WalletRecord)
      → any (named r.name) rs ≡ false
      → Distinct name_of rs
      → Distinct name_of (rs ++ r ∷ [])
  Distinct-snoc [] a h = (tt, tt)
  Distinct-snoc (x ∷ xs) a h = (
    Fresh-snoc x.name xs h.0 (ground (arith, eq_iff x.name r.name)),
    Distinct-snoc xs (ground arith) h.1,
  )

  pub place-Distinct :
      (rs : List WalletRecord) → Distinct name_of rs → Distinct name_of (place r rs)
  unfolding place
  place-Distinct rs h = elim (Bool-cases (any (named r.name) rs)) [
    | inl old ↦ rw old (Distinct-over rs h)
    | inr new ↦ rw new (Distinct-snoc rs new h)
  ]

read_wallets-Ensures : Ensures WellNamed read_wallets (Distinct name_of)
unfolding read_wallets
read_wallets-Ensures = record { at = λ w h. (h, of_file w.wallets h) }
  where
    of_file :
        (f : StoreFile WalletRecord)
        → DistinctNames f
        → OnOk (Distinct name_of) (read_file unsupported_store f)
    of_file missing h = tt
    of_file unsupported h = tt
    of_file (stored rs) h = h

write_wallets-Keeps :
    (rs : List WalletRecord) → Distinct name_of rs → Keeps WellNamed (write_wallets rs)
unfolding write_wallets
write_wallets-Keeps rs h = record { at = λ w _. (h, tt) }

-- An action that leaves the store alone.
Keeps-untouched :
    {A : Type 0} (m : Op A) → ((w : World) → (m w).1.wallets ≡ w.wallets) → Keeps WellNamed m
Keeps-untouched m same = Keeps-of m (λ w h. subst DistinctNames (sym (same w)) h)

hot_key-Keeps : (c : Call) → Keeps WellNamed (hot_key c)
unfolding hot_key
hot_key-Keeps c = Keeps-untouched (hot_key c) (λ w. refl)

resolve_new_wallet_key-Keeps :
    (c : Call) (given : Option Text) (allow : Bool)
    → Keeps WellNamed (resolve_new_wallet_key c given allow)
unfolding resolve_new_wallet_key local_key ◌>>=◌
resolve_new_wallet_key-Keeps c given allow = Keeps-untouched _ (λ w. ground arith)

resolve_wallet_key-Keeps :
    (c : Call) (r : WalletRecord) (given : Option Text)
    → Keeps WellNamed (resolve_wallet_key c r given)
unfolding resolve_wallet_key local_key lift
resolve_wallet_key-Keeps c r given = Keeps-untouched _ (λ w. ground arith)

ruleset wallet_rules =
    (keeps_rules, hot_key-Keeps, resolve_new_wallet_key-Keeps, resolve_wallet_key-Keeps)

create_policy-Keeps :
    (v : Vault) (c : Call) (m most : Text) (daily : Option Text)
    → Keeps WellNamed (create_policy v c m most daily)
unfolding create_policy
create_policy-Keeps v c m most daily = search wallet_rules

asked_policy-Keeps :
    (v : Vault) (c : Call) (m : Text) (a : Option LowValueArgs)
    → Keeps WellNamed (asked_policy v c m a)
unfolding asked_policy
asked_policy-Keeps v c m none = search wallet_rules
asked_policy-Keeps v c m (some a) = search (wallet_rules, create_policy-Keeps)

-- A block that begins with a read of the store.
reading-Keeps :
    {A : Type 0} (f : List WalletRecord → Op A)
    → ((rs : List WalletRecord) → Distinct name_of rs → Keeps WellNamed (f rs))
    → Keeps WellNamed (read_wallets >>= f)
reading-Keeps f h = Ensures-bind read_wallets f read_wallets-Ensures h

-- A block that goes on with the wallet that was looked for.
found-Keeps :
    {A : Type 0} (n : String) (rs : List WalletRecord) (f : WalletRecord → Op A)
    → ((r : WalletRecord) → r.name ≡ n → Keeps WellNamed (f r))
    → Keeps WellNamed (lift (of_option not_found (find (named n) rs)) >>= f)
found-Keeps n rs f h =
    Ensures-bind (lift (of_option not_found (find (named n) rs))) f (Ensures-lift _)
      λ r e. h r (find-key name_of n rs r (ground arith))

rewrite-Keeps :
    (n : String) (r : WalletRecord) (rs : List WalletRecord)
    → r.name ≡ n
    → Distinct name_of rs
    → Keeps WellNamed (write_wallets (put_first (named n) r rs))
rewrite-Keeps n r rs e d = write_wallets-Keeps _ (put_first-Distinct name_of n r rs e d)

insert_wallet-Keeps :
    (v : Vault) (c : Call) (args : CreateArgs) (m a : Text) (p : Protection × Text)
    (rs : List WalletRecord)
    → Distinct name_of rs
    → Keeps WellNamed (insert_wallet v c args m a p rs)
unfolding insert_wallet
insert_wallet-Keeps v c args m a p rs d = search (
  wallet_rules,
  asked_policy-Keeps,
  λ (r : WalletRecord). write_wallets-Keeps (place r rs) (place-Distinct r rs d),
)

add_with_key-Keeps :
    (v : Vault) (c : Call) (args : CreateArgs) (m a : Text) (p : Protection × Text)
    → Keeps WellNamed (add_with_key v c args m a p)
unfolding add_with_key
add_with_key-Keeps v c args m a p =
    reading-Keeps _ λ rs d. Keeps-if _ _ _ (Keeps-raise _) (insert_wallet-Keeps v c args m a p rs d)

add_wallet-Keeps :
    (v : Vault) (c : Call) (args : CreateArgs) (m : Text) (a : Result WalletError Text)
    → Keeps WellNamed (add_wallet v c args m a)
unfolding add_wallet
add_wallet-Keeps v c args m a = search (wallet_rules, add_with_key-Keeps)

pub create_wallet-Keeps :
    (v : Vault) (c : Call) (args : CreateArgs) (m : Text)
    → Keeps WellNamed (create_wallet v c args m)
unfolding create_wallet
create_wallet-Keeps v c args m = add_wallet-Keeps v c args m _

pub import_wallet-Keeps :
    (v : Vault) (c : Call) (args : CreateArgs) (m : Text)
    → Keeps WellNamed (import_wallet v c args m)
unfolding import_wallet
import_wallet-Keeps v c args m = add_wallet-Keeps v c args m _

pub configure-Keeps :
    (v : Vault) (c : Call) (n : String) (given : Option Text) (enabled : Bool)
    (most daily : Option Text)
    → Keeps WellNamed (configure_low_value_policy v c n given enabled most daily)
unfolding configure_low_value_policy
configure-Keeps v c n given enabled most daily = reading-Keeps _ λ rs d. found-Keeps n rs _ λ r e.
    search
      (
        wallet_rules,
        create_policy-Keeps,
        λ (p : Option LowValuePolicy). rewrite-Keeps n (record r { low_value = p }) rs e d,
      )
      depth 9

pub update_agent-Keeps :
    (c : Call) (n : String) (patch : AgentPatch)
    → Keeps WellNamed (update_agent_wallet_metadata c n patch)
unfolding update_agent_wallet_metadata
update_agent-Keeps c n patch =
    reading-Keeps _
      λ rs d. found-Keeps n rs _ λ r e. search (wallet_rules, rewrite-Keeps n _ rs e d)

pub delete_wallet-Keeps : (n confirm : String) → Keeps WellNamed (delete_wallet n confirm)
unfolding delete_wallet
delete_wallet-Keeps n confirm =
    Keeps-if _ _ _
      (reading-Keeps _ λ rs d.
        Keeps-if _ _ _ (Keeps-raise _)
          (write_wallets-Keeps _ (keep-Distinct name_of (λ w. not (named n w)) rs d)))
      (Keeps-raise _)

write_policy-Keeps :
    (c : Call) (n : String) (rs : List WalletRecord) (r : WalletRecord) (q : LowValuePolicy)
    → r.name ≡ n
    → Distinct name_of rs
    → Keeps WellNamed (write_policy c n rs r q)
unfolding write_policy
write_policy-Keeps c n rs r q e d =
    Keeps-bind _ _ (rewrite-Keeps n (record r { low_value = some q }) rs e d)
      λ _. Keeps-bind _ _ (Keeps-lift _) λ summary. Keeps-pure _

change_found-Keeps :
    (c : Call) (n : String) (f : LowValuePolicy → Result PolicyError LowValuePolicy)
    (rs : List WalletRecord) (o : Option (WalletRecord × LowValuePolicy))
    → Distinct name_of rs
    → ((r : WalletRecord) (p : LowValuePolicy) → o ≡ some (r, p) → r.name ≡ n)
    → Keeps WellNamed (change_found c n f rs o)
unfolding change_found
change_found-Keeps c n f rs none d h = Keeps-pure none
change_found-Keeps c n f rs (some (r, p)) d h =
    Keeps-bind _ _ (Keeps-lift _) λ q. write_policy-Keeps c n rs r q (h r p refl) d

with_policy-eq_some :
    (x r : WalletRecord) (o : Option LowValuePolicy) (p : LowValuePolicy)
    → with_policy x o ≡ some (r, p)
    → (x ≡ r) × (o ≡ some p)
with_policy-eq_some x r none p e = cc
with_policy-eq_some x r (some q) p e =
    let same = some-injective _ _ e in
    (
      ap (λ (t : WalletRecord × LowValuePolicy). t.0) same,
      ap (λ (t : WalletRecord × LowValuePolicy). some t.1) same,
    )

pub policy_of-eq_some :
    (o : Option WalletRecord) (r : WalletRecord) (p : LowValuePolicy)
    → policy_of o ≡ some (r, p)
    → (o ≡ some r) × (r.low_value ≡ some p)
policy_of-eq_some none r p e = cc
policy_of-eq_some (some x) r p e =
    let (same, stands) = with_policy-eq_some x r x.low_value p e in
    (ap some same, sym (ap (λ (w : WalletRecord). w.low_value) same) ∙ stands)

change_policy-Keeps :
    (c : Call) (n : String) (f : LowValuePolicy → Result PolicyError LowValuePolicy)
    → Keeps WellNamed (change_policy c n f)
unfolding change_policy
change_policy-Keeps c n f = reading-Keeps _ λ rs d.
    change_found-Keeps c n f rs _ d
      λ r p e. find-key name_of n rs r (policy_of-eq_some (find (named n) rs) r p e).0

pub record_low_value_spend-Keeps :
    (c : Call) (n : String) (units : ℕ) → Keeps WellNamed (record_low_value_spend c n units)
unfolding record_low_value_spend
record_low_value_spend-Keeps c n units = change_policy-Keeps c n _

pub move_low_value_accounting-Keeps :
    (c : Call) (n : String) (amount : Text) (from to : Bucket)
    → Keeps WellNamed (move_low_value_accounting c n amount from to)
unfolding move_low_value_accounting
move_low_value_accounting-Keeps c n amount from to =
    Keeps-bind _ _ (Keeps-lift _) λ units. change_policy-Keeps c n _

-- A call of one of the operations that write the store.
pub data Request : Type 0 where
  create import : Call → CreateArgs → (mnemonic : Text) → Request
  configure : Call → String → Option Text → Bool → (most daily : Option Text) → Request
  update_agent : Call → String → AgentPatch → Request
  delete : (name confirm : String) → Request
  spend : Call → String → ℕ → Request
  move : Call → String → Text → (from to : Bucket) → Request

-- The files after a call, whether it returns or throws.
pub handle : Vault → Request → World → World
handle v (create c args m) w = (create_wallet v c args m w).1
handle v (import c args m) w = (import_wallet v c args m w).1
handle v (configure c n given enabled most daily) w =
    (configure_low_value_policy v c n given enabled most daily w).1
handle v (update_agent c n patch) w = (update_agent_wallet_metadata c n patch w).1
handle v (delete n confirm) w = (delete_wallet n confirm w).1
handle v (spend c n units) w = (record_low_value_spend c n units w).1
handle v (move c n amount from to) w = (move_low_value_accounting c n amount from to w).1

pub serve : Vault → List Request → World → World
serve v [] w = w
serve v (q ∷ qs) w = serve v qs (handle v q w)

handle-WellNamed : (v : Vault) (q : Request) (w : World) → WellNamed w → WellNamed (handle v q w)
unfolding handle
handle-WellNamed v (create c args m) w h = ((create_wallet-Keeps v c args m).at w h).0
handle-WellNamed v (import c args m) w h = ((import_wallet-Keeps v c args m).at w h).0
handle-WellNamed v (configure c n given enabled most daily) w h =
    ((configure-Keeps v c n given enabled most daily).at w h).0
handle-WellNamed v (update_agent c n patch) w h = ((update_agent-Keeps c n patch).at w h).0
handle-WellNamed v (delete n confirm) w h = ((delete_wallet-Keeps n confirm).at w h).0
handle-WellNamed v (spend c n units) w h = ((record_low_value_spend-Keeps c n units).at w h).0
handle-WellNamed v (move c n amount from to) w h =
    ((move_low_value_accounting-Keeps c n amount from to).at w h).0

-- Whatever operations are called, and whichever of them throw, a store with distinct names keeps
-- distinct names.
pub serve-WellNamed :
    (v : Vault) (qs : List Request) (w : World) → WellNamed w → WellNamed (serve v qs w)
unfolding serve
serve-WellNamed v [] w h = h
serve-WellNamed v (q ∷ qs) w h = serve-WellNamed v qs (handle v q w) (handle-WellNamed v q w h)
