-- ===== src/LowValue/Limit.antt =====
-- The caps of a low-value policy, `assertLowValueAllowed` of src/wallet.ts, and the days of an agent.
use lyth_mcp.Prelude.{
  ok-injective, ℕ, ◌+◌, ◌≤◌, ◌<◌, String, ◌≡◌, ◌≢◌, ◌↔◌, ◌⊎◌, refl, sym, ap, ◌∙◌, Bool, true, false,
  none, some, if◌then◌else◌, arith, ltb, ok, err,
}
use lyth_mcp.Amount.{Text}
use lyth_mcp.LowValue.{
  LowValuePolicy, Bucket, submitted, failed, expired, units_of, truthy, over_max_amount,
  over_daily_limit, locked_units, assert_low_value_allowed, record_spend, move_between,
}
use lyth_mcp.LowValue.Ledger.{
  Ledger, locked, total, SameTerms, entry, move_entries, Reads, locked_units-Reads,
  record_spend-Reads, move_between-Reads,
}

-- The caps of `p`, as numbers: per signature, and per day.
pub record HasCaps (p : LowValuePolicy) (most daily : ℕ) : Type 0 where
  pub limit_text : Text
  pub max_reads : units_of p.max_amount ≡ ok most
  pub limit_stands : truthy p.daily_limit ≡ some limit_text
  pub limit_reads : units_of limit_text ≡ ok daily

module _ (p : LowValuePolicy) (today : String) (l : Ledger) (most daily : ℕ) (n : ℕ) where
  assert_runs :
      HasCaps p most daily
      → Reads p today l
      → assert_low_value_allowed p n today ≡ (
          if ltb most n
          then err over_max_amount
          else if ltb daily (locked l + n)
          then err over_daily_limit
          else ok tt)
  unfolding assert_low_value_allowed
  assert_runs caps h =
      rw (caps.max_reads, caps.limit_stands, locked_units-Reads p today l h, caps.limit_reads) refl

  -- Signing without a passphrase is allowed exactly if the amount is within the cap for one
  -- signature, and with what is locked on that day within the cap for the day.
  pub assert_low_value_allowed_iff :
      HasCaps p most daily
      → Reads p today l
      → (assert_low_value_allowed p n today ≡ ok tt) ↔ ((n ≤ most) × (locked l + n ≤ daily))
  assert_low_value_allowed_iff caps h = rw (assert_runs caps h) (ground arith)

-- A policy without a daily limit is checked against the cap for one signature alone.
pub assert-without_limit :
    (p : LowValuePolicy) (today : String) (most n : ℕ)
    → units_of p.max_amount ≡ ok most
    → truthy p.daily_limit ≡ none
    → (assert_low_value_allowed p n today ≡ ok tt) ↔ (n ≤ most)
unfolding assert_low_value_allowed
assert-without_limit p today most n m none_set = rw (m, none_set) (ground arith)

-- The cap for one signature can be read, and the daily limit too unless there is none.
abbrev pub MayHaveCaps : LowValuePolicy → ℕ → ℕ → Type 0
MayHaveCaps p most daily =
    HasCaps p most daily ⊎ ((units_of p.max_amount ≡ ok most) × (truthy p.daily_limit ≡ none))

-- The buckets that count against the limit.
abbrev pub counts : Bucket → Bool
counts failed = false
counts expired = false
counts _ = true

-- A move out of a bucket that counts locks no more than before, if the bucket has the amount.
locked-move_entries :
    (n : ℕ) (from to : Bucket) (l : Ledger)
    → counts from ≡ true
    → n ≤ entry from l
    → locked (move_entries n from to l) ≤ locked l
locked-move_entries n from to l c h = ground arith

-- A move out of a bucket that has the amount loses nothing and makes nothing.
pub total-move_entries :
    (n : ℕ) (from to : Bucket) (l : Ledger)
    → n ≤ entry from l
    → total (move_entries n from to l) ≡ total l
total-move_entries n from to l h = ground arith

-- At the store's end: after a move of an amount that is there, the five buckets are read as a
-- ledger with the same total, in which one is `n` less and the other `n` more.
pub move_between-total :
    (p : LowValuePolicy) (today : String) (l : Ledger) (n : ℕ) (from to : Bucket)
    → Reads p today l
    → n ≤ entry from l
    → from ≢ to
    → (q : LowValuePolicy) × (m : Ledger) × (move_between p n from to today ≡ ok q)
      × Reads q today m
      × (total m ≡ total l)
      × (entry from m + n ≡ entry from l)
      × (entry to m ≡ entry to l + n)
move_between-total p today l n from to h enough apart =
    let (q, e, same, reads) = move_between-Reads p today l h n from to in
    (
      q,
      move_entries n from to l,
      e,
      reads,
      total-move_entries n from to l enough,
      ground arith,
      ground arith,
    )

-- One operation on the accounting of a day: a signature that passed the check, or a move of an
-- amount that is there out of a bucket that counts.
pub data Step (today : String) : LowValuePolicy → LowValuePolicy → Type 0 where
  sign :
      {p q : LowValuePolicy} (n : ℕ)
      → assert_low_value_allowed p n today ≡ ok tt
      → record_spend p n today ≡ ok q
      → Step today p q
  settle :
      {p q : LowValuePolicy} (n : ℕ) (from to : Bucket) (l : Ledger)
      → counts from ≡ true
      → Reads p today l
      → n ≤ entry from l
      → move_between p n from to today ≡ ok q
      → Step today p q

pub data Reach (today : String) (p : LowValuePolicy) : LowValuePolicy → Type 0 where
  here : Reach today p p
  next : {q r : LowValuePolicy} → Reach today p q → Step today q r → Reach today p r

-- The caps stand, and what is locked on the day is within the daily limit.
pub record WithinLimit (today : String) (most daily : ℕ) (p : LowValuePolicy) : Type 0 where
  pub ledger : Ledger
  pub caps : HasCaps p most daily
  pub reads : Reads p today ledger
  pub within : locked ledger ≤ daily

HasCaps-SameTerms :
    (p q : LowValuePolicy) (most daily : ℕ)
    → SameTerms p q
    → HasCaps p most daily
    → HasCaps q most daily
HasCaps-SameTerms p q most daily same caps = record {
  limit_text = caps.limit_text;
  max_reads = ap units_of same.same_max ∙ caps.max_reads;
  limit_stands = ap truthy same.same_limit ∙ caps.limit_stands;
  limit_reads = caps.limit_reads;
}

module _ {today : String} {most daily : ℕ} where
  sign-WithinLimit :
      {p q : LowValuePolicy} (n : ℕ)
      → assert_low_value_allowed p n today ≡ ok tt
      → record_spend p n today ≡ ok q
      → WithinLimit today most daily p
      → WithinLimit today most daily q
  sign-WithinLimit {p} {q} n allowed e h =
      let (q', e', same, reads) = record_spend-Reads p today h.ledger h.reads n in
      let fits =
        (assert_low_value_allowed_iff p today h.ledger most daily n h.caps h.reads).0 allowed in
      rw (ok-injective (sym e ∙ e')) (record {
        ledger = record h.ledger { reserved_units = h.ledger.reserved_units + n };
        caps = HasCaps-SameTerms p q' most daily same h.caps;
        reads = reads;
        within = omega arith;
      })

  settle-WithinLimit :
      {p q : LowValuePolicy} (n : ℕ) (from to : Bucket) (l : Ledger)
      → counts from ≡ true
      → Reads p today l
      → n ≤ entry from l
      → move_between p n from to today ≡ ok q
      → WithinLimit today most daily p
      → WithinLimit today most daily q
  settle-WithinLimit {p} {q} n from to l c r enough e h =
      let (q', e', same, reads) = move_between-Reads p today l r n from to in
      let same_locked : locked l ≡ locked h.ledger =
        ok-injective
          (sym (locked_units-Reads p today l r) ∙ locked_units-Reads p today h.ledger h.reads) in
      rw (ok-injective (sym e ∙ e')) (record {
        ledger = move_entries n from to l;
        caps = HasCaps-SameTerms p q' most daily same h.caps;
        reads = reads;
        within = omega (arith, locked-move_entries n from to l c enough, h.within);
      })

  Step-WithinLimit :
      {p q : LowValuePolicy}
      → Step today p q
      → WithinLimit today most daily p
      → WithinLimit today most daily q
  Step-WithinLimit (sign n allowed e) h = sign-WithinLimit n allowed e h
  Step-WithinLimit (settle n from to l c r enough e) h =
      settle-WithinLimit n from to l c r enough e h

-- However often an agent signs on a day, and however its transactions fare, what is locked stays
-- within the daily limit.
pub Reach-WithinLimit :
    {today : String} {most daily : ℕ} {p q : LowValuePolicy}
    → Reach today p q
    → WithinLimit today most daily p
    → WithinLimit today most daily q
Reach-WithinLimit here h = h
Reach-WithinLimit (next r s) h = Step-WithinLimit s (Reach-WithinLimit r h)

-- Out of the expired bucket a move is not held to the limit: an amount that would pass it is locked
-- all the same.
pub move_expired-over_limit :
    (p : LowValuePolicy) (today : String) (l : Ledger) (daily n : ℕ)
    → Reads p today l
    → daily < locked l + n
    → (q : LowValuePolicy) × (m : Ledger) × (move_between p n expired submitted today ≡ ok q)
      × Reads q today m
      × (locked_units q today ≡ ok (locked m))
      × (daily < locked m)
move_expired-over_limit p today l daily n h over =
    let (q, e, same, reads) = move_between-Reads p today l h n expired submitted in
    (
      q,
      move_entries n expired submitted l,
      e,
      reads,
      locked_units-Reads q today _ reads,
      omega arith,
    )
