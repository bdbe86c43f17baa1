-- ===== src/LowValue/Ledger.antt =====
-- The accounting of src/wallet.ts as numbers: a policy's buckets on a day, and the arithmetic of the
-- operations on them.
use lyth_mcp.Prelude.{
  str_eq_refl, ℕ, ◌+◌, ◌-◌, String, ◌≡◌, refl, sym, ◌∙◌, true, inl, inr, Option, some, arith, ltb,
  if◌then◌else◌, or_else, ok, Bool-cases,
}
use lyth_mcp.Amount.{Text, decimal_to_units}
use lyth_mcp.Amount.RoundTrip.{decimal_to_units-units_to_decimal}
use lyth_mcp.LowValue.{
  LowValuePolicy, Bucket, reserved, submitted, confirmed, failed, expired, units_of, text_of,
  zero_text, is_day, reserved_text, reset_day_if_needed, locked_units, bucket_text, set_bucket,
  record_spend, move_between,
}

pub record Ledger : Type 0 where
  pub reserved_units : ℕ
  pub submitted_units : ℕ
  pub confirmed_units : ℕ
  pub failed_units : ℕ
  pub expired_units : ℕ

-- What counts against the daily limit.
abbrev pub locked : Ledger → ℕ
locked l = l.reserved_units + l.submitted_units + l.confirmed_units

-- All that was ever reserved on the day.
abbrev pub total : Ledger → ℕ
total l = locked l + l.failed_units + l.expired_units

truncated_sub : (a n : ℕ) → (if ltb n a then a - n else 0) ≡ a - n
truncated_sub a n = ground arith

abbrev pub entry : Bucket → Ledger → ℕ
entry reserved l = l.reserved_units
entry submitted l = l.submitted_units
entry confirmed l = l.confirmed_units
entry failed l = l.failed_units
entry expired l = l.expired_units

abbrev pub with_entry : Bucket → ℕ → Ledger → Ledger
with_entry reserved n l = record l { reserved_units = n }
with_entry submitted n l = record l { submitted_units = n }
with_entry confirmed n l = record l { confirmed_units = n }
with_entry failed n l = record l { failed_units = n }
with_entry expired n l = record l { expired_units = n }

-- The arithmetic of a move: what the first bucket lacks is not taken, the second gets all.
abbrev pub move_entries : ℕ → Bucket → Bucket → Ledger → Ledger
move_entries n from to l =
    let m = with_entry from (entry from l - n) l in with_entry to (entry to m + n) m

-- A bucket's text is there, and it is read as `n`.
abbrev pub Stands : Option Text → ℕ → Type 0
Stands o n = (t : Text) × (o ≡ some t) × (units_of t ≡ ok n)

-- The buckets of `p` are texts for the numbers `l`.
pub record Holds (p : LowValuePolicy) (l : Ledger) : Type 0 where
  pub reserved_holds : Stands p.reserved_today l.reserved_units
  pub submitted_holds : Stands p.submitted_today l.submitted_units
  pub confirmed_holds : Stands p.confirmed_today l.confirmed_units
  pub failed_holds : Stands p.failed_today l.failed_units
  pub expired_holds : Stands p.expired_today l.expired_units

-- They are so once the day is rolled over.
abbrev pub Reads : LowValuePolicy → String → Ledger → Type 0
Reads p today l = Holds (reset_day_if_needed p today) l

pub units_of-text_of : (n : ℕ) → units_of (text_of n) ≡ ok n
unfolding units_of text_of
units_of-text_of n = rw (decimal_to_units-units_to_decimal n 18 (omega arith), units_of)

pub units_of-zero : units_of zero_text ≡ ok 0
unfolding units_of decimal_to_units
units_of-zero = refl

abbrev pub IsCurrent : LowValuePolicy → String → Type 0
IsCurrent p today = is_day p.day today ≡ true

-- After the reset the policy stands at the day.
pub reset-IsCurrent :
    (p : LowValuePolicy) (today : String) → IsCurrent (reset_day_if_needed p today) today
unfolding reset_day_if_needed
reset-IsCurrent p today = ground (arith, str_eq_refl today)

locked_units-reset :
    (p : LowValuePolicy) (today : String)
    → locked_units (reset_day_if_needed p today) today ≡ locked_units p today
unfolding locked_units reset_day_if_needed
locked_units-reset p today = elim (Bool-cases (is_day p.day today)) [
  | inl same ↦ rw same (rw same refl)
  | inr other ↦ rw other (rw (str_eq_refl today) (rw units_of-zero refl))
]

-- In a policy that holds its buckets and stands at the day, the reset changes none of them.
reset-Holds :
    (p : LowValuePolicy) (today : String) (l : Ledger)
    → IsCurrent p today
    → Holds p l
    → Reads p today l
unfolding reset_day_if_needed
reset-Holds p today l c h = ground arith

module _ (p : LowValuePolicy) (l : Ledger) (h : Holds p l) where
  entry_holds : (b : Bucket) → units_of (or_else (bucket_text b p) zero_text) ≡ ok (entry b l)
  unfolding bucket_text
  entry_holds reserved = ground arith
  entry_holds _ = ground arith

  set_bucket-Holds : (b : Bucket) (n : ℕ) → Holds (set_bucket b (text_of n) p) (with_entry b n l)
  unfolding set_bucket
  set_bucket-Holds reserved n = ground (arith, units_of-text_of n)
  set_bucket-Holds _ n = ground (arith, units_of-text_of n)

  reserved_text_holds : units_of (reserved_text p) ≡ ok l.reserved_units
  reserved_text_holds = ground arith

  locked_holds : (today : String) → IsCurrent p today → locked_units p today ≡ ok (locked l)
  unfolding locked_units bucket_text
  locked_holds today c = rw (c, reserved_text_holds, entry_holds submitted, entry_holds confirmed)

-- What the accounting leaves alone.
pub record SameTerms (p q : LowValuePolicy) : Type 0 where
  pub same_enabled : q.enabled ≡ p.enabled
  pub same_max : q.max_amount ≡ p.max_amount
  pub same_limit : q.daily_limit ≡ p.daily_limit

reset-SameTerms : (p : LowValuePolicy) (today : String) → SameTerms p (reset_day_if_needed p today)
unfolding reset_day_if_needed
reset-SameTerms p today = ground arith

set_bucket-SameTerms :
    (b : Bucket) (t : Text) (p q : LowValuePolicy) → SameTerms p q → SameTerms p (set_bucket b t q)
unfolding set_bucket
set_bucket-SameTerms reserved t p q h = ground arith
set_bucket-SameTerms _ t p q h = ground arith

set_bucket-IsCurrent :
    (b : Bucket) (t : Text) (p : LowValuePolicy) (today : String)
    → IsCurrent p today
    → IsCurrent (set_bucket b t p) today
unfolding set_bucket
set_bucket-IsCurrent reserved t p today c = c
set_bucket-IsCurrent _ t p today c = c

-- `spentToday` is a copy that no reader of the buckets looks at.
abbrev with_spent : LowValuePolicy → Text → LowValuePolicy
with_spent p t = record p { spent_today = some t }

with_spent-SameTerms :
    (p q : LowValuePolicy) (t : Text) → SameTerms p q → SameTerms p (with_spent q t)
with_spent-SameTerms p q t h = ground arith

with_spent-Reads :
    (p : LowValuePolicy) (t : Text) (today : String) (l : Ledger)
    → IsCurrent p today
    → Holds p l
    → Reads (with_spent p t) today l
with_spent-Reads p t today l c h = reset-Holds (with_spent p t) today l c (record {
  reserved_holds = h.reserved_holds;
  submitted_holds = h.submitted_holds;
  confirmed_holds = h.confirmed_holds;
  failed_holds = h.failed_holds;
  expired_holds = h.expired_holds;
})

module _ (p : LowValuePolicy) (today : String) (l : Ledger) (h : Reads p today l) where
  -- What counts against the limit is the sum of three buckets.
  pub locked_units-Reads : locked_units p today ≡ ok (locked l)
  locked_units-Reads =
      sym (locked_units-reset p today)
      ∙ locked_holds (reset_day_if_needed p today) l h today (reset-IsCurrent p today)

  -- A low-value signature adds its amount to the reserved bucket, and changes nothing else.
  pub record_spend-Reads :
      (n : ℕ)
      → (q : LowValuePolicy) × (record_spend p n today ≡ ok q)
        × SameTerms p q
        × Reads q today (record l { reserved_units = l.reserved_units + n })
  unfolding record_spend set_bucket
  record_spend-Reads n =
      let p0 = reset_day_if_needed p today in
      let t = text_of (l.reserved_units + n) in
      let q = set_bucket reserved t p0 in
      (
        with_spent q t,
        rw (reserved_text_holds p0 l h) refl,
        with_spent-SameTerms p q t (set_bucket-SameTerms reserved t p p0 (reset-SameTerms p today)),
        with_spent-Reads q t today (with_entry reserved (l.reserved_units + n) l)
            (set_bucket-IsCurrent reserved t p0 today (reset-IsCurrent p today))
            (set_bucket-Holds p0 l h reserved (l.reserved_units + n)),
      )

  -- A move takes its amount out of one bucket, as far as it is there, and adds it to the other.
  pub move_between-Reads :
      (n : ℕ) (from to : Bucket)
      → (q : LowValuePolicy) × (move_between p n from to today ≡ ok q)
        × SameTerms p q
        × Reads q today (move_entries n from to l)
  unfolding move_between
  move_between-Reads n from to =
      let p0 = reset_day_if_needed p today in
      let c0 = reset-IsCurrent p today in
      let left = entry from l - n in
      let q = set_bucket from (text_of left) p0 in
      let m = with_entry from left l in
      let cq = set_bucket-IsCurrent from (text_of left) p0 today c0 in
      let hq = set_bucket-Holds p0 l h from left in
      let r = set_bucket to (text_of (entry to m + n)) q in
      let cr = set_bucket-IsCurrent to (text_of (entry to m + n)) q today cq in
      let hr = set_bucket-Holds q m hq to (entry to m + n) in
      let moved = move_entries n from to l in
      (
        with_spent r (text_of (locked moved)),
        rw
            (
              entry_holds p0 l h from,
              truncated_sub (entry from l) n,
              entry_holds q m hq to,
              locked_holds r moved hr today cr,
            )
            refl,
        with_spent-SameTerms p r (text_of (locked moved)) (
            set_bucket-SameTerms to (text_of (entry to m + n)) p q
              (set_bucket-SameTerms from (text_of left) p p0 (reset-SameTerms p today))),
        with_spent-Reads r (text_of (locked moved)) today moved cr hr,
      )
