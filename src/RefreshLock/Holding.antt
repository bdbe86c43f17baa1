-- ===== src/RefreshLock/Holding.antt =====
-- When the operation of `runExclusive` of src/stele/oauth-refresh-lock.ts runs.
use lyth_mcp.Prelude.{
  ℕ, zero, suc, ◌+◌, ◌*◌, ◌≤◌, ◌<◌, ◌≡◌, refl, sym, ap, ◌∙◌, ◌⊎◌, inl, inr, Bool, true, false, not,
  Option, none, some, leb, arith, if◌then◌else◌, Result, ok, err, dec_lt,
}
use lyth_mcp.RefreshLock.{
  integer, LockError, lock_unavailable, max_safe, checked_monotonic, Lock, Binding, bound, in_use,
  bind_failed, Kernel, checked_time, Acquired, go_on, by_binding, acquire, of_lock, operated,
  under_lock, run_from, run_exclusive,
}
use lyth_mcp.RefreshLock.Waiting.{checked_time-inv, checked_monotonic-inv}

-- The bind number `n` is the first one from `m` on that finds the port free.
abbrev pub FirstBound : Kernel → ℕ → ℕ → Type 0
FirstBound k m n =
    (m ≤ n) × (k.binding n ≡ bound) × ((i : ℕ) → m ≤ i → i < n → k.binding i ≡ in_use)

-- Its last reading was before the deadline.
abbrev pub InTime : Kernel → ℕ → ℕ → Type 0
InTime k deadline n = (t : ℕ) × (k.reading (2 * n) ≡ integer t) × (t < deadline)

some-ok-injective :
    {A E : Type 0} {a b : A} → ◌≡◌ {A = Option (Result E A)} (some (ok a)) (some (ok b)) → a ≡ b
some-ok-injective e = cc

by_binding-inv :
    (k : Kernel) (m n : ℕ) (waiting : Acquired)
    → by_binding (k.binding m) m waiting ≡ some (ok n)
    → ((k.binding m ≡ bound) × (m ≡ n)) ⊎ ((k.binding m ≡ in_use) × (waiting ≡ some (ok n)))
by_binding-inv k m n waiting e = split (k.binding m) e
  where
    split :
        (b : Binding)
        → by_binding b m waiting ≡ some (ok n)
        → ((b ≡ bound) × (m ≡ n)) ⊎ ((b ≡ in_use) × (waiting ≡ some (ok n)))
    split bound e = inl (refl, some-ok-injective e)
    split in_use e = inr (refl, e)
    split bind_failed e = absurd (cc)

go_on-inv :
    (r : Result LockError ℕ) (next : ℕ → Acquired) (n : ℕ)
    → go_on r next ≡ some (ok n)
    → (now : ℕ) × (r ≡ ok now) × (next now ≡ some (ok n))
go_on-inv (err x) next n e = absurd (cc)
go_on-inv (ok now) next n e = (now, refl, e)

pub at_or_after : (m i : ℕ) → m ≤ i → (i ≡ m) ⊎ (suc m ≤ i)
at_or_after m i h = elim (dec_lt m i) [
  | yes p ↦ inr (omega (arith, p))
  | no p ↦ inl (omega (arith, h, p))
]

FirstBound-suc :
    (k : Kernel) (m n : ℕ) → k.binding m ≡ in_use → FirstBound k (suc m) n → FirstBound k m n
FirstBound-suc k m n busy (le, free, before) = (
  omega (arith, le),
  free,
  λ i p q. elim (at_or_after m i p) [ inl same ↦ rw same busy | inr later ↦ before i later q ],
)

pub even_suc : (m : ℕ) → 2 * suc m ≡ 2 * m + 2
even_suc m = omega arith

acquire-FirstBound :
    (k : Kernel) (deadline fuel m previous n : ℕ)
    → InTime k deadline m
    → acquire k deadline fuel m previous ≡ some (ok n)
    → FirstBound k m n × InTime k deadline n
unfolding acquire
acquire-FirstBound k deadline zero m previous n early e = absurd (cc)
acquire-FirstBound k deadline (suc fuel) m previous n early e = elim (by_binding-inv k m n _ e) [
  | inl (free, same) ↦
      rw (sym same) (((omega arith, free, λ i p q. absurd (omega (arith, p, q))), early))
  | inr (busy, e1) ↦
      let (current, _, e2) =
        go_on-inv (checked_time deadline previous (k.reading (2 * m + 1))) _ n e1 in
      let (retry, r, e3) =
        go_on-inv (checked_time deadline current (k.reading (2 * m + 2))) _ n e2 in
      let (read, _, soon) = checked_time-inv deadline current retry (k.reading (2 * m + 2)) r in
      let (first, late) =
        acquire-FirstBound k deadline fuel (suc m) retry n
          (retry, ap k.reading (even_suc m) ∙ read, soon) e3 in
      (FirstBound-suc k m n busy first, late)
]

some-injective : {A : Type 0} {a b : A} → some a ≡ some b → a ≡ b
some-injective e = cc

module _ {X T : Type 0} where
  operated-inv :
      (closes : Bool) (r r' : Result X T)
      → operated closes r ≡ operated true r'
      → (closes ≡ true) × (r ≡ r')
  operated-inv false r (ok t) e = absurd (cc)
  operated-inv false r (err x) e = absurd (cc)
  operated-inv true (ok s) (ok t) e = (refl, cc)
  operated-inv true (ok s) (err x) e = absurd (cc)
  operated-inv true (err y) (ok t) e = absurd (cc)
  operated-inv true (err y) (err x) e = (refl, cc)

  not_locked :
      (x : LockError) (r : Result X T) → some (err (of_lock x)) ≡ some (operated true r) → ⊥
  not_locked x (ok t) e = cc
  not_locked x (err y) e = cc

  under_lock-inv :
      (k : Kernel) (operation : ℕ → Result X T) (o : Acquired) (r : Result X T)
      → under_lock k operation o ≡ some (operated true r)
      → (n : ℕ) × (o ≡ some (ok n)) × (operation n ≡ r)
  under_lock-inv k operation none r e = absurd (cc)
  under_lock-inv k operation (some (err x)) r e = absurd (not_locked x r e)
  under_lock-inv k operation (some (ok n)) r e =
      (n, refl, (operated-inv (k.closes n) (operation n) r (some-injective e)).1)

  -- If `runExclusive` ends as the operation does, by a value or by the operation's own error, then the
  -- operation ran under the first bind that found the port free, every bind before it found the port
  -- in use, and the clock was last read before the deadline.
  pub run_exclusive-FirstBound :
      (l : Lock) (k : Kernel) (fuel : ℕ) (operation : ℕ → Result X T) (r : Result X T)
      → 0 < l.wait_timeout
      → run_exclusive l k fuel operation ≡ some (operated true r)
      → (started_at n : ℕ) × (k.reading 0 ≡ integer started_at)
        × (operation n ≡ r)
        × FirstBound k 0 n
        × InTime k (started_at + l.wait_timeout) n
  unfolding run_exclusive
  run_exclusive-FirstBound l k fuel operation r waits e =
      from_start (checked_monotonic (k.reading 0)) refl e
    where
      from_start :
          (s : Result LockError ℕ)
          → checked_monotonic (k.reading 0) ≡ s
          → run_from l k fuel operation s ≡ some (operated true r)
          → (started_at n : ℕ) × (k.reading 0 ≡ integer started_at)
            × (operation n ≡ r)
            × FirstBound k 0 n
            × InTime k (started_at + l.wait_timeout) n
      from_start (err x) s e = absurd (not_locked x r e)
      from_start (ok at) s e = within (leb (at + l.wait_timeout) max_safe) e
        where
          begun : k.reading 0 ≡ integer at
          begun = checked_monotonic-inv (k.reading 0) at s

          held :
              (n : ℕ) × (acquire k (at + l.wait_timeout) fuel 0 at ≡ some (ok n))
                × (operation n ≡ r)
              → (started_at n : ℕ) × (k.reading 0 ≡ integer started_at)
                × (operation n ≡ r)
                × FirstBound k 0 n
                × InTime k (started_at + l.wait_timeout) n
          held (n, got, ran) =
              let (first, late) =
                acquire-FirstBound k (at + l.wait_timeout) fuel 0 at n
                  (at, begun, omega (arith, waits)) got in
              (at, n, begun, ran, first, late)

          within :
              (b : Bool)
              → (if not b
                  then some (err (of_lock lock_unavailable))
                  else under_lock k operation (acquire k (at + l.wait_timeout) fuel 0 at))
                ≡ some (operated true r)
              → (started_at n : ℕ) × (k.reading 0 ≡ integer started_at)
                × (operation n ≡ r)
                × FirstBound k 0 n
                × InTime k (started_at + l.wait_timeout) n
          within false e = absurd (not_locked lock_unavailable r e)
          within true e =
              held (under_lock-inv k operation (acquire k (at + l.wait_timeout) fuel 0 at) r e)
