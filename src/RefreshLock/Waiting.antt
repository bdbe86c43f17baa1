-- ===== src/RefreshLock/Waiting.antt =====
-- The loop of `runExclusive` of src/stele/oauth-refresh-lock.ts ends.
use lyth_mcp.Prelude.{
  ℕ, zero, suc, ◌+◌, ◌-◌, ◌*◌, ◌≤◌, ◌<◌, min, ◌≡◌, refl, Bool, true, false, Option, none, some, leb,
  arith, if◌then◌else◌, Result, ok, err, then_result, ok-injective, or_else, not,
}
use lyth_mcp.RefreshLock.{
  Number, integer, other_number, LockError, lock_unavailable, max_safe, checked_monotonic,
  bounded_integer, Lock, LockOptions, new_lock, Binding, bound, in_use, bind_failed, Kernel,
  checked_time, pause, Acquired, go_on, by_binding, acquire, of_lock, under_lock, run_from,
  run_exclusive,
}

-- A reading that passed is an integer, not before the previous one and before the deadline.
pub checked_time-inv :
    (deadline previous now : ℕ) (r : Number)
    → checked_time deadline previous r ≡ ok now
    → (r ≡ integer now) × (previous ≤ now) × (now < deadline)
checked_time-inv deadline previous now other_number e = absurd (cc)
checked_time-inv deadline previous now (integer v) e = ground arith

abbrev pub Returns : {A : Type 0} → Option A → Type 0
Returns {A} o = (a : A) × (o ≡ some a)

-- Between the two readings of a round at least the pause passes.
abbrev pub Pauses : Lock → Kernel → ℕ → Type 0
Pauses l k deadline =
    (n a b : ℕ)
    → k.reading (2 * n + 1) ≡ integer a
    → k.reading (2 * n + 2) ≡ integer b
    → a + pause l deadline a ≤ b

go_on-Returns :
    (r : Result LockError ℕ) (next : ℕ → Acquired)
    → ((now : ℕ) → r ≡ ok now → Returns (next now))
    → Returns (go_on r next)
go_on-Returns (err e) next step = (err e, refl)
go_on-Returns (ok now) next step = step now refl

by_binding-Returns :
    (b : Binding) (n : ℕ) (waiting : Acquired) → Returns waiting → Returns (by_binding b n waiting)
by_binding-Returns bound n waiting r = (ok n, refl)
by_binding-Returns bind_failed n waiting r = (err lock_unavailable, refl)
by_binding-Returns in_use n waiting r = r

-- A round brings the deadline nearer.
nearer :
    (poll deadline previous current retry fuel : ℕ)
    → 1 ≤ poll
    → previous ≤ current
    → current < deadline
    → current + min poll (deadline - current) ≤ retry
    → deadline - previous < suc fuel
    → deadline - retry < fuel
nearer poll deadline previous current retry fuel p q r s t = omega (arith, p, q, r, s, t)

acquire-Returns :
    (l : Lock) (k : Kernel) (deadline : ℕ)
    → 1 ≤ l.poll_interval
    → Pauses l k deadline
    → (fuel n previous : ℕ) → deadline - previous < fuel
    → Returns (acquire k deadline fuel n previous)
unfolding acquire
acquire-Returns l k deadline polls pauses zero n previous enough = absurd (omega (arith, enough))
acquire-Returns l k deadline polls pauses (suc fuel) n previous enough =
    by_binding-Returns (k.binding n) n _ (
      go_on-Returns (checked_time deadline previous (k.reading (2 * n + 1))) _ λ current e.
        go_on-Returns (checked_time deadline current (k.reading (2 * n + 2))) _ λ retry f.
          let (at, later, early) =
            checked_time-inv deadline previous current (k.reading (2 * n + 1)) e in
          let (again, _, _) = checked_time-inv deadline current retry (k.reading (2 * n + 2)) f in
          acquire-Returns l k deadline polls pauses fuel (suc n) retry (
            nearer l.poll_interval deadline previous current retry fuel polls later early
              (pauses n current retry at again) enough))

under_lock-Returns :
    {X T : Type 0} (k : Kernel) (operation : ℕ → Result X T) (o : Acquired)
    → Returns o
    → Returns (under_lock k operation o)
under_lock-Returns k operation none (a, e) = absurd (cc)
under_lock-Returns k operation (some (err x)) r = (_, refl)
under_lock-Returns k operation (some (ok n)) r = (_, refl)

-- The options' bounds.
then_result-eq-ok :
    {E A B : Type 0} (r : Result E A) (f : A → Result E B) (b : B)
    → then_result r f ≡ ok b
    → (a : A) × (r ≡ ok a) × (f a ≡ ok b)
then_result-eq-ok (ok a) f b e = (a, refl, e)
then_result-eq-ok (err x) f b e = absurd (cc)

pub bounded_integer-inv :
    (r : Number) (low high v : ℕ) → bounded_integer r low high ≡ ok v → (low ≤ v) × (v ≤ high)
bounded_integer-inv other_number low high v e = absurd (cc)
bounded_integer-inv (integer x) low high v e = ground arith

pub new_lock-bounds :
    (o : LockOptions) (l : Lock)
    → new_lock o ≡ ok l
    → (1024 ≤ l.port)
      × (l.port ≤ 65535)
      × (50 ≤ l.wait_timeout)
      × (l.wait_timeout ≤ 60000)
      × (5 ≤ l.poll_interval)
      × (l.poll_interval ≤ 1000)
unfolding new_lock
new_lock-bounds o l e =
    let (port, p, e1) =
      then_result-eq-ok (bounded_integer (or_else o.port (integer 49371)) 1024 65535) _ l e in
    let (wait, w, e2) =
      then_result-eq-ok (bounded_integer (or_else o.wait_timeout_ms (integer 20000)) 50 60000) _ l
        e1 in
    let (poll, q, e3) =
      then_result-eq-ok (bounded_integer (or_else o.poll_interval_ms (integer 25)) 5 1000) _ l e2 in
    bounded port wait poll l (ok-injective e3)
      (bounded_integer-inv (or_else o.port (integer 49371)) _ _ _ p)
      (bounded_integer-inv (or_else o.wait_timeout_ms (integer 20000)) _ _ _ w)
      (bounded_integer-inv (or_else o.poll_interval_ms (integer 25)) _ _ _ q)
  where
    bounded :
        (port wait poll : ℕ) (l : Lock)
        → record { port = port; wait_timeout = wait; poll_interval = poll } ≡ l
        → (1024 ≤ port) × (port ≤ 65535)
        → (50 ≤ wait) × (wait ≤ 60000)
        → (5 ≤ poll) × (poll ≤ 1000)
        → (1024 ≤ l.port)
          × (l.port ≤ 65535)
          × (50 ≤ l.wait_timeout)
          × (l.wait_timeout ≤ 60000)
          × (5 ≤ l.poll_interval)
          × (l.poll_interval ≤ 1000)
    bounded port wait poll l e (a, b) (c, d) (f, g) = rw⁻¹ e (a, b, c, d, f, g)

run_from-Returns :
    {X T : Type 0} (l : Lock) (k : Kernel) (fuel : ℕ) (operation : ℕ → Result X T)
    (r : Result LockError ℕ)
    → ((started_at : ℕ)
        → r ≡ ok started_at
        → Returns (acquire k (started_at + l.wait_timeout) fuel 0 started_at))
    → Returns (run_from l k fuel operation r)
run_from-Returns l k fuel operation (err e) step = (err (of_lock e), refl)
run_from-Returns l k fuel operation (ok at) step = within (leb (at + l.wait_timeout) max_safe)
  where
    within :
        (b : Bool)
        → Returns (
            if not b
            then some (err (of_lock lock_unavailable))
            else under_lock k operation (acquire k (at + l.wait_timeout) fuel 0 at))
    within false = (err (of_lock lock_unavailable), refl)
    within true = under_lock-Returns k operation _ (step at refl)

pub checked_monotonic-inv : (r : Number) (v : ℕ) → checked_monotonic r ≡ ok v → r ≡ integer v
checked_monotonic-inv other_number v e = absurd (cc)
checked_monotonic-inv (integer x) v e = ground arith

-- A lock that the constructor accepts does not wait for ever: if between the two readings of a round
-- at least the delay that the loop asks for passes, and the fuel is more than the timeout in
-- milliseconds, then `runExclusive` returns or throws, whatever the kernel answers to its binds, even
-- if it answers to all of them that the port is in use.
pub run_exclusive-Returns :
    {X T : Type 0} (o : LockOptions) (l : Lock) (k : Kernel) (fuel : ℕ) (operation : ℕ → Result X T)
    → new_lock o ≡ ok l
    → ((started_at : ℕ)
        → k.reading 0 ≡ integer started_at
        → Pauses l k (started_at + l.wait_timeout))
    → l.wait_timeout < fuel
    → Returns (run_exclusive l k fuel operation)
unfolding run_exclusive
run_exclusive-Returns o l k fuel operation made pauses enough =
    run_from-Returns l k fuel operation (checked_monotonic (k.reading 0)) λ at e.
      let (_, _, _, _, polls, _) = new_lock-bounds o l made in
      acquire-Returns l k (at + l.wait_timeout) (omega (arith, polls))
        (pauses at (checked_monotonic-inv (k.reading 0) at e)) fuel 0 at (omega (arith, enough))
