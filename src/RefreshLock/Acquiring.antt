-- ===== src/RefreshLock/Acquiring.antt =====
-- When `runExclusive` of src/stele/oauth-refresh-lock.ts is sure to run its operation.
use lyth_mcp.Prelude.{
  ℕ, zero, suc, ◌+◌, ◌-◌, ◌*◌, ◌≤◌, ◌<◌, ◌≡◌, refl, sym, inl, inr, true, some, leb, arith, Result,
  ok,
}
use lyth_mcp.RefreshLock.{
  integer, max_safe, checked_monotonic, Lock, Kernel, checked_time, acquire, operated,
  run_exclusive,
}
use lyth_mcp.RefreshLock.Holding.{FirstBound, at_or_after, even_suc}

-- The readings up to the one before the bind number `n` are integers that do not decrease.
abbrev pub Steady : Kernel → (ℕ → ℕ) → ℕ → Type 0
Steady k t n =
    ((i : ℕ) → i ≤ 2 * n → k.reading i ≡ integer (t i))
    × ((i j : ℕ) → i ≤ j → j ≤ 2 * n → t i ≤ t j)

checked_monotonic_lem : (v : ℕ) → v ≤ max_safe → checked_monotonic (integer v) ≡ ok v
checked_monotonic_lem v h = ground arith

checked_time_lem :
    (deadline previous v : ℕ)
    → previous ≤ v
    → v < deadline
    → deadline ≤ max_safe
    → checked_time deadline previous (integer v) ≡ ok v
checked_time_lem deadline previous v p q r = ground arith

leb_lem : (a b : ℕ) → a ≤ b → leb a b ≡ true
leb_lem a b h = ground arith

acquire-acquires :
    (k : Kernel) (t : ℕ → ℕ) (n deadline fuel m : ℕ)
    → Steady k t n
    → t (2 * n) < deadline
    → deadline ≤ max_safe
    → FirstBound k m n
    → n - m < fuel
    → acquire k deadline fuel m (t (2 * m)) ≡ some (ok n)
unfolding acquire
acquire-acquires k t n deadline zero m steady soon safe first enough =
    absurd (omega (arith, enough))
acquire-acquires k t n deadline (suc fuel) m steady soon safe (le, free, before) enough =
    elim (at_or_after m n le) [
      | inl same ↦ rw (sym same) (rw free refl)
      | inr later ↦
          let busy = before m (omega arith) later in
          let c1 =
            checked_time_lem deadline (t (2 * m)) (t (2 * m + 1))
              (steady.1 (2 * m) (2 * m + 1) (omega arith) (omega (arith, later)))
              (omega
                (arith, steady.1 (2 * m + 1) (2 * n) (omega (arith, later)) (omega arith), soon))
              safe in
          let c2 =
            checked_time_lem deadline (t (2 * m + 1)) (t (2 * m + 2))
              (steady.1 (2 * m + 1) (2 * m + 2) (omega arith) (omega (arith, later)))
              (omega
                (arith, steady.1 (2 * m + 2) (2 * n) (omega (arith, later)) (omega arith), soon))
              safe in
          rw
            (
              busy,
              steady.0 (2 * m + 1) (omega (arith, later)),
              c1,
              steady.0 (2 * m + 2) (omega (arith, later)),
              c2,
            )
            (rw⁻¹ (even_suc m) (
              acquire-acquires k t n deadline fuel (suc m) steady soon safe
                (later, free, λ i p q. before i (omega (arith, p)) q)
                (omega (arith, enough, later))))
    ]

-- If the clock does not go back, the first bind that finds the port free comes before the deadline,
-- and the fuel is more than the number of binds before it, then `runExclusive` runs the operation
-- under that bind and ends as it does, unless the listener cannot be closed.
pub run_exclusive-runs :
    {X T : Type 0} (l : Lock) (k : Kernel) (fuel : ℕ) (operation : ℕ → Result X T) (t : ℕ → ℕ)
    (n : ℕ)
    → Steady k t n
    → t (2 * n) < t 0 + l.wait_timeout
    → t 0 + l.wait_timeout ≤ max_safe
    → FirstBound k 0 n
    → n < fuel
    → run_exclusive l k fuel operation ≡ some (operated (k.closes n) (operation n))
unfolding run_exclusive
run_exclusive-runs l k fuel operation t n steady soon safe first enough =
    rw
      (
        steady.0 0 (omega arith),
        checked_monotonic_lem (t 0) (omega (arith, safe)),
        leb_lem _ _ safe,
        acquire-acquires k t n (t 0 + l.wait_timeout) fuel 0 steady soon safe first
            (omega (arith, enough)),
      )
      refl
