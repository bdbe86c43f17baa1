-- ===== src/RefreshLock/Tests.antt =====
-- Runs of `runExclusive` of src/stele/oauth-refresh-lock.ts.
use lyth_mcp.Prelude.{
  ℕ, zero, suc, ◌+◌, ◌*◌, ◌<◌, ◌≤◌, ◌≡◌, refl, true, none, some, arith, Result, ok, err,
}
use lyth_mcp.RefreshLock.{
  integer, LockError, lock_busy, Lock, LockOptions, new_lock, Binding, bound, in_use, Kernel,
  acquire, of_lock, operated, run_exclusive,
}
use lyth_mcp.RefreshLock.Waiting.{Returns, Pauses, run_exclusive-Returns}
use lyth_mcp.RefreshLock.Holding.{FirstBound, InTime, run_exclusive-FirstBound}
use lyth_mcp.RefreshLock.Acquiring.{run_exclusive-runs}

-- The port is free at the third bind.
abbrev third : ℕ → Binding
third zero = in_use
third (suc zero) = in_use
third (suc (suc n)) = bound

abbrev clock : ℕ → ℕ
clock i = 1000 + 30 * i

abbrev kernel : Kernel
kernel = record { reading = λ i. integer (clock i); binding = third; closes = λ _. true }

-- The port is never free.
abbrev taken : Kernel
taken = record { reading = λ i. integer (clock i); binding = λ _. in_use; closes = λ _. true }

abbrev default_options : LockOptions
default_options = record { port = none; wait_timeout_ms = none; poll_interval_ms = none }

abbrev default_lock : Lock
default_lock = record { port = 49371; wait_timeout = 20000; poll_interval = 25 }

abbrev short_lock : Lock
short_lock = record { port = 49371; wait_timeout = 100; poll_interval = 25 }

abbrev operation : ℕ → Result LockError ℕ
operation n = ok n

default_made : new_lock default_options ≡ ok default_lock
unfolding new_lock
default_made = refl

integer-injective : {a b : ℕ} → integer a ≡ integer b → a ≡ b
integer-injective e = cc

pausing : (deadline : ℕ) → Pauses default_lock taken deadline
pausing deadline n a b p q = omega (arith, integer-injective p, integer-injective q)

run_exclusive-Returns_example : Returns (run_exclusive default_lock taken 20001 operation)
run_exclusive-Returns_example =
    run_exclusive-Returns default_options default_lock taken 20001 operation default_made
      (λ at _. pausing (at + 20000)) (omega arith)

-- With a timeout of 100 ms the loop gives up in its second round.
gives_up : run_exclusive short_lock taken 3 operation ≡ some (err (of_lock lock_busy))
unfolding run_exclusive acquire
gives_up = refl

third_run : run_exclusive default_lock kernel 3 operation ≡ some (operated true (ok 2))
unfolding run_exclusive acquire
third_run = refl

third_first : FirstBound kernel 0 2
third_first = (omega arith, refl, early)
  where
    early : (i : ℕ) → 0 ≤ i → i < 2 → third i ≡ in_use
    early zero p q = refl
    early (suc zero) p q = refl
    early (suc (suc i)) p q = absurd (omega (arith, q))

run_exclusive-FirstBound_example :
    (started_at n : ℕ) × (integer 1000 ≡ integer started_at)
    × (operation n ≡ ok 2)
    × FirstBound kernel 0 n
    × InTime kernel (started_at + 20000) n
run_exclusive-FirstBound_example =
    run_exclusive-FirstBound default_lock kernel 3 operation (ok 2) (omega arith) third_run

run_exclusive-runs_example :
    run_exclusive default_lock kernel 3 operation ≡ some (operated true (ok 2))
run_exclusive-runs_example =
    run_exclusive-runs default_lock kernel 3 operation clock 2
      ((λ i h. refl), (λ i j p q. omega (arith, p))) (omega arith) (omega arith) third_first
      (omega arith)
