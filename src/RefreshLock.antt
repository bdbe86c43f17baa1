-- ===== src/RefreshLock.antt =====
-- The lock between processes of src/stele/oauth-refresh-lock.ts: its options and the loop of
-- `runExclusive`. The clock, the kernel's answers to the binds and the operation under the lock are
-- arguments. The loop runs on fuel.
pub mod Waiting
pub mod Holding
pub mod Acquiring
mod Tests
use lyth_mcp.Prelude.{
  ℕ, zero, suc, ◌+◌, ◌-◌, ◌*◌, min, Bool, true, false, not, ◌||◌, Option, none, some, ltb, leb,
  if◌then◌else◌, or_else, Result, ok, err, then_result,
}

-- A number: an integer that is not negative, or any other.
pub data Number : Type 0 where
  integer : ℕ → Number
  other_number : Number

pub data LockError : Type 0 where
  lock_busy lock_unavailable : LockError

-- `Number.MAX_SAFE_INTEGER`
abbrev pub max_safe : ℕ
max_safe = 9007199254740991

abbrev pub checked_monotonic : Number → Result LockError ℕ
checked_monotonic other_number = err lock_unavailable
checked_monotonic (integer v) = if leb v max_safe then ok v else err lock_unavailable

abbrev pub bounded_integer : Number → ℕ → ℕ → Result LockError ℕ
bounded_integer other_number low high = err lock_unavailable
bounded_integer (integer v) low high =
    if ltb v low || ltb high v then err lock_unavailable else ok v

pub record LockOptions : Type 0 where
  pub port : Option Number
  pub wait_timeout_ms : Option Number
  pub poll_interval_ms : Option Number

pub record Lock : Type 0 where
  pub port : ℕ
  pub wait_timeout : ℕ
  pub poll_interval : ℕ

-- The constructor.
unfoldable pub new_lock : LockOptions → Result LockError Lock
new_lock o = then_result (bounded_integer (or_else o.port (integer 49371)) 1024 65535) λ port.
    then_result (bounded_integer (or_else o.wait_timeout_ms (integer 20000)) 50 60000) λ wait.
      then_result (bounded_integer (or_else o.poll_interval_ms (integer 25)) 5 1000)
        λ poll. ok (record { port = port; wait_timeout = wait; poll_interval = poll })

-- How `tryBindExclusiveLoopback` ends: with the listener, with null, or by a throw.
pub data Binding : Type 0 where
  bound in_use bind_failed : Binding

-- The clock's readings and the binds, each in the order in which they are asked for, and whether the
-- listener of a bind can be closed.
pub record Kernel : Type 0 where
  pub reading : ℕ → Number
  pub binding : ℕ → Binding
  pub closes : ℕ → Bool

-- A reading inside the loop.
abbrev pub checked_time : ℕ → ℕ → Number → Result LockError ℕ
checked_time deadline previous r = then_result (checked_monotonic r) λ now.
    if ltb now previous
    then err lock_unavailable
    else (if leb deadline now then err lock_busy else ok now)

-- The delay before the next round.
abbrev pub pause : Lock → ℕ → ℕ → ℕ
pause l deadline current = min l.poll_interval (deadline - current)

-- The bind that holds the lock, or the error; nothing if the fuel ran out.
abbrev pub Acquired : Type 0
Acquired = Option (Result LockError ℕ)

abbrev pub go_on : Result LockError ℕ → (ℕ → Acquired) → Acquired
go_on (err e) next = some (err e)
go_on (ok now) next = next now

abbrev pub by_binding : Binding → ℕ → Acquired → Acquired
by_binding bound n waiting = some (ok n)
by_binding bind_failed n waiting = some (err lock_unavailable)
by_binding in_use n waiting = waiting

-- The loop from its bind number `n` on, with `previous`. After a bind in use it reads the clock, it
-- pauses, and it reads the clock before the next one.
unfoldable pub acquire : Kernel → ℕ → ℕ → ℕ → ℕ → Acquired
acquire k deadline zero n previous = none
acquire k deadline (suc fuel) n previous = by_binding (k.binding n) n (
    go_on (checked_time deadline previous (k.reading (2 * n + 1))) λ current.
      go_on (checked_time deadline current (k.reading (2 * n + 2)))
        λ before_retry. acquire k deadline fuel (suc n) before_retry)

-- What `runExclusive` throws: an error of the lock, or one of the operation.
pub data Fault (X : Type 0) : Type 0 where
  of_lock : LockError → Fault X
  of_operation : X → Fault X

abbrev pub operated : {X T : Type 0} → Bool → Result X T → Result (Fault X) T
operated false r = err (of_lock lock_unavailable)
operated true (ok t) = ok t
operated true (err x) = err (of_operation x)

-- The operation under the bind that holds the lock, and the close of its listener.
abbrev pub under_lock :
    {X T : Type 0} → Kernel → (ℕ → Result X T) → Acquired → Option (Result (Fault X) T)
under_lock k operation none = none
under_lock k operation (some (err e)) = some (err (of_lock e))
under_lock k operation (some (ok n)) = some (operated (k.closes n) (operation n))

abbrev pub run_from :
    {X T : Type 0}
    → Lock
    → Kernel
    → ℕ
    → (ℕ → Result X T)
    → Result LockError ℕ
    → Option (Result (Fault X) T)
run_from l k fuel operation (err e) = some (err (of_lock e))
run_from l k fuel operation (ok started_at) =
    if not (leb (started_at + l.wait_timeout) max_safe)
    then some (err (of_lock lock_unavailable))
    else under_lock k operation (acquire k (started_at + l.wait_timeout) fuel 0 started_at)

unfoldable pub run_exclusive :
    {X T : Type 0} → Lock → Kernel → ℕ → (ℕ → Result X T) → Option (Result (Fault X) T)
run_exclusive l k fuel operation = run_from l k fuel operation (checked_monotonic (k.reading 0))
