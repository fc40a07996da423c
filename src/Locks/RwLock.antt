-- ===== src/Locks/RwLock.antt =====
-- `RwSpinLock` of src/sync/spinlock.rs. The word is an `AtomicI32`, kept modulo 2 ^ 32: -1 is
-- 2 ^ 32 - 1.
use sar_osx.Base.{
  All, ℕ, ◌+◌, ◌-◌, ◌%◌, ◌^◌, ◌<◌, ◌≡◌, some, List, ltb, ◌==◌, if◌then◌else◌, length, get_elem?,
  set,
}

-- `loaded` is the value that `read` has loaded and compares with in its exchange.
pub data RwPhase : Type 0 where
  idle wants_read wants_write reads writes : RwPhase
  read_loaded : (loaded : ℕ) → RwPhase

pub record RwSpinLock : Type 0 where
  pub state : ℕ
  pub threads : List RwPhase

abbrev pub minus_one : ℕ
minus_one = 2 ^ 32 - 1

abbrev pub move : RwSpinLock → ℕ → RwPhase → RwSpinLock
move s i p = record s { threads = set s.threads i p }

-- `s >= 0` lets the exchange be tried.
unfoldable pub load_state : RwSpinLock → ℕ → RwSpinLock
load_state s i = if ltb s.state (2 ^ 31) then move s i (read_loaded s.state) else s

-- `compare_exchange_weak(s, s + 1)`
unfoldable pub read_exchange : RwSpinLock → ℕ → (loaded : ℕ) → RwSpinLock
read_exchange s i loaded =
    if s.state == loaded
    then record { state = (loaded + 1) % 2 ^ 32; threads = set s.threads i reads }
    else move s i wants_read

-- `compare_exchange_weak(0, -1)`
unfoldable pub write_exchange : RwSpinLock → ℕ → RwSpinLock
write_exchange s i =
    if s.state == 0 then record { state = minus_one; threads = set s.threads i writes } else s

-- `fetch_sub(1)` of a read guard and `store(0)` of a write guard.
abbrev pub drop_read : RwSpinLock → ℕ → RwSpinLock
drop_read s i = record { state = (s.state + minus_one) % 2 ^ 32; threads = set s.threads i idle }

abbrev pub drop_write : RwSpinLock → ℕ → RwSpinLock
drop_write s i = record { state = 0; threads = set s.threads i idle }

abbrev pub Is : RwSpinLock → ℕ → RwPhase → Type 0
Is s i p = get_elem? s.threads i ≡ some p

pub data RwStep (s : RwSpinLock) : RwSpinLock → Type 0 where
  read_starts : (i : ℕ) → Is s i idle → RwStep s (move s i wants_read)
  read_loads : (i : ℕ) → Is s i wants_read → RwStep s (load_state s i)
  read_exchanges :
      (i loaded : ℕ) → Is s i (read_loaded loaded) → RwStep s (read_exchange s i loaded)
  read_retries : (i loaded : ℕ) → Is s i (read_loaded loaded) → RwStep s (move s i wants_read)
  write_starts : (i : ℕ) → Is s i idle → RwStep s (move s i wants_write)
  write_exchanges : (i : ℕ) → Is s i wants_write → RwStep s (write_exchange s i)
  exchange_fails : RwStep s s
  read_drops : (i : ℕ) → Is s i reads → RwStep s (drop_read s i)
  write_drops : (i : ℕ) → Is s i writes → RwStep s (drop_write s i)

abbrev pub IsIdle : RwPhase → Type 0
IsIdle p = p ≡ idle

-- From a new lock, with fewer threads than 2 ^ 31.
pub data RwReach : RwSpinLock → Type 0 where
  start :
      (threads : List RwPhase)
      → All IsIdle threads
      → length threads < 2 ^ 31
      → RwReach (record { state = 0; threads = threads })
  step : {s s' : RwSpinLock} → RwReach s → RwStep s s' → RwReach s'
