-- ===== src/Locks.antt =====
-- src/sync/spinlock.rs: `SpinLock` and `RwSpinLock` as they are used by threads that run at once.
-- Each step of a thread is one atomic access of the word of the lock, or what the thread does alone
-- around it; steps of different threads come in any order. The data in the lock are left out: a guard
-- is the right to them. A weak exchange that fails without cause is a step that changes nothing.
pub mod Exclusion
pub mod RwLock
pub mod Readers
mod Tests
use sar_osx.Base.{
  All, ℕ, zero, suc, ◌+◌, ◌-◌, ◌*◌, ◌/◌, ◌%◌, ◌^◌, ◌≤◌, ◌<◌, min, max, bit_and, bit_or, bit_xor,
  ◌≡◌, refl, sym, ap, ◌∙◌, ◌≢◌, ◌↔◌, ◌⊎◌, inl, inr, Bool, true, false, not, ◌&&◌, ◌||◌, Option,
  none, some, List, [], ◌∷◌, ◌++◌, map, append-nil, append_assoc, arith, ltb, leb, ◌==◌,
  if◌then◌else◌, ltb→lt, lt→ltb, leb→le, ==_iff, tests, Bool-cases, Option-cases, length, get_elem?,
  set, get_or, take, drop, replicate, length-append, length-set, length-take, length-drop,
  length-replicate, length-map,
}

-- Where a thread is: `saved` is whether interrupts were on (`RFLAGS_IF`) when it called.
pub data Phase : Type 0 where
  outside : Phase
  spinning trying holding leaving : (saved : Bool) → Phase

pub record Thread : Type 0 where
  pub phase : Phase
  pub interrupts : Bool

pub record SpinLock : Type 0 where
  pub locked : Bool
  pub threads : List Thread

abbrev pub put : SpinLock → ℕ → Thread → SpinLock
put s i t = record s { threads = set s.threads i t }

-- `cli` at the start of `lock` and of `try_lock`.
abbrev pub lock_start : SpinLock → ℕ → Thread → SpinLock
lock_start s i t = put s i (record { phase = spinning t.interrupts; interrupts = false })

abbrev pub try_lock_start : SpinLock → ℕ → Thread → SpinLock
try_lock_start s i t = put s i (record { phase = trying t.interrupts; interrupts = false })

-- `sti` if interrupts were on.
abbrev pub restored : Thread → (saved : Bool) → Thread
restored t saved = record { phase = outside; interrupts = if saved then true else t.interrupts }

-- `compare_exchange(false, true)`
abbrev pub acquire : SpinLock → ℕ → Thread → (saved : Bool) → SpinLock
acquire s i t saved = record {
  locked = true;
  threads = set s.threads i (record t { phase = holding saved });
}

-- A turn of the loop of `lock`: a failed exchange changes nothing.
pub lock_attempt : SpinLock → ℕ → Thread → (saved : Bool) → SpinLock
lock_attempt s i t saved = if s.locked then s else acquire s i t saved

pub try_lock_attempt : SpinLock → ℕ → Thread → (saved : Bool) → SpinLock
try_lock_attempt s i t saved = if s.locked then put s i (restored t saved) else acquire s i t saved

-- The two parts of `drop` of the guard.
abbrev pub unlock_store : SpinLock → ℕ → Thread → (saved : Bool) → SpinLock
unlock_store s i t saved = record {
  locked = false;
  threads = set s.threads i (record t { phase = leaving saved });
}

abbrev pub unlock_end : SpinLock → ℕ → Thread → (saved : Bool) → SpinLock
unlock_end s i t saved = put s i (restored t saved)

abbrev pub At : SpinLock → ℕ → Thread → Type 0
At s i t = get_elem? s.threads i ≡ some t

pub data Step (s : SpinLock) : SpinLock → Type 0 where
  lock_starts : (i : ℕ) (t : Thread) → At s i t → t.phase ≡ outside → Step s (lock_start s i t)
  lock_attempts :
      (i : ℕ) (t : Thread) (saved : Bool)
      → At s i t
      → t.phase ≡ spinning saved
      → Step s (lock_attempt s i t saved)
  exchange_fails : Step s s
  try_lock_starts :
      (i : ℕ) (t : Thread) → At s i t → t.phase ≡ outside → Step s (try_lock_start s i t)
  try_lock_attempts :
      (i : ℕ) (t : Thread) (saved : Bool)
      → At s i t
      → t.phase ≡ trying saved
      → Step s (try_lock_attempt s i t saved)
  unlock_stores :
      (i : ℕ) (t : Thread) (saved : Bool)
      → At s i t
      → t.phase ≡ holding saved
      → Step s (unlock_store s i t saved)
  unlock_ends :
      (i : ℕ) (t : Thread) (saved : Bool)
      → At s i t
      → t.phase ≡ leaving saved
      → Step s (unlock_end s i t saved)

-- A new lock, and threads that are all outside it.
abbrev pub IsOutside : Thread → Type 0
IsOutside t = t.phase ≡ outside

pub data Reach : SpinLock → Type 0 where
  start :
      (threads : List Thread)
      → All IsOutside threads
      → Reach (record { locked = false; threads = threads })
  step : {s s' : SpinLock} → Reach s → Step s s' → Reach s'
