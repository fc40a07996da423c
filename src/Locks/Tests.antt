-- ===== src/Locks/Tests.antt =====
-- Runs of threads on a spin lock and on a lock for readers and writers, and instances of the theorems.
use sar_osx.Base.{◌≡◌, refl, true, false, [], ◌∷◌, arith}
use mathlib.Core.Path.{subst}
use sar_osx.Locks.{
  outside, spinning, holding, Thread, SpinLock, lock_attempt, lock_starts, lock_attempts, Reach,
  start, step,
}
use sar_osx.Locks.Exclusion.{IsSafe, Reach-IsSafe}
use sar_osx.Locks.RwLock
use sar_osx.Locks.RwLock.{
  RwPhase, idle, wants_read, reads, read_loaded, RwSpinLock, load_state, read_exchange, RwReach,
  IsIdle,
}
use sar_osx.Locks.Readers.{IsExclusive, RwReach-IsExclusive}

abbrev caller : Thread
caller = record { phase = outside; interrupts = true }

abbrev called : Thread
called = record { phase = spinning true; interrupts = false }

abbrev owner : Thread
owner = record { phase = holding true; interrupts = false }

-- Both threads call `lock`, and the first gets it.
abbrev both_called : SpinLock
both_called = record { locked = false; threads = called ∷ called ∷ [] }

abbrev one_owner : SpinLock
one_owner = record { locked = true; threads = owner ∷ called ∷ [] }

both_called-Reach : Reach both_called
both_called-Reach =
    step (step (start (caller ∷ caller ∷ []) (refl, (refl, tt))) (lock_starts 0 caller refl refl))
      (lock_starts 1 caller refl refl)

one_owner-attempt : lock_attempt both_called 0 called true ≡ one_owner
unfolding lock_attempt
one_owner-attempt = refl

one_owner-Reach : Reach one_owner
one_owner-Reach =
    subst Reach one_owner-attempt (step both_called-Reach (lock_attempts 0 called true refl refl))

Reach-IsSafe_example : IsSafe one_owner
Reach-IsSafe_example = Reach-IsSafe one_owner-Reach

-- One of two threads reads.
abbrev one_wants : RwSpinLock
one_wants = record { state = 0; threads = wants_read ∷ idle ∷ [] }

abbrev one_loaded : RwSpinLock
one_loaded = record { state = 0; threads = read_loaded 0 ∷ idle ∷ [] }

abbrev one_reads : RwSpinLock
one_reads = record { state = 1; threads = reads ∷ idle ∷ [] }

one_loaded-load : load_state one_wants 0 ≡ one_loaded
unfolding load_state
one_loaded-load = refl

one_reads-exchange : read_exchange one_loaded 0 0 ≡ one_reads
unfolding read_exchange
one_reads-exchange = refl

one_reads-RwReach : RwReach one_reads
one_reads-RwReach =
    let wants : RwReach one_wants =
      RwLock.step (RwLock.start (idle ∷ idle ∷ []) (refl, (refl, tt)) (omega arith))
        (RwLock.read_starts 0 refl) in
    let loaded : RwReach one_loaded =
      subst RwReach one_loaded-load (RwLock.step wants (RwLock.read_loads 0 refl)) in
    subst RwReach one_reads-exchange (RwLock.step loaded (RwLock.read_exchanges 0 0 refl))

RwReach-IsExclusive_example : IsExclusive one_reads
RwReach-IsExclusive_example = RwReach-IsExclusive one_reads-RwReach
