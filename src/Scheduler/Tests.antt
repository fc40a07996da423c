-- ===== src/Scheduler/Tests.antt =====
-- Runs of the scheduler of src/proc.rs with three processes.
use sar_osx.Base.{All, ℕ, ◌+◌, ◌≡◌, refl, ◌⊎◌, true, false, none, some, [], ◌∷◌}
use sar_osx.VmSpace
use sar_osx.Scheduler.{
  requeue, running, runnable, Process, CpuContext, RunQueue, new, pick_next, spawn, schedule,
  is_runnable, mark_sleeping, wake_up_all_sleeping, exit, find_zombie_child, waitpid_round,
  default_time_slice, kernel_stack_size,
}
use sar_osx.Scheduler.Pick.{Waits, AtLeast, Picked}
use sar_osx.Scheduler.Step.{
  IsValid, Reach, boot, call, spawns, schedules, sleeps, wakes_all, times_in, ended_times,
  Reach-IsValid, schedule-best, schedule-times,
}
use sar_osx.Scheduler.Wait.{waitpid-never}

abbrev blank : CpuContext
blank = record {
  r15 = 0;
  r14 = 0;
  r13 = 0;
  r12 = 0;
  rbp = 0;
  rbx = 0;
  rsp = 0;
  rip = 0;
  rflags = 0x202;
  cs = 8;
  ss = 16;
}

abbrev process : (pid ppid priority : ℕ) → Process
process n m k = record {
  pid = n;
  ppid = m;
  state = runnable;
  context = blank;
  pml4_phys = 0x1000;
  vm = VmSpace.new;
  kernel_stack = 0;
  kernel_stack_size = kernel_stack_size;
  priority = k;
  time_slice = default_time_slice;
  base_slice = default_time_slice;
  exit_code = 0;
  name = [];
  pending_signals = 0;
  signal_mask = 0;
}

abbrev three : RunQueue
three = spawn (spawn (spawn new (process 1 0 255)) (process 2 0 5)) (process 3 2 5)

abbrev two_runs : RunQueue
two_runs = schedule three

three-Reach : Reach false three
three-Reach =
    call (call (call boot (spawns (process 1 0 255) refl)) (spawns (process 2 0 5) refl))
      (spawns (process 3 2 5) refl)

two_runs_current : two_runs.current ≡ some (record (process 2 0 5) { state = running })
unfolding schedule spawn pick_next requeue
two_runs_current = refl

-- The second process is marked to sleep, and the keyboard wakes it before it has scheduled.
abbrev woken_early : RunQueue
woken_early = wake_up_all_sleeping (mark_sleeping two_runs)

woken_early_current : woken_early.current ≡ some (record (process 2 0 5) { state = runnable })
unfolding schedule spawn pick_next wake_up_all_sleeping requeue
woken_early_current = refl

Reach-IsValid_example : IsValid true woken_early
Reach-IsValid_example = Reach-IsValid (call (call (call three-Reach schedules) sleeps) wakes_all)

schedule-best_example :
    ((two_runs.current ≡ none)
      × (two_runs.queue ≡ requeue three.queue three.current)
      × All Waits two_runs.queue)
    ⊎ ((p : Process) × (is_runnable p.state ≡ true)
        × (two_runs.current ≡ some (record p { state = running }))
        × Picked (requeue three.queue three.current) p two_runs.queue
        × All (AtLeast p.priority) two_runs.queue)
schedule-best_example = schedule-best three

schedule-times_example : times_in 2 two_runs + ended_times 2 three.current ≡ times_in 2 three
schedule-times_example = schedule-times three 2

-- The child exits while its parent waits in the queue: the parent never hears of it.
abbrev child_gone : RunQueue
child_gone =
    exit
      (record three {
        queue = process 1 0 255 ∷ process 2 0 5 ∷ [];
        current = some (record (process 3 2 5) { state = running });
      })
      7

parent_runs : child_gone.current ≡ some (record (process 2 0 5) { state = running })
unfolding exit schedule pick_next requeue
parent_runs = refl

waitpid-never_example :
    (find_zombie_child two_runs (some 3) ≡ none)
    × (waitpid_round two_runs (some 3) true ≡ (some 0, two_runs))
waitpid-never_example = waitpid-never false two_runs (some 3) true (call three-Reach schedules)
