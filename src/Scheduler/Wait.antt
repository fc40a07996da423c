-- ===== src/Scheduler/Wait.antt =====
-- Sleeping and waking, and what a parent learns of its children.
use sar_osx.Base.{
  All, ℕ, ◌+◌, ◌≡◌, refl, ap, Bool, false, Option, none, some, List, [], ◌∷◌, map, arith,
  if◌then◌else◌,
}
use sar_osx.Scheduler.{
  is_sleeping, Process, RunQueue, sleep_current, woken, woken_current, wake_up_all_sleeping, exit,
  zombie_in, zombie_of, find_zombie_child, waitpid_round, set_exit,
}
use sar_osx.Scheduler.Step.{
  IsQueued, Reach, Reach-IsValid, times, times_current, times_in, bears, ended_times,
  schedule-times,
}

zombie_in-none :
    (me : ℕ) (target : Option ℕ) (l : List Process) → All IsQueued l → zombie_in me target l ≡ none
unfolding zombie_in
zombie_in-none me target [] h = refl
zombie_in-none me none (p ∷ rest) h = ground (arith, zombie_in-none me none rest h.1)
zombie_in-none me (some t) (p ∷ rest) h = ground (arith, zombie_in-none me (some t) rest h.1)

zombie_of-none :
    (c : Option Process) (target : Option ℕ) (l : List Process)
    → All IsQueued l
    → zombie_of c target l ≡ none
unfolding zombie_of
zombie_of-none none target l h = refl
zombie_of-none (some p) target l h = zombie_in-none p.pid target l h

-- In every state that the calls can reach, with interrupts between a mark and the `schedule` that
-- follows, there is no zombie child to find, for any target:
-- `waitpid` answers 0 if it is told not to wait, and else goes to sleep.
pub waitpid-never :
    (marked : Bool) (rq : RunQueue) (target : Option ℕ) (nohang : Bool)
    → Reach marked rq
    → (find_zombie_child rq target ≡ none)
      × (waitpid_round rq target nohang
          ≡ (if nohang then (some 0, rq) else (none, sleep_current rq)))
unfolding find_zombie_child waitpid_round
waitpid-never marked rq target nohang r =
    let n = zombie_of-none rq.current target rq.queue (Reach-IsValid r).queued in (n, rw n refl)

-- When there is a current process and it exits, its entries in the queue and as the current
-- process fall by one, and those of all others stay.
pub exit-times :
    (rq : RunQueue) (p : Process) (code pid : ℕ)
    → rq.current ≡ some p
    → times_in pid (exit rq code) + bears pid p ≡ times_in pid rq
unfolding exit
exit-times rq p code pid e = omega (
  arith,
  schedule-times (record rq { current = set_exit code rq.current }) pid,
  ap (λ (c : Option Process). times_current pid c) e,
  ap (λ (c : Option Process). times_current pid (set_exit code c)) e,
  ap (λ (c : Option Process). ended_times pid (set_exit code c)) e,
)

abbrev pub Awake : Process → Type 0
Awake p = is_sleeping p.state ≡ false

abbrev pub AwakeCurrent : Option Process → Type 0
AwakeCurrent none = Unit
AwakeCurrent (some p) = Awake p

woken-Awake : (l : List Process) → All Awake (map woken l)
woken-Awake [] = tt
woken-Awake (p ∷ rest) = (ground arith, woken-Awake rest)

woken_current-Awake : (c : Option Process) → AwakeCurrent (woken_current c)
woken_current-Awake none = tt
woken_current-Awake (some p) = ground arith

woken-times : (pid : ℕ) (l : List Process) → times pid (map woken l) ≡ times pid l
woken-times pid [] = refl
woken-times pid (p ∷ rest) = ground (arith, woken-times pid rest)

-- After `wake_up_all_sleeping` nobody sleeps, and the processes are the same in the same places.
pub wake_up_all_sleeping_lem :
    (rq : RunQueue)
    → All Awake (wake_up_all_sleeping rq).queue
      × AwakeCurrent (wake_up_all_sleeping rq).current
      × ((pid : ℕ) → times pid (wake_up_all_sleeping rq).queue ≡ times pid rq.queue)
unfolding wake_up_all_sleeping
wake_up_all_sleeping_lem rq =
    (woken-Awake rq.queue, woken_current-Awake rq.current, λ pid. woken-times pid rq.queue)
