-- ===== src/Scheduler/Step.antt =====
-- What the operations of src/proc.rs keep: who may stand in the queue, that no process is lost, and
-- that none is passed over by one of lower rank.
use sar_osx.Base.{
  All, All-map, All-append, ℕ, ◌+◌, ◌-◌, ◌≤◌, ◌<◌, ◌≡◌, refl, ◌⊎◌, inl, inr, true, ◌&&◌, Bool,
  false, ◌||◌, Option, none, some, List, [], ◌∷◌, ◌++◌, map, arith, ◌==◌, if◌then◌else◌, Bool-cases,
}
use sar_osx.Scheduler.{
  running, runnable, is_running, is_runnable, is_sleeping, has_ended, Process, RunQueue, new,
  pick_next, spawn, yielded, requeue, schedule, tick, count_down, counted, mark_sleeping, mark_exit,
  set_state, set_exit, is_zombie, sleeping, wake_first, wake_up, woken, woken_current,
  wake_up_all_sleeping, reap, reap_zombie,
}
use sar_osx.Scheduler.Pick.{AtLeast, Waits, Picked, pick_next_lem}

-- In the queue a process is runnable or asleep.
abbrev pub IsQueued : Process → Type 0
IsQueued p = (is_runnable p.state || is_sleeping p.state) ≡ true

-- The current process is running, but once it has been marked to sleep or to end it may be in any
-- state but that of a zombie.
abbrev pub IsCurrent : (marked : Bool) → Option Process → Type 0
IsCurrent marked none = Unit
IsCurrent false (some p) = is_running p.state ≡ true
IsCurrent true (some p) = is_zombie p.state ≡ false

pub record IsValid (marked : Bool) (rq : RunQueue) : Type 0 where
  pub queued : All IsQueued rq.queue
  pub current : IsCurrent marked rq.current

-- The processes that bear a process id.
abbrev pub bears : ℕ → Process → ℕ
bears pid p = if p.pid == pid then 1 else 0

abbrev pub times : ℕ → List Process → ℕ
times pid [] = 0
times pid (p ∷ rest) = bears pid p + times pid rest

abbrev pub times_current : ℕ → Option Process → ℕ
times_current pid none = 0
times_current pid (some p) = bears pid p

abbrev pub times_in : ℕ → RunQueue → ℕ
times_in pid rq = times pid rq.queue + times_current pid rq.current

-- The same for a current process that has ended.
abbrev pub ended_times : ℕ → Option Process → ℕ
ended_times pid none = 0
ended_times pid (some p) = if has_ended p.state then bears pid p else 0

times-append : (pid : ℕ) (xs ys : List Process) → times pid (xs ++ ys) ≡ times pid xs + times pid ys
times-append pid [] ys = omega arith
times-append pid (x ∷ xs) ys = omega (arith, times-append pid xs ys)

Picked-times :
    (pid : ℕ) (queue : List Process) (p : Process) (rest : List Process)
    → Picked queue p rest
    → times pid rest + bears pid p ≡ times pid queue
Picked-times pid queue p rest k =
    rw (k.was, k.left)
      (omega (arith, times-append pid k.before (p ∷ k.after), times-append pid k.before k.after))

Picked-All :
    (P : Process → Type 0) (queue : List Process) (p : Process) (rest : List Process)
    → Picked queue p rest
    → All P queue
    → All P rest
Picked-All P queue p rest k h = rw k.left (All-drop P k.before p k.after (rw k.was at h))
  where
    All-drop :
        (P : Process → Type 0) (xs : List Process) (x : Process) (ys : List Process)
        → All P (xs ++ x ∷ ys)
        → All P (xs ++ ys)
    All-drop P [] x ys h = h.1
    All-drop P (y ∷ xs) x ys h = (h.0, All-drop P xs x ys h.1)

yielded-IsQueued : (p : Process) → has_ended (yielded p).state ≡ false → IsQueued (yielded p)
yielded-IsQueued p e = ground arith

-- What `requeue` leaves behind when the current process gives way.
requeue-All :
    (queue : List Process) (c : Option Process)
    → All IsQueued queue
    → All IsQueued (requeue queue c)
unfolding requeue
requeue-All queue none h = h
requeue-All queue (some p) h = elim (Bool-cases (has_ended (yielded p).state)) [
  | inl e ↦ rw e h
  | inr e ↦ rw e (All-append IsQueued queue (yielded p ∷ []) h (yielded-IsQueued p e, tt))
]

Picked-rest :
    (queue : List Process) (p : Process) (rest : List Process)
    → Picked queue p rest
    → All (AtLeast p.priority) rest
Picked-rest queue p rest k = rw k.left (
    All-append (AtLeast p.priority) k.before k.after
      (All-map (λ q h r. omega (arith, h r)) k.before k.first) k.least)

requeue-times :
    (pid : ℕ) (queue : List Process) (c : Option Process)
    → times pid (requeue queue c) + ended_times pid c ≡ times pid queue + times_current pid c
unfolding requeue
requeue-times pid queue none = omega arith
requeue-times pid queue (some p) = ground (arith, times-append pid queue (yielded p ∷ []))

-- Scheduling keeps the invariant from any current process, in whatever state.
pub schedule-IsValid : (rq : RunQueue) → All IsQueued rq.queue → IsValid false (schedule rq)
unfolding schedule
schedule-IsValid rq h =
    let q = requeue rq.queue rq.current in
    let kept = requeue-All rq.queue rq.current h in
    elim (pick_next_lem q) [
      | inl (n, r, w) ↦ rw (n, r) (record { queued = kept; current = tt })
      | inr (p, s, k) ↦
          rw s (record { queued = Picked-All IsQueued q p (pick_next q).1 k kept; current = refl })
    ]

-- After `schedule` either none runs, no process of the queue is runnable and the queue is the one that
-- it was with the process that gave way behind it; or the process that runs was the first runnable one
-- of least priority number in that queue, it alone has left it, and no runnable process that waits has
-- a smaller number.
pub schedule-best :
    (rq : RunQueue)
    → (((schedule rq).current ≡ none)
        × ((schedule rq).queue ≡ requeue rq.queue rq.current)
        × All Waits (schedule rq).queue)
      ⊎ ((p : Process) × (is_runnable p.state ≡ true)
          × ((schedule rq).current ≡ some (record p { state = running }))
          × Picked (requeue rq.queue rq.current) p (schedule rq).queue
          × All (AtLeast p.priority) (schedule rq).queue)
unfolding schedule
schedule-best rq =
    let q = requeue rq.queue rq.current in
    elim (pick_next_lem q) [
      | inl (n, r, w) ↦ inl (rw n, r, rw r w)
      | inr (p, s, k) ↦ inr (p, k.ready, rw s, k, Picked-rest q p (pick_next q).1 k)
    ]

-- No process is lost or made by `schedule`, but that one that has ended is dropped.
pub schedule-times :
    (rq : RunQueue) (pid : ℕ)
    → times_in pid (schedule rq) + (ended_times pid rq.current) ≡ times_in pid rq
unfolding schedule
schedule-times rq pid =
    let q = requeue rq.queue rq.current in
    let all = requeue-times pid rq.queue rq.current in
    elim (pick_next_lem q) [
      | inl (n, r, w) ↦ rw (n, r) (omega (arith, all))
      | inr (p, s, k) ↦ rw s (omega (arith, all, Picked-times pid q p (pick_next q).1 k))
    ]

-- The critical sections that change the run queue, and whether the current process is marked before
-- and behind each: marked to sleep or to end, with its own call of `schedule` still to come. Interrupts
-- can come in between, so a section of any other call may follow a mark, another mark aside: with one
-- processor only the current process runs, and behind its mark it comes to `schedule`. `ticks` is the
-- first section of `tick`. A process that is spawned is new, and runnable.
pub data Call (rq : RunQueue) : Bool → Bool → RunQueue → Type 0 where
  spawns : {m : Bool} → (p : Process) → p.state ≡ runnable → Call rq m m (spawn rq p)
  schedules : {m : Bool} → Call rq m false (schedule rq)
  ticks : {m : Bool} → Call rq m m (count_down rq)
  sleeps : Call rq false true (mark_sleeping rq)
  wakes : {m : Bool} → (pid : ℕ) → Call rq m m (wake_up rq pid)
  wakes_all : {m : Bool} → Call rq m m (wake_up_all_sleeping rq)
  exits : (code : ℕ) → Call rq false true (mark_exit rq code)
  reaps : {m : Bool} → (pid : ℕ) → Call rq m m (reap_zombie rq pid)

pub data Reach : Bool → RunQueue → Type 0 where
  boot : Reach false new
  call : {m m' : Bool} {rq rq' : RunQueue} → Reach m rq → Call rq m m' rq' → Reach m' rq'

wake_first-All : (pid : ℕ) (l : List Process) → All IsQueued l → All IsQueued (wake_first pid l)
unfolding wake_first
wake_first-All pid [] h = h
wake_first-All pid (p ∷ rest) h = elim (Bool-cases (p.pid == pid && is_sleeping p.state)) [
  | inl e ↦ rw e (refl, h.1)
  | inr e ↦ rw e (h.0, wake_first-All pid rest h.1)
]

woken-IsQueued : (p : Process) → IsQueued p → IsQueued (woken p)
woken-IsQueued p h = ground arith

woken-All : (l : List Process) → All IsQueued l → All IsQueued (map woken l)
woken-All [] h = h
woken-All (p ∷ rest) h = (woken-IsQueued p h.0, woken-All rest h.1)

woken_current-IsCurrent :
    (m : Bool) (c : Option Process) → IsCurrent m c → IsCurrent m (woken_current c)
woken_current-IsCurrent m none h = h
woken_current-IsCurrent false (some p) h = ground arith
woken_current-IsCurrent true (some p) h = ground arith

counted-IsCurrent : (m : Bool) (c : Option Process) → IsCurrent m c → IsCurrent m (counted c)
counted-IsCurrent m none h = h
counted-IsCurrent false (some p) h = h
counted-IsCurrent true (some p) h = h

sleeping-IsCurrent : (c : Option Process) → IsCurrent true (set_state sleeping c)
sleeping-IsCurrent none = tt
sleeping-IsCurrent (some p) = refl

ended-IsCurrent : (code : ℕ) (c : Option Process) → IsCurrent true (set_exit code c)
ended-IsCurrent code none = tt
ended-IsCurrent code (some p) = refl

reap-All : (pid : ℕ) (l : List Process) → All IsQueued l → All IsQueued (reap pid l)
unfolding reap
reap-All pid [] h = h
reap-All pid (p ∷ rest) h = elim (Bool-cases (p.pid == pid)) [
  | inl e ↦ rw e (reap-All pid rest h.1)
  | inr e ↦ rw e (h.0, reap-All pid rest h.1)
]

Call-IsValid : {m m' : Bool} {rq rq' : RunQueue} → Call rq m m' rq' → IsValid m rq → IsValid m' rq'
unfolding spawn wake_up wake_up_all_sleeping reap_zombie
Call-IsValid {m} {m'} {rq} (spawns p e) v = record {
  queued = All-append IsQueued rq.queue (p ∷ []) v.queued (rw e refl, tt);
  current = v.current;
}
Call-IsValid {m} {m'} {rq} schedules v = schedule-IsValid rq v.queued
Call-IsValid {m} {m'} {rq} ticks v = record {
  queued = v.queued;
  current = counted-IsCurrent m rq.current v.current;
}
Call-IsValid {m} {m'} {rq} sleeps v = record {
  queued = v.queued;
  current = sleeping-IsCurrent rq.current;
}
Call-IsValid {m} {m'} {rq} (wakes pid) v = record {
  queued = wake_first-All pid rq.queue v.queued;
  current = v.current;
}
Call-IsValid {m} {m'} {rq} wakes_all v = record {
  queued = woken-All rq.queue v.queued;
  current = woken_current-IsCurrent m rq.current v.current;
}
Call-IsValid {m} {m'} {rq} (exits code) v = record {
  queued = v.queued;
  current = ended-IsCurrent code rq.current;
}
Call-IsValid {m} {m'} {rq} (reaps pid) v = record {
  queued = reap-All pid rq.queue v.queued;
  current = v.current;
}

-- In every state that the critical sections can reach in any order in which a mark is followed by no
-- other mark before a `schedule`: a process in the queue is runnable or asleep; the current process, if
-- there is one, is running, or after a mark in any state but that of a zombie.
pub Reach-IsValid : {m : Bool} {rq : RunQueue} → Reach m rq → IsValid m rq
Reach-IsValid boot = record { queued = tt; current = tt }
Reach-IsValid (call r c) = Call-IsValid c (Reach-IsValid r)

-- A tick takes one from the time slice of the current process and leaves it running, until the slice
-- is used up: then it schedules, and the process gives way with a full slice.
pub tick_lem :
    (rq : RunQueue) (p : Process)
    → rq.current ≡ some p
    → let p' : Process = record p { time_slice = p.time_slice - 1 } in
      (1 < p.time_slice → tick rq ≡ record rq { current = some p' })
      × (p.time_slice ≤ 1 → tick rq ≡ schedule (record rq { current = some p' }))
unfolding tick
tick_lem rq p e = (
  λ h. let more : (p.time_slice - 1 == 0) ≡ false = ground arith in rw (e, more),
  λ h. let done : (p.time_slice - 1 == 0) ≡ true = ground arith in rw (e, done),
)
