-- ===== src/Scheduler.antt =====
-- src/proc.rs: processes, the run queue and the scheduler; with the process part of src/proc/fork.rs
-- (the children of a process) and `exit` of src/syscall.rs.
-- A process stands at one place, in the queue or as the current one, and is changed there. Each
-- definition that takes a run queue is one critical section of its lock, but for `tick`,
-- `sleep_current`, `exit` and `waitpid_round`: these are several, and here run without an interrupt in
-- between. `count_down`, `mark_sleeping` and `mark_exit` are their first sections; Step lets any other
-- call come before the `schedule` that follows.
pub mod Pick
pub mod Step
pub mod Wait
mod Tests
use sar_osx.Base.{
  ℕ, zero, suc, ◌+◌, ◌-◌, ◌*◌, ◌/◌, ◌%◌, ◌^◌, ◌≤◌, ◌<◌, min, max, bit_and, bit_or, bit_xor, ◌≡◌,
  refl, sym, ap, ◌∙◌, ◌≢◌, ◌↔◌, ◌⊎◌, inl, inr, Bool, true, false, not, ◌&&◌, ◌||◌, Option, none,
  some, List, [], ◌∷◌, ◌++◌, map, append-nil, append_assoc, arith, ltb, leb, ◌==◌, if◌then◌else◌,
  ltb→lt, lt→ltb, leb→le, ==_iff, tests, Bool-cases, Option-cases, length, get_elem?, set, get_or,
  take, drop, replicate, length-append, length-set, length-take, length-drop, length-replicate,
  length-map,
}
use sar_osx.VmSpace.{VmSpace}

pub data ProcessState : Type 0 where
  running runnable sleeping zombie dead : ProcessState

abbrev pub is_running : ProcessState → Bool
is_running running = true
is_running _ = false

abbrev pub is_runnable : ProcessState → Bool
is_runnable runnable = true
is_runnable _ = false

abbrev pub is_sleeping : ProcessState → Bool
is_sleeping sleeping = true
is_sleeping _ = false

abbrev pub is_zombie : ProcessState → Bool
is_zombie zombie = true
is_zombie _ = false

-- `matches!(state, Dead | Zombie)`
abbrev pub has_ended : ProcessState → Bool
has_ended zombie = true
has_ended dead = true
has_ended _ = false

pub record CpuContext : Type 0 where
  pub r15 : ℕ
  pub r14 : ℕ
  pub r13 : ℕ
  pub r12 : ℕ
  pub rbp : ℕ
  pub rbx : ℕ
  pub rsp : ℕ
  pub rip : ℕ
  pub rflags : ℕ
  pub cs : ℕ
  pub ss : ℕ

-- The address space is named by the physical address of its top table.
pub record Process : Type 0 where
  pub pid : ℕ
  pub ppid : ℕ
  pub state : ProcessState
  pub context : CpuContext
  pub pml4_phys : ℕ
  pub vm : VmSpace
  pub kernel_stack : ℕ
  pub kernel_stack_size : ℕ
  pub priority : ℕ
  pub time_slice : ℕ
  pub base_slice : ℕ
  pub exit_code : ℕ
  pub name : List ℕ
  pub pending_signals : ℕ
  pub signal_mask : ℕ

abbrev pub kernel_stack_size : ℕ
kernel_stack_size = 16 * 1024

abbrev pub default_time_slice : ℕ
default_time_slice = 10

pub record RunQueue : Type 0 where
  pub queue : List Process
  pub current : Option Process

abbrev pub new : RunQueue
new = record { queue = []; current = none }

-- Index and priority of the runnable process of least priority, the first of these.
abbrev pub better : Process → Option (ℕ × ℕ) → Option (ℕ × ℕ)
better p none = some (0, p.priority)
better p (some (i, k)) = if leb p.priority k then some (0, p.priority) else some (suc i, k)

abbrev pub shift : Option (ℕ × ℕ) → Option (ℕ × ℕ)
shift none = none
shift (some (i, k)) = some (suc i, k)

pub find_best : List Process → Option (ℕ × ℕ)
find_best [] = none
find_best (p ∷ rest) =
    let best = find_best rest in if is_runnable p.state then better p best else shift best

-- `Vec::remove`
pub remove_at : List Process → ℕ → Option Process × List Process
remove_at [] i = (none, [])
remove_at (p ∷ rest) zero = (some p, rest)
remove_at (p ∷ rest) (suc i) = let (q, rest') = remove_at rest i in (q, p ∷ rest')

pick_at : List Process → Option (ℕ × ℕ) → Option Process × List Process
pick_at queue none = (none, queue)
pick_at queue (some (i, _)) = remove_at queue i

pub pick_next : List Process → Option Process × List Process
unfolding find_best remove_at pick_at
pick_next queue = pick_at queue (find_best queue)

pub spawn : RunQueue → Process → RunQueue
spawn rq p = record rq { queue = rq.queue ++ p ∷ [] }

-- What happens to the process that gives way.
abbrev pub yielded : Process → Process
yielded p =
    if is_running p.state then record p { state = runnable; time_slice = p.base_slice } else p

pub requeue : List Process → Option Process → List Process
requeue queue none = queue
requeue queue (some p) = if has_ended (yielded p).state then queue else queue ++ yielded p ∷ []

abbrev pub start_running : Option Process → Option Process
start_running none = none
start_running (some p) = some (record p { state = running })

-- The switch of contexts that follows is not part of the state.
pub schedule : RunQueue → RunQueue
schedule rq =
    let (next, rest) = pick_next (requeue rq.queue rq.current) in
    record { queue = rest; current = start_running next }

abbrev pub counted : Option Process → Option Process
counted none = none
counted (some p) = some (record p { time_slice = p.time_slice - 1 })

abbrev pub count_down : RunQueue → RunQueue
count_down rq = record rq { current = counted rq.current }

abbrev pub is_spent : Option Process → Bool
is_spent none = false
is_spent (some p) = p.time_slice == 0

pub tick : RunQueue → RunQueue
tick rq =
    let rq' = count_down rq in let next = schedule rq' in if is_spent rq'.current then next else rq'

abbrev pub set_state : ProcessState → Option Process → Option Process
set_state s none = none
set_state s (some p) = some (record p { state = s })

abbrev pub mark_sleeping : RunQueue → RunQueue
mark_sleeping rq = record rq { current = set_state sleeping rq.current }

pub sleep_current : RunQueue → RunQueue
sleep_current rq = schedule (mark_sleeping rq)

wake_first : ℕ → List Process → List Process
wake_first pid [] = []
wake_first pid (p ∷ rest) =
    let later = p ∷ wake_first pid rest in
    if p.pid == pid && is_sleeping p.state then record p { state = runnable } ∷ rest else later

pub wake_up : RunQueue → ℕ → RunQueue
unfolding wake_first
wake_up rq pid = record rq { queue = wake_first pid rq.queue }

abbrev pub woken : Process → Process
woken p = if is_sleeping p.state then record p { state = runnable } else p

abbrev pub woken_current : Option Process → Option Process
woken_current none = none
woken_current (some p) = some (woken p)

pub wake_up_all_sleeping : RunQueue → RunQueue
wake_up_all_sleeping rq = record { queue = map woken rq.queue; current = woken_current rq.current }

abbrev pub set_exit : ℕ → Option Process → Option Process
set_exit code none = none
set_exit code (some p) = some (record p { state = dead; exit_code = code })

abbrev pub mark_exit : RunQueue → ℕ → RunQueue
mark_exit rq code = record rq { current = set_exit code rq.current }

-- `SYS_EXIT`, up to the halt that waits for the next interrupt.
pub exit : RunQueue → ℕ → RunQueue
exit rq code = schedule (mark_exit rq code)

-- `find_zombie_child`; `none` as the target stands for -1.
abbrev pub wanted : (current_pid : ℕ) → Option ℕ → Process → Bool
wanted me none p = p.ppid == me && is_zombie p.state
wanted me (some target) p = p.ppid == me && (p.pid == target && is_zombie p.state)

zombie_in : ℕ → Option ℕ → List Process → Option (ℕ × ℕ)
zombie_in me target [] = none
zombie_in me target (p ∷ rest) =
    if wanted me target p then some (p.pid, p.exit_code) else zombie_in me target rest

zombie_of : Option Process → Option ℕ → List Process → Option (ℕ × ℕ)
zombie_of none target queue = none
zombie_of (some p) target queue = zombie_in p.pid target queue

pub find_zombie_child : RunQueue → Option ℕ → Option (ℕ × ℕ)
unfolding zombie_in zombie_of
find_zombie_child rq target = zombie_of rq.current target rq.queue

reap : ℕ → List Process → List Process
reap pid [] = []
reap pid (p ∷ rest) = let kept = reap pid rest in if p.pid == pid then kept else p ∷ kept

pub reap_zombie : RunQueue → ℕ → RunQueue
unfolding reap
reap_zombie rq pid = record rq { queue = reap pid rq.queue }

-- One round of the loop of `sys_waitpid`: the answer, or `none` where the process goes to sleep and
-- tries again. The write of the status word into the memory of the process is left out.
waited : RunQueue → (nohang : Bool) → Option (ℕ × ℕ) → Option ℕ × RunQueue
waited rq nohang (some (pid, code)) = (some pid, reap_zombie rq pid)
waited rq nohang none = if nohang then (some 0, rq) else (none, sleep_current rq)

pub waitpid_round : RunQueue → Option ℕ → (nohang : Bool) → Option ℕ × RunQueue
unfolding waited
waitpid_round rq target nohang = waited rq nohang (find_zombie_child rq target)
