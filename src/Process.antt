-- ===== src/Process.antt =====
-- src/kernel/process.c: the process table, sleeping and waking, kill and reparent.
-- A process is its index in the table `p[MAXPROC]`; a sleep channel is an address, 0 for none. The
-- fields of `struct process` that these functions do not touch (stack, page table, trap frame,
-- context, open files, working directory, name) are left out here. All calls are those of one
-- hart, so a lock that another hart holds leaves the caller spinning; src/kernel/locks.c under
-- interleaving is Locks/Mutex.
pub mod Wakeup
pub mod Sleep
mod Tests
use risc_v_os.Base.{
  ℕ, zero, suc, ◌+◌, ◌-◌, Bool, true, false, ◌&&◌, not, Option, none, some, List, [], ◌∷◌, ◌==◌,
  if◌then◌else◌, length, get_elem?, set,
}
use risc_v_os.Base.Outcome.{Outcome, done, panic, asleep, fault, panic_if, ◌>>=◌, ◌>>◌}
use risc_v_os.Locks.{
  Cpu, Spinlock, lock_intr_disable, lock_intr_enable, is_holding, acquire_lock, release_lock,
}

pub data ProcState : Type 0 where
  unused used sleeping runnable running zombie : ProcState

pub record Process : Type 0 where
  pub lock : Spinlock
  pub state : ProcState
  pub sleep_channel : ℕ
  pub killed : Bool
  pub exit_state : ℕ
  pub process_id : ℕ
  pub parent : Option ℕ

abbrev pub maxproc : ℕ
maxproc = 64

-- A process structure as a sleep channel: its address, which is not 0.
abbrev pub proc_channel : ℕ → ℕ
proc_channel i = i + 1

abbrev pub is_sleeping : ProcState → Bool
is_sleeping sleeping = true
is_sleeping _ = false

abbrev pub is_running : ProcState → Bool
is_running running = true
is_running _ = false

abbrev pub is_runnable : ProcState → Bool
is_runnable runnable = true
is_runnable _ = false

abbrev pub is_zombie : ProcState → Bool
is_zombie zombie = true
is_zombie _ = false

abbrev pub is_child : Option ℕ → ℕ → Bool
is_child none i = false
is_child (some j) i = j == i

-- The interrupt pair around reading `c->proc`.
unfoldable pub get_process_struct : Cpu → Outcome Cpu
get_process_struct c = lock_intr_enable (lock_intr_disable c)

-- One round of the loop of `wakeup`, for a process that is not the caller.
unfoldable pub wake_one : ℕ → ℕ → Process → Cpu → Outcome (Process × Cpu)
wake_one hart channel proc c = do
  (l, c) ← acquire_lock hart [] proc.lock c
  let proc' =
      if is_sleeping proc.state && (proc.sleep_channel == channel)
      then record proc { lock = l; state = runnable }
      else record proc { lock = l }
  (l, c) ← release_lock hart l c
  done (record proc' { lock = l }, c)

-- The loop of `wakeup` from process `i` on; the caller is process `self`.
unfoldable pub wakeup_from : ℕ → ℕ → ℕ → ℕ → List Process → Cpu → Outcome (List Process × Cpu)
unfolding wake_one get_process_struct
wakeup_from hart self channel i [] c = done ([], c)
wakeup_from hart self channel i (proc ∷ rest) c = do
  c ← get_process_struct c
  (proc, c) ← if i == self then done (proc, c) else wake_one hart channel proc c
  (rest, c) ← wakeup_from hart self channel (i + 1) rest c
  done (proc ∷ rest, c)

unfoldable pub wakeup : ℕ → ℕ → ℕ → List Process → Cpu → Outcome (List Process × Cpu)
unfolding wakeup_from
wakeup hart self channel procs c = wakeup_from hart self channel 0 procs c

-- The loop of `kill`: the table and the value that it returns (`true` for 0, `false` for -1).
unfoldable pub kill : ℕ → ℕ → List Process → Cpu → Outcome (Bool × List Process × Cpu)
kill hart pid [] c = done (false, [], c)
kill hart pid (proc ∷ rest) c = do
  (l, c) ← acquire_lock hart [] proc.lock c
  let found = proc.process_id == pid
  let proc' =
      if found
      then record proc {
        lock = l;
        killed = true;
        state = if is_sleeping proc.state then runnable else proc.state;
      }
      else record proc { lock = l }
  (l, c) ← release_lock hart l c
  let later = kill hart pid rest c
  (r, rest, c) ← if found then done (true, rest, c) else later
  done (r, record proc' { lock = l } ∷ rest, c)

-- The loop of `reparent`: with each child that it moves it wakes `initproc`.
unfoldable pub reparent_from : ℕ → ℕ → ℕ → ℕ → ℕ → List Process → Cpu → Outcome (List Process × Cpu)
reparent_from zero hart self initproc pp procs c = done (procs, c)
reparent_from (suc left) hart self initproc pp procs c = do
  (procs, c) ← (elim (get_elem? procs (maxproc - suc left)) [
    | none ↦ done (procs, c)
    | some proc ↦
        if is_child proc.parent pp
        then wakeup hart self (proc_channel initproc)
            (set procs (maxproc - suc left) (record proc { parent = some initproc })) c
        else done (procs, c)
  ])
  reparent_from left hart self initproc pp procs c

unfoldable pub reparent : ℕ → ℕ → ℕ → ℕ → List Process → Cpu → Outcome (List Process × Cpu)
unfolding reparent_from
reparent hart self initproc pp procs c = reparent_from maxproc hart self initproc pp procs c

-- `scheduler` up to and after the switch. `wake` is what others do to this process while it is
-- switched out: it runs again only when `cpu_scheduler` has found it runnable, has made it running
-- and has handed its lock over.
unfoldable pub scheduler : ℕ → Process → Cpu → Outcome (Process × Cpu)
scheduler hart proc c = do
  (held, c) ← is_holding hart proc.lock c
  panic_if (not held)
  panic_if (not (c.depth_lock_intr_disable == 1))
  panic_if (is_running proc.state)
  panic_if c.intr
  done (record proc { state = running }, c)

unfoldable pub yield_process : ℕ → Process → Cpu → Outcome (Process × Cpu)
unfolding scheduler get_process_struct
yield_process hart proc c = do
  c ← get_process_struct c
  (l, c) ← acquire_lock hart [] proc.lock c
  (proc, c) ← scheduler hart (record proc { lock = l; state = runnable }) c
  (l, c) ← release_lock hart proc.lock c
  done (record proc { lock = l }, c)

-- `sleep(channel, lock)`. `others` is what the rest of the system does to the caller's lock and
-- shared object `S` (and to the `killed` mark) between the switch and the return from it.
unfoldable pub sleep {ℓ} :
    {S : Type ℓ}
    → ℕ
    → ℕ
    → (Bool × Spinlock × S → Bool × Spinlock × S)
    → Spinlock × S
    → Process
    → Cpu
    → Outcome ((Spinlock × S) × Process × Cpu)
unfolding scheduler get_process_struct
sleep hart channel others (lock, s) proc c = do
  c ← get_process_struct c
  (pl, c) ← acquire_lock hart [] proc.lock c
  (lock, c) ← release_lock hart lock c
  (proc, c) ←
      scheduler hart (record proc { lock = pl; sleep_channel = channel; state = sleeping }) c
  let (killed, lock, s) = others (proc.killed, lock, s)
  (pl, c) ← release_lock hart proc.lock c
  (lock, c) ← acquire_lock hart [] lock c
  done ((lock, s), record proc { lock = pl; sleep_channel = 0; killed = killed }, c)
