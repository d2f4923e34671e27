-- ===== src/Pipe.antt =====
-- src/kernel/pipes.c: a pipe as a ring of 512 bytes under two 32-bit counters that wrap.
-- A pipe stands at address `pi`, which fixes its two sleep channels. `fetch` and `store` are the
-- one-byte calls of `copyto` and `copyout` (src/kernel/paging.c) on the caller's page table, `none`
-- for their -1. `wakeup` runs over the process table `procs`, in which the caller is process `self`; the
-- caller's own entry is `proc`. The list `events` is what the other threads do during each sleep.
pub mod Ring
pub mod Critical
pub mod Write
pub mod Read
pub mod Stream
pub mod Close
mod Tests
use risc_v_os.Base.{
  ℕ, zero, suc, ◌+◌, ◌%◌, ◌^◌, Bool, true, false, ◌&&◌, ◌||◌, not, Option, none, some, List, [],
  ◌∷◌, ◌==◌, if◌then◌else◌,
}
use risc_v_os.Base.Outcome.{Outcome, done, panic, asleep, fault, ◌>>=◌}
use risc_v_os.Base.Family.{update}
use risc_v_os.Locks.{Cpu, Spinlock, acquire_lock, release_lock}
use risc_v_os.Process.{Process, get_process_struct, sleep, wakeup}

-- `struct pipe` less its lock.
pub record Pipe : Type 0 where
  pub bytes : ℕ → ℕ
  pub num_read : ℕ
  pub num_write : ℕ
  pub read_open : Bool
  pub write_open : Bool

abbrev pub pipesize : ℕ
pipesize = 512

abbrev pub u32_mod : ℕ
u32_mod = 2 ^ 32

-- The pipe, its lock, the calling process, its hart, and the process table with its index.
pub record State : Type 0 where
  pub lock : Spinlock
  pub pipe : Pipe
  pub proc : Process
  pub cpu : Cpu
  pub self : ℕ
  pub procs : List Process

abbrev pub Event : Type 0
Event = Bool × Spinlock × (Pipe × List Process) → Bool × Spinlock × (Pipe × List Process)

-- `&p->num_read` and `&p->num_write`.
abbrev pub read_channel : ℕ → ℕ
read_channel pi = pi + 524

abbrev pub write_channel : ℕ → ℕ
write_channel pi = pi + 528

abbrev pub is_empty : Pipe → Bool
is_empty p = p.num_read == p.num_write

abbrev pub is_full : Pipe → Bool
is_full p = p.num_write == (p.num_read + pipesize) % u32_mod

-- `p->data[p->num_write++ % PIPESIZE] = ch`
unfoldable pub put : Pipe → ℕ → Pipe
put p ch = record p {
  bytes = update p.bytes (p.num_write % pipesize) ch;
  num_write = (p.num_write + 1) % u32_mod;
}

-- `p->data[p->num_read++ % PIPESIZE]`
unfoldable pub get : Pipe → ℕ × Pipe
get p = (p.bytes (p.num_read % pipesize), record p { num_read = (p.num_read + 1) % u32_mod })

-- What a round of `pipewrite` finds: a full ring, a byte that cannot be fetched, or a byte stored.
pub data Round : Type 0 where
  full failed stored : State → Round

-- `p->read_open == 0 || proc->killed`
abbrev pub is_cut : State → Bool
is_cut s = not s.pipe.read_open || s.proc.killed

module _ {M : Type 0} (store : ℕ → ℕ → M → Option M) where
  -- The copying loop of `piperead` with `left` = n - i bytes to go. A byte that cannot be stored
  -- has been taken already.
  unfoldable pub read_loop : ℕ → ℕ → ℕ → M → Pipe → ℕ × M × Pipe
  unfolding get
  read_loop addr zero i mem p = (i, mem, p)
  read_loop addr (suc left) i mem p = elim (is_empty p) [
    | true ↦ (i, mem, p)
    | false ↦ elim (store (addr + i) (get p).0 mem) [
      | none ↦ (i, mem, (get p).1)
      | some mem' ↦ read_loop addr left (i + 1) mem' (get p).1
    ]
  ]

module _ (hart : ℕ) where
  unfoldable pub acquire : State → Outcome State
  acquire s = do
    c ← get_process_struct s.cpu
    (l, c) ← acquire_lock hart [] s.lock c
    done (record s { lock = l; cpu = c })

  unfoldable pub release : State → Outcome State
  release s = do (l, c) ← release_lock hart s.lock s.cpu; done (record s { lock = l; cpu = c })

  unfoldable pub block : ℕ → Event → State → Outcome State
  block channel others s = do
    ((l, (p, procs)), proc, c) ←
        sleep {S = Pipe × List Process} hart channel others (s.lock, (s.pipe, s.procs)) s.proc s.cpu
    done (record s { lock = l; pipe = p; procs = procs; proc = proc; cpu = c })

  unfoldable pub wake : ℕ → State → Outcome State
  wake channel s = do
    (procs, c) ← wakeup hart s.self channel s.procs s.cpu
    done (record s { procs = procs; cpu = c })

module _ (hart pi : ℕ) where
  -- The tail of `pipewrite`, after the loop or a `break`.
  unfoldable pub finish_write : ℕ → State → Outcome (ℕ × State)
  unfolding wake release
  finish_write i s = do s ← wake hart (read_channel pi) s; s ← release hart s; done (i, s)

  -- One round of the loop of `pipewrite`. A caller that finds the read end closed, or is killed,
  -- releases the lock and goes on.
  unfoldable pub write_round : (ℕ → Option ℕ) → ℕ → ℕ → State → Outcome Round
  unfolding put
  write_round fetch addr i s = do
    s ← if is_cut s then release hart s else done s
    if is_full s.pipe then done (full s) else (elim (fetch (addr + i)) [
      | none ↦ done (failed s)
      | some ch ↦ done (stored (record s { pipe = put s.pipe ch }))
    ])

  -- The loop of `pipewrite` with `left` = n - i bytes to go. When no event is left, a sleep does not
  -- return.
  unfoldable pub write_loop : (ℕ → Option ℕ) → ℕ → List Event → ℕ → ℕ → State → Outcome (ℕ × State)
  unfolding write_round wake block finish_write
  write_loop fetch addr events zero i s = finish_write i s
  write_loop fetch addr [] (suc left) i s = write_round fetch addr i s >>= elim [
    | failed s ↦ finish_write i s
    | stored s ↦ write_loop fetch addr [] left (i + 1) s
    | full s ↦ do
      s ← wake hart (read_channel pi) s
      _ ← block hart (write_channel pi) (λ e. e) s
      asleep
  ]
  write_loop fetch addr (others ∷ events) (suc left) i s = write_round fetch addr i s >>= elim [
    | failed s ↦ finish_write i s
    | stored s ↦ write_loop fetch addr (others ∷ events) left (i + 1) s
    | full s ↦ do
      s ← wake hart (read_channel pi) s
      s ← block hart (write_channel pi) others s
      write_loop fetch addr events (suc left) i s
  ]

  unfoldable pub pipewrite : (ℕ → Option ℕ) → List Event → ℕ → ℕ → State → Outcome (ℕ × State)
  unfolding acquire write_loop
  pipewrite fetch events n addr s = do s ← acquire hart s; write_loop fetch addr events n 0 s

  -- The waiting loop of `piperead`; `none` is its `return -1`, with the lock released.
  unfoldable pub await : List Event → State → Outcome (Option (Unit {0}) × State)
  unfolding block release
  await [] s = elim (is_empty s.pipe && s.pipe.write_open) [
    | false ↦ done (some tt, s)
    | true ↦ elim s.proc.killed [
      | true ↦ do s ← release hart s; done (none, s)
      | false ↦ do _ ← block hart (read_channel pi) (λ e. e) s; asleep
    ]
  ]
  await (others ∷ events) s = elim (is_empty s.pipe && s.pipe.write_open) [
    | false ↦ done (some tt, s)
    | true ↦ elim s.proc.killed [
      | true ↦ do s ← release hart s; done (none, s)
      | false ↦ do s ← block hart (read_channel pi) others s; await events s
    ]
  ]

  module _ {M : Type 0} (store : ℕ → ℕ → M → Option M) where
    -- The count is `none` for -1.
    unfoldable pub piperead : List Event → ℕ → ℕ → M → State → Outcome (Option ℕ × M × State)
    unfolding acquire await read_loop wake release
    piperead events n addr mem s = do
      s ← acquire hart s
      (go, s) ← await events s
      elim go [
        | none ↦ done (none, mem, s)
        | some _ ↦ do
          let (i, mem', p) = read_loop store addr n 0 mem s.pipe
          s ← wake hart (write_channel pi) (record s { pipe = p })
          s ← release hart s
          done (some i, mem', s)
      ]

  -- The value says whether the page of the pipe is given back to the allocator.
  unfoldable pub pipe_close : Bool → State → Outcome (Bool × State)
  unfolding acquire wake release
  pipe_close writable s = do
    s ← acquire hart s
    s ←
        if writable
        then wake hart (read_channel pi)
            (record s { pipe = record (s.pipe) { write_open = false } })
        else wake hart (write_channel pi)
            (record s { pipe = record (s.pipe) { read_open = false } })
    let freed = not s.pipe.read_open && not s.pipe.write_open
    s ← release hart s
    done (freed, s)
