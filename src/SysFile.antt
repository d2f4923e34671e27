-- ===== src/SysFile.antt =====
-- src/kernel/sysfile.c: the system calls on file descriptors.
-- An argument of a system call is what `argint`, `argaddr` and `argstr` (src/kernel/syscall.c) give
-- for it, `none` for their -1; a path is the address of the kernel's copy. `openfile` is the array of
-- NUMOFILES pointers in `struct process`; an access past its end leaves the array. Memory is one
-- space of bytes, so `store` and `fetch` are those of the kernel.
pub mod Tree
pub mod Links
pub mod Open
pub mod Pipes
pub mod Descriptors
mod Tests
use risc_v_os.Base.{
  ℕ, zero, suc, ◌+◌, Bool, true, false, Option, none, some, List, ◌==◌, leb, if◌then◌else◌,
}
use risc_v_os.Base.Family.{update}
use risc_v_os.Base.Outcome.{Outcome, done, panic, fault, ◌>>=◌}
use risc_v_os.Log as LogLayer
use risc_v_os.Pipe.{Event}
use risc_v_os.Libc.{Memory}
use risc_v_os.File as FileLayer
use risc_v_os.File.{Stat, numfile, file_dup, file_close, file_stat}
use risc_v_os.File.Transfer.{Device, read_file, write_file}

abbrev pub numofiles : ℕ
numofiles = 16

-- The files and inodes, the open files and working directory of the caller, and memory.
pub record State : Type 0 where
  pub file : FileLayer.State
  pub openfile : ℕ → Option ℕ
  pub cwd : ℕ
  pub mem : Memory

abbrev pub put_fd : ℕ → Option ℕ → State → State
put_fd fd f s = record s { openfile = update s.openfile fd f }

-- `p->openfile[fd]`
unfoldable pub open_file : ℕ → State → Outcome (Option ℕ)
open_file fd s = if leb numofiles fd then fault else done (s.openfile fd)

-- The descriptor and its file. A negative `int` is a word above NUMFILE.
unfoldable pub argfd : Option ℕ → State → Outcome (Option (ℕ × ℕ))
argfd none s = done none
argfd (some fd) s =
    if leb numfile fd
    then done none
    else (do f ← open_file fd s; elim f [ none ↦ done none | some f ↦ done (some (fd, f)) ])

-- The loop of `fdalloc` from descriptor `fd` on.
unfoldable pub fdalloc_from : ℕ → ℕ → ℕ → State → Outcome (Option ℕ × State)
fdalloc_from zero fd f s = done (none, s)
fdalloc_from (suc left) fd f s = do
  used ← open_file fd s
  elim used [
    | none ↦ done (some fd, put_fd fd (some f) s)
    | some _ ↦ fdalloc_from left (fd + 1) f s
  ]

unfoldable pub fdalloc : ℕ → State → Outcome (Option ℕ × State)
fdalloc f s = fdalloc_from numfile 0 f s

unfoldable pub sys_dup : Option ℕ → State → Outcome (Option ℕ × State)
sys_dup arg s = do
  file ← argfd arg s
  elim file [
    | none ↦ done (none, s)
    | some (_, f) ↦ do
      (fd, s) ← fdalloc f s
      elim fd [
        | none ↦ done (none, s)
        | some fd ↦ do t ← file_dup f s.file; done (some fd, record s { file = t })
      ]
  ]

module _ (hart : ℕ) (log_events : List (LogLayer.State → LogLayer.State)) where
  -- The value is `true` for 0 and `false` for -1.
  unfoldable pub sys_close : Option ℕ → State → Outcome (Bool × State)
  sys_close arg s = do
    file ← argfd arg s
    elim file [
      | none ↦ done (false, s)
      | some (fd, f) ↦ do
        let s = put_fd fd none s
        t ← file_close hart log_events f s.file
        done (true, record s { file = t })
    ]

  module _ (devices : ℕ → Device Memory) where
    -- `store` is `copyout` on the caller's page table, and `fetch` is `copyin`.
    unfoldable pub sys_read :
        (ℕ → (ℕ → ℕ) → ℕ → Memory → Option Memory)
        → List Event
        → Option ℕ
        → Option ℕ
        → Option ℕ
        → State
        → Outcome (Option ℕ × State)
    sys_read store events arg address count s = do
      file ← argfd arg s
      elim file [
        | none ↦ done (none, s)
        | some (_, f) ↦ elim count [
          | none ↦ done (none, s)
          | some n ↦ elim address [
            | none ↦ done (none, s)
            | some p ↦ do
              (r, mem, t) ← read_file hart devices store events f p n s.mem s.file
              done (r, record s { file = t; mem = mem })
          ]
        ]
      ]

    unfoldable pub sys_write :
        (Memory → ℕ → ℕ → Option (ℕ → ℕ))
        → List Event
        → Option ℕ
        → Option ℕ
        → Option ℕ
        → State
        → Outcome (Option ℕ × State)
    sys_write fetch events arg address count s = do
      file ← argfd arg s
      elim file [
        | none ↦ done (none, s)
        | some (_, f) ↦ elim count [
          | none ↦ done (none, s)
          | some n ↦ elim address [
            | none ↦ done (none, s)
            | some p ↦ do
              (r, t) ← write_file hart devices (fetch s.mem) events log_events f p n s.file
              done (r, record s { file = t })
          ]
        ]
      ]

-- `store_stat` is `copyout` of the structure.
unfoldable pub sys_fstat :
    (ℕ → Stat → Memory → Option Memory) → Option ℕ → Option ℕ → State → Outcome (Bool × State)
sys_fstat store_stat arg address s = do
  file ← argfd arg s
  elim file [
    | none ↦ done (false, s)
    | some (_, f) ↦ elim address [
      | none ↦ done (false, s)
      | some st ↦ do
        (ok, mem, t) ← file_stat store_stat f st s.mem s.file
        done (ok, record s { file = t; mem = mem })
    ]
  ]
