-- ===== src/SysFile/Pipes.antt =====
-- src/kernel/sysfile.c, lines 644 to 675: `sys_pipe`.
use risc_v_os.Base.{ℕ, ◌+◌, Bool, true, false, Option, none, some, List}
use risc_v_os.Base.Outcome.{Outcome, done, ◌>>=◌}
use risc_v_os.Log as LogLayer
use risc_v_os.Libc.{Memory}
use risc_v_os.Pmm.{Pmm}
use risc_v_os.File.{file_close}
use risc_v_os.File.Creation.{pipealloc}
use risc_v_os.SysFile.{State, put_fd, fdalloc}

module _ (mem_end hart : ℕ) (log_events : List (LogLayer.State → LogLayer.State)) where
  unfoldable pub close_both : ℕ → ℕ → State → Outcome State
  close_both rf wf s = do
    t ← file_close hart log_events rf s.file
    t ← file_close hart log_events wf t
    done (record s { file = t })

  -- `store_int` is `copyout` of an `int`. The value is `true` for 0 and `false` for -1.
  unfoldable pub sys_pipe :
      (ℕ → ℕ → Memory → Option Memory) → Option ℕ → Pmm → State → Outcome (Bool × Pmm × State)
  sys_pipe store_int none m s = done (false, m, s)
  sys_pipe store_int (some fdarray) m s = do
    (ends, m, t) ← pipealloc mem_end hart log_events m s.file
    let s = record s { file = t }
    elim ends [
      | none ↦ done (false, m, s)
      | some (rf, wf) ↦ do
        (fd0, s) ← fdalloc rf s
        elim fd0 [
          | none ↦ do s ← close_both rf wf s; done (false, m, s)
          | some fd0 ↦ do
            (fd1, s) ← fdalloc wf s
            elim fd1 [
              | none ↦ do s ← close_both rf wf (put_fd fd0 none s); done (false, m, s)
              | some fd1 ↦ elim (store_int fdarray fd0 s.mem) [
                | none ↦ do
                  s ← close_both rf wf (put_fd fd1 none (put_fd fd0 none s))
                  done (false, m, s)
                | some mem ↦ elim (store_int (fdarray + 4) fd1 mem) [
                  | none ↦ do
                    s ←
                        close_both rf wf
                          (put_fd fd1 none (put_fd fd0 none (record s { mem = mem })))
                    done (false, m, s)
                  | some mem' ↦ done (true, m, record s { mem = mem' })
                ]
              ]
            ]
        ]
    ]
