-- ===== src/File/Creation.antt =====
-- src/kernel/pipes.c, lines 8 to 45: `pipealloc`, which opens the two ends of a new pipe.
use risc_v_os.Base.{ℕ, Bool, true, false, Option, none, some, List, ◌==◌, if◌then◌else◌}
use risc_v_os.Base.Family.{update}
use risc_v_os.Base.Outcome.{Outcome, done, ◌>>=◌}
use risc_v_os.Locks.{initlock}
use risc_v_os.Log as LogLayer
use risc_v_os.Pipe.{Pipe}
use risc_v_os.Pmm.{Pmm, kalloc}
use risc_v_os.File.{File, State, fd_pipe, put_file, file_alloc, file_close}

-- The pipe that `pipealloc` makes of a page; the bytes are those of the page.
abbrev pub new_pipe : Pipe → Pipe
new_pipe p = record p { num_read = 0; num_write = 0; read_open = true; write_open = true }

abbrev pub pipe_end : ℕ → Bool → File → File
pipe_end pi writable file = record file {
  type = fd_pipe;
  readable = if writable then false else true;
  writable = writable;
  pipe = pi;
}

-- The two ends are set on the page `pi`.
unfoldable pub set_ends : ℕ → ℕ → ℕ → State → State
set_ends f0 f1 pi s =
    let t : State = record s {
      pipe_lock = update s.pipe_lock pi initlock;
      pipe = update s.pipe pi (new_pipe (s.pipe pi));
    } in
    let u : State = put_file f0 (pipe_end pi false (t.files f0)) t in
    put_file f1 (pipe_end pi true (u.files f1)) u

module _ (mem_end hart : ℕ) (log_events : List (LogLayer.State → LogLayer.State)) where
  -- The label `bad` for one of the two files.
  unfoldable pub close_end : Option ℕ → State → Outcome State
  close_end none s = done s
  close_end (some f) s = file_close hart log_events f s

  unfoldable pub pipe_bad :
      Option ℕ → Option ℕ → Pmm → State → Outcome (Option (ℕ × ℕ) × Pmm × State)
  pipe_bad f0 f1 m s = do s ← close_end f0 s; s ← close_end f1 s; done (none, m, s)

  -- `pipealloc` with both files: `kalloc` gives a page, for which there is nothing more to undo.
  unfoldable pub pipe_of : ℕ → ℕ → Pmm → State → Outcome (Option (ℕ × ℕ) × Pmm × State)
  pipe_of f0 f1 m s = do
    (pi, m, c) ← kalloc mem_end hart m s.cpu
    let s = record s { cpu = c }
    if pi == 0
        then pipe_bad (some f0) (some f1) m s
        else done (some (f0, f1), m, set_ends f0 f1 pi s)

  -- After the first `file_alloc`, and after both.
  unfoldable pub with_second : ℕ → Pmm → Option ℕ × State → Outcome (Option (ℕ × ℕ) × Pmm × State)
  with_second f0 m (none, s) = pipe_bad (some f0) none m s
  with_second f0 m (some f1, s) = pipe_of f0 f1 m s

  unfoldable pub with_first : Pmm → Option ℕ × State → Outcome (Option (ℕ × ℕ) × Pmm × State)
  with_first m (none, s) = pipe_bad none none m s
  with_first m (some f0, s) = with_second f0 m (file_alloc s)

  -- The file to read from and the file to write to, none for -1.
  unfoldable pub pipealloc : Pmm → State → Outcome (Option (ℕ × ℕ) × Pmm × State)
  pipealloc m s = with_first m (file_alloc s)
