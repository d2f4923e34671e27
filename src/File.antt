-- ===== src/File.antt =====
-- src/kernel/file.c: the table of open files over pipes and inodes.
-- A file is its index in the table, an inode its slot in the inode table, a pipe the address of its
-- page. `fetch` and `store` are `copyin` and `copyout` on the caller's page table, as in Pipe and
-- Inode; `devices` is `devsw`. A count is a word: from 2^31 on the C `int` is
-- negative. The table's spinlock is left out, as in Cache.
-- A page that `pipe_close` gives to `kfree` is recorded.
pub mod Transfer
pub mod Creation
pub mod Ends
pub mod Rounds
pub mod Table
pub mod Offset
mod Tests
use risc_v_os.Base.{
  ℕ, zero, suc, ◌+◌, ◌-◌, ◌%◌, ◌^◌, Bool, true, false, ◌&&◌, ◌||◌, not, Option, none, some, List,
  [], ◌∷◌, ◌==◌, ltb, leb, if◌then◌else◌,
}
use risc_v_os.Base.Family.{update}
use risc_v_os.Base.Outcome.{Outcome, done, panic, asleep, panic_if, ◌>>=◌, ◌>>◌}
use risc_v_os.Locks.{Cpu, Spinlock}
use risc_v_os.Log as LogLayer
use risc_v_os.Log.{begin_op, end_op}
use risc_v_os.Process.{Process, get_process_struct, wakeup}
use risc_v_os.Pipe as PipeLayer
use risc_v_os.Pipe.{Pipe, Event, pipewrite, piperead, pipe_close}
use risc_v_os.Inode as InodeLayer
use risc_v_os.Inode.{inode_lock, inode_unlock}
use risc_v_os.Inode.Storage.{inode_put, read_inode, write_inode}

abbrev pub numfile : ℕ
numfile = 100

abbrev pub numdev : ℕ
numdev = 10

-- `max` of `write_file`, with MAXOPBLOCKS 10.
abbrev pub max_chunk : ℕ
max_chunk = 3072

abbrev pub u32_mod : ℕ
u32_mod = 2 ^ 32

pub data FileType : Type 0 where
  fd_none fd_pipe fd_inode fd_device fd_socket : FileType

pub record File : Type 0 where
  pub type : FileType
  pub ref : ℕ
  pub readable : Bool
  pub writable : Bool
  pub pipe : ℕ
  pub inode : ℕ
  pub offset : ℕ
  pub major_dev_num : ℕ

-- The table, what the files stand for, the calling process on its hart, the process table with its
-- index, and the address of `log`.
pub record State : Type 0 where
  pub files : ℕ → File
  pub system : InodeLayer.State
  pub pipe_lock : ℕ → Spinlock
  pub pipe : ℕ → Pipe
  pub proc : Process
  pub cpu : Cpu
  pub self : ℕ
  pub log_channel : ℕ
  pub procs : List Process
  pub freed : List ℕ

pub record Stat : Type 0 where
  pub dev : ℕ
  pub inode_num : ℕ
  pub num_link : ℕ
  pub type : ℕ
  pub size : ℕ

abbrev pub put_file : ℕ → File → State → State
put_file f file s = record s { files = update s.files f file }

abbrev pub move_offset : ℕ → ℕ → State → State
move_offset f n s =
    put_file f (record (s.files f) { offset = ((s.files f).offset + n) % u32_mod }) s

abbrev pub pipe_state : ℕ → State → PipeLayer.State
pipe_state pi s = record {
  lock = s.pipe_lock pi;
  pipe = s.pipe pi;
  proc = s.proc;
  cpu = s.cpu;
  self = s.self;
  procs = s.procs;
}

abbrev pub put_pipe : ℕ → PipeLayer.State → State → State
put_pipe pi p s = record s {
  pipe_lock = update s.pipe_lock pi p.lock;
  pipe = update s.pipe pi p.pipe;
  proc = p.proc;
  cpu = p.cpu;
  procs = p.procs;
}

abbrev pub put_system : InodeLayer.State → State → State
put_system t s = record s { system = t }

abbrev pub put_log : LogLayer.State → State → State
put_log l s = record s {
  system = record (s.system) { blocks = record (s.system.blocks) { log = l } };
}

-- The first file without references from index `i` on.
unfoldable pub first_free : ℕ → ℕ → (ℕ → File) → Option ℕ
first_free zero i files = none
first_free (suc left) i files =
    let later = first_free left (i + 1) files in if (files i).ref == 0 then some i else later

unfoldable pub file_alloc : State → Option ℕ × State
unfolding first_free
file_alloc s = elim (first_free numfile 0 s.files) [
  | none ↦ (none, s)
  | some f ↦ (some f, put_file f (record (s.files f) { ref = 1 }) s)
]

unfoldable pub file_inc : ℕ → State → Outcome State
file_inc f s = do
  panic_if (ltb (s.files f).ref 1)
  done (put_file f (record (s.files f) { ref = (s.files f).ref + 1 }) s)

unfoldable pub file_dup : ℕ → State → Outcome State
file_dup f s = do
  panic_if (ltb (s.files f).ref 1)
  done (put_file f (record (s.files f) { ref = (s.files f).ref + 1 }) s)

-- `end_op` on the log, and its `wakeup(&log)`, which stands on both of its branches.
unfoldable pub finish_op : ℕ → State → Outcome State
finish_op hart s = do
  l ← end_op s.system.blocks.log
  let s = put_log l s
  (procs, c) ← wakeup hart s.self s.log_channel s.procs s.cpu
  done (record s { procs = procs; cpu = c })

module _ (hart : ℕ) (log_events : List (LogLayer.State → LogLayer.State)) where
  -- `begin_op(); inode_put(inode); end_op();`
  unfoldable pub put_in_op : ℕ → State → Outcome State
  put_in_op i s = do
    l ← begin_op log_events s.system.blocks.log
    let s = put_log l s
    t ← inode_put s.proc.process_id i s.system
    let s = put_system t s
    finish_op hart s

  -- What the last reference to a file of this kind closes.
  unfoldable pub close_last : File → State → Outcome State
  close_last file s = elim (file.type) [
    | fd_none ↦ done s
    | fd_pipe ↦ do
      (freed, p) ← pipe_close hart file.pipe file.writable (pipe_state file.pipe s)
      let s = put_pipe file.pipe p s
      done (if freed then record s { freed = file.pipe ∷ s.freed } else s)
    | fd_inode ↦ put_in_op file.inode s
    | fd_device ↦ put_in_op file.inode s
    | fd_socket ↦ done s
  ]

  unfoldable pub file_close : ℕ → State → Outcome State
  file_close f s = do
    let file = s.files f
    panic_if (ltb file.ref 1)
    let left = record file { ref = file.ref - 1 }
    if ltb 0 left.ref
        then done (put_file f left s)
        else close_last left (put_file f (record left { ref = 0; type = fd_none }) s)

abbrev pub stat_inode : InodeLayer.Inode → Stat
stat_inode inode = record {
  dev = inode.dev;
  inode_num = inode.inode_num;
  num_link = inode.copy.num_link;
  type = inode.copy.type;
  size = inode.copy.size;
}

-- The value is `true` for 0 and `false` for -1.
module _ {M : Type 0} (store_stat : ℕ → Stat → M → Option M) where
  unfoldable pub stat_of : ℕ → ℕ → M → State → Outcome (Bool × M × State)
  stat_of i address mem s = do
    t ← inode_lock s.proc.process_id i s.system
    let stat = stat_inode (t.table i)
    t ← inode_unlock s.proc.process_id i t
    let s = put_system t s
    elim (store_stat address stat mem) [
      | none ↦ done (false, mem, s)
      | some mem' ↦ done (true, mem', s)
    ]

  unfoldable pub file_stat : ℕ → ℕ → M → State → Outcome (Bool × M × State)
  file_stat f address mem s = do
    c ← get_process_struct s.cpu
    let s = record s { cpu = c }
    elim (s.files f).type [
      | fd_none ↦ done (false, mem, s)
      | fd_pipe ↦ done (false, mem, s)
      | fd_inode ↦ stat_of (s.files f).inode address mem s
      | fd_device ↦ stat_of (s.files f).inode address mem s
      | fd_socket ↦ done (false, mem, s)
    ]
