-- ===== src/SysFile/Tests.antt =====
-- A caller with one open file, as descriptors 0 and 2.
use risc_v_os.Base.{
  ℕ, ◌+◌, ◌≡◌, ◌≢◌, ◌⊎◌, ◌<◌, refl, true, false, none, some, [], arith, ◌==◌, if◌then◌else◌,
}
use risc_v_os.Base.Outcome.{done, fault}
use risc_v_os.Locks.{initlock}
use risc_v_os.Cache.{initsleeplock}
use risc_v_os.Process.{running}
use risc_v_os.Inode as InodeLayer
use risc_v_os.File as FileLayer
use risc_v_os.File.{File, fd_none, fd_inode}
use risc_v_os.SysFile.{
  State, numofiles, put_fd, fdalloc, fdalloc_from, open_file, argfd, sys_dup, sys_close,
}
use risc_v_os.SysFile.Descriptors.{fdalloc_lem, sys_close-sys_dup}

abbrev inodes : InodeLayer.State
inodes = record {
  blocks = record {
    size = 1000;
    bitmap_start = 45;
    bytes = λ n k. if n == 46 then k + 65 else 255;
    log = record {
      log = record {
        start = 2;
        size = 30;
        commit = false;
        num_syscalls = 0;
        count = 0;
        block = λ j. 0;
      };
      cache = λ b i. 0;
      disk = λ b i. 0;
      pins = λ b. 0;
    };
  };
  words = λ n k. 0;
  inodes = λ n k. record {
    type = 0;
    major_dev_num = 0;
    minor_dev_num = 0;
    num_link = 0;
    size = 0;
    addresses = λ k. 0;
  };
  table = λ i. record {
    dev = 1;
    inode_num = 7;
    refcount = if i == 0 then 1 else 0;
    lock = initsleeplock;
    valid = true;
    copy = record {
      type = 2;
      major_dev_num = 0;
      minor_dev_num = 0;
      num_link = 1;
      size = 5;
      addresses = λ k. if k == 0 then 46 else 0;
    };
  };
  num_inodes = 200;
  inode_start = 32;
  buffers_below = true;
  after_block = λ n. 0;
}

-- File 0 has read one byte.
abbrev opened : ℕ → File
opened f = record {
  type = if f == 0 then fd_inode else fd_none;
  ref = if f == 0 then 1 else 0;
  readable = true;
  writable = false;
  pipe = 0;
  inode = 0;
  offset = 1;
  major_dev_num = 0;
}

abbrev files : FileLayer.State
files = record {
  files = opened;
  system = inodes;
  pipe_lock = λ pi. initlock;
  pipe = λ pi. record {
    bytes = λ k. 0;
    num_read = 0;
    num_write = 0;
    read_open = false;
    write_open = false;
  };
  proc = record {
    lock = initlock;
    state = running;
    sleep_channel = 0;
    killed = false;
    exit_state = 0;
    process_id = 3;
    parent = none;
  };
  cpu = record { depth_lock_intr_disable = 0; intr_prev_state = false; intr = true };
  self = 0;
  log_channel = 0x80010000;
  procs = [];
  freed = [];
}

abbrev state : State
state = record {
  file = files;
  openfile = λ fd. if (fd == 0) then some 0 else if fd == 2 then some 0 else none;
  cwd = 0;
  mem = λ a. 0;
}

fdalloc_lem_example :
    ((n : ℕ) × (n < numofiles)
      × (state.openfile n ≡ none)
      × ((k : ℕ) → k < n → state.openfile k ≢ none)
      × (fdalloc 0 state ≡ done (some n, put_fd n (some 0) state)))
    ⊎ (((k : ℕ) → k < numofiles → state.openfile k ≢ none) × (fdalloc 0 state ≡ fault))
fdalloc_lem_example = fdalloc_lem 0 state

-- The sixteen descriptors of `struct process` are in use.
leaves_array : fdalloc 0 (record state { openfile = λ fd. some 0 }) ≡ fault
unfolding fdalloc fdalloc_from open_file
leaves_array = refl

-- 16 is no descriptor, and yet it is looked up.
reads_past_array : argfd (some 16) state ≡ fault
unfolding argfd open_file
reads_past_array = refl

sys_close-sys_dup_example :
    (n : ℕ) × (t u : State) × (sys_dup (some 2) state ≡ done (some n, t))
    × (t.openfile n ≡ some 0)
    × (sys_close 0 [] (some n) t ≡ done (true, u))
    × ((k : ℕ) → u.openfile k ≡ state.openfile k)
    × ((j : ℕ) → u.file.files j ≡ opened j)
    × (record (u.file) { files = opened } ≡ files)
sys_close-sys_dup_example =
    sys_close-sys_dup 0 [] 2 0 1 state (omega arith) refl (omega arith) (omega arith) refl
