-- ===== src/File/Tests.antt =====
-- A table with one open file, on an inode of five bytes, and a pipe that nobody uses.
use risc_v_os.Base.{
  ℕ, Option, ◌+◌, ◌≡◌, refl, true, false, none, some, [], arith, ◌==◌, if◌then◌else◌,
}
use risc_v_os.Base.Outcome.{done}
use risc_v_os.Base.Family.{update}
use risc_v_os.Locks.{
  initlock, acquire_lock, release_lock, is_holding, spin, lock_intr_disable, lock_intr_enable,
}
use risc_v_os.Pmm.{Pmm, kalloc, first_clear, mark, page_address}
use risc_v_os.File.Creation.{set_ends, pipe_of, with_first, with_second, pipealloc}
use risc_v_os.File.Ends.{Opened, pipealloc_lem}
use risc_v_os.File.{first_free}
use risc_v_os.Cache.{initsleeplock}
use risc_v_os.Process.{running}
use risc_v_os.Inode as InodeLayer
use risc_v_os.Inode.Content.{Memory}
use risc_v_os.File.{State, File, fd_none, fd_inode, put_file, file_alloc, file_dup, file_close}
use risc_v_os.File.Transfer.{Device, write_chunks}
use risc_v_os.File.Rounds.{Ended, write_chunks-Ended}
use risc_v_os.File.Table.{file_close-file_dup}

abbrev inodes : InodeLayer.State
inodes = record {
  blocks = record {
    size = 1000;
    bitmap_start = 45;
    bytes = λ n k. if n == 46 then k + 65 else 255;
    log = record {
      log = record {
        start = 2;
        size = 30;
        commit = false;
        num_syscalls = 0;
        count = 0;
        block = λ j. 0;
      };
      cache = λ b i. 0;
      disk = λ b i. 0;
      pins = λ b. 0;
    };
  };
  words = λ n k. 0;
  inodes = λ n k. record {
    type = 0;
    major_dev_num = 0;
    minor_dev_num = 0;
    num_link = 0;
    size = 0;
    addresses = λ k. 0;
  };
  table = λ i. record {
    dev = 1;
    inode_num = 7;
    refcount = if i == 0 then 1 else 0;
    lock = initsleeplock;
    valid = true;
    copy = record {
      type = 2;
      major_dev_num = 0;
      minor_dev_num = 0;
      num_link = 1;
      size = 5;
      addresses = λ k. if k == 0 then 46 else 0;
    };
  };
  num_inodes = 200;
  inode_start = 32;
  buffers_below = true;
  after_block = λ n. 0;
}

-- File 0 has read one byte.
abbrev opened : ℕ → File
opened f = record {
  type = if f == 0 then fd_inode else fd_none;
  ref = if f == 0 then 1 else 0;
  readable = true;
  writable = false;
  pipe = 0;
  inode = 0;
  offset = 1;
  major_dev_num = 0;
}

abbrev state : State
state = record {
  files = opened;
  system = inodes;
  pipe_lock = λ pi. initlock;
  pipe = λ pi. record {
    bytes = λ k. 0;
    num_read = 0;
    num_write = 0;
    read_open = false;
    write_open = false;
  };
  proc = record {
    lock = initlock;
    state = running;
    sleep_channel = 0;
    killed = false;
    exit_state = 0;
    process_id = 3;
    parent = none;
  };
  cpu = record { depth_lock_intr_disable = 0; intr_prev_state = false; intr = true };
  self = 0;
  log_channel = 0x80010000;
  procs = [];
  freed = [];
}

abbrev no_devices : ℕ → Device Memory
no_devices major = record { read = none; write = none }

file_close-file_dup_example :
    (t u : State) × (file_dup 0 state ≡ done t)
    × (file_close 0 [] 0 t ≡ done u)
    × ((j : ℕ) → u.files j ≡ opened j)
    × (record u { files = opened } ≡ state)
file_close-file_dup_example = file_close-file_dup 0 [] 0 state (omega arith)

abbrev zeros : ℕ → ℕ → Option (ℕ → ℕ)
zeros address n = some (λ k. 0)

write_chunks-Ended_example :
    Ended 0 no_devices zeros [] 0 100 5000 0 state
      (write_chunks 0 no_devices zeros (5000 + 1) [] 0 100 5000 0 state)
write_chunks-Ended_example = write_chunks-Ended 0 no_devices zeros [] 0 100 5000 state

-- An allocator of three pages, the first of them taken.
abbrev pages : Pmm
pages = record { lock = initlock; bitmap = λ k. 1 }

abbrev pages_after : Pmm
pages_after = record { lock = initlock; bitmap = mark pages.bitmap 1 }

abbrev claimed_state : State
claimed_state =
    put_file 2 (record (opened 2) { ref = 1 }) (put_file 1 (record (opened 1) { ref = 1 }) state)

abbrev piped : State
piped =
    set_ends 1 2 2281693184
      (record claimed_state { cpu = record (state.cpu) { intr_prev_state = true } })

runs_pipealloc : pipealloc 0x87ffc000 0 [] pages state ≡ done (some (1, 2), pages_after, piped)
unfolding pipealloc with_first with_second pipe_of file_alloc first_free kalloc first_clear
    acquire_lock release_lock is_holding spin lock_intr_disable lock_intr_enable page_address
    set_ends update
runs_pipealloc = refl

pipealloc_lem_example : Opened 1 2 state piped
pipealloc_lem_example =
    pipealloc_lem 0x87ffc000 0 [] pages pages_after state piped 1 2 runs_pipealloc
