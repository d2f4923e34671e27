-- ===== src/Log.antt =====
-- src/kernel/filesys.c, lines 27 to 222: the logging layer.
-- A block is its 32-bit words (256 of them in 1024 bytes); `cache` is what `buffer_read` gives for
-- each block number, `disk` what the device holds, and `buffer_write` copies one block from the
-- first to the second. `pins` counts the references that `log_write` takes on a cached buffer. The
-- functions run inside `log.lock` or alone (`commit` is set), so the locks are left out here; what
-- other threads do while `begin_op` sleeps is a list of events. The panic of `buffer_read` when all 30
-- buffers are pinned is left out.
pub mod Write
pub mod Blocks
pub mod Commit
pub mod Operation
pub mod Recover
mod Tests
use risc_v_os.Base.{
  ℕ, zero, suc, ◌+◌, ◌-◌, ◌*◌, ◌%◌, ◌^◌, Bool, true, false, ◌||◌, not, List, [], ◌∷◌, ◌==◌, ltb,
  leb, if◌then◌else◌,
}
use risc_v_os.Base.Outcome.{Outcome, done, panic, asleep, panic_if, ◌>>=◌, ◌>>◌}
use risc_v_os.Base.Family.{update}

abbrev pub logsize : ℕ
logsize = 30

abbrev pub maxlogops : ℕ
maxlogops = 10

abbrev pub u32_mod : ℕ
u32_mod = 2 ^ 32

abbrev pub Block : Type 0
Block = ℕ → ℕ

-- The fields of `struct log` in memory; `count` and `block` are its `loghead`.
pub record Log : Type 0 where
  pub start : ℕ
  pub size : ℕ
  pub commit : Bool
  pub num_syscalls : ℕ
  pub count : ℕ
  pub block : ℕ → ℕ

pub record State : Type 0 where
  pub log : Log
  pub cache : ℕ → Block
  pub disk : ℕ → Block
  pub pins : ℕ → ℕ

-- `memmove(to->data, from->data, BUFFER_SIZE); buffer_write(to);` in the 1024 bytes of the block. The
-- byte after them, which `memmove` writes too when `to` lies below `from`, is no part of a block.
unfoldable pub copy_block : ℕ → ℕ → State → State
copy_block to from s = record s {
  cache = update s.cache to (s.cache from);
  disk = update s.disk to (s.cache from);
}

-- The loop of `write_log` from entry `i` on.
unfoldable pub write_log_from : ℕ → ℕ → State → State
unfolding copy_block
write_log_from zero i s = s
write_log_from (suc left) i s =
    write_log_from left (i + 1) (copy_block (s.log.start + i + 1) (s.log.block i) s)

unfoldable pub write_log : State → State
unfolding write_log_from
write_log s = write_log_from s.log.count 0 s

-- The words of the header block after the loop of `write_header`.
unfoldable pub fill_header : ℕ → ℕ → Log → Block → Block
fill_header zero i log words = words
fill_header (suc left) i log words =
    fill_header left (i + 1) log (update words (i + 1) (log.block i))

unfoldable pub write_header : State → State
unfolding fill_header
write_header s =
    let words = fill_header s.log.count 0 s.log (update (s.cache s.log.start) 0 s.log.count) in
    record s { cache = update s.cache s.log.start words; disk = update s.disk s.log.start words }

-- One round of `cpy_log_to_home`; `refcount--` is on 32 bits.
unfoldable pub install : Bool → ℕ → ℕ → State → State
unfolding copy_block
install recover dest logbuf s =
    let t = copy_block dest logbuf s in
    record t {
      pins = if recover then t.pins else update t.pins dest ((t.pins dest + u32_mod - 1) % u32_mod);
    }

unfoldable pub cpy_from : Bool → ℕ → ℕ → State → State
unfolding install
cpy_from recover zero i s = s
cpy_from recover (suc left) i s =
    cpy_from recover left (i + 1) (install recover (s.log.block i) (s.log.start + i + 1) s)

unfoldable pub cpy_log_to_home : Bool → State → State
unfolding cpy_from
cpy_log_to_home recover s = cpy_from recover s.log.count 0 s

abbrev pub clear_count : State → State
clear_count s = record s { log = record (s.log) { count = 0 } }

unfoldable pub commit : State → State
unfolding write_log write_header cpy_log_to_home
commit s =
    if ltb 0 s.log.count
    then write_header (clear_count (cpy_log_to_home false (write_header (write_log s))))
    else s

-- The loop of `read_header`: it runs over the count in memory and does not read the one on disk.
unfoldable pub read_header_from : ℕ → ℕ → State → State
read_header_from zero i s = s
read_header_from (suc left) i s = read_header_from left (i + 1) (record s {
  log = record (s.log) { block = update s.log.block i (s.cache s.log.start (i + 1)) };
})

unfoldable pub read_header : State → State
unfolding read_header_from
read_header s = read_header_from s.log.count 0 s

unfoldable pub recover_from_log : State → State
unfolding read_header cpy_log_to_home write_header
recover_from_log s = write_header (clear_count (cpy_log_to_home true (read_header s)))

-- `init_log` with the superblock's `log_start` and `size`; the header of 124 bytes fits a buffer.
unfoldable pub init_log : ℕ → ℕ → State → State
unfolding recover_from_log
init_log log_start size s =
    recover_from_log (record s { log = record (s.log) { start = log_start; size = size } })

-- The search of `log_write`: the index of the block among the entries, or the count.
unfoldable pub find_entry : ℕ → ℕ → ℕ → Log → ℕ
find_entry blockno zero i log = i
find_entry blockno (suc left) i log =
    let later = find_entry blockno left (i + 1) log in if log.block i == blockno then i else later

unfoldable pub log_write : ℕ → State → Outcome State
unfolding find_entry
log_write blockno s = do
  panic_if (leb logsize s.log.count || leb (s.log.size - 1) s.log.count)
  panic_if (ltb s.log.num_syscalls 1)
  let i = find_entry blockno s.log.count 0 s.log
  let entered = record (s.log) { block = update s.log.block i blockno }
  done (
      if i == s.log.count
      then record s {
        log = record entered { count = s.log.count + 1 };
        pins = update s.pins blockno ((s.pins blockno + 1) % u32_mod);
      }
      else record s { log = entered })

-- `begin_op` must wait: a commit runs, or the reserved space would not hold ten more blocks.
abbrev pub must_wait : Log → Bool
must_wait log = log.commit || ltb logsize (log.count + (log.num_syscalls + 1) * maxlogops)

abbrev pub enter : State → State
enter s = record s { log = record (s.log) { num_syscalls = s.log.num_syscalls + 1 } }

unfoldable pub begin_op : List (State → State) → State → Outcome State
begin_op [] s = if must_wait s.log then asleep else done (enter s)
begin_op (others ∷ events) s =
    let later = begin_op events (others s) in if must_wait s.log then later else done (enter s)

-- Without its `wakeup(&log)`, which File.finish_op adds. It is called after `begin_op`, so
-- `num_syscalls` is not 0.
unfoldable pub end_op : State → Outcome State
unfolding commit
end_op s = do
  panic_if s.log.commit
  let t = record s { log = record (s.log) { num_syscalls = s.log.num_syscalls - 1 } }
  done (
      if s.log.num_syscalls == 1
      then (let u = commit (record t { log = record (t.log) { commit = true } }) in
          record u { log = record (u.log) { commit = false } })
      else t)
