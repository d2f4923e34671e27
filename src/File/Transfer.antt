-- ===== src/File/Transfer.antt =====
-- src/kernel/file.c, lines 97 to 176: `read_file` and `write_file`.
-- The calls of `piperead` and `pipewrite` pass the address where the count stands and the count
-- where the address stands.
use risc_v_os.Base.{
  ℕ, zero, suc, ◌+◌, ◌-◌, ◌^◌, Bool, ◌||◌, not, Option, none, some, List, ◌==◌, ltb, leb,
  if◌then◌else◌,
}
use risc_v_os.Base.Outcome.{Outcome, done, panic, asleep, ◌>>=◌}
use risc_v_os.Log as LogLayer
use risc_v_os.Log.{begin_op, end_op}
use risc_v_os.Pipe.{Event, pipewrite, piperead}
use risc_v_os.Inode.{inode_lock, inode_unlock}
use risc_v_os.Inode.Storage.{read_inode, write_inode}
use risc_v_os.File.{
  fd_none, fd_pipe, fd_inode, fd_device, fd_socket, State, numdev, max_chunk, move_offset,
  pipe_state, put_pipe, put_system, put_log, finish_op,
}

-- The entry of `devsw`: a function is there or not.
pub record Device (M : Type 0) : Type 0 where
  pub read : Option (ℕ → ℕ → M → State → Outcome (Option ℕ × M × State))
  pub write : Option (ℕ → ℕ → State → Outcome (Option ℕ × State))

-- A `short` outside 0 to NUMDEV - 1.
abbrev pub is_no_device : ℕ → Bool
is_no_device major = leb (2 ^ 15) major || leb numdev major

-- A word read as a count of bytes by an `int` loop.
abbrev pub int_count : ℕ → ℕ
int_count n = if ltb n (2 ^ 31) then n else 0

-- `if (r > 0) file->offset += r;`
abbrev pub advance : ℕ → Option ℕ → State → State
advance f none s = s
advance f (some count) s = if ltb 0 count then move_offset f count s else s

-- `if (r != n1) break; i += r;` and what follows.
unfoldable pub after_chunk :
    (ℕ → State → Outcome (ℕ × State)) → ℕ → ℕ → Option ℕ × State → Outcome (ℕ × State)
after_chunk go n1 i (none, s) = done (i, s)
after_chunk go n1 i (some count, s) = if count == n1 then go (i + count) s else done (i, s)

module _ {M : Type 0} (hart : ℕ) (devices : ℕ → Device M) where
  module _ (store : ℕ → (ℕ → ℕ) → ℕ → M → Option M) where
    abbrev store_byte : ℕ → ℕ → M → Option M
    store_byte address ch mem = store address (λ k. ch) 1 mem

    -- The branch of an inode: the offset moves by what was read.
    unfoldable pub read_file_inode : ℕ → ℕ → ℕ → M → State → Outcome (Option ℕ × M × State)
    read_file_inode f address n mem s = do
      let i = (s.files f).inode
      let pid = s.proc.process_id
      t ← inode_lock pid i s.system
      (a, mem, t) ← read_inode store i address (s.files f).offset n mem t
      let s = advance f a s
      t ← inode_unlock pid i t
      done (a, mem, put_system t s)

    unfoldable pub read_file : List Event → ℕ → ℕ → ℕ → M → State → Outcome (Option ℕ × M × State)
    read_file events f address n mem s =
        let file = s.files f in
        if not file.readable then done (none, mem, s) else elim file.type [
          | fd_none ↦ panic
          | fd_pipe ↦ do
            (a, mem, p) ←
                piperead hart file.pipe store_byte events (int_count address) n mem
                  (pipe_state file.pipe s)
            done (a, mem, put_pipe file.pipe p s)
          | fd_inode ↦ read_file_inode f address n mem s
          | fd_device ↦
              if is_no_device file.major_dev_num
              then done (none, mem, s)
              else elim (devices file.major_dev_num).read [
                | none ↦ done (none, mem, s)
                | some read ↦ read address n mem s
              ]
          | fd_socket ↦ panic
        ]

  module _ (fetch : ℕ → ℕ → Option (ℕ → ℕ)) where
    abbrev fetch_byte : ℕ → Option ℕ
    fetch_byte address = elim (fetch address 1) [ none ↦ none | some bytes ↦ some (bytes 0) ]

    -- One round of the loop of `write_file`: `begin_op` to `end_op`.
    unfoldable pub write_chunk :
        List (LogLayer.State → LogLayer.State) → ℕ → ℕ → ℕ → State → Outcome (Option ℕ × State)
    write_chunk log_events f address n s = do
      let i = (s.files f).inode
      let pid = s.proc.process_id
      l ← begin_op log_events s.system.blocks.log
      let s = put_log l s
      t ← inode_lock pid i s.system
      (r, t) ← write_inode fetch i address (s.files f).offset n t
      let s = advance f r s
      t ← inode_unlock pid i t
      s ← finish_op hart (put_system t s)
      done (r, s)

    -- The loop of `write_file` on an inode with `i` bytes written: how far it comes. A round that
    -- goes on has written at least one byte.
    unfoldable pub write_chunks :
        ℕ → List (LogLayer.State → LogLayer.State) → ℕ → ℕ → ℕ → ℕ → State → Outcome (ℕ × State)
    write_chunks zero log_events f address n i s = asleep
    write_chunks (suc rounds) log_events f address n i s =
        let n1 = if ltb max_chunk (n - i) then max_chunk else n - i in
        if ltb i (int_count n)
        then write_chunk log_events f (address + i) n1 s
          >>= after_chunk (λ i s. write_chunks rounds log_events f address n i s) n1 i
        else done (i, s)

    -- What `pipewrite` returns is dropped.
    unfoldable pub write_file :
        List Event
        → List (LogLayer.State → LogLayer.State)
        → ℕ
        → ℕ
        → ℕ
        → State
        → Outcome (Option ℕ × State)
    write_file events log_events f address n s =
        let file = s.files f in
        if not file.writable then done (none, s) else elim file.type [
          | fd_none ↦ panic
          | fd_pipe ↦ do
            (_, p) ←
                pipewrite hart file.pipe fetch_byte events (int_count address) n
                  (pipe_state file.pipe s)
            done (some 0, put_pipe file.pipe p s)
          | fd_inode ↦ do
            (i, s) ← write_chunks (n + 1) log_events f address n 0 s
            done (if i == n then some n else none, s)
          | fd_device ↦
              if is_no_device file.major_dev_num
              then done (none, s)
              else elim (devices file.major_dev_num).write [
                | none ↦ done (none, s)
                | some write ↦ write address n s
              ]
          | fd_socket ↦ panic
        ]
