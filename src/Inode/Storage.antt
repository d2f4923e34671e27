-- ===== src/Inode/Storage.antt =====
-- src/kernel/filesys.c, lines 394 to 447 and 470 to 566: the blocks of an inode.
use risc_v_os.Base.{
  ℕ, zero, suc, ◌+◌, ◌-◌, ◌*◌, ◌/◌, ◌%◌, true, false, ◌&&◌, ◌||◌, Option, none, some, ◌==◌, ltb,
  leb, if◌then◌else◌,
}
use risc_v_os.Base.Outcome.{Outcome, done, panic, asleep, ◌>>=◌}
use risc_v_os.Base.Family.{update}
use risc_v_os.Cache.{initsleeplock}
use risc_v_os.Bitmap as Blocks
use risc_v_os.Bitmap.{buffer_alloc, buffer_free, logged_write}
use risc_v_os.Inode.{
  DiskInode, State, alloc_block, buffer_size, free_block, inode_update, log_block, ndirect,
  nindirect, put_inode, u32_mod,
}

abbrev pub put_copy : ℕ → DiskInode → State → State
put_copy i d s = put_inode i (record (s.table i) { copy = d }) s

abbrev pub put_address : ℕ → ℕ → ℕ → State → State
put_address i k addr s =
    put_copy i (record ((s.table i).copy) { addresses = update (s.table i).copy.addresses k addr })
      s

-- The first loop of `inode_truncate`.
unfoldable pub free_direct : ℕ → ℕ → ℕ → State → Outcome State
free_direct zero k i s = done s
free_direct (suc left) k i s = do
  s ←
      if (s.table i).copy.addresses k == 0
      then done s
      else (do s ← free_block ((s.table i).copy.addresses k) s; done (put_address i k 0 s))
  free_direct left (k + 1) i s

-- The loop over the indirect block: the entries stay in the block.
unfoldable pub free_indirect : ℕ → ℕ → ℕ → State → Outcome State
free_indirect zero j n s = done s
free_indirect (suc left) j n s = do
  s ← if s.words n j == 0 then done s else free_block (s.words n j) s
  free_indirect left (j + 1) n s

-- The second loop runs to NDIRECT, like the first.
unfoldable pub inode_truncate : ℕ → State → Outcome State
inode_truncate i s = do
  s ← free_direct ndirect 0 i s
  let n = (s.table i).copy.addresses ndirect
  s ← if n == 0 then done s else (do
    s ← free_indirect ndirect 0 n s
    s ← free_block n s
    done (put_address i ndirect 0 s))
  inode_update i (put_copy i (record ((s.table i).copy) { size = 0 }) s)

unfoldable pub inode_put : ℕ → ℕ → State → Outcome State
inode_put pid i s = do
  let inode = s.table i
  s ←
      if (inode.refcount == 1) && inode.valid && (inode.copy.num_link == 0)
      then (if inode.lock.locked then asleep else (do
        let s = put_inode i (record inode { lock = record { locked = true; process_id = pid } }) s
        s ← inode_truncate i s
        s ← inode_update i (put_copy i (record ((s.table i).copy) { type = 0 }) s)
        done (put_inode i (record (s.table i) { valid = false; lock = initsleeplock }) s)))
      else done s
  done (
      put_inode i (record (s.table i) { refcount = ((s.table i).refcount + u32_mod - 1) % u32_mod })
        s)

-- The address of entry `k` of the inode, allocated if there was none.
unfoldable pub map_direct : ℕ → ℕ → State → Outcome (ℕ × State)
map_direct i k s =
    if (s.table i).copy.addresses k == 0
    then (do (addr, s) ← alloc_block s; done (addr, put_address i k addr s))
    else done ((s.table i).copy.addresses k, s)

-- The address in entry `k` of the indirect block `addr`, likewise.
unfoldable pub map_entry : ℕ → ℕ → State → Outcome (ℕ × State)
map_entry addr k s =
    if s.words addr k == 0
    then (do
      (b, s) ← alloc_block s
      s ← log_block addr (record s { words = update s.words addr (update (s.words addr) k b) })
      done (b, s))
    else done (s.words addr k, s)

-- The address of block `n` of the file.
unfoldable pub buffer_map : ℕ → ℕ → State → Outcome (ℕ × State)
buffer_map i n s =
    if ltb n ndirect
    then map_direct i n s
    else if ltb (n - ndirect) nindirect
    then (do (addr, s) ← map_direct i ndirect s; map_entry addr (n - ndirect) s)
    else panic

-- The bytes of one block from `off` on, at most `left`.
abbrev pub part : ℕ → ℕ → ℕ
part off left =
    if ltb left (buffer_size - off % buffer_size) then left else buffer_size - off % buffer_size

-- `n` bytes from `off` on are replaced.
abbrev pub splice : (ℕ → ℕ) → ℕ → ℕ → (ℕ → ℕ) → ℕ → ℕ
splice old off n bytes k = if leb off k && ltb k (off + n) then bytes (k - off) else old k

-- `either_copyout` and `either_copyin` are `store` and `fetch`: `n` bytes to, or from, an address.
module _ {M : Type 0} (store : ℕ → (ℕ → ℕ) → ℕ → M → Option M) where
  -- The loop of `read_inode` with `left` = n - i bytes to go; a round reads at least one byte.
  unfoldable pub read_blocks : ℕ → ℕ → ℕ → ℕ → ℕ → M → State → Outcome (M × State)
  read_blocks zero i dst off left mem s = asleep
  read_blocks (suc rounds) i dst off left mem s = if left == 0 then done (mem, s) else (do
    (addr, s) ← buffer_map i (off / buffer_size) s
    if addr == 0 then done (mem, s) else (do
      (addr, s) ← buffer_map i (off / buffer_size) s
      let j = part off left
      elim (store dst (λ k. s.blocks.bytes addr (off % buffer_size + k)) j mem) [
        | none ↦ done (mem, s)
        | some mem' ↦ read_blocks rounds i (dst + j) ((off + j) % u32_mod) (left - j) mem' s
      ]))

  -- The count is `none` for -1; it is `n` also when the loop has ended early.
  unfoldable pub read_inode : ℕ → ℕ → ℕ → ℕ → M → State → Outcome (Option ℕ × M × State)
  read_inode i dst off n mem s =
      let size = (s.table i).copy.size in
      if ltb size off || ltb ((off + n) % u32_mod) off
      then done (none, mem, s)
      else (let m = if ltb size (off + n) then size - off else n in
          (do (mem, s) ← read_blocks (m + 1) i dst off m mem s; done (some m, mem, s)))

module _ (fetch : ℕ → ℕ → Option (ℕ → ℕ)) where
  -- The loop of `write_inode`: what is left to write, the offset, and the state.
  unfoldable pub write_blocks : ℕ → ℕ → ℕ → ℕ → ℕ → State → Outcome (ℕ × ℕ × State)
  write_blocks zero i src off left s = asleep
  write_blocks (suc rounds) i src off left s = if left == 0 then done (left, off, s) else (do
    (addr, s) ← buffer_map i (off / buffer_size) s
    let j = part off left
    elim (fetch src j) [
      | none ↦ done (left, off, s)
      | some bytes ↦ do
        let row = splice (s.blocks.bytes addr) (off % buffer_size) j bytes
        s ← log_block addr (record s { blocks = Blocks.put_bytes addr row s.blocks })
        write_blocks rounds i (src + j) (off + j) (left - j) s
    ])

  unfoldable pub write_inode : ℕ → ℕ → ℕ → ℕ → State → Outcome (Option ℕ × State)
  write_inode i src off n s =
      if ltb (s.table i).copy.size off || ltb ((off + n) % u32_mod) off
      then done (none, s)
      else if ltb ((ndirect + nindirect) * buffer_size) (off + n)
      then done (none, s)
      else (do
        (left, off, s) ← write_blocks (n + 1) i src off n s
        let s =
            if ltb (s.table i).copy.size off
            then put_copy i (record ((s.table i).copy) { size = off }) s
            else s
        s ← inode_update i s
        done (some (n - left), s))
