-- ===== src/Inode.antt =====
-- src/kernel/filesys.c, lines 282 to 574: the inodes, in memory and on disk.
-- The cached blocks stand in three views by what they hold: bytes of files and bitmaps (with the
-- log, in Bitmap), words of indirect blocks, and disk inodes by block and index. `inode` functions
-- take the slot of `inode_table` as its contents where they change nothing else. The table's
-- spinlock is left out, as in Cache.
pub mod Storage
pub mod Table
pub mod Fresh
pub mod Addresses
pub mod Mapping
pub mod Update
pub mod Content
mod Tests
use risc_v_os.Base.{
  ℕ, zero, suc, ◌+◌, ◌-◌, ◌*◌, ◌/◌, ◌%◌, ◌^◌, Bool, true, false, ◌&&◌, ◌||◌, not, Option, none,
  some, ◌==◌, ltb, leb, if◌then◌else◌,
}
use risc_v_os.Base.Outcome.{Outcome, done, panic, asleep, panic_if, ◌>>=◌, ◌>>◌}
use risc_v_os.Base.Family.{update}
use risc_v_os.Cache.{Sleeplock, initsleeplock, is_holding_sleeplock}
use risc_v_os.Bitmap as Blocks
use risc_v_os.Bitmap.{buffer_alloc, buffer_free, logged_write}

abbrev pub numinode : ℕ
numinode = 50

abbrev pub ndirect : ℕ
ndirect = 12

abbrev pub nindirect : ℕ
nindirect = 256

abbrev pub inode_per_block : ℕ
inode_per_block = 16

abbrev pub buffer_size : ℕ
buffer_size = 1024

abbrev pub u32_mod : ℕ
u32_mod = 2 ^ 32

-- `struct disk_inode`, of 64 bytes.
pub record DiskInode : Type 0 where
  pub type : ℕ
  pub major_dev_num : ℕ
  pub minor_dev_num : ℕ
  pub num_link : ℕ
  pub size : ℕ
  pub addresses : ℕ → ℕ

-- `struct inode`, with the copy of the disk inode as one field.
pub record Inode : Type 0 where
  pub dev : ℕ
  pub inode_num : ℕ
  pub refcount : ℕ
  pub lock : Sleeplock
  pub valid : Bool
  pub copy : DiskInode

-- `buffers_below` says whether the linker has put the buffers below `inode_table`; `after_block` is
-- the byte that follows the buffer of each block. Slot 50 of the table is what follows it.
pub record State : Type 0 where
  pub blocks : Blocks.State
  pub words : ℕ → ℕ → ℕ
  pub inodes : ℕ → ℕ → DiskInode
  pub table : ℕ → Inode
  pub num_inodes : ℕ
  pub inode_start : ℕ
  pub buffers_below : Bool
  pub after_block : ℕ → ℕ

abbrev pub put_inode : ℕ → Inode → State → State
put_inode i inode s = record s { table = update s.table i inode }

abbrev pub inode_block : ℕ → State → ℕ
inode_block num s = num / inode_per_block + s.inode_start

abbrev pub disk_inode : ℕ → State → DiskInode
disk_inode num s = s.inodes (inode_block num s) (num % inode_per_block)

abbrev pub put_disk_inode : ℕ → DiskInode → State → State
put_disk_inode num d s = record s {
  inodes =
      update s.inodes (inode_block num s)
        (update (s.inodes (inode_block num s)) (num % inode_per_block) d);
}

-- A value whose low byte has been written.
abbrev pub with_low : ℕ → ℕ → ℕ
with_low x b = x / 256 * 256 + b % 256

-- The next disk inode is in the same block.
abbrev pub has_next : ℕ → Bool
has_next num = ltb (num % inode_per_block + 1) inode_per_block

-- `memmove(dinode->addresses, inode->addresses, 52)`: towards a lower address it also writes the byte
-- after them, with the low byte of the next slot's `dev`.
abbrev pub spill_disk : ℕ → State → State
spill_disk i s =
    let num = (s.table i).inode_num in
    let byte = (s.table (i + 1)).dev in
    let next = disk_inode (num + 1) s in
    if not s.buffers_below
    then s
    else if has_next num
    then put_disk_inode (num + 1) (record next { type = with_low next.type byte }) s
    else record s { after_block = update s.after_block (inode_block num s) (byte % 256) }

-- `memmove(inode->addresses, dinode->addresses, 52)`: towards a lower address it also writes the low
-- byte of the next slot's `dev`, with the byte after the disk inode.
abbrev pub spill_slot : ℕ → State → State
spill_slot i s =
    let num = (s.table i).inode_num in
    let byte =
      if has_next num then (disk_inode (num + 1) s).type else s.after_block (inode_block num s) in
    let next = s.table (i + 1) in
    if s.buffers_below
    then s
    else put_inode (i + 1) (record next { dev = with_low next.dev byte }) s

-- `log_write(buf)` of a block in any view.
unfoldable pub log_block : ℕ → State → Outcome State
log_block n s = do b ← logged_write n s.blocks; done (record s { blocks = b })

-- `buffer_alloc`: the words of a block are zero when its bytes are.
unfoldable pub alloc_block : State → Outcome (ℕ × State)
alloc_block s = do
  (n, b) ← buffer_alloc s.blocks
  done (n, record s { blocks = b; words = update s.words n (λ k. 0) })

unfoldable pub free_block : ℕ → State → Outcome State
free_block n s = do b ← buffer_free n s.blocks; done (record s { blocks = b })

abbrev pub is_inode : ℕ → ℕ → Inode → Bool
is_inode dev num inode = ltb 0 inode.refcount && (inode.dev == dev) && (inode.inode_num == num)

-- The loop of `inode_get` from slot `i` on, with the first free slot that it has seen.
unfoldable pub get_from : ℕ → ℕ → ℕ → ℕ → Option ℕ → (ℕ → Inode) → Bool × Option ℕ
get_from zero i dev num empty table = (false, empty)
get_from (suc left) i dev num empty table =
    let next : Option ℕ = elim empty [
      | some e ↦ some e
      | none ↦ if (table i).refcount == 0 then some i else none
    ] in
    let later = get_from left (i + 1) dev num next table in
    if is_inode dev num (table i) then (true, some i) else later

abbrev pub more_refs : Inode → Inode
more_refs inode = record inode { refcount = (inode.refcount + 1) % u32_mod }

abbrev pub claim : ℕ → ℕ → Inode → Inode
claim dev num inode = record inode { dev = dev; inode_num = num; refcount = 1; valid = false }

-- After the loop: the slot that it found, or else the free one.
unfoldable pub take_slot : ℕ → ℕ → State → Bool × Option ℕ → Outcome (ℕ × State)
take_slot dev num s (found, none) = panic
take_slot dev num s (true, some i) = done (i, put_inode i (more_refs (s.table i)) s)
take_slot dev num s (false, some i) = done (i, put_inode i (claim dev num (s.table i)) s)

-- The slot of the inode.
unfoldable pub inode_get : ℕ → ℕ → State → Outcome (ℕ × State)
unfolding take_slot
inode_get dev num s = take_slot dev num s (get_from numinode 0 dev num none s.table)

unfoldable pub inode_dup : ℕ → State → State
inode_dup i s = put_inode i (more_refs (s.table i)) s

-- The loop of `inode_alloc` from inode number `num` on.
unfoldable pub inode_alloc_from : ℕ → ℕ → ℕ → ℕ → State → Outcome (ℕ × State)
inode_alloc_from zero num dev type s = panic
inode_alloc_from (suc left) num dev type s =
    let later = inode_alloc_from left (num + 1) dev type s in
    if (disk_inode num s).type == 0
    then (do
      s ← log_block (inode_block num s) (
          put_disk_inode num
            (record {
              type = type;
              major_dev_num = 0;
              minor_dev_num = 0;
              num_link = 0;
              size = 0;
              addresses = λ k. 0;
            })
            s)
      inode_get dev num s)
    else later

unfoldable pub inode_alloc : ℕ → ℕ → State → Outcome (ℕ × State)
inode_alloc dev type s = inode_alloc_from (s.num_inodes - 1) 1 dev type s

-- A lock that another process holds leaves the caller asleep.
unfoldable pub inode_lock : ℕ → ℕ → State → Outcome State
inode_lock pid i s = do
  panic_if (ltb (s.table i).refcount 1)
  let locked = record (s.table i) { lock = record { locked = true; process_id = pid } }
  let filled = record locked { copy = disk_inode (s.table i).inode_num s; valid = true }
  if (s.table i).lock.locked
      then asleep
      else (if (s.table i).valid
          then done (put_inode i locked s)
          else (do panic_if (filled.copy.type == 0); done (put_inode i filled (spill_slot i s))))

unfoldable pub inode_unlock : ℕ → ℕ → State → Outcome State
inode_unlock pid i s = do
  panic_if (not (is_holding_sleeplock pid (s.table i).lock) || ltb (s.table i).refcount 1)
  done (put_inode i (record (s.table i) { lock = initsleeplock }) s)

unfoldable pub inode_update : ℕ → State → Outcome State
inode_update i s =
    log_block (inode_block (s.table i).inode_num s)
      (spill_disk i (put_disk_inode (s.table i).inode_num (s.table i).copy s))
