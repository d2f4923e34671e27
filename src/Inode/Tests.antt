-- ===== src/Inode/Tests.antt =====
-- A file system whose first 48 blocks are taken and a table with one inode in use.
use risc_v_os.Base.{ℕ, ◌+◌, ◌<◌, ◌≡◌, ◌⊎◌, refl, true, false, some, arith, ◌==◌, ltb, if◌then◌else◌}
use risc_v_os.Base.Outcome.{done}
use risc_v_os.Base.Family.{update}
use risc_v_os.Cache.{initsleeplock}
use risc_v_os.Log as LogLayer
use risc_v_os.Log.{log_write}
use risc_v_os.Bitmap as BlockLayer
use risc_v_os.Bitmap.{Bytes, logged_write, buffer_free}
use risc_v_os.Inode.{
  State, Inode, DiskInode, is_inode, get_from, take_slot, inode_get, put_inode, claim, log_block,
  inode_update, inode_lock, spill_disk, put_disk_inode, disk_inode,
}
use risc_v_os.Inode.Storage.{free_indirect, map_direct, buffer_map, read_inode}
use risc_v_os.Inode.Table.{Result, inode_get_lem, IsUnique, is_inode-fields, inode_get-IsUnique}
use risc_v_os.Inode.Fresh.{IsGuarded}
use risc_v_os.Inode.Addresses.{address, IsHeld, Mapped}
use risc_v_os.Inode.Mapping.{buffer_map_lem}
use risc_v_os.Inode.Content.{kernel_store, kernel_store-IsExact, IsWhole, Delivered, read_inode_lem}
use risc_v_os.Inode.Update.{inode_lock-inode_update, inode_update-frees_next}

abbrev open_log : LogLayer.State
open_log = record {
  log = record {
    start = 2;
    size = 1000;
    commit = false;
    num_syscalls = 1;
    count = 0;
    block = λ j. 0;
  };
  cache = λ b i. 0;
  disk = λ b i. 0;
  pins = λ b. 0;
}

abbrev taken_bytes : Bytes
taken_bytes k = if ltb k 6 then 255 else 0

abbrev block_layer : BlockLayer.State
block_layer = record { size = 1000; bitmap_start = 45; bytes = λ n. taken_bytes; log = open_log }

abbrev small_file : DiskInode
small_file = record {
  type = 2;
  major_dev_num = 0;
  minor_dev_num = 0;
  num_link = 1;
  size = 5;
  addresses = λ k. if k == 0 then 46 else 0;
}

abbrev used_slot : Inode
used_slot = record {
  dev = 1;
  inode_num = 7;
  refcount = 1;
  lock = initsleeplock;
  valid = false;
  copy = small_file;
}

abbrev free_slot : Inode
free_slot = record used_slot { refcount = 0 }

abbrev system : State
system = record {
  blocks = block_layer;
  words = λ n k. 0;
  inodes = λ n k. record small_file { size = 3 };
  table = λ i. if i == 0 then used_slot else free_slot;
  num_inodes = 200;
  inode_start = 32;
  buffers_below = true;
  after_block = λ n. 0;
}

only_first : (dev num i : ℕ) → is_inode dev num (system.table i) ≡ true → i ≡ 0
only_first dev num i h =
    let (live, _, _) = is_inode-fields dev num (system.table i) h in ground arith

system-IsUnique : IsUnique system.table
system-IsUnique dev num i j hi hj at_i at_j =
    let first = only_first dev num i at_i in
    let second = only_first dev num j at_j in omega (arith, first, second)

abbrev second_in : State
second_in = put_inode 1 (claim 1 9 (system.table 1)) system

claims_second : inode_get 1 9 system ≡ done (1, second_in)
unfolding inode_get get_from take_slot
claims_second = refl

inode_get-IsUnique_example : IsUnique second_in.table
inode_get-IsUnique_example = inode_get-IsUnique 1 9 system system-IsUnique 1 second_in claims_second

taken_bytes-lt : (n j : ℕ) → taken_bytes j < 256
taken_bytes-lt n j = ground arith

block_layer-IsGuarded : IsGuarded block_layer
block_layer-IsGuarded = record {
  some_block = omega arith;
  one_bitmap = omega arith;
  bytes = taken_bytes-lt;
  zero_held = omega arith;
  bitmap_held = omega arith;
}

system-IsHeld : IsHeld 0 system
system-IsHeld = record {
  guarded = block_layer-IsGuarded;
  held = λ some_block. absurd (some_block refl);
}

finds_first : buffer_map 0 0 system ≡ done (46, system)
unfolding buffer_map map_direct
finds_first = refl

buffer_map_lem_example :
    Mapped 0 0 system 46 system
    × ((address 0 0 system ≡ 0) ⊎ ((46 ≡ address 0 0 system) × (system ≡ system)))
buffer_map_lem_example = buffer_map_lem 0 0 system system-IsHeld 46 system finds_first

system-IsWhole : IsWhole 0 system
system-IsWhole = record { bound = omega arith; present = λ k h e. ground arith }

read_inode_lem_example :
    (mem' : ℕ → ℕ) × (read_inode kernel_store 0 100 1 10 (λ a. 0) system
      ≡ done (some 4, mem', system))
    × Delivered 0 system 100 1 4 (λ a. 0) mem'
read_inode_lem_example =
    read_inode_lem kernel_store (λ m. m) 0 system 100 1 10 (λ a. 0) (kernel_store-IsExact 100 110)
      system-IsWhole (omega arith) (omega arith)

abbrev updated : State
updated = record system {
  blocks = record block_layer {
    log = record open_log {
      log = record (open_log.log) { count = 1; block = update (λ j. 0) 0 32 };
      pins = update (λ b. 0) 32 1;
    };
  };
  inodes = (spill_disk 0 (put_disk_inode 7 small_file system)).inodes;
}

runs_update : inode_update 0 system ≡ done updated
unfolding inode_update log_block logged_write log_write LogLayer.find_entry
runs_update = refl

-- The slot after the first has never been used.
abbrev unused_next : State
unused_next = record system {
  table = λ i. if i == 0 then used_slot else record free_slot { dev = 0 };
}

abbrev freed_next : State
freed_next = record unused_next {
  blocks = updated.blocks;
  inodes = (spill_disk 0 (put_disk_inode 7 small_file unused_next)).inodes;
}

runs_unused : inode_update 0 unused_next ≡ done freed_next
unfolding inode_update log_block logged_write log_write LogLayer.find_entry
runs_unused = refl

inode_update-frees_next_example : (disk_inode (7 + 1) freed_next).type ≡ 0
inode_update-frees_next_example =
    inode_update-frees_next 0 unused_next freed_next refl refl (omega arith) refl runs_unused

inode_lock-inode_update_example :
    (u : State) × (inode_lock 4 0 updated ≡ done u)
    × ((u.table 0).copy ≡ small_file)
    × ((u.table 0).valid ≡ true)
inode_lock-inode_update_example =
    inode_lock-inode_update 4 0 0 system updated runs_update refl refl (omega arith) refl refl
      (omega arith)

-- The loop over the indirect block frees nothing when its first twelve entries are 0, though entry
-- 12 holds a block.
keeps_late_entry :
    free_indirect 12 0 46 (record system { words = λ n k. if k == 12 then 47 else 0 })
    ≡ done (record system { words = λ n k. if k == 12 then 47 else 0 })
unfolding free_indirect
keeps_late_entry = refl

inode_get_lem_example : Result 1 7 system
inode_get_lem_example = inode_get_lem 1 7 system
