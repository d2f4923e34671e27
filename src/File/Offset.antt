-- ===== src/File/Offset.antt =====
-- `read_file` on an inode: the bytes from the offset on, and the offset after them.
use risc_v_os.Base.{ℕ, ◌≤◌, ◌<◌, ◌≡◌, true}
use risc_v_os.Cache.{Sleeplock, initsleeplock}
use risc_v_os.Inode as InodeLayer
use risc_v_os.Inode.{put_inode}
use risc_v_os.Inode.Content.{size, IsWhole}
use risc_v_os.File.{fd_inode, State}

-- A file that may be read, on an inode in use that is read in and not locked, without holes.
pub record IsReady (f : ℕ) (s : State) : Type 0 where
  pub readable : (s.files f).readable ≡ true
  pub on_inode : (s.files f).type ≡ fd_inode
  pub used : 0 < (s.system.table (s.files f).inode).refcount
  pub unlocked : (s.system.table (s.files f).inode).lock ≡ initsleeplock
  pub valid : (s.system.table (s.files f).inode).valid ≡ true
  pub whole : IsWhole (s.files f).inode s.system
  pub within : (s.files f).offset ≤ size (s.files f).inode s.system

abbrev with_lock : InodeLayer.Inode → Sleeplock → InodeLayer.Inode
with_lock x l = record x { lock = l }

abbrev free_lock : InodeLayer.Inode → InodeLayer.Inode
free_lock x = record x { lock = initsleeplock }

module _ (pid i : ℕ) (s : InodeLayer.State) where
  abbrev locked : InodeLayer.State
  locked = put_inode i (record (s.table i) { lock = record { locked = true; process_id = pid } }) s

  abbrev unlocked : InodeLayer.State
  unlocked = put_inode i (record (locked.table i) { lock = initsleeplock }) locked
