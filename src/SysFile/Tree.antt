-- ===== src/SysFile/Tree.antt =====
-- src/kernel/sysfile.c, lines 281 to 543: the system calls that change the tree of directories.
-- The locals `de` and `name` stand at fixed addresses, as do the constants "." and "..".
use risc_v_os.Base.{
  ℕ, ◌+◌, ◌-◌, ◌%◌, ◌^◌, Bool, true, false, not, ◌&&◌, ◌||◌, Option, none, some, List, ◌==◌,
  if◌then◌else◌,
}
use risc_v_os.Base.Outcome.{Outcome, done, ◌>>=◌}
use risc_v_os.Log as LogLayer
use risc_v_os.Log.{begin_op, end_op}
use risc_v_os.Inode as InodeLayer
use risc_v_os.Inode.{DiskInode, inode_alloc, inode_lock, inode_unlock, inode_update}
use risc_v_os.Inode.Storage.{put_copy, inode_put}
use risc_v_os.Directory.{dir_type, dir_lookup, dir_link, name_inode, nameiparent}
use risc_v_os.File.{finish_op, put_system, put_log}
use risc_v_os.SysFile.{State}

abbrev pub file_type : ℕ
file_type = 2

abbrev pub device_type : ℕ
device_type = 3

abbrev pub u16_mod : ℕ
u16_mod = 2 ^ 16

abbrev pub pid : State → ℕ
pid s = s.file.proc.process_id

abbrev pub copy_of : ℕ → State → DiskInode
copy_of i s = (s.file.system.table i).copy

abbrev pub put_inodes : InodeLayer.State → State → State
put_inodes t s = record s { file = put_system t s.file }

abbrev pub set_copy : ℕ → DiskInode → State → State
set_copy i d s = put_inodes (put_copy i d s.file.system) s

-- `inode_lock`, `inode_unlock` and then `inode_put`, and `inode_update`, on the state of a call.
unfoldable pub lock : ℕ → State → Outcome State
lock i s = do t ← inode_lock (pid s) i s.file.system; done (put_inodes t s)

unfoldable pub unlock : ℕ → State → Outcome State
unlock i s = do t ← inode_unlock (pid s) i s.file.system; done (put_inodes t s)

unfoldable pub put : ℕ → State → Outcome State
put i s = do t ← inode_put (pid s) i s.file.system; done (put_inodes t s)

unfoldable pub unlock_put : ℕ → State → Outcome State
unlock_put i s = do s ← unlock i s; put i s

unfoldable pub save : ℕ → State → Outcome State
save i s = do t ← inode_update i s.file.system; done (put_inodes t s)

-- `ip->num_link++` and `ip->num_link--` with the update after it.
unfoldable pub link_up : ℕ → State → Outcome State
link_up i s =
    save i
      (set_copy i (record (copy_of i s) { num_link = ((copy_of i s).num_link + 1) % u16_mod }) s)

unfoldable pub link_down : ℕ → State → Outcome State
link_down i s = save i (
    set_copy i
      (record (copy_of i s) { num_link = ((copy_of i s).num_link + u16_mod - 1) % u16_mod }) s)

unfoldable pub begin : List (LogLayer.State → LogLayer.State) → State → Outcome State
begin events s = do
  l ← begin_op events s.file.system.blocks.log
  done (record s { file = put_log l s.file })

unfoldable pub finish {ℓ} : {A : Type ℓ} → ℕ → A → State → Outcome (A × State)
finish hart a s = do f ← finish_op hart s.file; done (a, record s { file = f })

module _ (hart : ℕ) (events : List (LogLayer.State → LogLayer.State))
    (rounds de name dot dotdot : ℕ) where
  unfoldable pub inode_of : ℕ → State → Outcome (Option ℕ × State)
  inode_of path s = do
    (i, mem, t) ← name_inode de rounds (pid s) s.cwd name path s.mem s.file.system
    done (i, record (put_inodes t s) { mem = mem })

  unfoldable pub parent_of : ℕ → State → Outcome (Option ℕ × State)
  parent_of path s = do
    (i, mem, t) ← nameiparent de rounds (pid s) s.cwd path name s.mem s.file.system
    done (i, record (put_inodes t s) { mem = mem })

  unfoldable pub look_up : ℕ → State → Outcome (Option (ℕ × ℕ) × State)
  look_up dp s = do
    (hit, mem, t) ← dir_lookup de dp name s.mem s.file.system
    done (hit, record (put_inodes t s) { mem = mem })

  unfoldable pub link_name : ℕ → ℕ → ℕ → State → Outcome State
  link_name dp at num s = do
    (mem, t) ← dir_link de (pid s) dp at num s.mem s.file.system
    done (record (put_inodes t s) { mem = mem })

  -- `create` of a name that its directory `dp` has not.
  unfoldable pub create_in : ℕ → ℕ → ℕ → ℕ → State → Outcome (Option ℕ × State)
  create_in dp type major minor s = do
    (ip, t) ← inode_alloc (s.file.system.table dp).dev type s.file.system
    s ← lock ip (put_inodes t s)
    s ← save ip (
        set_copy ip
          (record (copy_of ip s) {
            major_dev_num = major % u16_mod;
            minor_dev_num = minor % u16_mod;
            num_link = 1;
          })
          s)
    let num = (s.file.system.table ip).inode_num
    s ←
        if type == dir_type
        then (do
          s ← link_up dp s
          s ← link_name ip dot num s
          link_name ip dotdot (s.file.system.table dp).inode_num s)
        else done s
    s ← link_name dp name num s
    s ← unlock_put dp s
    done (some ip, s)

  -- The inode comes back locked.
  unfoldable pub create : ℕ → ℕ → ℕ → ℕ → State → Outcome (Option ℕ × State)
  create path type major minor s = do
    (parent, s) ← parent_of path s
    elim parent [
      | none ↦ done (none, s)
      | some dp ↦ do
        s ← lock dp s
        (hit, s) ← look_up dp s
        elim hit [
          | none ↦ create_in dp type major minor s
          | some (ip, _) ↦ do
            s ← unlock_put dp s
            s ← lock ip s
            let found = (copy_of ip s).type
            if (type == file_type) && ((found == file_type) || (found == device_type))
                then done (some ip, s)
                else (do s ← unlock_put ip s; done (none, s))
        ]
    ]

  -- `true` for 0 and `false` for -1, of `sys_mknod` and `sys_mkdir` after their arguments.
  unfoldable pub make : Option ℕ → ℕ → ℕ → ℕ → State → Outcome (Bool × State)
  make path type major minor s = do
    s ← begin events s
    (made, s) ← elim path [ none ↦ done (none, s) | some p ↦ create p type major minor s ]
    elim made [ none ↦ finish hart false s | some ip ↦ do s ← unlock_put ip s; finish hart true s ]

  unfoldable pub sys_mknod : Option ℕ → Option ℕ → Option ℕ → State → Outcome (Bool × State)
  sys_mknod path none minor s = make none device_type 0 0 s
  sys_mknod path (some major) none s = make none device_type 0 0 s
  sys_mknod path (some major) (some minor) s = make path device_type major minor s

  unfoldable pub sys_mkdir : Option ℕ → State → Outcome (Bool × State)
  sys_mkdir path s = make path dir_type 0 0 s

  unfoldable pub sys_chdir : Option ℕ → State → Outcome (Bool × State)
  sys_chdir path s = do
    s ← begin events s
    (found, s) ← elim path [ none ↦ done (none, s) | some p ↦ inode_of p s ]
    elim found [
      | none ↦ finish hart false s
      | some ip ↦ do
        s ← lock ip s
        if not ((copy_of ip s).type == dir_type)
            then (do s ← unlock_put ip s; finish hart false s)
            else (do
              s ← unlock ip s
              s ← put s.cwd s
              (ok, s) ← finish hart true s
              done (ok, record s { cwd = ip }))
    ]
