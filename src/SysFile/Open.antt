-- ===== src/SysFile/Open.antt =====
-- src/kernel/sysfile.c, lines 556 to 627: `sys_open`.
use risc_v_os.Base.{ℕ, Bool, not, ◌&&◌, ◌||◌, Option, none, some, List, ◌==◌, if◌then◌else◌}
use risc_v_os.Base.Bits.{bit}
use risc_v_os.Base.Outcome.{Outcome, done, ◌>>=◌}
use risc_v_os.Log as LogLayer
use risc_v_os.Inode.{DiskInode}
use risc_v_os.Inode.Storage.{inode_truncate}
use risc_v_os.Directory.{dir_type}
use risc_v_os.File.{File, fd_inode, fd_device, put_file, file_alloc, file_close}
use risc_v_os.File.Transfer.{is_no_device}
use risc_v_os.SysFile.{State, fdalloc}
use risc_v_os.SysFile.Tree.{
  file_type, device_type, copy_of, put_inodes, lock, unlock, unlock_put, begin, finish, inode_of,
  create,
}

-- O_WRONLY, O_RDWR, O_CREATE and O_TRUNC are bits 0, 1, 9 and 10.
abbrev pub has_flag : ℕ → ℕ → Bool
has_flag omode k = bit omode k == 1

-- The fields that `sys_open` sets in a new file.
abbrev pub opened : ℕ → ℕ → DiskInode → File → File
opened ip omode copy file =
    let is_device = copy.type == device_type in
    record file {
      type = if is_device then fd_device else fd_inode;
      major_dev_num = if is_device then copy.major_dev_num else file.major_dev_num;
      offset = if is_device then file.offset else 0;
      inode = ip;
      readable = not (has_flag omode 0);
      writable = has_flag omode 0 || has_flag omode 1;
    }

module _ (hart : ℕ) (events : List (LogLayer.State → LogLayer.State)) where
  unfoldable pub open_fails : ℕ → State → Outcome (Option ℕ × State)
  open_fails ip s = do s ← unlock_put ip s; finish hart none s

  -- `sys_open` from the locked inode on.
  unfoldable pub open_inode : ℕ → ℕ → State → Outcome (Option ℕ × State)
  open_inode ip omode s =
      let copy = copy_of ip s in
      if (copy.type == device_type) && is_no_device copy.major_dev_num
      then open_fails ip s
      else elim (file_alloc s.file).0 [
        | none ↦ open_fails ip s
        | some f ↦ do
          (fd, s) ← fdalloc f (record s { file = (file_alloc s.file).1 })
          elim fd [
            | none ↦ do t ← file_close hart events f s.file; open_fails ip (record s { file = t })
            | some fd ↦ do
              let s = record s { file = put_file f (opened ip omode copy (s.file.files f)) s.file }
              s ←
                  if has_flag omode 10 && (copy.type == file_type)
                  then (do t ← inode_truncate ip s.file.system; done (put_inodes t s))
                  else done s
              s ← unlock ip s
              finish hart (some fd) s
          ]
      ]

  module _ (rounds de name dot dotdot : ℕ) where
    -- The locked inode that is to be opened.
    unfoldable pub open_path : ℕ → ℕ → State → Outcome (Option ℕ × State)
    open_path path omode s =
        if has_flag omode 9
        then create hart events rounds de name dot dotdot path file_type 0 0 s
        else (do
          (found, s) ← inode_of hart events rounds de name dot dotdot path s
          elim found [
            | none ↦ done (none, s)
            | some ip ↦ do
              s ← lock ip s
              if ((copy_of ip s).type == dir_type) && not (omode == 0)
                  then (do s ← unlock_put ip s; done (none, s))
                  else done (some ip, s)
          ])

    unfoldable pub sys_open : Option ℕ → Option ℕ → State → Outcome (Option ℕ × State)
    sys_open none omode s = done (none, s)
    sys_open (some path) none s = done (none, s)
    sys_open (some path) (some omode) s = do
      s ← begin events s
      (found, s) ← open_path path omode s
      elim found [ none ↦ finish hart none s | some ip ↦ open_inode ip omode s ]
